-- ===== src/Tunnel/Counters.antt =====
-- internal/connectip/tunnel/tun_linux.go, Read, Write and Stats: the counters of a device.
use jiejie_masque_unified.Base.{ℕ, ◌+◌, ◌%◌, ◌^◌, ◌≡◌, Option, none, some, List, [], ◌∷◌, arith}

-- Four counters of 64 bits; Stats reads each of them.
pub record Stats : Type 0 where
  pub rx_packets : ℕ
  pub rx_bytes : ℕ
  pub tx_packets : ℕ
  pub tx_bytes : ℕ

-- What os.File answers: the number of bytes, or none on an error.
pub data Transfer : Type 0 where
  read : Option ℕ → Transfer
  write : Option ℕ → Transfer

unfoldable pub transfer : Transfer → Stats → Stats
transfer (read none) s = s
transfer (read (some n)) s = record s {
  rx_packets = (s.rx_packets + 1) % 2 ^ 64;
  rx_bytes = (s.rx_bytes + n % 2 ^ 64) % 2 ^ 64;
}
transfer (write none) s = s
transfer (write (some n)) s = record s {
  tx_packets = (s.tx_packets + 1) % 2 ^ 64;
  tx_bytes = (s.tx_bytes + n % 2 ^ 64) % 2 ^ 64;
}

-- The counters after transfers, the last of them first.
unfoldable pub stats : List Transfer → Stats
stats [] = record { rx_packets = 0; rx_bytes = 0; tx_packets = 0; tx_bytes = 0 }
stats (t ∷ earlier) = transfer t (stats earlier)

-- The packets and the bytes of the transfers that succeeded.
abbrev pub total : (Transfer → ℕ) → List Transfer → ℕ
total f [] = 0
total f (t ∷ earlier) = f t + total f earlier

abbrev pub packets_read : Transfer → ℕ
packets_read (read (some n)) = 1
packets_read _ = 0

abbrev pub bytes_read : Transfer → ℕ
bytes_read (read (some n)) = n
bytes_read _ = 0

abbrev pub packets_written : Transfer → ℕ
packets_written (write (some n)) = 1
packets_written _ = 0

abbrev pub bytes_written : Transfer → ℕ
bytes_written (write (some n)) = n
bytes_written _ = 0

-- The counters are the totals of the transfers that succeeded, modulo 2^64.
pub record IsCounted (ts : List Transfer) (s : Stats) : Type 0 where
  pub received_packets : s.rx_packets ≡ total packets_read ts % 2 ^ 64
  pub received_bytes : s.rx_bytes ≡ total bytes_read ts % 2 ^ 64
  pub sent_packets : s.tx_packets ≡ total packets_written ts % 2 ^ 64
  pub sent_bytes : s.tx_bytes ≡ total bytes_written ts % 2 ^ 64

module _ (ts : List Transfer) where
  transfer-IsCounted :
      (t : Transfer) (s : Stats) → IsCounted ts s → IsCounted (t ∷ ts) (transfer t s)
  unfolding transfer
  transfer-IsCounted t s c = record {
    received_packets = ground (arith, c.received_packets);
    received_bytes = ground (arith, c.received_bytes);
    sent_packets = ground (arith, c.sent_packets);
    sent_bytes = ground (arith, c.sent_bytes);
  }

-- After any transfers, each counter is the number of packets, or the sum of the bytes, of the reads or
-- the writes that succeeded, modulo 2^64; a transfer that fails counts for nothing.
pub stats-IsCounted : (ts : List Transfer) → IsCounted ts (stats ts)
unfolding stats
stats-IsCounted [] = record {
  received_packets = omega arith;
  received_bytes = omega arith;
  sent_packets = omega arith;
  sent_bytes = omega arith;
}
stats-IsCounted (t ∷ ts) = transfer-IsCounted ts t (stats ts) (stats-IsCounted ts)
