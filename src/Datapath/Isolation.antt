-- ===== src/Datapath/Isolation.antt =====
-- cmd/jiejie-masque/main.go, prepareSessionPacket and sessionReaderWithAddresses: what a client can
-- send into the TUN device.
use jiejie_masque_unified.Base.{
  ◌≡◌, sym, subst, ◌∙◌, ◌⊎◌, inl, inr, Bool, true, false, Option, none, some, List, [], ◌∷◌, All,
  All-In, In, In-append_cases, Go, ret, panics, Ensures, Ensures-bind, Ensures-ret, Bool-cases,
  if◌then◌else◌, arith,
}
use jiejie_masque_unified.Base.Fallible.{ok-injective}
use jiejie_masque_unified.Net.{Addr}
use jiejie_masque_unified.Packet.{Bytes, Info, parse}
use jiejie_masque_unified.Packet.Bounds.{ParsesWithin, parse-IsBounded}
use jiejie_masque_unified.Session.{Session}
use jiejie_masque_unified.Session.Construction.{owns_address_iff}
use jiejie_masque_unified.Config.{
  Config, ResolvedClient, Client, Library, TunnelAddresses, prefixes, addresses, ok,
  resolved_clients, server_addresses,
}
use jiejie_masque_unified.Config.Prefixes.{IsClientOf}
use jiejie_masque_unified.Config.Resolution.{tunnel_of}
use jiejie_masque_unified.Config.Distinctness.{
  AllResolved, all_addresses, IsResolution, resolved_clients-IsResolution,
}
use jiejie_masque_unified.Datapath.{
  contains_prefix, admits, prepare_session_packet, Read, packet, failed, Turn, left, Written,
  write_packet, read_turn, session_reader,
}

-- A packet that parses, comes from an address of the session and goes outside the server's networks.
pub record IsAdmissible (s : Session) (server : TunnelAddresses) (pkt : Bytes) : Type 0 where
  pub info : Info
  pub parsed : parse pkt ≡ ret (some info)
  pub own_source : In info.source s.client_ips
  pub routed : contains_prefix server info.destination ≡ false

module _ (s : Session) (server : TunnelAddresses) where
  admits-IsAdmissible :
      (pkt : Bytes) (done : Bool) (r : Option Info)
      → parse pkt ≡ ret r
      → admits s server done r ≡ true
      → IsAdmissible s server pkt
  unfolding admits
  admits-IsAdmissible pkt done none e h = absurd (ground arith)
  admits-IsAdmissible pkt done (some i) e h = record {
    info = i;
    parsed = e;
    own_source = (owns_address_iff s i.source).0 (ground arith);
    routed = ground arith;
  }

  prepare-IsAdmissible :
      (pkt : Bytes) (done : Bool)
      → Ensures
          (λ b. (b ≡ false) ⊎ IsAdmissible s server pkt)
          (prepare_session_packet pkt s server done)
  unfolding prepare_session_packet
  prepare-IsAdmissible pkt done =
      let (r, e, _) = Ensures-ret (ParsesWithin pkt) (parse pkt) (parse-IsBounded pkt) in
      rw e (elim (Bool-cases (admits s server done r)) [
        | inl h ↦ inr (admits-IsAdmissible pkt done r e h)
        | inr h ↦ inl h
      ])

  abbrev AllAdmissible : Written → Type 0
  AllAdmissible out = All (IsAdmissible s server) out.0

  write_packet-AllAdmissible :
      (pkt : Bytes) (admitted writable : Bool) (rest : Go Written)
      → (admitted ≡ false) ⊎ IsAdmissible s server pkt
      → Ensures AllAdmissible rest
      → Ensures AllAdmissible (write_packet pkt admitted writable rest)
  unfolding write_packet
  write_packet-AllAdmissible pkt false writable rest a h = h
  write_packet-AllAdmissible pkt true false rest a h = tt
  write_packet-AllAdmissible pkt true true panics a h = elim h [ ]
  write_packet-AllAdmissible pkt true true (ret out) (inl e) h = absurd (ground arith)
  write_packet-AllAdmissible pkt true true (ret out) (inr a) h = (a, h)

  after_read :
      (r : Read) (t : Turn) (rest : Go Written)
      → Ensures AllAdmissible rest
      → Ensures AllAdmissible (read_turn s server r t rest)
  unfolding read_turn
  after_read (failed e) t rest h = tt
  after_read (packet pkt) t rest h =
      Ensures-bind (λ b. (b ≡ false) ⊎ IsAdmissible s server pkt) AllAdmissible
        (prepare_session_packet pkt s server t.ended_at_select) _
        (prepare-IsAdmissible pkt t.ended_at_select)
        (λ b a. write_packet-AllAdmissible pkt b t.writable rest a h)

  unless_ended :
      (ended : Bool) (out : Go Written)
      → Ensures AllAdmissible out
      → Ensures AllAdmissible (if ended then ret ([], left) else out)
  unless_ended true out h = tt
  unless_ended false out h = h

  -- Whatever a client sends and however the environment answers, the reader returns without a read
  -- out of range, and every packet that it writes to the TUN device parses, has a source address of
  -- the session and a destination outside the server's networks.
  pub session_reader-AllAdmissible :
      (turns : List Turn)
      → Ensures (λ out. All (IsAdmissible s server) out.0) (session_reader s server turns)
  unfolding session_reader
  session_reader-AllAdmissible [] = tt
  session_reader-AllAdmissible (t ∷ turns) =
      unless_ended t.ended (read_turn s server t.read t (session_reader s server turns))
        (after_read t.read t (session_reader s server turns) (session_reader-AllAdmissible turns))

-- A client's address lies in the server's networks.
IsClientOf-contains :
    (server a : TunnelAddresses)
    → IsClientOf server a
    → All (λ ip. contains_prefix server ip ≡ true) (addresses a)
unfolding addresses prefixes contains_prefix
IsClientOf-contains server a c = ground arith

AllResolved-contains :
    (l : Library) (server : TunnelAddresses) (cls : List Client) (rs : List ResolvedClient)
    → AllResolved l server cls rs
    → (ip : Addr) → In ip (all_addresses rs)
    → contains_prefix server ip ≡ true
AllResolved-contains l server [] [] h ip p = elim p [ ]
AllResolved-contains l server [] (r ∷ rs) h ip p = elim h [ ]
AllResolved-contains l server (cl ∷ cls) [] h ip p = elim p [ ]
AllResolved-contains l server (cl ∷ cls) (r ∷ rs) h ip p =
    elim (In-append_cases ip (addresses (tunnel_of r)) (all_addresses rs) p) [
      | inl q ↦
          All-In (λ x. contains_prefix server x ≡ true) ip (addresses (tunnel_of r))
            (IsClientOf-contains server (tunnel_of r) h.0.placed) q
      | inr q ↦ AllResolved-contains l server cls rs h.1 ip q
    ]

-- A packet that does not go to a client.
abbrev pub AvoidsClients : List ResolvedClient → Session → Bytes → Type 0
AvoidsClients rs s pkt =
    (i : Info) × (parse pkt ≡ ret (some i))
    × In i.source s.client_ips
    × (¬ In i.destination (all_addresses rs))

IsAdmissible-AvoidsClients :
    (l : Library) (c : Config) (rs : List ResolvedClient) (s : Session)
    → (v : IsResolution l c rs) → (pkt : Bytes) → IsAdmissible s v.server pkt
    → AvoidsClients rs s pkt
IsAdmissible-AvoidsClients l c rs s v pkt a = (
  a.info,
  a.parsed,
  a.own_source,
  λ p. absurd (
      ground (
        arith,
        a.routed,
        AllResolved-contains l v.server c.clients rs v.clients a.info.destination p,
      )),
)

All-map : (P Q : Bytes → Type 0) (xs : List Bytes) → ((x : Bytes) → P x → Q x) → All P xs → All Q xs
All-map P Q [] f h = tt
All-map P Q (x ∷ xs) f h = (f x h.0, All-map P Q xs f h.1)

-- Clients are isolated from each other: with a resolved configuration, no packet that a session's
-- reader writes to the TUN device is addressed to any configured client, and each one comes from an
-- address of the session.
pub session_reader-AvoidsClients :
    (l : Library) (c : Config) (rs : List ResolvedClient) (server : TunnelAddresses) (s : Session)
    (turns : List Turn)
    → resolved_clients l c ≡ ok rs
    → server_addresses l c ≡ ok server
    → Ensures (λ out. All (AvoidsClients rs s) out.0) (session_reader s server turns)
session_reader-AvoidsClients l c rs server s turns e f =
    let v = resolved_clients-IsResolution l c rs e in
    let same : v.server ≡ server = ok-injective v.server server (sym v.serves ∙ f) in
    let (out, g, h) =
      Ensures-ret (AllAdmissible s server) (session_reader s server turns)
        (session_reader-AllAdmissible s server turns) in
    rw g (
      All-map (IsAdmissible s server) (AvoidsClients rs s) out.0
        (λ pkt a.
          IsAdmissible-AvoidsClients l c rs s v pkt
            (subst (λ x. IsAdmissible s x pkt) (sym same) a))
        h)
