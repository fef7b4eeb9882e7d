-- ===== src/Config/Distinctness.antt =====
-- internal/connectip/config/config.go, ResolvedClients: the whole loop. No address and no key of the
-- result is shared.
use jiejie_masque_unified.Base.{
  ◌≡◌, ◌≢◌, subst, inl, inr, ◌==◌, nat_eq, string_eq, true, none, some, List, [], ◌∷◌, ◌++◌, map,
  In, In-append_cases, append-Distinct, Distinct, String, beq_refl, length, if◌then◌else◌, arith,
}
use jiejie_masque_unified.Base.Fallible.{>>=-eq-ok, ok-injective}
use jiejie_masque_unified.Net.{Addr, addr_eq}
use jiejie_masque_unified.Dict.{get, get-put}
use jiejie_masque_unified.Config.{
  Client, ResolvedClient, Config, Library, TunnelAddresses, addresses, primary_address, no_clients,
  ok, err, Seen, server_addresses, resolve_client, resolve_all, resolved_clients,
}
use jiejie_masque_unified.Config.Resolution.{
  tunnel_of, IsResolved, IsRound, KeysSeen, resolve_client-IsRound,
}

abbrev pub all_addresses : List ResolvedClient → List Addr
all_addresses [] = []
all_addresses (r ∷ rs) = addresses (tunnel_of r) ++ all_addresses rs

abbrev pub all_keys : List ResolvedClient → List String
all_keys = map (λ r. r.public_key)

-- The clients one by one.
abbrev pub AllResolved : Library → TunnelAddresses → List Client → List ResolvedClient → Type 0
AllResolved l server [] [] = Unit
AllResolved l server (cl ∷ cls) (r ∷ rs) = IsResolved l server cl r × AllResolved l server cls rs
AllResolved l server _ _ = ⊥

-- The loop from what it has seen.
pub record IsLoop (l : Library) (server : TunnelAddresses) (cls : List Client) (seen : Seen)
    (rs : List ResolvedClient) : Type 0 where
  pub each : AllResolved l server cls rs
  pub addresses_distinct : Distinct (all_addresses rs)
  pub addresses_new : (a : Addr) → In a (all_addresses rs) → ¬ In a seen.ips
  pub keys_distinct : Distinct (all_keys rs)
  pub keys_new : (k : String) → In k (all_keys rs) → get k seen.keys ≡ none

module _ (l : Library) (server : TunnelAddresses) (cl : Client) (cls : List Client) where
  extend-IsLoop :
      (r : ResolvedClient) (rs : List ResolvedClient) (seen seen' : Seen)
      → IsResolved l server cl r
      → IsRound r seen seen'
      → IsLoop l server cls seen' rs
      → IsLoop l server (cl ∷ cls) seen (r ∷ rs)
  extend-IsLoop r rs seen seen' one round loop = record {
    each = (one, loop.each);
    addresses_distinct =
        append-Distinct (addresses (tunnel_of r)) (all_addresses rs) round.marked.distinct
          loop.addresses_distinct
          (λ a p q. loop.addresses_new a q ((round.marked.exactly a).1 (inl p)));
    addresses_new = λ a p q.
        elim (In-append_cases a (addresses (tunnel_of r)) (all_addresses rs) p) [
          | inl here ↦ round.marked.fresh a here q
          | inr later ↦ loop.addresses_new a later ((round.marked.exactly a).1 (inr q))
        ];
    keys_distinct =
        (λ p. absurd (taken r.public_key p (beq_refl r.public_key)), loop.keys_distinct);
    keys_new = λ k p. elim p [ inl e ↦ rw e round.new_key | inr later ↦ earlier k later ];
  }
    where
      after_put :
          (k : String)
          → get k seen'.keys
            ≡ (if r.public_key == k then some (primary_address (tunnel_of r)) else get k seen.keys)
      after_put k =
          rw round.recorded (get-put r.public_key k (primary_address (tunnel_of r)) seen.keys)

      taken : (k : String) → In k (all_keys rs) → (r.public_key == k) ≡ true → ⊥
      taken k p e = ground (arith, after_put k, loop.keys_new k p)

      earlier : (k : String) → In k (all_keys rs) → get k seen.keys ≡ none
      earlier k p = ground (arith, after_put k, loop.keys_new k p)

resolve_all-IsLoop :
    (l : Library) (server : TunnelAddresses) (cls : List Client) (seen : Seen)
    (rs : List ResolvedClient)
    → KeysSeen seen
    → resolve_all l server cls seen ≡ ok rs
    → IsLoop l server cls seen rs
unfolding resolve_all
resolve_all-IsLoop l server [] seen rs known h =
    subst (IsLoop l server [] seen) (ok-injective [] rs h) (record {
      each = tt;
      addresses_distinct = tt;
      addresses_new = λ a p. elim p [ ];
      keys_distinct = tt;
      keys_new = λ k p. elim p [ ];
    })
resolve_all-IsLoop l server (cl ∷ cls) seen rs known h =
    let (p, e, h1) = >>=-eq-ok (resolve_client l server cl seen) _ h in
    let (rest, f, h2) = >>=-eq-ok (resolve_all l server cls p.1) _ h1 in
    let (one, round) = resolve_client-IsRound l server cl seen known p.0 p.1 e in
    subst (IsLoop l server (cl ∷ cls) seen) (ok-injective (p.0 ∷ rest) rs h2) (
      extend-IsLoop l server cl cls p.0 rest seen p.1 one round
        (resolve_all-IsLoop l server cls p.1 rest round.keys_seen f))

-- What a successful resolution gives.
pub record IsResolution (l : Library) (c : Config) (rs : List ResolvedClient) : Type 0 where
  pub server : TunnelAddresses
  pub serves : server_addresses l c ≡ ok server
  pub clients : AllResolved l server c.clients rs
  pub nonempty : length c.clients ≢ 0
  pub addresses_distinct : Distinct (all_addresses rs)
  pub keys_distinct : Distinct (all_keys rs)

nothing_seen : KeysSeen (record { ips = []; keys = [] })
unfolding get
nothing_seen k a e = cc

past_guard :
    (l : Library) (server : TunnelAddresses) (cls : List Client) (seen : Seen)
    (rs : List ResolvedClient)
    → (if length cls == 0 then err no_clients else resolve_all l server cls seen) ≡ ok rs
    → (length cls ≢ 0) × (resolve_all l server cls seen ≡ ok rs)
past_guard l server [] seen rs h = cc
past_guard l server (cl ∷ cls) seen rs h = (omega arith, ground arith)

-- If ResolvedClients succeeds, then the server has an address and there is a client; the result has
-- one entry for each client, in order, with the client's key, which auth accepts, and one or two host
-- prefixes, of different families, whose addresses are ordinary, lie in the server's network of the
-- family and differ from the server's; no two clients share an address, and no two share a key.
pub resolved_clients-IsResolution :
    (l : Library) (c : Config) (rs : List ResolvedClient)
    → resolved_clients l c ≡ ok rs
    → IsResolution l c rs
unfolding resolved_clients
resolved_clients-IsResolution l c rs h =
    let (server, e, h1) = >>=-eq-ok (server_addresses l c) _ h in
    let (some_client, h2) = past_guard l server c.clients (record { ips = []; keys = [] }) rs h1 in
    let loop = resolve_all-IsLoop l server c.clients _ rs nothing_seen h2 in
    record {
      server = server;
      serves = e;
      clients = loop.each;
      nonempty = some_client;
      addresses_distinct = loop.addresses_distinct;
      keys_distinct = loop.keys_distinct;
    }
