-- ===== src/Config/Resolution.antt =====
-- internal/connectip/config/config.go, ResolvedClients: one round of its loop.
use jiejie_masque_unified.Base.{
  ℕ, ◌≡◌, refl, sym, subst, ◌∙◌, ◌⊎◌, inl, inr, ◌↔◌, ◌==◌, nat_eq, string_eq, true, false, none,
  some, List, [], ◌∷◌, All, In, Distinct, String, Bool-cases, Option-cases, beq-cases, arith,
}
use jiejie_masque_unified.Base.Fallible.{>>=-eq-ok, ok-injective}
use jiejie_masque_unified.Net.{Addr, addr_eq, is_valid}
use jiejie_masque_unified.Dict.{Dict, get, put, get-put}
use jiejie_masque_unified.Auth.{KeyError, validate_public_key_string}
use jiejie_masque_unified.Session.{among}
use jiejie_masque_unified.Session.Construction.{among_iff}
use jiejie_masque_unified.Config.{
  Client, ResolvedClient, Library, TunnelAddresses, prefixes, addresses, Result, ok, err, Seen,
  mark_seen, primary_address, claim_key, addr_or_zero, client_prefixes, resolve_client,
}
use jiejie_masque_unified.Config.Prefixes.{IsClientOf, client_prefixes-IsClientOf}

-- A client's two prefixes as an address set, as main.go forms it.
abbrev pub tunnel_of : ResolvedClient → TunnelAddresses
tunnel_of r = record { ipv4 = r.tunnel_ipv4; ipv6 = r.tunnel_ipv6 }

pub valid_addresses :
    (server a : TunnelAddresses) → IsClientOf server a → All (λ x. is_valid x ≡ true) (addresses a)
unfolding addresses prefixes
valid_addresses server a c = ground arith

-- The zero addresses of absent prefixes are passed over.
mark_seen-addresses :
    (server a : TunnelAddresses) (seen : List Addr)
    → IsClientOf server a
    → mark_seen (addr_or_zero a.ipv4 ∷ addr_or_zero a.ipv6 ∷ []) seen ≡ mark_seen (addresses a) seen
unfolding mark_seen addresses prefixes addr_or_zero
mark_seen-addresses server a seen c = ground arith

primary-In :
    (server a : TunnelAddresses) → IsClientOf server a → In (primary_address a) (addresses a)
unfolding primary_address addresses prefixes addr_or_zero
primary-In server a c = ground arith

pub record IsMarked (xs seen seen' : List Addr) : Type 0 where
  pub distinct : Distinct xs
  pub fresh : (a : Addr) → In a xs → ¬ In a seen
  pub exactly : (a : Addr) → In a seen' ↔ (In a xs ⊎ In a seen)

mark_fresh :
    (x : Addr) (xs seen seen' : List Addr)
    → (¬ In x seen)
    → IsMarked xs (x ∷ seen) seen'
    → IsMarked (x ∷ xs) seen seen'
mark_fresh x xs seen seen' new m = record {
  distinct = (λ h. m.fresh x h (inl refl), m.distinct);
  fresh =
      λ a h q. elim h [ inl e ↦ new (subst (λ u. In u seen) e q) | inr p ↦ m.fresh a p (inr q) ];
  exactly = λ a. (λ h. ground (arith, m.exactly a), λ h. ground (arith, m.exactly a));
}

mark_seen-IsMarked :
    (xs seen seen' : List Addr)
    → All (λ x. is_valid x ≡ true) xs
    → mark_seen xs seen ≡ ok seen'
    → IsMarked xs seen seen'
unfolding mark_seen
mark_seen-IsMarked [] seen seen' v h = record {
  distinct = tt;
  fresh = λ a p. elim p [ ];
  exactly = λ a. (λ p. ground arith, λ p. ground arith);
}
mark_seen-IsMarked (x ∷ xs) seen seen' v h = elim (Bool-cases (among seen x)) [
  | inl p ↦ absurd (ground arith)
  | inr p ↦
      mark_fresh x xs seen seen' (λ q. absurd (ground (arith, among_iff seen x)))
        (mark_seen-IsMarked xs (x ∷ seen) seen' v.1 (ground arith))
]

-- A key that auth accepts.
abbrev pub IsKey : Library → String → Type 0
IsKey l key =
    ((key == "") ≡ false) × ((b : List ℕ) × (validate_public_key_string l.crypto key ≡ ok b))

claim_key-put :
    (l : Library) (key : String) (primary : Addr) (keys keys' : Dict String Addr)
    → claim_key l key primary keys ≡ ok keys'
    → IsKey l key
      × ((get key keys ≡ none) ⊎ (get key keys ≡ some primary))
      × (keys' ≡ put key primary keys)
unfolding claim_key
claim_key-put l key primary keys keys' h =
    by_key (validate_public_key_string l.crypto key) refl (Option-cases (get key keys))
  where
    by_key :
        (r : Result KeyError (List ℕ))
        → validate_public_key_string l.crypto key ≡ r
        → (get key keys ≡ none) ⊎ ((a : Addr) × (get key keys ≡ some a))
        → IsKey l key
          × ((get key keys ≡ none) ⊎ (get key keys ≡ some primary))
          × (keys' ≡ put key primary keys)
    by_key (err e) f o = absurd (ground arith)
    by_key (ok b) f (inl o) = ((ground arith, (b, f)), inl o, ground arith)
    by_key (ok b) f (inr (a, o)) =
        ((ground arith, (b, f)), inr (ground (arith, addr_eq.equals_iff a primary)), ground arith)

-- A key that was seen was seen with an address that was seen.
abbrev pub KeysSeen : Seen → Type 0
KeysSeen seen = (k : String) (a : Addr) → get k seen.keys ≡ some a → In a seen.ips

-- What one round of the loop gives.
pub record IsResolved (l : Library) (server : TunnelAddresses) (cl : Client) (r : ResolvedClient)
    : Type 0 where
  pub same_key : r.public_key ≡ cl.public_key
  pub key : IsKey l r.public_key
  pub placed : IsClientOf server (tunnel_of r)

pub record IsRound (r : ResolvedClient) (seen seen' : Seen) : Type 0 where
  pub marked : IsMarked (addresses (tunnel_of r)) seen.ips seen'.ips
  pub new_key : get r.public_key seen.keys ≡ none
  pub recorded : seen'.keys ≡ put r.public_key (primary_address (tunnel_of r)) seen.keys
  pub keys_seen : KeysSeen seen'

module _ (l : Library) (server : TunnelAddresses) (cl : Client) (seen : Seen)
    (known : KeysSeen seen) where
  -- The primary address of the client is new, so its key is.
  fresh_key :
      (key : String) (a : TunnelAddresses) (ips : List Addr)
      → IsClientOf server a
      → IsMarked (addresses a) seen.ips ips
      → (get key seen.keys ≡ none) ⊎ (get key seen.keys ≡ some (primary_address a))
      → get key seen.keys ≡ none
  fresh_key key a ips c m (inl e) = e
  fresh_key key a ips c m (inr e) =
      absurd (m.fresh (primary_address a) (primary-In server a c) (known key (primary_address a) e))

  KeysSeen-after :
      (key : String) (a : TunnelAddresses) (ips : List Addr)
      → IsClientOf server a
      → IsMarked (addresses a) seen.ips ips
      → KeysSeen (record { ips = ips; keys = put key (primary_address a) seen.keys })
  KeysSeen-after key a ips c m k b e = elim (beq-cases key k) [
    | inl (p, _) ↦
        let same : primary_address a ≡ b =
          ground (arith, get-put key k (primary_address a) seen.keys) in
        subst (λ u. In u ips) same ((m.exactly (primary_address a)).1 (inl (primary-In server a c)))
    | inr (p, _) ↦
        (m.exactly b).1
          (inr (known k b (ground (arith, get-put key k (primary_address a) seen.keys))))
  ]

  abbrev made : TunnelAddresses → ResolvedClient
  made a = record { public_key = cl.public_key; tunnel_ipv4 = a.ipv4; tunnel_ipv6 = a.ipv6 }

  make-IsRound :
      (a : TunnelAddresses) (ips : List Addr) (keys : Dict String Addr)
      → client_prefixes l server cl ≡ ok a
      → mark_seen (addr_or_zero a.ipv4 ∷ addr_or_zero a.ipv6 ∷ []) seen.ips ≡ ok ips
      → claim_key l cl.public_key (primary_address a) seen.keys ≡ ok keys
      → IsResolved l server cl (made a) × IsRound (made a) seen (record { ips = ips; keys = keys })
  make-IsRound a ips keys e f g = (
    record { same_key = refl; key = claimed.0; placed = c },
    record {
      marked = m;
      new_key = fresh_key cl.public_key a ips c m claimed.1;
      recorded = claimed.2;
      keys_seen = rw claimed.2 (KeysSeen-after cl.public_key a ips c m);
    },
  )
    where
      c : IsClientOf server a
      c = client_prefixes-IsClientOf l server a cl e

      m : IsMarked (addresses a) seen.ips ips
      m =
          mark_seen-IsMarked (addresses a) seen.ips ips (valid_addresses server a c)
            (sym (mark_seen-addresses server a seen.ips c) ∙ f)

      claimed :
          IsKey l cl.public_key
          × ((get cl.public_key seen.keys ≡ none)
              ⊎ (get cl.public_key seen.keys ≡ some (primary_address a)))
          × (keys ≡ put cl.public_key (primary_address a) seen.keys)
      claimed = claim_key-put l cl.public_key (primary_address a) seen.keys keys g

  pub resolve_client-IsRound :
      (r : ResolvedClient) (seen' : Seen)
      → resolve_client l server cl seen ≡ ok (r, seen')
      → IsResolved l server cl r × IsRound r seen seen'
  unfolding resolve_client
  resolve_client-IsRound r seen' h =
      let (a, e, h1) = >>=-eq-ok (client_prefixes l server cl) _ h in
      let (ips, f, h2) =
        >>=-eq-ok (mark_seen (addr_or_zero a.ipv4 ∷ addr_or_zero a.ipv6 ∷ []) seen.ips) _ h1 in
      let (keys, g, h3) =
        >>=-eq-ok (claim_key l cl.public_key (primary_address a) seen.keys) _ h2 in
      subst {A = ResolvedClient × Seen} (λ p. IsResolved l server cl p.0 × IsRound p.0 seen p.1)
        (ok-injective (made a, record { ips = ips; keys = keys }) (r, seen') h3)
        (make-IsRound a ips keys e f g)
