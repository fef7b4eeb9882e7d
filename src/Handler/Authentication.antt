-- ===== src/Handler/Authentication.antt =====
-- cmd/jiejie-masque/main.go, byKey and VerifyConnection: whose handshake succeeds.
use jiejie_masque_unified.Base.{
  ◌≡◌, ◌≢◌, refl, ap, sym, subst, ◌∙◌, ◌⊎◌, inl, inr, ◌↔◌, true, none, some, List, [], ◌∷◌,
  Distinct, In, In-map, String, string_eq, Option-cases, arith,
}
use jiejie_masque_unified.Dict.{Dict, get, put, get-put}
use jiejie_masque_unified.Auth.{Crypto, Certificate, public_key_bytes}
use jiejie_masque_unified.Config.{ResolvedClient}
use jiejie_masque_unified.Config.Distinctness.{all_keys}
use jiejie_masque_unified.Handler.{by_key, client_of, verify_connection}
use jiejie_masque_unified.Handler.Admission.{client_of-In}

by_key-found :
    (k : String) (rs : List ResolvedClient) (t : Dict String ResolvedClient)
    → In k (all_keys rs) ⊎ (get k t ≢ none)
    → get k (by_key rs t) ≢ none
unfolding by_key
by_key-found k [] t (inl p) = elim p [ ]
by_key-found k [] t (inr h) = h
by_key-found k (r ∷ rs) t h = by_key-found k rs (put r.public_key r t) (elim h [
  | inl (inl e) ↦
      inr (λ q. ground (arith, get-put r.public_key k r t, string_eq.equals_iff r.public_key k, e))
  | inl (inr p) ↦ inl p
  | inr n ↦ inr (λ q. ground (arith, get-put r.public_key k r t))
])

-- The handshake succeeds exactly for a peer with one certificate whose key, as auth encodes it, is the
-- key of a client.
pub verify_connection_iff :
    (c : Crypto) (rs : List ResolvedClient) (certs : List Certificate)
    → (verify_connection c (by_key rs []) certs ≡ true)
      ↔ ((cert : Certificate) × (certs ≡ cert ∷ []) × In (public_key_bytes c cert) (all_keys rs))
unfolding verify_connection client_of
verify_connection_iff c rs certs = (found, accepted)
  where
    found :
        verify_connection c (by_key rs []) certs ≡ true
        → (cert : Certificate) × (certs ≡ cert ∷ []) × In (public_key_bytes c cert) (all_keys rs)
    found h = elim (Option-cases (client_of c (by_key rs []) certs)) [
      | inl e ↦ absurd (ground arith)
      | inr (cl, e) ↦
          let (cert, one, known, same) = client_of-In c rs certs cl e in
          (cert, one, subst (λ k. In k (all_keys rs)) same (In-map (λ r. r.public_key) cl rs known))
    ]

    accepted :
        (cert : Certificate) × (certs ≡ cert ∷ []) × In (public_key_bytes c cert) (all_keys rs)
        → verify_connection c (by_key rs []) certs ≡ true
    accepted (cert, one, p) = elim (Option-cases (client_of c (by_key rs []) certs)) [
      | inl e ↦ absurd (
          by_key-found (public_key_bytes c cert) rs [] (inl p)
            (sym (ap (client_of c (by_key rs [])) one) ∙ e))
      | inr (cl, e) ↦ rw (e, verify_connection) refl
    ]

-- Clients with the same key are the same where no key is shared.
pub same_client :
    (rs : List ResolvedClient) (a b : ResolvedClient)
    → Distinct (all_keys rs)
    → In a rs
    → In b rs
    → a.public_key ≡ b.public_key
    → a ≡ b
same_client [] a b d p q e = elim p [ ]
same_client (r ∷ rs) a b d (inl p) (inl q) e = p ∙ sym q
same_client (r ∷ rs) a b d (inl p) (inr q) e = absurd (
    d.0 (
      subst (λ k. In k (all_keys rs)) (sym e ∙ ap (λ x. x.public_key) p)
        (In-map (λ x. x.public_key) b rs q)))
same_client (r ∷ rs) a b d (inr p) (inl q) e = absurd (
    d.0 (
      subst (λ k. In k (all_keys rs)) (e ∙ ap (λ x. x.public_key) q)
        (In-map (λ x. x.public_key) a rs p)))
same_client (r ∷ rs) a b d (inr p) (inr q) e = same_client rs a b d.1 p q e

abbrev first : Certificate → List Certificate → Certificate
first cert [] = cert
first cert (x ∷ xs) = x

-- The server knows a client by a certificate with its key.
pub client_of-key :
    (c : Crypto) (rs : List ResolvedClient) (cert : Certificate) (cl : ResolvedClient)
    → Distinct (all_keys rs)
    → In cl rs
    → cl.public_key ≡ public_key_bytes c cert
    → client_of c (by_key rs []) (cert ∷ []) ≡ some cl
unfolding client_of
client_of-key c rs cert cl d p e = elim (Option-cases (client_of c (by_key rs []) (cert ∷ []))) [
  | inl missing ↦ absurd (
      by_key-found (public_key_bytes c cert) rs []
        (inl (subst (λ k. In k (all_keys rs)) e (In-map (λ r. r.public_key) cl rs p))) missing)
  | inr (other, found) ↦
      let (one, single, known, same) = client_of-In c rs (cert ∷ []) other found in
      found
      ∙ ap some (
          same_client rs other cl d known p
            (same ∙ ap (λ certs. public_key_bytes c (first cert certs)) (sym single) ∙ sym e))
]
