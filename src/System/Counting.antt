-- ===== src/System/Counting.antt =====
-- internal/connectip/config/config.go and internal/connectip/session/manager.go: lists of clients and
-- of sessions, for the count of the sessions that a registration leaves.
use jiejie_masque_unified.Base.{
  ℕ, suc, ◌≡◌, refl, ap, sym, subst, ◌∙◌, inl, inr, ◌↔◌, nat_eq, string_eq, List, [], ◌∷◌, ◌++◌,
  map, length, In, In-append_left, In-append_right, Distinct, String, Bool-cases, if◌then◌else◌,
  arith,
}
use jiejie_masque_unified.Net.{Addr}
use jiejie_masque_unified.Manager.{member}
use jiejie_masque_unified.Manager.Snapshot.{member_iff}
use jiejie_masque_unified.Config.{ResolvedClient, addresses}
use jiejie_masque_unified.Config.Resolution.{tunnel_of}
use jiejie_masque_unified.Config.Distinctness.{all_addresses, all_keys}

pub In-all_addresses :
    (a : Addr) (r : ResolvedClient) (rs : List ResolvedClient)
    → In r rs
    → In a (addresses (tunnel_of r))
    → In a (all_addresses rs)
In-all_addresses a r [] h p = elim h [ ]
In-all_addresses a r (x ∷ rs) (inl e) p =
    In-append_left a (addresses (tunnel_of x)) (all_addresses rs)
      (subst (λ y. In a (addresses (tunnel_of y))) e p)
In-all_addresses a r (x ∷ rs) (inr h) p =
    In-append_right a (addresses (tunnel_of x)) (all_addresses rs) (In-all_addresses a r rs h p)

pub Distinct-append_right : (xs ys : List Addr) → Distinct (xs ++ ys) → Distinct ys
Distinct-append_right [] ys d = d
Distinct-append_right (x ∷ xs) ys d = Distinct-append_right xs ys d.1

pub Distinct-append_apart :
    (a : Addr) (xs ys : List Addr) → Distinct (xs ++ ys) → In a xs → ¬ In a ys
Distinct-append_apart a [] ys d h = absurd h
Distinct-append_apart a (x ∷ xs) ys d (inl e) =
    λ q. d.0 (In-append_right x xs ys (subst (λ u. In u ys) e q))
Distinct-append_apart a (x ∷ xs) ys d (inr h) = Distinct-append_apart a xs ys d.1 h

-- No two clients share an address.
pub owner_unique :
    (a : Addr) (rs : List ResolvedClient) (r r' : ResolvedClient)
    → Distinct (all_addresses rs)
    → In r rs
    → In r' rs
    → In a (addresses (tunnel_of r))
    → In a (addresses (tunnel_of r'))
    → r ≡ r'
owner_unique a [] r r' d h h' p p' = elim h [ ]
owner_unique a (x ∷ rs) r r' d (inl e) (inl e') p p' = e ∙ sym e'
owner_unique a (x ∷ rs) r r' d (inl e) (inr h') p p' = absurd (
    Distinct-append_apart a (addresses (tunnel_of x)) (all_addresses rs) d
      (subst (λ y. In a (addresses (tunnel_of y))) e p) (In-all_addresses a r' rs h' p'))
owner_unique a (x ∷ rs) r r' d (inr h) (inl e') p p' = absurd (
    Distinct-append_apart a (addresses (tunnel_of x)) (all_addresses rs) d
      (subst (λ y. In a (addresses (tunnel_of y))) e' p') (In-all_addresses a r rs h p))
owner_unique a (x ∷ rs) r r' d (inr h) (inr h') p p' =
    owner_unique a rs r r' (Distinct-append_right (addresses (tunnel_of x)) (all_addresses rs) d) h
      h' p p'

unfoldable pub others : List ℕ → List ℕ → List ℕ
others old [] = []
others old (x ∷ xs) = let rest = others old xs in if member x old then rest else x ∷ rest

pub others_iff :
    (old : List ℕ) (t : ℕ) (xs : List ℕ) → In t (others old xs) ↔ (In t xs × (¬ In t old))
unfolding others
others_iff old t [] = (λ h. elim h [ ], λ h. h.0)
others_iff old t (x ∷ xs) = elim (Bool-cases (member x old)) [
  | inl p ↦
      rw (p, others)
        (
          λ h. let (q, n) = (others_iff old t xs).0 h in (inr q, n),
          λ h. elim h.0 [
            | inl e ↦ absurd (h.1 ((subst (λ u. In u old) (sym e) ((member_iff x old).0 p))))
            | inr q ↦ (others_iff old t xs).1 (q, h.1)
          ],
        )
  | inr p ↦
      rw (p, others)
        (
          λ h. elim h [
            | inl e ↦ (
              inl e,
              λ q. absurd (ground (arith, (member_iff x old).1 (subst (λ u. In u old) e q))),
            )
            | inr q ↦ let (r, n) = (others_iff old t xs).0 q in (inr r, n)
          ],
          λ h. elim h.0 [ inl e ↦ inl e | inr q ↦ inr ((others_iff old t xs).1 (q, h.1)) ],
        )
]

pub In-map-source :
    (name : ℕ → String) (xs : List ℕ) (k : String)
    → In k (map name xs)
    → (u : ℕ) × In u xs × (k ≡ name u)
In-map-source name [] k h = elim h [ ]
In-map-source name (x ∷ xs) k (inl e) = (x, inl refl, e)
In-map-source name (x ∷ xs) k (inr h) = let (u, p, e) = In-map-source name xs k h in (u, inr p, e)

-- Sessions of different names, in a list, have a list of different names.
pub map-Distinct :
    (name : ℕ → String) (xs : List ℕ)
    → Distinct xs
    → ((t u : ℕ) → In t xs → In u xs → name t ≡ name u → t ≡ u)
    → Distinct (map name xs)
map-Distinct name [] d single = tt
map-Distinct name (x ∷ xs) d single = (
  λ h.
      let (u, p, e) = In-map-source name xs (name x) h in
      d.0 (subst (λ v. In v xs) (sym (single x u (inl refl) (inr p) e)) p),
  map-Distinct name xs d.1 (λ t u p q. single t u (inr p) (inr q)),
)

pub others-Distinct : (old xs : List ℕ) → Distinct xs → Distinct (others old xs)
unfolding others
others-Distinct old [] d = tt
others-Distinct old (x ∷ xs) d = elim (Bool-cases (member x old)) [
  | inl p ↦ rw (p, others) (others-Distinct old xs d.1)
  | inr p ↦ rw (p, others) (λ h. d.0 ((others_iff old x xs).0 h).0, others-Distinct old xs d.1)
]

pub length-map : (name : ℕ → String) (xs : List ℕ) → length (map name xs) ≡ length xs
length-map name [] = refl
length-map name (x ∷ xs) = ap suc (length-map name xs)

pub length-all_keys : (rs : List ResolvedClient) → length (all_keys rs) ≡ length rs
length-all_keys [] = refl
length-all_keys (r ∷ rs) = ap suc (length-all_keys rs)
