-- ===== src/Net/Bytes.antt =====
-- Numbers as bytes, the most significant first, as encoding/binary and net/netip have them.
use native.Mathlib.Nat.{pow-suc}
use jiejie_masque_unified.Base.{
  ℕ, zero, suc, ◌+◌, ◌*◌, ◌/◌, ◌%◌, ◌^◌, ◌<◌, ◌≡◌, refl, ◌∙◌, List, [], ◌∷◌, ◌++◌, length,
  length-append, arith,
}

unfoldable pub big_endian_from : ℕ → List ℕ → ℕ
big_endian_from acc [] = acc
big_endian_from acc (x ∷ xs) = big_endian_from (acc * 256 + x) xs

-- The `n` bytes of a number, the most significant first.
abbrev pub be_bytes : ℕ → ℕ → List ℕ
be_bytes zero x = []
be_bytes (suc n) x = be_bytes n (x / 256) ++ (x % 256) ∷ []

pub length-be_bytes : (n x : ℕ) → length (be_bytes n x) ≡ n
length-be_bytes zero x = refl
length-be_bytes (suc n) x =
    length-append (be_bytes n (x / 256)) (x % 256 ∷ []) ∙ omega (arith, length-be_bytes n (x / 256))

big_endian_from-append :
    (acc : ℕ) (xs : List ℕ) (y : ℕ)
    → big_endian_from acc (xs ++ y ∷ []) ≡ big_endian_from acc xs * 256 + y
unfolding big_endian_from
big_endian_from-append acc [] y = refl
big_endian_from-append acc (x ∷ xs) y = big_endian_from-append (acc * 256 + x) xs y

pub big_endian_from-be_bytes : (n x : ℕ) → x < 256 ^ n → big_endian_from 0 (be_bytes n x) ≡ x
unfolding big_endian_from
big_endian_from-be_bytes zero x h = omega arith
big_endian_from-be_bytes (suc n) x h =
    big_endian_from-append 0 (be_bytes n (x / 256)) (x % 256)
    ∙ omega (arith, big_endian_from-be_bytes n (x / 256) (omega (arith, pow-suc 256 n)))
