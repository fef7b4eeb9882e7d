-- ===== src/Auth.antt =====
-- internal/connectip/auth/auth.go. Certificates are what crypto/x509 parsed; base64, hexadecimal,
-- SHA-256 and the encoding of curve points are the library's, and parameters here.
use jiejie_masque_unified.Base.{
  ℕ, ◌==◌, nat_eq, string_eq, not, ◌||◌, Bool, true, false, Option, none, some, List, [], ◌∷◌,
  String, length, get_or, if◌then◌else◌,
}
use jiejie_masque_unified.Base.Fallible.{Result, ok, err}

abbrev pub Bytes : Type 0
Bytes = List ℕ

-- An ECDSA key with its curve, P-256 or another, and its point; or a key of another kind.
pub data PublicKey : Type 0 where
  ecdsa : (p256 : Bool) → (x y : ℕ) → PublicKey
  other_key : PublicKey

pub record Certificate : Type 0 where
  pub raw_subject_public_key_info : Bytes
  pub public_key : PublicKey

pub record Crypto : Type 0 where
  -- base64.StdEncoding
  pub decode_string : String → Option Bytes
  pub encode_to_string : Bytes → String
  -- elliptic.Marshal and elliptic.Unmarshal on P-256; both results of a failure are nil
  pub marshal : ℕ → ℕ → Bytes
  pub unmarshal : Bytes → Option (ℕ × ℕ)
  pub sum256 : Bytes → Bytes
  pub hex_encode : Bytes → String

pub data KeyError : Type 0 where
  bad_base64 not_uncompressed not_on_curve : KeyError

module _ (c : Crypto) where
  unfoldable pub fingerprint : Certificate → String
  fingerprint cert = c.hex_encode (c.sum256 cert.raw_subject_public_key_info)

  unfoldable pub elliptic_marshal : Certificate → Bytes
  elliptic_marshal cert = elim cert.public_key [
    | ecdsa p256 x y ↦ if not p256 then [] else c.marshal x y
    | other_key ↦ []
  ]

  unfoldable pub public_key_bytes : Certificate → String
  unfolding elliptic_marshal
  public_key_bytes cert = c.encode_to_string (elliptic_marshal cert)

  unfoldable pub validate_public_key_string : String → Result KeyError Bytes
  validate_public_key_string s = elim (c.decode_string s) [
    | none ↦ err bad_base64
    | some b ↦
        if not (length b == 65) || not (get_or b 0 0 == 4)
        then err not_uncompressed
        else elim (c.unmarshal b) [ none ↦ err not_on_curve | some _ ↦ ok b ]
  ]

  unfoldable pub any_matches : String → List String → Bool
  any_matches got [] = false
  any_matches got (want ∷ allowed) = if got == want then true else any_matches got allowed

  unfoldable pub matches : Certificate → List String → Bool
  matches cert allowed = any_matches (public_key_bytes cert) allowed
