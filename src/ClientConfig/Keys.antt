-- ===== src/ClientConfig/Keys.antt =====
-- cmd/jiejie-masque: keygen.go with mihomo_config.go and internal/connectip/auth. A generated key is one
-- that the other commands take.
use jiejie_masque_unified.Base.{
  ◌≡◌, refl, ap, subst, ◌∙◌, string_eq, nat_eq, not, true, some, String, length, get_or,
  if◌then◌else◌, arith, beq_refl,
}
use jiejie_masque_unified.Base.Fallible.{ok, err, need, >>=-eq-ok, ok-injective, need-eq-ok}
use jiejie_masque_unified.Auth.{Bytes, Crypto, validate_public_key_string}
use jiejie_masque_unified.Keygen.{
  PrivateKey, Generator, no_key, no_private_der, generate_client_key,
}
use jiejie_masque_unified.ClientConfig.{
  KeyFormats, not_p256, p256_curve, check_curve, parse_client_private_key_der,
  parse_client_private_key, encode_client_auth_public_key, client_public_key_from_private_key,
}

-- What the code relies on, for a generated key: base64 and SEC 1 read back what they write, the key is of
-- P-256, and its point is 65 bytes, the first of them 4, that elliptic.Unmarshal takes.
pub record IsStandard (c : Crypto) (g : Generator) (k : KeyFormats) : Type 0 where
  pub decodes_private :
      (key : PrivateKey) (der : Bytes)
      → g.generate_key ≡ some key
      → g.marshal_ec_private_key key ≡ some der
      → c.decode_string (c.encode_to_string der) ≡ some der
  pub decodes_public :
      (key : PrivateKey)
      → g.generate_key ≡ some key
      → c.decode_string (c.encode_to_string (c.marshal key.x key.y)) ≡ some (c.marshal key.x key.y)
  pub parses :
      (key : PrivateKey) (der : Bytes)
      → g.generate_key ≡ some key
      → g.marshal_ec_private_key key ≡ some der
      → k.parse_ec_private_key der ≡ some key
  pub generates :
      (key : PrivateKey)
      → g.generate_key ≡ some key
      → key.curve ≡ some (record { is_p256 = true; params = some (k.p256_name, k.p256_bit_size) })
  pub uncompressed :
      (key : PrivateKey)
      → g.generate_key ≡ some key
      → (length (c.marshal key.x key.y) ≡ 65) × (get_or (c.marshal key.x key.y) 0 0 ≡ 4)
  pub unmarshals :
      (key : PrivateKey)
      → g.generate_key ≡ some key
      → c.unmarshal (c.marshal key.x key.y) ≡ some (key.x, key.y)

module _ (c : Crypto) (g : Generator) (k : KeyFormats) (s : IsStandard c g k) where
  p256_curve_accepted :
      p256_curve k (some (record { is_p256 = true; params = some (k.p256_name, k.p256_bit_size) }))
      ≡ true
  p256_curve_accepted = ground (arith, beq_refl k.p256_name, beq_refl k.p256_bit_size)

  curve_accepted : (key : PrivateKey) → g.generate_key ≡ some key → check_curve k key ≡ ok key
  unfolding check_curve
  curve_accepted key e =
      ap (λ b. if not b then err not_p256 else ok key)
        (ap (p256_curve k) (s.generates key e) ∙ p256_curve_accepted)

  der_parsed :
      (key : PrivateKey) (der : Bytes)
      → g.generate_key ≡ some key
      → g.marshal_ec_private_key key ≡ some der
      → parse_client_private_key_der k der ≡ ok key
  unfolding parse_client_private_key_der
  der_parsed key der e f =
      rw (s.parses key der e f, parse_client_private_key_der) (curve_accepted key e)

  key_encoded :
      (key : PrivateKey)
      → g.generate_key ≡ some key
      → encode_client_auth_public_key c key ≡ ok (c.encode_to_string (c.marshal key.x key.y))
  unfolding encode_client_auth_public_key
  key_encoded key e = rw (s.generates key e, encode_client_auth_public_key) refl

  public_key_derived :
      (key : PrivateKey) (der : Bytes)
      → g.generate_key ≡ some key
      → g.marshal_ec_private_key key ≡ some der
      → client_public_key_from_private_key k c (c.encode_to_string der)
        ≡ ok (c.encode_to_string (c.marshal key.x key.y))
  unfolding client_public_key_from_private_key parse_client_private_key
  public_key_derived key der e f =
      rw (s.decodes_private key der e f) (rw (der_parsed key der e f) (key_encoded key e))

  public_key_accepted :
      (key : PrivateKey)
      → g.generate_key ≡ some key
      → validate_public_key_string c (c.encode_to_string (c.marshal key.x key.y))
        ≡ ok (c.marshal key.x key.y)
  unfolding validate_public_key_string
  public_key_accepted key e =
      rw (s.decodes_public key e, validate_public_key_string)
        (rw ((s.uncompressed key e).0, (s.uncompressed key e).1, s.unmarshals key e) refl)

  -- The private key that generateClientKey returns is one for which clientPublicKeyFromPrivateKey
  -- gives back the public key returned with it, and validatePublicKeyString accepts that public key,
  -- if base64 and SEC 1 read back what they write, a generated key is of P-256, and its point is
  -- written as 65 bytes, the first of them 4, that elliptic.Unmarshal takes.
  pub generate_client_key-public_key :
      (private_key public_key : String)
      → generate_client_key c g ≡ ok (private_key, public_key)
      → (client_public_key_from_private_key k c private_key ≡ ok public_key)
        × ((b : Bytes) × (validate_public_key_string c public_key ≡ ok b))
  unfolding generate_client_key
  generate_client_key-public_key private_key public_key h =
      let (key, e, h1) = >>=-eq-ok (need g.generate_key no_key) _ h in
      let (der, f, h2) = >>=-eq-ok (need (g.marshal_ec_private_key key) no_private_der) _ h1 in
      returned key der (need-eq-ok _ _ e) (need-eq-ok _ _ f) (ok-injective _ _ h2)
    where
      returned :
          (key : PrivateKey) (der : Bytes)
          → g.generate_key ≡ some key
          → g.marshal_ec_private_key key ≡ some der
          → ◌≡◌ {A = String × String}
              (c.encode_to_string der, c.encode_to_string (c.marshal key.x key.y))
              (private_key, public_key)
          → (client_public_key_from_private_key k c private_key ≡ ok public_key)
            × ((b : Bytes) × (validate_public_key_string c public_key ≡ ok b))
      returned key der e f same =
          subst
            (λ p.
              (client_public_key_from_private_key k c p.0 ≡ ok p.1)
              × ((b : Bytes) × (validate_public_key_string c p.1 ≡ ok b)))
            same
            (public_key_derived key der e f, (c.marshal key.x key.y, public_key_accepted key e))
