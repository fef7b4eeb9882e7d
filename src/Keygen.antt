-- ===== src/Keygen.antt =====
-- cmd/jiejie-masque/keygen.go and server_keygen.go: the keys of clients and of the server. Randomness,
-- X.509, PEM and the file system's answers are parameters.
pub mod Pem
pub mod Files
pub mod Tests
use jiejie_masque_unified.Base.{
  ℕ, ◌+◌, ◌-◌, ◌*◌, ◌^◌, ◌==◌, string_eq, Bool, true, false, Option, none, some, List, String, take,
  if◌then◌else◌,
}
use jiejie_masque_unified.Base.Fallible.{Result, ok, err, ◌>>=◌, need}
use jiejie_masque_unified.Dict.{Dict, get, put, delete}
use jiejie_masque_unified.Auth.{Bytes, Crypto}

-- An elliptic.Curve: whether it is elliptic.P256(), and the name and the size of its parameters, or
-- none where Params is nil.
pub record Curve : Type 0 where
  pub is_p256 : Bool
  pub params : Option (String × ℕ)

-- An ecdsa.PrivateKey; its curve may be nil.
pub record PrivateKey : Type 0 where
  pub curve : Option Curve
  pub scalar : ℕ
  pub x : ℕ
  pub y : ℕ

-- The fields of the x509.Certificate that the server signs; the times are in nanoseconds.
pub record Template : Type 0 where
  pub serial_number : ℕ
  pub common_name : String
  pub not_before : ℕ
  pub not_after : ℕ
  pub key_usage : ℕ
  pub server_auth : Bool
  pub basic_constraints_valid : Bool

-- ecdsa.GenerateKey on P-256, rand.Int, time.AddDate, and x509; none is an error. The certificate is
-- signed by the key that it is for.
pub record Generator : Type 0 where
  pub generate_key : Option PrivateKey
  pub random_below : ℕ → Option ℕ
  pub add_date : (time years months days : ℕ) → ℕ
  pub create_certificate : Template → PrivateKey → Option Bytes
  pub marshal_ec_private_key : PrivateKey → Option Bytes
  pub marshal_pkix_public_key : PrivateKey → Option Bytes

-- The mode that a file was created with, and its bytes.
pub record File : Type 0 where
  pub mode : ℕ
  pub bytes : Bytes

-- The file that a path names; whether creating it is refused though it is not there; how many bytes
-- of it are written where writing breaks off; whether it can be removed; and pem.Encode.
pub record Storage : Type 0 where
  pub file_named : String → String
  pub refuses : String → Bool
  pub breaks_off : String → Option ℕ
  pub removable : String → Bool
  pub pem : String → Bytes → Bytes

pub data KeygenError : Type 0 where
  no_key no_serial no_certificate no_private_der no_public_der : KeygenError
  file_exists open_failed encode_failed : KeygenError

abbrev pub Disk : Type 0
Disk = Dict String File

unfoldable pub generate_client_key : Crypto → Generator → Result KeygenError (String × String)
generate_client_key c g = do
  k ← need g.generate_key no_key
  private_der ← need (g.marshal_ec_private_key k) no_private_der
  ok (c.encode_to_string private_der, c.encode_to_string (c.marshal k.x k.y))

-- KeyUsageDigitalSignature is 1 and KeyUsageKeyEncipherment is 4.
unfoldable pub server_template : Generator → ℕ → ℕ → Template
server_template g serial now = record {
  serial_number = serial;
  common_name = "masque-lite";
  not_before = now - 60 * 10 ^ 9;
  not_after = g.add_date now 10 0 0;
  key_usage = 1 + 4;
  server_auth = true;
  basic_constraints_valid = true;
}

-- What is encoded before any file is touched.
pub record Material : Type 0 where
  pub cert_der : Bytes
  pub key_der : Bytes
  pub public_der : Bytes

unfoldable pub server_material : Generator → ℕ → Result KeygenError Material
server_material g now = do
  key ← need g.generate_key no_key
  serial ← need (g.random_below (2 ^ 128)) no_serial
  cert_der ← need (g.create_certificate (server_template g serial now) key) no_certificate
  key_der ← need (g.marshal_ec_private_key key) no_private_der
  public_der ← need (g.marshal_pkix_public_key key) no_public_der
  ok (record { cert_der = cert_der; key_der = key_der; public_der = public_der })

module _ (s : Storage) where
  -- pem.Encode to a file that was just created.
  unfoldable pub encode : String → ℕ → Bytes → Disk → Result KeygenError (Unit {0}) × Disk
  encode path mode text disk = elim (s.breaks_off path) [
    | none ↦ (ok tt, put (s.file_named path) (record { mode = mode; bytes = text }) disk)
    | some n ↦ (
      err encode_failed,
      put (s.file_named path) (record { mode = mode; bytes = take n text }) disk,
    )
  ]

  -- Opening with O_EXCL fails on a file that is there.
  unfoldable pub write_pem :
      String → String → Bytes → ℕ → Disk → Result KeygenError (Unit {0}) × Disk
  write_pem path block_type der mode disk = elim (get (s.file_named path) disk) [
    | some f ↦ (err file_exists, disk)
    | none ↦
        if s.refuses path
        then (err open_failed, disk)
        else encode path mode (s.pem block_type der) disk
  ]

  unfoldable pub remove : String → Disk → Disk
  remove path disk = if s.removable path then delete (s.file_named path) disk else disk

  unfoldable pub or_remove :
      String → Result KeygenError (Unit {0}) × Disk → Result KeygenError (Unit {0}) × Disk
  or_remove key_path (ok u, disk) = (ok u, disk)
  or_remove key_path (err e, disk) = (err e, remove key_path disk)

  -- The certificate, after the private key.
  unfoldable pub write_certificate :
      String
      → String
      → Bytes
      → Result KeygenError (Unit {0}) × Disk
      → Result KeygenError (Unit {0}) × Disk
  write_certificate cert_path key_path der (err e, disk) = (err e, disk)
  write_certificate cert_path key_path der (ok u, disk) =
      or_remove key_path (write_pem cert_path "CERTIFICATE" der 0x1a4 disk)

  unfoldable pub write_files :
      String → String → Material → Disk → Result KeygenError (Unit {0}) × Disk
  write_files cert_path key_path m disk =
      write_certificate cert_path key_path m.cert_der
        (write_pem key_path "EC PRIVATE KEY" m.key_der 0x180 disk)

  abbrev pub with_public :
      Crypto → Material → Result KeygenError (Unit {0}) × Disk → Result KeygenError String × Disk
  with_public c m (ok u, disk) = (ok (c.encode_to_string m.public_der), disk)
  with_public c m (err e, disk) = (err e, disk)

  unfoldable pub generate_server_certificate :
      Crypto → Generator → String → String → ℕ → Disk → Result KeygenError String × Disk
  generate_server_certificate c g cert_path key_path now disk = elim (server_material g now) [
    | err e ↦ (err e, disk)
    | ok m ↦ with_public c m (write_files cert_path key_path m disk)
  ]
