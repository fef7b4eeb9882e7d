-- ===== src/Keygen/Tests.antt =====
-- A generator of one key, and a disk with one file, and the theorems at them.
use jiejie_masque_unified.Base.{
  ◌+◌, ◌≡◌, refl, ◌==◌, nat_eq, string_eq, true, none, some, [], ◌∷◌, length, if◌then◌else◌,
}
use jiejie_masque_unified.Dict.{get, put, delete}
use jiejie_masque_unified.Auth.{Crypto}
use jiejie_masque_unified.Config.Tests.{crypto as plain, zeros}
use jiejie_masque_unified.Keygen.{
  Curve, PrivateKey, Generator, Storage, Disk, generate_client_key, server_template,
  server_material, encode, write_pem, remove, or_remove, write_certificate, write_files,
  generate_server_certificate,
}
use jiejie_masque_unified.Keygen.Files.{Outcome, generate_server_certificate_cases}

program : Unit {0}
unfolding get put delete generate_client_key server_template server_material encode write_pem remove
    or_remove write_certificate write_files generate_server_certificate
program = tt

-- Private keys are one byte here, and points 65.
abbrev pub crypto : Crypto
crypto = record plain {
  decode_string = λ s. if s == "secret" then some (1 ∷ []) else some (4 ∷ zeros 64);
  encode_to_string = λ b. if length b == 1 then "secret" else "a";
  marshal = λ x y. 4 ∷ zeros 64;
}

abbrev pub p256 : Curve
p256 = record { is_p256 = true; params = some ("P-256", 256) }

abbrev pub private_key : PrivateKey
private_key = record { curve = some p256; scalar = 5; x = 1; y = 2 }

abbrev pub generator : Generator
generator = record {
  generate_key = some private_key;
  random_below = λ n. some 7;
  add_date = λ t years months days. t + years;
  create_certificate = λ t k. some (2 ∷ []);
  marshal_ec_private_key = λ k. some (1 ∷ []);
  marshal_pkix_public_key = λ k. some (3 ∷ 3 ∷ []);
}

abbrev storage : Storage
storage = record {
  file_named = λ path. path;
  refuses = λ path. path == "/root.crt";
  breaks_off = λ path. if path == "full.key" then some 1 else none;
  removable = λ path. true;
  pem = λ t b. 9 ∷ b;
}

abbrev disk : Disk
disk = ("old.crt", record { mode = 0x1a4; bytes = 8 ∷ [] }) ∷ []

-- The private key is removed where the certificate's file is there already.
cleaned :
    get "new.key"
      (generate_server_certificate storage crypto generator "old.crt" "new.key" 0 disk).1
    ≡ none
unfolding program
cleaned = refl

-- A private key whose writing broke off stays.
stays :
    get "full.key"
      (generate_server_certificate storage crypto generator "new.crt" "full.key" 0 disk).1
    ≡ some (record { mode = 0x180; bytes = 9 ∷ [] })
unfolding program
stays = refl

generate_server_certificate_cases_example :
    Outcome storage "new.crt" "new.key" crypto generator 0 disk
      (generate_server_certificate storage crypto generator "new.crt" "new.key" 0 disk)
generate_server_certificate_cases_example =
    generate_server_certificate_cases storage "new.crt" "new.key" crypto generator 0 disk
