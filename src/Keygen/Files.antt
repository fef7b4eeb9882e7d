-- ===== src/Keygen/Files.antt =====
-- cmd/jiejie-masque/server_keygen.go: what generateServerCertificate does to the files.
use mathlib.Core.Option.{none-ne-some}
use jiejie_masque_unified.Base.{
  ℕ, ◌≡◌, ◌≢◌, refl, sym, ap, subst, ◌∙◌, ◌⊎◌, inl, inr, ◌==◌, string_eq, Bool, true, false, none,
  some, beq-cases, beq_refl, beq-ne, String, if◌then◌else◌,
}
use jiejie_masque_unified.Base.Fallible.{Result, ok, err}
use jiejie_masque_unified.Dict.{get, put, delete, get-put, get-delete}
use jiejie_masque_unified.Auth.{Crypto}
use jiejie_masque_unified.Keygen.Pem.{Pem, refused, partial, complete, breaks, write_pem-Pem}
use jiejie_masque_unified.Keygen.{
  File, Storage, Generator, KeygenError, Disk, Material, server_material, remove, or_remove,
  write_certificate, write_files, with_public, generate_server_certificate,
}

-- A path whose file may stay behind: writing it broke off, or it could not be removed.
abbrev pub MayStay : Storage → String → String → String → Type 0
MayStay s cert_path key_path name =
    ((name ≡ s.file_named key_path)
      × ((s.breaks_off key_path ≢ none) ⊎ (s.removable key_path ≡ false)))
    ⊎ ((name ≡ s.file_named cert_path) × (s.breaks_off cert_path ≢ none))

module _ (s : Storage) (cert_path key_path : String) where
  -- The private key and the certificate are new files, and no other file has changed.
  pub record IsWritten (m : Material) (disk disk' : Disk) : Type 0 where
    pub apart : s.file_named key_path ≢ s.file_named cert_path
    pub key_absent : get (s.file_named key_path) disk ≡ none
    pub cert_absent : get (s.file_named cert_path) disk ≡ none
    pub files :
        (name : String)
        → get name disk' ≡ (
            if s.file_named cert_path == name
            then some (record { mode = 0x1a4; bytes = s.pem "CERTIFICATE" m.cert_der })
            else if s.file_named key_path == name
            then some (record { mode = 0x180; bytes = s.pem "EC PRIVATE KEY" m.key_der })
            else get name disk)

  -- Every file is as before, but for new ones that may stay behind.
  pub record IsRestored (disk disk' : Disk) : Type 0 where
    pub files :
        (name : String)
        → (get name disk' ≡ get name disk)
          ⊎ ((get name disk ≡ none) × MayStay s cert_path key_path name)

  -- What generateServerCertificate comes to, with its files.
  abbrev Ends : Material → Disk → Result KeygenError (Unit {0}) × Disk → Type 0
  Ends m disk (ok u, disk') = IsWritten m disk disk'
  Ends m disk (err e, disk') = IsRestored disk disk'

  -- The private key alone, which may be left.
  abbrev key_file : Material → File
  key_file m = record { mode = 0x180; bytes = s.pem "EC PRIVATE KEY" m.key_der }

  -- Before the key's file is removed, all other files are as IsRestored says.
  remove-IsRestored :
      (disk later : Disk)
      → get (s.file_named key_path) disk ≡ none
      → ((name : String)
          → s.file_named key_path ≢ name
          → (get name later ≡ get name disk)
            ⊎ ((get name disk ≡ none) × MayStay s cert_path key_path name))
      → IsRestored disk (remove s key_path later)
  unfolding remove
  remove-IsRestored disk later absent others = removed (s.removable key_path) refl
    where
      key : String
      key = s.file_named key_path

      removed :
          (b : Bool)
          → s.removable key_path ≡ b
          → IsRestored disk (if b then delete key later else later)
      removed true e = record {
        files = λ name. elim (beq-cases key name) [
          | inl (p, q) ↦
              inl (get-delete key name later ∙ rw p (sym (subst (λ k. get k disk ≡ none) q absent)))
          | inr (p, q) ↦ elim (others name q) [
            | inl same ↦ inl (get-delete key name later ∙ rw p same)
            | inr stays ↦ inr stays
          ]
        ];
      }
      removed false e = record {
        files = λ name. elim (beq-cases key name) [
          | inl (p, q) ↦ inr (subst (λ k. get k disk ≡ none) q absent, inl (sym q, inr e))
          | inr (p, q) ↦ others name q
        ];
      }

  after_key :
      (m : Material) (disk : Disk) (name : String)
      → s.file_named key_path ≢ name
      → get name (put (s.file_named key_path) (key_file m) disk) ≡ get name disk
  after_key m disk name ne =
      get-put (s.file_named key_path) name (key_file m) disk
      ∙ rw (beq-ne (s.file_named key_path) name ne) refl

  not_key :
      (m : Material) (disk : Disk)
      → get (s.file_named cert_path) (put (s.file_named key_path) (key_file m) disk) ≡ none
      → s.file_named key_path ≢ s.file_named cert_path
  not_key m disk cert_absent same = none-ne-some (key_file m) (
      sym cert_absent
      ∙ get-put (s.file_named key_path) (s.file_named cert_path) (key_file m) disk
      ∙ ap (λ b. if b then some (key_file m) else get (s.file_named cert_path) disk)
          (subst (λ k. (s.file_named key_path == k) ≡ true) same
            (beq_refl (s.file_named key_path))))

  or_remove-Ends :
      (m : Material) (disk : Disk) (r : Result KeygenError (Unit {0}) × Disk)
      → get (s.file_named key_path) disk ≡ none
      → Pem s cert_path "CERTIFICATE" m.cert_der 0x1a4
          (put (s.file_named key_path) (key_file m) disk)
          r
      → Ends m disk (or_remove s key_path r)
  unfolding or_remove
  or_remove-Ends m disk _ absent (refused e) =
      remove-IsRestored disk _ absent (λ name ne. inl (after_key m disk name ne))
  or_remove-Ends m disk _ absent (partial n cert_absent broken) =
      remove-IsRestored disk _ absent (λ name ne. elim (beq-cases (s.file_named cert_path) name) [
        | inl (p, q) ↦ inr (
          sym (after_key m disk name ne)
              ∙ subst (λ k. get k (put (s.file_named key_path) (key_file m) disk) ≡ none) q
                  cert_absent,
          inr (sym q, breaks s broken),
        )
        | inr (p, q) ↦
            inl (get-put (s.file_named cert_path) name _ _ ∙ rw p (after_key m disk name ne))
      ])
  or_remove-Ends m disk _ absent (complete cert_absent) = record {
    apart = not_key m disk cert_absent;
    key_absent = absent;
    cert_absent =
        sym (after_key m disk (s.file_named cert_path) (not_key m disk cert_absent)) ∙ cert_absent;
    files = λ name.
        get-put (s.file_named cert_path) name _ _
        ∙ ap
            (λ o.
              if s.file_named cert_path == name
              then some (record { mode = 0x1a4; bytes = s.pem "CERTIFICATE" m.cert_der })
              else o)
            (get-put (s.file_named key_path) name (key_file m) disk);
  }

  write_certificate-Ends :
      (m : Material) (disk : Disk) (r : Result KeygenError (Unit {0}) × Disk)
      → Pem s key_path "EC PRIVATE KEY" m.key_der 0x180 disk r
      → Ends m disk (write_certificate s cert_path key_path m.cert_der r)
  unfolding write_certificate
  write_certificate-Ends m disk _ (refused e) = record { files = λ name. inl refl }
  write_certificate-Ends m disk _ (partial n absent broken) = record {
    files = λ name. elim (beq-cases (s.file_named key_path) name) [
      | inl (p, q) ↦
          inr (subst (λ k. get k disk ≡ none) q absent, inl (sym q, inl (breaks s broken)))
      | inr (p, q) ↦ inl (get-put (s.file_named key_path) name _ disk ∙ rw p refl)
    ];
  }
  write_certificate-Ends m disk _ (complete absent) = or_remove-Ends m disk _ absent (
      write_pem-Pem s cert_path "CERTIFICATE" m.cert_der 0x1a4
        (put (s.file_named key_path) (key_file m) disk))

  -- A success has encoded the material and written it; a failure has restored the disk.
  abbrev pub Outcome : Crypto → Generator → ℕ → Disk → Result KeygenError String × Disk → Type 0
  Outcome c g now disk (ok public, disk') =
      (m : Material) × (server_material g now ≡ ok m)
      × (public ≡ c.encode_to_string m.public_der)
      × IsWritten m disk disk'
  Outcome c g now disk (err e, disk') = IsRestored disk disk'

  -- generateServerCertificate either makes both files, where no file was, and returns the public key,
  -- or it fails. On failure every file that was there is unchanged, and a new file stays only at the
  -- path of the key or the certificate, if writing it broke off or the key could not be removed.
  pub generate_server_certificate_cases :
      (c : Crypto) (g : Generator) (now : ℕ) (disk : Disk)
      → Outcome c g now disk (generate_server_certificate s c g cert_path key_path now disk)
  unfolding generate_server_certificate write_files
  generate_server_certificate_cases c g now disk = encoded (server_material g now) refl
    where
      written :
          (m : Material) (r : Result KeygenError (Unit {0}) × Disk)
          → server_material g now ≡ ok m
          → Ends m disk r
          → Outcome c g now disk (with_public s c m r)
      written m (ok u, disk') e h = (m, e, refl, h)
      written m (err f, disk') e h = h

      encoded :
          (r : Result KeygenError Material)
          → server_material g now ≡ r
          → Outcome c g now disk (elim r [
            | err e ↦ (err e, disk)
            | ok m ↦ with_public s c m (write_files s cert_path key_path m disk)
          ])
      encoded (err f) e = record { files = λ name. inl refl }
      encoded (ok m) e = written m (write_files s cert_path key_path m disk) e (
          write_certificate-Ends m disk _
            (write_pem-Pem s key_path "EC PRIVATE KEY" m.key_der 0x180 disk))
