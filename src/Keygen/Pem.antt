-- ===== src/Keygen/Pem.antt =====
-- cmd/jiejie-masque/server_keygen.go: the outcomes of writePEM.
use mathlib.Core.Option.{none-ne-some}
use jiejie_masque_unified.Base.{
  ℕ, ◌≡◌, ◌≢◌, refl, sym, ◌∙◌, string_eq, Bool, true, false, Option, none, some, String, take,
  if◌then◌else◌,
}
use jiejie_masque_unified.Base.Fallible.{Result, ok, err}
use jiejie_masque_unified.Dict.{get, put}
use jiejie_masque_unified.Auth.{Bytes}
use jiejie_masque_unified.Keygen.{
  File, Storage, KeygenError, Disk, encode, write_pem, file_exists, open_failed, encode_failed,
}

module _ (s : Storage) where
  -- writePEM, for each outcome.
  pub data Pem (path block_type : String) (der : Bytes) (mode : ℕ) (disk : Disk)
      : Result KeygenError (Unit {0}) × Disk → Type 0 where
    refused : (e : KeygenError) → Pem path block_type der mode disk (err e, disk)
    partial :
        (n : ℕ)
        → get (s.file_named path) disk ≡ none
        → s.breaks_off path ≡ some n
        → Pem path block_type der mode disk (
          err encode_failed,
          put
              (s.file_named path)
              (record { mode = mode; bytes = take n (s.pem block_type der) })
              disk,
        )
    complete :
        get (s.file_named path) disk ≡ none
        → Pem path block_type der mode disk (
          ok tt,
          put (s.file_named path) (record { mode = mode; bytes = s.pem block_type der }) disk,
        )

  pub breaks : {path : String} {n : ℕ} → s.breaks_off path ≡ some n → s.breaks_off path ≢ none
  breaks e absent = none-ne-some _ (sym absent ∙ e)

  encode-Pem :
      (path block_type : String) (der : Bytes) (mode : ℕ) (disk : Disk) (broken : Option ℕ)
      → get (s.file_named path) disk ≡ none
      → s.breaks_off path ≡ broken
      → Pem path block_type der mode disk (encode s path mode (s.pem block_type der) disk)
  unfolding encode
  encode-Pem path block_type der mode disk none absent e = rw (e, encode) (complete absent)
  encode-Pem path block_type der mode disk (some n) absent e = rw (e, encode) (partial n absent e)

  pub write_pem-Pem :
      (path block_type : String) (der : Bytes) (mode : ℕ) (disk : Disk)
      → Pem path block_type der mode disk (write_pem s path block_type der mode disk)
  unfolding write_pem
  write_pem-Pem path block_type der mode disk = found (get (s.file_named path) disk) refl
    where
      opened :
          get (s.file_named path) disk ≡ none
          → (refuses : Bool)
          → Pem path block_type der mode disk (
              if refuses
              then (err open_failed, disk)
              else encode s path mode (s.pem block_type der) disk)
      opened absent true = refused open_failed
      opened absent false = encode-Pem path block_type der mode disk (s.breaks_off path) absent refl

      found :
          (o : Option File)
          → get (s.file_named path) disk ≡ o
          → Pem path block_type der mode disk (elim o [
            | none ↦
                if s.refuses path
                then (err open_failed, disk)
                else encode s path mode (s.pem block_type der) disk
            | some f ↦ (err file_exists, disk)
          ])
      found none absent = opened absent (s.refuses path)
      found (some f) e = refused file_exists
