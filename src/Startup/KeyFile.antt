-- ===== src/Startup/KeyFile.antt =====
-- `writePrivateKeyFile` of src/main.cpp.
use pqc_api.Prelude.{
  ℕ, ◌≡◌, refl, ap, arith, ◌∙◌, Bool, true, false, some, ◌==◌, ◌&&◌, if◌then◌else◌, length, Bytes,
  str_eq, str_eq_refl, Bool-cases, inl, inr,
}
use pqc_api.Std.Strings.{c_str}
use pqc_api.External.Files.{Files, FileLaws}

module _ (F : Files) where
  pub record Disk : Type 0 where
    pub files : F.State
    pub umask : ℕ

  -- `umask(mask)` returns the mask that it replaces.
  abbrev set_umask : ℕ → Disk → ℕ × Disk
  set_umask mask d = (d.umask, record d { umask = mask })

  -- `fclose(f) == 0 && ok` behind the `fwrite`.
  abbrev write_all : Bytes → Bytes → Disk → Bool × Disk
  write_all path pem d =
      let (written, s) = F.fwrite path pem d.files in
      let (closed, s') = F.fclose path s in
      (closed && written == length pem, record d { files = s' })

  -- `writePrivateKeyFile`
  unfoldable pub write_private_key_file : Bytes → Bytes → Disk → Bool × Disk
  write_private_key_file path pem d =
      let (old_mask, masked) = set_umask 0x3f d in
      let (opened, s) = F.fopen_new (c_str path) masked.umask masked.files in
      let (mask, d') = set_umask old_mask (record masked { files = s }) in
      let written = write_all (c_str path) pem d' in if opened then written else (false, d')

  module _ (L : FileLaws F) (path pem : Bytes) (d : Disk) where
    -- What was written, and where.
    record Written (d' : Disk) : Type 0 where
      pub holds : L.contents d'.files (c_str path) ≡ some pem
      pub private : L.mode d'.files (c_str path) ≡ 0x180

    abbrev opened : Bool × F.State
    opened = F.fopen_new (c_str path) 0x3f d.files

    not_opened : opened.0 ≡ false → write_private_key_file path pem d ≡ (false, d)
    unfolding write_private_key_file
    not_opened shut = rw (shut, L.open_failed d.files (c_str path) 0x3f shut) refl

    was_opened :
        opened.0 ≡ true
        → write_private_key_file path pem d
          ≡ write_all (c_str path) pem (record d { files = opened.1 })
    unfolding write_private_key_file
    was_opened open_file = rw open_file refl

    write_all-Written :
        opened.0 ≡ true
        → (write_all (c_str path) pem (record d { files = opened.1 })).0 ≡ true
        → Written (write_all (c_str path) pem (record d { files = opened.1 })).1
    write_all-Written open_file done =
        let (now, kind) = L.open_new d.files (c_str path) (c_str path) 0x3f open_file in
        record {
          holds =
              L.write_closed opened.1 (c_str path) pem (now ∙ rw (str_eq_refl (c_str path)) refl)
                (ground arith) (ground arith);
          private =
              (L.write_mode (F.fwrite (c_str path) pem opened.1).1 (c_str path) pem).1
              ∙ (L.write_mode opened.1 (c_str path) pem).0
              ∙ kind;
        }

    others_kept :
        (other : Bytes)
        → str_eq other (c_str path) ≡ false
        → L.contents (write_private_key_file path pem d).1.files other ≡ L.contents d.files other
    others_kept other differs = elim (Bool-cases opened.0) [
      | inr shut ↦ rw (not_opened shut) refl
      | inl open_file ↦ rw (was_opened open_file) (
          (L.write_others (F.fwrite (c_str path) pem opened.1).1 (c_str path) other pem differs).1
          ∙ (L.write_others opened.1 (c_str path) other pem differs).0
          ∙ (L.open_new d.files (c_str path) other 0x3f open_file).0
          ∙ rw differs refl)
    ]

    -- A call of `writePrivateKeyFile`: where a file is there it returns false and changes nothing;
    -- if it returns true the file holds the key and has the mode 0600; it leaves every other file
    -- and the umask as they were.
    pub write_private_key_file_lem :
        ((old : Bytes)
          → L.contents d.files (c_str path) ≡ some old
          → write_private_key_file path pem d ≡ (false, d))
        × ((write_private_key_file path pem d).0 ≡ true
            → (L.contents (write_private_key_file path pem d).1.files (c_str path) ≡ some pem)
              × (L.mode (write_private_key_file path pem d).1.files (c_str path) ≡ 0x180))
        × ((other : Bytes)
            → str_eq other (c_str path) ≡ false
            → L.contents (write_private_key_file path pem d).1.files other
              ≡ L.contents d.files other)
        × ((write_private_key_file path pem d).1.umask ≡ d.umask)
    write_private_key_file_lem = (
      λ old there. not_opened (ap (λ r. r.0) (L.open_existing d.files (c_str path) old 0x3f there)),
      λ done. elim (Bool-cases opened.0) [
        | inr shut ↦ let wrong = rw (not_opened shut) at done in cc
        | inl open_file ↦
            let w = write_all-Written open_file (rw (was_opened open_file) at done) in
            rw (was_opened open_file) (w.holds, w.private)
      ],
      others_kept,
      elim (Bool-cases opened.0) [
        | inr shut ↦ rw (not_opened shut) refl
        | inl open_file ↦ rw (was_opened open_file) refl
      ],
    )
