-- ===== src/External/Files.antt =====
-- The C library's files as src/main.cpp writes them. A stream is named by the path that it was
-- opened at; the umask stands beside the files.
use pqc_api.Prelude.{
  ℕ, ◌-◌, ◌≡◌, Bool, true, false, Option, some, [], if◌then◌else◌, length, Bytes, str_eq,
}
use Prim.Native.Nat.{bit_and}

pub record Files : Type 1 where
  pub State : Type 0
  -- `fopen(path, "wx")` under a umask; `false` is the null pointer.
  pub fopen_new : Bytes → ℕ → State → Bool × State
  -- The bytes that `fwrite` wrote, and whether `fclose` returned 0.
  pub fwrite : Bytes → Bytes → State → ℕ × State
  pub fclose : Bytes → State → Bool × State

-- The mode "wx" opens no file that is there; a new file has the mode 0666 less the umask. What was
-- written is in the file once `fwrite` wrote all of it and `fclose` succeeded.
pub record FileLaws (F : Files) : Type 0 where
  pub contents : F.State → Bytes → Option Bytes
  pub mode : F.State → Bytes → ℕ
  pub open_existing :
      (s : F.State) (path old : Bytes) (mask : ℕ)
      → contents s path ≡ some old
      → F.fopen_new path mask s ≡ (false, s)
  pub open_failed :
      (s : F.State) (path : Bytes) (mask : ℕ)
      → (F.fopen_new path mask s).0 ≡ false
      → (F.fopen_new path mask s).1 ≡ s
  pub open_new :
      (s : F.State) (path other : Bytes) (mask : ℕ)
      → (F.fopen_new path mask s).0 ≡ true
      → (contents (F.fopen_new path mask s).1 other
          ≡ (if str_eq other path then some [] else contents s other))
        × (mode (F.fopen_new path mask s).1 path ≡ bit_and 0x1b6 (0x1ff - mask))
  pub write_others :
      (s : F.State) (path other bytes : Bytes)
      → str_eq other path ≡ false
      → (contents (F.fwrite path bytes s).1 other ≡ contents s other)
        × (contents (F.fclose path s).1 other ≡ contents s other)
  pub write_mode :
      (s : F.State) (path bytes : Bytes)
      → (mode (F.fwrite path bytes s).1 path ≡ mode s path)
        × (mode (F.fclose path s).1 path ≡ mode s path)
  pub write_closed :
      (s : F.State) (path bytes : Bytes)
      → contents s path ≡ some []
      → (F.fwrite path bytes s).0 ≡ length bytes
      → (F.fclose path (F.fwrite path bytes s).1).0 ≡ true
      → contents (F.fclose path (F.fwrite path bytes s).1).1 path ≡ some bytes
