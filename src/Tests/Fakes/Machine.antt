-- ===== src/Tests/Fakes/Machine.antt =====
-- A machine that a server can start on: files in memory, two certificates, and services that answer.
use pqc_api.Prelude.{
  ℕ, ◌-◌, ◌≡◌, refl, Bool, true, false, Option, none, some, [], ◌∷◌, ◌++◌, if◌then◌else◌, length,
  Bytes, text, str_eq, str_eq_refl, Bool-cases, inl, inr,
}
use pqc_api.Prelude.Int.{pos}
use pqc_api.External.Files.{Files, FileLaws}
use pqc_api.External.Host.{Host}
use pqc_api.External.X509.{X509}
use pqc_api.External.Ocsp.{Ocsp}
use pqc_api.External.Evp.{Evp, PrivatePemLaws}
use pqc_api.Persistence.PostgreSqlClient.{made}
use pqc_api.Startup.Main.{Process}
use pqc_api.Tls.OqsProvider.{initial}
use pqc_api.Tests.Endpoints.{x509}
use pqc_api.Tests.Fakes.Keys.{evp}
use Prim.Native.Nat.{bit_and}
use mathlib.Core.Option
use mathlib.Core.Option.{some-injective}

-- A file is its contents and its mode.
abbrev pub Tree : Type 0
Tree = Bytes → Option (Bytes × ℕ)

abbrev pub put : Bytes → Option (Bytes × ℕ) → Tree → Tree
put path file s other = if str_eq other path then file else s other

abbrev pub create : Option (Bytes × ℕ) → Bytes → ℕ → Tree → Bool × Tree
create (some old) path mask s = (false, s)
create none path mask s = (true, put path (some ([], bit_and 0x1b6 (0x1ff - mask))) s)

abbrev pub append_to : Bytes → Option (Bytes × ℕ) → Option (Bytes × ℕ)
append_to bytes = Option.map (λ (old, mode). (old ++ bytes, mode))

abbrev pub files : Files
files = record {
  State = Tree;
  fopen_new = λ path mask s. create (s path) path mask s;
  fwrite = λ path bytes s. (length bytes, put path (append_to bytes (s path)) s);
  fclose = λ path s. (true, s);
}

abbrev pub mode_of : Option (Bytes × ℕ) → ℕ
mode_of none = 0
mode_of (some (bytes, mode)) = mode

abbrev pub bytes_of : Option (Bytes × ℕ) → Option Bytes
bytes_of = Option.map (λ (bytes, mode). bytes)

pub mode_of-append_to :
    (bytes : Bytes) (file : Option (Bytes × ℕ)) → mode_of (append_to bytes file) ≡ mode_of file
mode_of-append_to bytes none = refl
mode_of-append_to bytes (some (old, mode)) = refl

pub open_existing_lem :
    (file : Option (Bytes × ℕ)) (path old : Bytes) (mask : ℕ) (s : Tree)
    → bytes_of file ≡ some old
    → create file path mask s ≡ (false, s)
open_existing_lem none path old mask s e = cc
open_existing_lem (some file) path old mask s e = refl

pub open_failed_lem :
    (file : Option (Bytes × ℕ)) (path : Bytes) (mask : ℕ) (s : Tree)
    → (create file path mask s).0 ≡ false
    → (create file path mask s).1 ≡ s
open_failed_lem none path mask s e = cc
open_failed_lem (some file) path mask s e = refl

pub open_new_lem :
    (file : Option (Bytes × ℕ)) (path other : Bytes) (mask : ℕ) (s : Tree)
    → (create file path mask s).0 ≡ true
    → (bytes_of ((create file path mask s).1 other)
        ≡ (if str_eq other path then some [] else bytes_of (s other)))
      × (mode_of ((create file path mask s).1 path) ≡ bit_and 0x1b6 (0x1ff - mask))
open_new_lem (some file) path other mask s e = cc
open_new_lem none path other mask s e = (
  elim (Bool-cases (str_eq other path)) [ inl same ↦ rw same | inr differs ↦ rw differs ],
  rw (str_eq_refl path),
)

pub append-empty :
    (bytes : Bytes) (file : Option (Bytes × ℕ))
    → bytes_of file ≡ some []
    → bytes_of (append_to bytes file) ≡ some bytes
append-empty bytes none e = cc
append-empty bytes (some (old, mode)) e = rw (some-injective old [] e) refl

abbrev pub files-FileLaws : FileLaws files
files-FileLaws = record {
  contents = λ s path. bytes_of (s path);
  mode = λ s path. mode_of (s path);
  open_existing = λ s path old mask. open_existing_lem (s path) path old mask s;
  open_failed = λ s path mask. open_failed_lem (s path) path mask s;
  open_new = λ s path other mask. open_new_lem (s path) path other mask s;
  write_others = λ s path other bytes differs. (rw differs refl, refl);
  write_mode = λ s path bytes. (rw (str_eq_refl path) (mode_of-append_to bytes (s path)), refl);
  write_closed =
      λ s path bytes empty all closed. rw (str_eq_refl path) (append-empty bytes (s path) empty);
}

abbrev pub jwt_key : Bytes
jwt_key = text "0123456789abcdef0123456789abcdef"

abbrev pub host : Host
host = record {
  getenv = λ name.
      if str_eq name (text "JWT_SECRET")
      then some jwt_key
      else if str_eq name (text "MLDSA_KEY_PATH")
      then some (text "key.pem")
      else none;
  provider = λ name. true;
  curl_init = true;
  pg_connection = λ url. made true;
  redis_connect = λ name port timeout. some (record { err = 0; errstr = [] });
  sodium_init = pos 0;
}

-- Every certificate file holds one certificate, signed by any.
abbrev pub certificates : X509
certificates = record x509 {
  fopen = λ path. some path;
  pem_read = λ contents. some (pos 1700086400);
  get_pubkey = λ c. some c;
  verify = λ c k. true;
}

-- A responder that always says good.
abbrev pub responder : Ocsp certificates
responder = record {
  request_der = λ cert issuer. some (text "request");
  Net = Unit;
  post = λ url request net. (some ((0 ∷ []) ∷ []), net);
  Reply = Unit;
  Basic = Unit;
  Single = Unit;
  d2i_response = λ s. some tt;
  response_status = λ r. 0;
  get1_basic = λ r. some tt;
  first_single = λ b. some tt;
  single_status = λ n. pos 0;
}

abbrev pub process : Process certificates responder files
process = record {
  provider = initial;
  net = tt;
  disk = record { files = λ path. none; umask = 0x12 };
}

-- The keys of a server that finds at every path the key that was generated.
abbrev pub evp_later : Evp
evp_later = record evp { fopen = λ path. some (5 ∷ []) }

pub read-write_lem :
    (k : ℕ) (pem : Bytes)
    → evp_later.pem_write_private k ≡ some pem
    → evp_later.pem_read_private pem ≡ some k
read-write_lem k pem e = rw (← some-injective (k ∷ []) pem e) refl

abbrev pub evp_later-PrivatePemLaws : PrivatePemLaws evp_later
evp_later-PrivatePemLaws = record { restored = λ k. k; read-write = read-write_lem }
