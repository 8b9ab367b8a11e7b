-- ===== src/Tests/Documents.antt =====
-- Documents of two users in one table, and a signer with a pair of keys.
use pqc_api.Prelude.{
  map, ℕ, ◌↔◌, ◌≡◌, ◌≢◌, ◌∙◌, ap, sym, arith, refl, true, false, none, some, [], ◌∷◌, ◌++◌, All,
  IsByte, Bytes, text, str_eq, if◌then◌else◌,
}
use pqc_api.Prelude.Int.{ℤ, pos, eq_ℤ}
use pqc_api.Std.Outcome.{Outcome, returns, throws, undefined}
use pqc_api.Std.Decimal.{to_string}
use pqc_api.Std.Strings.{starts_with, starts_with-append, c_str, contains}
use pqc_api.External.Json.{Items, arr, obj, num, boolean, field, end}
use pqc_api.Persistence.RedisClient.{get_value}
use pqc_api.Persistence.Sessions.{make_key, get_key}
use pqc_api.Persistence.Documents.Table.{Stored, new_row, with_id, owned, of_user}
use pqc_api.Crypto.Signer as Dilithium
use pqc_api.Crypto.Signer.{Signer, live, null, sign_with, load_private_key, destroy}
use pqc_api.Crypto.Signer.Keys as Keys
use pqc_api.Crypto.Signer.Keys.{IsPair}
use pqc_api.Auth.World.{World}
use pqc_api.Auth.Manager.{verify_token}
use pqc_api.Auth.Manager.Verify.{verify_token_parsed}
use pqc_api.Api.Http.{Request, Response, Form, json_response, extract_user_id}
use pqc_api.Api.Documents.{
  sign, list, download, verify, remove, sha256_hex, base64_encode, is_pdf, tail_of,
}
use pqc_api.Api.Documents.Ownership.{refusal, documents_not_owned, remove-owned}
use pqc_api.Api.Documents.Listing.{elements, entry, list_lem}
use pqc_api.Api.Documents.Signing.{IsStored}
use pqc_api.Api.Documents.Refused.{HasPdf, Unfit, sign_refused}
use mathlib.Core.Option.{some-injective}
use mathlib.Core.Path.{subst}
use pqc_api.Api.Disposition.{content_disposition}
use pqc_api.Api.Disposition.Value.{Parts, shown_name, content_disposition_lem}
use pqc_api.Api.Documents.Format.{IsPdf, is_pdf_iff}
use pqc_api.Tests.Fakes.Crypto.{checksum, openssl}
use pqc_api.Tests.Fakes.Text.{json}
use pqc_api.Tests.Fakes.Stores.{redis, redis-RedisLaws}
use pqc_api.Tests.Fakes.Archive.{archive, archive-DocumentTable}
use pqc_api.Tests.Fakes.Keys.{evp}
use pqc_api.Tests.Tokens.{secret, issue_time, issued, issued_accepted}
use pqc_api.Tests.Sessions.{server}
use mathlib.Core.List.{Perm}

abbrev pub content : Bytes
content = text "%PDF-1.7 one page %%EOF"

abbrev pub form : Form
form = record {
  files = record { item_name = text "file"; file_name = text "a.pdf"; content = content } ∷ [];
  parameters = λ k. none;
}

abbrev pub request : Request
request = record { body = []; authorization = text "Bearer " ++ issued; form = some form }

abbrev pub stranger : Request
stranger = record request { authorization = text "Basic abcd" }

abbrev pub signer : Signer evp
signer = record { private_key = live 5; public_key = live 5 }

pub signer-IsPair : IsPair evp signer
signer-IsPair = record { key = 5; copy = 5; private_live = refl; public_live = refl; copied = refl }

abbrev pub signature : Bytes
signature = checksum (5 ∷ content) ∷ []

-- The document 3 belongs to the user 7, and the document 4 to the user 8.
abbrev pub mine : Stored
mine =
    new_row (pos 7) (text "a.pdf") (base64_encode openssl content) (base64_encode openssl signature)
      (sha256_hex openssl content) (pos 3) (text "2026-01-01 00:00:00")

abbrev pub theirs : Stored
theirs = new_row (pos 8) (text "b.pdf") [] [] [] (pos 4) (text "2026-01-02 00:00:00")

abbrev pub world : World redis archive
world = record { redis = server; db = record { up = true; documents = mine ∷ theirs ∷ [] } }

seven :
    (verify_token openssl json redis secret issue_time issued server).0 ≡ some (to_string (pos 7))
unfolding text str_eq make_key get_key to_string get_value c_str
seven =
    rw (verify_token_parsed openssl json redis secret issue_time issued server issued_accepted) refl

pub request_of_seven :
    (extract_user_id openssl json redis secret issue_time request server).0
    ≡ some (to_string (pos 7))
unfolding extract_user_id text
request_of_seven = rw (starts_with-append (text "Bearer ") issued) seven

pub no_bearer : (extract_user_id openssl json redis secret issue_time stranger server).0 ≡ none
unfolding extract_user_id text starts_with
no_bearer = refl

theirs_foreign : owned (with_id (pos 4) world.db.documents) (pos 7) ≡ false
theirs_foreign = refl

pub content_signed : Dilithium.sign evp signer content ≡ returns signature
unfolding Dilithium.sign sign_with
content_signed = refl

pub content_bytes : All IsByte content
unfolding text
content_bytes = omega arith

pub content_filled : content ≢ []
unfolding text
content_filled = cc

abbrev pub mine-IsStored :
    IsStored openssl (pos 7) (text "a.pdf") content signature (pos 3) world.db.documents
mine-IsStored = record {
  row = mine;
  found = refl;
  owner = refl;
  name = refl;
  digest = refl;
  signed = refl;
  pdf = refl;
}

documents_not_owned_example :
    (download openssl json evp signer redis archive secret issue_time request (pos 4) world
      ≡ refusal redis archive json (text "Not found") 404 world)
    × (verify openssl json evp signer redis archive secret issue_time request (pos 4) world
        ≡ refusal redis archive json (text "Not found") 404 world)
    × (remove openssl json evp signer redis archive secret issue_time request (pos 4) world
        ≡ refusal redis archive json (text "Not found") 404 world)
documents_not_owned_example =
    documents_not_owned openssl json evp signer redis archive secret redis-RedisLaws
      archive-DocumentTable issue_time request world refl (pos 7) (omega arith) request_of_seven
      (pos 4) theirs_foreign

remove-owned_example :
    ((remove openssl json evp signer redis archive secret issue_time request (pos 3) world).0
      ≡ json_response json
          (obj (field (text "deleted") (boolean true) (field (text "doc_id") (num (pos 3)) end)))
          200)
    × ((j : ℤ)
        → with_id j
            (remove openssl json evp signer redis archive secret issue_time request
              (pos 3)
              world).1.db.documents
          ≡ (if eq_ℤ (pos 3) j then none else with_id j world.db.documents))
remove-owned_example =
    remove-owned openssl json evp signer redis archive secret redis-RedisLaws archive-DocumentTable
      issue_time request world refl (pos 7) (omega arith) request_of_seven (pos 3) refl

list_lem_example :
    (items : Items) × (list openssl json evp signer redis archive secret issue_time request world
      ≡ (json_response json (obj (field (text "documents") (arr items) end)) 200, world))
    × Perm (elements items) (map entry (of_user (pos 7) world.db.documents))
list_lem_example =
    list_lem openssl json evp signer redis archive secret redis-RedisLaws archive-DocumentTable
      issue_time request world refl (pos 7) (omega arith) request_of_seven

-- What `sign` leaves of an upload, in a state where the table holds the two documents.
abbrev answer : Outcome Response × World redis archive
answer = sign openssl json evp signer redis archive secret issue_time request world

abbrev picture : Form
picture = record {
  files = record { item_name = text "file"; file_name = text "a.png"; content = text "PNG" } ∷ [];
  parameters = λ k. none;
}

picture_no_pdf : ¬ HasPdf (some picture)
unfolding is_pdf contains starts_with tail_of text
picture_no_pdf p =
    let same : picture ≡ p.form = some-injective _ _ p.multipart in
    let files : picture.files ≡ p.form.files = ap (λ (f : Form). f.files) same in
    let first : picture.files ≡ p.file ∷ p.files = files ∙ p.first in
    let content : text "PNG" ≡ p.file.content = cc in
    let accepted : is_pdf (text "PNG") ≡ true =
      (is_pdf_iff (text "PNG")).1 (subst IsPdf (sym content) p.pdf) in
    cc

sign_refused_example :
    (message : Bytes) × (code : ℕ) × Unfit (some picture) message code
    × (sign openssl json evp signer redis archive secret issue_time
          (record request { form = some picture })
          world
        ≡ refusal redis archive json message code world)
unfolding text extract_user_id
sign_refused_example =
    sign_refused openssl json evp signer redis archive secret world (to_string (pos 7))
      redis-RedisLaws issue_time (record request { form = some picture }) request_of_seven
      picture_no_pdf

empty_opened : evp.fopen (c_str (text "empty.pem")) ≡ some []
unfolding c_str str_eq text
empty_opened = refl

load_private_key_dangling_example :
    ((load_private_key evp (text "empty.pem") signer).0 ≡ returns false)
    × (Dilithium.verify evp (load_private_key evp (text "empty.pem") signer).1 content signature
        ≡ throws undefined)
    × ((destroy evp (load_private_key evp (text "empty.pem") signer).1).0 ≡ throws undefined)
load_private_key_dangling_example =
    Keys.load_private_key_dangling evp signer (text "empty.pem") [] content signature 5 (λ e. cc)
      refl empty_opened refl

abbrev awkward : Bytes
awkward = text "a\"b.pdf" ++ 200 ∷ []

is_pdf_iff_example : (is_pdf content ≡ true) ↔ IsPdf content
is_pdf_iff_example = is_pdf_iff content

awkward_bytes : All IsByte awkward
unfolding text
awkward_bytes = omega arith

content_disposition_lem_example : Parts (shown_name awkward) (content_disposition awkward)
content_disposition_lem_example = content_disposition_lem awkward awkward_bytes
