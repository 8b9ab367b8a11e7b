-- ===== src/Api/Documents/Listing.antt =====
-- What `list` of src/api/Controllers.cpp answers, entry by entry.
use pqc_api.Prelude.{◌≡◌, refl, ◌∙◌, ap, true, some, List, [], ◌∷◌, map, Bytes, text}
use pqc_api.Prelude.Int.{ℤ, IsInt32}
use pqc_api.Std.Decimal.{to_string}
use pqc_api.Std.Decimal.RoundTrip.{stoi-to_string}
use pqc_api.External.Openssl.{Openssl}
use pqc_api.External.Evp.{Evp}
use pqc_api.External.Json.{Json, Doc, Items, nil, item, str, num, obj, arr, field, end}
use pqc_api.External.Redis.{Redis, RedisLaws}
use pqc_api.External.Postgres.{Postgres}
use pqc_api.Persistence.Documents.{Document}
use pqc_api.Persistence.Documents.Table.{DocumentTable, of_user, find_by_user_id_lem}
use pqc_api.Crypto.Signer.{Signer}
use pqc_api.Auth.World.{World}
use pqc_api.Api.Http.{Request, json_response, extract_user_id}
use pqc_api.Api.Http.Guard.{with_user_accepted}
use pqc_api.Api.Documents.{list, list_for, listed}
use mathlib.Core.List.{Perm}
use mathlib.Core.List.Perm

-- The elements of a JSON array.
abbrev pub elements : Items → List Doc
elements nil = []
elements (item d items) = d ∷ elements items

-- A document as the answer shows it.
abbrev pub entry : Document → Doc
entry d = obj (
    field (text "id") (num d.id) (
      field (text "filename") (str d.filename) (
        field (text "sha256") (str d.sha256_hash)
          (field (text "signed_at") (str d.signed_at) end))))

elements-listed : (docs : List Document) → elements (listed docs) ≡ map entry docs
unfolding listed
elements-listed [] = refl
elements-listed (d ∷ docs) = ap (λ es. entry d ∷ es) (elements-listed docs)

module _ (O : Openssl) (J : Json) (E : Evp) (signer : Signer E) (R : Redis) (D : Postgres)
    (secret_key : Bytes) (L : RedisLaws R) (T : DocumentTable D) (now : ℤ) (req : Request)
    (w : World R D) (up : T.is_up w.db ≡ true) (user_id : ℤ) (range : IsInt32 user_id)
    (user : (extract_user_id O J R secret_key now req w.redis).0 ≡ some (to_string user_id)) where
  -- While the database can be reached, for a user whose token is accepted and whose id is a 32-bit
  -- integer: `list` answers 200 with an array under "documents" that has, in some order, one entry for
  -- each row of that user and no other, with the row's id, filename, digest and time of signing. It
  -- changes nothing.
  pub list_lem :
      (items : Items) × (list O J E signer R D secret_key now req w
        ≡ (json_response J (obj (field (text "documents") (arr items) end)) 200, w))
      × Perm (elements items) (map entry (of_user user_id (T.documents w.db)))
  unfolding list list_for
  list_lem =
      let (docs, found, perm) = find_by_user_id_lem D T w.db up user_id in
      (
        listed docs,
        with_user_accepted O J R secret_key L D now req w _ (to_string user_id) user
            ∙ rw (stoi-to_string user_id range, found) refl,
        rw (elements-listed docs) (Perm.map entry perm),
      )
