-- ===== src/Api/Documents/Ownership.antt =====
-- Who reaches which documents: a user with a valid token, and only the user's own.
use pqc_api.Prelude.{
  ℕ, ◌≡◌, refl, ◌∙◌, true, false, Option, none, some, List, [], ◌∷◌, arith, if◌then◌else◌, Bytes,
  text, Bool-cases, inl, inr,
}
use pqc_api.Prelude.Int.{ℤ, IsInt32, eq_ℤ}
use pqc_api.Std.Outcome.{Outcome}
use pqc_api.Std.Exec.{Exec}
use pqc_api.Std.Decimal.{to_string}
use pqc_api.Std.Decimal.RoundTrip.{stoi-to_string}
use pqc_api.External.Openssl.{Openssl}
use pqc_api.External.Evp.{Evp}
use pqc_api.External.Json.{Json, obj, num, boolean, field, end}
use pqc_api.External.Redis.{Redis, RedisLaws}
use pqc_api.External.Postgres.{Postgres}
use pqc_api.Persistence.Documents.Table.{
  Stored, DocumentTable, with_id, owned, without, owned_by_lem, delete_by_id_lem,
}
use pqc_api.Crypto.Signer.{Signer}
use pqc_api.Auth.World.{World}
use pqc_api.Api.Http.{Request, Response, json_response, error_response, extract_user_id, with_user}
use pqc_api.Api.Http.Guard.{with_user_refused, with_user_accepted}
use pqc_api.Api.Documents.{sign, list, download, verify, remove, with_owned, if_owned, delete_owned}

-- A document that has an owner is in the table.
pub stored_of_owned :
    (found : Option Stored) (user_id : ℤ)
    → owned found user_id ≡ true
    → (d : Stored) × (found ≡ some d)
stored_of_owned none user_id h = cc
stored_of_owned (some d) user_id h = (d, refl)

-- Deleting an id removes it and no other.
pub with_id-without :
    (id j : ℤ) (ds : List Stored)
    → with_id j (without id ds) ≡ (if eq_ℤ id j then none else with_id j ds)
with_id-without id j [] = elim (Bool-cases (eq_ℤ id j)) [ inl e ↦ rw e | inr e ↦ rw e ]
with_id-without id j (d ∷ ds) = ground (arith, with_id-without id j ds)

module _ (R : Redis) (D : Postgres) where
  -- The answer of an error, with nothing changed.
  abbrev pub refusal : Json → Bytes → ℕ → World R D → Outcome Response × World R D
  refusal J message code w = (error_response J message code, w)

module _ (O : Openssl) (J : Json) (E : Evp) (signer : Signer E) (R : Redis) (D : Postgres)
    (secret_key : Bytes) (L : RedisLaws R) (T : DocumentTable D) (now : ℤ) (req : Request)
    (w : World R D) where
  -- A request without a token that is accepted: `sign`, `list`, `download`, `verify` and `remove`
  -- each answer 401 and change nothing.
  pub documents_unauthorized :
      (extract_user_id O J R secret_key now req w.redis).0 ≡ none
      → (id : ℤ)
      → (sign O J E signer R D secret_key now req w ≡ refusal R D J (text "Unauthorized") 401 w)
        × (list O J E signer R D secret_key now req w ≡ refusal R D J (text "Unauthorized") 401 w)
        × (download O J E signer R D secret_key now req id w
            ≡ refusal R D J (text "Unauthorized") 401 w)
        × (verify O J E signer R D secret_key now req id w
            ≡ refusal R D J (text "Unauthorized") 401 w)
        × (remove O J E signer R D secret_key now req id w
            ≡ refusal R D J (text "Unauthorized") 401 w)
  unfolding sign list download verify remove
  documents_unauthorized none_found id = (
    with_user_refused O J R secret_key L D now req w _ none_found,
    with_user_refused O J R secret_key L D now req w _ none_found,
    with_user_refused O J R secret_key L D now req w _ none_found,
    with_user_refused O J R secret_key L D now req w _ none_found,
    with_user_refused O J R secret_key L D now req w _ none_found,
  )

  module _ (up : T.is_up w.db ≡ true) (user_id : ℤ) (range : IsInt32 user_id)
      (user : (extract_user_id O J R secret_key now req w.redis).0 ≡ some (to_string user_id)) where
    pub with_owned_lem :
        (handler : Exec (World R D) Response) (id : ℤ)
        → with_user O J R D secret_key now req (with_owned O J E signer R D secret_key handler id) w
          ≡ if_owned O J E signer R D secret_key handler
              (owned (with_id id (T.documents w.db)) user_id)
              w
    unfolding with_owned
    with_owned_lem handler id =
        with_user_accepted O J R secret_key L D now req w _ (to_string user_id) user
        ∙ rw (stoi-to_string user_id range, owned_by_lem D T w.db up id user_id) refl

    -- While the database can be reached, for a user whose token is accepted and whose id is a
    -- 32-bit integer: for a document of another user, or none, `download`, `verify` and `remove`
    -- each answer 404 and change nothing.
    pub documents_not_owned :
        (id : ℤ)
        → owned (with_id id (T.documents w.db)) user_id ≡ false
        → (download O J E signer R D secret_key now req id w
            ≡ refusal R D J (text "Not found") 404 w)
          × (verify O J E signer R D secret_key now req id w
              ≡ refusal R D J (text "Not found") 404 w)
          × (remove O J E signer R D secret_key now req id w
              ≡ refusal R D J (text "Not found") 404 w)
    unfolding download verify remove
    documents_not_owned id foreign = (
      with_owned_lem _ id ∙ rw foreign,
      with_owned_lem _ id ∙ rw foreign,
      with_owned_lem _ id ∙ rw foreign,
    )

    -- While the database can be reached, for a user whose token is accepted and whose id is a
    -- 32-bit integer: `remove` of a document of that user answers 200, and afterwards the row of
    -- that id is gone and every other row is there.
    pub remove-owned :
        (id : ℤ)
        → owned (with_id id (T.documents w.db)) user_id ≡ true
        → ((remove O J E signer R D secret_key now req id w).0
            ≡ json_response J
                (obj (field (text "deleted") (boolean true) (field (text "doc_id") (num id) end)))
                200)
          × ((j : ℤ)
              → with_id j (T.documents (remove O J E signer R D secret_key now req id w).1.db)
                ≡ (if eq_ℤ id j then none else with_id j (T.documents w.db)))
    unfolding remove delete_owned
    remove-owned id own =
        let (d, found) = stored_of_owned _ user_id own in
        let (done, after) = delete_by_id_lem D T w.db up id in
        let served = with_owned_lem (delete_owned O J E signer R D secret_key id) id in
        (
          rw (served, own, done, found) refl,
          λ j. rw (served, own, done, found, after) (with_id-without id j (T.documents w.db)),
        )
