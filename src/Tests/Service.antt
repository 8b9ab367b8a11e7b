-- ===== src/Tests/Service.antt =====
-- Calls of the service over one database with both tables.
use pqc_api.Prelude.{
  replicate, Bytes, ◌≡◌, ◌↔◌, refl, ap, sym, ◌∙◌, true, false, some, [], ◌∷◌, arith, All, text,
}
use pqc_api.Prelude.Int.{ℤ, pos}
use pqc_api.Std.Outcome.{Outcome, returns}
use pqc_api.Std.Decimal.{to_string, stoi}
use pqc_api.Std.Decimal.RoundTrip.{stoi-to_string}
use pqc_api.Persistence.Users.{User}
use pqc_api.Persistence.Users.Table.{with_id}
use pqc_api.Persistence.Documents.Table as Documents
use pqc_api.Auth.World.{World}
use pqc_api.Auth.Manager as Auth
use pqc_api.Api.Http.{Request, Response, json_response, error_response}
use pqc_api.Api.Service.{Call, Route, serve, routes, remove, register_user}
use pqc_api.Api.Service.Safety.{
  Served, start, call, pass, RemovesOwn, privileged_iff, users_kept, documents_kept,
}
use pqc_api.Api.Documents.{download, verify, pdf_response, verified_doc}
use pqc_api.Api.Documents.Ownership.{documents_not_owned}
use pqc_api.Api.Service.Lifetime.{NotRemoved, served_verifies}
use pqc_api.Api.Service.Protected.{is_open, protected_routes}
use pqc_api.Tests.Fakes.Crypto.{openssl, sodium, openssl-Base64Laws}
use pqc_api.Tests.Fakes.Text.{json}
use pqc_api.Tests.Fakes.Stores.{redis, redis-RedisLaws}
use pqc_api.Tests.Fakes.Keys.{evp, evp-SignatureLaws}
use pqc_api.Tests.Fakes.Shared.{tables}
use pqc_api.Tests.Fakes.SharedUsers.{tables-UserTable}
use pqc_api.Tests.Fakes.SharedDocuments.{tables-DocumentTable}
use pqc_api.Tests.Fakes.SharedLaws.{tables-SharedTables}
use pqc_api.Tests.Tokens.{secret, issue_time}
use pqc_api.Tests.Sessions.{server}
use pqc_api.Tests.Accounts.{alice}
use pqc_api.Tests.Documents.{
  request, request_of_seven, no_bearer, stranger, signer, mine, theirs, content, signature,
  content_bytes, content_filled, content_signed, mine-IsStored, signer-IsPair,
}
use pqc_api.Tests.Endpoints.{x509, certificate}
use mathlib.Core.Option.{some-injective}

abbrev pub chief : User
chief = record {
  id = pos 9;
  username = text "chief";
  password_hash = text "qbhknbu7";
  created_at = text "2026-04-01 10:00:00";
  role = pos 1;
}

abbrev pub world : World redis tables
world = record {
  redis = server;
  db = record { up = true; users = alice ∷ chief ∷ []; documents = mine ∷ theirs ∷ [] };
}

abbrev pub asked : Request → ℤ → Call
asked request id = record { request = request; now = issue_time; salt = []; random = []; id = id }

abbrev pub removal : Call
removal = asked request (pos 4)

abbrev pub after_call : World redis tables
after_call =
    (serve openssl json evp x509 sodium redis tables secret signer certificate remove removal
      world).1

abbrev later : World redis tables
later =
    (serve openssl json evp x509 sodium redis tables secret signer certificate register_user
      (asked stranger (pos 0))
      (record after_call { redis = redis-RedisLaws.elapse 60 after_call.redis })).1

abbrev Reached : World redis tables → World redis tables → Type 0
Reached =
    Served openssl json evp x509 sodium redis tables secret signer certificate redis-RedisLaws
      tables-UserTable tables-DocumentTable tables-SharedTables

reached : Reached world later
reached = call register_user (asked stranger (pos 0)) (pass 60 (call remove removal start))

privileged_iff_example :
    (with_id (pos 9) later.db.users ≡ some chief) ↔ (with_id (pos 9) world.db.users ≡ some chief)
privileged_iff_example =
    privileged_iff openssl json evp x509 sodium redis tables secret signer certificate
      redis-RedisLaws tables-UserTable tables-DocumentTable tables-SharedTables reached (pos 9)
      chief (λ e. cc)

users_kept_example : with_id (pos 7) later.db.users ≡ some alice
users_kept_example =
    users_kept openssl json evp x509 sodium redis tables secret signer certificate redis-RedisLaws
      tables-UserTable tables-DocumentTable tables-SharedTables reached (pos 7) alice refl

-- The user 7 asks to remove the document of the user 8.
not_own :
    ¬ RemovesOwn openssl json evp x509 sodium redis tables secret signer certificate redis-RedisLaws
      tables-UserTable tables-DocumentTable tables-SharedTables remove removal world
      (pos 4)
      theirs
not_own r =
    let seven : to_string (pos 7) ≡ r.user_id =
      some-injective _ _ (sym request_of_seven ∙ r.accepted) in
    let eight : stoi (to_string (pos 7)) ≡ returns (pos 8) = rw seven r.owner in
    let differs = sym (stoi-to_string (pos 7) (omega arith)) ∙ eight in cc

documents_kept_example : Documents.with_id (pos 4) after_call.db.documents ≡ some theirs
documents_kept_example =
    documents_kept openssl json evp x509 sodium redis tables secret signer certificate
      redis-RedisLaws tables-UserTable tables-DocumentTable tables-SharedTables remove removal world
      (pos 4) theirs not_own refl

protected_routes_example :
    All
      (λ (r : Route).
        is_open r.path ≡ false
        → serve openssl json evp x509 sodium redis tables secret signer certificate r.handler
            (asked stranger (pos 3))
            world
          ≡ (error_response json (text "Unauthorized") 401, world))
      routes
protected_routes_example =
    protected_routes openssl json evp x509 sodium redis tables secret signer certificate
      redis-RedisLaws (asked stranger (pos 3)) world no_bearer

-- The refused call changes nothing.
after_call-world : after_call ≡ world
unfolding serve
after_call-world =
    ap (λ (r : Outcome Response × World redis tables). r.1)
      (documents_not_owned openssl json evp signer redis tables secret redis-RedisLaws
        tables-DocumentTable issue_time request world refl (pos 7) (omega arith) request_of_seven
        (pos 4) refl).2

abbrev refused_removal : Reached world after_call
refused_removal = call remove removal start

not_removed :
    NotRemoved openssl json evp x509 sodium redis tables secret signer certificate redis-RedisLaws
      tables-UserTable tables-DocumentTable tables-SharedTables refused_removal
      (pos 3)
      mine
not_removed = (λ r. (let wrong = r.target in cc), tt)

served_verifies_example :
    (download openssl json evp signer redis tables secret issue_time request (pos 3) after_call
      ≡ (returns (pdf_response (text "a.pdf") content), after_call))
    × (verify openssl json evp signer redis tables secret issue_time request (pos 3) after_call
        ≡ (json_response json (verified_doc (pos 3) true mine.document) 200, after_call))
served_verifies_example =
    served_verifies openssl json evp x509 sodium redis tables secret signer certificate
      redis-RedisLaws tables-UserTable tables-DocumentTable tables-SharedTables refused_removal
      (rw after_call-world refl) issue_time request (pos 7) (omega arith)
      (rw after_call-world request_of_seven) (text "a.pdf") content signature (pos 3)
      openssl-Base64Laws content_bytes content_filled mine-IsStored not_removed evp-SignatureLaws
      signer-IsPair content_signed

abbrev bob_added : World redis tables
bob_added = (Auth.register_user redis tables sodium [] (text "bob") (text "password") world).1

-- An hour later.
abbrev hour_later : World redis tables
hour_later = record bob_added { redis = redis-RedisLaws.elapse 3600 bob_added.redis }

abbrev random : Bytes
random = replicate 32 171
