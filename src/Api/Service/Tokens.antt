-- ===== src/Api/Service/Tokens.antt =====
-- What no call does to the sessions of others.
use pqc_api.Prelude.{
  ◌≡◌, ◌≢◌, refl, ap, sym, ◌∙◌, inl, inr, Bool, true, false, some, Option, Bytes, Lacks, drop,
  if◌then◌else◌, Option-cases,
}
use pqc_api.Prelude.Int.{ℤ}
use pqc_api.Std.Outcome.{Outcome, returns, throws, json_error}
use pqc_api.Std.Exec.{Exec, continue}
use pqc_api.Std.Strings.{c_str}
use pqc_api.External.Openssl.{Openssl}
use pqc_api.External.Evp.{Evp}
use pqc_api.External.Json.{Json}
use pqc_api.External.Redis.{Redis, RedisLaws}
use pqc_api.External.Postgres.{Postgres}
use pqc_api.External.Sodium.{Sodium}
use pqc_api.External.X509.{X509}
use pqc_api.Persistence.Documents.{delete_by_id}
use pqc_api.Persistence.Sessions.{get_key, store_key, default_ttl_seconds}
use pqc_api.Persistence.Sessions.Others.{get_key-store_key_other, get_key-invalidate_other}
use pqc_api.Crypto.Signer.{Signer}
use pqc_api.Pki.Certificate.{Certificate}
use pqc_api.Auth.World.{World, on_redis, on_db_caught}
use pqc_api.Auth.SessionId.{generate_session_id}
use pqc_api.Auth.Token.Parse.{parse_token}
use pqc_api.Auth.Manager as Auth
use pqc_api.Auth.Manager.{verify_token, owner_check}
use pqc_api.Auth.Manager.Verify.{verify_token_parsed, logout_parsed, logout_refused}
use pqc_api.Api.Http.{caught_json}
use pqc_api.Api.Http.Guard.{verify_token-state, extract_user_id-state}
use pqc_api.Api.Accounts as Accounts
use pqc_api.Api.Documents as Documents
use pqc_api.Api.Service.Kept.{Kept}
use pqc_api.Api.Service.Calls as Calls
use pqc_api.Api.Service.DocumentCalls as DocumentCalls
use pqc_api.Api.Service.{
  Handler, register_user, login, get_profile, logout, check, health, sign, list, download, verify,
  remove, public_key, verify_external, Call, serve,
}

module _ (O : Openssl) (J : Json) (R : Redis) (D : Postgres) (secret_key : Bytes) (L : RedisLaws R)
    (session_id : Bytes) where
  abbrev owner_in : World R D → Option Bytes
  owner_in w = (get_key R session_id w.redis).0

  -- The store gives the session to the same user as before.
  pub record Still {A : Type 0} (m : Exec (World R D) A) : Type 0 where
    pub at : (w : World R D) → owner_in (m w).1 ≡ owner_in w

  continue-Still :
      {A B : Type 0} (r : Outcome A) (f : A → Exec (World R D) B) (w w' : World R D)
      → owner_in w' ≡ owner_in w
      → ((a : A) → Still (f a))
      → owner_in (continue r f w').1 ≡ owner_in w
  continue-Still (returns a) f w w' first rest = (rest a).at w' ∙ first
  continue-Still (throws e) f w w' first rest = first

  Still-if :
      {A : Type 0} (b : Bool) (m n : Exec (World R D) A)
      → Still m
      → Still n
      → Still (if b then m else n)
  Still-if true m n hm hn = hm
  Still-if false m n hm hn = hn

  caught-Still :
      {A : Type 0} (r : Outcome A) (handler : Exec (World R D) A) (w w' : World R D)
      → owner_in w' ≡ owner_in w
      → Still handler
      → owner_in (caught_json (r, w') handler).1 ≡ owner_in w
  caught-Still (throws json_error) handler w w' first rest = rest.at w' ∙ first
  caught-Still r handler w w' first rest = first

  abbrev sessions-Kept : Kept O J R D secret_key
  sessions-Kept = record {
    Keeps = λ {A} m. Still m;
    lifts = λ r. record { at = λ w. refl };
    binds =
        λ m f first rest. record { at = λ w. continue-Still (m w).0 f w (m w).1 (first.at w) rest };
    ifs = Still-if;
    catches = λ m handler first rest. record {
      at = λ w. caught-Still (m w).0 handler w (m w).1 (first.at w) rest;
    };
    user_by_id = λ id. record { at = λ w. refl };
    user_by_name = λ name. record { at = λ w. refl };
    user_saved = λ name hash. record { at = λ w. refl };
    document_by_id = λ id. record { at = λ w. refl };
    documents_by_user = λ user_id. record { at = λ w. refl };
    pdf_by_id = λ id. record { at = λ w. refl };
    ownership = λ id user_id. record { at = λ w. refl };
    document_saved = λ user_id filename pdf signature sha256. record { at = λ w. refl };
    token_read = λ now req. record {
      at = λ w.
          ap (λ s. (get_key R session_id s).0)
            (extract_user_id-state O J R secret_key L now req w.redis);
    };
    token_verified = λ now token. record {
      at = λ w.
          ap (λ s. (get_key R session_id s).0)
            (verify_token-state O J R secret_key L now token w.redis);
    };
  }

module _ (O : Openssl) (J : Json) (E : Evp) (X : X509) (S : Sodium) (R : Redis) (D : Postgres)
    (secret_key : Bytes) (signer : Signer E) (server_cert : Certificate X) (L : RedisLaws R)
    (session_id : Bytes) where
  -- The call ends the session, or opens another under its id: a `logout` with a token of it, and a
  -- `login` that draws the same random bytes again.
  abbrev pub Ends : Handler → Call → Type 0
  Ends login c = c_str (generate_session_id c.random) ≡ session_id
  Ends logout c =
      (user_id : Bytes) × (other : Bytes) × (c_str other ≡ session_id)
      × (parse_token O J secret_key c.now (drop 7 c.request.authorization) ≡ some (user_id, other))
  Ends h c = ⊥

  abbrev StillHere : {A : Type 0} → Exec (World R D) A → Type 0
  StillHere {A} m = Still O J R D secret_key L session_id m

  abbrev kept : Kept O J R D secret_key
  kept = sessions-Kept O J R D secret_key L session_id

  module _ (h : Lacks 0 session_id) where
    store_key-Still :
        (other user_id : Bytes)
        → c_str other ≢ session_id
        → StillHere (on_redis R D (store_key R default_ttl_seconds other user_id))
    store_key-Still other user_id differs = record {
      at = λ w. get_key-store_key_other R L w.redis session_id other h differs 3599 user_id;
    }

    logout-Still :
        (c : Call)
        → ¬ Ends logout c
        → StillHere
            (on_redis R D (Auth.logout O J R secret_key c.now (drop 7 c.request.authorization)))
    logout-Still c other_session = record {
      at = λ w.
          elim (Option-cases (parse_token O J secret_key c.now (drop 7 c.request.authorization))) [
            | inl refused ↦
                ap (λ (r : Bool × R.State). (get_key R session_id r.1).0)
                  (logout_refused O J R secret_key c.now _ w.redis refused)
            | inr ((user_id, other), parsed) ↦
                ap (λ (r : Bool × R.State). (get_key R session_id r.1).0)
                  (logout_parsed O J R secret_key c.now _ w.redis parsed)
                ∙ get_key-invalidate_other R L w.redis session_id other h
                    (λ e. other_session (user_id, other, e, parsed))
          ];
    }

    deleted-Still :
        (id : ℤ) (ok : Bool) → StillHere (Documents.deleted O J E signer R D secret_key id ok)
    deleted-Still id true = record { at = λ w. refl }
    deleted-Still id false = record { at = λ w. refl }

    delete_owned-Still :
        (id : ℤ) → StillHere (Documents.delete_owned O J E signer R D secret_key id)
    unfolding Documents.delete_owned
    delete_owned-Still id =
        kept.binds (on_db_caught R D (delete_by_id D id))
          (Documents.deleted O J E signer R D secret_key id) (record { at = λ w. refl })
          (deleted-Still id)

    serve-Still :
        (h : Handler) (c : Call)
        → ¬ Ends h c
        → StillHere (serve O J E X S R D secret_key signer server_cert h c)
    unfolding serve Accounts.check
    serve-Still register_user c other =
        Calls.register_user-Keeps O J R D secret_key kept S c.salt c.request
    serve-Still login c other =
        Calls.login-Keeps O J R D secret_key kept c.random
          (λ user_id. store_key-Still (generate_session_id c.random) user_id other) S c.now
          c.request
    serve-Still get_profile c other =
        Calls.get_profile-Keeps O J R D secret_key kept c.now c.request
    serve-Still logout c other =
        Calls.logout-Keeps O J R D secret_key kept c.now c.request (logout-Still c other)
    serve-Still check c other = record { at = λ w. refl }
    serve-Still health c other =
        Calls.health-Keeps O J R D secret_key kept X server_cert c.now c.request
    serve-Still sign c other =
        DocumentCalls.sign-Keeps O J E signer R D secret_key kept c.now c.request
    serve-Still list c other =
        DocumentCalls.list-Keeps O J E signer R D secret_key kept c.now c.request
    serve-Still download c other =
        DocumentCalls.download-Keeps O J E signer R D secret_key kept c.now c.request c.id
    serve-Still verify c other =
        DocumentCalls.verify-Keeps O J E signer R D secret_key kept c.now c.request c.id
    serve-Still remove c other =
        DocumentCalls.remove-Keeps O J E signer R D secret_key kept c.now c.request c.id
          (delete_owned-Still c.id)
    serve-Still public_key c other =
        DocumentCalls.public_key-Keeps O J E signer R D secret_key kept c.request
    serve-Still verify_external c other =
        DocumentCalls.verify_external-Keeps O J E signer R D secret_key kept c.request

    -- A call that is no `logout` with a token of a session, and no `login` that draws the session's
    -- random bytes again, changes for no token of that session whether and for whom it is accepted,
    -- whether Redis can be reached or not. The id of the session holds no NUL, and Redis is taken to
    -- behave as documented.
    pub tokens_kept :
        (handler : Handler) (c : Call) (w : World R D) (later : ℤ) (token user_id : Bytes)
        → parse_token O J secret_key later token ≡ some (user_id, session_id)
        → ¬ Ends handler c
        → (verify_token O J R secret_key later token
            (serve O J E X S R D secret_key signer server_cert handler c w).1.redis).0
          ≡ (verify_token O J R secret_key later token w.redis).0
    tokens_kept handler c w later token user_id parsed other =
        let reads = λ (v : World R D).
          ap (λ (r : Option Bytes × R.State). r.0)
            (verify_token_parsed O J R secret_key later token v.redis parsed) in
        reads (serve O J E X S R D secret_key signer server_cert handler c w).1
        ∙ ap (owner_check O J R secret_key user_id) ((serve-Still handler c other).at w)
        ∙ sym (reads w)
