-- ===== src/Api/Http/Guard.antt =====
-- The authentication in front of a handler: it changes nothing, and decides which user is served.
use pqc_api.Prelude.{
  [], ◌≡◌, refl, none, some, Bytes, text, Bool-cases, Option-cases, inl, inr, drop,
}
use pqc_api.Prelude.Int.{ℤ}
use pqc_api.Std.Exec.{Exec}
use pqc_api.Std.Strings.{starts_with}
use pqc_api.External.Openssl.{Openssl}
use pqc_api.External.Json.{Json}
use pqc_api.External.Redis.{Redis, RedisLaws}
use pqc_api.External.Postgres.{Postgres}
use pqc_api.Persistence.RedisClient.Laws.{get_value_lem, client_down}
use pqc_api.Persistence.Sessions.{make_key, get_key}
use pqc_api.Auth.World.{World}
use pqc_api.Auth.Token.Parse.{parse_token}
use pqc_api.Auth.Manager.{verify_token}
use pqc_api.Auth.Manager.Verify.{verify_token_parsed, verify_token_refused}
use pqc_api.Api.Http.{Request, Response, error_response, extract_user_id, with_user}

module _ (O : Openssl) (J : Json) (R : Redis) (secret_key : Bytes) (L : RedisLaws R) where
  get_key-state : (session_id : Bytes) (s : R.State) → (get_key R session_id s).1 ≡ s
  unfolding get_key
  get_key-state session_id s = elim (Bool-cases (L.is_up s)) [
    | inl up ↦ rw (get_value_lem R L s up (make_key session_id)) refl
    | inr down ↦ rw (client_down R L s down (make_key session_id) [] 0).1 refl
  ]

  -- Checking a token reads the sessions and changes nothing.
  pub verify_token-state :
      (now : ℤ) (token : Bytes) (s : R.State) → (verify_token O J R secret_key now token s).1 ≡ s
  verify_token-state now token s = elim (Option-cases (parse_token O J secret_key now token)) [
    | inl refused ↦ rw (verify_token_refused O J R secret_key now token s refused) refl
    | inr (c, parsed) ↦
        rw (verify_token_parsed O J R secret_key now token s parsed) (get_key-state c.1 s)
  ]

  pub extract_user_id-state :
      (now : ℤ) (req : Request) (s : R.State) → (extract_user_id O J R secret_key now req s).1 ≡ s
  unfolding extract_user_id
  extract_user_id-state now req s =
      elim (Bool-cases (starts_with (text "Bearer ") req.authorization)) [
        | inl bearer ↦ rw bearer (verify_token-state now (drop 7 req.authorization) s)
        | inr other ↦ rw other refl
      ]

  module _ (D : Postgres) (now : ℤ) (req : Request) (w : World R D)
      (handler : Bytes → Exec (World R D) Response) where
    -- A request that names no user is answered by 401, and nothing changes.
    pub with_user_refused :
        (extract_user_id O J R secret_key now req w.redis).0 ≡ none
        → with_user O J R D secret_key now req handler w
          ≡ (error_response J (text "Unauthorized") 401, w)
    unfolding with_user
    with_user_refused e = rw (e, extract_user_id-state now req w.redis) refl

    pub with_user_accepted :
        (user_id : Bytes)
        → (extract_user_id O J R secret_key now req w.redis).0 ≡ some user_id
        → with_user O J R D secret_key now req handler w ≡ handler user_id w
    unfolding with_user
    with_user_accepted user_id e = rw (e, extract_user_id-state now req w.redis) refl
