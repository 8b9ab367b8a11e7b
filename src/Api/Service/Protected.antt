-- ===== src/Api/Service/Protected.antt =====
-- Which routes answer a request without an accepted token.
use pqc_api.Prelude.{
  ◌≡◌, refl, Bool, true, false, ◌||◌, none, Bytes, text, str_eq, drop, All, Bool-cases, inl, inr,
}
use pqc_api.Std.Outcome.{returns}
use pqc_api.Std.Strings.{starts_with}
use pqc_api.External.Openssl.{Openssl}
use pqc_api.External.Evp.{Evp}
use pqc_api.External.Json.{Json}
use pqc_api.External.Redis.{Redis, RedisLaws}
use pqc_api.External.Postgres.{Postgres}
use pqc_api.External.Sodium.{Sodium}
use pqc_api.External.X509.{X509}
use pqc_api.Crypto.Signer.{Signer}
use pqc_api.Pki.Certificate.{Certificate}
use pqc_api.Auth.World.{World}
use pqc_api.Auth.Manager.{verify_token}
use pqc_api.Api.Http.{error_response, extract_user_id}
use pqc_api.Api.Http.Guard.{with_user_refused, verify_token-state}
use pqc_api.Api.Accounts as Accounts
use pqc_api.Api.Admin as Admin
use pqc_api.Api.Admin.{refused}
use pqc_api.Api.Documents as Documents
use pqc_api.Api.Service.{Route, routes, Call, serve}

-- The paths that ask for no session.
abbrev pub is_open : Bytes → Bool
is_open path =
    str_eq path (text "/api/auth/register")
    || str_eq path (text "/api/auth/login")
    || str_eq path (text "/api/users/logout")
    || str_eq path (text "/health")
    || str_eq path (text "/api/documents/public-key")
    || str_eq path (text "/api/documents/verify")

module _ (O : Openssl) (J : Json) (E : Evp) (X : X509) (S : Sodium) (R : Redis) (D : Postgres)
    (secret_key : Bytes) (signer : Signer E) (server_cert : Certificate X) (L : RedisLaws R)
    (c : Call) (w : World R D)
    (nobody : (extract_user_id O J R secret_key c.now c.request w.redis).0 ≡ none) where
  no_token :
      starts_with (text "Bearer ") c.request.authorization ≡ true
      → (verify_token O J R secret_key c.now (drop 7 c.request.authorization) w.redis).0 ≡ none
  unfolding extract_user_id
  no_token bearer = rw bearer at nobody

  require_admin_refused :
      Admin.require_admin O J R D secret_key c.now c.request w ≡ (returns (refused 401), w)
  unfolding Admin.require_admin
  require_admin_refused = elim (Bool-cases (starts_with (text "Bearer ") c.request.authorization)) [
    | inr other ↦ rw other refl
    | inl bearer ↦
        rw
          (
            bearer,
            no_token bearer,
            verify_token-state O J R secret_key L c.now (drop 7 c.request.authorization) w.redis,
          )
          refl
  ]

  -- A request without an accepted token: every route but `register`, `login`, `logout`, `/health`,
  -- `public-key` and the verification of submitted documents answers 401 and changes nothing.
  pub protected_routes :
      All
        (λ (r : Route).
          is_open r.path ≡ false
          → serve O J E X S R D secret_key signer server_cert r.handler c w
            ≡ (error_response J (text "Unauthorized") 401, w))
        routes
  unfolding serve text str_eq Accounts.get_profile Admin.health Documents.sign Documents.list
      Documents.download Documents.verify Documents.remove
  protected_routes = (
    λ e. cc,
    (
      λ e. cc,
      (
        λ e. with_user_refused O J R secret_key L D c.now c.request w _ nobody,
        (
          λ e. cc,
          (
            λ e. cc,
            (
              λ e. rw require_admin_refused refl,
              (
                λ e. with_user_refused O J R secret_key L D c.now c.request w _ nobody,
                (
                  λ e. with_user_refused O J R secret_key L D c.now c.request w _ nobody,
                  (
                    λ e. with_user_refused O J R secret_key L D c.now c.request w _ nobody,
                    (
                      λ e. with_user_refused O J R secret_key L D c.now c.request w _ nobody,
                      (
                        λ e. with_user_refused O J R secret_key L D c.now c.request w _ nobody,
                        (λ e. cc, (λ e. cc, tt)),
                      ),
                    ),
                  ),
                ),
              ),
            ),
          ),
        ),
      ),
    ),
  )
