-- ===== src/Auth/Manager/Verify.antt =====
-- `verifyToken` and `logout`: which tokens are accepted, and that logging out ends a token's life.
use pqc_api.Prelude.{
  ◌≡◌, ◌≢◌, ◌↔◌, ◌∙◌, inl, inr, true, false, Option, none, some, arith, Lacks, Bytes, str_eq,
  str_eq_refl, str_eq_iff, Option-cases,
}
use pqc_api.Prelude.Int.{ℤ}
use pqc_api.Std.Strings.{c_str}
use pqc_api.External.Openssl.{Openssl, MacLaws}
use pqc_api.External.Json.{Json}
use pqc_api.External.Redis.{Redis, RedisLaws}
use pqc_api.Persistence.RedisClient.{delete_key}
use pqc_api.Persistence.RedisClient.Laws.{get_value_lem, delete_key_lem}
use pqc_api.Persistence.Sessions.{make_key, get_key, invalidate}
use pqc_api.Persistence.Sessions.Laws.{get_key_lem, get_key_down, invalidate_lem}
use pqc_api.Auth.Token.Parse.{parse_token}
use pqc_api.Auth.Token.Authentic.{IsAuthentic, parse_token_iff}
use pqc_api.Auth.Token.Stable.{parse_token_agree}
use pqc_api.Auth.Manager.{owner_check, verify_token, logout}

module _ (O : Openssl) (J : Json) (R : Redis) (secret_key : Bytes) where
  owner_check-eq-some :
      (user_id u : Bytes) (owner : Option Bytes)
      → owner_check O J R secret_key user_id owner ≡ some u
      → (u ≡ user_id) × (owner ≡ some user_id)
  owner_check-eq-some user_id u none e = cc
  owner_check-eq-some user_id u (some owner) e = ground (arith, str_eq_iff owner user_id)

  -- The session that the token names is the user's own.
  abbrev pub IsAccepted : ℤ → Bytes → Bytes → R.State → Type 0
  IsAccepted now token user_id s =
      (session_id : Bytes) × IsAuthentic O J secret_key now token user_id session_id
      × ((get_key R session_id s).0 ≡ some user_id)

  pub verify_token_parsed :
      (now : ℤ) (token : Bytes) (s : R.State) {c : Bytes × Bytes}
      → parse_token O J secret_key now token ≡ some c
      → verify_token O J R secret_key now token s
        ≡ (owner_check O J R secret_key c.0 (get_key R c.1 s).0, (get_key R c.1 s).1)
  unfolding verify_token
  verify_token_parsed now token s parsed = rw (parsed, verify_token)

  pub verify_token_refused :
      (now : ℤ) (token : Bytes) (s : R.State)
      → parse_token O J secret_key now token ≡ none
      → verify_token O J R secret_key now token s ≡ (none, s)
  unfolding verify_token
  verify_token_refused now token s refused = rw (refused, verify_token)

  pub logout_parsed :
      (now : ℤ) (token : Bytes) (s : R.State) {c : Bytes × Bytes}
      → parse_token O J secret_key now token ≡ some c
      → logout O J R secret_key now token s ≡ (true, (invalidate R c.1 s).1)
  unfolding logout
  logout_parsed now token s parsed = rw (parsed, logout)

  pub logout_refused :
      (now : ℤ) (token : Bytes) (s : R.State)
      → parse_token O J secret_key now token ≡ none
      → logout O J R secret_key now token s ≡ (false, s)
  unfolding logout
  logout_refused now token s refused = rw (refused, logout)

  module _ (M : MacLaws O) where
    -- `verify_token` returns a user exactly for a token that carries the key's MAC, has not
    -- expired, names that user, and names a session that the store gives to the same user. The
    -- comparison of MACs is taken to be exact.
    pub verify_token_iff :
        (now : ℤ) (token user_id : Bytes) (s : R.State)
        → ((verify_token O J R secret_key now token s).0 ≡ some user_id)
          ↔ IsAccepted now token user_id s
    unfolding verify_token
    verify_token_iff now token user_id s = (sound, complete)
      where
        sound :
            (verify_token O J R secret_key now token s).0 ≡ some user_id
            → IsAccepted now token user_id s
        sound e = elim (Option-cases (parse_token O J secret_key now token)) [
          | inl refused ↦ let wrong = rw (verify_token_refused now token s refused) at e in cc
          | inr ((u, session_id), parsed) ↦
              let e1 : owner_check O J R secret_key u (get_key R session_id s).0 ≡ some user_id =
                rw (parsed, verify_token) at e in
              let (same, owner) = owner_check-eq-some u user_id _ e1 in
              (
                session_id,
                rw same ((parse_token_iff O J secret_key M now token u session_id).0 parsed),
                rw same owner,
              )
        ]

        complete :
            IsAccepted now token user_id s
            → (verify_token O J R secret_key now token s).0 ≡ some user_id
        complete (session_id, authentic, owner) = rw (
          (parse_token_iff O J secret_key M now token user_id session_id).1 authentic,
          verify_token,
          owner,
          str_eq_refl,
        )

  module _ (L : RedisLaws R) (s : R.State) (up : L.is_up s ≡ true) where
    is_up-invalidate : (session_id : Bytes) → L.is_up (invalidate R session_id s).1 ≡ true
    unfolding invalidate delete_key
    is_up-invalidate session_id = L.is_up-command _ s ∙ up

    get_key-invalidate :
        (session_id : Bytes) → (get_key R session_id (invalidate R session_id s).1).0 ≡ none
    unfolding get_key invalidate delete_key
    get_key-invalidate session_id =
        let key = make_key session_id in
        let gone = (delete_key_lem R L s up key).1 (c_str key) in
        let found =
          get_value_lem R L (invalidate R session_id s).1 (L.is_up-command _ s ∙ up) key in
        rw (found, gone, str_eq_refl)

    -- While Redis can be reached: after a logout that returned true the same token is accepted at
    -- no time in the state that the logout left.
    pub verify_token-logout :
        (now later : ℤ) (token : Bytes)
        → (logout O J R secret_key now token s).0 ≡ true
        → (verify_token O J R secret_key later token (logout O J R secret_key now token s).1).0
          ≡ none
    verify_token-logout now later token e =
        elim (Option-cases (parse_token O J secret_key now token)) [
          | inl refused ↦ let wrong = rw (logout_refused now token s refused) at e in cc
          | inr (c, parsed) ↦ elim (Option-cases (parse_token O J secret_key later token)) [
            | inl refused ↦ rw (verify_token_refused later token _ refused)
            | inr (d, parsed') ↦
                let same = parse_token_agree O J secret_key now later token c d parsed parsed' in
                rw (
                  verify_token_parsed later token _ parsed',
                  logout_parsed now token s parsed,
                  ← same,
                  get_key-invalidate,
                )
          ]
        ]

    -- While Redis can be reached: a logout with a token that is parsed leaves the session of every
    -- other id as it was, for ids without NUL.
    pub get_key-logout :
        (now : ℤ) (token user_id session_id other : Bytes)
        → parse_token O J secret_key now token ≡ some (user_id, session_id)
        → Lacks 0 session_id
        → Lacks 0 other
        → other ≢ session_id
        → (get_key R other (logout O J R secret_key now token s).1).0 ≡ (get_key R other s).0
    get_key-logout now token user_id session_id other parsed h h' ne =
        let kept = (invalidate_lem R L s up session_id h).1 other in
        let differ : str_eq other session_id ≡ false =
          ground (arith, str_eq_iff other session_id) in
        rw (
          logout_parsed now token s parsed,
          get_key_lem R L (invalidate R session_id s).1 (is_up-invalidate session_id) other h',
          kept,
          differ,
          get_key_lem R L s up other h',
        )

  -- While Redis cannot be reached no token is accepted.
  pub verify_token_down :
      (L : RedisLaws R) (s : R.State)
      → L.is_up s ≡ false
      → (now : ℤ) (token : Bytes) → (verify_token O J R secret_key now token s).0 ≡ none
  verify_token_down L s down now token =
      elim (Option-cases (parse_token O J secret_key now token)) [
        | inl refused ↦ rw (verify_token_refused now token s refused)
        | inr (c, parsed) ↦ rw (verify_token_parsed now token s parsed, get_key_down R L s down)
      ]
