-- ===== src/Persistence/Sessions/Laws.antt =====
-- The repository keeps a map from session ids to their owners, with a time to live for each.
use pqc_api.Prelude.{
  ℕ, suc, ◌≡◌, refl, ap, ◌∙◌, true, false, none, some, [], ◌∷◌, ◌++◌, arith, if◌then◌else◌, ltb,
  Lacks, Bytes, text, str_eq, str_eq_refl,
}
use pqc_api.Std.Strings.{c_str, c_str_of_Lacks, c_str-append}
use pqc_api.External.Redis.{Redis, RedisLaws, Entry, entry_value, retime, age}
use pqc_api.Persistence.RedisClient.{set_value, expire_key}
use pqc_api.Persistence.RedisClient.Laws.{
  is_live, set_value_lem, get_value_lem, delete_key_lem, expire_key_lem, client_down,
}
use pqc_api.Persistence.Sessions.{make_key, store_key, get_key, invalidate, refresh}

pub prefix-Lacks : Lacks 0 (text "session:")
unfolding text
prefix-Lacks = omega arith

str_eq-append : (p s t : Bytes) → str_eq (p ++ s) (p ++ t) ≡ str_eq s t
unfolding str_eq
str_eq-append [] s t = refl
str_eq-append (c ∷ p) s t = ground (arith, str_eq-append p s t)

-- Two ids have one key only if they are one id.
pub str_eq-make_key : (a b : Bytes) → str_eq (make_key a) (make_key b) ≡ str_eq a b
unfolding make_key
str_eq-make_key a b = str_eq-append (text "session:") a b

c_str-make_key :
    (session_id : Bytes) → Lacks 0 session_id → c_str (make_key session_id) ≡ make_key session_id
unfolding make_key
c_str-make_key session_id h =
    c_str-append (text "session:") session_id prefix-Lacks
    ∙ ap (λ s. text "session:" ++ s) (c_str_of_Lacks session_id h)

module _ (R : Redis) (L : RedisLaws R) where
  -- The session that the store holds under an id: its owner and the seconds left.
  abbrev pub session : R.State → Bytes → Entry
  session s session_id = L.entry s (make_key session_id)

  module _ (s : R.State) (up : L.is_up s ≡ true) (session_id : Bytes) (h : Lacks 0 session_id) where
    pub store_key_lem :
        (key_data : Bytes) (t : ℕ)
        → ((store_key R (suc t) session_id key_data s).0 ≡ true)
          × ((j : Bytes)
              → session (store_key R (suc t) session_id key_data s).1 j
                ≡ (if str_eq j session_id then some (c_str key_data, suc t) else session s j))
    unfolding store_key
    store_key_lem key_data t =
        let (stored, entries) = set_value_lem R L s up (make_key session_id) key_data t in
        (stored, λ j. entries (make_key j) ∙ rw (c_str-make_key session_id h, str_eq-make_key))

    pub get_key_lem : get_key R session_id s ≡ (entry_value (session s session_id), s)
    unfolding get_key
    get_key_lem = get_value_lem R L s up (make_key session_id) ∙ rw (c_str-make_key session_id h)

    pub invalidate_lem :
        ((invalidate R session_id s).0 ≡ is_live (session s session_id))
        × ((j : Bytes)
            → session (invalidate R session_id s).1 j
              ≡ (if str_eq j session_id then none else session s j))
    unfolding invalidate
    invalidate_lem =
        let (deleted, entries) = delete_key_lem R L s up (make_key session_id) in
        (
          deleted ∙ rw (c_str-make_key session_id h),
          λ j. entries (make_key j) ∙ rw (c_str-make_key session_id h, str_eq-make_key),
        )

    pub refresh_lem :
        (t : ℕ)
        → ((refresh R (suc t) session_id s).0 ≡ is_live (session s session_id))
          × ((j : Bytes)
              → session (refresh R (suc t) session_id s).1 j
                ≡ (if str_eq j session_id then retime (suc t) (session s j) else session s j))
    unfolding refresh
    refresh_lem t =
        let (renewed, entries) = expire_key_lem R L s up (make_key session_id) t in
        (
          renewed ∙ rw (c_str-make_key session_id h),
          λ j. entries (make_key j) ∙ rw (c_str-make_key session_id h, str_eq-make_key),
        )

module _ (R : Redis) (L : RedisLaws R) where
  -- The lookup of a session some seconds later.
  get_key-elapse :
      (s : R.State) (n : ℕ) (session_id : Bytes)
      → L.is_up s ≡ true
      → Lacks 0 session_id
      → (get_key R session_id (L.elapse n s)).0 ≡ entry_value (age n (session R L s session_id))
  get_key-elapse s n session_id up h = rw (
    get_key_lem R L (L.elapse n s) (L.is_up-elapse n s ∙ up) session_id h,
    L.entry-elapse n s (make_key session_id),
  )

  -- While Redis can be reached, for a session id without NUL and a positive time to live: a session
  -- that was stored is found `n` seconds later if `n` is below the time to live, and not otherwise.
  -- What is found is the data up to its first NUL.
  pub get_key-elapse-store_key :
      (s : R.State) (session_id key_data : Bytes) (t n : ℕ)
      → L.is_up s ≡ true
      → Lacks 0 session_id
      → (get_key R session_id (L.elapse n (store_key R (suc t) session_id key_data s).1)).0
        ≡ (if ltb n (suc t) then some (c_str key_data) else none)
  unfolding store_key set_value
  get_key-elapse-store_key s session_id key_data t n up h =
      let stored = (store_key_lem R L s up session_id h key_data t).1 session_id in
      get_key-elapse _ n session_id (L.is_up-command _ s ∙ up) h
      ∙ rw (stored, str_eq_refl) (ground arith)

  -- While Redis can be reached, for a session id without NUL and a positive time to live: a live
  -- session that is refreshed is found `n` seconds later if `n` is below the full time to live, and
  -- not otherwise.
  pub get_key-elapse-refresh :
      (s : R.State) (session_id owner : Bytes) (left t n : ℕ)
      → L.is_up s ≡ true
      → Lacks 0 session_id
      → session R L s session_id ≡ some (owner, left)
      → (get_key R session_id (L.elapse n (refresh R (suc t) session_id s).1)).0
        ≡ (if ltb n (suc t) then some owner else none)
  unfolding refresh expire_key
  get_key-elapse-refresh s session_id owner left t n up h live =
      let renewed = (refresh_lem R L s up session_id h t).1 session_id in
      get_key-elapse _ n session_id (L.is_up-command _ s ∙ up) h
      ∙ rw (renewed, str_eq_refl, live) (ground arith)

  -- Without the server nothing is stored and nothing is found.
  pub store_key_down :
      (s : R.State)
      → L.is_up s ≡ false
      → (session_id key_data : Bytes) (t : ℕ) → store_key R t session_id key_data s ≡ (false, s)
  unfolding store_key
  store_key_down s down session_id key_data t =
      (client_down R L s down (make_key session_id) key_data t).0

  pub get_key_down :
      (s : R.State) → L.is_up s ≡ false → (session_id : Bytes) → get_key R session_id s ≡ (none, s)
  unfolding get_key
  get_key_down s down session_id = (client_down R L s down (make_key session_id) [] 0).1
