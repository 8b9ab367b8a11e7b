-- ===== src/Persistence/RedisClient/Laws.antt =====
-- What the client's calls return and leave behind, by the server's laws.
use pqc_api.Prelude.{
  ℕ, suc, ◌≡◌, refl, ap, ◌∙◌, Bool, true, false, Option, none, some, if◌then◌else◌, Bytes, str_eq,
}
use pqc_api.Std.Strings.{c_str}
use pqc_api.External.Redis.{
  Redis, RedisLaws, Entry, entry_value, retime, count_reply, value_reply, setex, get, del, expire,
  exists,
}
use pqc_api.Persistence.RedisClient.{
  is_positive, is_one, reply_string, set_value, get_value, delete_key, expire_key, key_exists,
}

abbrev pub is_live : Entry → Bool
is_live none = false
is_live (some e) = true

is_positive-count_reply : (e : Entry) → is_positive (some (count_reply e)) ≡ is_live e
is_positive-count_reply none = refl
is_positive-count_reply (some e) = refl

is_one-count_reply : (e : Entry) → is_one (some (count_reply e)) ≡ is_live e
is_one-count_reply none = refl
is_one-count_reply (some e) = refl

reply_string-value_reply : (v : Option Bytes) → reply_string (some (value_reply v)) ≡ v
reply_string-value_reply none = refl
reply_string-value_reply (some v) = refl

module _ (R : Redis) (L : RedisLaws R) (s : R.State) (up : L.is_up s ≡ true) where
  pub set_value_lem :
      (key value : Bytes) (t : ℕ)
      → ((set_value R key value (suc t) s).0 ≡ true)
        × ((j : Bytes)
            → L.entry (set_value R key value (suc t) s).1 j
              ≡ (if str_eq j (c_str key) then some (c_str value, suc t) else L.entry s j))
  unfolding set_value
  set_value_lem key value t =
      let (message, replied) = L.setex_replies (c_str key) (c_str value) t s up in
      (rw replied, λ j. L.entry-setex (c_str key) (c_str value) t s j up)

  pub get_value_lem : (key : Bytes) → get_value R key s ≡ (entry_value (L.entry s (c_str key)), s)
  unfolding get_value
  get_value_lem key = rw (L.get_lem (c_str key) s up, reply_string-value_reply)

  pub delete_key_lem :
      (key : Bytes)
      → ((delete_key R key s).0 ≡ is_live (L.entry s (c_str key)))
        × ((j : Bytes)
            → L.entry (delete_key R key s).1 j
              ≡ (if str_eq j (c_str key) then none else L.entry s j))
  unfolding delete_key
  delete_key_lem key = (
    ap is_positive (L.del_replies (c_str key) s up) ∙ is_positive-count_reply _,
    λ j. L.entry-del (c_str key) s j up,
  )

  pub expire_key_lem :
      (key : Bytes) (t : ℕ)
      → ((expire_key R key (suc t) s).0 ≡ is_live (L.entry s (c_str key)))
        × ((j : Bytes)
            → L.entry (expire_key R key (suc t) s).1 j
              ≡ (if str_eq j (c_str key) then retime (suc t) (L.entry s j) else L.entry s j))
  unfolding expire_key
  expire_key_lem key t = (
    ap is_one (L.expire_replies (c_str key) t s up) ∙ is_one-count_reply _,
    λ j. L.entry-expire (c_str key) t s j up,
  )

  pub key_exists_lem : (key : Bytes) → key_exists R key s ≡ (is_live (L.entry s (c_str key)), s)
  unfolding key_exists
  key_exists_lem key = rw (L.exists_lem (c_str key) s up, is_one-count_reply)

module _ (R : Redis) (L : RedisLaws R) (s : R.State) (down : L.is_up s ≡ false) where
  -- While Redis cannot be reached every call of the client reports failure and changes nothing.
  pub client_down :
      (key value : Bytes) (t : ℕ)
      → (set_value R key value t s ≡ (false, s))
        × (get_value R key s ≡ (none, s))
        × (delete_key R key s ≡ (false, s))
        × (expire_key R key t s ≡ (false, s))
        × (key_exists R key s ≡ (false, s))
  unfolding set_value get_value delete_key expire_key key_exists
  client_down key value t = (
    rw (L.down (setex (c_str key) t (c_str value)) s down),
    rw (L.down (get (c_str key)) s down),
    rw (L.down (del (c_str key)) s down),
    rw (L.down (expire (c_str key) t) s down),
    rw (L.down (exists (c_str key)) s down),
  )
