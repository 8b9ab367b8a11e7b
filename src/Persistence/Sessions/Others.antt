-- ===== src/Persistence/Sessions/Others.antt =====
-- What an operation on one session leaves of the others, whether Redis can be reached or not.
use pqc_api.Prelude.{
  ℕ, ◌≡◌, ◌≢◌, refl, ap, ◌∙◌, sym, Bool, false, inl, inr, suc, [], Bytes, text, Lacks, str_eq,
  str_eq_iff, Bool-cases,
}
use pqc_api.Std.Strings.{c_str, c_str-append}
use pqc_api.External.Redis.{Redis, RedisLaws}
use pqc_api.Persistence.RedisClient.{set_value, delete_key}
use pqc_api.Persistence.RedisClient.Laws.{set_value_lem, delete_key_lem, client_down}
use pqc_api.Persistence.Sessions.{make_key, store_key, get_key, invalidate}
use pqc_api.Persistence.Sessions.Laws.{prefix-Lacks, str_eq-make_key, get_key_lem}

c_str-make_key_any :
    (session_id : Bytes) → c_str (make_key session_id) ≡ make_key (c_str session_id)
unfolding make_key
c_str-make_key_any session_id = c_str-append (text "session:") session_id prefix-Lacks

differ : (a b : Bytes) → b ≢ a → str_eq a b ≡ false
differ a b other = elim (Bool-cases (str_eq a b)) [
  | inr apart ↦ apart
  | inl equal ↦ absurd (other (sym ((str_eq_iff a b).0 equal)))
]

module _ (R : Redis) (L : RedisLaws R) (s : R.State) (session_id other : Bytes)
    (h : Lacks 0 session_id) (differs : c_str other ≢ session_id) where
  keys_differ : str_eq (make_key session_id) (c_str (make_key other)) ≡ false
  keys_differ =
      rw (c_str-make_key_any other, str_eq-make_key) (differ session_id (c_str other) differs)

  pub get_key-store_key_other :
      (t : ℕ) (key_data : Bytes)
      → (get_key R session_id (store_key R (suc t) other key_data s).1).0
        ≡ (get_key R session_id s).0
  unfolding store_key set_value
  get_key-store_key_other t key_data = elim (Bool-cases (L.is_up s)) [
    | inr down ↦
        ap (λ (r : Bool × R.State). (get_key R session_id r.1).0)
          (client_down R L s down (make_key other) key_data (suc t)).0
    | inl up ↦
        rw
          (
            get_key_lem R L (store_key R (suc t) other key_data s).1 (L.is_up-command _ s ∙ up)
                session_id h,
            (set_value_lem R L s up (make_key other) key_data t).1 (make_key session_id),
            keys_differ,
            get_key_lem R L s up session_id h,
          )
          refl
  ]

  pub get_key-invalidate_other :
      (get_key R session_id (invalidate R other s).1).0 ≡ (get_key R session_id s).0
  unfolding invalidate delete_key
  get_key-invalidate_other = elim (Bool-cases (L.is_up s)) [
    | inr down ↦
        ap (λ (r : Bool × R.State). (get_key R session_id r.1).0)
          (client_down R L s down (make_key other) [] 0).2
    | inl up ↦
        rw
          (
            get_key_lem R L (invalidate R other s).1 (L.is_up-command _ s ∙ up) session_id h,
            (delete_key_lem R L s up (make_key other)).1 (make_key session_id),
            keys_differ,
            get_key_lem R L s up session_id h,
          )
          refl
  ]
