-- ===== src/External/Redis.antt =====
-- A Redis server behind hiredis, as src/persistence/RedisClient.cpp talks to it.
use pqc_api.Prelude.{
  ℕ, suc, ◌-◌, ◌≡◌, Bool, true, false, Option, none, some, [], if◌then◌else◌, ltb, Bytes, str_eq,
}
use mathlib.Core.Option

pub data Command : Type 0 where
  setex : Bytes → ℕ → Bytes → Command
  get del exists : Bytes → Command
  expire : Bytes → ℕ → Command

pub data ReplyType : Type 0 where
  status_reply string_reply integer_reply nil_reply error_reply : ReplyType

pub record RedisReply : Type 0 where
  pub type : ReplyType
  pub str : Bytes
  pub integer : ℕ

pub record Redis : Type 1 where
  pub State : Type 0
  -- `redisCommand`; no reply is the null pointer.
  pub command : Command → State → Option RedisReply × State

-- The entry of a key: its value and the seconds it has left.
abbrev pub Entry : Type 0
Entry = Option (Bytes × ℕ)

abbrev pub entry_value : Entry → Option Bytes
entry_value = Option.map (λ (v, _). v)

-- An entry some seconds later.
abbrev pub age : ℕ → Entry → Entry
age n none = none
age n (some (v, left)) = if ltb n left then some (v, left - n) else none

abbrev pub retime : ℕ → Entry → Entry
retime t = Option.map (λ (v, _). (v, t))

abbrev pub value_reply : Option Bytes → RedisReply
value_reply none = record { type = nil_reply; str = []; integer = 0 }
value_reply (some v) = record { type = string_reply; str = v; integer = 0 }

abbrev pub count_reply : Entry → RedisReply
count_reply none = record { type = integer_reply; str = []; integer = 0 }
count_reply (some e) = record { type = integer_reply; str = []; integer = 1 }

-- The commands' documented effect on the live entries, while the server can be reached.
pub record RedisLaws (R : Redis) : Type 0 where
  pub is_up : R.State → Bool
  pub entry : R.State → Bytes → Entry
  -- What the server's clock does to the entries.
  pub elapse : ℕ → R.State → R.State
  pub entry-elapse : (n : ℕ) (s : R.State) (k : Bytes) → entry (elapse n s) k ≡ age n (entry s k)
  pub is_up-elapse : (n : ℕ) (s : R.State) → is_up (elapse n s) ≡ is_up s
  pub is_up-command : (c : Command) (s : R.State) → is_up (R.command c s).1 ≡ is_up s
  pub down : (c : Command) (s : R.State) → is_up s ≡ false → R.command c s ≡ (none, s)
  pub setex_replies :
      (k v : Bytes) (t : ℕ) (s : R.State)
      → is_up s ≡ true
      → (str : Bytes) × ((R.command (setex k (suc t) v) s).0
          ≡ some (record { type = status_reply; str = str; integer = 0 }))
  pub entry-setex :
      (k v : Bytes) (t : ℕ) (s : R.State) (j : Bytes)
      → is_up s ≡ true
      → entry (R.command (setex k (suc t) v) s).1 j
        ≡ (if str_eq j k then some (v, suc t) else entry s j)
  pub get_lem :
      (k : Bytes) (s : R.State)
      → is_up s ≡ true
      → R.command (get k) s ≡ (some (value_reply (entry_value (entry s k))), s)
  pub exists_lem :
      (k : Bytes) (s : R.State)
      → is_up s ≡ true
      → R.command (exists k) s ≡ (some (count_reply (entry s k)), s)
  pub del_replies :
      (k : Bytes) (s : R.State)
      → is_up s ≡ true
      → (R.command (del k) s).0 ≡ some (count_reply (entry s k))
  pub entry-del :
      (k : Bytes) (s : R.State) (j : Bytes)
      → is_up s ≡ true
      → entry (R.command (del k) s).1 j ≡ (if str_eq j k then none else entry s j)
  pub expire_replies :
      (k : Bytes) (t : ℕ) (s : R.State)
      → is_up s ≡ true
      → (R.command (expire k (suc t)) s).0 ≡ some (count_reply (entry s k))
  pub entry-expire :
      (k : Bytes) (t : ℕ) (s : R.State) (j : Bytes)
      → is_up s ≡ true
      → entry (R.command (expire k (suc t)) s).1 j
        ≡ (if str_eq j k then retime (suc t) (entry s j) else entry s j)
