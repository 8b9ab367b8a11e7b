-- ===== src/Tests/Fakes/Text.antt =====
-- JSON documents in a notation of their own: `{`, then for each field the key, a mark for its type,
-- the value and an end mark. The marks are no ASCII characters.
use pqc_api.Prelude.{
  ℕ, suc, ◌≡◌, refl, ◌∙◌, ap, Option, none, some, [], ◌∷◌, ◌++◌, append-nil, append_assoc, arith,
  ◌==◌, if◌then◌else◌, All, All-append, All-mono, Bytes, IsByte,
}
use pqc_api.Prelude.Int.{ℤ, pos, negsuc}
use pqc_api.Std.Decimal.{to_string, unsigned_value}
use pqc_api.Std.Decimal.RoundTrip.{to_string-IsPlain, unsigned_value-to_string, to_string-negsuc}
use pqc_api.External.Json.{
  Json, JsonLaws, Doc, str, num, boolean, arr, obj, Fields, end, field, find, IsAscii, IsFlat,
}

-- What the reader is in the middle of: a key, a text or a number.
pub data Mode : Type 0 where
  key text number : Mode

abbrev pub number_of : Option ℕ → ℤ
number_of none = pos 0
number_of (some n) = pos n

abbrev pub negative_of : Option ℕ → ℤ
negative_of (some (suc n)) = negsuc n
negative_of _ = pos 0

unfoldable pub read_number : Bytes → ℤ
read_number [] = pos 0
read_number (c ∷ s) =
    if c == b'-' then negative_of (unsigned_value s) else number_of (unsigned_value (c ∷ s))

abbrev pub close : Mode → Bytes → Doc
close number v = num (read_number v)
close _ v = str v

unfoldable pub read : Bytes → Bytes → Bytes → Mode → Fields
read [] k v m = end
read (c ∷ s) k v key =
    let of_text = read s k [] text in
    let of_number = read s k [] number in
    let longer = read s (k ++ c ∷ []) [] key in
    if c == 128 then of_text else if c == 129 then of_number else longer
read (c ∷ s) k v m =
    let done = field k (close m v) (read s [] [] key) in
    let longer = read s k (v ++ c ∷ []) m in if c == 130 then done else longer

unfoldable pub write : Fields → Bytes
write end = []
write (field k (str s) fs) = k ++ (128 ∷ (s ++ 130 ∷ write fs))
write (field k (num z) fs) = k ++ (129 ∷ (to_string z ++ 130 ∷ write fs))
write (field k d fs) = write fs

read_key : (k s acc : Bytes) → IsAscii k → read (k ++ s) acc [] key ≡ read s (acc ++ k) [] key
unfolding read
read_key [] s acc h = rw append-nil
read_key (c ∷ k) s acc (h, hk) =
    ground (arith, read_key k s (acc ++ c ∷ []) hk, append_assoc acc (c ∷ []) k)

read_text :
    (v s k acc : Bytes)
    → IsAscii v
    → read (v ++ 130 ∷ s) k acc text ≡ field k (str (acc ++ v)) (read s [] [] key)
unfolding read
read_text [] s k acc h = rw append-nil
read_text (c ∷ v) s k acc (h, hv) =
    ground (arith, read_text v s k (acc ++ c ∷ []) hv, append_assoc acc (c ∷ []) v)

read_digits :
    (v s k acc : Bytes)
    → IsAscii v
    → read (v ++ 130 ∷ s) k acc number ≡ field k (num (read_number (acc ++ v))) (read s [] [] key)
unfolding read
read_digits [] s k acc h = rw append-nil
read_digits (c ∷ v) s k acc (h, hv) =
    ground (arith, read_digits v s k (acc ++ c ∷ []) hv, append_assoc acc (c ∷ []) v)

to_string-IsAscii : (z : ℤ) → IsAscii (to_string z)
to_string-IsAscii z = All-mono (λ c h. omega arith) _ (to_string-IsPlain z)

read_number-nonneg : (s : Bytes) (n : ℕ) → unsigned_value s ≡ some n → read_number s ≡ pos n
unfolding read_number unsigned_value
read_number-nonneg [] n e = cc
read_number-nonneg (c ∷ s) n e = ground arith

pub read_number-to_string : (z : ℤ) → read_number (to_string z) ≡ z
unfolding read_number
read_number-to_string (pos n) = read_number-nonneg _ n (unsigned_value-to_string n)
read_number-to_string (negsuc n) = rw (to_string-negsuc, read_number, unsigned_value-to_string)

read-write : (fs : Fields) → IsFlat fs → read (write fs) [] [] key ≡ fs
unfolding read write
read-write end h = refl
read-write (field k (str s) fs) (hk, hs, h) =
    read_key k _ [] hk ∙ (read_text s (write fs) k [] hs ∙ ap (field k (str s)) (read-write fs h))
read-write (field k (num z) fs) (hk, h) =
    read_key k _ [] hk
    ∙ (read_digits (to_string z) (write fs) k [] (to_string-IsAscii z)
        ∙ rw (read_number-to_string, read-write fs h))
read-write (field k (boolean b) fs) h = absurd h
read-write (field k (arr xs) fs) h = absurd h
read-write (field k (obj os) fs) h = absurd h

bytes_of : (s : Bytes) → IsAscii s → All IsByte s
bytes_of s h = All-mono (λ c l. omega arith) s h

write-IsByte : (fs : Fields) → IsFlat fs → All IsByte (write fs)
unfolding write
write-IsByte end h = tt
write-IsByte (field k (str s) fs) (hk, hs, h) =
    All-append IsByte k _ (bytes_of k hk)
      (omega arith, All-append IsByte s _ (bytes_of s hs) (omega arith, write-IsByte fs h))
write-IsByte (field k (num z) fs) (hk, h) = All-append IsByte k _ (bytes_of k hk) (
  omega arith,
  All-append IsByte (to_string z) _ (bytes_of _ (to_string-IsAscii z))
      (omega arith, write-IsByte fs h),
)
write-IsByte (field k (boolean b) fs) h = absurd h
write-IsByte (field k (arr xs) fs) h = absurd h
write-IsByte (field k (obj os) fs) h = absurd h

abbrev pub index_doc : Doc → Bytes → Option Doc
index_doc (obj fs) k = find k fs
index_doc _ k = none

abbrev pub string_of : Doc → Option Bytes
string_of (str s) = some s
string_of _ = none

abbrev pub long_of : Doc → Option ℤ
long_of (num z) = some z
long_of _ = none

abbrev pub string_or : Bytes → Option Doc → Option Bytes
string_or fallback none = some fallback
string_or fallback (some d) = string_of d

abbrev pub value_of : Doc → Bytes → Bytes → Option Bytes
value_of (obj fs) k fallback = string_or fallback (find k fs)
value_of _ k fallback = none

unfoldable pub parse_doc : Bytes → Option Doc
parse_doc [] = none
parse_doc (c ∷ s) = if c == b'{' then some (obj (read s [] [] key)) else none

unfoldable pub dump_doc : Doc → Option Bytes
dump_doc (obj fs) = some (b'{' ∷ write fs)
dump_doc _ = none

abbrev pub json : Json
json = record {
  Value = Doc;
  parse = parse_doc;
  index = index_doc;
  get_long = long_of;
  get_string = string_of;
  value = value_of;
  dump = dump_doc;
}

pub json-JsonLaws : JsonLaws json
unfolding parse_doc dump_doc
json-JsonLaws = record {
  round_trip = λ fs flat. record {
    text = b'{' ∷ write fs;
    dumped = refl;
    bytes = (omega arith, write-IsByte fs flat);
    nonempty = λ e. cc;
    value = obj fs;
    parsed = rw (read-write fs flat);
    reads = record { string = λ k s e. (str s, e, refl); long = λ k z e. (num z, e, refl) };
  };
}
