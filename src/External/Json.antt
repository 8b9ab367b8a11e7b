-- ===== src/External/Json.antt =====
-- nlohmann::json as the sources use it. A value is abstract; what the program writes as an
-- initializer list is a `Doc`.
use pqc_api.Prelude.{
  ◌<◌, ◌≡◌, ◌≢◌, Bool, Option, none, some, [], if◌then◌else◌, All, Bytes, IsByte, str_eq,
}
use pqc_api.Prelude.Int.{ℤ}

mutual
  pub data Doc : Type 0 where
    str : Bytes → Doc
    num : ℤ → Doc
    boolean : Bool → Doc
    arr : Items → Doc
    obj : Fields → Doc

  pub data Items : Type 0 where
    nil : Items
    item : Doc → Items → Items

  pub data Fields : Type 0 where
    end : Fields
    field : Bytes → Doc → Fields → Fields

pub record Json : Type 1 where
  pub Value : Type 0
  -- `json::parse`; `none` is a parse_error, as it is a type_error below.
  pub parse : Bytes → Option Value
  -- `j[key]`
  pub index : Value → Bytes → Option Value
  -- `j.get<long>()` and `j.get<std::string>()`
  pub get_long : Value → Option ℤ
  pub get_string : Value → Option Bytes
  -- `j.value(key, fallback)`
  pub value : Value → Bytes → Bytes → Option Bytes
  -- `j.dump()` of what the document builds; a string that is not UTF-8 throws.
  pub dump : Doc → Option Bytes

-- A repeated key keeps its first value.
abbrev pub find : Bytes → Fields → Option Doc
find k end = none
find k (field j d fs) = if str_eq j k then some d else find k fs

abbrev pub IsAscii : Bytes → Type 0
IsAscii = All (λ c. c < 128)

-- A flat object of ASCII strings and numbers.
abbrev pub IsFlat : Fields → Type 0
IsFlat end = Unit
IsFlat (field k (str s) fs) = IsAscii k × IsAscii s × IsFlat fs
IsFlat (field k (num z) fs) = IsAscii k × IsFlat fs
IsFlat (field k _ fs) = ⊥

module _ (J : Json) where
  -- What a flat object reads as once it was dumped and parsed.
  pub record Reads (v : J.Value) (fs : Fields) : Type 0 where
    pub string :
        (k s : Bytes)
        → find k fs ≡ some (str s)
        → (w : J.Value) × (J.index v k ≡ some w) × (J.get_string w ≡ some s)
    pub long :
        (k : Bytes) (z : ℤ)
        → find k fs ≡ some (num z)
        → (w : J.Value) × (J.index v k ≡ some w) × (J.get_long w ≡ some z)

  -- The text of a flat object.
  pub record Dumped (fs : Fields) : Type 0 where
    pub text : Bytes
    pub dumped : J.dump (obj fs) ≡ some text
    pub bytes : All IsByte text
    pub nonempty : text ≢ []
    pub value : J.Value
    pub parsed : J.parse text ≡ some value
    pub reads : Reads value fs

  pub record JsonLaws : Type 0 where
    pub round_trip : (fs : Fields) → IsFlat fs → Dumped fs
