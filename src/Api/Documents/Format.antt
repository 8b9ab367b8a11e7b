-- ===== src/Api/Documents/Format.antt =====
-- What `sign` of src/api/Controllers.cpp takes for a PDF.
use pqc_api.Prelude.{
  ℕ, zero, suc, ◌+◌, ◌-◌, ◌≤◌, ◌≡◌, ◌↔◌, refl, sym, ap, ◌∙◌, inl, inr, true, ◌++◌, [], ◌∷◌, arith,
  ltb, Bytes, text, length, take, drop, length-append, append_assoc, Bool-cases,
}
use pqc_api.Std.Strings.{contains, starts_with, starts_with-append, starts_with_split}
use pqc_api.Api.Documents.{is_pdf, tail_of}

-- What a PDF is here: the header starts within the first 1019 bytes, so that it ends within 1024, and at
-- most 1019 bytes follow the mark of the end.
pub record IsPdf (content : Bytes) : Type 0 where
  pub before_header : Bytes
  pub after_header : Bytes
  pub header : content ≡ before_header ++ text "%PDF-" ++ after_header
  pub early : length before_header ≤ 1019
  pub before_end : Bytes
  pub after_end : Bytes
  pub end : content ≡ before_end ++ text "%%EOF" ++ after_end
  pub late : length after_end ≤ 1019

abbrev Occurs : Bytes → Bytes → Type 0
Occurs needle s = (left : Bytes) × (right : Bytes) × (s ≡ left ++ needle ++ right)

take-drop : (n : ℕ) (s : Bytes) → s ≡ take n s ++ drop n s
take-drop zero s = refl
take-drop (suc n) [] = refl
take-drop (suc n) (c ∷ s) = ap (λ t. c ∷ t) (take-drop n s)

length-take_bound : (n : ℕ) (s : Bytes) → length (take n s) ≤ n
length-take_bound zero s = omega arith
length-take_bound (suc n) [] = omega arith
length-take_bound (suc n) (c ∷ s) = omega (arith, length-take_bound n s)

length-drop : (n : ℕ) (s : Bytes) → length (drop n s) ≡ length s - n
length-drop zero s = omega arith
length-drop (suc n) [] = omega arith
length-drop (suc n) (c ∷ s) = omega (arith, length-drop n s)

contains-Occurs : (needle s : Bytes) → contains needle s ≡ true → Occurs needle s
unfolding contains
contains-Occurs needle [] h = ([], drop (length needle) [], starts_with_split needle [] h)
contains-Occurs needle (c ∷ s) h = elim (Bool-cases (starts_with needle (c ∷ s))) [
  | inl here ↦ ([], drop (length needle) (c ∷ s), starts_with_split needle (c ∷ s) here)
  | inr later ↦
      let (left, right, split) = contains-Occurs needle s (ground arith) in
      (c ∷ left, right, ap (λ t. c ∷ t) split)
]

contains_here : (needle s : Bytes) → starts_with needle s ≡ true → contains needle s ≡ true
unfolding contains
contains_here needle [] h = h
contains_here needle (c ∷ s) h = rw h refl

contains-append : (needle left right : Bytes) → contains needle (left ++ needle ++ right) ≡ true
unfolding contains
contains-append needle [] right = contains_here needle _ (starts_with-append needle right)
contains-append needle (c ∷ left) right = ground (arith, contains-append needle left right)

starts_with-take :
    (needle right : Bytes) (n : ℕ)
    → length needle ≤ n
    → starts_with needle (take n (needle ++ right)) ≡ true
unfolding starts_with
starts_with-take [] right n h = refl
starts_with-take (c ∷ needle) right zero h = absurd (omega arith)
starts_with-take (c ∷ needle) right (suc n) h = ground (arith, starts_with-take needle right n)

contains-take :
    (needle left right : Bytes) (n : ℕ)
    → length left + length needle ≤ n
    → contains needle (take n (left ++ needle ++ right)) ≡ true
unfolding contains
contains-take needle [] right n h =
    contains_here needle _ (starts_with-take needle right n (omega arith))
contains-take needle (c ∷ left) right zero h = absurd (omega arith)
contains-take needle (c ∷ left) right (suc n) h = ground (arith, contains-take needle left right n)

drop-append_left :
    (k : ℕ) (left right : Bytes) → k ≤ length left → drop k (left ++ right) ≡ drop k left ++ right
drop-append_left zero left right h = refl
drop-append_left (suc k) [] right h = absurd (omega arith)
drop-append_left (suc k) (c ∷ left) right h = drop-append_left k left right (omega arith)

drop-occurs :
    (k : ℕ) (left needle right : Bytes)
    → k ≤ length left
    → drop k (left ++ needle ++ right) ≡ drop k left ++ needle ++ right
drop-occurs k left needle right h =
    ap (drop k) (append_assoc left needle right)
    ∙ drop-append_left k left (needle ++ right) h
    ∙ sym (append_assoc (drop k left) needle right)

length-occurs :
    (left needle right : Bytes)
    → length (left ++ needle ++ right) ≡ length left + length needle + length right
length-occurs left needle right =
    omega (arith, length-append (left ++ needle) right, length-append left needle)

-- In the first bytes.
head-Occurs :
    (needle s : Bytes) (n : ℕ)
    → contains needle (take n s) ≡ true
    → (left : Bytes) × (right : Bytes) × (s ≡ left ++ needle ++ right)
      × (length left + length needle ≤ n)
head-Occurs needle s n h =
    let (left, right, split) = contains-Occurs needle (take n s) h in
    (
      left,
      right ++ drop n s,
      take-drop n s
          ∙ ap (λ t. t ++ drop n s) split
          ∙ append_assoc (left ++ needle) right (drop n s),
      omega (arith, length-take_bound n s, ap length split, length-occurs left needle right),
    )

-- In the last bytes.
tail-Occurs :
    (needle s : Bytes)
    → contains needle (tail_of s) ≡ true
    → (left : Bytes) × (right : Bytes) × (s ≡ left ++ needle ++ right)
      × (length needle + length right ≤ 1024)
unfolding tail_of
tail-Occurs needle s h = elim (Bool-cases (ltb 1024 (length s))) [
  | inr short ↦
      let (left, right, split) = contains-Occurs needle s (rw short at h) in
      (left, right, split, ground (arith, ap length split, length-occurs left needle right))
  | inl long ↦
      let k = length s - 1024 in
      let (left, right, split) = contains-Occurs needle (drop k s) (rw long at h) in
      (
        take k s ++ left,
        right,
        take-drop k s
            ∙ ap (λ t. take k s ++ t) split
            ∙ sym (append_assoc (take k s) (left ++ needle) right)
            ∙ ap (λ t. t ++ right) (sym (append_assoc (take k s) left needle)),
        ground (arith, ap length split, length-occurs left needle right, length-drop k s),
      )
]

tail-contains :
    (needle left right : Bytes)
    → length needle + length right ≤ 1024
    → contains needle (tail_of (left ++ needle ++ right)) ≡ true
unfolding tail_of
tail-contains needle left right h =
    elim (Bool-cases (ltb 1024 (length (left ++ needle ++ right)))) [
      | inr short ↦ rw short (contains-append needle left right)
      | inl long ↦
          let total = length-occurs left needle right in
          let k = length (left ++ needle ++ right) - 1024 in
          rw (long, drop-occurs k left needle right (omega (arith, total)))
            (contains-append needle (drop k left) right)
    ]

-- The test of `sign` accepts exactly the uploads with `%PDF-` in the first 1024 bytes and `%%EOF` in the
-- last 1024, each as a whole.
pub is_pdf_iff : (content : Bytes) → (is_pdf content ≡ true) ↔ IsPdf content
unfolding is_pdf text
is_pdf_iff content = (
  λ h.
      let (b, a, header, early) = head-Occurs (text "%PDF-") content 1024 (ground arith) in
      let (b', a', end, late) = tail-Occurs (text "%%EOF") content (ground arith) in
      record {
        before_header = b;
        after_header = a;
        header = header;
        early = omega arith;
        before_end = b';
        after_end = a';
        end = end;
        late = omega arith;
      },
  λ p.
      let head =
        contains-take (text "%PDF-") p.before_header p.after_header 1024 (omega (arith, p.early)) in
      let tail = tail-contains (text "%%EOF") p.before_end p.after_end (omega (arith, p.late)) in
      let h = rw (← p.header) at head in let t = rw (← p.end) at tail in rw (h, t) refl,
)
