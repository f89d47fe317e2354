-- ===== src/S3/Range.antt =====
-- `parse_range` of src/s3.rs: a valid range lies in the object.
use los_cara.Base.{
  ℕ, ◌+◌, ◌-◌, ◌≤◌, ◌<◌, min, ◌||◌, ltb, leb, ◌==◌, ◌≡◌, refl, Option, none, some, [], ◌∷◌, arith,
  if◌then◌else◌, Text, codes, strip_prefix, has_byte, split_once, parse_u64, Bool-cases, inl, inr,
}

pub data RangeParse : Type 0 where
  valid : ℕ → ℕ → RangeParse
  invalid ignored : RangeParse

-- `bytes=-n`: the last n bytes.
unfoldable pub suffix_range : Option ℕ → ℕ → RangeParse
suffix_range none size = ignored
suffix_range (some n) size =
    if n == 0 || size == 0 then invalid else valid (size - n) (size - (size - n))

-- The end of a range: the last byte where the text has none.
unfoldable pub range_end : Text → ℕ → Option ℕ
range_end [] size = some (size - 1)
range_end (c ∷ s) size = elim (parse_u64 (c ∷ s)) [ none ↦ none | some n ↦ some (min n (size - 1)) ]

unfoldable pub bounded_range : ℕ → Option ℕ → RangeParse
bounded_range start none = ignored
bounded_range start (some last) = if ltb last start then ignored else valid start (last - start + 1)

unfoldable pub from_range : Option ℕ → Text → ℕ → RangeParse
unfolding range_end bounded_range
from_range none end_s size = ignored
from_range (some start) end_s size =
    if leb size start then invalid else bounded_range start (range_end end_s size)

unfoldable pub range_of : Text → Text → ℕ → RangeParse
unfolding suffix_range from_range
range_of [] end_s size = suffix_range (parse_u64 end_s) size
range_of (c ∷ s) end_s size = from_range (parse_u64 (c ∷ s)) end_s size

unfoldable pub parse_spec : Text → ℕ → RangeParse
unfolding range_of
parse_spec spec size = if has_byte b',' spec then ignored else elim (split_once b'-' spec) [
  | none ↦ ignored
  | some (start_s, end_s) ↦ range_of start_s end_s size
]

unfoldable pub parse_range : Text → ℕ → RangeParse
unfolding parse_spec
parse_range header size = elim (strip_prefix (codes "bytes=") header) [
  | none ↦ ignored
  | some spec ↦ parse_spec spec size
]

-- A range that lies in a content of `size` bytes and is not empty.
abbrev pub IsWithin : ℕ → RangeParse → Type 0
IsWithin size (valid start len) = (0 < len) × (start + len ≤ size)
IsWithin size invalid = Unit
IsWithin size ignored = Unit

suffix-IsWithin : (o : Option ℕ) (size : ℕ) → IsWithin size (suffix_range o size)
unfolding suffix_range
suffix-IsWithin none size = tt
suffix-IsWithin (some n) size = elim (Bool-cases (n == 0 || size == 0)) [
  | inl h ↦ rw h tt
  | inr h ↦ rw h (ground arith)
]

bounded-IsWithin :
    (start : ℕ) (o : Option ℕ) (size : ℕ)
    → start < size
    → ((n : ℕ) → o ≡ some n → n ≤ size - 1)
    → IsWithin size (bounded_range start o)
unfolding bounded_range
bounded-IsWithin start none size h k = tt
bounded-IsWithin start (some n) size h k = elim (Bool-cases (ltb n start)) [
  | inl t ↦ rw t tt
  | inr t ↦ let le = k n refl in rw t (ground arith)
]

range_end-le : (end_s : Text) (size n : ℕ) → range_end end_s size ≡ some n → n ≤ size - 1
unfolding range_end
range_end-le [] size n h = ground arith
range_end-le (c ∷ s) size n h = ground arith

from-IsWithin : (o : Option ℕ) (end_s : Text) (size : ℕ) → IsWithin size (from_range o end_s size)
unfolding from_range
from-IsWithin none end_s size = tt
from-IsWithin (some start) end_s size = elim (Bool-cases (leb size start)) [
  | inl t ↦ rw t tt
  | inr t ↦
      rw t (
        bounded-IsWithin start (range_end end_s size) size (ground arith) (range_end-le end_s size))
]

range_of-IsWithin : (start_s end_s : Text) (size : ℕ) → IsWithin size (range_of start_s end_s size)
unfolding range_of
range_of-IsWithin [] end_s size = suffix-IsWithin (parse_u64 end_s) size
range_of-IsWithin (c ∷ s) end_s size = from-IsWithin (parse_u64 (c ∷ s)) end_s size

spec-IsWithin : (spec : Text) (size : ℕ) → IsWithin size (parse_spec spec size)
unfolding parse_spec
spec-IsWithin spec size = elim (Bool-cases (has_byte b',' spec)) [
  | inl t ↦ rw t tt
  | inr t ↦ rw t (parts (split_once b'-' spec))
]
  where
    parts :
        (o : Option (Text × Text))
        → IsWithin size (elim o [ none ↦ ignored | some (a, z) ↦ range_of a z size ])
    parts none = tt
    parts (some (a, z)) = range_of-IsWithin a z size

pub parse_range-IsWithin : (header : Text) (size : ℕ) → IsWithin size (parse_range header size)
unfolding parse_range
parse_range-IsWithin header size = go (strip_prefix (codes "bytes=") header)
  where
    go :
        (o : Option Text)
        → IsWithin size (elim o [ none ↦ ignored | some spec ↦ parse_spec spec size ])
    go none = tt
    go (some spec) = spec-IsWithin spec size
