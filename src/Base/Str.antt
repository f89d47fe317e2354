-- ===== src/Base/Str.antt =====
-- Rust's `str` as the list of its UTF-8 bytes, with the functions of `str` that the program calls.
use Prim.Native.Nat.{ℕ, suc, ◌+◌}
use Prim.Native.Char.{code}
use Prim.Native.String.{String}
use mathlib.Core.Path.{◌≡◌}
use mathlib.Core.Logic.{◌↔◌}
use mathlib.Core.Bool.{Bool, true, false, ◌&&◌, ◌||◌}
use mathlib.Core.Option
use mathlib.Core.Option.{Option, none, some}
use mathlib.Core.List.{List, [], ◌∷◌, ◌++◌, reverse}
use los_cara.Base.Tests.{ltb, leb, ◌==◌, ==_iff, if◌then◌else◌}
use los_cara.Base.Lists.{list_eq, list_eq_iff}

abbrev pub Text : Type 0
Text = List ℕ

-- The bytes of an ASCII literal.
unfoldable pub codes : String → Text
codes String.[] = []
codes (String.◌∷◌ c s) = code c ∷ codes s

unfoldable pub text_eq : Text → Text → Bool
unfolding list_eq
text_eq = list_eq ◌==◌

pub text_eq_iff : (s t : Text) → (text_eq s t ≡ true) ↔ (s ≡ t)
unfolding text_eq
text_eq_iff = list_eq_iff ◌==◌ ==_iff

-- `s <= t` on `str`: the byte-wise lexicographic order.
unfoldable pub text_leb : Text → Text → Bool
text_leb [] t = true
text_leb (c ∷ s) [] = false
text_leb (c ∷ s) (d ∷ t) = if ltb c d then true else (c == d) && text_leb s t

-- `s.strip_prefix(p)`.
unfoldable pub strip_prefix : Text → Text → Option Text
strip_prefix [] s = some s
strip_prefix (c ∷ p) [] = none
strip_prefix (c ∷ p) (d ∷ s) = if c == d then strip_prefix p s else none

-- `s.starts_with(p)`.
unfoldable pub starts_with : Text → Text → Bool
starts_with [] s = true
starts_with (c ∷ p) [] = false
starts_with (c ∷ p) (d ∷ s) = (c == d) && starts_with p s

-- `s.ends_with(p)`.
unfoldable pub ends_with : Text → Text → Bool
unfolding text_eq
ends_with p [] = text_eq p []
ends_with p (d ∷ s) = text_eq p (d ∷ s) || ends_with p s

-- `s.strip_suffix(p)`.
unfoldable pub strip_suffix : Text → Text → Option Text
unfolding strip_prefix
strip_suffix p s = Option.map reverse (strip_prefix (reverse p) (reverse s))

-- `s.find(p)`: the byte offset of the first occurrence.
unfoldable pub find_text : Text → Text → Option ℕ
unfolding starts_with
find_text p [] = if starts_with p [] then some 0 else none
find_text p (d ∷ s) = if starts_with p (d ∷ s) then some 0 else Option.map suc (find_text p s)

-- `s.contains(c)` for one byte.
unfoldable pub has_byte : ℕ → Text → Bool
has_byte c [] = false
has_byte c (d ∷ s) = (c == d) || has_byte c s

-- `s.split_once(c)` for one byte.
unfoldable pub split_once : ℕ → Text → Option (Text × Text)
split_once c [] = none
split_once c (d ∷ s) =
    if c == d then some ([], s) else Option.map (λ p. (d ∷ p.0, p.1)) (split_once c s)

abbrev pub cons_first : ℕ → List Text → List Text
cons_first d [] = (d ∷ []) ∷ []
cons_first d (p ∷ ps) = (d ∷ p) ∷ ps

-- `s.split(c)` for one byte: never empty.
unfoldable pub split : ℕ → Text → List Text
split c [] = [] ∷ []
split c (d ∷ s) = if c == d then [] ∷ split c s else cons_first d (split c s)

-- `parts.join(sep)`.
unfoldable pub join : Text → List Text → Text
join sep [] = []
join sep (p ∷ []) = p
join sep (p ∷ q ∷ ps) = p ++ (sep ++ join sep (q ∷ ps))

abbrev pub skip_while : (ℕ → Bool) → Text → Text
skip_while p [] = []
skip_while p (c ∷ s) = if p c then skip_while p s else c ∷ s

-- `s.trim_matches(p)`.
unfoldable pub trim_matches : (ℕ → Bool) → Text → Text
trim_matches p s = reverse (skip_while p (reverse (skip_while p s)))

abbrev pub is_digit : ℕ → Bool
is_digit c = leb b'0' c && leb c b'9'

abbrev pub lower_byte : ℕ → ℕ
lower_byte c = if leb b'A' c && leb c b'Z' then c + 32 else c
