-- ===== src/Base/Numeral.antt =====
-- `u64::from_str`, `usize::from_str_radix` and the like: an optional plus sign, then digits; an
-- error where there is none, where another byte stands, and where the value does not fit.
use Prim.Native.Nat.{ℕ, ◌+◌, ◌-◌, ◌*◌, ◌^◌}
use mathlib.Core.Bool.{◌&&◌}
use mathlib.Core.Option.{Option, none, some}
use mathlib.Core.List.{[], ◌∷◌}
use los_cara.Base.Tests.{ltb, leb, ◌==◌, if◌then◌else◌}
use los_cara.Base.Str.{Text, is_digit, lower_byte}

abbrev pub u64_max : ℕ
u64_max = 2 ^ 64 - 1

abbrev pub u32_max : ℕ
u32_max = 2 ^ 32 - 1

-- `char::to_digit`, for the bases ten and sixteen.
abbrev pub digit_value : ℕ → ℕ → Option ℕ
digit_value base c =
    if is_digit c
    then some (c - b'0')
    else if (base == 16) && leb b'a' (lower_byte c) && leb (lower_byte c) b'f'
    then some (lower_byte c - b'a' + 10)
    else none

unfoldable pub parse_digits : ℕ → ℕ → ℕ → Text → Option ℕ
parse_digits base limit n [] = some n
parse_digits base limit n (c ∷ s) = elim (digit_value base c) [
  | none ↦ none
  | some d ↦ if ltb limit (n * base + d) then none else parse_digits base limit (n * base + d) s
]

abbrev pub some_digits : ℕ → ℕ → Text → Option ℕ
some_digits base limit [] = none
some_digits base limit (c ∷ s) = parse_digits base limit 0 (c ∷ s)

unfoldable pub parse_radix : ℕ → ℕ → Text → Option ℕ
unfolding parse_digits
parse_radix base limit [] = none
parse_radix base limit (c ∷ s) =
    if c == b'+' then some_digits base limit s else some_digits base limit (c ∷ s)

unfoldable pub parse_u64 : Text → Option ℕ
unfolding parse_radix
parse_u64 = parse_radix 10 u64_max
