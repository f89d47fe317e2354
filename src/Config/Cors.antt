-- ===== src/Config/Cors.antt =====
-- `parse_cors_origin` of src/config.rs. The crate url is a parameter, and so is the test behind
-- `HeaderValue::from_str`. The text of the error is left out.
use los_cara.Base.{
  ℕ, ◌+◌, Bool, true, false, not, ◌&&◌, ◌||◌, Option, none, some, [], ◌∷◌, length, take, drop, map,
  any, leb, ◌==◌, Text, codes, text_eq, find_text, starts_with, ends_with, strip_suffix, has_byte,
  lower_byte, if◌then◌else◌,
}

-- `Url::parse`: the host, where there is one, and `origin().ascii_serialization()`.
pub record Url : Type 0 where
  pub host_str : Option Text
  pub origin : Text

-- A control character or white space at the start of a text in UTF-8.
unfoldable pub blank_here : Text → Bool
blank_here [] = false
blank_here (a ∷ s) =
    leb a 32
    || a == 127
    || any (λ p. starts_with p (a ∷ s))
        ((225 ∷ 154 ∷ 128 ∷ [])
          ∷ (226 ∷ 128 ∷ 168 ∷ [])
          ∷ (226 ∷ 128 ∷ 169 ∷ [])
          ∷ (226 ∷ 128 ∷ 175 ∷ [])
          ∷ (226 ∷ 129 ∷ 159 ∷ [])
          ∷ (227 ∷ 128 ∷ 128 ∷ [])
          ∷ [])
    || pair_here a s
  where
    third_here : Text → Bool
    third_here [] = false
    third_here (c ∷ s) = leb 128 c && leb c 138

    pair_here : ℕ → Text → Bool
    pair_here a [] = false
    pair_here a (c ∷ s) =
        (a == 194 && leb 128 c && leb c 160) || (a == 226 && c == 128 && third_here s)

-- `value.chars().any(|c| c.is_control() || c.is_whitespace())`.
unfoldable pub has_blank : Text → Bool
unfolding blank_here
has_blank [] = false
has_blank (a ∷ s) = blank_here (a ∷ s) || has_blank s

-- `value.split_once(sep)`.
unfoldable pub split_text : Text → Text → Option (Text × Text)
split_text sep s = elim (find_text sep s) [
  | none ↦ none
  | some n ↦ some (take n s, drop (n + length sep) s)
]

abbrev pub same_letters : Text → Text → Bool
same_letters s t = text_eq (map lower_byte s) (map lower_byte t)

-- `rest.strip_suffix('/').unwrap_or(rest)`.
abbrev pub authority_of : Text → Text
authority_of rest = elim (strip_suffix (b'/' ∷ []) rest) [ none ↦ rest | some s ↦ s ]

abbrev pub is_http : Text → Bool
is_http scheme = same_letters scheme (codes "http") || same_letters scheme (codes "https")

-- `authority.contains([…])`.
abbrev pub has_mark : Text → Bool
has_mark authority = any (λ c. has_byte c authority) (codes "/\\@?#*")

abbrev pub is_empty : Text → Bool
is_empty [] = true
is_empty (c ∷ s) = false

abbrev pub is_malformed : Text → Text → Text → Bool
is_malformed value scheme authority =
    not (is_http scheme)
    || is_empty authority
    || ends_with (codes ":") authority
    || has_mark authority
    || has_blank value

module _ (parse_url : Text → Option Url) (is_header_value : Text → Bool) where
  unfoldable pub origin_of : Option Url → Option Text
  origin_of none = none
  origin_of (some url) = elim url.host_str [
    | none ↦ none
    | some host ↦
        if has_byte b'*' host
        then none
        else if is_header_value url.origin
        then some url.origin
        else none
  ]

  unfoldable pub parse_cors_origin : Text → Option Text
  unfolding split_text origin_of
  parse_cors_origin value = elim (split_text (codes "://") value) [
    | none ↦ none
    | some (scheme, rest) ↦
        if is_malformed value scheme (authority_of rest) then none else origin_of (parse_url value)
  ]
