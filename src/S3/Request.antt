-- ===== src/S3/Request.antt =====
-- How src/s3.rs reads a request: its query, its path and its `host` header. percent-encoding's
-- decoder is a parameter, which yields nothing where the bytes are not UTF-8.
use los_cara.Base.{
  Bool, true, false, not, ◌&&◌, Option, none, some, List, [], ◌∷◌, if◌then◌else◌, Text, codes,
  split, split_once, strip_suffix, has_byte, text_eq, any, find, map, filter,
}
use mathlib.Core.Option
use los_cara.Error
use los_cara.Error.{S3Error, Result, ok, err}

pub data Method : Type 0 where
  get head put post delete other : Method

abbrev pub Query : Type 0
Query = List (Text × Text)

-- What `dispatch` reads of a request. `host` is the header's text, and `copy_source` says whether
-- the request has the header `x-amz-copy-source`.
pub record Request : Type 0 where
  pub method : Method
  pub path : Text
  pub query : Text
  pub host : Option Text
  pub copy_source : Bool

abbrev pub is_empty : Text → Bool
is_empty [] = true
is_empty (c ∷ s) = false

module _ (percent_decode : Text → Option Text) where
  -- `percent_decode(s).unwrap_or_else(|| s.to_string())`.
  abbrev pub decoded : Text → Text
  decoded s = elim (percent_decode s) [ none ↦ s | some t ↦ t ]

  abbrev pair_of : Text → Text × Text
  pair_of pair = elim (split_once b'=' pair) [
    | some (k, v) ↦ (decoded k, decoded v)
    | none ↦ (decoded pair, decoded [])
  ]

  unfoldable pub parse_query : Text → Query
  unfolding split_once
  parse_query query = map pair_of (filter (λ pair. not (is_empty pair)) (split b'&' query))

  -- `collect` of the decoded segments stops at the first that fails.
  unfoldable pub collect : List Text → Result S3Error (List Text)
  collect [] = ok []
  collect (seg ∷ segs) = elim (percent_decode seg) [
    | none ↦ err (Error.invalid_argument (codes "Invalid URL encoding in path"))
    | some s ↦ elim (collect segs) [ err e ↦ err e | ok ss ↦ ok (s ∷ ss) ]
  ]

  unfoldable pub decode_path : Text → Result S3Error (List Text)
  unfolding collect
  decode_path path = collect (filter (λ seg. not (is_empty seg)) (split b'/' path))

abbrev pub has : Text → Query → Bool
has name query = any (λ p. text_eq p.0 name) query

abbrev pub get_q : Text → Query → Option Text
get_q name query = Option.map (λ p. p.1) (find (λ p. text_eq p.0 name) query)

-- The loop over the suffixes.
unfoldable pub first_suffix : Text → List Text → Option Text
unfolding strip_suffix
first_suffix host [] = none
first_suffix host (suffix ∷ suffixes) =
    let rest = first_suffix host suffixes in
    elim (strip_suffix suffix host) [
      | none ↦ rest
      | some bucket ↦
          if not (is_empty bucket) && not (has_byte b'/' bucket) then some bucket else rest
    ]

abbrev host_name : List Text → Text
host_name [] = []
host_name (s ∷ ss) = s

unfoldable pub bucket_from_host : Text → Option Text
unfolding first_suffix
bucket_from_host host =
    first_suffix (host_name (split b':' host)) (
      codes ".localhost"
      ∷ codes ".s3.local"
      ∷ codes ".localdomain"
      ∷ codes ".s3.amazonaws.com"
      ∷ [])
