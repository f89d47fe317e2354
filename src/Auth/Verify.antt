-- ===== src/Auth/Verify.antt =====
-- The verification of request signatures in src/auth.rs.
mod Promises
pub mod Sound
use los_cara.Base.{
  ℕ, ◌^◌, ◌-◌, Bool, true, false, not, ◌&&◌, ◌||◌, ◌≡◌, refl, ◌⊎◌, inl, inr, Option, none, some,
  List, [], ◌∷◌, ◌++◌, ltb, ◌==◌, if◌then◌else◌, map, any, find, filter, length, arith, Bool-cases,
  subst, Text, codes, text_eq, text_eq_iff, split, starts_with, lower_byte, some_digits,
  parse_digits,
}
use mathlib.Core.Option
use los_cara.Error
use los_cara.Error.{S3Error, Result, ok, err}
use los_cara.Auth.Crypto.{Crypto, newline, sha256_hex, signing_key}
use los_cara.Auth.Request.{
  Headers, Query, Percent, text_of_header, canonical_request_header, canonical_request_presigned,
  HeaderSig, parse_authorization, scope_of,
}

pub data PayloadShaMode : Type 0 where
  signed_full : Text → PayloadShaMode
  unsigned streaming_signed streaming_unsigned : PayloadShaMode

pub record Verified : Type 0 where
  pub access_key : Text
  pub scope_date : Text
  pub scope : Text
  pub signature : Text
  pub payload_sha_mode : PayloadShaMode
  pub amz_date : Text
  pub signing_key : Text

pub data AuthResult : Type 0 where
  header presigned : Verified → AuthResult

-- A difference of times in seconds.
pub data Seconds : Type 0 where
  after before : ℕ → Seconds

abbrev negative : ℕ → Seconds
negative n = if n == 0 then after 0 else before n

-- `str::parse::<i64>()`.
unfoldable pub parse_i64 : Text → Option Seconds
unfolding parse_digits
parse_i64 [] = none
parse_i64 (c ∷ s) =
    if c == b'-'
    then Option.map negative (some_digits 10 (2 ^ 63) s)
    else if c == b'+'
    then Option.map after (some_digits 10 (2 ^ 63 - 1) s)
    else Option.map after (some_digits 10 (2 ^ 63 - 1) (c ∷ s))

unfoldable pub exceeds : Seconds → Seconds → Bool
exceeds (after a) (after b) = ltb b a
exceeds (after a) (before b) = true
exceeds (before a) (after b) = false
exceeds (before a) (before b) = ltb a b

-- `elapsed > expires_secs || elapsed < -86_400`.
unfoldable pub out_of_time : Seconds → Seconds → Bool
unfolding exceeds
out_of_time elapsed expires = exceeds elapsed expires || exceeds (before 86400) elapsed

abbrev is_given : Option Text → Bool
is_given none = false
is_given (some s) = true

unfoldable pub parse_payload_sha :
    (Text → Option Text) → Option Text → Result S3Error PayloadShaMode
unfolding starts_with text_eq
parse_payload_sha hex_decode none =
    err (Error.invalid_argument (codes "Missing required header x-amz-content-sha256"))
parse_payload_sha hex_decode (some value) =
    if text_eq value (codes "UNSIGNED-PAYLOAD")
    then ok unsigned
    else if text_eq value (codes "STREAMING-AWS4-HMAC-SHA256-PAYLOAD")
    then ok streaming_signed
    else if starts_with (codes "STREAMING-") value
    then ok streaming_unsigned
    else if length value == 64 && is_given (hex_decode value)
    then ok (signed_full (map lower_byte value))
    else err (Error.invalid_argument (codes "Invalid x-amz-content-sha256"))

abbrev pub scope_text : Text → Text → Text
scope_text date region = date ++ (b'/' ∷ (region ++ codes "/s3/aws4_request"))

abbrev pub get_q : Text → Query → Option Text
get_q name query = Option.map (λ p. p.1) (find (λ p. text_eq p.0 name) query)

-- `get(…).ok_or_else(S3Error::access_denied)?`, and the code behind it.
unfoldable pub required : Option Text → (Text → Result S3Error Verified) → Result S3Error Verified
required none k = err Error.access_denied
required (some s) k = k s

-- The checks of the times of a presigned request, and the code behind them.
unfoldable pub in_time :
    Option Seconds → Option Seconds → Result S3Error Verified → Result S3Error Verified
unfolding out_of_time
in_time none elapsed k = err (Error.invalid_argument (codes "Invalid X-Amz-Expires"))
in_time (some expires) none k = err (Error.invalid_argument (codes "Invalid X-Amz-Date"))
in_time (some expires) (some elapsed) k =
    if out_of_time elapsed expires then err Error.access_denied else k

unfoldable pub as_result :
    (Verified → AuthResult) → Result S3Error Verified → Result S3Error AuthResult
as_result k (err e) = err e
as_result k (ok v) = ok (k v)

module _ (c : Crypto) (percent : Percent) where
  -- The signature of a canonical request.
  unfoldable pub request_signature : Text → Text → Text → Text → Text
  request_signature key amz_date scope canonical = c.hex_encode (
      c.hmac_sha256 key (
        codes "AWS4-HMAC-SHA256"
        ++ (newline ++ (amz_date ++ (newline ++ (scope ++ (newline ++ sha256_hex c canonical)))))))

  -- `secrets` is what `lookup` of the store answers; `seconds_since` is chrono's parsing of the date
  -- of a request, with its difference to the present time.
  module _ (secrets : Text → Option Text) (seconds_since : Text → Option Seconds)
      (method raw_path : Text) (query : Query) (headers : Headers) where
    abbrev pub header_date : HeaderSig → Text
    header_date sig = elim (text_of_header headers (codes "x-amz-date")) [
      | none ↦ sig.date
      | some d ↦ d
    ]

    unfoldable pub with_mode :
        HeaderSig → Text → Result S3Error PayloadShaMode → Result S3Error Verified
    with_mode sig key (err e) = err e
    with_mode sig key (ok mode) = ok (record {
      access_key = sig.access_key;
      scope_date = sig.date;
      scope = scope_text sig.date sig.region;
      signature = sig.signature;
      payload_sha_mode = mode;
      amz_date = header_date sig;
      signing_key = key;
    })

    unfoldable pub with_canonical : HeaderSig → Text → Result S3Error Text → Result S3Error Verified
    unfolding request_signature with_mode parse_payload_sha signing_key
    with_canonical sig secret (err e) = err e
    with_canonical sig secret (ok canonical) =
        let key = signing_key c secret sig.date sig.region (codes "s3") in
        if not (
          text_eq
            (request_signature key (header_date sig) (scope_text sig.date sig.region) canonical)
            (map lower_byte sig.signature))
        then err Error.signature_does_not_match
        else with_mode sig key
            (parse_payload_sha c.hex_decode (text_of_header headers (codes "x-amz-content-sha256")))

    unfoldable pub with_sig : Result S3Error HeaderSig → Result S3Error Verified
    unfolding with_canonical canonical_request_header
    with_sig (err e) = err e
    with_sig (ok sig) = elim (secrets sig.access_key) [
      | none ↦ err Error.invalid_access_key_id
      | some secret ↦
          with_canonical sig secret
            (canonical_request_header percent method raw_path query headers sig.signed_headers)
    ]

    unfoldable pub verify_header : Result S3Error Verified
    unfolding with_sig parse_authorization
    verify_header = with_sig (
        parse_authorization
          (elim (text_of_header headers (codes "authorization")) [ none ↦ [] | some v ↦ v ]))

    -- The query that a presigned request signs.
    abbrev pub unsigned_query : Query
    unsigned_query = filter (λ p. not (text_eq p.0 (codes "X-Amz-Signature"))) query

    unfoldable pub with_secret :
        Text → Text → Text → Text → Text → Text → Option Text → Result S3Error Verified
    unfolding request_signature canonical_request_presigned signing_key
    with_secret access_key date region amz_date signed_headers signature none =
        err Error.invalid_access_key_id
    with_secret access_key date region amz_date signed_headers signature (some secret) =
        let key = signing_key c secret date region (codes "s3") in
        let canonical =
          canonical_request_presigned percent method raw_path unsigned_query headers
            (split b';' signed_headers) in
        if not (
          text_eq (request_signature key amz_date (scope_text date region) canonical)
            (map lower_byte signature))
        then err Error.signature_does_not_match
        else ok (record {
          access_key = access_key;
          scope_date = date;
          scope = scope_text date region;
          signature = signature;
          payload_sha_mode = unsigned;
          amz_date = amz_date;
          signing_key = key;
        })

    unfoldable pub with_scope :
        Text → Text → Text → Text → Result S3Error (Text × Text × Text) → Result S3Error Verified
    unfolding in_time with_secret parse_i64
    with_scope amz_date expires signed_headers signature (err e) = err e
    with_scope amz_date expires signed_headers signature (ok (access_key, date, region)) =
        in_time (parse_i64 expires) (seconds_since amz_date) (
          with_secret access_key date region amz_date signed_headers signature (secrets access_key))

    unfoldable pub verify_presigned : Result S3Error Verified
    unfolding required with_scope scope_of
    verify_presigned =
        if not (any (text_eq method) (codes "GET" ∷ codes "PUT" ∷ codes "HEAD" ∷ []))
        then err Error.access_denied
        else if not (
            text_eq (elim (get_q (codes "X-Amz-Algorithm") query) [ none ↦ [] | some a ↦ a ])
              (codes "AWS4-HMAC-SHA256"))
        then err (Error.invalid_argument (codes "Unsupported signing algorithm"))
        else required (get_q (codes "X-Amz-Credential") query) λ credential.
          required (get_q (codes "X-Amz-Date") query) λ amz_date.
            required (get_q (codes "X-Amz-Expires") query) λ expires.
              required (get_q (codes "X-Amz-SignedHeaders") query) λ signed_headers.
                required (get_q (codes "X-Amz-Signature") query) λ signature.
                  with_scope amz_date expires signed_headers signature
                    (scope_of (split b'/' credential))

    unfoldable pub verify_request : Result S3Error AuthResult
    unfolding as_result verify_presigned verify_header
    verify_request =
        if any (λ p. text_eq p.0 (codes "X-Amz-Algorithm")) query
        then as_result presigned verify_presigned
        else elim (headers (codes "authorization")) [
          | none ↦ err Error.access_denied
          | some v ↦ as_result header verify_header
        ]
