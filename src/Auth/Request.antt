-- ===== src/Auth/Request.antt =====
-- The canonical requests of src/auth.rs, and what its headers say. The crate percent-encoding is a
-- parameter, and so is hyper's `HeaderMap`.
use los_cara.Base.{
  ℕ, Bool, true, false, not, ◌&&◌, ◌||◌, Option, none, some, List, [], ◌∷◌, ◌++◌, leb, ◌==◌,
  if◌then◌else◌, map, Text, codes, text_eq, text_leb, sort, split, join, strip_prefix, trim_matches,
  filter,
}
use los_cara.Error
use los_cara.Error.{S3Error, Result, ok, err}
use los_cara.Auth.Crypto.{newline}

-- A header: nothing where the request has none of that name, and in it nothing where its value is no
-- text, which is what `to_str` says.
abbrev pub Headers : Type 0
Headers = Text → Option (Option Text)

abbrev pub Query : Type 0
Query = List (Text × Text)

abbrev pub text_of_header : Headers → Text → Option Text
text_of_header headers name = elim (headers name) [ none ↦ none | some v ↦ v ]

-- `percent_decode`, and `utf8_percent_encode` with the set `UNRESERVED`.
pub record Percent : Type 0 where
  pub decode : Text → Option Text
  pub encode : Text → Text

-- `s.replace('/', "%2F")`.
unfoldable pub replace_slash : Text → Text
replace_slash [] = []
replace_slash (c ∷ s) = if c == b'/' then codes "%2F" ++ replace_slash s else c ∷ replace_slash s

abbrev pair_leb : Text × Text → Text × Text → Bool
pair_leb (k, v) (j, w) = if text_eq k j then text_leb v w else text_leb k j

abbrev is_space : ℕ → Bool
is_space c = c == 32 || leb 9 c && leb c 13

abbrev is_full : Text → Bool
is_full [] = false
is_full (c ∷ s) = true

-- A split on ASCII white space, for values that `to_str` passed.
abbrev spaces_to_blank : Text → Text
spaces_to_blank s = map (λ c. if is_space c then 32 else c) s

unfoldable pub collapse_spaces : Text → Text
unfolding split join
collapse_spaces value = join (codes " ") (filter is_full (split 32 (spaces_to_blank value)))

module _ (percent : Percent) where
  unfoldable pub aws_uri_encode : Text → Bool → Text
  unfolding replace_slash
  aws_uri_encode input encode_slash =
      if encode_slash then replace_slash (percent.encode input) else percent.encode input

  unfoldable pub canonical_query : Query → Text
  unfolding aws_uri_encode sort join
  canonical_query query = join (codes "&") (
      map (λ p. p.0 ++ (b'=' ∷ p.1))
        (sort pair_leb (map (λ p. (aws_uri_encode p.0 true, aws_uri_encode p.1 true)) query)))

  abbrev decoded_or_raw : Text → Text
  decoded_or_raw seg = elim (percent.decode seg) [ none ↦ seg | some s ↦ s ]

  unfoldable pub canonical_uri : Text → Text
  unfolding aws_uri_encode split join
  canonical_uri raw_path =
      join (codes "/")
        (map (λ seg. aws_uri_encode (decoded_or_raw seg) false) (split b'/' raw_path))

  -- The text that both kinds of signature sign.
  canonical_text : Text → Text → Query → List Text → List Text → Text → Text
  canonical_text method raw_path query lines signed_headers payload =
      method
      ++ (newline
          ++ (canonical_uri raw_path
              ++ (newline
                  ++ (canonical_query query
                      ++ (newline
                          ++ (join newline lines
                              ++ (newline
                                  ++ (newline
                                      ++ (join (codes ";") signed_headers
                                          ++ (newline ++ payload))))))))))

  -- The loop over the signed headers; a header that is missing or no text ends it.
  unfoldable pub signed_lines : Headers → List Text → Result S3Error (List Text)
  unfolding collapse_spaces
  signed_lines headers [] = ok []
  signed_lines headers (name ∷ names) = elim (text_of_header headers name) [
    | none ↦ err Error.signature_does_not_match
    | some v ↦ elim (signed_lines headers names) [
      | err e ↦ err e
      | ok ls ↦ ok ((name ++ (b':' ∷ collapse_spaces v)) ∷ ls)
    ]
  ]

  unfoldable pub canonical_request_header :
      Text → Text → Query → Headers → List Text → Result S3Error Text
  unfolding signed_lines canonical_text
  canonical_request_header method raw_path query headers signed_headers =
      elim (signed_lines headers signed_headers) [
        | err e ↦ err e
        | ok lines ↦ elim (text_of_header headers (codes "x-amz-content-sha256")) [
          | none ↦
              err (Error.invalid_argument (codes "Missing required header x-amz-content-sha256"))
          | some content_sha ↦
              ok (canonical_text method raw_path query lines signed_headers content_sha)
        ]
      ]

  abbrev presigned_line : Headers → Text → Text
  presigned_line headers name =
      name ++ (b':' ∷ elim (text_of_header headers name) [ none ↦ [] | some v ↦ collapse_spaces v ])

  unfoldable pub canonical_request_presigned : Text → Text → Query → Headers → List Text → Text
  unfolding collapse_spaces canonical_text
  canonical_request_presigned method raw_path query headers signed_headers =
      canonical_text method raw_path query (map (presigned_line headers) signed_headers)
        signed_headers (codes "UNSIGNED-PAYLOAD")

-- The parts of an `Authorization` header; `amz_date` is the date again.
pub record HeaderSig : Type 0 where
  pub access_key : Text
  pub date : Text
  pub region : Text
  pub service : Text
  pub signed_headers : List Text
  pub signature : Text
  pub amz_date : Text

-- The three fields as the loop finds them: the last of each name counts.
pub record Fields : Type 0 where
  pub credential : Option Text
  pub headers : Option Text
  pub sign : Option Text

abbrev trim : Text → Text
trim s = trim_matches is_space s

unfoldable pub field : Text → Fields → Fields
unfolding strip_prefix trim_matches
field part f = elim (strip_prefix (codes "Credential=") part) [
  | some c ↦ record f { credential = some c }
  | none ↦ elim (strip_prefix (codes "SignedHeaders=") part) [
    | some s ↦ record f { headers = some (trim_matches (λ c. c == b'"') s) }
    | none ↦ elim (strip_prefix (codes "Signature=") part) [
      | some s ↦ record f { sign = some s }
      | none ↦ f
    ]
  ]
]

unfoldable pub fields : List Text → Fields → Fields
unfolding field trim_matches
fields [] f = f
fields (part ∷ parts) f = fields parts (field (trim part) f)

-- A credential: the access key, the date and the region, with the service and the terminal that
-- they must have.
unfoldable pub scope_of : List Text → Result S3Error (Text × Text × Text)
scope_of (access_key ∷ date ∷ region ∷ service ∷ terminal ∷ _) =
    if not (text_eq terminal (codes "aws4_request")) || not (text_eq service (codes "s3"))
    then err Error.access_denied
    else ok (access_key, date, region)
scope_of _ = err Error.access_denied

unfoldable pub sig_of : Fields → Result S3Error HeaderSig
unfolding scope_of split
sig_of f = elim f.credential [
  | none ↦ err Error.access_denied
  | some credential ↦ elim f.headers [
    | none ↦ err Error.access_denied
    | some headers ↦ elim f.sign [
      | none ↦ err Error.access_denied
      | some signature ↦ elim (scope_of (split b'/' credential)) [
        | err e ↦ err e
        | ok (access_key, date, region) ↦ ok (record {
          access_key = access_key;
          date = date;
          region = region;
          service = codes "s3";
          signed_headers = split b';' headers;
          signature = signature;
          amz_date = date;
        })
      ]
    ]
  ]
]

unfoldable pub parse_authorization : Text → Result S3Error HeaderSig
unfolding fields sig_of strip_prefix split
parse_authorization value = elim (strip_prefix (codes "AWS4-HMAC-SHA256 ") value) [
  | none ↦ err Error.access_denied
  | some rest ↦
      sig_of (fields (split b',' rest) (record { credential = none; headers = none; sign = none }))
]
