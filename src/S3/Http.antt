-- ===== src/S3/Http.antt =====
-- Responses and the headers of src/s3.rs, and what the handlers take from third-party crates.
pub mod Headers
use los_cara.Base.{
  ℕ, ◌-◌, zero, suc, Bool, true, false, ◌&&◌, Option, none, some, List, [], ◌∷◌, ◌++◌, length, map,
  Text, String, codes, text_eq, text_leb, starts_with, strip_prefix, lower_byte, map_get,
  map_insert, if◌then◌else◌, not,
}
use mathlib.Core.Option
use los_cara.Error.{S3Error, Result, error_xml}
use los_cara.Xml.{Escape}
use los_cara.Xml.Parse.{Event}
use los_cara.Storage.Types.{Env, Metadata, ObjectMeta}
use los_cara.Storage.Objects.{Body}
use los_cara.Auth.Request.{Percent}

-- The crates quick-xml (`escape`, and the events of its reader), chrono, base64, percent-encoding,
-- http (the tests behind `HeaderName::from_bytes` and `HeaderValue::from_str`) and axum: the text
-- of its error around one of a body, and `to_bytes` with its limit, or the text of its error.
pub record Http : Type 0 where
  pub escape : Escape
  pub read_events : Text → List Event
  pub to_rfc2822 : ℕ → Text
  pub format_date : ℕ → Text
  pub parse_date : Text → Option ℕ
  pub base64_decode : Text → Option Text
  pub percent : Percent
  pub is_header_name : Text → Bool
  pub is_header_value : Text → Bool
  pub show_error : S3Error → Text
  pub to_bytes : ℕ → Body → Result Text Text

-- The headers of a request in their order, the names in lower case; nothing for a value that
-- `to_str` does not pass.
abbrev pub RequestHeaders : Type 0
RequestHeaders = List (Text × Option Text)

abbrev pub HeaderMap : Type 0
HeaderMap = List (Text × Text)

-- A body that is streamed is here all that the stream yields.
pub record Response : Type 0 where
  pub status : ℕ
  pub headers : HeaderMap
  pub body : Text

-- `headers.insert`, which replaces.
unfoldable pub insert_header : String → Text → HeaderMap → HeaderMap
unfolding map_insert
insert_header name value headers =
    map_insert text_eq (λ (j k : Text). false) (codes name) value headers

unfoldable pub xml_response : ℕ → Text → HeaderMap → Response
xml_response status body extra = record {
  status = status;
  headers = (codes "content-type", codes "application/xml") ∷ extra;
  body = body;
}

-- `s.replace(from, to)`; `skip` counts the bytes of a match that are still to be passed over.
unfoldable pub replace : Text → Text → ℕ → Text → Text
replace from to skip [] = []
replace from to (suc skip) (c ∷ s) = replace from to skip s
replace from to zero (c ∷ s) = elim (starts_with from (c ∷ s)) [
  | true ↦ to ++ replace from to (length from - 1) s
  | false ↦ c ∷ replace from to zero s
]

unfoldable pub header_opt : RequestHeaders → String → Option Text
unfolding map_get
header_opt headers name = elim (map_get text_eq (codes name) headers) [
  | none ↦ none
  | some value ↦ value
]

abbrev pub or_else : Text → Option Text → Text
or_else absent none = absent
or_else absent (some s) = s

-- The order of the keys of a `BTreeMap<String, String>`.
abbrev pub text_ltb : Text → Text → Bool
text_ltb s t = not (text_leb t s)

unfoldable pub insert_metadata : Option Text → Option Text → Metadata → Metadata
unfolding map_insert
insert_metadata (some rest) (some v) md = map_insert text_eq text_ltb rest v md
insert_metadata (some rest) none md = md
insert_metadata none value md = md

-- The loop over the headers.
unfoldable pub collect_metadata : RequestHeaders → Metadata → Metadata
unfolding insert_metadata
collect_metadata [] md = md
collect_metadata ((name, value) ∷ headers) md =
    collect_metadata headers
      (insert_metadata (strip_prefix (codes "x-amz-meta-") (map lower_byte name)) value md)

unfoldable pub user_metadata : RequestHeaders → Metadata
unfolding collect_metadata
user_metadata headers = collect_metadata headers []

-- An etag between quotes.
unfoldable pub quoted : Text → Text
quoted s = b'"' ∷ (s ++ (b'"' ∷ []))

module _ (http : Http) where
  unfoldable pub error_response : S3Error → Text → Text → Response
  unfolding xml_response
  error_response e resource request_id =
      let res =
        xml_response e.status (error_xml http.escape (codes e.code) e.message resource request_id)
          [] in
      record res {
        headers =
            insert_header "x-amz-request-id"
              (if http.is_header_value request_id then request_id else codes "unknown") res.headers;
      }

  unfoldable pub http_date : ℕ → Text
  unfolding replace
  http_date ms = replace (codes "+0000") (codes "GMT") 0 (http.to_rfc2822 ms)

  unfoldable pub xml_date : ℕ → Text
  xml_date ms = http.format_date ms

  unfoldable pub content_md5_hex : Env → RequestHeaders → Option Text
  unfolding header_opt
  content_md5_hex env headers =
      Option.map env.hex_encode (Option.bind (header_opt headers "content-md5") http.base64_decode)

  unfoldable pub metadata_headers : Metadata → HeaderMap → HeaderMap
  unfolding map_insert
  metadata_headers [] h = h
  metadata_headers ((k, v) ∷ md) h = metadata_headers md (
      if http.is_header_name (codes "x-amz-meta-" ++ k) && http.is_header_value v
      then map_insert text_eq (λ (i j : Text). false) (codes "x-amz-meta-" ++ k) v h
      else h)

  -- The etag and the date are header values: hexadecimal digits, and a date of chrono.
  unfoldable pub object_headers : ObjectMeta → HeaderMap
  unfolding insert_header metadata_headers
  object_headers meta =
      let h = insert_header "etag" (quoted meta.etag) [] in
      let h' = insert_header "last-modified" (http_date meta.last_modified) h in
      let h'' = insert_header "accept-ranges" (codes "bytes") h' in
      metadata_headers meta.metadata (
        if http.is_header_value meta.content_type
        then insert_header "content-type" meta.content_type h''
        else h'')
