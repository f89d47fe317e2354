-- ===== src/Tests/Crates.antt =====
-- Simple stand-ins for the crates of src/s3.rs, and a PUT and a GET.
use los_cara.Base.{true, none, some, List, [], ◌∷◌, ◌++◌, Text, codes}
use los_cara.Error.{Result, ok, err}
use los_cara.Xml.Parse.{start, text, end, eof}
use los_cara.Storage.Objects.{Body}
use los_cara.Auth.Verify.{Verified, signed_full}
use los_cara.S3.Http.{Http, RequestHeaders}
use los_cara.Tests.Atomic.{hash}

abbrev all_of : Body → Result Text Text
all_of [] = ok []
all_of (ok chunk ∷ body) = elim (all_of body) [ err e ↦ err e | ok s ↦ ok (chunk ++ s) ]
all_of (err e ∷ body) = err e.message

-- Every document is a request for the deletion of the key `k`.
abbrev pub http : Http
http = record {
  escape = λ s. s;
  read_events = λ s.
      start (codes "Delete")
      ∷ start (codes "Object")
      ∷ start (codes "Key")
      ∷ text (some (codes "k"))
      ∷ end
      ∷ end
      ∷ end
      ∷ eof
      ∷ [];
  to_rfc2822 = λ t. codes "Wed, 1 Jan 2025 00:00:00 +0000";
  format_date = λ t. codes "2025-01-01T00:00:00.000Z";
  parse_date = λ s. none;
  base64_decode = λ s. some s;
  percent = record { decode = λ s. some s; encode = λ s. s };
  is_header_name = λ s. true;
  is_header_value = λ s. true;
  show_error = λ e. e.message;
  to_bytes = λ limit body. all_of body;
}

abbrev pub put_headers : RequestHeaders
put_headers =
    (codes "content-type", some (codes "text/plain"))
    ∷ (codes "content-md5", some (codes "hello"))
    ∷ []

abbrev pub get_headers : RequestHeaders
get_headers = (codes "host", some (codes "localhost")) ∷ []

-- A request that signs the hash of its body.
abbrev pub signed_body : Verified
signed_body = record {
  access_key = codes "key";
  scope_date = codes "20250101";
  scope = codes "20250101/us/s3/aws4_request";
  signature = codes "AWS4SECRET";
  payload_sha_mode = signed_full hash;
  amz_date = codes "20250101";
  signing_key = codes "AWS4secret";
}

abbrev pub arriving : List (Result Text Text)
arriving = ok (codes "hel") ∷ ok (codes "lo") ∷ []
