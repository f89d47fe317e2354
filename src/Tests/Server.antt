-- ===== src/Tests/Server.antt =====
-- Runs of the middleware of src/s3.rs.
use los_cara.Base.{◌≡◌, ◌⊎◌, refl, some, [], ◌∷◌, codes, text_eq, map_get}
use los_cara.Error
use los_cara.Error.{S3Error}
use los_cara.Storage.Io.{World, done, draw, ◌>>=◌}
use los_cara.Auth.Verify.{AuthResult, verify_request}
use los_cara.S3.Request.{parse_query}
use los_cara.S3.Http.{Response, error_response, insert_header}
use los_cara.S3.Payload.{observe, initial_state, decoder_of}
use los_cara.S3.Server.{Incoming, verified_of, entry, authenticate, request_id_and_log}
use los_cara.S3.Server.Answers.{
  IsSigned, authenticate-IsAuthentic, header_of, request_id_and_log-carries,
}
use los_cara.Tests.Atomic.{env}
use los_cara.Tests.ReadBack.{quiet}
use los_cara.Tests.Auth.{crypto, secrets, seconds_since}
use los_cara.Tests.Crates.{http, arriving}

-- A signed PUT.
abbrev incoming : Incoming
incoming = record {
  method = codes "PUT";
  raw_path = codes "/b/k";
  query = [];
  headers =
      (
        codes "authorization",
        some (
            codes
              "AWS4-HMAC-SHA256 Credential=key/20250101/us/s3/aws4_request, SignedHeaders=host, Signature=AWS4SECRET"),
      )
      ∷ (codes "x-amz-content-sha256", some (codes "UNSIGNED-PAYLOAD"))
      ∷ (codes "host", some (codes "localhost"))
      ∷ [];
  body = arriving;
}

authenticate-IsAuthentic_example :
    ((e : S3Error) × (authenticate http env crypto [] secrets seconds_since incoming
          (codes "id")
          quiet
        ≡ (done (error_response http e (codes "/b/k") (codes "id")), quiet)))
    ⊎ ((r : AuthResult) × IsSigned http env crypto [] secrets seconds_since incoming
          (codes "id")
          quiet
          r
        × (authenticate http env crypto [] secrets seconds_since incoming (codes "id") quiet
            ≡ entry http env crypto [] incoming
                (observe crypto
                  (decoder_of (verified_of r))
                  (initial_state (verified_of r))
                  arriving)
                (codes "id")
                quiet))
authenticate-IsAuthentic_example =
    authenticate-IsAuthentic http env crypto [] secrets seconds_since incoming (codes "id") quiet

-- A request without a signature.
abbrev unsigned_request : Incoming
unsigned_request = record {
  method = codes "GET";
  raw_path = codes "/b/k";
  query = [];
  headers = [];
  body = [];
}

abbrev refused : Response
refused =
    let res = error_response http Error.access_denied (codes "/b/k") (env.uuid 0) in
    record res { headers = insert_header "x-amz-request-id" (env.uuid 0) res.headers }

abbrev refused_after : World
refused_after =
    (request_id_and_log http env crypto [] secrets seconds_since unsigned_request quiet).1

request_refused :
    request_id_and_log http env crypto [] secrets seconds_since unsigned_request quiet
    ≡ (done refused, refused_after)
unfolding request_id_and_log authenticate ◌>>=◌ draw codes text_eq map_get verify_request
    parse_query
request_refused = refl

request_id_and_log-carries_example : header_of "x-amz-request-id" refused ≡ some (env.uuid 0)
request_id_and_log-carries_example =
    request_id_and_log-carries http env crypto [] secrets seconds_since unsigned_request
      (codes "id") quiet refused refused_after request_refused
