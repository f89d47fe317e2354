-- ===== src/S3/Server/Answers.antt =====
-- What `authenticate` and `entry` of src/s3.rs answer.
use los_cara.Base.{
  ◌≡◌, refl, ap, subst, ◌∙◌, ◌⊎◌, inl, inr, Option, some, String, Text, codes, map_get, text_eq,
}
use los_cara.Error.{S3Error, Result, ok, err}
use los_cara.Storage.Fs.{FilePath}
use los_cara.Storage.Io.{World, done, pure, draw}
use los_cara.Storage.Runs.{bind-done}
use los_cara.Storage.Types.{Env}
use los_cara.Auth.Crypto.{Crypto}
use los_cara.Auth.Verify.{AuthResult, Seconds}
use los_cara.Auth.Verify.Sound.{IsAuthentic, verify_request-IsAuthentic}
use los_cara.S3.Request.{parse_query}
use los_cara.S3.Http.Headers.{header-inserted}
use los_cara.S3.Http.{Http, Response, error_response, insert_header}
use los_cara.S3.Payload.{observe, initial_state, decoder_of}
use los_cara.S3.Server.{
  Incoming, verified_of, entry, verification, admit, authenticate, request_id_and_log,
}

-- The first value under a name.
abbrev pub header_of : String → Response → Option Text
header_of name r = map_get text_eq (codes name) r.headers

module _ (http : Http) (env : Env) (crypto : Crypto) (root : FilePath)
    (secrets : Text → Option Text) (seconds_since : Text → Option Seconds) (req : Incoming)
    (request_id : Text) (w : World) where
  -- The request is signed with the secret of a known access key, over its method, path, query and
  -- headers.
  abbrev pub IsSigned : AuthResult → Type 0
  IsSigned =
      IsAuthentic crypto http.percent secrets seconds_since req.method req.raw_path
        (parse_query http.percent.decode req.query) (λ name. map_get text_eq name req.headers)

  -- A request is answered with an error and changes nothing, or it is signed with the secret of a
  -- known access key, and its answer is that of the handlers over the body that the middleware
  -- observes.
  pub authenticate-IsAuthentic :
      ((e : S3Error) × (authenticate http env crypto root secrets seconds_since req request_id w
          ≡ (done (error_response http e req.raw_path request_id), w)))
      ⊎ ((r : AuthResult) × IsSigned r
          × (authenticate http env crypto root secrets seconds_since req request_id w
              ≡ entry http env crypto root req
                  (observe crypto
                    (decoder_of (verified_of r))
                    (initial_state (verified_of r))
                    req.body)
                  request_id
                  w))
  unfolding authenticate admit pure
  authenticate-IsAuthentic =
      by_result (verification http env crypto root secrets seconds_since req) refl
    where
      by_result :
          (v : Result S3Error AuthResult)
          → verification http env crypto root secrets seconds_since req ≡ v
          → ((e : S3Error) × (admit http env crypto root secrets seconds_since req request_id v w
                ≡ (done (error_response http e req.raw_path request_id), w)))
            ⊎ ((r : AuthResult) × IsSigned r
                × (admit http env crypto root secrets seconds_since req request_id v w
                    ≡ entry http env crypto root req
                        (observe crypto
                          (decoder_of (verified_of r))
                          (initial_state (verified_of r))
                          req.body)
                        request_id
                        w))
      by_result (err e) h = inl (e, refl)
      by_result (ok r) h = inr (
        r,
        verify_request-IsAuthentic crypto http.percent secrets seconds_since req.method req.raw_path
            (parse_query http.percent.decode req.query) (λ name. map_get text_eq name req.headers) r
            h,
        refl,
      )

  -- A response carries a request id, and that is the uuid that the request drew.
  pub request_id_and_log-carries :
      (r : Response) (w' : World)
      → request_id_and_log http env crypto root secrets seconds_since req w ≡ (done r, w')
      → header_of "x-amz-request-id" r ≡ some (env.uuid w.draws)
  unfolding request_id_and_log draw pure insert_header
  request_id_and_log-carries r w' ran =
      let (n, w₁, drawn, rest) = bind-done _ _ w w' r ran in
      let (res, w₂, answered, ends) = bind-done _ _ w₁ w' r rest in
      let same : record res { headers = insert_header "x-amz-request-id" (env.uuid n) res.headers }
          ≡ r =
        cc in
      let drew : n ≡ w.draws = cc in
      subst (λ (x : Response). header_of "x-amz-request-id" x ≡ some (env.uuid w.draws)) same
        (header-inserted (codes "x-amz-request-id") (env.uuid n) res.headers
          ∙ ap (λ k. some (env.uuid k)) drew)
