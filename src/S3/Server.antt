-- ===== src/S3/Server.antt =====
-- `authenticate` and `entry` of src/s3.rs, and the handler that `dispatch` picks, run.
pub mod Answers
use los_cara.Base.{
  Bool, true, false, Option, none, some, List, [], Text, codes, text_eq, map_get, if◌then◌else◌,
}
use los_cara.Error.{S3Error, Result, ok, err}
use los_cara.Storage.Fs.{FilePath}
use los_cara.Storage.Io.{M, pure, raise, catch, draw, ◌>>=◌}
use los_cara.Storage.Types.{Env}
use los_cara.Auth.Crypto.{Crypto}
use los_cara.Auth.Verify
use los_cara.Auth.Verify.{Verified, AuthResult, Seconds, verify_request}
use los_cara.S3.Request.{Method, get, head, put, post, delete, other, Query, Request, parse_query}
use los_cara.S3.Dispatch
use los_cara.S3.Dispatch.{Route, dispatch}
use los_cara.S3.Http.{Http, RequestHeaders, Response, error_response, header_opt, insert_header}
use los_cara.S3.Payload.{Payload, observe, initial_state, decoder_of}
use los_cara.S3.Handlers.Buckets
use los_cara.S3.Handlers.Objects
use los_cara.S3.Handlers.Uploads

-- A request as it arrives: its body is the chunks that the connection yields, or the text of its
-- error.
pub record Incoming : Type 0 where
  pub method : Text
  pub raw_path : Text
  pub query : Text
  pub headers : RequestHeaders
  pub body : List (Result Text Text)

abbrev pub method_of : Text → Method
method_of m =
    if text_eq m (codes "GET")
    then get
    else if text_eq m (codes "HEAD")
    then head
    else if text_eq m (codes "PUT")
    then put
    else if text_eq m (codes "POST")
    then post
    else if text_eq m (codes "DELETE")
    then delete
    else other

abbrev is_given : Option (Option Text) → Bool
is_given none = false
is_given (some v) = true

-- What `dispatch` reads.
abbrev pub request_of : Incoming → Request
request_of req = record {
  method = method_of req.method;
  path = req.raw_path;
  query = req.query;
  host = header_opt req.headers "host";
  copy_source = is_given (map_get text_eq (codes "x-amz-copy-source") req.headers);
}

abbrev pub verified_of : AuthResult → Verified
verified_of (Verify.header v) = v
verified_of (Verify.presigned v) = v

module _ (http : Http) (env : Env) (crypto : Crypto) (root : FilePath) where
  -- The call of the handler.
  unfoldable pub handle : Route → Query → RequestHeaders → Payload → M S3Error Response
  handle Dispatch.list_buckets query headers payload = Buckets.list_buckets http env root
  handle (Dispatch.create_bucket b) query headers payload =
      Buckets.create_bucket http env root b payload
  handle (Dispatch.delete_bucket b) query headers payload = Buckets.delete_bucket http env root b
  handle (Dispatch.head_bucket b) query headers payload = Buckets.head_bucket http env root b
  handle (Dispatch.bucket_get b) query headers payload = Buckets.bucket_get http env root b query
  handle (Dispatch.delete_objects b) query headers payload =
      Objects.delete_objects http env root b payload
  handle (Dispatch.copy_object b k) query headers payload =
      Objects.copy_object http env root b k headers
  handle (Dispatch.put_object b k) query headers payload =
      Objects.put_object http env root b k headers payload
  handle (Dispatch.list_parts b k) query headers payload = Uploads.list_parts http env root query
  handle (Dispatch.delete_object b k) query headers payload =
      Objects.delete_object http env root b k
  handle (Dispatch.create_multipart b k) query headers payload =
      Uploads.create_multipart http env root b k headers
  handle (Dispatch.get_object b k head_only) query headers payload =
      Objects.get_object http env root b k headers head_only
  handle (Dispatch.abort_multipart b k u) query headers payload =
      Uploads.abort_multipart http env root u
  handle (Dispatch.complete_multipart b k u) query headers payload =
      Uploads.complete_multipart http env root b u payload
  handle (Dispatch.upload_part_copy b k u n) query headers payload =
      Uploads.upload_part_copy http env root u n headers
  handle (Dispatch.upload_part b k u n) query headers payload =
      Uploads.upload_part http env root u n payload

  -- `dispatch`, with the handler.
  unfoldable pub run_route :
      Result S3Error Route → Query → RequestHeaders → Payload → M S3Error Response
  unfolding handle
  run_route (err e) query headers payload = raise e
  run_route (ok route) query headers payload = handle route query headers payload

  -- Every error becomes a response. Its resource is empty, as `resource_from_error` says.
  unfoldable pub entry : Incoming → Payload → Text → M S3Error Response
  unfolding run_route
  entry req payload request_id =
      catch
        (run_route (dispatch http.percent.decode (request_of req))
          (parse_query http.percent.decode req.query) req.headers payload)
        (λ e. pure (error_response http e [] request_id))

  -- `secrets` is what `lookup` of the store answers, and `seconds_since` chrono's difference of a
  -- date to the present.
  module _ (secrets : Text → Option Text) (seconds_since : Text → Option Seconds) where
    abbrev pub verification : Incoming → Result S3Error AuthResult
    verification req =
        verify_request crypto http.percent secrets seconds_since req.method req.raw_path
          (parse_query http.percent.decode req.query) (λ name. map_get text_eq name req.headers)

    unfoldable pub admit : Incoming → Text → Result S3Error AuthResult → M S3Error Response
    unfolding entry observe initial_state decoder_of
    admit req request_id (err e) = pure (error_response http e req.raw_path request_id)
    admit req request_id (ok r) =
        entry req
          (observe crypto (decoder_of (verified_of r)) (initial_state (verified_of r)) req.body)
          request_id

    unfoldable pub authenticate : Incoming → Text → M S3Error Response
    unfolding admit
    authenticate req request_id = admit req request_id (verification req)

    -- `request_id_and_log`, without the log. The id is the uuid that is drawn.
    unfoldable pub request_id_and_log : Incoming → M S3Error Response
    unfolding authenticate
    request_id_and_log req = do
      n ← draw
      res ← authenticate req (env.uuid n)
      pure (record res { headers = insert_header "x-amz-request-id" (env.uuid n) res.headers })
