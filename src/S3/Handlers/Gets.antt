-- ===== src/S3/Handlers/Gets.antt =====
-- What the handlers of src/s3.rs answer for an object that a PUT stored, or failed to store.
use los_cara.Base.{◌≡◌, refl, ◌∙◌, ap, Bool, none, some, [], Text, if◌then◌else◌}
use los_cara.Error
use los_cara.Error.{S3Error, Result, ok, err}
use los_cara.Storage.Fs.{FilePath, file, lookup, child}
use los_cara.Storage.Io.{World, done, failed, catch, raise, pure, ignore, ◌>>=◌, ◌>>◌}
use los_cara.Storage.Types.{Env, ObjectMeta, PutResult}
use los_cara.Storage.Names.{meta_name, bucket_dir, object_dir}
use los_cara.Storage.Objects
use los_cara.Storage.Runs.{Runs, bind_at, ignore_at}
use los_cara.Storage.Atomic.Laws.{IsLawful}
use los_cara.Storage.Atomic.Put.{IsFresh}
use los_cara.Storage.Atomic.Receive.{payload}
use los_cara.Storage.Atomic.GetObject.{head_object-put_object, get_object-put_object}
use los_cara.Storage.Atomic.Deletes.{delete_object-put_object}
use los_cara.S3.Conditions
use los_cara.S3.Conditions.{Conditional, evaluate_conditions, precondition, is_unmodified}
use los_cara.S3.Range.{ignored}
use los_cara.S3.Http.{Http, RequestHeaders, Response, header_opt, user_metadata}
use los_cara.S3.Payload.{Payload, boxed, check_body_state}
use los_cara.S3.Handlers.Objects.{
  content_type_of, conditional_of, noted, stored_response, served_headers, serve, serve_range,
  with_conditions, look_up, range_in, answer_put, finish_put, put_object, get_object,
}
use los_cara.S3.Handlers.Puts.{stored, put_object-accepts}

-- The request has no condition.
pub record IsUnconditional (headers : RequestHeaders) : Type 0 where
  pub no_match : header_opt headers "if-match" ≡ none
  pub no_none_match : header_opt headers "if-none-match" ≡ none
  pub no_modified : header_opt headers "if-modified-since" ≡ none
  pub no_unmodified : header_opt headers "if-unmodified-since" ≡ none

-- The request has no condition and asks for no range.
pub record IsPlain (headers : RequestHeaders) : Type 0 where
  pub no_match : header_opt headers "if-match" ≡ none
  pub no_none_match : header_opt headers "if-none-match" ≡ none
  pub no_modified : header_opt headers "if-modified-since" ≡ none
  pub no_unmodified : header_opt headers "if-unmodified-since" ≡ none
  pub no_range : header_opt headers "range" ≡ none

pub goes_on :
    (http : Http) (headers : RequestHeaders) (meta : ObjectMeta)
    → IsUnconditional headers
    → evaluate_conditions http.parse_date (conditional_of headers) meta ≡ ok Conditions.go_on
unfolding evaluate_conditions precondition is_unmodified
goes_on http headers meta free =
    rw (free.no_match, free.no_none_match, free.no_modified, free.no_unmodified) refl

pub look_up_at :
    (http : Http) (env : Env) (root : FilePath) (bucket key : Text) (w : World) (meta : ObjectMeta)
    → Objects.head_object env root bucket key w ≡ (done meta, w)
    → (head_only : Bool) → look_up http env root bucket key head_only w ≡ (done (ok meta), w)
unfolding look_up ◌>>=◌ catch pure
look_up_at http env root bucket key w meta seen head_only = rw seen refl

module _ (http : Http) (headers : RequestHeaders) (plain : IsPlain headers) where
  unconditional : IsUnconditional headers
  unconditional = record {
    no_match = plain.no_match;
    no_none_match = plain.no_none_match;
    no_modified = plain.no_modified;
    no_unmodified = plain.no_unmodified;
  }

  whole_asked :
      (env : Env) (root : FilePath) (meta : ObjectMeta)
      → range_in http env root headers meta ≡ ignored
  whole_asked env root meta = rw (range_in, plain.no_range) refl

  module _ (env : Env) (root : FilePath) (bucket key : Text) (w : World) (meta : ObjectMeta)
      (content : Text) (seen : Objects.head_object env root bucket key w ≡ (done meta, w))
      (read : Objects.get_object env root bucket key w ≡ (done (meta, content), w)) where
    abbrev answer : Bool → Response
    answer head_only = record {
      status = 200;
      headers = served_headers http meta none [];
      body = if head_only then [] else content;
    }

    serve_at :
        (head_only : Bool)
        → Runs (serve http env root bucket key head_only none []) w (done (answer head_only), w)
    unfolding serve pure
    serve_at head_only = bind_at _ _ (record { at = read }) (record { at = refl })

    get_object_at :
        (head_only : Bool)
        → Runs
            (get_object http env root bucket key headers head_only)
            w
            (done (answer head_only), w)
    unfolding get_object with_conditions serve_range
    get_object_at head_only =
        bind_at _ _ (record { at = look_up_at http env root bucket key w meta seen head_only })
          (record {
            at =
                ap (λ c. with_conditions http env root bucket key headers head_only meta c w)
                  (goes_on http headers meta unconditional)
                ∙ ap (λ r. serve_range http env root bucket key head_only meta r w)
                    (whole_asked env root meta)
                ∙ (serve_at head_only).at;
          })

module _ (http : Http) (env : Env) (law : IsLawful env) (root : FilePath) (bucket key : Text)
    (headers : RequestHeaders) (p : Payload) (w w' : World)
    (fresh : IsFresh env root (object_dir env root bucket key) w.draws w.fs) (b : Text)
    (there : lookup (child (bucket_dir root bucket) meta_name) w.fs ≡ some (file b)) where
  -- Under the promises of the crates, where the bucket's metadata is a file, no file stands under a
  -- uuid that is still to be drawn, and no call after the PUT fails: once a PUT is answered without
  -- an error, a GET without conditions and without a range is answered with status 200 and the whole
  -- body of the PUT, and a HEAD with the same headers and no body. The headers are those of metadata
  -- that has the etag of the answer to the PUT.
  pub serves_what_was_put :
      (asked : RequestHeaders) (r : Response) (head_only : Bool)
      → IsPlain asked
      → put_object http env root bucket key headers p w ≡ (done r, w')
      → (meta : ObjectMeta) × (r ≡ stored_response http env root meta.etag)
        × (get_object http env root bucket key asked head_only (record w' { io = [] }) ≡ (
          done (record {
            status = 200;
            headers = served_headers http meta none [];
            body = if head_only then [] else payload (boxed http p.body);
          }),
          record w' { io = [] },
        ))
  serves_what_was_put asked r head_only plain ran =
      let (put, kept, accepted, answer) =
        put_object-accepts http env root bucket key headers p w w' r ran in
      (
        put.meta,
        answer,
        (get_object_at http asked plain env root bucket key (record w' { io = [] }) put.meta
            (payload (boxed http p.body))
            (head_object-put_object env law root bucket key (boxed http p.body)
              (content_type_of headers) (user_metadata headers) w w' put fresh kept b there)
            (get_object-put_object env law root bucket key (boxed http p.body)
              (content_type_of headers) (user_metadata headers) w w' put fresh kept b there)
            head_only).at,
      )

  refused :
      (e : S3Error) (w₁ : World)
      → Objects.delete_object env root bucket key w' ≡ (done tt, w₁)
      → Runs
          (do ignore (Objects.delete_object env root bucket key); raise {A = Response} e)
          w'
          (failed e, w₁)
  unfolding raise
  refused e w₁ deleted = bind_at _ _ (ignore_at (record { at = deleted })) (record { at = refl })

  mismatch :
      (put : PutResult) (e : S3Error) (w₁ : World)
      → stored http env root bucket key headers p w w' w ≡ (done put, w')
      → check_body_state env (noted http env root headers p.state) (some put) ≡ err e
      → Objects.delete_object env root bucket key w' ≡ (done tt, w₁)
      → Runs (put_object http env root bucket key headers p) w (failed e, w₁)
  unfolding put_object finish_put answer_put catch raise
  mismatch put e w₁ kept bad deleted =
      bind_at _ _ (record { at = rw kept refl })
        (record {
          at =
              ap (λ c. answer_put http env root bucket key put c w') bad
              ∙ (refused e w₁ deleted).at;
        })

  -- Under the same promises, and where no call fails once the body is stored: a PUT whose hash is not
  -- the one that the request gives reports that error, and then there is no object under the key,
  -- whether there was one before or not.
  pub put_object-mismatch_loses :
      (put : PutResult) (e : S3Error)
      → stored http env root bucket key headers p w w' w ≡ (done put, w')
      → w'.io ≡ []
      → check_body_state env (noted http env root headers p.state) (some put) ≡ err e
      → (w₁ : World) × (put_object http env root bucket key headers p w ≡ (failed e, w₁))
        × (Objects.head_object env root bucket key w₁ ≡ (failed (Error.no_such_key key), w₁))
  put_object-mismatch_loses put e kept quiet bad =
      let (w₁, gone, none_left) =
        delete_object-put_object env law root bucket key (boxed http p.body)
          (content_type_of headers) (user_metadata headers) w w' put fresh kept b there in
      let deleted : Objects.delete_object env root bucket key w' ≡ (done tt, w₁) =
        ap (λ i. Objects.delete_object env root bucket key (record w' { io = i })) quiet ∙ gone in
      (w₁, (mismatch put e w₁ kept bad deleted).at, none_left)
