-- ===== src/S3/Handlers/Objects.antt =====
-- The handlers of objects in src/s3.rs: put, get and head, delete, the deletion of many, and copy.
use los_cara.Base.{
  ℕ, ◌+◌, ◌-◌, ◌*◌, Bool, false, ◌&&◌, ◌||◌, not, Option, none, some, List, [], ◌∷◌, ◌++◌, length,
  map, ltb, Text, codes, text_eq, split, split_once, strip_prefix, lower_byte, if◌then◌else◌,
}
use los_cara.Error
use los_cara.Error.{S3Error, Result, ok, err}
use los_cara.Xml
use los_cara.Xml.{Xml}
use los_cara.Xml.Tree.{XmlNode, tag, find_all, text_of}
use los_cara.Xml.Parse.{parse}
use los_cara.Storage.Fs.{FilePath}
use los_cara.Storage.Io.{M, pure, raise, catch, ignore, ◌>>=◌, ◌>>◌}
use los_cara.Storage.Types.{Env, Metadata, ObjectMeta, PutResult}
use los_cara.Storage.Json.{lift}
use los_cara.Storage.Objects
use los_cara.Storage.Objects.{Body}
use los_cara.Storage.Copy
use los_cara.Storage.Multipart.{decimal}
use los_cara.S3.Request.{decoded}
use los_cara.S3.Range.{RangeParse, valid, invalid, ignored, parse_range}
use los_cara.S3.Conditions
use los_cara.S3.Conditions.{Conditional, evaluate_conditions}
use los_cara.S3.Document.{◌▷◌, rooted, opened, leaf, closed, written_if}
use los_cara.S3.Http.{
  Http, RequestHeaders, HeaderMap, Response, xml_response, insert_header, header_opt, user_metadata,
  content_md5_hex, object_headers, or_else, quoted, xml_date,
}
use los_cara.S3.Payload.{BodyState, Payload, boxed, surfaced, check_body_state}

-- `header_opt(headers, "content-type").unwrap_or_else(…)`.
unfoldable pub content_type_of : RequestHeaders → Text
unfolding header_opt
content_type_of headers = or_else (codes "binary/octet-stream") (header_opt headers "content-type")

abbrev pub conditional_of : RequestHeaders → Conditional
conditional_of headers = record {
  if_match = header_opt headers "if-match";
  if_none_match = header_opt headers "if-none-match";
  if_modified_since = header_opt headers "if-modified-since";
  if_unmodified_since = header_opt headers "if-unmodified-since";
}

-- The codes of the errors that a HEAD answers with their status alone.
abbrev pub is_missing : S3Error → Bool
is_missing e =
    text_eq (codes e.code) (codes "NoSuchBucket") || text_eq (codes e.code) (codes "NoSuchKey")

-- The bytes `start-end/size`.
unfoldable pub content_range : ℕ → ℕ → ℕ → Text
unfolding decimal
content_range start len size =
    codes "bytes "
    ++ (decimal start ++ (b'-' ∷ (decimal (start + len - 1) ++ (b'/' ∷ decimal size))))

abbrev pub first_of : List Text → Text
first_of [] = []
first_of (s ∷ ss) = s

-- `decoded.strip_prefix('/').unwrap_or(&decoded)`.
abbrev pub without_slash : Text → Text
without_slash s = elim (strip_prefix (b'/' ∷ []) s) [ none ↦ s | some rest ↦ rest ]

-- The bucket and the key that `x-amz-copy-source` names.
unfoldable pub copy_source_of : (Text → Option Text) → RequestHeaders → Result S3Error (Text × Text)
copy_source_of percent_decode headers = elim (header_opt headers "x-amz-copy-source") [
  | none ↦ err (Error.invalid_argument (codes "missing x-amz-copy-source"))
  | some source ↦
      elim (split_once b'/'
        (without_slash (decoded percent_decode (first_of (split b'?' source))))) [
          | none ↦ err (Error.invalid_argument (codes "x-amz-copy-source must be bucket/key"))
          | some parts ↦ ok parts
        ]
]

-- What replaces the metadata of the source of a copy.
unfoldable pub replacement : RequestHeaders → Option (Text × Metadata)
replacement headers =
    let directive = or_else [] (header_opt headers "x-amz-metadata-directive") in
    if text_eq (map lower_byte directive) (map lower_byte (codes "REPLACE"))
    then some (content_type_of headers, user_metadata headers)
    else none

-- `filter_map(|o| o.text_of("Key"))`.
unfoldable pub keys_of : List XmlNode → List Text
keys_of [] = []
keys_of (o ∷ os) = elim (text_of o (codes "Key")) [
  | none ↦ keys_of os
  | some key ↦ key ∷ keys_of os
]

-- At most 1000 keys.
unfoldable pub limited : List Text → Bool → Result S3Error (List Text × Bool)
limited keys quiet =
    if ltb 1000 (length keys)
    then err (Error.invalid_argument (codes "Delete list must not exceed 1000 keys"))
    else ok (keys, quiet)

-- The keys that a request for the deletion of many lists, and whether it asks for a short answer.
unfoldable pub delete_list : Option XmlNode → Result S3Error (List Text × Bool)
unfolding limited
delete_list none = err Error.malformed_xml
delete_list (some root) =
    if not (text_eq (tag root) (codes "Delete"))
    then err Error.malformed_xml
    else limited (keys_of (find_all root (codes "Object")))
        (elim (text_of root (codes "Quiet")) [ none ↦ false | some q ↦ text_eq q (codes "true") ])

module _ (http : Http) where
  -- `to_bytes(…).map_err(…)`.
  unfoldable pub whole_body : ℕ → Body → Result S3Error Text
  whole_body limit body = elim (http.to_bytes limit body) [
    | ok s ↦ ok s
    | err e ↦ err (Error.internal e)
  ]

  -- The headers of a response that carries an object; `range` is the start and the length.
  unfoldable pub served_headers : ObjectMeta → Option (ℕ × ℕ) → HeaderMap → HeaderMap
  unfolding insert_header object_headers decimal
  served_headers meta none range_headers =
      insert_header "content-length" (decimal meta.size) (object_headers http meta) ++ range_headers
  served_headers meta (some (start, len)) range_headers =
      insert_header "content-length" (decimal len) (object_headers http meta) ++ range_headers

  module _ (env : Env) (root : FilePath) where
    -- The entity tag of a stored body.
    abbrev pub stored_response : Text → Response
    stored_response etag = xml_response 200 [] (insert_header "etag" (quoted etag) [])

    -- `content_md5_hex` set in the state.
    abbrev pub noted : RequestHeaders → BodyState → BodyState
    noted headers st = elim (content_md5_hex http env headers) [
      | none ↦ st
      | some md5hex ↦ record st { content_md5_hex = some md5hex }
    ]

    -- What follows once the engine has stored the body: the object is deleted where a hash differs.
    unfoldable pub answer_put :
        Text → Text → PutResult → Result S3Error (Unit {0}) → M S3Error Response
    answer_put bucket key put (ok _) = pure (stored_response put.meta.etag)
    answer_put bucket key put (err e) = do
      ignore (Objects.delete_object env root bucket key)
      raise e

    unfoldable pub finish_put : Text → Text → BodyState → PutResult → M S3Error Response
    unfolding answer_put
    finish_put bucket key st put = answer_put bucket key put (check_body_state env st (some put))

    unfoldable pub put_object : Text → Text → RequestHeaders → Payload → M S3Error Response
    unfolding finish_put
    put_object bucket key headers payload = do
      let st = noted headers payload.state
      put ←
          catch
            (Objects.put_object env root bucket key (boxed http payload.body)
              (content_type_of headers) (user_metadata headers))
            (λ e. raise (surfaced http st e))
      finish_put bucket key st put

    -- The object, whole or a part of it; a HEAD has no body.
    unfoldable pub serve : Text → Text → Bool → Option (ℕ × ℕ) → HeaderMap → M S3Error Response
    serve bucket key head_only none range_headers = do
      got ← Objects.get_object env root bucket key
      pure (record {
        status = 200;
        headers = served_headers got.0 none range_headers;
        body = if head_only then [] else got.1;
      })
    serve bucket key head_only (some (start, len)) range_headers = do
      got ← Objects.get_object_range env root bucket key start (some len)
      pure (record {
        status = 206;
        headers = served_headers got.0 (some (start, len)) range_headers;
        body = if head_only then [] else got.1;
      })

    unfoldable pub serve_range : Text → Text → Bool → ObjectMeta → RangeParse → M S3Error Response
    unfolding serve
    serve_range bucket key head_only meta (valid start len) =
        serve bucket key head_only (some (start, len))
          (insert_header "content-range" (content_range start len meta.size) [])
    serve_range bucket key head_only meta invalid = raise Error.invalid_range
    serve_range bucket key head_only meta ignored = serve bucket key head_only none []

    -- The range that the header asks for.
    abbrev pub range_in : RequestHeaders → ObjectMeta → RangeParse
    range_in headers meta = elim (header_opt headers "range") [
      | none ↦ ignored
      | some h ↦ parse_range h meta.size
    ]

    unfoldable pub with_conditions :
        Text
        → Text
        → RequestHeaders
        → Bool
        → ObjectMeta
        → Result S3Error Conditions.Verdict
        → M S3Error Response
    unfolding serve_range
    with_conditions bucket key headers head_only meta (err e) = raise e
    with_conditions bucket key headers head_only meta (ok Conditions.not_modified) =
        pure (xml_response 304 [] [])
    with_conditions bucket key headers head_only meta (ok Conditions.go_on) =
        serve_range bucket key head_only meta (range_in headers meta)

    -- The metadata, or the response that ends the handler.
    unfoldable pub look_up : Text → Text → Bool → M S3Error (Result Response ObjectMeta)
    look_up bucket key head_only =
        catch (do meta ← Objects.head_object env root bucket key; pure (ok meta))
          λ e.
            if is_missing e && head_only then pure (err (xml_response e.status [] [])) else raise e

    unfoldable pub get_object : Text → Text → RequestHeaders → Bool → M S3Error Response
    unfolding look_up with_conditions
    get_object bucket key headers head_only = do
      looked ← look_up bucket key head_only
      elim looked [
        | err response ↦ pure response
        | ok meta ↦
            with_conditions bucket key headers head_only meta
              (evaluate_conditions http.parse_date (conditional_of headers) meta)
      ]

    unfoldable pub delete_object : Text → Text → M S3Error Response
    delete_object bucket key = do
      Objects.delete_object env root bucket key
      pure (xml_response 204 [] [])

    -- One turn of the loop of `delete_objects`.
    unfoldable pub delete_one : Text → Bool → Text → Xml → M S3Error Xml
    delete_one bucket quiet key doc =
        catch
          (do
            Objects.delete_object env root bucket key
            pure (
                written_if (not quiet)
                  (λ x.
                    x
                    ▷ opened http.escape "Deleted"
                    ▷ leaf http.escape "Key" key
                    ▷ closed "Deleted")
                  doc))
          λ e. pure (doc ▷ opened http.escape "Error" ▷ leaf http.escape "Key" key ▷ closed "Error")

    unfoldable pub delete_each : Text → Bool → List Text → Xml → M S3Error Xml
    unfolding delete_one
    delete_each bucket quiet [] doc = pure doc
    delete_each bucket quiet (key ∷ keys) doc = do
      doc' ← delete_one bucket quiet key doc
      delete_each bucket quiet keys doc'

    -- What the body lists, or the error that ends the handler.
    unfoldable pub asked_for : Payload → Result S3Error (List Text × Bool)
    unfolding whole_body delete_list
    asked_for payload = elim (whole_body (4 * 1024 * 1024) payload.body) [
      | err e ↦ err e
      | ok body ↦ delete_list (parse (http.read_events body))
    ]

    -- The loop and the document.
    unfoldable pub delete_asked : Text → List Text × Bool → M S3Error Response
    unfolding delete_each
    delete_asked bucket asked = do
      doc ← delete_each bucket asked.1 asked.0 (rooted http.escape "DeleteResult")
      pure (xml_response 200 (Xml.finish (doc ▷ closed "DeleteResult")) [])

    unfoldable pub delete_objects : Text → Payload → M S3Error Response
    unfolding asked_for delete_asked
    delete_objects bucket payload = do asked ← lift (asked_for payload); delete_asked bucket asked

    unfoldable pub copy_object : Text → Text → RequestHeaders → M S3Error Response
    copy_object bucket key headers = do
      source ← lift (copy_source_of http.percent.decode headers)
      meta ← Copy.copy_object env root source.0 source.1 bucket key (replacement headers)
      pure (
          xml_response 200
            (Xml.finish (
              rooted http.escape "CopyObjectResult"
              ▷ leaf http.escape "ETag" (quoted meta.etag)
              ▷ leaf http.escape "LastModified" (xml_date http meta.last_modified)
              ▷ closed "CopyObjectResult"))
            [])
