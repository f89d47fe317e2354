-- ===== src/S3/Handlers/Buckets.antt =====
-- The handlers of buckets in src/s3.rs.
use los_cara.Base.{
  ℕ, ◌*◌, not, Option, none, some, List, [], ◌∷◌, find, Text, codes, text_eq, if◌then◌else◌,
}
use los_cara.Error
use los_cara.Error.{S3Error, Result, ok, err}
use los_cara.Xml
use los_cara.Xml.{Xml, Escape, xmlns_s3}
use los_cara.Xml.Tree.{XmlNode}
use los_cara.Xml.Parse.{parse}
use los_cara.Storage.Fs.{FilePath}
use los_cara.Storage.Io.{M, pure, raise, ◌>>=◌, ◌>>◌}
use los_cara.Storage.Types.{Env, MultipartManifest}
use los_cara.Storage.Json.{lift}
use los_cara.Storage.Buckets
use los_cara.Storage.Multipart.Uploads
use los_cara.S3.Request.{Query, has, get_q}
use los_cara.S3.Document.{◌▷◌, each, rooted, opened, leaf, closed, identity, person}
use los_cara.S3.Http.{Http, Response, xml_response, insert_header, xml_date}
use los_cara.S3.Payload.{Payload}
use los_cara.S3.Handlers.Objects.{whole_body}
use los_cara.S3.Handlers.Lists.{list_objects_v1, list_objects_v2}

-- The subresources that are answered for any bucket.
abbrev pub neutral_names : List Text
neutral_names =
    codes "versioning"
    ∷ codes "acl"
    ∷ codes "cors"
    ∷ codes "lifecycle"
    ∷ codes "tagging"
    ∷ codes "website"
    ∷ codes "encryption"
    ∷ codes "policy"
    ∷ codes "object-lock"
    ∷ codes "notification"
    ∷ codes "replication"
    ∷ codes "logging"
    ∷ codes "requestPayment"
    ∷ codes "accelerate"
    ∷ []

-- A body that is there has to be a document.
unfoldable pub well_formed : Text → Option XmlNode → Result S3Error (Unit {0})
well_formed [] root = ok tt
well_formed (c ∷ s) none = err Error.malformed_xml
well_formed (c ∷ s) (some root) = ok tt

module _ (escape : Escape) where
  unfoldable pub location_document : Text
  location_document = Xml.finish (rooted escape "LocationConstraint" ▷ closed "LocationConstraint")

  unfoldable pub acl_document : Text
  acl_document = Xml.finish (
      rooted escape "AccessControlPolicy"
      ▷ person escape "Owner"
      ▷ opened escape "AccessControlList"
      ▷ opened escape "Grant"
      ▷ Xml.open_tag escape (codes "Grantee") (
          (codes "xmlns:xsi", codes "http://www.w3.org/2001/XMLSchema-instance")
          ∷ (codes "xsi:type", codes "CanonicalUser")
          ∷ [])
      ▷ identity escape
      ▷ closed "Grantee"
      ▷ leaf escape "Permission" (codes "FULL_CONTROL")
      ▷ closed "Grant"
      ▷ closed "AccessControlList"
      ▷ closed "AccessControlPolicy")

  unfoldable pub neutral_bucket_response : Text → Response
  unfolding location_document acl_document
  neutral_bucket_response sub =
      xml_response 200
        (if text_eq sub (codes "versioning")
          then Xml.finish
              (rooted escape "VersioningConfiguration" ▷ closed "VersioningConfiguration")
          else if text_eq sub (codes "location")
          then location_document
          else if text_eq sub (codes "acl")
          then acl_document
          else [])
        []

module _ (http : Http) (env : Env) (root : FilePath) where
  abbrev write_bucket : Text × ℕ → Xml → Xml
  write_bucket (name, created) x =
      x
      ▷ opened http.escape "Bucket"
      ▷ leaf http.escape "Name" name
      ▷ leaf http.escape "CreationDate" (xml_date http created)
      ▷ closed "Bucket"

  unfoldable pub list_buckets : M S3Error Response
  unfolding each
  list_buckets = do
    buckets ← Buckets.list_buckets env root
    pure (
        xml_response 200
          (Xml.finish (
            rooted http.escape "ListAllMyBucketsResult"
            ▷ person http.escape "Owner"
            ▷ opened http.escape "Buckets"
            ▷ each write_bucket buckets
            ▷ closed "Buckets"
            ▷ closed "ListAllMyBucketsResult"))
          [])

  -- The same response whether the bucket is new or was there. Its name is valid, and so a header
  -- value.
  unfoldable pub create_bucket : Text → Payload → M S3Error Response
  unfolding well_formed whole_body
  create_bucket bucket payload = do
    body ← lift (whole_body http (1024 * 1024) payload.body)
    lift (well_formed body (parse (http.read_events body)))
    Buckets.create_bucket env root bucket
    pure (xml_response 200 [] (insert_header "location" (b'/' ∷ bucket) []))

  unfoldable pub delete_bucket : Text → M S3Error Response
  delete_bucket bucket = do Buckets.delete_bucket env root bucket; pure (xml_response 204 [] [])

  unfoldable pub head_bucket : Text → M S3Error Response
  head_bucket bucket = do
    Buckets.bucket_created env root bucket
    pure (xml_response 200 [] (insert_header "x-amz-bucket-region" (codes "us-east-1") []))

  abbrev write_upload : MultipartManifest → Xml → Xml
  write_upload m x =
      x
      ▷ opened http.escape "Upload"
      ▷ leaf http.escape "Key" m.key
      ▷ leaf http.escape "UploadId" m.upload_id
      ▷ person http.escape "Initiator"
      ▷ person http.escape "Owner"
      ▷ leaf http.escape "StorageClass" (codes "STANDARD")
      ▷ leaf http.escape "Initiated" (xml_date http m.initiated)
      ▷ closed "Upload"

  unfoldable pub list_multipart_uploads : Text → M S3Error Response
  unfolding each
  list_multipart_uploads bucket = do
    uploads ← Uploads.list_multipart_uploads env root bucket
    pure (
        xml_response 200
          (Xml.finish (
            rooted http.escape "ListMultipartUploadsResult"
            ▷ leaf http.escape "Bucket" bucket
            ▷ leaf http.escape "KeyMarker" []
            ▷ leaf http.escape "UploadIdMarker" []
            ▷ leaf http.escape "MaxUploads" (codes "1000")
            ▷ leaf http.escape "IsTruncated" (codes "false")
            ▷ each write_upload uploads
            ▷ closed "ListMultipartUploadsResult"))
          [])

  -- The two listings; the second is asked for by `list-type=2`.
  abbrev list_objects : Text → Query → M S3Error Response
  list_objects bucket query = elim (get_q (codes "list-type") query) [
    | none ↦ list_objects_v1 http env root bucket query
    | some kind ↦
        if text_eq kind (codes "2")
        then list_objects_v2 http env root bucket query
        else list_objects_v1 http env root bucket query
  ]

  unfoldable pub bucket_get : Text → Query → M S3Error Response
  unfolding neutral_bucket_response list_multipart_uploads
  bucket_get bucket query = do
    there ← Buckets.bucket_exists env root bucket
    if not there
        then raise (Error.no_such_bucket bucket)
        else elim (find (λ sub. has sub query) neutral_names) [
          | some sub ↦ pure (neutral_bucket_response http.escape sub)
          | none ↦
              if has (codes "location") query
              then pure (xml_response 200 (location_document http.escape) [])
              else if has (codes "uploads") query
              then list_multipart_uploads bucket
              else list_objects bucket query
        ]
