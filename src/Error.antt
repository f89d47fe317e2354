-- ===== src/Error.antt =====
-- src/error.rs: the error values of the server and the XML document that reports one.
-- `code` is a static ASCII name, so it is a native text; `message` holds user text, so it is bytes.

use los_cara.Base.{ℕ, String, ◌++◌, Text, codes, [], ◌∷◌}
use los_cara.Xml
use los_cara.Xml.{Escape}

pub record S3Error : Type 0 where
  pub code : String
  pub status : ℕ
  pub message : Text

-- `Result<T, E>`.
pub data Result {ℓ κ} (E : Type ℓ) (A : Type κ) : Type (ℓ ⊔ κ) where
  ok : A → Result E A
  err : E → Result E A

unfoldable pub new : String → ℕ → Text → S3Error
new code status message = record { code = code; status = status; message = message }

unfoldable pub no_such_bucket : Text → S3Error
unfolding new
no_such_bucket bucket =
    new "NoSuchBucket" 404 (codes "The specified bucket does not exist: " ++ bucket)

unfoldable pub no_such_key : Text → S3Error
unfolding new
no_such_key key = new "NoSuchKey" 404 (codes "The specified key does not exist: " ++ key)

unfoldable pub bucket_already_exists : Text → S3Error
unfolding new
bucket_already_exists bucket =
    new "BucketAlreadyExists" 409 (codes "The requested bucket name is not available: " ++ bucket)

unfoldable pub invalid_bucket_name : Text → S3Error
unfolding new
invalid_bucket_name name =
    new "InvalidBucketName" 400 (codes "The specified bucket is not valid: " ++ name)

unfoldable pub invalid_argument : Text → S3Error
unfolding new
invalid_argument msg = new "InvalidArgument" 400 msg

unfoldable pub no_such_upload : S3Error
unfolding new
no_such_upload =
    new "NoSuchUpload" 404
      (codes "The specified upload does not exist. It may have been aborted or completed.")

unfoldable pub invalid_part : S3Error
unfolding new
invalid_part = new "InvalidPart" 400 (
    codes
      "One or more of the specified parts could not be found. The part may not have been uploaded, or the specified entity tag may not match the part's entity tag.")

unfoldable pub invalid_part_order : S3Error
unfolding new
invalid_part_order =
    new "InvalidPartOrder" 400
      (codes "The list of parts was not in ascending order. Parts must be ordered by part number.")

unfoldable pub entity_too_small : S3Error
unfolding new
entity_too_small = new "EntityTooSmall" 400 (
    codes
      "Your proposed upload is smaller than the minimum allowed object size. Each part must be at least 5 MB, except the last part.")

unfoldable pub entity_too_large : S3Error
unfolding new
entity_too_large =
    new "EntityTooLarge" 400 (codes "Your proposed upload exceeds the maximum allowed object size.")

unfoldable pub access_denied : S3Error
unfolding new
access_denied = new "AccessDenied" 403 (codes "Access Denied")

unfoldable pub signature_does_not_match : S3Error
unfolding new
signature_does_not_match = new "SignatureDoesNotMatch" 403 (
    codes
      "The request signature we calculated does not match the signature you provided. Check your key and signing method.")

unfoldable pub invalid_access_key_id : S3Error
unfolding new
invalid_access_key_id =
    new "InvalidAccessKeyId" 403
      (codes "The AWS Access Key Id you provided does not exist in our records.")

unfoldable pub precondition_failed : S3Error
unfolding new
precondition_failed =
    new "PreconditionFailed" 412
      (codes "At least one of the preconditions you specified did not hold.")

unfoldable pub not_implemented : S3Error
unfolding new
not_implemented =
    new "NotImplemented" 501
      (codes "A header or query you provided implies functionality that is not implemented.")

unfoldable pub method_not_allowed : S3Error
unfolding new
method_not_allowed =
    new "MethodNotAllowed" 405 (codes "The specified method is not allowed against this resource.")

unfoldable pub bucket_not_empty : S3Error
unfolding new
bucket_not_empty = new "BucketNotEmpty" 409 (codes "The bucket you tried to delete is not empty.")

unfoldable pub invalid_range : S3Error
unfolding new
invalid_range = new "InvalidRange" 416 (codes "The requested range is not satisfiable.")

unfoldable pub bad_digest : S3Error
unfolding new
bad_digest =
    new "BadDigest" 400 (codes "The Content-MD5 you specified did not match what we received.")

unfoldable pub sha_mismatch : S3Error
unfolding new
sha_mismatch =
    new "XAmzContentSHA256Mismatch" 400
      (codes "The provided 'x-amz-content-sha256' header does not match what was computed.")

unfoldable pub malformed_xml : S3Error
unfolding new
malformed_xml = new "MalformedXML" 400 (
    codes
      "The XML you provided was not well-formed or did not validate against our published schema.")

unfoldable pub internal : Text → S3Error
unfolding new
internal msg = new "InternalError" 500 msg

unfoldable pub invalid_object_state : S3Error
unfolding new
invalid_object_state =
    new "InvalidObjectState" 400 (codes "The operation is not valid for the object's state.")

-- The standard `Error` document.
unfoldable pub error_xml : Escape → Text → Text → Text → Text → Text
unfolding Xml.open_tag Xml.el Xml.close Xml.finish Xml.new
error_xml escape code message resource request_id = Xml.finish (
    Xml.close (codes "Error") (
      Xml.el escape (codes "RequestId") request_id (
        Xml.el escape (codes "Resource") resource (
          Xml.el escape (codes "Message") message (
            Xml.el escape (codes "Code") code (
              Xml.open_tag escape (codes "Error") ((codes "xmlns", Xml.xmlns_s3) ∷ []) Xml.new))))))
