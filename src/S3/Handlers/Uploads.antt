-- ===== src/S3/Handlers/Uploads.antt =====
-- The handlers of multipart uploads in src/s3.rs.
use los_cara.Base.{
  ℕ, ◌*◌, ◌==◌, Bool, Option, none, some, List, [], ◌∷◌, ◌++◌, length, take, filter, ltb, Text,
  codes, trim_matches, parse_u64, parse_radix, u32_max,
}
use mathlib.Core.Option
use los_cara.Error
use los_cara.Error.{S3Error, Result, ok, err}
use los_cara.Xml
use los_cara.Xml.{Xml}
use los_cara.Xml.Tree.{XmlNode, find_all, text_of}
use los_cara.Xml.Parse.{parse}
use los_cara.Storage.Fs.{FilePath}
use los_cara.Storage.Io.{M, pure, raise, catch, tick, ◌>>=◌, ◌>>◌}
use los_cara.Storage.Types.{Env, MultipartManifest}
use los_cara.Storage.Json.{lift}
use los_cara.Storage.Multipart.{Part, Listed, decimal}
use los_cara.Storage.Multipart.Uploads
use los_cara.S3.Request.{Query, get_q}
use los_cara.S3.Document.{◌▷◌, each, rooted, opened, leaf, closed, person, flag}
use los_cara.S3.Http.{
  Http, RequestHeaders, Response, xml_response, insert_header, user_metadata, or_else, quoted,
  xml_date,
}
use los_cara.S3.Payload.{Payload, boxed, surfaced, check_body_state}
use los_cara.S3.Handlers.Objects.{content_type_of, copy_source_of, whole_body}
use los_cara.S3.Handlers.Lists.{optional}

-- A page of parts: those that are shown, whether there are more, and the number of the last one.
pub record PartPage : Type 0 where
  pub shown : List (ℕ × Part)
  pub truncated : Bool
  pub next_marker : Option ℕ

-- `last()`, of the numbers.
unfoldable pub last_number : List (ℕ × Part) → Option ℕ
last_number [] = none
last_number ((n, p) ∷ []) = some n
last_number (p ∷ q ∷ ps) = last_number (q ∷ ps)

unfoldable pub part_page : List (ℕ × Part) → ℕ → ℕ → PartPage
unfolding last_number
part_page parts marker max_parts =
    let rest = filter (λ p. ltb marker p.0) parts in
    record {
      shown = take max_parts rest;
      truncated = ltb max_parts (length rest);
      next_marker = last_number (take max_parts rest);
    }

abbrev pub number_or : ℕ → Option ℕ → ℕ
number_or absent none = absent
number_or absent (some n) = n

-- The parts that a request for completion lists; the etags without their quotes.
unfoldable pub listed_parts : List XmlNode → Listed
listed_parts [] = []
listed_parts (p ∷ ps) =
    (
      number_or 0 (parse_radix 10 u32_max (or_else [] (text_of p (codes "PartNumber")))),
      trim_matches (λ c. c == b'"') (or_else [] (text_of p (codes "ETag"))),
    )
    ∷ listed_parts ps

-- `xml_parse(…).map_err(…)`, and the search for the parts.
unfoldable pub completion_of : Option XmlNode → Result S3Error Listed
unfolding listed_parts
completion_of none = err Error.malformed_xml
completion_of (some root) = ok (listed_parts (find_all root (codes "Part")))

module _ (http : Http) (env : Env) (root : FilePath) where
  unfoldable pub create_multipart : Text → Text → RequestHeaders → M S3Error Response
  create_multipart bucket key headers = do
    m ←
        Uploads.create_multipart env root bucket key (content_type_of headers)
          (user_metadata headers)
    pure (
        xml_response 200
          (Xml.finish (
            rooted http.escape "InitiateMultipartUploadResult"
            ▷ leaf http.escape "Bucket" bucket
            ▷ leaf http.escape "Key" key
            ▷ leaf http.escape "UploadId" m.upload_id
            ▷ closed "InitiateMultipartUploadResult"))
          [])

  unfoldable pub upload_part : Text → ℕ → Payload → M S3Error Response
  upload_part upload_id part_number payload = do
    part ←
        catch (Uploads.upload_part env root upload_id part_number (boxed http payload.body))
          (λ e. raise (surfaced http payload.state e))
    lift (check_body_state env payload.state none)
    pure (xml_response 200 [] (insert_header "etag" (quoted part.0) []))

  unfoldable pub upload_part_copy : Text → ℕ → RequestHeaders → M S3Error Response
  upload_part_copy upload_id part_number headers = do
    source ← lift (copy_source_of http.percent.decode headers)
    part ← Uploads.upload_part_copy env root upload_id part_number source.0 source.1
    t ← tick
    pure (
        xml_response 200
          (Xml.finish (
            rooted http.escape "CopyPartResult"
            ▷ leaf http.escape "ETag" (quoted part.0)
            ▷ leaf http.escape "LastModified" (xml_date http (env.now_ms t))
            ▷ closed "CopyPartResult"))
          [])

  abbrev write_part : ℕ → ℕ × Part → Xml → Xml
  write_part initiated (n, (etag, size)) x =
      x
      ▷ opened http.escape "Part"
      ▷ leaf http.escape "PartNumber" (decimal n)
      ▷ leaf http.escape "LastModified" (xml_date http initiated)
      ▷ leaf http.escape "ETag" (quoted etag)
      ▷ leaf http.escape "Size" (decimal size)
      ▷ closed "Part"

  unfoldable pub parts_document : MultipartManifest → ℕ → ℕ → Text
  unfolding part_page each
  parts_document m marker max_parts =
      let page = part_page m.parts marker max_parts in
      Xml.finish (
        rooted http.escape "ListPartsResult"
        ▷ leaf http.escape "Bucket" m.bucket
        ▷ leaf http.escape "Key" m.key
        ▷ leaf http.escape "UploadId" m.upload_id
        ▷ person http.escape "Initiator"
        ▷ person http.escape "Owner"
        ▷ leaf http.escape "StorageClass" (codes "STANDARD")
        ▷ leaf http.escape "PartNumberMarker" (decimal marker)
        ▷ optional http.escape "NextPartNumberMarker" (Option.map decimal page.next_marker)
        ▷ leaf http.escape "MaxParts" (decimal max_parts)
        ▷ leaf http.escape "IsTruncated" (flag page.truncated)
        ▷ each (write_part m.initiated) page.shown
        ▷ closed "ListPartsResult")

  unfoldable pub list_parts : Query → M S3Error Response
  unfolding parts_document
  list_parts query = elim (get_q (codes "uploadId") query) [
    | none ↦ raise (Error.invalid_argument (codes "missing uploadId"))
    | some upload_id ↦ do
      m ← Uploads.list_parts env root upload_id
      pure (
          xml_response 200
            (parts_document m
              (number_or 0
                (Option.bind (get_q (codes "part-number-marker") query) (parse_radix 10 u32_max)))
              (number_or 1000 (Option.bind (get_q (codes "max-parts") query) parse_u64)))
            [])
  ]

  unfoldable pub complete_multipart : Text → Text → Payload → M S3Error Response
  unfolding completion_of
  complete_multipart bucket upload_id payload = do
    body ← lift (whole_body http (4 * 1024 * 1024) payload.body)
    parts ← lift (completion_of (parse (http.read_events body)))
    meta ← Uploads.complete_multipart env root upload_id parts
    pure (
        xml_response 200
          (Xml.finish (
            rooted http.escape "CompleteMultipartUploadResult"
            ▷ leaf http.escape "Location"
                (codes "http://localhost/" ++ (bucket ++ (b'/' ∷ meta.key)))
            ▷ leaf http.escape "Bucket" bucket
            ▷ leaf http.escape "Key" meta.key
            ▷ leaf http.escape "ETag" (quoted meta.etag)
            ▷ closed "CompleteMultipartUploadResult"))
          [])

  unfoldable pub abort_multipart : Text → M S3Error Response
  abort_multipart upload_id = do
    Uploads.abort_multipart env root upload_id
    pure (xml_response 204 [] [])
