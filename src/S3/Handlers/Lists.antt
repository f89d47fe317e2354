-- ===== src/S3/Handlers/Lists.antt =====
-- The two listings of objects in src/s3.rs.
use los_cara.Base.{ℕ, ◌+◌, min, not, Option, none, some, [], length, Text, codes, String, parse_u64}
use mathlib.Core.Option
use los_cara.Error.{S3Error}
use los_cara.Xml
use los_cara.Xml.{Xml, Escape}
use los_cara.Storage.Fs.{FilePath}
use los_cara.Storage.Io.{M, pure, ◌>>=◌}
use los_cara.Storage.Types.{Env, ObjectMeta, ListPage}
use los_cara.Storage.Listing.{list_objects}
use los_cara.Storage.Multipart.{decimal}
use los_cara.S3.Request.{Query, get_q, is_empty}
use los_cara.S3.Document.{◌▷◌, each, rooted, opened, leaf, closed, written_if, flag}
use los_cara.S3.Http.{Http, Response, xml_response, or_else, quoted, xml_date}

-- `max-keys`, at most 1000, and 1000 where it is no number.
unfoldable pub max_keys_of : Query → ℕ
max_keys_of query = elim (Option.bind (get_q (codes "max-keys") query) parse_u64) [
  | none ↦ 1000
  | some n ↦ min n 1000
]

-- `page.next_prefix_token.clone().or(page.next_token.clone())`.
unfoldable pub resume_token : ListPage → Option Text
resume_token page = elim page.next_prefix_token [ none ↦ page.next_token | some tok ↦ some tok ]

-- An element that is written where there is a value.
abbrev pub optional : Escape → String → Option Text → Xml → Xml
optional escape name none x = x
optional escape name (some s) x = leaf escape name s x

module _ (http : Http) where
  abbrev write_object : ObjectMeta → Xml → Xml
  write_object obj x =
      x
      ▷ opened http.escape "Contents"
      ▷ leaf http.escape "Key" obj.key
      ▷ leaf http.escape "LastModified" (xml_date http obj.last_modified)
      ▷ leaf http.escape "ETag" (quoted obj.etag)
      ▷ leaf http.escape "Size" (decimal obj.size)
      ▷ leaf http.escape "StorageClass" (codes "STANDARD")
      ▷ closed "Contents"

  abbrev write_prefix : Text → Xml → Xml
  write_prefix cp x =
      x
      ▷ opened http.escape "CommonPrefixes"
      ▷ leaf http.escape "Prefix" cp
      ▷ closed "CommonPrefixes"

  -- The entries of a page.
  unfoldable pub write_entries : ListPage → Xml → Xml
  unfolding each
  write_entries page x =
      x ▷ each write_object page.contents ▷ each write_prefix page.common_prefixes

  module _ (env : Env) (root : FilePath) (bucket : Text) (query : Query) where
    -- Where the second listing goes on.
    abbrev pub start_pos : Text
    start_pos =
        or_else (or_else [] (get_q (codes "start-after") query))
          (get_q (codes "continuation-token") query)

    abbrev prefix_in : Text
    prefix_in = or_else [] (get_q (codes "prefix") query)

    abbrev delimiter_in : Text
    delimiter_in = or_else [] (get_q (codes "delimiter") query)

    unfoldable pub v2_document : ListPage → Text
    unfolding write_entries resume_token
    v2_document page = Xml.finish (
        rooted http.escape "ListBucketResult"
        ▷ leaf http.escape "Name" bucket
        ▷ leaf http.escape "Prefix" prefix_in
        ▷ written_if (not (is_empty delimiter_in)) (leaf http.escape "Delimiter" delimiter_in)
        ▷ optional http.escape "ContinuationToken" (get_q (codes "continuation-token") query)
        ▷ optional http.escape "StartAfter" (get_q (codes "start-after") query)
        ▷ leaf http.escape "KeyCount" (decimal (length page.contents + length page.common_prefixes))
        ▷ leaf http.escape "MaxKeys" (decimal (max_keys_of query))
        ▷ leaf http.escape "IsTruncated" (flag page.truncated)
        ▷ write_entries page
        ▷ written_if page.truncated
            (leaf http.escape "NextContinuationToken" (or_else [] (resume_token page)))
        ▷ closed "ListBucketResult")

    unfoldable pub list_objects_v2 : M S3Error Response
    unfolding v2_document
    list_objects_v2 = do
      page ← list_objects env root bucket prefix_in delimiter_in start_pos (max_keys_of query)
      pure (xml_response 200 (v2_document page) [])

    abbrev pub marker_in : Text
    marker_in = or_else [] (get_q (codes "marker") query)

    unfoldable pub v1_document : ListPage → Text
    unfolding write_entries resume_token
    v1_document page = Xml.finish (
        rooted http.escape "ListBucketResult"
        ▷ leaf http.escape "Name" bucket
        ▷ leaf http.escape "Prefix" prefix_in
        ▷ leaf http.escape "Marker" marker_in
        ▷ written_if (not (is_empty delimiter_in)) (leaf http.escape "Delimiter" delimiter_in)
        ▷ leaf http.escape "MaxKeys" (decimal (max_keys_of query))
        ▷ leaf http.escape "IsTruncated" (flag page.truncated)
        ▷ write_entries page
        ▷ written_if page.truncated (optional http.escape "NextMarker" (resume_token page))
        ▷ closed "ListBucketResult")

    unfoldable pub list_objects_v1 : M S3Error Response
    unfolding v1_document
    list_objects_v1 = do
      page ← list_objects env root bucket prefix_in delimiter_in marker_in (max_keys_of query)
      pure (xml_response 200 (v1_document page) [])
