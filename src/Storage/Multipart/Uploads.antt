-- ===== src/Storage/Multipart/Uploads.antt =====
-- The operations on multipart uploads of src/storage.rs, from `create_multipart` on.
use los_cara.Base.{ℕ, ltb, ◌==◌, List, [], ◌∷◌, filter, some, Text, text_eq, map_insert}
use los_cara.Error
use los_cara.Error.{S3Error, Result, ok, err}
use los_cara.Storage.Fs.{FilePath, child}
use los_cara.Storage.Io.{M, ignore, pure, tick, draw, ◌>>=◌, ◌>>◌}
use los_cara.Storage.Calls.{
  create_file, write_all, sync, rename, create_dir_all, remove_dir_all, read,
}
use los_cara.Storage.Names.{object_dir, multipart_dir, data_name}
use los_cara.Storage.Types.{Env, Metadata, ObjectMeta, MultipartManifest, part_dir}
use los_cara.Storage.Json.{checked, lift, write_json_atomic, read_or}
use los_cara.Storage.Buckets.{require_bucket, list_multipart_uploads_raw}
use los_cara.Storage.Objects.{Body, stage, install, get_object, head_object}
use los_cara.Storage.Multipart.{
  Listed, Part, check_parts, multipart_etag, total_size, manifest_path, part_path,
}

-- The body that `reader_stream` makes of a reader: one chunk here, as the sizes of the reads do not
-- matter to what is stored.
abbrev pub reader_stream : Text → Body
reader_stream [] = []
reader_stream (c ∷ s) = ok (c ∷ s) ∷ []

module _ (env : Env) (root : FilePath) where
  unfoldable pub load_manifest : Text → M S3Error MultipartManifest
  unfolding read_or manifest_path
  load_manifest upload_id =
      read_or env.manifest_json (manifest_path root upload_id) Error.no_such_upload

  unfoldable pub save_manifest : MultipartManifest → M S3Error Unit
  unfolding checked write_json_atomic manifest_path
  save_manifest m =
      checked (write_json_atomic env.manifest_json env (manifest_path root m.upload_id) m)

  unfoldable pub create_multipart : Text → Text → Text → Metadata → M S3Error MultipartManifest
  unfolding require_bucket checked write_json_atomic draw tick create_dir_all pure ◌>>=◌
  create_multipart bucket key content_type metadata = do
    require_bucket env root bucket
    n ← draw
    t ← tick
    let manifest : MultipartManifest = record {
      upload_id = env.uuid n;
      bucket = bucket;
      key = key;
      content_type = content_type;
      metadata = metadata;
      initiated = env.now_ms t;
      parts = [];
    }
    checked (create_dir_all (child (multipart_dir root manifest.upload_id) part_dir))
    checked
        (write_json_atomic env.manifest_json env (manifest_path root manifest.upload_id) manifest)
    pure manifest

  unfoldable pub upload_part : Text → ℕ → Body → M S3Error Part
  unfolding load_manifest save_manifest stage checked rename part_path map_insert pure ◌>>=◌
  upload_part upload_id part_number body = do
    load_manifest upload_id
    staged ← stage env root body
    let (tmp, size, seen) = staged
    let etag = env.hex_encode (env.md5 seen)
    checked (rename tmp (part_path root upload_id part_number))
    m ← load_manifest upload_id
    save_manifest (record m { parts = map_insert ◌==◌ ltb part_number (etag, size) m.parts })
    pure (etag, size)

  unfoldable pub upload_part_copy : Text → ℕ → Text → Text → M S3Error Part
  unfolding head_object get_object upload_part ◌>>=◌
  upload_part_copy upload_id part_number src_bucket src_key = do
    head_object env root src_bucket src_key
    got ← get_object env root src_bucket src_key
    upload_part upload_id part_number (reader_stream got.1)

  unfoldable pub list_parts : Text → M S3Error MultipartManifest
  unfolding load_manifest
  list_parts upload_id = load_manifest upload_id

  -- The loop that copies the staged parts into the data file.
  unfoldable pub assemble : Text → FilePath → Listed → M S3Error Unit
  unfolding checked read write_all part_path pure ◌>>=◌
  assemble upload_id dst [] = pure tt
  assemble upload_id dst ((n, etag) ∷ l) = do
    content ← checked (read (part_path root upload_id n))
    checked (write_all dst content)
    assemble upload_id dst l

  unfoldable pub complete_multipart : Text → Listed → M S3Error ObjectMeta
  unfolding load_manifest check_parts lift object_dir checked create_dir_all create_file assemble
      sync install remove_dir_all ignore draw tick multipart_etag total_size pure ◌>>=◌
  complete_multipart upload_id listed = do
    m ← load_manifest upload_id
    ordered ← lift (check_parts m.parts listed)
    let dir = object_dir env root m.bucket m.key
    checked (create_dir_all dir)
    n ← draw
    let name = data_name env n
    let dst = child dir name
    checked (create_file dst)
    assemble upload_id dst ordered
    checked sync
    t ← tick
    let meta : ObjectMeta = record {
      key = m.key;
      size = total_size m.parts ordered;
      etag = multipart_etag env m.parts ordered;
      content_type = m.content_type;
      last_modified = env.now_ms t;
      metadata = m.metadata;
      data_file = some name;
    }
    install env root dir dst meta
    ignore (remove_dir_all (multipart_dir root upload_id))
    pure meta

  unfoldable pub abort_multipart : Text → M S3Error Unit
  unfolding load_manifest checked remove_dir_all ◌>>=◌
  abort_multipart upload_id = do
    load_manifest upload_id
    checked (remove_dir_all (multipart_dir root upload_id))

  unfoldable pub list_multipart_uploads : Text → M S3Error (List MultipartManifest)
  unfolding require_bucket list_multipart_uploads_raw pure ◌>>=◌
  list_multipart_uploads bucket = do
    require_bucket env root bucket
    uploads ← list_multipart_uploads_raw env root
    pure (filter (λ (m : MultipartManifest). text_eq m.bucket bucket) uploads)
