-- ===== src/Storage/Copy.antt =====
-- `copy_object` of src/storage.rs.
use los_cara.Base.{Option, none, some, Text, codes}
use los_cara.Error.{S3Error}
use los_cara.Storage.Fs.{FilePath, child, join}
use los_cara.Storage.Io.{M, catch, pure, tick, draw, ◌>>=◌, ◌>>◌}
use los_cara.Storage.Calls.{create_dir_all, hard_link, copy_file, read}
use los_cara.Storage.Names.{object_dir, data_name}
use los_cara.Storage.Types.{Env, Metadata, ObjectMeta}
use los_cara.Storage.Json.{checked}
use los_cara.Storage.Buckets.{require_bucket}
use los_cara.Storage.Objects.{install, head_object, owned_file}

module _ (env : Env) (root : FilePath) where
  -- With `replace` the etag is computed anew from the copied file.
  unfoldable pub copied_fields :
      FilePath → ObjectMeta → Option (Text × Metadata) → M S3Error (Text × Text × Metadata)
  unfolding checked read pure ◌>>=◌
  copied_fields dst_data src_meta none =
      pure (src_meta.etag, src_meta.content_type, src_meta.metadata)
  copied_fields dst_data src_meta (some (ct, md)) = do
    content ← checked (read dst_data)
    pure (env.hex_encode (env.md5 content), ct, md)

  unfoldable pub copy_object :
      Text → Text → Text → Text → Option (Text × Metadata) → M S3Error ObjectMeta
  unfolding head_object require_bucket copied_fields install checked create_dir_all hard_link
      copy_file owned_file draw tick pure ◌>>=◌
  copy_object src_bucket src_key dst_bucket dst_key replace = do
    src_meta ← head_object env root src_bucket src_key
    require_bucket env root dst_bucket
    let dir = object_dir env root dst_bucket dst_key
    checked (create_dir_all dir)
    m ← draw
    let new_data = data_name env m
    src_file ← owned_file src_meta (codes "missing data file")
    let src_data = join (object_dir env root src_bucket src_key) src_file
    let dst_data = child dir new_data
    catch (hard_link src_data dst_data) (λ e. checked (copy_file src_data dst_data))
    fields ← copied_fields dst_data src_meta replace
    let (etag, content_type, metadata) = fields
    t ← tick
    let meta : ObjectMeta = record {
      key = dst_key;
      size = src_meta.size;
      etag = etag;
      content_type = content_type;
      last_modified = env.now_ms t;
      metadata = metadata;
      data_file = some new_data;
    }
    install env root dir dst_data meta
    pure meta
