-- ===== src/Storage/Objects.antt =====
-- The object operations of src/storage.rs. The lock of an object keeps its writers apart, so each
-- operation is one run; a reader beside it sees what some killed run of it leaves.
use los_cara.Base.{
  ℕ, ◌+◌, ◌-◌, min, not, ◌&&◌, ◌||◌, Option, none, some, List, [], ◌∷◌, ◌++◌, ltb, ◌==◌,
  if◌then◌else◌, length, take, drop, Text, codes, text_eq, ends_with,
}
use los_cara.Error
use los_cara.Error.{S3Error, Result, ok, err}
use los_cara.Storage.Fs.{FilePath, child, join}
use los_cara.Storage.Io.{M, catch, ignore, pure, raise, tick, draw, ◌>>=◌, ◌>>◌}
use los_cara.Storage.Calls.{
  create_file, write_all, sync, rename, remove_file, create_dir_all, read, path_exists, read_dir,
  seek,
}
use los_cara.Storage.Names.{object_dir, tmp_file, meta_name, data_name}
use los_cara.Storage.Types.{Env, Metadata, ObjectMeta, PutResult, max_object_size}
use los_cara.Storage.Json.{checked, write_json_atomic, read_or, read_if}
use los_cara.Storage.Buckets.{require_bucket}

-- A request body: its chunks as they arrive, or the error that ends it.
abbrev pub Body : Type 0
Body = List (Result S3Error Text)

-- Drop the staged file and report the error.
unfoldable pub give_up : {A : Type 0} → FilePath → S3Error → M S3Error A
unfolding ignore remove_file raise ◌>>=◌
give_up path e = do ignore (remove_file path); raise e

-- The loop over the body. `size` counts the bytes; `seen` is what both hashers were fed.
unfoldable pub receive : FilePath → ℕ → Text → Body → M S3Error (ℕ × Text)
unfolding give_up catch write_all pure ◌>>=◌
receive tmp size seen [] = pure (size, seen)
receive tmp size seen (err e ∷ body) = give_up tmp e
receive tmp size seen (ok chunk ∷ body) =
    let size' = size + length chunk in
    let rest = receive tmp size' (seen ++ chunk) body in
    if ltb max_object_size size'
    then give_up tmp Error.entity_too_large
    else catch (write_all tmp chunk) (λ e. give_up tmp (Error.internal e.text)) >> rest

-- The name of the data file that a metadata record owns; `unwrap_or_default`.
abbrev pub data_file_of : ObjectMeta → Text
data_file_of meta = elim meta.data_file [ none ↦ [] | some d ↦ d ]

-- The loop of `gc_object_dir`.
unfoldable pub gc_entries : {E : Type 0} → FilePath → Text → List Text → M E Unit
unfolding pure ignore remove_file ◌>>=◌
gc_entries dir keep [] = pure tt
gc_entries dir keep (name ∷ names) = do
  if ends_with (codes ".data") name && not (text_eq name keep)
      then ignore (remove_file (child dir name))
      else pure tt
  gc_entries dir keep names

unfoldable pub gc_object_dir : {E : Type 0} → FilePath → Text → M E Unit
unfolding gc_entries catch read_dir pure ◌>>=◌
gc_object_dir dir keep = do names ← catch (read_dir dir) (λ e. pure []); gc_entries dir keep names

-- `data_file.ok_or_else(…)`.
unfoldable pub owned_file : ObjectMeta → Text → M S3Error Text
unfolding pure raise
owned_file meta absent = elim meta.data_file [
  | none ↦ raise (Error.internal absent)
  | some d ↦ pure d
]

-- How much of an object is read from `start` on.
abbrev pub read_len : ObjectMeta → ℕ → Option ℕ → ℕ
read_len meta start (some l) = min l (meta.size - start)
read_len meta start none = meta.size - start

module _ (env : Env) (root : FilePath) where
  -- The tail of the writers: swap the metadata in, drop the new data file if that fails, and then
  -- the data files of earlier versions.
  unfoldable pub install : FilePath → FilePath → ObjectMeta → M S3Error Unit
  unfolding catch write_json_atomic give_up gc_object_dir ◌>>=◌
  install dir data_path meta = do
    catch (write_json_atomic env.object_json env (child dir meta_name) meta)
        (λ e. give_up data_path (Error.internal e.text))
    gc_object_dir dir (data_file_of meta)

  -- The staging of `put_object` and `upload_part`: a temporary file with the whole body.
  unfoldable pub stage : Body → M S3Error (FilePath × ℕ × Text)
  unfolding checked create_file receive sync draw pure ◌>>=◌
  stage body = do
    n ← draw
    let tmp = tmp_file env root n
    checked (create_file tmp)
    got ← receive tmp 0 [] body
    checked sync
    checked sync
    pure (tmp, got.0, got.1)

  -- `put_object` once the body is staged.
  unfoldable pub write_staged :
      Text → Text → Text → Metadata → FilePath × ℕ × Text → M S3Error PutResult
  write_staged bucket key content_type metadata staged = do
    let (tmp, size, seen) = staged
    let md5_hex = env.hex_encode (env.md5 seen)
    let sha_hex = env.hex_encode (env.sha256 seen)
    let dir = object_dir env root bucket key
    checked (create_dir_all dir)
    m ← draw
    let name = data_name env m
    let data_path = child dir name
    checked (rename tmp data_path)
    t ← tick
    let meta : ObjectMeta = record {
      key = key;
      size = size;
      etag = md5_hex;
      content_type = content_type;
      last_modified = env.now_ms t;
      metadata = metadata;
      data_file = some name;
    }
    install dir data_path meta
    pure (record { meta = meta; sha256_hex = sha_hex; content_md5_hex = md5_hex })

  unfoldable pub put_object : Text → Text → Body → Text → Metadata → M S3Error PutResult
  put_object bucket key body content_type metadata = do
    require_bucket env root bucket
    if length key == 0 || ltb 1024 (length key)
        then raise (Error.invalid_argument (codes "Object key must be between 1 and 1024 bytes"))
        else do staged ← stage body; write_staged bucket key content_type metadata staged

  unfoldable pub head_object : Text → Text → M S3Error ObjectMeta
  unfolding require_bucket read_or ◌>>=◌
  head_object bucket key = do
    require_bucket env root bucket
    read_or env.object_json (child (object_dir env root bucket key) meta_name)
        (Error.no_such_key key)

  -- With the metadata, all that the reader yields: at most `read_len` bytes from `start`. A data file
  -- is never written in place, so that opening it settles what the reader will find.
  unfoldable pub get_object_range : Text → Text → ℕ → Option ℕ → M S3Error (ObjectMeta × Text)
  unfolding head_object owned_file checked read seek pure ◌>>=◌
  get_object_range bucket key start len = do
    meta ← head_object bucket key
    data_file ← owned_file meta (codes "object has no data file")
    content ← checked (read (join (object_dir env root bucket key) data_file))
    if ltb 0 start then checked seek else pure tt
    pure (meta, take (read_len meta start len) (drop start content))

  unfoldable pub get_object : Text → Text → M S3Error (ObjectMeta × Text)
  unfolding get_object_range
  get_object bucket key = get_object_range bucket key 0 none

  -- The data file is removed after the metadata, and neither failure is reported.
  abbrev pub drop_data : FilePath → Option ObjectMeta → M S3Error Unit
  drop_data dir none = pure tt
  drop_data dir (some m) = elim m.data_file [
    | none ↦ pure tt
    | some d ↦ ignore (remove_file (join dir d))
  ]

  unfoldable pub delete_object : Text → Text → M S3Error Unit
  delete_object bucket key = do
    require_bucket env root bucket
    let dir = object_dir env root bucket key
    there ← path_exists (child dir meta_name)
    if there
        then (do
          meta ← read_if env.object_json (child dir meta_name)
          ignore (remove_file (child dir meta_name))
          drop_data dir meta)
        else pure tt
