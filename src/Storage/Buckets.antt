-- ===== src/Storage/Buckets.antt =====
-- Opening the data directory, and the bucket operations of src/storage.rs.
pub mod Created
use los_cara.Base.{
  ℕ, zero, suc, Bool, true, false, not, none, some, List, [], ◌∷◌, ◌++◌, leb, ltb, if◌then◌else◌,
  length, any, Text, codes, text_eq, text_leb, sort,
}
use los_cara.Error
use los_cara.Error.{S3Error}
use los_cara.Storage.Fs.{FilePath, Fs, child}
use los_cara.Storage.Io.{M, Io, done, catch, pure, raise, tick, ◌>>=◌, ◌>>◌}
use los_cara.Storage.Calls.{
  create_dir_all, write, path_exists, read_dir, remove_dir_all, path_is_dir,
}
use los_cara.Storage.Names.{valid_bucket_name, bucket_dir, objects_root, meta_name}
use los_cara.Storage.Types.{Env, BucketMeta, MultipartManifest}
use los_cara.Storage.Json.{checked, write_json_atomic, read_json, read_if}

-- The directory walks take fuel: one more than the length of the longest path is enough.
abbrev pub depth : Fs → ℕ
depth [] = 1
depth ((p, n) ∷ fs) = if ltb (depth fs) (suc (length p)) then suc (length p) else depth fs

unfoldable pub get_fs : {E : Type 0} → M E Fs
get_fs w = (done w.fs, w)

module _ {E A : Type 0} where
  -- A loop that may stop with an error.
  unfoldable pub for_each : List A → (A → M E (List FilePath)) → M E (List FilePath)
  unfolding pure
  for_each [] body = pure []
  for_each (x ∷ xs) body = do found ← body x; rest ← for_each xs body; pure (found ++ rest)

-- One entry of `collect_sync`: a directory is walked, a file named `meta.json` is reported.
abbrev walk_entry : (FilePath → Io (List FilePath)) → FilePath → Text → Io (List FilePath)
walk_entry walk p name = do
  below ← path_is_dir (child p name)
  if below
      then walk (child p name)
      else if text_eq name meta_name
      then pure (child p name ∷ [])
      else pure []

-- `walk_metas`: an unreadable directory ends it with an error.
unfoldable pub walk_metas : ℕ → FilePath → Io (List FilePath)
unfolding for_each pure path_is_dir read_dir
walk_metas zero p = pure []
walk_metas (suc fuel) p = do names ← read_dir p; for_each names (walk_entry (walk_metas fuel) p)

-- `collect_meta_paths`: an unreadable directory is passed over.
unfoldable pub collect_meta_paths : ℕ → FilePath → Io (List FilePath)
unfolding for_each pure path_is_dir read_dir catch
collect_meta_paths zero p = pure []
collect_meta_paths (suc fuel) p = do
  names ← catch (read_dir p) (λ e. pure [])
  for_each names (walk_entry (collect_meta_paths fuel) p)

module _ (env : Env) (root : FilePath) where
  -- `Storage::open`.
  unfoldable pub open_storage : Io Unit
  unfolding create_dir_all path_exists write
  open_storage = do
    create_dir_all (child root (codes "buckets"))
    create_dir_all (child root (codes "multipart"))
    create_dir_all (child root (codes "tmp"))
    there ← path_exists (child root (codes "keys.json"))
    if there then pure tt else write (child root (codes "keys.json")) (codes "{}")

  unfoldable pub create_bucket : Text → M S3Error Bool
  unfolding bucket_dir path_exists create_dir_all write_json_atomic tick raise pure checked
  create_bucket name =
      if not (valid_bucket_name name) then raise (Error.invalid_bucket_name name) else do
        let dir = bucket_dir root name
        there ← path_exists (child dir meta_name)
        if there then pure false else do
          checked (create_dir_all (child dir (codes "objects")))
          t ← tick
          let meta : BucketMeta = record { name = name; created = env.now_ms t }
          checked (write_json_atomic env.bucket_json env (child dir meta_name) meta)
          pure true

  unfoldable pub bucket_exists : Text → M S3Error Bool
  unfolding bucket_dir path_exists
  bucket_exists name = path_exists (child (bucket_dir root name) meta_name)

  -- `if !self.bucket_exists(name).await? { return Err(no_such_bucket(name)) }`.
  unfoldable pub require_bucket : Text → M S3Error Unit
  unfolding bucket_exists pure raise
  require_bucket name = do
    there ← bucket_exists name
    if there then pure tt else raise (Error.no_such_bucket name)

  unfoldable pub bucket_created : Text → M S3Error ℕ
  unfolding require_bucket checked read_json
  bucket_created name = do
    require_bucket name
    meta ← checked (read_json env.bucket_json (child (bucket_dir root name) meta_name))
    pure meta.created

  -- The loop of `list_buckets`.
  collect_buckets : List Text → M S3Error (List (Text × ℕ))
  collect_buckets [] = pure []
  collect_buckets (entry ∷ entries) = do
    let path = child (child (child root (codes "buckets")) entry) meta_name
    there ← path_exists path
    found ← if there then read_if env.bucket_json path else pure none
    rest ← collect_buckets entries
    elim found [ none ↦ pure rest | some meta ↦ pure ((meta.name, meta.created) ∷ rest) ]

  -- The order of pairs.
  abbrev pub bucket_leb : Text × ℕ → Text × ℕ → Bool
  bucket_leb (n, c) (m, d) = if text_eq n m then leb c d else text_leb n m

  unfoldable pub list_buckets : M S3Error (List (Text × ℕ))
  unfolding collect_buckets checked read_dir read_if path_exists pure sort
  list_buckets = do
    names ← checked (read_dir (child root (codes "buckets")))
    found ← collect_buckets names
    pure (sort bucket_leb found)

  unfoldable pub has_any_object : Text → M S3Error Bool
  unfolding walk_metas checked objects_root get_fs
  has_any_object bucket = do
    fs ← get_fs
    found ← checked (walk_metas (depth fs) (objects_root root bucket))
    elim found [ [] ↦ pure false | _ ∷ _ ↦ pure true ]

  -- The loop of `list_multipart_uploads_raw`.
  collect_uploads : List Text → M S3Error (List MultipartManifest)
  collect_uploads [] = pure []
  collect_uploads (entry ∷ entries) = do
    let path = child (child (child root (codes "multipart")) entry) (codes "manifest.json")
    there ← path_exists path
    found ← if there then read_if env.manifest_json path else pure none
    rest ← collect_uploads entries
    elim found [ none ↦ pure rest | some m ↦ pure (m ∷ rest) ]

  -- By key, then by upload id.
  abbrev pub upload_leb : MultipartManifest → MultipartManifest → Bool
  upload_leb m n =
      if text_eq m.key n.key then text_leb m.upload_id n.upload_id else text_leb m.key n.key

  unfoldable pub list_multipart_uploads_raw : M S3Error (List MultipartManifest)
  unfolding collect_uploads read_dir read_if path_exists pure sort catch
  list_multipart_uploads_raw = do
    names ← catch (read_dir (child root (codes "multipart"))) (λ e. pure [])
    found ← collect_uploads names
    pure (sort upload_leb found)

  unfoldable pub delete_bucket : Text → M S3Error Unit
  unfolding require_bucket has_any_object list_multipart_uploads_raw remove_dir_all checked raise
  delete_bucket name = do
    require_bucket name
    occupied ← has_any_object name
    if occupied then raise Error.bucket_not_empty else do
      uploads ← list_multipart_uploads_raw
      if any (λ (m : MultipartManifest). text_eq m.bucket name) uploads
          then raise Error.bucket_not_empty
          else checked (remove_dir_all (bucket_dir root name))
