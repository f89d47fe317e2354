-- ===== src/Storage/Atomic/Deletes.antt =====
-- What `delete_object` of src/storage.rs does to an object that `put_object` stored.
use los_cara.Base.{
  ℕ, ◌<◌, ◌≡◌, true, false, refl, sym, ◌∙◌, subst, some, none, [], arith, Text, length, codes,
  has_byte, text_eq, length-append,
}
use los_cara.Error
use los_cara.Error.{S3Error, ok}
use los_cara.Storage.Fs
use los_cara.Storage.Fs.{
  FilePath, Fs, file, lookup, lookup-remove, path_eq_iff, child, join, path_eq,
}
use los_cara.Storage.Io.{World, done, failed, syscall, ◌>>=◌, catch, pure, ignore, raise}
use los_cara.Storage.Runs.{Runs, bind_at, ignore_at}
use los_cara.Storage.Calls.{missing, read, do_read, remove_file, do_remove_file, path_exists}
use los_cara.Storage.Types.{Env, ObjectMeta, Metadata, PutResult}
use los_cara.Storage.Names.{meta_name, data_name, bucket_dir, object_dir, objects_root}
use los_cara.Storage.Json.{read_json, read_or, read_if}
use los_cara.Storage.Objects.{Body, put_object, head_object, delete_object, drop_data}
use los_cara.Storage.Atomic.Laws.{IsLawful, path_eq-ne_depth, path_eq-child}
use los_cara.Storage.Atomic.Receive.{payload}
use los_cara.Storage.Atomic.Put.{IsFresh}
use los_cara.Storage.Atomic.GetObject.{
  sound, require_bucket_at, read_json_at, join_plain, data_name-plain, data_name-long,
  put_object-IsStored, still_there, text_eq-ne_length,
}

remove_file_at :
    (q : FilePath) (s : Text) (fs : Fs) (draws ticks : ℕ)
    → lookup q fs ≡ some (file s)
    → remove_file q (sound fs draws ticks) ≡ (done tt, sound (Fs.remove q fs) draws ticks)
unfolding remove_file syscall do_remove_file lookup Fs.remove
remove_file_at q s fs draws ticks h = rw h refl

path_exists_at :
    {E : Type 0} (q : FilePath) (s : Text) (fs : Fs) (draws ticks : ℕ)
    → lookup q fs ≡ some (file s)
    → path_exists {E = E} q (sound fs draws ticks) ≡ (done true, sound fs draws ticks)
unfolding path_exists syscall catch lookup
path_exists_at q s fs draws ticks h = rw h refl

read-missing :
    (q : FilePath) (fs : Fs) (draws ticks : ℕ)
    → lookup q fs ≡ none
    → read q (sound fs draws ticks) ≡ (failed missing, sound fs draws ticks)
unfolding read syscall do_read lookup
read-missing q fs draws ticks h = rw h refl

module _ (fs : Fs) (draws ticks : ℕ) (env : Env) (root : FilePath) (bucket b : Text)
    (there : lookup (child (bucket_dir root bucket) meta_name) fs ≡ some (file b)) (key text : Text)
    (meta : ObjectMeta) (parsed : env.object_json.from_slice text ≡ ok meta)
    (installed : lookup (child (object_dir env root bucket key) meta_name) fs ≡ some (file text))
    (name content : Text) (owned : meta.data_file ≡ some name) (plain : has_byte b'/' name ≡ false)
    (long : 2 < length name) (apart : text_eq meta_name name ≡ false)
    (stored : lookup (child (object_dir env root bucket key) name) fs ≡ some (file content)) where
  abbrev dir : FilePath
  dir = object_dir env root bucket key

  -- The files without the metadata and the data of the object.
  abbrev pub left : Fs
  left = Fs.remove (child dir name) (Fs.remove (child dir meta_name) fs)

  still_stored : lookup (child dir name) (Fs.remove (child dir meta_name) fs) ≡ some (file content)
  still_stored = lookup-remove _ _ fs ∙ rw (path_eq-child meta_name name dir apart) stored

  abbrev here : World
  here = sound fs draws ticks

  read_if_at :
      {E : Type 0}
      → read_if env.object_json {E = E} (child dir meta_name) (sound fs draws ticks)
        ≡ (done (some meta), sound fs draws ticks)
  unfolding read_if catch ◌>>=◌ pure
  read_if_at {E = E} =
      rw (read_json_at fs draws ticks env root bucket b there key text meta parsed installed) refl

  drop_data_at :
      drop_data env root dir (some meta) (sound (Fs.remove (child dir meta_name) fs) draws ticks)
      ≡ (done tt, sound left draws ticks)
  unfolding ignore catch pure
  drop_data_at =
      rw
        (
          owned,
          join_plain dir name plain long,
          remove_file_at (child dir name) content (Fs.remove (child dir meta_name) fs) draws ticks
              still_stored,
        )
        refl

  delete_object_at : Runs (delete_object env root bucket key) here (done tt, sound left draws ticks)
  unfolding delete_object
  delete_object_at =
      bind_at _ _ (record { at = require_bucket_at fs draws ticks env root bucket b there })
        (bind_at _ _
          (record { at = path_exists_at (child dir meta_name) text fs draws ticks installed })
          (bind_at _ _ (record { at = read_if_at })
            (bind_at _ _
              (ignore_at (record {
                at = remove_file_at (child dir meta_name) text fs draws ticks installed;
              }))
              (record { at = drop_data_at }))))

  -- The paths of the object are not that of the bucket's metadata.
  elsewhere : (s : Text) → path_eq (child dir s) (child (bucket_dir root bucket) meta_name) ≡ false
  unfolding object_dir objects_root
  elsewhere s = path_eq-ne_depth _ _ (omega arith)

  bucket_left : lookup (child (bucket_dir root bucket) meta_name) left ≡ some (file b)
  bucket_left =
      lookup-remove _ _ _
      ∙ rw (elsewhere name) (lookup-remove _ _ fs ∙ rw (elsewhere meta_name) there)

  meta_gone : lookup (child dir meta_name) left ≡ none
  meta_gone =
      lookup-remove _ _ _
      ∙ rw (lookup-remove (child dir meta_name) (child dir meta_name) fs)
          (ground (arith, path_eq_iff (child dir meta_name) (child dir meta_name)))

  head_object_gone :
      head_object env root bucket key (sound left draws ticks)
      ≡ (failed (Error.no_such_key key), sound left draws ticks)
  unfolding head_object read_or read_json ◌>>=◌ catch raise
  head_object_gone =
      rw
        (
          require_bucket_at left draws ticks env root bucket b bucket_left,
          read-missing (child dir meta_name) left draws ticks meta_gone,
        )
        refl

data_name-apart :
    (env : Env) (law : IsLawful env) (n : ℕ) → text_eq meta_name (data_name env n) ≡ false
unfolding data_name codes
data_name-apart env law n =
    text_eq-ne_length meta_name (data_name env n)
      (omega (arith, law.uuid_length n, length-append (env.uuid n) (codes ".data")))

module _ (env : Env) (law : IsLawful env) (root : FilePath) (bucket key : Text) (body : Body)
    (content_type : Text) (metadata : Metadata) (w w' : World) (r : PutResult)
    (fresh : IsFresh env root (object_dir env root bucket key) w.draws w.fs)
    (ran : put_object env root bucket key body content_type metadata w ≡ (done r, w')) (b : Text)
    (there : lookup (child (bucket_dir root bucket) meta_name) w.fs ≡ some (file b)) where
  -- Under the promises of the crates, where the bucket's metadata is a file and no file stands under
  -- a uuid that is still to be drawn:
  -- once a call of `put_object` has returned, and if no later call fails, `delete_object` returns,
  -- and then `head_object` reports that there is no such key.
  pub delete_object-put_object :
      (w₁ : World) × (delete_object env root bucket key (record w' { io = [] }) ≡ (done tt, w₁))
      × (head_object env root bucket key w₁ ≡ (failed (Error.no_such_key key), w₁))
  delete_object-put_object =
      let st =
        put_object-IsStored env law root bucket key body content_type metadata w w' r fresh ran in
      let there' =
        still_there env law root bucket key body content_type metadata w w' r fresh ran b there
          st in
      let of_drawn =
        λ (P : Text → Type 0) (h : P (data_name env st.drawn.0)). subst P (sym st.drawn.1) h in
      let plain = of_drawn (λ s. has_byte b'/' s ≡ false) (data_name-plain env law st.drawn.0) in
      let long = of_drawn (λ s. 2 < length s) (data_name-long env law st.drawn.0) in
      let apart =
        of_drawn (λ s. text_eq meta_name s ≡ false) (data_name-apart env law st.drawn.0) in
      (
        sound
            (left w'.fs w'.draws w'.ticks env root bucket b there' key st.files.text r.meta
              st.files.parsed st.files.installed st.name (payload body) st.owned plain long apart
              st.files.content)
            w'.draws w'.ticks,
        (delete_object_at w'.fs w'.draws w'.ticks env root bucket b there' key st.files.text r.meta
            st.files.parsed st.files.installed st.name (payload body) st.owned plain long apart
            st.files.content).at,
        head_object_gone w'.fs w'.draws w'.ticks env root bucket b there' key st.files.text r.meta
            st.files.parsed st.files.installed st.name (payload body) st.owned plain long apart
            st.files.content,
      )
