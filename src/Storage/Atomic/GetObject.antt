-- ===== src/Storage/Atomic/GetObject.antt =====
-- What `get_object` of src/storage.rs yields for an object that `put_object` stored.
use los_cara.Base.{
  ℕ, ◌-◌, ◌<◌, ◌≢◌, Bool, true, false, Option, none, ltb, if◌then◌else◌, ◌≡◌, refl, sym, ◌∙◌, ap,
  subst, some, [], ◌∷◌, ◌++◌, arith, inl, inr, Bool-cases, Text, length, take, drop, codes,
  has_byte, split, starts_with, text_eq, text_eq_iff, ◌==◌, length-append,
}
use los_cara.Error.{ok}
use los_cara.Storage.Fs.{FilePath, Fs, file, lookup, child, join, walk_into, step_into, path_eq}
use los_cara.Storage.Io.{World, done, syscall, ◌>>=◌, catch, map_err, pure}
use los_cara.Storage.Calls.{read, do_read, seek}
use los_cara.Storage.Types.{Env, ObjectMeta, Metadata, PutResult}
use los_cara.Storage.Names.{meta_name, data_name, bucket_dir, objects_root, object_dir}
use los_cara.Storage.Buckets.{require_bucket, bucket_exists}
use los_cara.Storage.Json.{read_json, from_json, read_or, checked}
use los_cara.Storage.Objects.{
  Body, put_object, head_object, owned_file, read_len, get_object_range, get_object,
}
use los_cara.Storage.Atomic.Laws.{IsLawful, path_eq-ne_depth}
use los_cara.Storage.Atomic.Hoare.{Post}
use los_cara.Storage.Atomic.Receive.{payload}
use los_cara.Storage.Atomic.Put.{IsFresh, IsStored}
use los_cara.Storage.Atomic.PutObject.{put_object-atomic}

-- A text without a slash is one component.
split_plain : (s : Text) → has_byte b'/' s ≡ false → split b'/' s ≡ s ∷ []
unfolding split has_byte
split_plain [] h = refl
split_plain (c ∷ s) h = elim (Bool-cases (b'/' == c)) [
  | inl t ↦ ground (arith, h)
  | inr t ↦ let rest : has_byte b'/' s ≡ false = ground arith in rw (t, split_plain s rest) refl
]

pub text_eq-ne_length : (s t : Text) → length s ≢ length t → text_eq s t ≡ false
text_eq-ne_length s t h = elim (Bool-cases (text_eq s t)) [
  | inl same ↦ absurd (h (ap (λ (r : Text). length r) ((text_eq_iff s t).0 same)))
  | inr other ↦ other
]

starts_with-plain : (s : Text) → has_byte b'/' s ≡ false → starts_with (b'/' ∷ []) s ≡ false
unfolding starts_with has_byte
starts_with-plain [] h = refl
starts_with-plain (c ∷ s) h = ground arith

pub join_plain :
    (p : FilePath) (s : Text) → has_byte b'/' s ≡ false → 2 < length s → join p s ≡ child p s
unfolding join walk_into step_into
join_plain p s h le =
    rw
      (
        starts_with-plain s h,
        split_plain s h,
        text_eq-ne_length s [] (omega arith),
        text_eq-ne_length s (b'.' ∷ []) (omega arith),
        text_eq-ne_length s (b'.' ∷ b'.' ∷ []) (omega arith),
      )
      refl

has_byte-append :
    (c : ℕ) (s t : Text) → has_byte c s ≡ false → has_byte c t ≡ false → has_byte c (s ++ t) ≡ false
unfolding has_byte
has_byte-append c [] t h k = k
has_byte-append c (d ∷ s) t h k = ground (arith, has_byte-append c s t)

take_all : (s : Text) → take (length s) s ≡ s
take_all [] = refl
take_all (c ∷ s) = ap (λ r. c ∷ r) (take_all s)

-- The world of a run in which every call goes through.
module _ (fs : Fs) (draws ticks : ℕ) where
  abbrev pub sound : World
  sound = record { fs = fs; io = []; draws = draws; ticks = ticks }

  pub read_at :
      (q : FilePath) (s : Text) → lookup q fs ≡ some (file s) → read q sound ≡ (done s, sound)
  unfolding read syscall do_read lookup
  read_at q s h = rw h refl

  module _ (env : Env) (root : FilePath) (bucket : Text) (b : Text)
      (there : lookup (child (bucket_dir root bucket) meta_name) fs ≡ some (file b)) where
    pub require_bucket_at : require_bucket env root bucket sound ≡ (done tt, sound)
    unfolding require_bucket bucket_exists ◌>>=◌ pure lookup
    require_bucket_at = rw there refl

    module _ (key text : Text) (meta : ObjectMeta)
        (parsed : env.object_json.from_slice text ≡ ok meta)
        (installed : lookup (child (object_dir env root bucket key) meta_name) fs
          ≡ some (file text)) where
      pub read_json_at :
          read_json env.object_json (child (object_dir env root bucket key) meta_name) sound
          ≡ (done meta, sound)
      unfolding read_json from_json ◌>>=◌ pure
      read_json_at =
          rw
            (
              read_at (child (object_dir env root bucket key) meta_name) text installed,
              from_json,
              parsed,
            )
            refl

      head_object_at : head_object env root bucket key sound ≡ (done meta, sound)
      unfolding head_object read_or ◌>>=◌ catch
      head_object_at = rw (require_bucket_at, read_json_at) refl

      module _ (name content : Text) (owned : meta.data_file ≡ some name)
          (plain : has_byte b'/' name ≡ false) (long : 2 < length name)
          (sized : meta.size ≡ length content)
          (stored : lookup (child (object_dir env root bucket key) name) fs
            ≡ some (file content)) where
        owned_at : (absent : Text) → owned_file meta absent sound ≡ (done name, sound)
        unfolding owned_file pure
        owned_at absent = rw owned refl

        checked_at :
            checked (read (join (object_dir env root bucket key) name)) sound
            ≡ (done content, sound)
        unfolding checked map_err catch
        checked_at =
            rw
              (
                join_plain (object_dir env root bucket key) name plain long,
                read_at (child (object_dir env root bucket key) name) content stored,
              )
              refl

        seek_at : (b : Bool) → (if b then checked seek else pure tt) sound ≡ (done tt, sound)
        unfolding checked map_err catch seek syscall pure
        seek_at true = refl
        seek_at false = refl

        get_object_range_at :
            (start : ℕ) (len : Option ℕ)
            → get_object_range env root bucket key start len sound
              ≡ (done (meta, take (read_len meta start len) (drop start content)), sound)
        unfolding get_object_range ◌>>=◌ pure
        get_object_range_at start len =
            rw (head_object_at, owned_at, checked_at, seek_at (ltb 0 start)) refl

        whole : take (meta.size - 0) (drop 0 content) ≡ content
        whole = subst (λ n. take n content ≡ content) (omega (arith, sized)) (take_all content)

        get_object_at : get_object env root bucket key sound ≡ (done (meta, content), sound)
        unfolding get_object
        get_object_at = get_object_range_at 0 none ∙ ap (λ s. (done (meta, s), sound)) whole

pub data_name-plain :
    (env : Env) (law : IsLawful env) (n : ℕ) → has_byte b'/' (data_name env n) ≡ false
unfolding data_name has_byte codes
data_name-plain env law n =
    has_byte-append b'/' (env.uuid n) (codes ".data") (law.uuid_plain n) refl

pub data_name-long : (env : Env) (law : IsLawful env) (n : ℕ) → 2 < length (data_name env n)
unfolding data_name codes
data_name-long env law n =
    omega (arith, law.uuid_length n, length-append (env.uuid n) (codes ".data"))

bucket_apart :
    (env : Env) (root : FilePath) (bucket key : Text)
    → path_eq (bucket_dir root bucket) (object_dir env root bucket key) ≡ false
unfolding object_dir objects_root
bucket_apart env root bucket key =
    path_eq-ne_depth (bucket_dir root bucket) (object_dir env root bucket key) (omega arith)

module _ (env : Env) (law : IsLawful env) (root : FilePath) (bucket key : Text) (body : Body)
    (content_type : Text) (metadata : Metadata) (w w' : World) (r : PutResult)
    (fresh : IsFresh env root (object_dir env root bucket key) w.draws w.fs)
    (ran : put_object env root bucket key body content_type metadata w ≡ (done r, w')) where
  -- What the returned call left.
  abbrev pub Stored : Type 0
  Stored =
      IsStored env w.fs (object_dir env root bucket key) key content_type metadata (payload body)
        r.meta w'.fs

  pub put_object-IsStored : Stored
  put_object-IsStored =
      subst (Post _ _ _) ran
        (put_object-atomic env law root bucket key body content_type metadata w fresh)

  module _ (b : Text)
      (there : lookup (child (bucket_dir root bucket) meta_name) w.fs ≡ some (file b)) where
    pub still_there :
        Stored → lookup (child (bucket_dir root bucket) meta_name) w'.fs ≡ some (file b)
    still_there st =
        st.files.others (child (bucket_dir root bucket) meta_name) b there
          (bucket_apart env root bucket key)

    pub head_object-put_object :
        head_object env root bucket key (record w' { io = [] })
        ≡ (done r.meta, record w' { io = [] })
    head_object-put_object =
        let st = put_object-IsStored in
        head_object_at w'.fs w'.draws w'.ticks env root bucket b (still_there st) key st.files.text
          r.meta st.files.parsed st.files.installed

    pub get_object_range-put_object :
        (start : ℕ) (len : Option ℕ)
        → get_object_range env root bucket key start len (record w' { io = [] }) ≡ (
          done (r.meta, take (read_len r.meta start len) (drop start (payload body))),
          record w' { io = [] },
        )
    get_object_range-put_object start len =
        let st = put_object-IsStored in
        get_object_range_at w'.fs w'.draws w'.ticks env root bucket b (still_there st) key
          st.files.text r.meta st.files.parsed st.files.installed st.name (payload body) st.owned
          (subst (λ s. has_byte b'/' s ≡ false) (sym st.drawn.1)
            (data_name-plain env law st.drawn.0))
          (subst (λ s. 2 < length s) (sym st.drawn.1) (data_name-long env law st.drawn.0))
          st.has_size st.files.content start len

    -- Under the promises of the crates, where the bucket's metadata is a file and no file stands under
    -- a uuid that is still to be drawn:
    -- once a call of `put_object` has returned, `get_object` yields the metadata it returned and the
    -- bytes of the whole body, if no call of it fails.
    pub get_object-put_object :
        get_object env root bucket key (record w' { io = [] })
        ≡ (done (r.meta, payload body), record w' { io = [] })
    get_object-put_object =
        let st = put_object-IsStored in
        get_object_at w'.fs w'.draws w'.ticks env root bucket b (still_there st) key st.files.text
          r.meta st.files.parsed st.files.installed st.name (payload body) st.owned
          (subst (λ s. has_byte b'/' s ≡ false) (sym st.drawn.1)
            (data_name-plain env law st.drawn.0))
          (subst (λ s. 2 < length s) (sym st.drawn.1) (data_name-long env law st.drawn.0))
          st.has_size st.files.content
