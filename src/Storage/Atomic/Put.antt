-- ===== src/Storage/Atomic/Put.antt =====
-- `put_object` of src/storage.rs is atomic: a failed call changes no file that was there, and a kill
-- leaves the old version or the whole new one.
use los_cara.Base.{
  subst, ltb, length, ◌==◌, ◌||◌, ℕ, ◌≤◌, false, ◌||◌, ◌==◌, ltb, ◌≡◌, ◌≢◌, refl, some, [], arith,
  inl, inr, ◌⊎◌, Text, length,
}
use los_cara.Error.{ok}
use los_cara.Storage.Fs.{FilePath, file, Fs, lookup, child, exists_in}
use los_cara.Storage.Io.{World, M}
use los_cara.Storage.Calls.{untorn, path_exists}
use los_cara.Storage.Types.{Env, ObjectMeta, Metadata, max_object_size}
use los_cara.Storage.Names.{meta_name, data_name, object_dir, tmp_file}
use los_cara.Storage.Buckets.{require_bucket, bucket_exists}
use los_cara.Storage.Objects.{write_staged, Body, stage, install, put_object}
use los_cara.Storage.Atomic.Hoare.{
  Hoare, Facts, In, syscall_rule, catch_rule, pure_rule, raise_rule, bind_rule, if_rule,
  weaken_rule, checked_rule,
}
use los_cara.Storage.Atomic.Steps.{
  IsOld, IsSpare, Holds, Staged, create_file_rule, sync_rule, give_up_rule, create_dir_all_rule,
}
use los_cara.Storage.Atomic.Receive.{receive_rule, IsReceived, payload}
use los_cara.Storage.Atomic.Gc.{gc_object_dir_rule}
use los_cara.Storage.Atomic.Swap.{
  IsNew, draw_rule, tick_rule, given_rule, rename_rule, write_json_atomic_rule,
}
use los_cara.Storage.Atomic.Laws.{
  IsLawful, json_tmp, is_within-depth, tmp_file-apart, data-apart, json-apart, json-ne-data,
}

-- A stored object: its metadata and its data file, with the rest of the files as they were.
pub record IsStored (env : Env) (fs₀ : Fs) (p : FilePath) (key content_type : Text)
    (metadata : Metadata) (content : Text) (meta : ObjectMeta) (fs : Fs) : Type 0 where
  pub name : Text
  pub owned : meta.data_file ≡ some name
  pub has_key : meta.key ≡ key
  pub has_size : meta.size ≡ length content
  pub small : meta.size ≤ max_object_size
  pub has_etag : meta.etag ≡ env.hex_encode (env.md5 content)
  pub has_type : meta.content_type ≡ content_type
  pub has_metadata : meta.metadata ≡ metadata
  pub files : IsNew env.object_json fs₀ p meta name content fs
  pub drawn : (n : ℕ) × (name ≡ data_name env n)

-- No file stands where a uuid that is still to be drawn will lead.
pub record IsFresh (env : Env) (root p : FilePath) (d₀ : ℕ) (fs₀ : Fs) : Type 0 where
  pub no_tmp : (n : ℕ) (s : Text) → d₀ ≤ n → lookup (tmp_file env root n) fs₀ ≢ some (file s)
  pub no_data : (n : ℕ) (s : Text) → d₀ ≤ n → lookup (child p (data_name env n)) fs₀ ≢ some (file s)
  pub no_json :
      (n : ℕ) (s : Text) → d₀ ≤ n → lookup (json_tmp env (child p meta_name) n) fs₀ ≢ some (file s)

module _ (fs₀ : Fs) (mp : FilePath) (d₀ : ℕ) where
  abbrev Old : Facts
  Old = IsOld fs₀ mp d₀

  path_exists_rule :
      {E : Type 0} {X : World → Type 0} (q : FilePath)
      → Hoare {E = E} (In Old) (path_exists q) (λ _. In Old) X (In Old)
  unfolding path_exists
  path_exists_rule q =
      catch_rule
        (syscall_rule Old Old (λ _. Old) (λ fs. ok (exists_in q fs, fs)) untorn (λ fs d h. h)
          (λ k fs d h. h))
        (λ _. pure_rule false)

  require_bucket_rule :
      (env : Env) (root : FilePath) (bucket : Text)
      → Hoare (In Old) (require_bucket env root bucket) (λ _. In Old) (In Old) (In Old)
  unfolding require_bucket bucket_exists
  require_bucket_rule env root bucket =
      bind_rule (path_exists_rule _) λ there. if_rule there (λ _. pure_rule tt) (λ _. raise_rule _)

  -- What `stage` returns: the path, the size and the bytes.
  abbrev pub StagedAt : Body → FilePath × ℕ × Text → World → Type 0
  StagedAt body r w =
      (IsSpare fs₀ mp r.0 × IsReceived fs₀ mp d₀ body [] (r.1, r.2))
      × In (Staged fs₀ mp d₀ r.0 r.2) w

  stage_rule :
      (env : Env) (root : FilePath) (body : Body)
      → ((n : ℕ) → d₀ ≤ n → IsSpare fs₀ mp (tmp_file env root n))
      → Hoare (In Old) (stage env root body) (StagedAt body) (In Old) (In Old)
  unfolding stage
  stage_rule env root body spare =
      bind_rule
        (weaken_rule (λ w h. (h, tt)) (λ a w h. h) (λ w h. h) (λ w h. h)
          (draw_rule fs₀ mp d₀ (λ _. Unit {0})))
        λ n. given_rule λ le.
          bind_rule
            (weaken_rule (λ w h. h.0) (λ a w h. h) (λ w h. h) (λ w h. h)
              (checked_rule (create_file_rule fs₀ mp d₀ (tmp_file env root n) (spare n le))))
            λ _.
              bind_rule
                (receive_rule fs₀ mp d₀ (tmp_file env root n) 0 [] body (spare n le) refl
                  (omega arith))
                λ got. given_rule λ received.
                  bind_rule (checked_rule (sync_rule fs₀ mp d₀ (tmp_file env root n) got.1)) λ _.
                    bind_rule (checked_rule (sync_rule fs₀ mp d₀ (tmp_file env root n) got.1)) λ _.
                      weaken_rule (λ w h. ((spare n le, received), h)) (λ a w h. h) (λ w h. h)
                        (λ w h. h) (pure_rule _)

module _ (env : Env) (law : IsLawful env) (root : FilePath) (bucket key : Text) (body : Body)
    (content_type : Text) (metadata : Metadata) (fs₀ : Fs) (d₀ : ℕ)
    (fresh : IsFresh env root (object_dir env root bucket key) d₀ fs₀) where
  abbrev pub p : FilePath
  p = object_dir env root bucket key

  abbrev pub mp : FilePath
  mp = child p meta_name

  abbrev pub Stored : ObjectMeta → World → Type 0
  Stored meta w = IsStored env fs₀ p key content_type metadata (payload body) meta w.fs

  abbrev pub Before : World → Type 0
  Before = In (IsOld fs₀ mp d₀)

  abbrev pub Ends : World → Type 0
  Ends w = Before w ⊎ ((meta : ObjectMeta) × Stored meta w)

  early :
      {E A : Type 0} {P : World → Type 0} {Q : A → World → Type 0} {X : World → Type 0} {m : M E A}
      → Hoare P m Q X Before
      → Hoare P m Q X Ends
  early h = weaken_rule (λ w s. s) (λ a w s. s) (λ w s. s) (λ w s. inl s) h

  data-IsSpare : (n : ℕ) → d₀ ≤ n → IsSpare fs₀ mp (child p (data_name env n))
  data-IsSpare n le = record {
    free = λ s. fresh.no_data n s le;
    apart = data-apart law root bucket key n p;
  }

  json-IsSpare : (n : ℕ) → d₀ ≤ n → IsSpare fs₀ mp (json_tmp env mp n)
  json-IsSpare n le = record {
    free = λ s. fresh.no_json n s le;
    apart = json-apart law root bucket key n p;
  }

  tmp-IsSpare : (n : ℕ) → d₀ ≤ n → IsSpare fs₀ mp (tmp_file env root n)
  tmp-IsSpare n le = record {
    free = λ s. fresh.no_tmp n s le;
    apart = tmp_file-apart law root bucket key n;
  }

  -- The metadata that `put_object` installs.
  abbrev meta_of : ℕ → ℕ → ℕ → Text → ObjectMeta
  meta_of m t size seen = record {
    key = key;
    size = size;
    etag = env.hex_encode (env.md5 seen);
    content_type = content_type;
    last_modified = env.now_ms t;
    metadata = metadata;
    data_file = some (data_name env m);
  }

  module _ (m t size : ℕ) (seen : Text) (le : d₀ ≤ m)
      (received : IsReceived fs₀ mp d₀ body [] (size, seen)) where
    stored :
        (w : World)
        → In
            (λ fs d. IsNew env.object_json fs₀ p (meta_of m t size seen) (data_name env m) seen fs)
            w
        → Stored (meta_of m t size seen) w
    stored w new =
        subst (λ c. IsStored env fs₀ p key content_type metadata c (meta_of m t size seen) w.fs)
          received.1
          (record {
            name = data_name env m;
            owned = refl;
            has_key = refl;
            has_size = received.0;
            small = received.2;
            has_etag = refl;
            has_type = refl;
            has_metadata = refl;
            files = new;
            drawn = (m, refl);
          })

    install_rule :
        Hoare
          (In (Staged fs₀ mp d₀ (child p (data_name env m)) seen))
          (install env root p (child p (data_name env m)) (meta_of m t size seen))
          (λ _ w. Stored (meta_of m t size seen) w)
          Before
          Ends
    unfolding install
    install_rule =
        bind_rule
          (early (
            catch_rule
              (write_json_atomic_rule env.object_json fs₀ p d₀ (data_name env m) seen
                (meta_of m t size seen) env (law.object_roundtrip (meta_of m t size seen))
                json-IsSpare (λ n. json-ne-data law root bucket key n m p)
                (data-apart law root bucket key m p))
              (λ e. give_up_rule fs₀ mp d₀ _ (child p (data_name env m)) _ (data-IsSpare m le))))
          λ _.
            weaken_rule (λ w h. h) (λ a w h. stored w h) (λ w h. h)
              (λ w h. inr (meta_of m t size seen, stored w h))
              (gc_object_dir_rule env.object_json fs₀ p (meta_of m t size seen) (data_name env m)
                seen {X = Before})

  write_rule :
      (r : FilePath × ℕ × Text)
      → IsSpare fs₀ mp r.0 × IsReceived fs₀ mp d₀ body [] (r.1, r.2)
      → Hoare
          (In (Staged fs₀ mp d₀ r.0 r.2))
          (write_staged env root bucket key content_type metadata r)
          (λ r w. Stored r.meta w)
          Before
          Ends
  unfolding write_staged
  write_rule r facts =
      bind_rule
        (early (
          checked_rule
            (create_dir_all_rule fs₀ mp d₀ r.0 r.2 p (is_within-depth mp p (omega arith)))))
        λ _. bind_rule (draw_rule fs₀ mp d₀ (Holds r.0 r.2)) λ m. given_rule λ le.
          bind_rule
            (early (
              checked_rule (
                rename_rule fs₀ mp d₀ r.0 (child p (data_name env m)) r.2 facts.0
                  (data-IsSpare m le))))
            λ _.
              bind_rule (tick_rule (Staged fs₀ mp d₀ (child p (data_name env m)) r.2))
                λ t. bind_rule (install_rule m t r.1 r.2 le facts.1) (λ _. pure_rule _)

  pub put_rule :
      Hoare Before
        (put_object env root bucket key body content_type metadata)
        (λ r w. Stored r.meta w)
        Before
        Ends
  unfolding put_object
  put_rule = bind_rule (early (require_bucket_rule fs₀ mp d₀ env root bucket)) λ _.
      if_rule (length key == 0 || ltb 1024 (length key)) (λ _. raise_rule _)
        λ _.
          bind_rule (early (stage_rule fs₀ mp d₀ env root body tmp-IsSpare))
            λ r. given_rule λ facts. write_rule r facts
