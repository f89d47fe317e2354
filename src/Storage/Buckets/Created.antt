-- ===== src/Storage/Buckets/Created.antt =====
-- What `create_bucket` of src/storage.rs leaves behind where it returns.
use los_cara.Base.{
  ◌≡◌, refl, ◌∙◌, subst, Bool, true, false, not, Option, none, some, [], Text, codes, ℕ,
  if◌then◌else◌,
}
use los_cara.Error.{Result, ok, err}
use los_cara.Storage.Fs
use los_cara.Storage.Fs.{
  FilePath, Fs, Node, dir, file, lookup, lookup-set, path_eq, path_eq_iff, is_dir, exists_in, child,
  parent,
}
use los_cara.Storage.Io.{World, IoError, done, catch, pure, map_err, draw, ◌>>=◌}
use los_cara.Storage.Calls.{
  create_file, write_all, rename, write, create_dir_all, path_exists, do_create, do_rename,
  do_create_dir_all, append_to, untorn, missing, refused,
}
use los_cara.Storage.Names.{valid_bucket_name, bucket_dir, meta_name}
use los_cara.Storage.Types.{Env, BucketMeta, Json}
use los_cara.Storage.Json.{checked, write_json_atomic, read_json, from_json}
use los_cara.Storage.Atomic.GetObject.{sound, read_at, require_bucket_at}
use los_cara.Storage.Buckets.{create_bucket, bucket_created}
use los_cara.Storage.Atomic.Laws.{json_tmp}
use los_cara.Storage.Atomic.Swap.{given_rule, tick_rule}
use los_cara.Storage.Atomic.Hoare.{
  Hoare, Post, Facts, In, CallPost, syscall_rule, bind_rule, catch_rule, pure_rule, raise_rule,
  lift_rule, weaken_rule, if_rule, if_post, checked_rule,
}

abbrev Any : Facts
Any fs d = Unit {0}

abbrev pub Holds : FilePath → Text → Facts
Holds p s fs d = lookup p fs ≡ some (file s)

set_found : (p : FilePath) (n : Node) (fs : Fs) → lookup p (Fs.set p n fs) ≡ some n
set_found p n fs = rw (lookup-set p p n fs, (path_eq_iff p p).1 refl) refl

create_file-Holds :
    (p : FilePath) → Hoare (In Any) (create_file p) (λ _. In (Holds p [])) (In Any) (In Any)
unfolding create_file
create_file-Holds p =
    syscall_rule Any Any (λ _. Holds p []) (do_create p) untorn
      (λ fs d h.
        if_post (λ _. Holds p []) Any fs d (is_dir p fs) _ _ tt
          (if_post (λ _. Holds p []) Any fs d (is_dir (parent p) fs) _ _ (set_found p (file []) fs)
            tt))
      (λ k fs d h. tt)

append_to-Holds :
    (p : FilePath) (s : Text) (fs : Fs)
    → lookup p fs ≡ some (file [])
    → lookup p (append_to p s fs) ≡ some (file s)
unfolding append_to
append_to-Holds p s fs h = rw (append_to, h) (set_found p (file s) fs)

write_all-Holds :
    (p : FilePath) (s : Text)
    → Hoare (In (Holds p [])) (write_all p s) (λ _. In (Holds p s)) (In Any) (In Any)
unfolding write_all
write_all-Holds p s =
    syscall_rule (Holds p []) Any (λ _. Holds p s) (λ fs. ok (tt, append_to p s fs)) _
      (λ fs d h. append_to-Holds p s fs h) (λ k fs d h. tt)

rename-Holds :
    (p q : FilePath) (s : Text)
    → Hoare (In (Holds p s)) (rename p q) (λ _. In (Holds q s)) (In Any) (In Any)
unfolding rename do_rename
rename-Holds p q s =
    syscall_rule (Holds p s) Any (λ _. Holds q s) (do_rename p q) untorn
      (λ fs d h. go fs d (lookup p fs) h) (λ k fs d h. tt)
  where
    go :
        (fs : Fs) (d : ℕ) (found : Option Node)
        → found ≡ some (file s)
        → CallPost {A = Unit {0}}
            (λ _. Holds q s)
            Any
            fs
            d
            (elim found [
              | some (file s) ↦
                  if is_dir q fs
                  then err refused
                  else if is_dir (parent q) fs
                  then ok (tt, Fs.set q (file s) (Fs.remove p fs))
                  else err missing
              | some dir ↦ err refused
              | none ↦ err missing
            ])
    go fs d none h = tt
    go fs d (some dir) h = tt
    go fs d (some (file t)) h =
        if_post (λ _. Holds q s) Any fs d (is_dir q fs) _ _ tt
          (if_post (λ _. Holds q s) Any fs d (is_dir (parent q) fs) _ _
            (set_found q (file t) (Fs.remove p fs) ∙ h) tt)

draw-Any : {E : Type 0} → Hoare {E = E} (In Any) draw (λ _. In Any) (In Any) (In Any)
unfolding draw
draw-Any = record { at = λ w h. h }

module _ {T : Type 0} (json : Json T) (env : Env) (path : FilePath) (value : T) where
  -- The value stands at the path, as serde_json writes it.
  abbrev Written : Facts
  Written fs d = (s : Text) × (json.to_vec value ≡ ok s) × (lookup path fs ≡ some (file s))

  write_json_atomic-Written :
      Hoare (In Any) (write_json_atomic json env path value) (λ _. In Written) (In Any) (In Any)
  unfolding write_json_atomic write
  write_json_atomic-Written = bind_rule draw-Any λ n.
      bind_rule {Q = λ s w. (json.to_vec value ≡ ok s) × In Any w}
        (lift_rule (json.to_vec value) (λ w h. tt) (λ s is w h. (is, tt)))
        λ s. given_rule λ is.
          bind_rule
            (bind_rule (create_file-Holds (json_tmp env path n))
              (λ _. write_all-Holds (json_tmp env path n) s))
            λ _.
              weaken_rule (λ w h. h) (λ _ w h. (s, is, h)) (λ w h. h) (λ w h. h)
                (rename-Holds (json_tmp env path n) path s)

module _ (env : Env) (root : FilePath) (name : Text) where
  abbrev meta_path : FilePath
  meta_path = child (bucket_dir root name) meta_name

  abbrev pub bucket_at : ℕ → BucketMeta
  bucket_at t = record { name = name; created = env.now_ms t }

  -- Where the bucket is new, its metadata stand in its file.
  abbrev IsCreated : Bool → World → Type 0
  IsCreated true w =
      (t : ℕ) × (s : Text) × (env.bucket_json.to_vec (bucket_at t) ≡ ok s)
      × (lookup meta_path w.fs ≡ some (file s))
  IsCreated false w = Unit

  path_exists-Any :
      {E : Type 0} (q : FilePath)
      → Hoare {E = E} (In Any) (path_exists q) (λ _. In Any) (In Any) (In Any)
  unfolding path_exists
  path_exists-Any q =
      catch_rule
        (syscall_rule Any Any (λ _. Any) (λ fs. ok (exists_in q fs, fs)) untorn (λ fs d h. tt)
          (λ k fs d h. tt))
        (λ e. pure_rule false)

  create_dir_all-Any :
      (q : FilePath) → Hoare (In Any) (create_dir_all q) (λ _. In Any) (In Any) (In Any)
  unfolding create_dir_all
  create_dir_all-Any q =
      syscall_rule Any Any (λ _. Any) (do_create_dir_all q) untorn
        (λ fs d h. go fs d (do_create_dir_all q fs)) (λ k fs d h. tt)
    where
      go :
          (fs : Fs) (d : ℕ) (r : Result IoError (Unit {0} × Fs))
          → CallPost {A = Unit {0}} (λ _. Any) Any fs d r
      go fs d (ok r) = tt
      go fs d (err e) = tt

  create_bucket-IsCreated : Hoare (In Any) (create_bucket env root name) IsCreated (In Any) (In Any)
  unfolding create_bucket
  create_bucket-IsCreated =
      if_rule (not (valid_bucket_name name)) (λ _. raise_rule _)
        λ _. bind_rule (path_exists-Any meta_path) λ there.
          if_rule there (λ _. pure_rule false)
            λ _.
              bind_rule
                (checked_rule (create_dir_all-Any (child (bucket_dir root name) (codes "objects"))))
                λ _. bind_rule (tick_rule Any) λ t.
                  bind_rule
                    (checked_rule
                      (write_json_atomic-Written env.bucket_json env meta_path (bucket_at t)))
                    λ _.
                      weaken_rule (λ w h. (t, h.0, h.1, h.2)) (λ b w h. h) (λ w h. h) (λ w h. h)
                        (pure_rule true)

module _ (env : Env) (root : FilePath) (name : Text) (fs : Fs) (draws ticks : ℕ) (s : Text)
    (meta : BucketMeta) (parsed : env.bucket_json.from_slice s ≡ ok meta)
    (there : lookup (child (bucket_dir root name) meta_name) fs ≡ some (file s)) where
  abbrev calm : World
  calm = sound fs draws ticks

  read_meta_at :
      checked (read_json env.bucket_json (child (bucket_dir root name) meta_name)) calm
      ≡ (done meta, calm)
  unfolding checked map_err read_json from_json catch ◌>>=◌ pure
  read_meta_at =
      rw
        (read_at fs draws ticks (child (bucket_dir root name) meta_name) s there, from_json, parsed)
        refl

  bucket_created_at : bucket_created env root name calm ≡ (done meta.created, calm)
  unfolding bucket_created ◌>>=◌ pure
  bucket_created_at = rw (require_bucket_at fs draws ticks env root name s there, read_meta_at) refl

-- Where serde_json reads back the metadata of a bucket: once `create_bucket` has returned that the
-- bucket is new, whatever calls of it failed on the way, `bucket_created` returns the time of a
-- clock reading, if no later call fails.
pub bucket_created-create_bucket :
    (env : Env) (root : FilePath) (name : Text) (w w' : World)
    → ((m : BucketMeta) (s : Text)
        → env.bucket_json.to_vec m ≡ ok s
        → env.bucket_json.from_slice s ≡ ok m)
    → create_bucket env root name w ≡ (done true, w')
    → (t : ℕ) × (bucket_created env root name (record w' { io = [] })
        ≡ (done (env.now_ms t), record w' { io = [] }))
bucket_created-create_bucket env root name w w' roundtrip ran =
    let (t, s, is, there) =
      subst (Post (IsCreated env root name) (In Any) (In Any)) ran
        ((create_bucket-IsCreated env root name).at w tt) in
    (
      t,
      bucket_created_at env root name w'.fs w'.draws w'.ticks s (bucket_at env root name t)
          (roundtrip (bucket_at env root name t) s is) there,
    )
