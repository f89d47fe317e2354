-- ===== src/Storage/Live/PutObject.antt =====
-- `put_object` of src/storage.rs returns, where no call is made to fail.
use los_cara.Base.{
  ℕ, ◌≤◌, ltb, ◌==◌, ◌||◌, ◌≡◌, refl, subst, Bool, true, false, not, ◌&&◌, some, List, [], ◌∷◌, map,
  Text, codes, length, ends_with, text_eq,
}
use los_cara.Error.{ok}
use los_cara.Storage.Fs.{FilePath, exists_in, child}
use los_cara.Storage.Io.{World, done, failed, killed, Outcome, ignore}
use los_cara.Storage.Calls.{read_dir, remove_file, path_exists, do_read_dir, do_remove_file, untorn}
use los_cara.Storage.Names.{object_dir, meta_name, data_name, bucket_dir}
use los_cara.Storage.Types.{Env, Metadata, ObjectMeta, PutResult, max_object_size}
use los_cara.Storage.Buckets.{require_bucket, bucket_exists}
use los_cara.Storage.Objects.{
  install, write_staged, put_object, gc_entries, gc_object_dir, data_file_of,
}
use los_cara.Storage.Atomic.Hoare.{
  Post, bind_rule, catch_rule, pure_rule, weaken_rule, if_rule, checked_rule,
}
use los_cara.Storage.Atomic.Laws.{IsLawful}
use los_cara.Storage.Atomic.Receive.{payload}
use los_cara.Storage.Atomic.Put.{IsFresh, IsStored}
use los_cara.Storage.Atomic.PutObject.{put_object-atomic}
use los_cara.Storage.Live.{
  Files, Live, Never, Returns, call-Returns, call_ends, draw-Returns, tick-Returns,
}
use los_cara.Storage.Live.Steps.{never, rename-Returns, dirs-Returns}
use los_cara.Storage.Live.Ready
use los_cara.Storage.Live.Ready.{IsTarget, IsReady, IsApart, tmp_target, data_target}
use los_cara.Storage.Live.Staging.{
  Opens-Placed, Empty, Filling, Placed, Named, stage-Returns, write_json-Returns,
}

-- Any files.
abbrev Any : Files
Any fs = Unit {0}

-- Old data files are dropped as far as that works.
gc_entries-Returns :
    {E : Type 0} (p : FilePath) (keep : Text) (names : List Text)
    → Returns {E = E} Any (gc_entries p keep names) (λ _. Any)
unfolding gc_entries ignore remove_file
gc_entries-Returns p keep [] = pure_rule tt
gc_entries-Returns p keep (name ∷ names) =
    bind_rule
      (if_rule (ends_with (codes ".data") name && not (text_eq name keep))
        (λ _. catch_rule (call_ends (do_remove_file (child p name)) untorn) (λ _. pure_rule tt))
        (λ _. pure_rule tt))
      λ _. gc_entries-Returns p keep names

gc_object_dir-Returns :
    {E : Type 0} (p : FilePath) (keep : Text)
    → Returns {E = E} Any (gc_object_dir p keep) (λ _. Any)
unfolding gc_object_dir read_dir
gc_object_dir-Returns p keep =
    bind_rule (catch_rule (call_ends (do_read_dir p) untorn) (λ _. pure_rule []))
      (gc_entries-Returns p keep)

clash : (b : Bool) → b ≡ true → b ≡ false → ⊥
clash b h k = cc

-- serde_json writes every record with this user metadata that names a data file.
abbrev pub Encodes : Env → Metadata → Type 0
Encodes env metadata =
    (m : ObjectMeta) (d : Text)
    → m.metadata ≡ metadata
    → m.data_file ≡ some d
    → (s : Text) × (env.object_json.to_vec m ≡ ok s)

module _ (env : Env) (root : FilePath) (bucket key : Text) where
  -- The bucket is there, and nothing is in the way of the writer.
  abbrev pub Writable : Files
  Writable fs =
      (exists_in (child (bucket_dir root bucket) meta_name) fs ≡ true)
      × Empty env root (object_dir env root bucket key) fs

module _ (env : Env) (root : FilePath) where
  install-Returns :
      (p data_path : FilePath) (meta : ObjectMeta) (text : Text)
      → IsApart env root p
      → env.object_json.to_vec meta ≡ ok text
      → Returns (Named env root p) (install env root p data_path meta) (λ _. Any)
  unfolding install
  install-Returns p data_path meta text apart is =
      bind_rule (catch_rule (write_json-Returns env root p apart meta text is) (λ e. never _)) λ _.
        weaken_rule (λ w h. (h.0, tt)) (λ a w h. h) (λ w h. h) (λ w h. h)
          (gc_object_dir-Returns p (data_file_of meta))

  module _ (bucket key : Text) (apart : IsApart env root (object_dir env root bucket key)) where
    abbrev place : FilePath
    place = object_dir env root bucket key

    write_staged-Returns :
        (content_type : Text) (metadata : Metadata) (staged : FilePath × ℕ × Text)
        → Encodes env metadata
        → IsTarget env root place staged.0
        → Returns
            (Filling env root place staged.0)
            (write_staged env root bucket key content_type metadata staged)
            (λ _. Any)
    unfolding write_staged
    write_staged-Returns content_type metadata staged encodes at =
        bind_rule
          (checked_rule (
            dirs-Returns place _ (Placed env root place staged.0) (λ fs f. f.1)
              (λ fs fs' f o. Opens-Placed env root place apart _ fs fs' at f o)))
          λ _. bind_rule (draw-Returns _) λ m.
            bind_rule
              (checked_rule (
                rename-Returns staged.0 (Placed env root place staged.0) (Named env root place)
                  (child place (data_name env m)) (λ fs f. (f.2, f.0.1 _ (data_target m), f.1))
                  (λ fs r f.
                    Ready.move-IsReady env root place _ _ r fs at (data_target m) (f.0, f.1))))
              λ _. bind_rule (tick-Returns _) λ t.
                let (text, is) = encodes _ _ refl refl in
                bind_rule (install-Returns place _ _ text apart is) λ _. pure_rule _

    require_bucket-Returns :
        Returns
          (Writable env root bucket key)
          (require_bucket env root bucket)
          (λ _. Empty env root place)
    unfolding require_bucket bucket_exists path_exists
    require_bucket-Returns =
        bind_rule
          (catch_rule
            (call-Returns (Writable env root bucket key)
              (λ b fs. (b ≡ true) × Empty env root place fs) _ untorn (λ fs f. (_, fs, refl, f)))
            (λ e. never _))
          λ there.
            if_rule there
              (λ _.
                weaken_rule (λ w h. (h.0, h.1.1)) (λ a w h. h) (λ w h. h) (λ w h. h) (pure_rule tt))
              (λ e. record { at = λ w h. absurd (clash there h.1.0 e) })

    put_object-Returns :
        (chunks : List Text) (content_type : Text) (metadata : Metadata)
        → Encodes env metadata
        → (length key == 0 || ltb 1024 (length key)) ≡ false
        → length (payload (map ok chunks)) ≤ max_object_size
        → Returns
            (Writable env root bucket key)
            (put_object env root bucket key (map ok chunks) content_type metadata)
            (λ _. Any)
    unfolding put_object
    put_object-Returns chunks content_type metadata encodes fits small =
        bind_rule require_bucket-Returns λ _.
          if_rule (length key == 0 || ltb 1024 (length key))
            (λ e. record {
              at = λ w h. absurd (clash (length key == 0 || ltb 1024 (length key)) e fits);
            })
            (λ _. bind_rule (stage-Returns env root place apart chunks small) λ staged. record {
              at = λ w h.
                  (write_staged-Returns content_type metadata staged encodes h.1.0).at w
                    (h.0, h.1.1);
            })

-- A run that can only return does.
returned :
    {E A : Type 0} (r : Outcome E A × World)
    → Post (λ _. Live Any) Never Never r
    → (a : A) × (w' : World) × (r ≡ (done a, w'))
returned (done a, w) h = (a, w, refl)
returned (failed e, w) h = absurd h
returned (killed, w) h = absurd h

-- Under the promises of the crates, and where serde_json writes a record with the
-- given user metadata; where
-- no call is made to fail, the bucket is there, the directory of temporary files is there and no
-- object's directory is in it, no directory stands at a path that is to be written and no file in
-- the way of the object's directory, and no file stands under a uuid that is still to be drawn: for
-- a key of 1 to 1024 bytes and a body without an error of at most 5 GiB, `put_object` returns, and
-- the object is stored with the whole body and the metadata that it returned.
pub put_object-completes :
    (env : Env) (law : IsLawful env) (root : FilePath) (bucket key : Text)
    (apart : IsApart env root (object_dir env root bucket key)) (chunks : List Text)
    (content_type : Text) (metadata : Metadata) (w : World)
    → Encodes env metadata
    → w.io ≡ []
    → Writable env root bucket key w.fs
    → IsFresh env root (object_dir env root bucket key) w.draws w.fs
    → (length key == 0 || ltb 1024 (length key)) ≡ false
    → length (payload (map ok chunks)) ≤ max_object_size
    → (r : PutResult) × (w' : World) × (put_object env root bucket key
          (map ok chunks)
          content_type
          metadata
          w
        ≡ (done r, w'))
      × IsStored env w.fs
          (object_dir env root bucket key)
          key
          content_type
          metadata
          (payload (map ok chunks))
          r.meta
          w'.fs
put_object-completes env law root bucket key apart chunks content_type metadata w encodes live can
      fresh fits small =
    let (r, w', is) =
      returned (put_object env root bucket key (map ok chunks) content_type metadata w) (
        (put_object-Returns env root bucket key apart chunks content_type metadata encodes fits
            small).at
          w (live, can)) in
    (
      r,
      w',
      is,
      subst (Post _ _ _) is
          (put_object-atomic env law root bucket key (map ok chunks) content_type metadata w fresh),
    )
