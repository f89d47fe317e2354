-- ===== src/Storage/Live/Staging.antt =====
-- Staging a body and writing metadata in src/storage.rs, where no call is made to fail.
use los_cara.Base.{
  ℕ, ◌+◌, ◌≤◌, ltb, ◌≡◌, sym, ◌∙◌, subst, true, List, [], ◌∷◌, ◌++◌, map, arith, Text, length,
  length-append,
}
use los_cara.Error.{Result, ok}
use los_cara.Storage.Fs
use los_cara.Storage.Fs.{
  FilePath, Fs, Node, dir, file, lookup, is_dir, exists_in, is_within, child, parent,
}
use los_cara.Storage.Io.{IoError, pure}
use los_cara.Storage.Json.{lift, write_json_atomic}
use los_cara.Storage.Calls.{write}
use los_cara.Storage.Names.{tmp_file, meta_name, with_extension}
use los_cara.Storage.Types.{Env, ObjectMeta, max_object_size}
use los_cara.Storage.Objects.{receive, stage}
use los_cara.Storage.Atomic.Hoare.{
  Post, bind_rule, catch_rule, pure_rule, weaken_rule, if_rule, checked_rule,
}
use los_cara.Storage.Atomic.Laws.{json_tmp}
use los_cara.Storage.Atomic.Receive.{payload}
use los_cara.Storage.Live.{Files, Live, Never, Returns, draw-Returns}
use los_cara.Storage.Live.Files
use los_cara.Storage.Live.Files.{IsFree, IsFile, IsOpen, Opens}
use los_cara.Storage.Live.Steps.{never, create-Returns, write-Returns, rename-Returns, sync-Returns}
use los_cara.Storage.Live.Ready
use los_cara.Storage.Live.Ready.{
  IsTarget, IsReady, IsApart, tmp_target, data_target, json_target, meta_target,
}

module _ (env : Env) (root p : FilePath) where
  -- Before the body arrives, while it is written to `t`, and once the object's directory is there.
  abbrev pub Empty : Files
  Empty fs = IsReady env root p fs × IsOpen p fs

  abbrev pub Filling : FilePath → Files
  Filling t fs = IsReady env root p fs × IsOpen p fs × IsFile t fs

  abbrev pub Named : Files
  Named fs = IsReady env root p fs × (is_dir p fs ≡ true)

  abbrev pub Placed : FilePath → Files
  Placed t fs = IsReady env root p fs × (is_dir p fs ≡ true) × IsFile t fs

  module _ (apart : IsApart env root p) where
    set-Filling :
        (t : FilePath) (s : Text) (fs : Fs)
        → IsTarget env root p t
        → Empty fs
        → Filling t (Fs.set t (file s) fs)
    set-Filling t s fs at (ready, clear) = (
      Ready.set-IsReady env root p t s fs at ready,
      Files.set-IsOpen t p s fs (Ready.target_outside env root p apart t at) clear,
      Files.set-IsFile t s fs,
    )

    set-Placed :
        (t : FilePath) (s : Text) (fs : Fs)
        → IsTarget env root p t
        → Named fs
        → Placed t (Fs.set t (file s) fs)
    set-Placed t s fs at (ready, there) = (
      Ready.set-IsReady env root p t s fs at ready,
      Files.set-is_dir t p (file s) fs (ready.1 t at) there,
      Files.set-IsFile t s fs,
    )

    lift-Returns :
        {T : Type 0} {r : Result IoError T} {v : T} → r ≡ ok v → Returns Named (lift r) (λ _. Named)
    unfolding lift pure
    lift-Returns {r} is = record {
      at = λ w h. subst (λ r. Post (λ _. Live Named) Never Never (lift r w)) (sym is) h;
    }

    receive-Returns :
        (t : FilePath) (size : ℕ) (seen : Text) (chunks : List Text)
        → IsTarget env root p t
        → size + length (payload (map ok chunks)) ≤ max_object_size
        → Returns (Filling t) (receive t size seen (map ok chunks)) (λ r. Filling t)
    unfolding receive
    receive-Returns t size seen [] at le = pure_rule (size, seen)
    receive-Returns t size seen (chunk ∷ chunks) at le =
        if_rule (ltb max_object_size (size + length chunk)) (λ over. absurd (ground (arith, fed)))
          (λ fits.
            bind_rule
              (catch_rule
                (write-Returns t (Filling t) (Filling t) chunk (λ fs f. f.2)
                  (λ fs r f. set-Filling t r fs at (f.0, f.1)))
                (λ e. never _))
              (λ _.
                receive-Returns t (size + length chunk) (seen ++ chunk) chunks at
                  (omega (arith, le, fed))))
      where
        fed :
            length (payload (map ok (chunk ∷ chunks)))
            ≡ length chunk + length (payload (map ok chunks))
        fed = length-append chunk (payload (map ok chunks))

    pub stage-Returns :
        (chunks : List Text)
        → length (payload (map ok chunks)) ≤ max_object_size
        → Returns Empty
            (stage env root (map ok chunks))
            (λ r fs. IsTarget env root p r.0 × Filling r.0 fs)
    unfolding stage tmp_file
    stage-Returns chunks le = bind_rule (draw-Returns Empty) λ n.
        let at : IsTarget env root p (tmp_file env root n) = tmp_target n in
        bind_rule
          (checked_rule (
            create-Returns (tmp_file env root n) Empty (Filling (tmp_file env root n))
              (λ fs f. (f.0.1 _ at, f.0.0)) (λ fs f. set-Filling _ [] fs at f)))
          λ _.
            bind_rule (receive-Returns (tmp_file env root n) 0 [] chunks at (omega (arith, le)))
              λ got. bind_rule (checked_rule (sync-Returns (Filling (tmp_file env root n)))) λ _.
                bind_rule (checked_rule (sync-Returns (Filling (tmp_file env root n)))) λ _.
                  weaken_rule (λ w h. (h.0, (at, h.1))) (λ a w h. h) (λ w h. h) (λ w h. h)
                    (pure_rule (tmp_file env root n, got.0, got.1))

    pub write_json-Returns :
        (meta : ObjectMeta) (text : Text)
        → env.object_json.to_vec meta ≡ ok text
        → Returns Named
            (write_json_atomic env.object_json env (child p meta_name) meta)
            (λ _. Named)
    unfolding write_json_atomic with_extension write lift
    write_json-Returns meta text is = bind_rule (draw-Returns Named) λ n.
        let at : IsTarget env root p (json_tmp env (child p meta_name) n) = json_target n in
        bind_rule (lift-Returns is) λ t.
          bind_rule
            (bind_rule
              (create-Returns _ Named (Placed (json_tmp env (child p meta_name) n))
                (λ fs f. (f.0.1 _ at, f.1)) (λ fs f. set-Placed _ [] fs at f))
              (λ _.
                write-Returns _ (Placed (json_tmp env (child p meta_name) n))
                  (Placed (json_tmp env (child p meta_name) n)) t (λ fs f. f.2)
                  (λ fs r f. set-Placed _ r fs at (f.0, f.1))))
            λ _.
              rename-Returns _ (Placed (json_tmp env (child p meta_name) n)) Named
                (child p meta_name) (λ fs f. (f.2, f.0.1 _ meta_target, f.1))
                (λ fs r f. Ready.move-IsReady env root p _ _ r fs at meta_target (f.0, f.1))

    pub Opens-Placed :
        (t : FilePath) (fs fs' : Fs)
        → IsTarget env root p t
        → Filling t fs
        → Opens p fs fs'
        → Placed t fs'
    Opens-Placed t fs fs' at (ready, clear, (s, is)) opens = (
      Ready.Opens-IsReady env root p apart fs fs' opens ready,
      opens.1,
      (s, opens.2 t (Ready.target_outside env root p apart t at) ∙ is),
    )
