-- ===== src/Storage/Cleanup/Keeps.antt =====
-- What `cleanup_tmp` of src/storage.rs leaves alone.
use los_cara.Base.{
  ℕ, ◌/◌, ◌≡◌, ◌≢◌, refl, sym, ◌∙◌, ap, false, Option, none, some, List, [], ◌∷◌, inl, inr,
  Bool-cases, Text,
}
use los_cara.Error.{ok, err}
use los_cara.Storage.Fs
use los_cara.Storage.Fs.{
  FilePath, Node, dir, file, Fs, lookup, lookup-remove, child, parent, path_eq, path_eq_iff, is_dir,
}
use los_cara.Storage.Io.{World, Outcome, done, failed, killed, ignore, tick}
use los_cara.Storage.Calls.{
  remove_file, read_dir, do_remove_file, do_read_dir, untorn, missing, refused,
}
use los_cara.Storage.Types.{Env}
use los_cara.Storage.Atomic.Hoare.{
  Hoare, Post, Facts, In, CallPost, syscall_rule, catch_rule, pure_rule, bind_rule, if_rule,
  if_post,
}
use los_cara.Storage.Cleanup.{Limit, is_older, tmp_dir, cleanup_entry, cleanup_each, cleanup_tmp}

module _ (env : Env) (root : FilePath) (modified : FilePath → Option ℕ) (q : FilePath)
    (found : Option Node) (outside : parent q ≢ tmp_dir env root modified) where
  -- What stands at `q`.
  abbrev Kept : Facts
  Kept fs d = lookup q fs ≡ found

  apart : (name : Text) → path_eq (child (tmp_dir env root modified) name) q ≡ false
  apart name = elim (Bool-cases (path_eq (child (tmp_dir env root modified) name) q)) [
    | inl same ↦ absurd (outside (ap parent (sym ((path_eq_iff _ _).0 same))))
    | inr other ↦ other
  ]

  remove_file_keeps :
      (name : Text)
      → Hoare
          (In Kept)
          (remove_file (child (tmp_dir env root modified) name))
          (λ _. In Kept)
          (In Kept)
          (In Kept)
  unfolding remove_file do_remove_file
  remove_file_keeps name =
      syscall_rule Kept Kept (λ _. Kept) (do_remove_file t) untorn
        (λ fs d h. go fs d h (lookup t fs)) (λ k fs d h. h)
    where
      t : FilePath
      t = child (tmp_dir env root modified) name

      go :
          (fs : Fs) (d : ℕ)
          → Kept fs d
          → (o : Option Node)
          → CallPost {A = Unit {0}}
              (λ _. Kept)
              Kept
              fs
              d
              (elim o [
                | some (file s) ↦ ok (tt, Fs.remove t fs)
                | some dir ↦ err refused
                | none ↦ err missing
              ])
      go fs d h none = h
      go fs d h (some dir) = h
      go fs d h (some (file s)) = lookup-remove t q fs ∙ rw (apart name) h

  cleanup_entry_keeps :
      {E : Type 0} (limit : Limit) (name : Text) (o : Option ℕ)
      → Hoare
          (In Kept)
          (cleanup_entry env root modified {E = E} limit (child (tmp_dir env root modified) name) o)
          (λ _. In Kept)
          (In Kept)
          (In Kept)
  unfolding cleanup_entry ignore tick
  cleanup_entry_keeps limit name none = pure_rule tt
  cleanup_entry_keeps limit name (some age) =
      bind_rule (record { at = λ w h. h })
        λ t.
          if_rule (is_older (env.now_ms t / 1000) age limit)
            (λ _. catch_rule (remove_file_keeps name) (λ e. pure_rule tt)) (λ _. pure_rule tt)

  cleanup_each_keeps :
      {E : Type 0} (limit : Limit) (names : List Text)
      → Hoare
          (In Kept)
          (cleanup_each env root modified {E = E} limit names)
          (λ _. In Kept)
          (In Kept)
          (In Kept)
  unfolding cleanup_each
  cleanup_each_keeps limit [] = pure_rule tt
  cleanup_each_keeps limit (name ∷ names) =
      bind_rule (cleanup_entry_keeps limit name (modified (child (tmp_dir env root modified) name)))
        λ _. cleanup_each_keeps limit names

  read_dir_keeps :
      Hoare (In Kept) (read_dir (tmp_dir env root modified)) (λ _. In Kept) (In Kept) (In Kept)
  unfolding read_dir
  read_dir_keeps =
      syscall_rule Kept Kept (λ _. Kept) (do_read_dir (tmp_dir env root modified)) untorn
        (λ fs d h. if_post (λ _. Kept) Kept fs d (is_dir (tmp_dir env root modified) fs) _ _ h h)
        (λ k fs d h. h)

  cleanup_tmp_keeps :
      {E : Type 0} (limit : Limit)
      → Hoare
          (In Kept)
          (cleanup_tmp env root modified {E = E} limit)
          (λ _. In Kept)
          (In Kept)
          (In Kept)
  unfolding cleanup_tmp
  cleanup_tmp_keeps limit =
      bind_rule (catch_rule read_dir_keeps (λ e. pure_rule []))
        (λ names. cleanup_each_keeps limit names)

Post-keeps :
    {E A : Type 0} (F : World → Type 0) (r : Outcome E A × World) → Post (λ _. F) F F r → F r.1
Post-keeps F (done a, w) h = h
Post-keeps F (failed e, w) h = h
Post-keeps F (killed, w) h = h

-- Whatever call fails or is cut short by a kill, the housekeeping leaves alone what does not stand
-- directly in the directory for temporary files: every object, upload and key.
pub cleanup_tmp-keeps :
    (E : Type 0) (env : Env) (root : FilePath) (modified : FilePath → Option ℕ) (limit : Limit)
    (q : FilePath) (w : World)
    → parent q ≢ tmp_dir env root modified
    → lookup q (cleanup_tmp env root modified {E = E} limit w).1.fs ≡ lookup q w.fs
cleanup_tmp-keeps E env root modified limit q w outside =
    Post-keeps (λ v. lookup q v.fs ≡ lookup q w.fs) (cleanup_tmp env root modified {E = E} limit w)
      ((cleanup_tmp_keeps env root modified q (lookup q w.fs) outside limit).at w refl)
