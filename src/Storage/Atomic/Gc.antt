-- ===== src/Storage/Atomic/Gc.antt =====
-- `gc_object_dir` of src/storage.rs: the data files of earlier versions go, the new version stays.
use los_cara.Base.{
  ℕ, true, false, not, ◌&&◌, ◌≡◌, refl, ap, some, none, Option, List, [], ◌∷◌, arith, inl, inr,
  Bool-cases, Text, codes, ends_with, text_eq, text_eq_iff,
}
use los_cara.Error.{ok, err}
use los_cara.Storage.Fs
use los_cara.Storage.Fs.{
  FilePath, Node, dir, file, Fs, lookup, path_eq, path_eq_iff, lookup-remove, child, exists_in,
  parent, entries, is_dir,
}
use los_cara.Storage.Io.{World, ignore}
use los_cara.Storage.Calls.{
  remove_file, read_dir, do_remove_file, do_read_dir, untorn, missing, refused,
}
use los_cara.Storage.Types.{Json, ObjectMeta}
use los_cara.Storage.Names.{meta_name}
use los_cara.Storage.Objects.{gc_entries, gc_object_dir}
use los_cara.Storage.Atomic.Hoare.{
  Hoare, Facts, In, CallPost, syscall_rule, catch_rule, pure_rule, bind_rule, if_rule, if_post,
}
use los_cara.Storage.Atomic.Swap.{IsNew}
use los_cara.Storage.Atomic.Laws.{path_eq-child}

meta_no_data :
    (entry : Text) → ends_with (codes ".data") entry ≡ true → text_eq entry meta_name ≡ false
meta_no_data entry ends = elim (Bool-cases (text_eq entry meta_name)) [
  | inl same ↦ cc (ends, (text_eq_iff entry meta_name).0 same, meta_ends)
  | inr other ↦ other
]
  where
    meta_ends : ends_with (codes ".data") meta_name ≡ false
    meta_ends = unfold ends_with codes in refl

module _ (json : Json ObjectMeta) (fs₀ : Fs) (p : FilePath) (meta : ObjectMeta)
    (name c : Text) where
  abbrev New : Facts
  New fs d = IsNew json fs₀ p meta name c fs

  remove-IsNew :
      (entry : Text) (fs : Fs) (d : ℕ)
      → ends_with (codes ".data") entry ≡ true
      → text_eq entry name ≡ false
      → New fs d
      → New (Fs.remove (child p entry) fs) d
  remove-IsNew entry fs d ends ne n = record {
    text = n.text;
    parsed = n.parsed;
    installed = rw (lookup-remove, not_meta) n.installed;
    content = rw (lookup-remove, not_data) n.content;
    others = λ q s h far. elim (Bool-cases (path_eq (child p entry) q)) [
      | inl same ↦
          cc (far, ap parent ((path_eq_iff (child p entry) q).0 same), (path_eq_iff p p).1 refl)
      | inr other ↦ rw (lookup-remove, other) (n.others q s h far)
    ];
  }
    where
      not_meta : path_eq (child p entry) (child p meta_name) ≡ false
      not_meta = path_eq-child entry meta_name p (meta_no_data entry ends)

      not_data : path_eq (child p entry) (child p name) ≡ false
      not_data = path_eq-child entry name p ne

  remove_data_rule :
      (entry : Text)
      → ends_with (codes ".data") entry ≡ true
      → text_eq entry name ≡ false
      → Hoare (In New) (remove_file (child p entry)) (λ _. In New) (In New) (In New)
  unfolding remove_file do_remove_file
  remove_data_rule entry ends ne =
      syscall_rule New New (λ _. New) (do_remove_file (child p entry)) untorn
        (λ fs d h. go fs d h (lookup (child p entry) fs)) (λ k fs d h. h)
    where
      go :
          (fs : Fs) (d : ℕ)
          → New fs d
          → (found : Option Node)
          → CallPost {A = Unit {0}}
              (λ _. New)
              New
              fs
              d
              (elim found [
                | some (file s) ↦ ok (tt, Fs.remove (child p entry) fs)
                | some dir ↦ err refused
                | none ↦ err missing
              ])
      go fs d h none = h
      go fs d h (some dir) = h
      go fs d h (some (file s)) = remove-IsNew entry fs d ends ne h

  gc_entries_rule :
      {E : Type 0} {X : World → Type 0} (names : List Text)
      → Hoare {E = E} (In New) (gc_entries p name names) (λ _. In New) X (In New)
  unfolding gc_entries ignore
  gc_entries_rule [] = pure_rule tt
  gc_entries_rule (entry ∷ names) =
      bind_rule
        (if_rule (ends_with (codes ".data") entry && not (text_eq entry name))
          (λ e.
            catch_rule (remove_data_rule entry (ground arith) (ground arith)) (λ _. pure_rule tt))
          (λ _. pure_rule tt))
        λ _. gc_entries_rule names

  pub gc_object_dir_rule :
      {E : Type 0} {X : World → Type 0}
      → Hoare {E = E} (In New) (gc_object_dir p name) (λ _. In New) X (In New)
  unfolding gc_object_dir read_dir
  gc_object_dir_rule =
      bind_rule
        (catch_rule
          (syscall_rule New New (λ _. New) (do_read_dir p) untorn
            (λ fs d h. if_post (λ _. New) New fs d (is_dir p fs) _ _ h h) (λ k fs d h. h))
          (λ _. pure_rule []))
        gc_entries_rule
