-- ===== src/Storage/Atomic/Steps.antt =====
-- The calls of a writer before it swaps the metadata in: no file that was there changes.
use los_cara.Base.{
  ℕ, ◌≤◌, false, ◌≡◌, ◌≢◌, refl, ◌∙◌, some, none, Option, [], ◌∷◌, ◌++◌, arith, inl, inr,
  Bool-cases, Text, take,
}
use los_cara.Error.{Result, ok, err}
use los_cara.Storage.Fs
use los_cara.Storage.Fs.{
  FilePath, Node, dir, file, Fs, lookup, set, path_eq, path_eq_iff, lookup-set, lookup-remove,
  is_dir, parent, is_within,
}
use los_cara.Storage.Io.{IoError, World, ignore}
use los_cara.Storage.Calls.{
  create_file, write_all, sync, remove_file, create_dir_all, append_to, do_create, do_remove_file,
  do_create_dir_all, untorn, make_dir, missing, refused,
}
use los_cara.Storage.Objects.{give_up}
use los_cara.Error.{S3Error}
use los_cara.Storage.Atomic.Hoare.{
  Hoare, Facts, In, CallPost, syscall_rule, catch_rule, pure_rule, raise_rule, bind_rule, if_post,
}

-- The files of `fs₀` are unchanged, and so is what stands at `mp`.
pub record IsOld (fs₀ : Fs) (mp : FilePath) (d₀ : ℕ) (fs : Fs) (d : ℕ) : Type 0 where
  pub kept : (p : FilePath) (s : Text) → lookup p fs₀ ≡ some (file s) → lookup p fs ≡ some (file s)
  pub meta_kept : lookup mp fs ≡ lookup mp fs₀
  pub drawn : d₀ ≤ d

-- A path that was free, and is not `mp`.
pub record IsSpare (fs₀ : Fs) (mp t : FilePath) : Type 0 where
  pub free : (s : Text) → lookup t fs₀ ≢ some (file s)
  pub apart : path_eq t mp ≡ false

abbrev pub Holds : FilePath → Text → Fs → Type 0
Holds t c fs = lookup t fs ≡ some (file c)

pub Holds-set : (t : FilePath) (c : Text) (fs : Fs) → Holds t c (set t (file c) fs)
Holds-set t c fs = rw (lookup-set, (path_eq_iff t t).1 refl)

module _ (fs₀ : Fs) (mp : FilePath) (d₀ : ℕ) where
  abbrev Old : Facts
  Old = IsOld fs₀ mp d₀

  pub set-IsOld :
      {t : FilePath} (n : Node) {fs : Fs} {d : ℕ} → IsSpare fs₀ mp t → Old fs d → Old (set t n fs) d
  set-IsOld {t} n {fs} sp o = record {
    kept = λ p s h. elim (Bool-cases (path_eq t p)) [
      | inl same ↦ absurd (sp.free s (rw ((path_eq_iff t p).0 same) h))
      | inr other ↦ rw (lookup-set, other) (o.kept p s h)
    ];
    meta_kept = rw (lookup-set, sp.apart) o.meta_kept;
    drawn = o.drawn;
  }

  pub remove-IsOld :
      {t : FilePath} {fs : Fs} {d : ℕ} → IsSpare fs₀ mp t → Old fs d → Old (Fs.remove t fs) d
  remove-IsOld {t} {fs} sp o = record {
    kept = λ p s h. elim (Bool-cases (path_eq t p)) [
      | inl same ↦ absurd (sp.free s (rw ((path_eq_iff t p).0 same) h))
      | inr other ↦ rw (lookup-remove, other) (o.kept p s h)
    ];
    meta_kept = rw (lookup-remove, sp.apart) o.meta_kept;
    drawn = o.drawn;
  }

  pub append_to-IsOld :
      {t : FilePath} (s : Text) (fs : Fs) {d : ℕ}
      → IsSpare fs₀ mp t
      → Old fs d
      → Old (append_to t s fs) d
  unfolding append_to
  append_to-IsOld {t} s fs {d} sp o = go (lookup t fs)
    where
      go :
          (found : Option Node)
          → Old (elim found [ some (file old) ↦ set t (file (old ++ s)) fs | _ ↦ fs ]) d
      go none = o
      go (some dir) = o
      go (some (file old)) = set-IsOld (file (old ++ s)) sp o

  -- `tmp` holds what was staged so far.
  abbrev pub Staged : FilePath → Text → Facts
  Staged t c fs d = Old fs d × Holds t c fs

  pub create_file_rule :
      (t : FilePath)
      → IsSpare fs₀ mp t
      → Hoare (In Old) (create_file t) (λ _. In (Staged t [])) (In Old) (In Old)
  unfolding create_file
  create_file_rule t sp =
      syscall_rule Old Old (λ _. Staged t []) (do_create t) untorn
        (λ fs d h.
          if_post (λ _. Staged t []) Old fs d (is_dir t fs) _ _ h
            (if_post (λ _. Staged t []) Old fs d (is_dir (parent t) fs) _ _
              (set-IsOld (file []) sp h, Holds-set t [] fs) h))
        (λ k fs d h. h)

  pub append_to-Holds :
      (t : FilePath) (c s : Text) (fs : Fs) → Holds t c fs → Holds t (c ++ s) (append_to t s fs)
  unfolding append_to
  append_to-Holds t c s fs h = rw (h, append_to) (Holds-set t (c ++ s) fs)

  pub write_all_rule :
      (t : FilePath) (c s : Text)
      → IsSpare fs₀ mp t
      → Hoare (In (Staged t c)) (write_all t s) (λ _. In (Staged t (c ++ s))) (In Old) (In Old)
  unfolding write_all
  write_all_rule t c s sp =
      syscall_rule (Staged t c) Old (λ _. Staged t (c ++ s)) (λ fs. ok (tt, append_to t s fs))
        (λ k. append_to t (take k s))
        (λ fs d h. (append_to-IsOld s fs sp h.0, append_to-Holds t c s fs h.1))
        (λ k fs d h. append_to-IsOld (take k s) fs sp h.0)

  pub sync_rule :
      (t : FilePath) (c : Text)
      → Hoare (In (Staged t c)) sync (λ _. In (Staged t c)) (In Old) (In Old)
  unfolding sync
  sync_rule t c =
      syscall_rule (Staged t c) Old (λ _. Staged t c) (λ fs. ok (tt, fs)) untorn (λ fs d h. h)
        (λ k fs d h. h.0)

  pub remove_file_rule :
      (t : FilePath)
      → IsSpare fs₀ mp t
      → Hoare (In Old) (remove_file t) (λ _. In Old) (In Old) (In Old)
  unfolding remove_file do_remove_file
  remove_file_rule t sp =
      syscall_rule Old Old (λ _. Old) (do_remove_file t) untorn (λ fs d h. go fs d h (lookup t fs))
        (λ k fs d h. h)
    where
      go :
          (fs : Fs) (d : ℕ)
          → Old fs d
          → (found : Option Node)
          → CallPost {A = Unit {0}}
              (λ _. Old)
              Old
              fs
              d
              (elim found [
                | some (file s) ↦ ok (tt, Fs.remove t fs)
                | some dir ↦ err refused
                | none ↦ err missing
              ])
      go fs d h none = h
      go fs d h (some dir) = h
      go fs d h (some (file s)) = remove-IsOld sp h

  pub give_up_rule :
      {A : Type 0} (Q : A → World → Type 0) (t : FilePath) (e : S3Error)
      → IsSpare fs₀ mp t
      → Hoare (In Old) (give_up t e) Q (In Old) (In Old)
  unfolding give_up ignore
  give_up_rule Q t e sp =
      bind_rule (catch_rule (remove_file_rule t sp) (λ _. pure_rule tt)) (λ _. raise_rule e)

  within_split :
      (s : Text) (p : FilePath)
      → is_within mp (s ∷ p) ≡ false
      → (is_within mp p ≡ false) × (path_eq (s ∷ p) mp ≡ false)
  unfolding is_within
  within_split s p h = ground (arith, path_eq_iff mp (s ∷ p), path_eq_iff (s ∷ p) mp)

  -- `create_dir_all` changes no file, and makes no directory at `mp` if that lies below.
  abbrev MadeDirs : FilePath → Fs → Facts
  MadeDirs p fs fs' d =
      ((q : FilePath) (s : Text) → Holds q s fs → Holds q s fs')
      × (is_within mp p ≡ false → lookup mp fs' ≡ lookup mp fs)

  dir_made :
      (p q : FilePath) (fs fs' : Fs) (d : ℕ) (found : Option Node)
      → lookup q fs' ≡ found
      → (is_within mp q ≡ false → (is_within mp p ≡ false) × (path_eq q mp ≡ false))
      → MadeDirs p fs fs' d
      → CallPost {A = Unit {0}} (λ _. MadeDirs q fs) (λ _ _. Unit) fs d (make_dir q found fs')
  dir_made p q fs fs' d none e out m = (
    λ r s h. elim (Bool-cases (path_eq q r)) [
      | inl same ↦ cc (m.0 r s h, e, (path_eq_iff q r).0 same)
      | inr other ↦ rw (lookup-set, other) (m.0 r s h)
    ],
    λ far. rw (lookup-set, (out far).1) (m.1 (out far).0),
  )
  dir_made p q fs fs' d (some dir) e out m = (m.0, λ far. m.1 (out far).0)
  dir_made p q fs fs' d (some (file s)) e out m = tt

  dirs_made :
      (p : FilePath) (fs : Fs) (d : ℕ)
      → CallPost {A = Unit {0}} (λ _. MadeDirs p fs) (λ _ _. Unit) fs d (do_create_dir_all p fs)
  unfolding do_create_dir_all
  dirs_made [] fs d = (λ q s h. h, λ _. refl)
  dirs_made (s ∷ p) fs d = go (do_create_dir_all p fs) (dirs_made p fs d)
    where
      go :
          (r : Result IoError (Unit {0} × Fs))
          → CallPost {A = Unit {0}} (λ _. MadeDirs p fs) (λ _ _. Unit) fs d r
          → CallPost {A = Unit {0}}
              (λ _. MadeDirs (s ∷ p) fs)
              (λ _ _. Unit)
              fs
              d
              (elim r [ err e ↦ err e | ok (u, fs') ↦ make_dir (s ∷ p) (lookup (s ∷ p) fs') fs' ])
      go (err e) h = tt
      go (ok (u, fs')) h =
          dir_made p (s ∷ p) fs fs' d (lookup (s ∷ p) fs') refl (within_split s p) h

  pub create_dir_all_rule :
      (t : FilePath) (c : Text) (p : FilePath)
      → is_within mp p ≡ false
      → Hoare (In (Staged t c)) (create_dir_all p) (λ _. In (Staged t c)) (In Old) (In Old)
  unfolding create_dir_all
  create_dir_all_rule t c p out =
      syscall_rule (Staged t c) Old (λ _. Staged t c) (do_create_dir_all p) untorn
        (λ fs d h. go fs d h (do_create_dir_all p fs) (dirs_made p fs d)) (λ k fs d h. h.0)
    where
      go :
          (fs : Fs) (d : ℕ)
          → Staged t c fs d
          → (r : Result IoError (Unit {0} × Fs))
          → CallPost {A = Unit {0}} (λ _. MadeDirs p fs) (λ _ _. Unit) fs d r
          → CallPost {A = Unit {0}} (λ _. Staged t c) Old fs d r
      go fs d h (err e) m = h.0
      go fs d h (ok (u, fs')) m = (
        record {
          kept = λ q s k. m.0 q s (h.0.kept q s k);
          meta_kept = m.1 out ∙ h.0.meta_kept;
          drawn = h.0.drawn;
        },
        m.0 t c h.1,
      )
