-- ===== src/Storage/Live/Files.antt =====
-- How the calls under src/storage.rs change which paths are directories and which are files.
use los_cara.Base.{
  ◌≡◌, ◌≢◌, refl, sym, ◌∙◌, ap, subst, Bool, true, false, Option, none, some, [], ◌∷◌, ◌++◌, Text,
  inl, inr, Bool-cases, arith, if◌then◌else◌,
}
use los_cara.Error.{ok}
use los_cara.Storage.Fs
use los_cara.Storage.Fs.{
  FilePath, Node, dir, file, Fs, lookup, lookup-set, lookup-remove, path_eq, path_eq_iff, is_within,
  is_dir, parent, child,
}
use los_cara.Storage.Atomic.Laws.{is_within-depth}
use los_cara.Storage.Calls.{do_create_dir_all, append_to}

-- A path at which no directory stands; the root is one.
abbrev pub IsFree : FilePath → Fs → Type 0
IsFree p fs = is_dir p fs ≡ false

abbrev pub IsFile : FilePath → Fs → Type 0
IsFile p fs = (s : Text) × (lookup p fs ≡ some (file s))

-- No file stands at the path or above it.
abbrev pub IsOpen : FilePath → Fs → Type 0
IsOpen p fs = (q : FilePath) (s : Text) → is_within q p ≡ true → lookup q fs ≢ some (file s)

-- What `is_dir` reads at a path below the root.
abbrev pub is_dir_node : Option Node → Bool
is_dir_node n = elim n [ some dir ↦ true | _ ↦ false ]

set-node :
    (t q : FilePath) (n : Node) (fs : Fs) (b : Bool)
    → path_eq t q ≡ b
    → lookup q (Fs.set t n fs) ≡ (if b then some n else lookup q fs)
set-node t q n fs b h = rw (lookup-set t q n fs, h) refl

remove-node :
    (t q : FilePath) (fs : Fs) (b : Bool)
    → path_eq t q ≡ b
    → lookup q (Fs.remove t fs) ≡ (if b then none else lookup q fs)
remove-node t q fs b h = rw (lookup-remove t q fs, h) refl

pub set-IsFree :
    (t q : FilePath) (s : Text) (fs : Fs) → IsFree q fs → IsFree q (Fs.set t (file s) fs)
set-IsFree t [] s fs h = h
set-IsFree t (x ∷ q) s fs h = elim (Bool-cases (path_eq t (x ∷ q))) [
  | inl same ↦ ap is_dir_node (set-node t (x ∷ q) (file s) fs true same)
  | inr other ↦ ap is_dir_node (set-node t (x ∷ q) (file s) fs false other) ∙ h
]

pub remove-IsFree : (t q : FilePath) (fs : Fs) → IsFree q fs → IsFree q (Fs.remove t fs)
remove-IsFree t [] fs h = h
remove-IsFree t (x ∷ q) fs h = elim (Bool-cases (path_eq t (x ∷ q))) [
  | inl same ↦ ap is_dir_node (remove-node t (x ∷ q) fs true same)
  | inr other ↦ ap is_dir_node (remove-node t (x ∷ q) fs false other) ∙ h
]

-- A free path is no directory's.
apart : (t q : FilePath) (fs : Fs) → IsFree t fs → is_dir q fs ≡ true → path_eq t q ≡ false
apart t q fs h k = elim (Bool-cases (path_eq t q)) [
  | inl same ↦ absurd (clash (subst (λ p. IsFree p fs) ((path_eq_iff t q).0 same) h))
  | inr other ↦ other
]
  where
    clash : IsFree q fs → ⊥
    clash e = cc

pub set-is_dir :
    (t q : FilePath) (n : Node) (fs : Fs)
    → IsFree t fs
    → is_dir q fs ≡ true
    → is_dir q (Fs.set t n fs) ≡ true
set-is_dir t [] n fs h k = refl
set-is_dir t (x ∷ q) n fs h k =
    ap is_dir_node (set-node t (x ∷ q) n fs false (apart t (x ∷ q) fs h k)) ∙ k

pub remove-is_dir :
    (t q : FilePath) (fs : Fs) → IsFree t fs → is_dir q fs ≡ true → is_dir q (Fs.remove t fs) ≡ true
remove-is_dir t [] fs h k = refl
remove-is_dir t (x ∷ q) fs h k =
    ap is_dir_node (remove-node t (x ∷ q) fs false (apart t (x ∷ q) fs h k)) ∙ k

pub set-IsFile : (t : FilePath) (s : Text) (fs : Fs) → IsFile t (Fs.set t (file s) fs)
set-IsFile t s fs = (s, set-node t t (file s) fs true ((path_eq_iff t t).1 refl))

pub append-set :
    (t : FilePath) (s : Text) (fs : Fs)
    → IsFile t fs
    → (r : Text) × (append_to t s fs ≡ Fs.set t (file r) fs)
unfolding append_to
append-set t s fs (old, is) = (old ++ s, rw (append_to, is) refl)

pub set-IsOpen :
    (t p : FilePath) (s : Text) (fs : Fs)
    → is_within t p ≡ false
    → IsOpen p fs
    → IsOpen p (Fs.set t (file s) fs)
set-IsOpen t p s fs out h q r k is = elim (Bool-cases (path_eq t q)) [
  | inl same ↦ clash (subst (λ x. is_within x p ≡ false) ((path_eq_iff t q).0 same) out)
  | inr other ↦ h q r k (sym (set-node t q (file s) fs false other) ∙ is)
]
  where
    clash : is_within q p ≡ false → ⊥
    clash e = cc

-- What `create_dir_all` leaves of a directory tree in which no file is in its way.
abbrev pub Opens : FilePath → Fs → Fs → Type 0
Opens p fs fs' =
    (do_create_dir_all p fs ≡ ok (tt, fs'))
    × (is_dir p fs' ≡ true)
    × ((q : FilePath) → is_within q p ≡ false → lookup q fs' ≡ lookup q fs)
    × ((q : FilePath) → is_dir q fs ≡ true → is_dir q fs' ≡ true)

within_child : (q p : FilePath) (s : Text) → is_within q p ≡ true → is_within q (s ∷ p) ≡ true
unfolding is_within
within_child q p s h = ground arith

outside_child :
    (q p : FilePath) (s : Text)
    → is_within q (s ∷ p) ≡ false
    → (path_eq q (s ∷ p) ≡ false) × (is_within q p ≡ false)
unfolding is_within
outside_child q p s h = ground arith

within_self : (p : FilePath) → is_within p p ≡ true
unfolding is_within
within_self [] = (path_eq_iff [] []).1 refl
within_self (s ∷ p) = rw ((path_eq_iff (s ∷ p) (s ∷ p)).1 refl) refl

not_eq : (p q : FilePath) → path_eq q p ≡ false → path_eq p q ≡ false
not_eq p q h = ground (arith, path_eq_iff p q, path_eq_iff q p)

pub child_outside : (s : Text) (p : FilePath) → is_within (s ∷ p) p ≡ false
child_outside s p = is_within-depth (s ∷ p) p (omega arith)

-- One more component, by what stands there.
make_dir-Opens :
    (s : Text) (p : FilePath) (fs fs' : Fs)
    → Opens p fs fs'
    → (n : Option Node) → lookup (s ∷ p) fs' ≡ n
    → ((t : Text) → n ≢ some (file t))
    → (fs'' : Fs) × Opens (s ∷ p) fs fs''
unfolding do_create_dir_all
make_dir-Opens s p fs fs' (is, there, same, keeps) none h k = (
  Fs.set (s ∷ p) dir fs',
  (
    rw (is, h) refl,
    ap is_dir_node (set-node (s ∷ p) (s ∷ p) dir fs' true ((path_eq_iff (s ∷ p) (s ∷ p)).1 refl)),
    (λ q out.
        let (other, above) = outside_child q p s out in
        set-node (s ∷ p) q dir fs' false (not_eq (s ∷ p) q other) ∙ same q above),
    λ q d. set-is_dir (s ∷ p) q dir fs' (ap is_dir_node h) (keeps q d),
  ),
)
make_dir-Opens s p fs fs' (is, there, same, keeps) (some dir) h k =
    (fs', (rw (is, h) refl, ap is_dir_node h, (λ q out. same q (outside_child q p s out).1), keeps))
make_dir-Opens s p fs fs' opens (some (file t)) h k = absurd (k t refl)

-- `create_dir_all` goes through where no file is in the way, and changes only what is at the path or
-- above it.
pub create_dir_all-Opens : (p : FilePath) (fs : Fs) → IsOpen p fs → (fs' : Fs) × Opens p fs fs'
unfolding do_create_dir_all
create_dir_all-Opens [] fs h = (fs, (refl, refl, (λ q k. refl), λ q k. k))
create_dir_all-Opens (s ∷ p) fs h =
    let (fs', opens) = create_dir_all-Opens p fs (λ q t k. h q t (within_child q p s k)) in
    make_dir-Opens s p fs fs' opens (lookup (s ∷ p) fs') refl
      (λ t is. h (s ∷ p) t (within_self (s ∷ p)) (sym (opens.2 (s ∷ p) (child_outside s p)) ∙ is))
