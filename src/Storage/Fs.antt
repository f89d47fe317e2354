-- ===== src/Storage/Fs.antt =====
-- The file system under src/storage.rs: what `std::fs` and `tokio::fs` do to a tree of directories
-- and files. A path is the list of its components, the innermost first. Symbolic links,
-- permissions and open handles to removed files are left out.
use mathlib.Core.List.{tail}
use los_cara.Base.{
  ◌≡◌, ◌↔◌, Bool, true, false, ◌||◌, Option, none, some, List, [], ◌∷◌, arith, Bool-cases, inl, inr,
  Text, text_eq, text_eq_iff, list_eq, list_eq_iff, starts_with, split, if◌then◌else◌,
}

abbrev pub FilePath : Type 0
FilePath = List Text

unfoldable pub path_eq : FilePath → FilePath → Bool
unfolding list_eq
path_eq = list_eq text_eq

pub path_eq_iff : (p q : FilePath) → (path_eq p q ≡ true) ↔ (p ≡ q)
unfolding path_eq
path_eq_iff = list_eq_iff text_eq text_eq_iff

-- One component of a relative path, as the system resolves it.
unfoldable pub step_into : FilePath → Text → FilePath
unfolding text_eq
step_into p s =
    if text_eq s [] || text_eq s (b'.' ∷ [])
    then p
    else if text_eq s (b'.' ∷ b'.' ∷ [])
    then tail p
    else s ∷ p

unfoldable pub walk_into : FilePath → List Text → FilePath
unfolding step_into
walk_into p [] = p
walk_into p (s ∷ ss) = walk_into (step_into p s) ss

-- `p.join(s)` for any text: an absolute text replaces the path, `..` climbs.
unfoldable pub join : FilePath → Text → FilePath
unfolding walk_into starts_with split
join p s =
    if starts_with (b'/' ∷ []) s then walk_into [] (split b'/' s) else walk_into p (split b'/' s)

-- `p.join(s)` for a name that is known to be a single component.
abbrev pub child : FilePath → Text → FilePath
child p s = s ∷ p

pub data Node : Type 0 where
  dir : Node
  file : Text → Node

abbrev pub Fs : Type 0
Fs = List (FilePath × Node)

unfoldable pub lookup : FilePath → Fs → Option Node
lookup p [] = none
lookup p ((q, n) ∷ fs) = if path_eq q p then some n else lookup p fs

unfoldable pub remove : FilePath → Fs → Fs
remove p [] = []
remove p ((q, n) ∷ fs) = let rest = remove p fs in if path_eq q p then rest else (q, n) ∷ rest

unfoldable pub set : FilePath → Node → Fs → Fs
unfolding remove
set p n fs = (p, n) ∷ remove p fs

pub lookup-remove :
    (p q : FilePath) (fs : Fs)
    → lookup q (remove p fs) ≡ (if path_eq p q then none else lookup q fs)
unfolding lookup remove
lookup-remove p q [] = ground arith
lookup-remove p q ((r, n) ∷ fs) =
    ground (arith, lookup-remove p q fs, path_eq_iff r p, path_eq_iff r q, path_eq_iff p q)

pub lookup-set :
    (p q : FilePath) (n : Node) (fs : Fs)
    → lookup q (set p n fs) ≡ (if path_eq p q then some n else lookup q fs)
unfolding lookup set
lookup-set p q n fs = ground (arith, lookup-remove p q fs)

-- `q` is `p` or lies below it.
unfoldable pub is_within : FilePath → FilePath → Bool
is_within p [] = path_eq p []
is_within p (s ∷ q) = path_eq p (s ∷ q) || is_within p q

-- What `remove_dir_all(p)` leaves.
unfoldable pub prune : FilePath → Fs → Fs
prune p [] = []
prune p ((q, n) ∷ fs) = let rest = prune p fs in if is_within p q then rest else (q, n) ∷ rest

pub lookup-prune :
    (p q : FilePath) (fs : Fs)
    → lookup q (prune p fs) ≡ (if is_within p q then none else lookup q fs)
unfolding lookup prune
lookup-prune p q [] = ground arith
lookup-prune p q ((r, n) ∷ fs) = elim (Bool-cases (path_eq r q)) [
  | inl same ↦ let e = (path_eq_iff r q).0 same in ground (arith, lookup-prune p q fs)
  | inr other ↦ ground (arith, lookup-prune p q fs)
]

abbrev pub is_dir : FilePath → Fs → Bool
is_dir [] fs = true
is_dir (s ∷ p) fs = elim (lookup (s ∷ p) fs) [ some dir ↦ true | _ ↦ false ]

abbrev pub exists_in : FilePath → Fs → Bool
exists_in p fs = elim (lookup p fs) [ none ↦ false | some _ ↦ true ]

-- The directory that holds a path.
abbrev pub parent : FilePath → FilePath
parent [] = []
parent (s ∷ p) = p

-- The names in a directory, as `read_dir` yields them.
unfoldable pub entries : FilePath → Fs → List Text
entries p [] = []
entries p (([], n) ∷ fs) = entries p fs
entries p ((s ∷ q, n) ∷ fs) = if path_eq q p then s ∷ entries p fs else entries p fs
