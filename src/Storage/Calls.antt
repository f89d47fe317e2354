-- ===== src/Storage/Calls.antt =====
-- The system calls of src/storage.rs: what each does to the file system, and the call under its
-- verdict. A failed or killed write leaves some of its bytes; every other call is all or nothing.
use los_cara.Base.{
  ℕ, Bool, false, Option, none, some, List, [], ◌∷◌, ◌++◌, Text, codes, take, if◌then◌else◌,
}
use los_cara.Error.{Result, ok, err}
use los_cara.Storage.Fs
use los_cara.Storage.Fs.{
  FilePath, Node, dir, file, Fs, lookup, set, is_dir, exists_in, parent, entries, prune,
}
use los_cara.Storage.Io.{Io, M, IoError, not_found, other, syscall, catch, pure, ◌>>=◌, ◌>>◌}

abbrev pub untorn : ℕ → Fs → Fs
untorn k fs = fs

abbrev pub missing : IoError
missing = record { kind = not_found; text = codes "No such file or directory (os error 2)" }

abbrev pub refused : IoError
refused = record { kind = other; text = codes "Is a directory (os error 21)" }

-- What each call does to the file system.
abbrev pub do_create : FilePath → Fs → Result IoError (Unit {0} × Fs)
do_create p fs =
    if is_dir p fs
    then err refused
    else if is_dir (parent p) fs
    then ok (tt, set p (file []) fs)
    else err missing

unfoldable pub append_to : FilePath → Text → Fs → Fs
append_to p s fs = elim (lookup p fs) [ some (file old) ↦ set p (file (old ++ s)) fs | _ ↦ fs ]

unfoldable pub do_rename : FilePath → FilePath → Fs → Result IoError (Unit {0} × Fs)
do_rename p q fs = elim (lookup p fs) [
  | some (file s) ↦
      if is_dir q fs
      then err refused
      else if is_dir (parent q) fs
      then ok (tt, set q (file s) (Fs.remove p fs))
      else err missing
  | some dir ↦ err refused
  | none ↦ err missing
]

unfoldable pub do_remove_file : FilePath → Fs → Result IoError (Unit {0} × Fs)
do_remove_file p fs = elim (lookup p fs) [
  | some (file s) ↦ ok (tt, Fs.remove p fs)
  | some dir ↦ err refused
  | none ↦ err missing
]

-- One component of `create_dir_all`, given what stands there.
abbrev pub make_dir : FilePath → Option Node → Fs → Result IoError (Unit {0} × Fs)
make_dir p none fs = ok (tt, set p dir fs)
make_dir p (some dir) fs = ok (tt, fs)
make_dir p (some (file s)) fs = err refused

unfoldable pub do_create_dir_all : FilePath → Fs → Result IoError (Unit {0} × Fs)
do_create_dir_all [] fs = ok (tt, fs)
do_create_dir_all (s ∷ p) fs = elim (do_create_dir_all p fs) [
  | err e ↦ err e
  | ok (u, fs') ↦ make_dir (s ∷ p) (lookup (s ∷ p) fs') fs'
]

unfoldable pub do_read : FilePath → Fs → Result IoError (Text × Fs)
do_read p fs = elim (lookup p fs) [
  | some (file s) ↦ ok (s, fs)
  | some dir ↦ err refused
  | none ↦ err missing
]

unfoldable pub do_copy : FilePath → FilePath → Fs → Result IoError (Unit {0} × Fs)
do_copy p q fs = elim (lookup p fs) [
  | some (file s) ↦
      if is_dir q fs
      then err refused
      else if is_dir (parent q) fs
      then ok (tt, set q (file s) fs)
      else err missing
  | some dir ↦ err refused
  | none ↦ err missing
]

-- A hard link needs a free name. The files are never written in place, so a link is a copy.
abbrev pub do_hard_link : FilePath → FilePath → Fs → Result IoError (Unit {0} × Fs)
do_hard_link p q fs = if exists_in q fs then err refused else do_copy p q fs

abbrev pub do_remove_dir_all : FilePath → Fs → Result IoError (Unit {0} × Fs)
do_remove_dir_all p fs = if is_dir p fs then ok (tt, prune p fs) else err missing

abbrev pub do_read_dir : FilePath → Fs → Result IoError (List Text × Fs)
do_read_dir p fs = if is_dir p fs then ok (entries p fs, fs) else err missing

abbrev pub Call : Type 0
Call = Io Unit

unfoldable pub create_file : FilePath → Call
unfolding syscall
create_file p = syscall (do_create p) untorn

unfoldable pub write_all : FilePath → Text → Call
unfolding syscall append_to
write_all p s = syscall (λ fs. ok (tt, append_to p s fs)) (λ k. append_to p (take k s))

-- `flush` and `sync_all`.
unfoldable pub sync : Call
unfolding syscall
sync = syscall (λ fs. ok (tt, fs)) untorn

-- `seek`, on a handle that is open.
unfoldable pub seek : Call
unfolding syscall
seek = syscall (λ fs. ok (tt, fs)) untorn

unfoldable pub rename : FilePath → FilePath → Call
unfolding syscall do_rename
rename p q = syscall (do_rename p q) untorn

unfoldable pub remove_file : FilePath → Call
unfolding syscall do_remove_file
remove_file p = syscall (do_remove_file p) untorn

unfoldable pub create_dir_all : FilePath → Call
unfolding syscall do_create_dir_all
create_dir_all p = syscall (do_create_dir_all p) untorn

unfoldable pub remove_dir_all : FilePath → Call
unfolding syscall
remove_dir_all p = syscall (do_remove_dir_all p) untorn

unfoldable pub hard_link : FilePath → FilePath → Call
unfolding syscall do_copy
hard_link p q = syscall (do_hard_link p q) untorn

unfoldable pub copy_file : FilePath → FilePath → Call
unfolding syscall do_copy
copy_file p q = syscall (do_copy p q) untorn

unfoldable pub read : FilePath → Io Text
unfolding syscall do_read
read p = syscall (do_read p) untorn

unfoldable pub read_dir : FilePath → Io (List Text)
unfolding syscall
read_dir p = syscall (do_read_dir p) untorn

-- `p.exists()`: false also where the question fails.
unfoldable pub path_exists : {E : Type 0} → FilePath → M E Bool
unfolding syscall catch pure
path_exists p = catch (syscall (λ fs. ok (exists_in p fs, fs)) untorn) (λ e. pure false)

-- `p.is_dir()`.
unfoldable pub path_is_dir : {E : Type 0} → FilePath → M E Bool
unfolding syscall catch pure
path_is_dir p = catch (syscall (λ fs. ok (is_dir p fs, fs)) untorn) (λ e. pure false)

-- `fs::write(p, s)`.
unfoldable pub write : FilePath → Text → Call
unfolding create_file write_all ◌>>=◌
write p s = do create_file p; write_all p s
