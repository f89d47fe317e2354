-- ===== src/Storage/Live/Steps.antt =====
-- The calls that a writer of src/storage.rs makes on its files, where none is made to fail.
use los_cara.Base.{◌≡◌, refl, sym, subst, true, [], Text}
use los_cara.Error.{ok}
use los_cara.Storage.Fs
use los_cara.Storage.Fs.{FilePath, Fs, Node, dir, file, lookup, is_dir, exists_in, parent}
use los_cara.Storage.Io.{World, M}
use los_cara.Storage.Calls.{
  create_file, write_all, sync, rename, create_dir_all, do_create, do_rename, do_create_dir_all,
  append_to, untorn,
}
use los_cara.Storage.Atomic.Hoare.{Hoare}
use los_cara.Storage.Live.{Files, Never, Returns, call-Returns}
use los_cara.Storage.Live.Files
use los_cara.Storage.Live.Files.{IsFree, IsFile, IsOpen, Opens}

-- No error is left to handle.
pub never :
    {E A : Type 0} (m : M E A) {Q : A → World → Type 0} {X K : World → Type 0} → Hoare Never m Q X K
never m = record { at = λ w n. absurd n }

-- A file that is being written: it stands at a path that is no directory.
abbrev pub IsHeld : FilePath → Files
IsHeld t fs = IsFile t fs × IsFree t fs

module _ (t : FilePath) (F G : Files) where
  pub create-Returns :
      ((fs : Fs) → F fs → IsFree t fs × (is_dir (parent t) fs ≡ true))
      → ((fs : Fs) → F fs → G (Fs.set t (file []) fs))
      → Returns F (create_file t) (λ _. G)
  unfolding create_file
  create-Returns free goes =
      call-Returns F (λ _. G) (do_create t) untorn
        (λ fs f. let (h, k) = free fs f in (tt, Fs.set t (file []) fs, rw (h, k) refl, goes fs f))

  pub write-Returns :
      (s : Text)
      → ((fs : Fs) → F fs → IsFile t fs)
      → ((fs : Fs) (r : Text) → F fs → G (Fs.set t (file r) fs))
      → Returns F (write_all t s) (λ _. G)
  unfolding write_all
  write-Returns s held goes =
      call-Returns F (λ _. G) (λ fs. ok (tt, append_to t s fs)) _
        (λ fs f.
          let (r, is) = Files.append-set t s fs (held fs f) in
          (tt, append_to t s fs, refl, subst G (sym is) (goes fs r f)))

  pub rename-Returns :
      (q : FilePath)
      → ((fs : Fs) → F fs → IsFile t fs × IsFree q fs × (is_dir (parent q) fs ≡ true))
      → ((fs : Fs) (s : Text) → F fs → G (Fs.set q (file s) (Fs.remove t fs)))
      → Returns F (rename t q) (λ _. G)
  unfolding rename do_rename
  rename-Returns q can goes =
      call-Returns F (λ _. G) (do_rename t q) untorn
        (λ fs f.
          let ((s, is), free, there) = can fs f in
          (
            tt,
            Fs.set q (file s) (Fs.remove t fs),
            rw (do_rename, is, free, there) refl,
            goes fs s f,
          ))

  pub dirs-Returns :
      ((fs : Fs) → F fs → IsOpen t fs)
      → ((fs fs' : Fs) → F fs → Opens t fs fs' → G fs')
      → Returns F (create_dir_all t) (λ _. G)
  unfolding create_dir_all
  dirs-Returns clear goes =
      call-Returns F (λ _. G) (do_create_dir_all t) untorn
        (λ fs f.
          let (fs', opens) = Files.create_dir_all-Opens t fs (clear fs f) in
          (tt, fs', opens.0, goes fs fs' f opens))

pub sync-Returns : (F : Files) → Returns F sync (λ _. F)
unfolding sync
sync-Returns F = call-Returns F (λ _. F) _ untorn (λ fs f. (tt, fs, refl, f))
