-- ===== src/Storage/Live/Ready.antt =====
-- The files among which `put_object` of src/storage.rs can write.
use los_cara.Base.{◌≡◌, ◌∙◌, ap, true, false, ℕ, [], ◌∷◌, Text, codes}
use los_cara.Storage.Fs
use los_cara.Storage.Fs.{FilePath, Fs, file, lookup, is_dir, is_within, child, parent}
use los_cara.Storage.Names.{tmp_file, meta_name, data_name, with_extension}
use los_cara.Storage.Types.{Env}
use los_cara.Storage.Atomic.Laws.{json_tmp}
use los_cara.Storage.Live.{Files}
use los_cara.Storage.Live.Files
use los_cara.Storage.Live.Files.{IsFree, IsFile, IsOpen, Opens, is_dir_node, child_outside}

module _ (env : Env) (root p : FilePath) where
  -- The paths at which it writes, for an object directory `p`.
  pub data IsTarget : FilePath → Type 0 where
    tmp_target : (n : ℕ) → IsTarget (tmp_file env root n)
    data_target : (n : ℕ) → IsTarget (child p (data_name env n))
    json_target : (n : ℕ) → IsTarget (json_tmp env (child p meta_name) n)
    meta_target : IsTarget (child p meta_name)

  -- There is the directory of temporary files, and none stands where a file is to go.
  abbrev pub IsReady : Files
  IsReady fs =
      (is_dir (child root (codes "tmp")) fs ≡ true) × ((t : FilePath) → IsTarget t → IsFree t fs)

  -- The temporary files lie in another directory than the object.
  abbrev pub IsApart : Type 0
  IsApart = (n : ℕ) → is_within (tmp_file env root n) p ≡ false

  pub target_outside : IsApart → (t : FilePath) → IsTarget t → is_within t p ≡ false
  unfolding with_extension
  target_outside apart t (tmp_target n) = apart n
  target_outside apart t (data_target n) = child_outside (data_name env n) p
  target_outside apart t (json_target n) = child_outside _ p
  target_outside apart t meta_target = child_outside meta_name p

  -- Written at a target.
  pub set-IsReady :
      (t : FilePath) (s : Text) (fs : Fs) → IsTarget t → IsReady fs → IsReady (Fs.set t (file s) fs)
  set-IsReady t s fs at (there, free) = (
    Files.set-is_dir t (child root (codes "tmp")) (file s) fs (free t at) there,
    λ q k. Files.set-IsFree t q s fs (free q k),
  )

  pub remove-IsReady : (t : FilePath) (fs : Fs) → IsTarget t → IsReady fs → IsReady (Fs.remove t fs)
  remove-IsReady t fs at (there, free) = (
    Files.remove-is_dir t (child root (codes "tmp")) fs (free t at) there,
    λ q k. Files.remove-IsFree t q fs (free q k),
  )

  Opens-IsFree :
      (q : FilePath) (fs fs' : Fs) → lookup q fs' ≡ lookup q fs → IsFree q fs → IsFree q fs'
  Opens-IsFree [] fs fs' same h = h
  Opens-IsFree (s ∷ q) fs fs' same h = ap is_dir_node same ∙ h

  pub Opens-IsReady : IsApart → (fs fs' : Fs) → Opens p fs fs' → IsReady fs → IsReady fs'
  Opens-IsReady apart fs fs' (is, there, same, keeps) (tmp_there, free) = (
    keeps (child root (codes "tmp")) tmp_there,
    λ q k. Opens-IsFree q fs fs' (same q (target_outside apart q k)) (free q k),
  )

  -- A move from one target to another that lies in the object directory.
  pub move-IsReady :
      (t q : FilePath) (s : Text) (fs : Fs)
      → IsTarget t
      → IsTarget q
      → IsReady fs × (is_dir p fs ≡ true)
      → IsReady (Fs.set q (file s) (Fs.remove t fs))
        × (is_dir p (Fs.set q (file s) (Fs.remove t fs)) ≡ true)
  move-IsReady t q s fs at to (ready, there) =
      let gone = remove-IsReady t fs at ready in
      (
        set-IsReady q s (Fs.remove t fs) to gone,
        Files.set-is_dir q p (file s) (Fs.remove t fs) (gone.1 q to)
            (Files.remove-is_dir t p fs (ready.1 t at) there),
      )
