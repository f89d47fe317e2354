-- ===== src/Storage/Cleanup.antt =====
-- `cleanup_tmp` of src/storage.rs. The modification time of a file, in seconds since the epoch, is a
-- parameter: nothing where the system does not give it.
pub mod Keeps
use los_cara.Base.{
  ℕ, ◌+◌, ◌/◌, Bool, true, false, Option, none, some, List, [], ◌∷◌, ltb, Text, codes,
  if◌then◌else◌,
}
use los_cara.Storage.Fs.{FilePath, child}
use los_cara.Storage.Io.{M, catch, ignore, pure, tick, ◌>>=◌, ◌>>◌}
use los_cara.Storage.Calls.{read_dir, remove_file}
use los_cara.Storage.Types.{Env}

-- The age limit, which may be negative.
pub data Limit : Type 0 where
  seconds minus_seconds : ℕ → Limit

-- `now - modified > limit`.
unfoldable pub is_older : ℕ → ℕ → Limit → Bool
is_older now modified (seconds n) = ltb (modified + n) now
is_older now modified (minus_seconds n) = ltb modified (now + n)

module _ (env : Env) (root : FilePath) (modified : FilePath → Option ℕ) where
  abbrev pub tmp_dir : FilePath
  tmp_dir = child root (codes "tmp")

  -- One entry. The clock gives milliseconds.
  unfoldable pub cleanup_entry : {E : Type 0} → Limit → FilePath → Option ℕ → M E Unit
  cleanup_entry limit p none = pure tt
  cleanup_entry limit p (some age) = do
    t ← tick
    if is_older (env.now_ms t / 1000) age limit then ignore (remove_file p) else pure tt

  -- The loop over the entries.
  unfoldable pub cleanup_each : {E : Type 0} → Limit → List Text → M E Unit
  unfolding cleanup_entry
  cleanup_each limit [] = pure tt
  cleanup_each limit (name ∷ names) = do
    cleanup_entry limit (child tmp_dir name) (modified (child tmp_dir name))
    cleanup_each limit names

  unfoldable pub cleanup_tmp : {E : Type 0} → Limit → M E Unit
  unfolding cleanup_each
  cleanup_tmp limit = do names ← catch (read_dir tmp_dir) (λ e. pure []); cleanup_each limit names
