-- ===== src/Config/KeyStore.antt =====
-- `add_key` and `remove_key` of src/config.rs and src/auth.rs as runs over the file system: reading
-- `keys.json`, and writing it in place. A failed write, which is a panic there, ends the run.
pub mod Torn
use los_cara.Base.{Option, none, some, List, [], ◌∷◌, Text, codes}
use los_cara.Storage.Fs.{FilePath, child}
use los_cara.Storage.Io.{M, Io, IoError, catch, ignore, pure, ◌>>=◌, ◌>>◌}
use los_cara.Storage.Calls.{read, create_dir_all, write}
use los_cara.Auth.Keys
use los_cara.Auth.Keys.{Keys}

module _ (from_slice : Text → Option Keys) (to_vec_pretty : Keys → Text) (root : FilePath) where
  abbrev pub keys_path : FilePath
  keys_path = child root (codes "keys.json")

  -- `std::fs::read(&path).ok()`.
  abbrev pub read_keys_file : Io (Option Text)
  read_keys_file = catch (do s ← read keys_path; pure (some s)) (λ e. pure none)

  unfoldable pub add_key : Text → Text → Io Unit
  add_key access_key secret_key = do
    content ← read_keys_file
    ignore (create_dir_all root)
    write keys_path (Keys.add_key from_slice to_vec_pretty content access_key secret_key)

  unfoldable pub remove_key : Text → Io Unit
  remove_key access_key = do
    content ← read_keys_file
    write keys_path (Keys.remove_key from_slice to_vec_pretty content access_key)
