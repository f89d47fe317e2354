-- ===== src/Config/KeyStore/Torn.antt =====
-- What a kill leaves of `keys.json`, which src/auth.rs writes in place.
use los_cara.Base.{
  ℕ, ◌≡◌, refl, ◌∙◌, ap, true, Option, none, some, List, [], ◌∷◌, Text, codes, take, map_get,
  text_eq,
}
use los_cara.Storage.Fs
use los_cara.Storage.Fs.{
  FilePath, Node, dir, file, Fs, lookup, lookup-set, child, is_dir, path_eq, path_eq_iff,
}
use los_cara.Storage.Io.{World, Verdict, proceed, kill, killed, done, ◌>>=◌, catch, pure, syscall}
use los_cara.Storage.Runs.{Runs, bind_at}
use los_cara.Storage.Calls.{read, do_read, create_file, write_all, write, append_to}
use los_cara.Auth.Keys
use los_cara.Auth.Keys.{Keys, get_key, read_keys}
use los_cara.Config.KeyStore.{keys_path, read_keys_file, remove_key}

-- The read and the creation go through; the write stops after `k` bytes.
abbrev pub cut : Fs → ℕ → ℕ → List Verdict → ℕ → World
cut fs draws ticks vs k = record {
  fs = fs;
  io = proceed ∷ proceed ∷ kill k ∷ vs;
  draws = draws;
  ticks = ticks;
}

module _ (from_slice : Text → Option Keys) (to_vec_pretty : Keys → Text) (root : FilePath) (fs : Fs)
    (old : Text) (draws ticks : ℕ) (vs : List Verdict) (k : ℕ)
    (installed : lookup (child root (codes "keys.json")) fs ≡ some (file old))
    (rooted : is_dir root fs ≡ true) where
  abbrev written : Text → Text
  written access_key = Keys.remove_key from_slice to_vec_pretty (some old) access_key

  abbrev kp : FilePath
  kp = keys_path from_slice to_vec_pretty root

  -- The world after the read, with the files given, and with what is left of the verdicts.
  abbrev at_world : Fs → List Verdict → World
  at_world files io = record { fs = files; io = io; draws = draws; ticks = ticks }

  abbrev emptied : Fs
  emptied = Fs.set kp (file []) fs

  abbrev pub left : Text → Fs
  left access_key = append_to kp (take k (written access_key)) emptied

  read_run :
      Runs (read kp) (cut fs draws ticks vs k) (done old, at_world fs (proceed ∷ kill k ∷ vs))
  unfolding read syscall do_read lookup
  read_run = record { at = rw installed refl }

  content_run :
      Runs
        (read_keys_file from_slice to_vec_pretty root)
        (cut fs draws ticks vs k)
        (done (some old), at_world fs (proceed ∷ kill k ∷ vs))
  unfolding catch ◌>>=◌ pure
  content_run = record { at = rw read_run.at refl }

  create_run :
      Runs
        (create_file kp)
        (at_world fs (proceed ∷ kill k ∷ vs))
        (done tt, at_world emptied (kill k ∷ vs))
  unfolding create_file syscall lookup Fs.set
  create_run = record { at = rw (installed, rooted) refl }

  write_run :
      (access_key : Text)
      → Runs
          (write_all kp (written access_key))
          (at_world emptied (kill k ∷ vs))
          (killed, at_world (left access_key) vs)
  unfolding write_all syscall
  write_run access_key = record { at = refl }

  torn :
      (access_key : Text)
      → Runs
          (remove_key from_slice to_vec_pretty root access_key)
          (cut fs draws ticks vs k)
          (killed, at_world (left access_key) vs)
  unfolding remove_key write
  torn access_key = bind_at _ _ content_run (bind_at _ _ create_run (write_run access_key))

  appended : (s : Text) → lookup kp (append_to kp s emptied) ≡ some (file s)
  unfolding append_to lookup Fs.set path_eq text_eq codes
  appended s =
      let here : lookup kp emptied ≡ some (file []) =
        lookup-set kp kp (file []) fs ∙ rw ((path_eq_iff kp kp).1 refl) refl in
      rw here (lookup-set kp kp (file s) emptied ∙ rw ((path_eq_iff kp kp).1 refl) refl)

-- Where `keys.json` is a file, its directory is there, and serde_json does not read an empty file: a
-- kill between the opening of the file and the write that removes one key leaves `keys.json` empty,
-- and so no key, whatever keys there were.
pub remove_key-torn :
    (from_slice : Text → Option Keys) (to_vec_pretty : Keys → Text) (root : FilePath) (fs : Fs)
    (old access_key : Text) (draws ticks : ℕ) (vs : List Verdict)
    → lookup (child root (codes "keys.json")) fs ≡ some (file old)
    → is_dir root fs ≡ true
    → from_slice [] ≡ none
    → ((remove_key from_slice to_vec_pretty root access_key (cut fs draws ticks vs 0)).0 ≡ killed)
      × (lookup
            (child root (codes "keys.json"))
            (remove_key from_slice to_vec_pretty root access_key (cut fs draws ticks vs 0)).1.fs
          ≡ some (file []))
      × ((j : Text) → get_key j (read_keys from_slice (some [])) ≡ none)
unfolding read_keys map_get
remove_key-torn from_slice to_vec_pretty root fs old access_key draws ticks vs installed rooted
      unread =
    let ran =
      (torn from_slice to_vec_pretty root fs old draws ticks vs 0 installed rooted access_key).at in
    (
      ap (λ r. r.0) ran,
      ap (λ r. lookup (child root (codes "keys.json")) r.1.fs) ran
          ∙ appended from_slice to_vec_pretty root fs old draws ticks vs 0 installed rooted [],
      λ j. rw (read_keys, unread) refl,
    )
