-- ===== src/Config/Start.antt =====
-- `serve_with_cors` of src/config.rs up to where the server listens, and the commands of
-- src/main.rs. clap, the network and rustls are parameters.
use los_cara.Base.{Bool, true, false, Option, none, some, List, [], ◌∷◌, Text}
use los_cara.Storage.Fs.{FilePath}
use los_cara.Storage.Io.{M, IoError, pure, raise, map_err, ◌>>=◌, ◌>>◌}
use los_cara.Storage.Types.{Env}
use los_cara.Storage.Buckets.{open_storage}
use los_cara.Auth.Keys.{Keys, KeyFile, CredCache, new_store}
use los_cara.Config.KeyStore

-- The variables of the environment that the server reads.
pub record Variables : Type 0 where
  pub lc_access_key : Option Text
  pub lc_secret_key : Option Text
  pub los_cara_access_key : Option Text
  pub los_cara_secret_key : Option Text

abbrev pub or : Option Text → Option Text → Option Text
or (some s) o = some s
or none o = o

-- Credentials of the root user; two empty texts where one is not given or is empty.
unfoldable pub credentials_of : Option Text → Option Text → Text × Text
credentials_of (some (a ∷ as')) (some (s ∷ ss)) = (a ∷ as', s ∷ ss)
credentials_of (some (a ∷ as')) (some []) = ([], [])
credentials_of (some (a ∷ as')) none = ([], [])
credentials_of (some []) s = ([], [])
credentials_of none s = ([], [])

unfoldable pub root_credentials : Variables → Option Text → Option Text → Text × Text
unfolding credentials_of
root_credentials vars access_key secret_key =
    credentials_of (or (or access_key vars.lc_access_key) vars.los_cara_access_key)
      (or (or secret_key vars.lc_secret_key) vars.los_cara_secret_key)

-- What `main` is asked to do.
pub record Serve : Type 0 where
  pub address : Text
  pub data_dir : FilePath
  pub access_key : Option Text
  pub secret_key : Option Text
  pub tls_cert : Option Text
  pub tls_key : Option Text
  pub allowed_origins : List Text

pub data Command : Type 0 where
  serve : Serve → Command
  add_key : FilePath → Text → Text → Command
  remove_key : FilePath → Text → Command

-- The server that listens: with its credential store, its origins, and over TLS or not.
pub record Listening : Type 0 where
  pub store : CredCache
  pub origins : List Text
  pub over_tls : Bool

-- `std::net::SocketAddr`'s parser, whether `load_tls` succeeds, or the text of its error, and whether
-- the address can be bound.
pub record Network : Type 0 where
  pub is_address : Text → Bool
  pub load_tls : Text → Text → Option Text
  pub can_bind : Text → Bool

-- Why the process ends before it listens.
pub data Exit : Type 0 where
  storage_failed : IoError → Exit
  invalid_address : Text → Exit
  tls_failed : Text → Exit
  bind_failed : Exit
  key_write_failed : IoError → Exit

-- The two files, where both are given.
abbrev pub tls_files : Option Text → Option Text → Option (Text × Text)
tls_files (some c) (some k) = some (c, k)
tls_files (some c) none = none
tls_files none k = none

-- Binding the address, which is expected to succeed.
unfoldable pub bind : Bool → Listening → M Exit Listening
bind true l = pure l
bind false l = raise bind_failed

-- What `load_tls` says; the server that it is for binds the address.
unfoldable pub listen_tls : Option Text → Bool → CredCache → List Text → M Exit Listening
unfolding bind
listen_tls (some e) can store origins = raise (tls_failed e)
listen_tls none can store origins =
    bind can (record { store = store; origins = origins; over_tls = true })

module _ (env : Env) (from_slice : Text → Option Keys) (network : Network) where
  unfoldable pub listen : Option (Text × Text) → Bool → CredCache → List Text → M Exit Listening
  unfolding listen_tls
  listen none can store origins =
      bind can (record { store = store; origins = origins; over_tls = false })
  listen (some (cert, key)) can store origins =
      listen_tls (network.load_tls cert key) can store origins

  -- The tail of `serve_with_cors`, once the address is parsed.
  unfoldable pub serve_at : Bool → Serve → CredCache → M Exit Listening
  unfolding listen
  serve_at true args store =
      listen (tls_files args.tls_cert args.tls_key) (network.can_bind args.address) store
        args.allowed_origins
  serve_at false args store = raise (invalid_address args.address)

  -- `file` is what stands at `keys.json` when the store is made.
  unfoldable pub serve_with_cors : Variables → KeyFile → Serve → M Exit Listening
  unfolding serve_at
  serve_with_cors vars file args = do
    map_err storage_failed (open_storage env args.data_dir)
    let creds = root_credentials vars args.access_key args.secret_key
    serve_at (network.is_address args.address) args (new_store from_slice file creds.0 creds.1)

  -- `main`: a server where one is started.
  unfoldable pub run_command :
      (Keys → Text) → Variables → KeyFile → Command → M Exit (Option Listening)
  unfolding serve_with_cors
  run_command to_vec_pretty vars file (serve args) = do
    listening ← serve_with_cors vars file args
    pure (some listening)
  run_command to_vec_pretty vars file (add_key data_dir access_key secret_key) = do
    map_err key_write_failed
        (KeyStore.add_key from_slice to_vec_pretty data_dir access_key secret_key)
    pure none
  run_command to_vec_pretty vars file (remove_key data_dir access_key) = do
    map_err key_write_failed (KeyStore.remove_key from_slice to_vec_pretty data_dir access_key)
    pure none
