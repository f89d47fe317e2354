-- ===== src/Config/Unset.antt =====
-- What the server of src/config.rs accepts when it is started.
use los_cara.Base.{
  ◌≡◌, ◌≢◌, ◌∷◌, refl, sym, ◌∙◌, ap, Option, none, some, List, [], Text, if◌then◌else◌, text_eq,
  Bool, true, false,
}
use los_cara.Storage.Io.{World, done, raise, pure}
use los_cara.Storage.Types.{Env}
use los_cara.Storage.Runs.{bind-done}
use los_cara.Auth.Keys.{
  Keys, KeyFile, CredCache, get_key, read_keys, new_store, lookup, IsDistinct, overlaid,
  lookup-new_store,
}
use los_cara.Config.Start.{
  Variables, or, credentials_of, root_credentials, Serve, Listening, Network, bind, listen_tls,
  listen, serve_at, serve_with_cors,
}

module _ (env : Env) (from_slice : Text → Option Keys) (network : Network) (vars : Variables)
    (file : KeyFile) (args : Serve) where
  bind-store :
      (can : Bool) (l l' : Listening) (w w' : World)
      → bind can l w ≡ (done l', w')
      → l.store ≡ l'.store
  unfolding bind pure raise
  bind-store true l l' w w' h = cc
  bind-store false l l' w w' h = cc

  listen_tls-store :
      (o : Option Text) (can : Bool) (store : CredCache) (origins : List Text) (l : Listening)
      (w w' : World)
      → listen_tls o can store origins w ≡ (done l, w')
      → store ≡ l.store
  unfolding listen_tls raise
  listen_tls-store (some e) can store origins l w w' h = cc
  listen_tls-store none can store origins l w w' h = bind-store can _ l w w' h

  listen-store :
      (o : Option (Text × Text)) (can : Bool) (store : CredCache) (origins : List Text)
      (l : Listening) (w w' : World)
      → listen env from_slice network o can store origins w ≡ (done l, w')
      → store ≡ l.store
  unfolding listen
  listen-store none can store origins l w w' h = bind-store can _ l w w' h
  listen-store (some (c, k)) can store origins l w w' h =
      listen_tls-store _ can store origins l w w' h

  serve_at-store :
      (b : Bool) (store : CredCache) (l : Listening) (w w' : World)
      → serve_at env from_slice network b args store w ≡ (done l, w')
      → store ≡ l.store
  unfolding serve_at raise
  serve_at-store true store l w w' h = listen-store _ _ store _ l w w' h
  serve_at-store false store l w w' h = cc

  abbrev creds : Text × Text
  creds = root_credentials vars args.access_key args.secret_key

  stored_root :
      (l : Listening) (w w' : World)
      → serve_with_cors env from_slice network vars file args w ≡ (done l, w')
      → new_store from_slice file creds.0 creds.1 ≡ l.store
  unfolding serve_with_cors
  stored_root l w w' ran =
      let (u, w₁, opened, rest) = bind-done _ _ w w' l ran in serve_at-store _ _ l w₁ w' rest

  serve_with_cors-lookup :
      (l : Listening) (w w' : World) (k : Text)
      → IsDistinct (read_keys from_slice file.content)
      → serve_with_cors env from_slice network vars file args w ≡ (done l, w')
      → (lookup from_slice file k l.store).0
        ≡ overlaid
            (get_key k (read_keys from_slice file.content))
            (if text_eq creds.0 k then some creds.1 else none)
  serve_with_cors-lookup l w w' k d ran =
      ap (λ c. (lookup from_slice file k c).0) (sym (stored_root l w w' ran))
      ∙ lookup-new_store from_slice file k creds.0 creds.1 d

  given-credentials :
      (access secret : Text)
      → access ≢ []
      → secret ≢ []
      → or (or args.access_key vars.lc_access_key) vars.los_cara_access_key ≡ some access
      → or (or args.secret_key vars.lc_secret_key) vars.los_cara_secret_key ≡ some secret
      → creds ≡ (access, secret)
  unfolding root_credentials credentials_of
  given-credentials [] secret a s h k = absurd (a refl)
  given-credentials (x ∷ access) [] a s h k = absurd (s refl)
  given-credentials (x ∷ access) (y ∷ secret) a s h k = rw (root_credentials, h, k) refl

  -- Where the keys in the file are distinct and the file does not change, and an access key and a
  -- secret key, neither of them empty, are given as arguments or, where one is not, in the
  -- environment under `LC_…` or else under `LOS_CARA_…`: a server that has come to listen answers the
  -- lookup of an access key with the secret that the file has for it; and where the file has none,
  -- that of the given access key with the given secret, and that of any other with nothing.
  pub serve_with_cors-given :
      (l : Listening) (w w' : World) (k access secret : Text)
      → IsDistinct (read_keys from_slice file.content)
      → access ≢ []
      → secret ≢ []
      → or (or args.access_key vars.lc_access_key) vars.los_cara_access_key ≡ some access
      → or (or args.secret_key vars.lc_secret_key) vars.los_cara_secret_key ≡ some secret
      → serve_with_cors env from_slice network vars file args w ≡ (done l, w')
      → (lookup from_slice file k l.store).0
        ≡ overlaid
            (get_key k (read_keys from_slice file.content))
            (if text_eq access k then some secret else none)
  serve_with_cors-given l w w' k access secret d a s given_access given_secret ran =
      serve_with_cors-lookup l w w' k d ran
      ∙ ap
          (λ (c : Text × Text).
            overlaid (get_key k (read_keys from_slice file.content))
              (if text_eq c.0 k then some c.1 else none))
          (given-credentials access secret a s given_access given_secret)

  -- Where the keys in the file are distinct and the file does not change, where no access key is given as an argument or in the environment, and
  -- the file has no empty access key: a server that has come to listen knows the empty access key,
  -- and its secret is empty.
  pub serve_with_cors-unset :
      (l : Listening) (w w' : World)
      → IsDistinct (read_keys from_slice file.content)
      → or (or args.access_key vars.lc_access_key) vars.los_cara_access_key ≡ none
      → get_key [] (read_keys from_slice file.content) ≡ none
      → serve_with_cors env from_slice network vars file args w ≡ (done l, w')
      → (lookup from_slice file [] l.store).0 ≡ some []
  unfolding root_credentials credentials_of text_eq
  serve_with_cors-unset l w w' d unset absent ran =
      serve_with_cors-lookup l w w' [] d ran ∙ rw (absent, root_credentials, unset) refl
