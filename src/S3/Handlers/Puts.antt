-- ===== src/S3/Handlers/Puts.antt =====
-- What the handler of PUT in src/s3.rs leaves behind.
use los_cara.Base.{◌≡◌, Option-cases, inl, inr, refl, ◌∙◌, ap, subst, some, List, Text}
use los_cara.Error.{S3Error, Result, ok, err}
use los_cara.Storage.Fs.{FilePath}
use los_cara.Storage.Io.{World, Outcome, done, raise, pure}
use los_cara.Storage.Types.{Env, ObjectMeta, PutResult}
use los_cara.Storage.Names.{object_dir}
use los_cara.Storage.Runs.{bind-done, catch-raise-done}
use los_cara.Storage.Objects
use los_cara.Storage.Atomic.Laws.{IsLawful}
use los_cara.Storage.Atomic.Put.{IsFresh, IsStored}
use los_cara.Storage.Atomic.GetObject.{put_object-IsStored}
use los_cara.Storage.Atomic.Receive.{payload}
use los_cara.Auth.Crypto.{Crypto}
use los_cara.Auth.Verify.{Verified, signed_full}
use los_cara.S3.Http.{Http, RequestHeaders, Response, user_metadata, content_md5_hex}
use los_cara.S3.Payload.{
  BodyState, Payload, boxed, observe, initial_state, decoder_of, check_body_state,
}
use los_cara.S3.Payload.Seen.{IsAccepted, check_body_state-accepts, signed_payload, arrived}
use los_cara.S3.Handlers.Objects.{
  content_type_of, noted, stored_response, answer_put, finish_put, put_object,
}

module _ (http : Http) (env : Env) (root : FilePath) (bucket key : Text) (headers : RequestHeaders)
    (p : Payload) (w w' : World) where
  -- The engine's call behind the handler.
  abbrev pub stored : World → Outcome S3Error PutResult × World
  stored =
      Objects.put_object env root bucket key (boxed http p.body) (content_type_of headers)
        (user_metadata headers)

  finish_put-accepts :
      (st : BodyState) (put : PutResult) (w₁ : World) (r : Response)
      → finish_put http env root bucket key st put w₁ ≡ (done r, w')
      → (IsAccepted env st put) × (w₁ ≡ w') × (r ≡ stored_response http env root put.meta.etag)
  unfolding finish_put answer_put pure raise
  finish_put-accepts st put w₁ r = go (check_body_state env st (some put)) refl
    where
      go :
          (c : Result S3Error (Unit {0}))
          → check_body_state env st (some put) ≡ c
          → answer_put http env root bucket key put c w₁ ≡ (done r, w')
          → (IsAccepted env st put) × (w₁ ≡ w') × (r ≡ stored_response http env root put.meta.etag)
      go (ok u) k h = (check_body_state-accepts env put st k, cc, cc)
      go (err e) k h = (let (u, w₂, ran, raised) = bind-done _ _ w₁ w' r h in cc)

  -- Behind a PUT that is answered without an error, the engine returned and the checks on the state
  -- of the body passed; the answer has the etag that the engine returned.
  pub put_object-accepts :
      (r : Response)
      → put_object http env root bucket key headers p w ≡ (done r, w')
      → (put : PutResult) × (stored w ≡ (done put, w'))
        × IsAccepted env (noted http env root headers p.state) put
        × (r ≡ stored_response http env root put.meta.etag)
  unfolding put_object
  put_object-accepts r h =
      let (put, w₁, ran, finished) = bind-done _ _ w w' r h in
      let (accepted, same, answer) =
        finish_put-accepts (noted http env root headers p.state) put w₁ r finished in
      (put, catch-raise-done _ _ w w₁ put ran ∙ ap (λ v. (done put, v)) same, accepted, answer)

-- `content-md5` changes nothing else of the state.
noted_keeps :
    (http : Http) (env : Env) (root : FilePath) (headers : RequestHeaders) (st : BodyState)
    → ((noted http env root headers st).expected_sha ≡ st.expected_sha)
      × ((noted http env root headers st).seen ≡ st.seen)
noted_keeps http env root headers st = elim (Option-cases (content_md5_hex http env headers)) [
  | inl h ↦ (rw (noted, h) refl, rw (noted, h) refl)
  | inr (m, h) ↦ (rw (noted, h) refl, rw (noted, h) refl)
]

-- Under the promises of the crates, where no file stands under a uuid that is still to be drawn:
-- where the request signs the hash of its whole body and its PUT is answered without an error, the
-- object holds what the connection yielded, whose hash is the signed one, with the content type and
-- the metadata of the headers.
pub put_object-IsSigned :
    (http : Http) (env : Env) (law : IsLawful env) (crypto : Crypto) (root : FilePath)
    (bucket key : Text) (headers : RequestHeaders) (v : Verified) (h : Text)
    (raw : List (Result Text Text)) (w w' : World) (r : Response)
    → v.payload_sha_mode ≡ signed_full h
    → IsFresh env root (object_dir env root bucket key) w.draws w.fs
    → put_object http env root bucket key headers
        (observe crypto (decoder_of v) (initial_state v) raw)
        w
      ≡ (done r, w')
    → (meta : ObjectMeta) × (content : Text) × IsStored env w.fs
        (object_dir env root bucket key)
        key
        (content_type_of headers)
        (user_metadata headers)
        content
        meta
        w'.fs
      × (env.hex_encode (env.sha256 content) ≡ h)
      × (content ≡ arrived raw)
put_object-IsSigned http env law crypto root bucket key headers v h raw w w' r mode fresh ran =
    let p = observe crypto (decoder_of v) (initial_state v) raw in
    let (expected, seen, whole) = signed_payload http crypto v h raw mode in
    let (put, kept, accepted, answer) =
      put_object-accepts http env root bucket key headers p w w' r ran in
    let (same_sha, same_seen) = noted_keeps http env root headers p.state in
    (
      put.meta,
      payload (boxed http p.body),
      put_object-IsStored env law root bucket key (boxed http p.body) (content_type_of headers)
          (user_metadata headers) w w' put fresh kept,
      subst (λ s. env.hex_encode (env.sha256 s) ≡ h) (same_seen ∙ seen)
          (accepted.signed h (same_sha ∙ expected)),
      whole,
    )
