-- ===== src/S3/Handlers/Streams.antt =====
-- What a PUT in src/s3.rs stores of a body that is signed in chunks.
use los_cara.Base.{
  ◌≡◌, ◌≢◌, refl, sym, ◌∙◌, subst, none, some, Option-cases, inl, inr, List, [], ◌∷◌, Text,
}
use los_cara.Error.{S3Error, ok}
use los_cara.Storage.Fs.{FilePath}
use los_cara.Storage.Io.{World, done}
use los_cara.Storage.Types.{Env, ObjectMeta}
use los_cara.Storage.Names.{object_dir}
use los_cara.Storage.Atomic.Laws.{IsLawful}
use los_cara.Storage.Atomic.Put.{IsFresh, IsStored}
use los_cara.Storage.Atomic.GetObject.{put_object-IsStored}
use los_cara.Auth.Crypto.{Crypto}
use los_cara.Auth.Verify.{Verified, streaming_signed}
use los_cara.Auth.Chunked.Decodes.{Frames}
use los_cara.Auth.Chunked.Refuses.{Tampered}
use los_cara.S3.Http.{Http, RequestHeaders, Response, user_metadata, content_md5_hex}
use los_cara.S3.Payload.{BodyState, boxed, observe, concat, initial_state, decoder_of}
use los_cara.S3.Payload.Framed.{handed-Frames, error-Tampered}
use los_cara.S3.Handlers.Objects.{content_type_of, noted, stored_response, put_object}
use los_cara.S3.Handlers.Puts.{put_object-accepts}

-- Under the promises of the crates, where no file stands under a uuid that is still to be drawn:
-- where the body of a PUT is framed and signed from the signature of its request on, arrives at
-- once, and the PUT is answered without an error, the object holds the chunks one after the other,
-- without their frames, with the content type and the metadata of the headers, and the answer has
-- its etag.
pub put_object-Frames :
    (http : Http) (env : Env) (law : IsLawful env) (crypto : Crypto) (root : FilePath)
    (bucket key : Text) (headers : RequestHeaders) (v : Verified) (raw : Text) (cs : List Text)
    (w w' : World) (r : Response)
    → v.payload_sha_mode ≡ streaming_signed
    → Frames crypto v.signing_key v.scope v.amz_date v.signature raw cs
    → IsFresh env root (object_dir env root bucket key) w.draws w.fs
    → put_object http env root bucket key headers
        (observe crypto (decoder_of v) (initial_state v) (ok raw ∷ []))
        w
      ≡ (done r, w')
    → (meta : ObjectMeta) × IsStored env w.fs
        (object_dir env root bucket key)
        key
        (content_type_of headers)
        (user_metadata headers)
        (concat cs)
        meta
        w'.fs
      × (r ≡ stored_response http env root meta.etag)
put_object-Frames http env law crypto root bucket key headers v raw cs w w' r mode framed fresh
      ran =
    let p = observe crypto (decoder_of v) (initial_state v) (ok raw ∷ []) in
    let (put, kept, accepted, answer) =
      put_object-accepts http env root bucket key headers p w w' r ran in
    (
      put.meta,
      subst
          (λ content.
            IsStored env w.fs (object_dir env root bucket key) key (content_type_of headers)
              (user_metadata headers) content put.meta w'.fs)
          (handed-Frames http crypto v raw cs mode framed)
          (put_object-IsStored env law root bucket key (boxed http p.body) (content_type_of headers)
            (user_metadata headers) w w' put fresh kept),
      answer,
    )

noted-error :
    (http : Http) (env : Env) (root : FilePath) (headers : RequestHeaders) (st : BodyState)
    → (noted http env root headers st).error ≡ st.error
noted-error http env root headers st = elim (Option-cases (content_md5_hex http env headers)) [
  | inl h ↦ rw (noted, h) refl
  | inr (m, h) ↦ rw (noted, h) refl
]

-- Where the body of a PUT is signed in chunks and one of its signatures is wrong, after chunks that
-- are signed rightly or none, and the body arrives at once, the PUT is not answered without an error.
pub put_object-Tampered :
    (http : Http) (env : Env) (crypto : Crypto) (root : FilePath) (bucket key : Text)
    (headers : RequestHeaders) (v : Verified) (raw : Text) (cs : List Text) (w w' : World)
    (r : Response)
    → v.payload_sha_mode ≡ streaming_signed
    → Tampered crypto v.signing_key v.scope v.amz_date v.signature raw cs
    → put_object http env root bucket key headers
        (observe crypto (decoder_of v) (initial_state v) (ok raw ∷ []))
        w
      ≢ (done r, w')
put_object-Tampered http env crypto root bucket key headers v raw cs w w' r mode tampered ran =
    let p = observe crypto (decoder_of v) (initial_state v) (ok raw ∷ []) in
    let (put, kept, accepted, answer) =
      put_object-accepts http env root bucket key headers p w w' r ran in
    none_some (
      sym accepted.intact
      ∙ noted-error http env root headers p.state
      ∙ error-Tampered http crypto v raw cs mode tampered)
  where
    none_some : {e : S3Error} → none ≢ some e
    none_some h = cc
