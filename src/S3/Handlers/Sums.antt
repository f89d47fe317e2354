-- ===== src/S3/Handlers/Sums.antt =====
-- The `content-md5` header of a PUT in src/s3.rs.
use los_cara.Base.{
  ◌≡◌, refl, sym, ◌∙◌, ap, subst, none, some, List, Text, codes, text_eq, map_get, map_insert,
}
use mathlib.Core.Option
use los_cara.Error.{Result}
use los_cara.Storage.Fs.{FilePath}
use los_cara.Storage.Io.{World, done}
use los_cara.Storage.Types.{Env, ObjectMeta}
use los_cara.Storage.Names.{object_dir}
use los_cara.Storage.Atomic.Laws.{IsLawful}
use los_cara.Storage.Atomic.Put.{IsFresh, IsStored}
use los_cara.Storage.Atomic.GetObject.{put_object-IsStored}
use los_cara.Storage.Atomic.Receive.{payload}
use los_cara.Storage.Atomic.Digest.{put_object-summed}
use los_cara.Auth.Crypto.{Crypto}
use los_cara.Auth.Verify.{Verified}
use los_cara.S3.Http.{
  Http, RequestHeaders, Response, header_opt, user_metadata, content_md5_hex, quoted, xml_response,
  insert_header,
}
use los_cara.S3.Payload.{BodyState, boxed, observe, initial_state, decoder_of}
use los_cara.S3.Payload.Seen.{observe-arrived, arrived}
use los_cara.S3.Handlers.Objects.{content_type_of, noted, stored_response, put_object}
use los_cara.S3.Handlers.Puts.{put_object-accepts}

module _ (http : Http) (env : Env) (root : FilePath) (headers : RequestHeaders) (s d : Text)
    (given : header_opt headers "content-md5" ≡ some s)
    (decodes : http.base64_decode s ≡ some d) where
  noted-given :
      (st : BodyState) → (noted http env root headers st).content_md5_hex ≡ some (env.hex_encode d)
  unfolding content_md5_hex Option.bind
  noted-given st = rw (noted, given, decodes) refl

  etag-stored_response :
      (etag : Text)
      → map_get text_eq (codes "etag") (stored_response http env root etag).headers
        ≡ some (quoted etag)
  unfolding xml_response insert_header codes map_get map_insert text_eq
  etag-stored_response etag = refl

  -- Under the promises of the crates, where no file stands under a uuid that is still to be drawn:
  -- where the body of a request is not signed in chunks, its `content-md5` header decodes to a
  -- digest, and its PUT is answered without an error, the object holds what the connection yielded,
  -- which has that digest, and the answer has status 200 and the digest as its etag.
  pub put_object-IsSummed :
      (law : IsLawful env) (crypto : Crypto) (bucket key : Text) (v : Verified)
      (raw : List (Result Text Text)) (w w' : World) (r : Response)
      → decoder_of v ≡ none
      → IsFresh env root (object_dir env root bucket key) w.draws w.fs
      → put_object http env root bucket key headers
          (observe crypto (decoder_of v) (initial_state v) raw)
          w
        ≡ (done r, w')
      → (meta : ObjectMeta) × IsStored env w.fs
          (object_dir env root bucket key)
          key
          (content_type_of headers)
          (user_metadata headers)
          (arrived raw)
          meta
          w'.fs
        × (env.hex_encode (env.md5 (arrived raw)) ≡ env.hex_encode d)
        × (r.status ≡ 200)
        × (map_get text_eq (codes "etag") r.headers ≡ some (quoted (env.hex_encode d)))
  unfolding xml_response
  put_object-IsSummed law crypto bucket key v raw w w' r plain fresh ran =
      let p = observe crypto (decoder_of v) (initial_state v) raw in
      let (put, kept, accepted, answer) =
        put_object-accepts http env root bucket key headers p w w' r ran in
      let whole : payload (boxed http p.body) ≡ arrived raw =
        ap (λ o. payload (boxed http (observe crypto o (initial_state v) raw).body)) plain
        ∙ observe-arrived http crypto (initial_state v) raw in
      let st =
        subst
          (λ content.
            IsStored env w.fs (object_dir env root bucket key) key (content_type_of headers)
              (user_metadata headers) content put.meta w'.fs)
          whole
          (put_object-IsStored env law root bucket key (boxed http p.body) (content_type_of headers)
            (user_metadata headers) w w' put fresh kept) in
      let is_etag : put.meta.etag ≡ env.hex_encode d = sym (
        accepted.summed (env.hex_encode d) (noted-given p.state)
        ∙ put_object-summed env root bucket key (boxed http p.body) (content_type_of headers)
            (user_metadata headers) w w' put kept) in
      (
        put.meta,
        st,
        sym st.has_etag ∙ is_etag,
        ap (λ (a : Response). a.status) answer,
        ap (λ (a : Response). map_get text_eq (codes "etag") a.headers) answer
            ∙ etag-stored_response put.meta.etag
            ∙ ap (λ e. some (quoted e)) is_etag,
      )
