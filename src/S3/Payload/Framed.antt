-- ===== src/S3/Payload/Framed.antt =====
-- What the observing body of src/s3.rs passes on of a body that is signed in chunks.
use los_cara.Base.{◌≡◌, refl, ◌∙◌, ap, some, List, [], ◌∷◌, ◌++◌, append-nil, Text}
use los_cara.Error
use los_cara.Error.{ok}
use los_cara.Storage.Atomic.Receive.{payload}
use los_cara.Auth.Crypto.{Crypto}
use los_cara.Auth.Verify.{Verified, streaming_signed}
use los_cara.Auth.Chunked
use los_cara.Auth.Chunked.{ChunkDecoder}
use los_cara.Auth.Chunked.Decodes.{Frames, push-Frames}
use los_cara.Auth.Chunked.Refuses.{Tampered, push-Tampered}
use los_cara.S3.Http.{Http}
use los_cara.S3.Payload.{
  Payload, BodyState, observe, pass_on, concat, boxed, feed, initial_state, decoder_of, decoder_in,
}

module _ (http : Http) where
  -- The bytes that a handler reads of a body.
  abbrev pub handed : Payload → Text
  handed p = payload (boxed http p.body)

  handed-pass_on : (out : List Text) (p : Payload) → handed (pass_on out p) ≡ concat out ++ handed p
  unfolding pass_on boxed concat
  handed-pass_on [] p = refl
  handed-pass_on (c ∷ out) p = refl

  module _ (c : Crypto) where
    observe-push :
        (dec dec' : ChunkDecoder) (st : BodyState) (raw : Text) (out : List Text)
        → Chunked.push c dec raw [] ≡ some (dec', out, ok tt)
        → observe c (some dec) st (ok raw ∷ [])
          ≡ pass_on out (record { body = []; state = feed raw st })
    unfolding observe
    observe-push dec dec' st raw out h = rw (observe, h) refl

    -- A body that is framed and signed from the seed signature on, and arrives at once, is handed
    -- on as its chunks, and the decoder has no error.
    pub observe-Frames :
        (v : Verified) (raw : Text) (cs : List Text)
        → v.payload_sha_mode ≡ streaming_signed
        → Frames c v.signing_key v.scope v.amz_date v.signature raw cs
        → observe c (decoder_of v) (initial_state v) (ok raw ∷ [])
          ≡ pass_on cs (record { body = []; state = feed raw (initial_state v) })
    unfolding decoder_of
    observe-Frames v raw cs mode f =
        let (d, run, end) = push-Frames c v.signing_key v.scope v.amz_date v.signature raw cs f in
        ap (λ m. observe c (decoder_in m v) (initial_state v) (ok raw ∷ [])) mode
        ∙ observe-push _ d (initial_state v) raw cs run

    pub handed-Frames :
        (v : Verified) (raw : Text) (cs : List Text)
        → v.payload_sha_mode ≡ streaming_signed
        → Frames c v.signing_key v.scope v.amz_date v.signature raw cs
        → handed (observe c (decoder_of v) (initial_state v) (ok raw ∷ [])) ≡ concat cs
    unfolding boxed
    handed-Frames v raw cs mode f =
        ap handed (observe-Frames v raw cs mode f)
        ∙ handed-pass_on cs (record { body = []; state = feed raw (initial_state v) })
        ∙ append-nil (concat cs)

    -- A body in which a signature is wrong, and that arrives at once, leaves that error.
    pub error-Tampered :
        (v : Verified) (raw : Text) (cs : List Text)
        → v.payload_sha_mode ≡ streaming_signed
        → Tampered c v.signing_key v.scope v.amz_date v.signature raw cs
        → (observe c (decoder_of v) (initial_state v) (ok raw ∷ [])).state.error
          ≡ some Error.signature_does_not_match
    unfolding decoder_of observe Error.signature_does_not_match
    error-Tampered v raw cs mode f =
        let (d, out, run) = push-Tampered c v.signing_key v.scope v.amz_date v.signature raw cs f in
        ap (λ m. (observe c (decoder_in m v) (initial_state v) (ok raw ∷ [])).state.error) mode
        ∙ rw (observe, run) refl
