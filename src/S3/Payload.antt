-- ===== src/S3/Payload.antt =====
-- The request body on its way to a handler in src/s3.rs: the middleware's stream, which hashes and
-- decodes it, and the checks of its hashes.
pub mod Seen
pub mod Framed
use los_cara.Base.{
  ℕ, ◌==◌, ◌&&◌, Bool, not, Option, none, some, List, [], ◌∷◌, ◌++◌, Text, codes, text_eq,
  if◌then◌else◌,
}
use los_cara.Error
use los_cara.Error.{S3Error, Result, ok, err}
use los_cara.Storage.Types.{Env, PutResult}
use los_cara.Storage.Objects.{Body}
use los_cara.Auth.Crypto.{Crypto}
use los_cara.Auth.Verify.{
  Verified, PayloadShaMode, signed_full, unsigned, streaming_signed, streaming_unsigned,
}
use los_cara.Auth.Chunked
use los_cara.Auth.Chunked.{ChunkDecoder}
use los_cara.S3.Http.{Http}

-- `BodyStateInner`; `seen` is what both hashers were fed.
pub record BodyState : Type 0 where
  pub seen : Text
  pub expected_sha : Option Text
  pub content_md5_hex : Option Text
  pub error : Option S3Error

-- The body that a handler gets, with the state that the stream leaves when it is read to its end
-- or to its error.
pub record Payload : Type 0 where
  pub body : Body
  pub state : BodyState

abbrev pub expected_of : PayloadShaMode → Option Text
expected_of (signed_full h) = some h
expected_of unsigned = none
expected_of streaming_signed = none
expected_of streaming_unsigned = none

unfoldable pub initial_state : Verified → BodyState
initial_state verified = record {
  seen = [];
  expected_sha = expected_of verified.payload_sha_mode;
  content_md5_hex = none;
  error = none;
}

-- The decoder of a body that is signed in chunks.
abbrev pub decoder_in : PayloadShaMode → Verified → Option ChunkDecoder
decoder_in streaming_signed v = some (Chunked.new v.signing_key v.scope v.amz_date v.signature)
decoder_in (signed_full h) v = none
decoder_in unsigned v = none
decoder_in streaming_unsigned v = none

unfoldable pub decoder_of : Verified → Option ChunkDecoder
decoder_of v = decoder_in v.payload_sha_mode v

-- `sha.update` and `md5.update`.
abbrev pub feed : Text → BodyState → BodyState
feed chunk st = record st { seen = st.seen ++ chunk }

-- `out.concat()`.
unfoldable pub concat : List Text → Text
concat [] = []
concat (p ∷ ps) = p ++ concat ps

-- Nothing is passed on where the decoder yields no chunk.
unfoldable pub pass_on : List Text → Payload → Payload
unfolding concat
pass_on [] p = p
pass_on (c ∷ out) p = record p { body = ok (concat (c ∷ out)) ∷ p.body }

abbrev chunk_error : S3Error
chunk_error = Error.invalid_argument (codes "chunked payload error")

module _ (c : Crypto) where
  -- `ObservingBody`, polled until it ends, over the chunks as the connection yields them, or the text
  -- of the error that it fails with. The decoder always returns, so that the case without a result
  -- does not come up.
  unfoldable pub observe : Option ChunkDecoder → BodyState → List (Result Text Text) → Payload
  unfolding pass_on
  observe dec st [] = record { body = []; state = st }
  observe dec st (err e ∷ raw) = record {
    body = err (Error.internal (codes "body read error: " ++ e)) ∷ [];
    state = st;
  }
  observe none st (ok chunk ∷ raw) =
      let rest = observe none (feed chunk st) raw in record rest { body = ok chunk ∷ rest.body }
  observe (some dec) st (ok chunk ∷ raw) = elim (Chunked.push c dec chunk []) [
    | none ↦ record { body = []; state = feed chunk st }
    | some (dec', out, ok _) ↦ pass_on out (observe (some dec') (feed chunk st) raw)
    | some (dec', out, err e) ↦ record {
      body = err chunk_error ∷ [];
      state = record (feed chunk st) { error = some e };
    }
  ]

module _ (http : Http) where
  abbrev box_error : S3Error → S3Error
  box_error e = Error.invalid_argument (codes "body error: " ++ http.show_error e)

  -- `BoxBodyStream`.
  unfoldable pub boxed : Body → Body
  boxed [] = []
  boxed (ok chunk ∷ body) = ok chunk ∷ boxed body
  boxed (err e ∷ body) = err (box_error e) ∷ boxed body

  -- `error.clone().unwrap_or(e)`. The state has its error as soon as the stream has yielded its own,
  -- with which the engine then ends; where the engine ends with another, the stream was not read so
  -- far.
  unfoldable pub surfaced : BodyState → S3Error → S3Error
  surfaced st e = elim st.error [
    | none ↦ e
    | some auth ↦
        if (e.status == 400) && text_eq e.message (box_error chunk_error).message then auth else e
  ]

abbrev check_md5 : Option Text → Option PutResult → Result S3Error (Unit {0})
check_md5 none put = ok tt
check_md5 (some expected) none = ok tt
check_md5 (some expected) (some put) =
    if not (text_eq expected put.content_md5_hex) then err Error.bad_digest else ok tt

module _ (env : Env) where
  abbrev check_sha : BodyState → Option Text → Option PutResult → Result S3Error (Unit {0})
  check_sha st none put = check_md5 st.content_md5_hex put
  check_sha st (some expected) put =
      if not (text_eq (env.hex_encode (env.sha256 st.seen)) expected)
      then err Error.sha_mismatch
      else check_md5 st.content_md5_hex put

  unfoldable pub check_body_state : BodyState → Option PutResult → Result S3Error (Unit {0})
  check_body_state st put = elim st.error [
    | some e ↦ err e
    | none ↦ check_sha st st.expected_sha put
  ]
