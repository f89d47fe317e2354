-- ===== src/S3/Payload/Seen.antt =====
-- What the observing body of src/s3.rs hashes, and what its checks accept.
use los_cara.Base.{
  ◌≡◌, refl, sym, ◌∙◌, ap, subst, Bool, true, false, not, Option, none, some, List, [], ◌∷◌, ◌++◌,
  append_assoc, append-nil, Text, text_eq_iff, if◌then◌else◌,
}
use los_cara.Error.{S3Error, Result, ok, err}
use los_cara.Storage.Types.{Env, PutResult}
use los_cara.Storage.Atomic.Receive.{payload}
use los_cara.Auth.Crypto.{Crypto}
use los_cara.Auth.Verify.{Verified, signed_full}
use los_cara.S3.Http.{Http}
use los_cara.S3.Payload.{
  BodyState, observe, feed, boxed, initial_state, decoder_of, decoder_in, expected_of,
  check_body_state, check_sha, check_md5,
}

-- The bytes that a connection yields.
abbrev pub arrived : List (Result Text Text) → Text
arrived [] = []
arrived (ok chunk ∷ raw) = chunk ++ arrived raw
arrived (err e ∷ raw) = []

module _ (http : Http) (c : Crypto) where
  -- Without a decoder the handler gets what was hashed.
  pub observe-seen :
      (st : BodyState) (raw : List (Result Text Text))
      → (observe c none st raw).state.seen
        ≡ st.seen ++ payload (boxed http (observe c none st raw).body)
  unfolding observe boxed
  observe-seen st [] = sym (append-nil st.seen)
  observe-seen st (err e ∷ raw) = sym (append-nil st.seen)
  observe-seen st (ok chunk ∷ raw) = observe-seen (feed chunk st) raw ∙ append_assoc st.seen chunk _

  pub observe-expected :
      (st : BodyState) (raw : List (Result Text Text))
      → (observe c none st raw).state.expected_sha ≡ st.expected_sha
  unfolding observe
  observe-expected st [] = refl
  observe-expected st (err e ∷ raw) = refl
  observe-expected st (ok chunk ∷ raw) = observe-expected (feed chunk st) raw

  pub observe-arrived :
      (st : BodyState) (raw : List (Result Text Text))
      → payload (boxed http (observe c none st raw).body) ≡ arrived raw
  unfolding observe boxed
  observe-arrived st [] = refl
  observe-arrived st (err e ∷ raw) = refl
  observe-arrived st (ok chunk ∷ raw) =
      ap (λ (s : Text). chunk ++ s) (observe-arrived (feed chunk st) raw)

  -- Where the request signs the hash of its whole body, the handler gets what arrived, and that is
  -- what was hashed.
  pub signed_payload :
      (v : Verified) (h : Text) (raw : List (Result Text Text))
      → v.payload_sha_mode ≡ signed_full h
      → ((observe c (decoder_of v) (initial_state v) raw).state.expected_sha ≡ some h)
        × ((observe c (decoder_of v) (initial_state v) raw).state.seen
            ≡ payload (boxed http (observe c (decoder_of v) (initial_state v) raw).body))
        × (payload (boxed http (observe c (decoder_of v) (initial_state v) raw).body) ≡ arrived raw)
  unfolding decoder_of initial_state
  signed_payload v h raw mode =
      subst
        (λ d.
          ((observe c d (initial_state v) raw).state.expected_sha ≡ some h)
          × ((observe c d (initial_state v) raw).state.seen
              ≡ payload (boxed http (observe c d (initial_state v) raw).body))
          × (payload (boxed http (observe c d (initial_state v) raw).body) ≡ arrived raw))
        (sym (ap (λ m. decoder_in m v) mode))
        (
          observe-expected (initial_state v) raw ∙ ap expected_of mode,
          observe-seen (initial_state v) raw,
          observe-arrived (initial_state v) raw,
        )

-- The stream ended without an error of the decoder, the bytes have the hash that was signed, and
-- the stored ones the digest that `content-md5` gives.
pub record IsAccepted (env : Env) (st : BodyState) (put : PutResult) : Type 0 where
  pub intact : st.error ≡ none
  pub signed : (h : Text) → st.expected_sha ≡ some h → env.hex_encode (env.sha256 st.seen) ≡ h
  pub summed : (m : Text) → st.content_md5_hex ≡ some m → m ≡ put.content_md5_hex

abbrev IsSha : Env → Text → Option Text → Type 0
IsSha env seen o = (h : Text) → o ≡ some h → env.hex_encode (env.sha256 seen) ≡ h

abbrev IsSum : PutResult → Option Text → Type 0
IsSum put o = (m : Text) → o ≡ some m → m ≡ put.content_md5_hex

pub guard-ok :
    {A : Type 0} (b : Bool) (e : S3Error) (r : Result S3Error A) (a : A)
    → (if not b then err e else r) ≡ ok a
    → (b ≡ true) × (r ≡ ok a)
guard-ok true e r a h = (refl, h)
guard-ok false e r a h = cc

module _ (env : Env) (put : PutResult) where
  check_md5-accepts : (o : Option Text) → check_md5 o (some put) ≡ ok tt → IsSum put o
  check_md5-accepts none h m k = cc
  check_md5-accepts (some e) h m k =
      let same = (text_eq_iff e put.content_md5_hex).0 (guard-ok _ _ _ tt h).0 in cc

  check_sha-accepts :
      (st : BodyState) (o : Option Text)
      → check_sha env st o (some put) ≡ ok tt
      → IsSha env st.seen o × IsSum put st.content_md5_hex
  check_sha-accepts st none h = (λ x k. cc, check_md5-accepts st.content_md5_hex h)
  check_sha-accepts st (some x) h =
      let (same, rest) = guard-ok _ _ _ tt h in
      let is = (text_eq_iff (env.hex_encode (env.sha256 st.seen)) x).0 same in
      (λ y k. cc, check_md5-accepts st.content_md5_hex rest)

  pub check_body_state-accepts :
      (st : BodyState) → check_body_state env st (some put) ≡ ok tt → IsAccepted env st put
  unfolding check_body_state
  check_body_state-accepts st = go st.error refl
    where
      go :
          (o : Option S3Error)
          → st.error ≡ o
          → elim o [ some e ↦ err e | none ↦ check_sha env st st.expected_sha (some put) ] ≡ ok tt
          → IsAccepted env st put
      go none k h =
          let (sha, sum) = check_sha-accepts st st.expected_sha h in
          record { intact = k; signed = sha; summed = sum }
      go (some e) k h = cc
