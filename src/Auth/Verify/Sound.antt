-- ===== src/Auth/Verify/Sound.antt =====
-- What an accepted signature of src/auth.rs means.
use los_cara.Error
use los_cara.Base.{
  if◌then◌else◌, ap, ◌∙◌, Bool, true, false, ◌≡◌, refl, Option, none, some, List, [], ◌∷◌, map,
  subst, Text, codes, text_eq, text_eq_iff, split, lower_byte, any,
}
use los_cara.Error.{S3Error, Result, ok, err}
use los_cara.Auth.Crypto.{Crypto, signing_key}
use los_cara.Auth.Request.{
  Headers, Query, Percent, text_of_header, canonical_request_header, canonical_request_presigned,
  HeaderSig, scope_of,
}
use los_cara.Auth.Verify.{
  PayloadShaMode, Verified, AuthResult, header, presigned, Seconds, parse_i64, out_of_time, get_q,
  scope_text, unsigned_query, request_signature, parse_payload_sha, in_time, with_mode,
  with_canonical, with_sig, verify_header, with_secret, with_scope, verify_presigned, as_result,
  verify_request, header_date,
}
use los_cara.Auth.Verify.Promises.{
  Promised, Holds, err-Holds, guarded-Holds, required-Holds, as_result-Holds,
}

module _ (c : Crypto) (percent : Percent) (secrets : Text → Option Text)
    (seconds_since : Text → Option Seconds) (method raw_path : Text) (query : Query)
    (headers : Headers) where
  -- The store knows the access key, and the signature is the one that its secret gives the canonical
  -- text of this request, with the date and the scope of `v`.
  pub record IsSigned (canonical : Text) (v : Verified) : Type 0 where
    pub secret : Text
    pub region : Text
    pub known : secrets v.access_key ≡ some secret
    pub derived : v.signing_key ≡ signing_key c secret v.scope_date region (codes "s3")
    pub scoped : v.scope ≡ scope_text v.scope_date region
    pub signed :
        request_signature c percent v.signing_key v.amz_date v.scope canonical
        ≡ map lower_byte v.signature

  -- The request is not out of the time that it gives itself.
  pub record IsInTime (v : Verified) : Type 0 where
    pub text : Text
    pub expires : Seconds
    pub elapsed : Seconds
    pub given : get_q (codes "X-Amz-Expires") query ≡ some text
    pub parsed : parse_i64 text ≡ some expires
    pub dated : seconds_since v.amz_date ≡ some elapsed
    pub fresh : out_of_time elapsed expires ≡ false

  abbrev pub IsHeaderSigned : Verified → Type 0
  IsHeaderSigned v =
      (names : List Text) × (canonical : Text) × (canonical_request_header percent method raw_path
          query headers names
        ≡ ok canonical)
      × IsSigned canonical v

  abbrev pub IsQuerySigned : Verified → Type 0
  IsQuerySigned v =
      (names : List Text) × IsSigned
        (canonical_request_presigned percent method raw_path
          (unsigned_query c percent secrets seconds_since method raw_path query headers) headers
          names)
        v

  abbrev pub IsAuthentic : AuthResult → Type 0
  IsAuthentic (header v) = IsHeaderSigned v
  IsAuthentic (presigned v) = IsQuerySigned v × IsInTime v

  with_canonical-Holds :
      (sig : HeaderSig) (secret : Text) (r : Result S3Error Text)
      → secrets sig.access_key ≡ some secret
      → canonical_request_header percent method raw_path query headers sig.signed_headers ≡ r
      → Holds IsHeaderSigned (
          with_canonical c percent secrets seconds_since method raw_path query headers sig secret r)
  unfolding with_canonical with_mode
  with_canonical-Holds sig secret (err e) known is = err-Holds
  with_canonical-Holds sig secret (ok canonical) known is =
      guarded-Holds IsHeaderSigned _ _ _ λ same.
        mode
          (parse_payload_sha c.hex_decode (text_of_header headers (codes "x-amz-content-sha256")))
          ((text_eq_iff _ _).0 same)
    where
      mode :
          (r : Result S3Error PayloadShaMode)
          → request_signature c percent
              (signing_key c secret sig.date sig.region (codes "s3"))
              (header_date c percent secrets seconds_since method raw_path query headers sig)
              (scope_text sig.date sig.region)
              canonical
            ≡ map lower_byte sig.signature
          → Holds IsHeaderSigned (
              with_mode c percent secrets seconds_since method raw_path query headers sig
                (signing_key c secret sig.date sig.region (codes "s3"))
                r)
      mode (err e) same = err-Holds
      mode (ok m) same = record {
        at = (
          sig.signed_headers,
          canonical,
          is,
          record {
            secret = secret;
            region = sig.region;
            known = known;
            derived = refl;
            scoped = refl;
            signed = same;
          },
        );
      }

  with_sig-Holds :
      (r : Result S3Error HeaderSig)
      → Holds IsHeaderSigned
          (with_sig c percent secrets seconds_since method raw_path query headers r)
  unfolding with_sig
  with_sig-Holds (err e) = err-Holds
  with_sig-Holds (ok sig) = found (secrets sig.access_key) refl
    where
      found :
          (o : Option Text)
          → secrets sig.access_key ≡ o
          → Holds IsHeaderSigned (elim o [
            | none ↦ err Error.invalid_access_key_id
            | some secret ↦
                with_canonical c percent secrets seconds_since method raw_path query headers sig
                  secret
                  (canonical_request_header percent method raw_path query headers
                    sig.signed_headers)
          ])
      found none is = err-Holds
      found (some secret) is = with_canonical-Holds sig secret _ is refl

  abbrev IsAdmitted : Verified → Type 0
  IsAdmitted v = IsQuerySigned v × IsInTime v

  with_secret-Holds :
      (key date region amz_date names signature : Text) (o : Option Text)
      → secrets key ≡ o
      → ((v : Verified) → v.amz_date ≡ amz_date → IsInTime v)
      → Holds IsAdmitted (
          with_secret c percent secrets seconds_since method raw_path query headers key date region
            amz_date names signature o)
  unfolding with_secret
  with_secret-Holds key date region amz_date names signature none is timely = err-Holds
  with_secret-Holds key date region amz_date names signature (some secret) is timely =
      guarded-Holds IsAdmitted
        (text_eq
          (request_signature c percent (signing_key c secret date region (codes "s3")) amz_date
            (scope_text date region)
            (canonical_request_presigned percent method raw_path
              (unsigned_query c percent secrets seconds_since method raw_path query headers) headers
              (split b';' names)))
          (map lower_byte signature))
        _ _
        λ same. record {
          at = (
            (
              split b';' names,
              record {
                secret = secret;
                region = region;
                known = is;
                derived = refl;
                scoped = refl;
                signed = (text_eq_iff _ _).0 same;
              },
            ),
            timely _ refl,
          );
        }

  with_scope-Holds :
      (amz_date expires names signature : Text) (r : Result S3Error (Text × Text × Text))
      → get_q (codes "X-Amz-Expires") query ≡ some expires
      → Holds IsAdmitted (
          with_scope c percent secrets seconds_since method raw_path query headers amz_date expires
            names signature r)
  unfolding with_scope in_time
  with_scope-Holds amz_date expires names signature (err e) given = err-Holds
  with_scope-Holds amz_date expires names signature (ok (key, date, region)) given =
      timed (parse_i64 expires) (seconds_since amz_date) refl refl
    where
      timed :
          (e t : Option Seconds)
          → parse_i64 expires ≡ e
          → seconds_since amz_date ≡ t
          → Holds IsAdmitted (
              in_time e t (
                with_secret c percent secrets seconds_since method raw_path query headers key date
                  region amz_date names signature
                  (secrets key)))
      timed none t is_e is_t = err-Holds
      timed (some e) none is_e is_t = err-Holds
      timed (some e) (some t) is_e is_t = late (out_of_time t e) refl
        where
          late :
              (b : Bool)
              → out_of_time t e ≡ b
              → Holds IsAdmitted (
                  if b
                  then err Error.access_denied
                  else with_secret c percent secrets seconds_since method raw_path query headers key
                      date region amz_date names signature
                      (secrets key))
          late true is_b = err-Holds
          late false is_b =
              with_secret-Holds key date region amz_date names signature (secrets key) refl
                λ v is_v. record {
                  text = expires;
                  expires = e;
                  elapsed = t;
                  given = given;
                  parsed = is_e;
                  dated = ap seconds_since is_v ∙ is_t;
                  fresh = is_b;
                }

  verify_presigned-Holds :
      Holds IsAdmitted
        (verify_presigned c percent secrets seconds_since method raw_path query headers)
  unfolding verify_presigned
  verify_presigned-Holds =
      guarded-Holds IsAdmitted
        (any (text_eq method) (codes "GET" ∷ codes "PUT" ∷ codes "HEAD" ∷ [])) _ _
        λ _.
          guarded-Holds IsAdmitted
            (text_eq (elim (get_q (codes "X-Amz-Algorithm") query) [ none ↦ [] | some a ↦ a ])
              (codes "AWS4-HMAC-SHA256"))
            _ _
            λ _.
              required-Holds IsAdmitted (get_q (codes "X-Amz-Credential") query) _ λ credential _.
                required-Holds IsAdmitted (get_q (codes "X-Amz-Date") query) _ λ amz_date _.
                  required-Holds IsAdmitted (get_q (codes "X-Amz-Expires") query) _ λ expires given.
                    required-Holds IsAdmitted (get_q (codes "X-Amz-SignedHeaders") query) _
                      λ names _.
                        required-Holds IsAdmitted (get_q (codes "X-Amz-Signature") query) _
                          λ signature _.
                            with_scope-Holds amz_date expires names signature
                              (scope_of (split b'/' credential)) given

  -- A request that is let in is signed with the secret of a known access key over this method, path,
  -- query and headers, and over the date and the scope that the result names; a presigned one is
  -- also within the time that its query gives.
  pub verify_request-IsAuthentic :
      (r : AuthResult)
      → verify_request c percent secrets seconds_since method raw_path query headers ≡ ok r
      → IsAuthentic r
  unfolding verify_request verify_header
  verify_request-IsAuthentic r h =
      subst (Promised IsAuthentic) h
        (by_kind (any (λ p. text_eq p.0 (codes "X-Amz-Algorithm")) query)).at
    where
      by_kind :
          (b : Bool)
          → Holds IsAuthentic (
              if b
              then as_result presigned
                  (verify_presigned c percent secrets seconds_since method raw_path query headers)
              else elim (headers (codes "authorization")) [
                | none ↦ err Error.access_denied
                | some v ↦
                    as_result header
                      (verify_header c percent secrets seconds_since method raw_path query headers)
              ])
      by_kind true =
          as_result-Holds presigned IsAdmitted IsAuthentic _ (λ v p. p) verify_presigned-Holds
      by_kind false = by_header (headers (codes "authorization"))
        where
          by_header :
              (o : Option (Option Text))
              → Holds IsAuthentic (elim o [
                | none ↦ err Error.access_denied
                | some v ↦
                    as_result header
                      (verify_header c percent secrets seconds_since method raw_path query headers)
              ])
          by_header none = err-Holds
          by_header (some v) =
              as_result-Holds header IsHeaderSigned IsAuthentic _ (λ v p. p) (with_sig-Holds _)
