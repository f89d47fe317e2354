-- ===== src/Tests/Streams.antt =====
-- An upload whose body is signed in chunks.
use los_cara.Base.{
  ◌≡◌, ◌≢◌, ◌++◌, Text, find_text, parse_radix, split, arith, Bool, true, false, ◌∷◌, sym, subst,
  refl, some, [], codes, text_eq, ends_with, strip_prefix,
}
use mathlib.Core.Option
use los_cara.Error.{ok}
use los_cara.Storage.Fs
use los_cara.Storage.Fs.{file, lookup, child, path_eq, entries}
use los_cara.Storage.Io.{World, done, catch, ◌>>=◌, map_err, tick}
use los_cara.Storage.Calls.{create_dir_all, rename, write}
use los_cara.Storage.Types.{ObjectMeta}
use los_cara.Storage.Names.{tmp_file, object_dir, data_name, with_extension}
use los_cara.Storage.Buckets.{require_bucket}
use los_cara.Storage.Objects
use los_cara.Storage.Objects.{write_staged, stage, install}
use los_cara.Storage.Atomic.Put.{IsStored}
use los_cara.S3.Http.{RequestHeaders, Response, user_metadata, header_opt, content_md5_hex}
use los_cara.S3.Payload.{Payload, observe, initial_state, decoder_of, boxed, check_body_state}
use los_cara.S3.Handlers.Objects.{content_type_of, stored_response, put_object, answer_put}
use los_cara.S3.Payload.{concat, pass_on, feed}
use los_cara.S3.Payload.Framed.{observe-Frames}
use los_cara.Auth.Verify.{Verified, streaming_signed}
use los_cara.S3.Handlers.Streams.{put_object-Frames, put_object-Tampered}
use los_cara.Auth.Chunked.{crlf, parse_chunk_header, chunk_signature}
use los_cara.Auth.Chunked.Decodes.{IsHeader}
use los_cara.Auth.Chunked.Refuses.{Tampered, good_chunk, bad_last}
use los_cara.Auth.Crypto.{is_utf8}
use los_cara.Tests.Atomic.{env, env-IsLawful}
use los_cara.Tests.ReadBack.{quiet, quiet-IsFresh}
use los_cara.Tests.Crates.{http}
use los_cara.Tests.Stream.{data_header, data_header-IsHeader, crypto, raw_body, chunk, body-Frames}

abbrev plain_headers : RequestHeaders
plain_headers = (codes "content-type", some (codes "text/plain")) ∷ []

abbrev chunk_signed : Verified
chunk_signed = record {
  access_key = codes "key";
  scope_date = codes "20250101";
  scope = codes "scope";
  signature = codes "seed";
  payload_sha_mode = streaming_signed;
  amz_date = codes "date";
  signing_key = codes "ab";
}

abbrev chunk_payload : Payload
chunk_payload =
    pass_on (chunk ∷ []) (record { body = []; state = feed raw_body (initial_state chunk_signed) })

abbrev answered : Response
answered = stored_response http env [] chunk

abbrev put_after : World
put_after = (put_object http env [] (codes "b") (codes "k") plain_headers chunk_payload quiet).1

plain_ran :
    put_object http env [] (codes "b") (codes "k") plain_headers chunk_payload quiet
    ≡ (done answered, put_after)
unfolding put_object catch answer_put boxed pass_on concat content_type_of header_opt user_metadata
    check_body_state Objects.put_object write_staged ◌>>=◌ codes lookup path_eq require_bucket
    text_eq Fs.join stage map_err tmp_file create_dir_all object_dir Fs.set rename data_name tick
    install write with_extension entries ends_with decoder_of initial_state strip_prefix
    content_md5_hex Option.bind
plain_ran = refl

put_ran :
    put_object http env []
      (codes "b")
      (codes "k")
      plain_headers
      (observe crypto (decoder_of chunk_signed) (initial_state chunk_signed) (ok raw_body ∷ []))
      quiet
    ≡ (done answered, put_after)
put_ran =
    subst
      (λ (p : Payload).
        put_object http env [] (codes "b") (codes "k") plain_headers p quiet
        ≡ (done answered, put_after))
      (sym (observe-Frames http crypto chunk_signed raw_body (chunk ∷ []) refl body-Frames))
      plain_ran

put_object-Frames_example :
    (meta : ObjectMeta) × IsStored env quiet.fs
      (object_dir env [] (codes "b") (codes "k"))
      (codes "k")
      (content_type_of plain_headers)
      (user_metadata plain_headers)
      (concat (chunk ∷ []))
      meta
      put_after.fs
    × (answered ≡ stored_response http env [] meta.etag)
put_object-Frames_example =
    put_object-Frames http env env-IsLawful crypto [] (codes "b") (codes "k") plain_headers
      chunk_signed raw_body (chunk ∷ []) quiet put_after answered refl body-Frames quiet-IsFresh
      put_ran

-- The data chunk is signed rightly, the last one is not.
abbrev forged_last : Text
forged_last = codes "0;chunk-signature=FF" ++ crlf

forged_last-IsHeader : IsHeader forged_last 0 (codes "FF")
unfolding parse_chunk_header codes find_text is_utf8 parse_radix split strip_prefix
forged_last-IsHeader = λ rest. refl

abbrev tampered_body : Text
tampered_body = data_header ++ (chunk ++ (crlf ++ (forged_last ++ crlf)))

-- Whether the signature is that of the right one.
abbrev Matches : Bool → Type 0
Matches true = Unit
Matches false = ⊥

body-Tampered :
    Tampered crypto
      (codes "ab")
      (codes "scope")
      (codes "date")
      (codes "seed")
      tampered_body
      (chunk ∷ [])
unfolding chunk_signature codes text_eq
body-Tampered =
    good_chunk (codes "seed") data_header (codes "ab") chunk (forged_last ++ crlf) []
      data_header-IsHeader (omega arith) refl
      (bad_last (codes "ab") forged_last (codes "FF") crlf forged_last-IsHeader
        (λ h. subst (λ s. Matches (text_eq s (codes "ab"))) h tt))

put_object-Tampered_example :
    put_object http env []
      (codes "b")
      (codes "k")
      plain_headers
      (observe crypto
        (decoder_of chunk_signed)
        (initial_state chunk_signed)
        (ok tampered_body ∷ []))
      quiet
    ≢ (done answered, put_after)
put_object-Tampered_example =
    put_object-Tampered http env crypto [] (codes "b") (codes "k") plain_headers chunk_signed
      tampered_body (chunk ∷ []) quiet put_after answered refl body-Tampered
