-- ===== src/Tests/Handlers.antt =====
-- Runs of the handlers of src/s3.rs.
use los_cara.Base.{
  ◌≡◌, refl, Bool, false, none, some, List, [], ◌⊎◌, ◌≢◌, ◌≤◌, ◌<◌, ◌+◌, ◌∷◌, ◌++◌, take, drop,
  has_byte, split_once, parse_u64, length, Text, codes, text_eq, ends_with, strip_prefix, map_get,
}
use mathlib.Core.Option
use los_cara.Error
use los_cara.Error.{S3Error, Result, ok, err}
use los_cara.Storage.Fs
use los_cara.Storage.Fs.{file, lookup, child, path_eq, entries}
use los_cara.Storage.Io.{World, done, failed, catch, ◌>>=◌, map_err, tick}
use los_cara.Storage.Calls.{create_dir_all, rename, write}
use los_cara.Storage.Types.{ObjectMeta}
use los_cara.Storage.Names.{tmp_file, object_dir, data_name, with_extension}
use los_cara.Storage.Buckets.{require_bucket}
use los_cara.Storage.Objects
use los_cara.Storage.Objects.{write_staged, stage, install}
use los_cara.Storage.Atomic.Put.{IsStored}
use los_cara.Storage.Atomic.Receive.{payload}
use los_cara.Storage.Atomic.Deletes.{delete_object-put_object}
use los_cara.S3.Http.{
  Response, user_metadata, HeaderMap, RequestHeaders, quoted, header_opt, content_md5_hex,
}
use los_cara.S3.Payload.{Payload, observe, initial_state, decoder_of, boxed, check_body_state}
use los_cara.S3.Payload.Seen.{arrived}
use los_cara.S3.Handlers.Objects.{
  content_type_of, noted, stored_response, served_headers, put_object, get_object, answer_put,
  asked_for, delete_objects,
}
use los_cara.S3.Range.{valid, parse_range}
use los_cara.Storage.Multipart.{decimal}
use los_cara.S3.Handlers.Puts.{stored, put_object-IsSigned}
use los_cara.S3.Handlers.Ranges.{range_text, serves_range}
use los_cara.S3.Handlers.Sums.{put_object-IsSummed}
use los_cara.S3.Handlers.Gets.{
  IsPlain, IsUnconditional, serves_what_was_put, put_object-mismatch_loses,
}
use los_cara.S3.Handlers.Deletes.{delete_objects-answers}
use los_cara.Tests.Atomic.{hash, env, body, env-IsLawful}
use los_cara.Tests.ReadBack.{quiet, saved, quiet_after, quiet_put, quiet-IsFresh, bucket_there}
use los_cara.Tests.Auth.{crypto}
use los_cara.Tests.Crates.{http, put_headers, get_headers, signed_body, arriving}

abbrev put_payload : Payload
put_payload = observe crypto (decoder_of signed_body) (initial_state signed_body) arriving

abbrev answered : Response
answered = stored_response http env [] (codes "hello")

abbrev put_after : World
put_after = (put_object http env [] (codes "b") (codes "k") put_headers put_payload quiet).1

put_ran :
    put_object http env [] (codes "b") (codes "k") put_headers put_payload quiet
    ≡ (done answered, put_after)
unfolding put_object catch answer_put observe boxed content_type_of header_opt user_metadata
    check_body_state Objects.put_object write_staged ◌>>=◌ codes lookup path_eq require_bucket
    text_eq Fs.join stage map_err tmp_file create_dir_all object_dir Fs.set rename data_name tick
    install write with_extension entries ends_with decoder_of initial_state strip_prefix
    content_md5_hex Option.bind
put_ran = refl

md5_given : header_opt put_headers "content-md5" ≡ some (codes "hello")
unfolding header_opt codes map_get text_eq
md5_given = refl

undecoded : decoder_of signed_body ≡ none
unfolding decoder_of
undecoded = refl

put_object-IsSummed_example :
    (meta : ObjectMeta) × IsStored env quiet.fs
      (object_dir env [] (codes "b") (codes "k"))
      (codes "k")
      (content_type_of put_headers)
      (user_metadata put_headers)
      (arrived arriving)
      meta
      put_after.fs
    × (env.hex_encode (env.md5 (arrived arriving)) ≡ env.hex_encode (codes "hello"))
    × (answered.status ≡ 200)
    × (map_get text_eq (codes "etag") answered.headers
        ≡ some (quoted (env.hex_encode (codes "hello"))))
put_object-IsSummed_example =
    put_object-IsSummed http env [] put_headers (codes "hello") (codes "hello") md5_given refl
      env-IsLawful crypto (codes "b") (codes "k") signed_body arriving quiet put_after answered
      undecoded quiet-IsFresh put_ran

put_object-IsSigned_example :
    (meta : ObjectMeta) × (content : Text) × IsStored env quiet.fs
      (object_dir env [] (codes "b") (codes "k"))
      (codes "k")
      (content_type_of put_headers)
      (user_metadata put_headers)
      content
      meta
      put_after.fs
    × (env.hex_encode (env.sha256 content) ≡ hash)
    × (content ≡ arrived arriving)
put_object-IsSigned_example =
    put_object-IsSigned http env env-IsLawful crypto [] (codes "b") (codes "k") put_headers
      signed_body hash arriving quiet put_after answered refl quiet-IsFresh put_ran

get_headers-IsPlain : IsPlain get_headers
unfolding header_opt codes map_get text_eq
get_headers-IsPlain = record {
  no_match = refl;
  no_none_match = refl;
  no_modified = refl;
  no_unmodified = refl;
  no_range = refl;
}

serves_what_was_put_example :
    (meta : ObjectMeta) × (answered ≡ stored_response http env [] meta.etag)
    × (get_object http env []
          (codes "b")
          (codes "k")
          get_headers
          false
          (record put_after { io = [] })
        ≡ (
          done (record {
            status = 200;
            headers = served_headers http meta none [];
            body = payload (boxed http put_payload.body);
          }),
          record put_after { io = [] },
        ))
serves_what_was_put_example =
    serves_what_was_put http env env-IsLawful [] (codes "b") (codes "k") put_headers put_payload
      quiet put_after quiet-IsFresh [] bucket_there get_headers answered false get_headers-IsPlain
      put_ran

abbrev range_headers : RequestHeaders
range_headers = (codes "range", some (codes "bytes=1-9")) ∷ []

range_headers-IsUnconditional : IsUnconditional range_headers
unfolding header_opt codes map_get text_eq
range_headers-IsUnconditional = record {
  no_match = refl;
  no_none_match = refl;
  no_modified = refl;
  no_unmodified = refl;
}

range_given : header_opt range_headers "range" ≡ some (codes "bytes=1-9")
unfolding header_opt codes map_get text_eq
range_given = refl

range_accepted :
    parse_range (codes "bytes=1-9") (length (payload (boxed http put_payload.body))) ≡ valid 1 4
unfolding parse_range codes strip_prefix has_byte split_once parse_u64 boxed observe decoder_of
range_accepted = refl

serves_range_example :
    (hs : HeaderMap) × (body : Text) × (get_object http env []
        (codes "b")
        (codes "k")
        range_headers
        false
        (record put_after { io = [] })
      ≡ (
        done (record {
          status = 206;
          headers =
              hs
              ++ ((
                codes "content-range",
                range_text 1 4 (length (payload (boxed http put_payload.body))),
              )
                  ∷ []);
          body = body;
        }),
        record put_after { io = [] },
      ))
    × (map_get text_eq (codes "content-length") hs ≡ some (decimal (length body)))
    × (body ≡ take 4 (drop 1 (payload (boxed http put_payload.body))))
    × (length body ≡ 4)
    × (0 < 4)
    × (1 + 4 ≤ length (payload (boxed http put_payload.body)))
serves_range_example =
    serves_range http env env-IsLawful [] (codes "b") (codes "k") put_headers put_payload quiet
      put_after quiet-IsFresh [] bucket_there range_headers (codes "bytes=1-9") 1 4 answered false
      range_headers-IsUnconditional range_given range_accepted put_ran

-- The same body under another signed hash.
abbrev forged : Payload
forged = record put_payload { state = record put_payload.state { expected_sha = some [] } }

mismatched :
    check_body_state env (noted http env [] put_headers forged.state) (some saved)
    ≡ err Error.sha_mismatch
unfolding check_body_state observe content_md5_hex initial_state codes text_eq Option.bind
    header_opt map_get decoder_of
mismatched = refl

stored_first :
    stored http env [] (codes "b") (codes "k") put_headers forged quiet quiet_after quiet
    ≡ (done saved, quiet_after)
unfolding observe boxed content_type_of header_opt user_metadata strip_prefix codes map_get text_eq
    decoder_of initial_state Objects.put_object stage write_staged require_bucket lookup path_eq
    Fs.join map_err tmp_file Fs.set
stored_first = quiet_put

quiet_left : quiet_after.io ≡ []
unfolding Objects.put_object write_staged ◌>>=◌ codes lookup path_eq require_bucket text_eq Fs.join
    stage map_err tmp_file create_dir_all object_dir Fs.set rename data_name tick install write
    with_extension entries ends_with
quiet_left = refl

put_object-mismatch_loses_example :
    (w₁ : World) × (put_object http env [] (codes "b") (codes "k") put_headers forged quiet
      ≡ (failed Error.sha_mismatch, w₁))
    × (Objects.head_object env [] (codes "b") (codes "k") w₁
        ≡ (failed (Error.no_such_key (codes "k")), w₁))
put_object-mismatch_loses_example =
    put_object-mismatch_loses http env env-IsLawful [] (codes "b") (codes "k") put_headers forged
      quiet quiet_after quiet-IsFresh [] bucket_there saved Error.sha_mismatch stored_first
      quiet_left mismatched

delete_object-put_object_example :
    (w₁ : World) × (Objects.delete_object env []
        (codes "b")
        (codes "k")
        (record quiet_after { io = [] })
      ≡ (done tt, w₁))
    × (Objects.head_object env [] (codes "b") (codes "k") w₁
        ≡ (failed (Error.no_such_key (codes "k")), w₁))
delete_object-put_object_example =
    delete_object-put_object env env-IsLawful [] (codes "b") (codes "k") body (codes "text/plain")
      [] quiet quiet_after saved quiet-IsFresh quiet_put [] bucket_there

delete_objects-answers_example :
    ((e : S3Error) × (delete_objects http env [] (codes "b") put_payload put_after
        ≡ (failed e, put_after)))
    ⊎ ((asked : List Text × Bool) × (asked_for http env [] put_payload ≡ ok asked)
        × (length asked.0 ≤ 1000)
        × ((e : S3Error)
            → (delete_objects http env [] (codes "b") put_payload put_after).0 ≢ failed e))
delete_objects-answers_example =
    delete_objects-answers http env [] (codes "b") put_payload put_after
