-- ===== src/S3/Handlers/Ranges.antt =====
-- What the handler of GET in src/s3.rs answers where a range is asked for.
use los_cara.Base.{
  ℕ, ◌+◌, ◌-◌, ◌≤◌, ◌<◌, ◌≡◌, refl, sym, ◌∙◌, ap, subst, Bool, some, [], ◌∷◌, ◌++◌, arith, Text,
  codes, length, take, drop, length-take, length-drop, map_get, text_eq, if◌then◌else◌,
}
use los_cara.Error.{S3Error}
use los_cara.Storage.Fs.{FilePath, file, lookup, child}
use los_cara.Storage.Io.{World, Outcome, done, pure}
use los_cara.Storage.Types.{Env, ObjectMeta}
use los_cara.Storage.Names.{meta_name, bucket_dir, object_dir}
use los_cara.Storage.Objects
use los_cara.Storage.Objects.{read_len}
use los_cara.Storage.Multipart.{decimal}
use los_cara.Storage.Runs.{Runs, bind_at}
use los_cara.Storage.Atomic.Laws.{IsLawful}
use los_cara.Storage.Atomic.Put.{IsFresh}
use los_cara.Storage.Atomic.Receive.{payload}
use los_cara.Storage.Atomic.GetObject.{
  put_object-IsStored, head_object-put_object, get_object_range-put_object,
}
use los_cara.S3.Range.{valid, parse_range, IsWithin, parse_range-IsWithin}
use los_cara.S3.Http.{
  Http, HeaderMap, RequestHeaders, Response, header_opt, user_metadata, insert_header,
  object_headers,
}
use los_cara.S3.Http.Headers.{header-inserted}
use los_cara.S3.Payload.{Payload, boxed}
use los_cara.S3.Handlers.Objects.{
  content_type_of, served_headers, content_range, serve, serve_range, with_conditions, range_in,
  put_object, get_object,
}
use los_cara.S3.Handlers.Puts.{put_object-accepts}
use los_cara.S3.Handlers.Gets.{IsUnconditional, goes_on, look_up_at}

-- `bytes start-end/size`.
abbrev pub range_text : ℕ → ℕ → ℕ → Text
range_text start last size =
    codes "bytes " ++ (decimal start ++ (b'-' ∷ (decimal last ++ (b'/' ∷ decimal size))))

abbrev headers_before : Http → ObjectMeta → ℕ → HeaderMap
headers_before http meta len =
    insert_header "content-length" (decimal len) (object_headers http meta)

-- The answer with a part of an object of `size` bytes.
abbrev partly : Http → ObjectMeta → ℕ → ℕ → Bool → ℕ → Text → Response
partly http meta start len head_only size body = record {
  status = 206;
  headers =
      headers_before http meta len
      ++ ((codes "content-range", range_text start (start + len - 1) size) ∷ []);
  body = if head_only then [] else body;
}

module _ (http : Http) (env : Env) (root : FilePath) (bucket key : Text) (w : World)
    (meta : ObjectMeta) (content : Text) (start len : ℕ)
    (read : Objects.get_object_range env root bucket key start (some len) w
      ≡ (done (meta, take (read_len meta start (some len)) (drop start content)), w)) where
  abbrev part : Text
  part = take (read_len meta start (some len)) (drop start content)

  serve_at :
      (head_only : Bool)
      → Runs
          (serve http env root bucket key head_only
            (some (start, len))
            (insert_header "content-range" (content_range start len meta.size) []))
          w
          (done (partly http meta start len head_only meta.size part), w)
  unfolding serve pure served_headers insert_header content_range
  serve_at head_only = bind_at _ _ (record { at = read }) (record { at = refl })

  get_object_at :
      (asked : RequestHeaders) (h : Text) (head_only : Bool)
      → Objects.head_object env root bucket key w ≡ (done meta, w)
      → IsUnconditional asked
      → header_opt asked "range" ≡ some h
      → parse_range h meta.size ≡ valid start len
      → Runs
          (get_object http env root bucket key asked head_only)
          w
          (done (partly http meta start len head_only meta.size part), w)
  unfolding get_object with_conditions serve_range
  get_object_at asked h head_only seen free ranged parsed =
      bind_at _ _ (record { at = look_up_at http env root bucket key w meta seen head_only })
        (record {
          at =
              ap (λ c. with_conditions http env root bucket key asked head_only meta c w)
                (goes_on http asked meta free)
              ∙ ap (λ r. serve_range http env root bucket key head_only meta r w) in_range
              ∙ (serve_at head_only).at;
        })
    where
      in_range : range_in http env root asked meta ≡ valid start len
      in_range = rw (range_in, ranged) parsed

part-length :
    (meta : ObjectMeta) (content : Text) (start len : ℕ)
    → meta.size ≡ length content
    → start + len ≤ length content
    → (take (read_len meta start (some len)) (drop start content) ≡ take len (drop start content))
      × (length (take len (drop start content)) ≡ len)
part-length meta content start len sized fits = (
  ap (λ n. take n (drop start content)) short,
  omega (arith, length-take len (drop start content), length-drop start content),
)
  where
    short : read_len meta start (some len) ≡ len
    short = omega (arith, sized)

partly-part :
    (http : Http) (meta : ObjectMeta) (content : Text) (start len : ℕ) (head_only : Bool)
    (w : World)
    → meta.size ≡ length content
    → start + len ≤ length content
    → ◌≡◌ {A = Outcome S3Error Response × World}
        (
          done (
              partly http meta start len head_only meta.size
                (take (read_len meta start (some len)) (drop start content))),
          w,
        )
        (
          done (
              partly http meta start len head_only
                (length content)
                (take len (drop start content))),
          w,
        )
partly-part http meta content start len head_only w sized fits =
    ap
      (λ n. (
        done (
            partly http meta start len head_only n
              (take (read_len meta start (some len)) (drop start content))),
        w,
      ))
      sized
    ∙ ap (λ s. (done (partly http meta start len head_only (length content) s), w))
        (part-length meta content start len sized fits).0

module _ (http : Http) (env : Env) (law : IsLawful env) (root : FilePath) (bucket key : Text)
    (headers : RequestHeaders) (p : Payload) (w w' : World)
    (fresh : IsFresh env root (object_dir env root bucket key) w.draws w.fs) (b : Text)
    (there : lookup (child (bucket_dir root bucket) meta_name) w.fs ≡ some (file b)) where
  abbrev stored_body : Text
  stored_body = payload (boxed http p.body)

  -- Under the promises of the crates, where the bucket's metadata is a file, no file stands under a
  -- uuid that is still to be drawn, and no call after the PUT fails: once a PUT is answered without
  -- an error, a GET without conditions whose range is accepted for the length of the stored body is
  -- answered with status 206 and the bytes of the range, which is not empty and lies in the body.
  -- There are as many bytes as `content-length` says, and `content-range` names the first and the
  -- last of them and the length of the whole. A HEAD is answered alike, without the bytes.
  pub serves_range :
      (asked : RequestHeaders) (h : Text) (start len : ℕ) (r : Response) (head_only : Bool)
      → IsUnconditional asked
      → header_opt asked "range" ≡ some h
      → parse_range h (length (payload (boxed http p.body))) ≡ valid start len
      → put_object http env root bucket key headers p w ≡ (done r, w')
      → (hs : HeaderMap) × (body : Text) × (get_object http env root bucket key asked head_only
            (record w' { io = [] })
          ≡ (
            done (record {
              status = 206;
              headers =
                  hs
                  ++ ((
                    codes "content-range",
                    range_text start (start + len - 1) (length (payload (boxed http p.body))),
                  )
                      ∷ []);
              body = if head_only then [] else body;
            }),
            record w' { io = [] },
          ))
        × (map_get text_eq (codes "content-length") hs ≡ some (decimal (length body)))
        × (body ≡ take len (drop start (payload (boxed http p.body))))
        × (length body ≡ len)
        × (0 < len)
        × (start + len ≤ length (payload (boxed http p.body)))
  unfolding insert_header
  serves_range asked h start len r head_only free ranged accepted ran =
      let (put, kept, ok_sums, answer) =
        put_object-accepts http env root bucket key headers p w w' r ran in
      let (pos, fits) =
        subst (IsWithin (length stored_body)) accepted
          (parse_range-IsWithin h (length stored_body)) in
      let st =
        put_object-IsStored env law root bucket key (boxed http p.body) (content_type_of headers)
          (user_metadata headers) w w' put fresh kept in
      let long = (part-length put.meta stored_body start len st.has_size fits).1 in
      (
        headers_before http put.meta len,
        take len (drop start stored_body),
        (get_object_at http env root bucket key (record w' { io = [] }) put.meta stored_body start
              len
              (get_object_range-put_object env law root bucket key (boxed http p.body)
                (content_type_of headers) (user_metadata headers) w w' put fresh kept b there start
                (some len))
              asked h head_only
              (head_object-put_object env law root bucket key (boxed http p.body)
                (content_type_of headers) (user_metadata headers) w w' put fresh kept b there)
              free ranged (ap (parse_range h) st.has_size ∙ accepted)).at
            ∙ partly-part http put.meta stored_body start len head_only (record w' { io = [] })
                st.has_size fits,
        header-inserted (codes "content-length") (decimal len) (object_headers http put.meta)
            ∙ ap (λ n. some (decimal n)) (sym long),
        refl,
        long,
        pos,
        fits,
      )
