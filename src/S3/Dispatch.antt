-- ===== src/S3/Dispatch.antt =====
-- `dispatch` of src/s3.rs, with the handler that it calls as a value.
use los_cara.Base.{
  ℕ, Bool, true, false, not, ◌&&◌, Option, none, some, List, [], ◌∷◌, ◌≡◌, refl, subst,
  if◌then◌else◌, Text, codes, join, parse_radix, u32_max, Bool-cases, Option-cases, inl, inr,
}
use mathlib.Core.Option
use los_cara.Error
use los_cara.Error.{S3Error, Result, ok, err}
use los_cara.S3.Request.{
  Method, get, head, put, post, delete, other, Query, Request, is_empty, parse_query, decode_path,
  has, get_q, bucket_from_host,
}

-- A handler with its arguments: the bucket, the key, the upload and the part.
pub data Route : Type 0 where
  list_buckets : Route
  create_bucket delete_bucket head_bucket bucket_get delete_objects : Text → Route
  copy_object put_object list_parts delete_object create_multipart : Text → Text → Route
  get_object : Text → Text → Bool → Route
  abort_multipart complete_multipart : Text → Text → Text → Route
  upload_part_copy upload_part : Text → Text → Text → ℕ → Route

-- The bucket and the key that a request names; an empty text where it names none.
unfoldable pub target : Option Text → List Text → Text × Text
target (some b) [] = (b, [])
target (some b) (s ∷ ss) = (b, join (codes "/") (s ∷ ss))
target none [] = ([], [])
target none (s ∷ ss) = (s, join (codes "/") ss)

unfoldable pub bucket_route : Method → Text → Query → Result S3Error Route
bucket_route put bucket query = ok (create_bucket bucket)
bucket_route delete bucket query = ok (delete_bucket bucket)
bucket_route head bucket query = ok (head_bucket bucket)
bucket_route get bucket query = ok (bucket_get bucket)
bucket_route post bucket query =
    if has (codes "delete") query then ok (delete_objects bucket) else err Error.method_not_allowed
bucket_route other bucket query = err Error.method_not_allowed

-- `part_number.parse::<u32>()`, and the two ways to upload a part.
unfoldable pub part_route : Bool → Text → Text → Text → Option ℕ → Result S3Error Route
part_route copy bucket key upload none = err (Error.invalid_argument (codes "Invalid partNumber"))
part_route copy bucket key upload (some part) =
    if copy
    then ok (upload_part_copy bucket key upload part)
    else ok (upload_part bucket key upload part)

unfoldable pub put_route : Bool → Text → Text → Option Text → Option Text → Result S3Error Route
unfolding part_route
put_route copy bucket key (some upload) (some part) =
    part_route copy bucket key upload (parse_radix 10 u32_max part)
put_route copy bucket key (some upload) none =
    if copy then ok (copy_object bucket key) else ok (put_object bucket key)
put_route copy bucket key none part =
    if copy then ok (copy_object bucket key) else ok (put_object bucket key)

unfoldable pub object_route : Method → Bool → Text → Text → Query → Result S3Error Route
unfolding put_route
object_route put copy bucket key query =
    put_route copy bucket key (get_q (codes "uploadId") query) (get_q (codes "partNumber") query)
object_route get copy bucket key query = elim (get_q (codes "uploadId") query) [
  | some upload ↦ ok (list_parts bucket key)
  | none ↦ ok (get_object bucket key false)
]
object_route head copy bucket key query = ok (get_object bucket key true)
object_route delete copy bucket key query = elim (get_q (codes "uploadId") query) [
  | some upload ↦ ok (abort_multipart bucket key upload)
  | none ↦ ok (delete_object bucket key)
]
object_route post copy bucket key query =
    if has (codes "uploads") query
    then ok (create_multipart bucket key)
    else elim (get_q (codes "uploadId") query) [
      | some upload ↦ ok (complete_multipart bucket key upload)
      | none ↦ err Error.method_not_allowed
    ]
object_route other copy bucket key query = err Error.method_not_allowed

unfoldable pub service_route : Method → Result S3Error Route
service_route get = ok list_buckets
service_route head = err Error.method_not_allowed
service_route put = err Error.method_not_allowed
service_route post = err Error.method_not_allowed
service_route delete = err Error.method_not_allowed
service_route other = err Error.method_not_allowed

unfoldable pub route_of : Method → Bool → Query → Text × Text → Result S3Error Route
unfolding service_route bucket_route object_route
route_of method copy query ([], key) = service_route method
route_of method copy query (b ∷ bucket, []) = bucket_route method (b ∷ bucket) query
route_of method copy query (b ∷ bucket, k ∷ key) =
    object_route method copy (b ∷ bucket) (k ∷ key) query

unfoldable pub dispatch : (Text → Option Text) → Request → Result S3Error Route
unfolding route_of target decode_path
dispatch percent_decode request = elim (decode_path percent_decode request.path) [
  | err e ↦ err e
  | ok segments ↦
      route_of request.method request.copy_source (parse_query percent_decode request.query)
        (target (Option.bind request.host bucket_from_host) segments)
]

-- The table of the API: which method reaches a handler. Each handler of a bucket has the name of
-- one, and each handler of an object that of a key too.
abbrev is_get : Method → Bool
is_get get = true
is_get m = false

abbrev is_head : Method → Bool
is_head head = true
is_head m = false

abbrev is_put : Method → Bool
is_put put = true
is_put m = false

abbrev is_post : Method → Bool
is_post post = true
is_post m = false

abbrev is_delete : Method → Bool
is_delete delete = true
is_delete m = false

abbrev named : Text → Text → Bool
named bucket key = not (is_empty bucket) && not (is_empty key)

unfoldable pub permitted : Method → Route → Bool
permitted m list_buckets = is_get m
permitted m (create_bucket b) = is_put m && not (is_empty b)
permitted m (delete_bucket b) = is_delete m && not (is_empty b)
permitted m (head_bucket b) = is_head m && not (is_empty b)
permitted m (bucket_get b) = is_get m && not (is_empty b)
permitted m (delete_objects b) = is_post m && not (is_empty b)
permitted m (copy_object b k) = is_put m && named b k
permitted m (put_object b k) = is_put m && named b k
permitted m (list_parts b k) = is_get m && named b k
permitted m (delete_object b k) = is_delete m && named b k
permitted m (create_multipart b k) = is_post m && named b k
permitted m (get_object b k true) = is_head m && named b k
permitted m (get_object b k false) = is_get m && named b k
permitted m (abort_multipart b k u) = is_delete m && named b k
permitted m (complete_multipart b k u) = is_post m && named b k
permitted m (upload_part_copy b k u n) = is_put m && named b k
permitted m (upload_part b k u n) = is_put m && named b k

-- What a result promises where it is a route.
abbrev Permits : Method → Result S3Error Route → Type 0
Permits m (ok route) = permitted m route ≡ true
Permits m (err e) = Unit

bucket_route-Permits :
    (m : Method) (c : ℕ) (b : Text) (query : Query) → Permits m (bucket_route m (c ∷ b) query)
unfolding bucket_route permitted
bucket_route-Permits get c b query = refl
bucket_route-Permits head c b query = refl
bucket_route-Permits put c b query = refl
bucket_route-Permits delete c b query = refl
bucket_route-Permits other c b query = tt
bucket_route-Permits post c b query = go (has (codes "delete") query)
  where
    go :
        (d : Bool)
        → Permits post (if d then ok (delete_objects (c ∷ b)) else err Error.method_not_allowed)
    go true = refl
    go false = tt

put_route-Permits :
    (copy : Bool) (c d : ℕ) (b k : Text) (upload part : Option Text)
    → Permits put (put_route copy (c ∷ b) (d ∷ k) upload part)
unfolding put_route part_route permitted
put_route-Permits copy c d b k (some upload) (some part) = go copy (parse_radix 10 u32_max part)
  where
    go : (copy : Bool) (n : Option ℕ) → Permits put (part_route copy (c ∷ b) (d ∷ k) upload n)
    go copy none = tt
    go true (some n) = refl
    go false (some n) = refl
put_route-Permits true c d b k (some upload) none = refl
put_route-Permits false c d b k (some upload) none = refl
put_route-Permits true c d b k none part = refl
put_route-Permits false c d b k none part = refl

object_route-Permits :
    (m : Method) (copy : Bool) (c d : ℕ) (b k : Text) (query : Query)
    → Permits m (object_route m copy (c ∷ b) (d ∷ k) query)
unfolding object_route permitted
object_route-Permits put copy c d b k query = put_route-Permits copy c d b k _ _
object_route-Permits head copy c d b k query = refl
object_route-Permits other copy c d b k query = tt
object_route-Permits get copy c d b k query = elim (Option-cases (get_q (codes "uploadId") query)) [
  | inl h ↦ rw (Permits, h) refl
  | inr (u, h) ↦ rw (Permits, h) refl
]
object_route-Permits delete copy c d b k query =
    elim (Option-cases (get_q (codes "uploadId") query)) [
      | inl h ↦ rw (Permits, h) refl
      | inr (u, h) ↦ rw (Permits, h) refl
    ]
object_route-Permits post copy c d b k query = elim (Bool-cases (has (codes "uploads") query)) [
  | inl h ↦ rw (Permits, h) refl
  | inr h ↦ elim (Option-cases (get_q (codes "uploadId") query)) [
    | inl i ↦ rw (Permits, h, i) tt
    | inr (u, i) ↦ rw (Permits, h, i) refl
  ]
]

route_of-Permits :
    (m : Method) (copy : Bool) (query : Query) (at : Text × Text)
    → Permits m (route_of m copy query at)
unfolding route_of service_route permitted
route_of-Permits get copy query ([], key) = refl
route_of-Permits head copy query ([], key) = tt
route_of-Permits put copy query ([], key) = tt
route_of-Permits post copy query ([], key) = tt
route_of-Permits delete copy query ([], key) = tt
route_of-Permits other copy query ([], key) = tt
route_of-Permits m copy query (c ∷ b, []) = bucket_route-Permits m c b query
route_of-Permits m copy query (c ∷ b, d ∷ k) = object_route-Permits m copy c d b k query

-- A request reaches a handler only with the method that the table gives it, and only where it names
-- what the handler works on: a bucket for a handler of buckets, a key too for one of objects.
pub dispatch-permitted :
    (percent_decode : Text → Option Text) (request : Request) (route : Route)
    → dispatch percent_decode request ≡ ok route
    → permitted request.method route ≡ true
unfolding dispatch
dispatch-permitted percent_decode request route h =
    subst (Permits request.method) h (all_of (decode_path percent_decode request.path))
  where
    all_of :
        (r : Result S3Error (List Text))
        → Permits request.method (elim r [
          | err e ↦ err e
          | ok segments ↦
              route_of request.method request.copy_source
                (parse_query percent_decode request.query)
                (target (Option.bind request.host bucket_from_host) segments)
        ])
    all_of (err e) = tt
    all_of (ok segments) = route_of-Permits request.method request.copy_source _ _
