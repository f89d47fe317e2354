-- ===== src/Tests/Formats.antt =====
-- Runs of src/xml.rs and src/s3.rs.
use los_cara.Base.{
  join, split_once, split, false, ◌≡◌, refl, some, none, List, [], ◌∷◌, ◌++◌, true, Text, codes, ℕ,
  arith, Option, text_eq,
}
use los_cara.Error
use los_cara.Error.{err, ok}
use los_cara.Storage.Types.{ObjectMeta}
use los_cara.Xml.Tree.{XmlNode, node, nil, cons}
use los_cara.Xml.Parse.{
  Event, start, text, end, eof, other, parse, Spells, element, Fills, nothing, text_first,
  child_first, IsDocument, root, declared, parse-IsDocument,
}
use los_cara.S3.Conditions.{
  Conditional, evaluate_conditions, go_on, etag_precedence, echoed_date_is_stale,
}
use mathlib.Core.Option
use los_cara.S3.Request.{bucket_from_host, parse_query, Request, get}
use los_cara.S3.Dispatch.{get_object, permitted, dispatch, dispatch-permitted}

-- `<Delete><Object><Key>a</Key></Object></Delete>`
abbrev delete_request : XmlNode
delete_request =
    node (codes "Delete") []
      (cons (node (codes "Object") [] (cons (node (codes "Key") (codes "a") nil) nil)) nil)

-- What the reader yields for it, after a declaration.
abbrev delete_events : List Event
delete_events =
    other
    ∷ start (codes "Delete")
    ∷ start (codes "Object")
    ∷ start (codes "Key")
    ∷ text (some (codes "a"))
    ∷ end
    ∷ end
    ∷ end
    ∷ []

key_text : Fills (codes "a") nil (text (some (codes "a")) ∷ [])
unfolding codes
key_text = text_first b'a' [] [] nil [] nothing

key_Spells :
    Spells
      (node (codes "Key") (codes "a") nil)
      (start (codes "Key") ∷ text (some (codes "a")) ∷ end ∷ [])
key_Spells = element (codes "Key") (codes "a") nil (text (some (codes "a")) ∷ []) key_text

delete_request-IsDocument : IsDocument delete_request delete_events
delete_request-IsDocument = declared _ (
    root _ (
      element (codes "Delete") [] _ _ (
        child_first _ [] nil _ []
          (element (codes "Object") [] _ _ (child_first _ [] nil _ [] key_Spells nothing))
          nothing)))

parse-IsDocument_example : parse (delete_events ++ (eof ∷ [])) ≡ some delete_request
parse-IsDocument_example =
    parse-IsDocument delete_request delete_events (eof ∷ []) delete_request-IsDocument

abbrev stored_meta : ObjectMeta
stored_meta = record {
  key = codes "k";
  size = 4;
  etag = codes "e";
  content_type = codes "text/plain";
  last_modified = 1234567;
  metadata = [];
  data_file = none;
}

abbrev date : Text
date = codes "Thu, 1 Jan 1970 00:20:34 GMT"

-- The dates of the tests all name the same second.
abbrev parse_date : Text → Option ℕ
parse_date s = some 1234000

abbrev with_tags : Conditional
with_tags = record {
  if_match = some (codes "e");
  if_none_match = some (codes "f");
  if_modified_since = none;
  if_unmodified_since = none;
}

etag_precedence_example :
    evaluate_conditions parse_date with_tags stored_meta
    ≡ evaluate_conditions parse_date
        (record with_tags { if_modified_since = some date; if_unmodified_since = some date })
        stored_meta
etag_precedence_example =
    etag_precedence parse_date with_tags stored_meta (codes "e") (codes "f") (some date) (some date)
      refl refl

echoed_date_is_stale_example :
    (evaluate_conditions parse_date
        (record {
          if_match = none;
          if_none_match = none;
          if_modified_since = some date;
          if_unmodified_since = none;
        })
        stored_meta
      ≡ ok go_on)
    × (evaluate_conditions parse_date
          (record {
            if_match = none;
            if_none_match = none;
            if_modified_since = none;
            if_unmodified_since = some date;
          })
          stored_meta
        ≡ err Error.precondition_failed)
echoed_date_is_stale_example = echoed_date_is_stale parse_date stored_meta date refl (omega arith)

abbrev get_request : Request
get_request = record {
  method = get;
  path = codes "/bucket/a/b";
  query = codes "partNumber=1";
  host = some (codes "localhost:9000");
  copy_source = true;
}

routed : dispatch (λ s. some s) get_request ≡ ok (get_object (codes "bucket") (codes "a/b") false)
unfolding dispatch codes split split_once Option.bind bucket_from_host join parse_query text_eq
routed = refl

dispatch-permitted_example : permitted get (get_object (codes "bucket") (codes "a/b") false) ≡ true
dispatch-permitted_example =
    dispatch-permitted (λ s. some s) get_request (get_object (codes "bucket") (codes "a/b") false)
      routed
