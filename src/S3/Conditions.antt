-- ===== src/S3/Conditions.antt =====
-- `evaluate_conditions` of src/s3.rs. chrono's parser of dates is a parameter, which yields a time
-- in milliseconds since the epoch; a header that is no text is as good as none.
use los_cara.Base.{
  ℕ, ◌*◌, ◌/◌, ◌%◌, ◌<◌, Bool, true, false, not, ◌||◌, ◌&&◌, ltb, leb, ◌==◌, ◌≡◌, refl, Option,
  none, some, arith, if◌then◌else◌, Text, codes, text_eq, split, any, trim_matches,
}
use los_cara.Error
use los_cara.Error.{S3Error, Result, ok, err}
use los_cara.Storage.Types.{ObjectMeta}

-- The four headers, as `header_opt` finds them.
pub record Conditional : Type 0 where
  pub if_match : Option Text
  pub if_none_match : Option Text
  pub if_modified_since : Option Text
  pub if_unmodified_since : Option Text

-- What the handler does next.
pub data Verdict : Type 0 where
  go_on not_modified : Verdict

abbrev pub is_space : ℕ → Bool
is_space c = (c == 32) || leb 9 c && leb c 13

-- `s.trim().trim_matches('"')`, on ASCII white space.
abbrev pub clean_tag : Text → Text
clean_tag s = trim_matches (λ c. c == b'"') (trim_matches is_space s)

-- The closure `match_list`.
unfoldable pub match_list : Text → Text → Bool
match_list etag v =
    any (λ s. text_eq (clean_tag s) (codes "*") || text_eq (clean_tag s) etag) (split b',' v)

module _ (parse_date : Text → Option ℕ) where
  -- `headers.…and_then(|s| parse_from_rfc2822(&s).ok())`.
  abbrev pub date_of : Option Text → Option ℕ
  date_of none = none
  date_of (some s) = parse_date s

  unfoldable pub precondition : Conditional → ObjectMeta → Bool
  unfolding match_list
  precondition c meta = elim c.if_match [
    | some im ↦ match_list meta.etag im
    | none ↦ elim (date_of c.if_unmodified_since) [
      | none ↦ true
      | some ius ↦ not (ltb ius meta.last_modified)
    ]
  ]

  unfoldable pub is_unmodified : Conditional → ObjectMeta → Bool
  unfolding match_list
  is_unmodified c meta = elim c.if_none_match [
    | some inm ↦ match_list meta.etag inm
    | none ↦ elim (date_of c.if_modified_since) [
      | none ↦ false
      | some ims ↦ leb meta.last_modified ims
    ]
  ]

  unfoldable pub evaluate_conditions : Conditional → ObjectMeta → Result S3Error Verdict
  unfolding precondition is_unmodified
  evaluate_conditions c meta =
      if not (precondition c meta)
      then err Error.precondition_failed
      else if is_unmodified c meta
      then ok not_modified
      else ok go_on

  -- Where a request has both etag headers, no date header changes the outcome.
  pub etag_precedence :
      (c : Conditional) (meta : ObjectMeta) (im inm : Text) (ius ims : Option Text)
      → c.if_match ≡ some im
      → c.if_none_match ≡ some inm
      → evaluate_conditions c meta
        ≡ evaluate_conditions (record c { if_modified_since = ims; if_unmodified_since = ius }) meta
  unfolding evaluate_conditions
  etag_precedence c meta im inm ius ims h k = rw (h, k) refl

  -- Where an object was not stored on a whole second: the second of its `last-modified`, sent back in
  -- `if-modified-since`, gets the object again, and in `if-unmodified-since` it gets an error, though
  -- the object did not change.
  pub echoed_date_is_stale :
      (meta : ObjectMeta) (date : Text)
      → parse_date date ≡ some (meta.last_modified / 1000 * 1000)
      → 0 < meta.last_modified % 1000
      → (evaluate_conditions
            (record {
              if_match = none;
              if_none_match = none;
              if_modified_since = some date;
              if_unmodified_since = none;
            })
            meta
          ≡ ok go_on)
        × (evaluate_conditions
              (record {
                if_match = none;
                if_none_match = none;
                if_modified_since = none;
                if_unmodified_since = some date;
              })
              meta
            ≡ err Error.precondition_failed)
  unfolding evaluate_conditions precondition is_unmodified
  echoed_date_is_stale meta date h k =
      (rw (is_unmodified, h, late) refl, rw (precondition, h, early) refl)
    where
      late : leb meta.last_modified (meta.last_modified / 1000 * 1000) ≡ false
      late = ground arith

      early : ltb (meta.last_modified / 1000 * 1000) meta.last_modified ≡ true
      early = ground arith
