-- ===== src/S3/Handlers/Deletes.antt =====
-- What the deletion of many objects in src/s3.rs answers.
use los_cara.Base.{
  ◌*◌, ◌≤◌, ◌≡◌, ◌≢◌, ◌⊎◌, inl, inr, refl, subst, le_of_ltb, Bool, true, false, Option, none, some,
  List, [], ◌∷◌, length, ltb, Text, codes, text_eq, if◌then◌else◌,
}
use los_cara.Error
use los_cara.Error.{S3Error, Result, ok, err}
use los_cara.Xml.{Xml}
use los_cara.Xml.Tree.{XmlNode, tag, find_all, text_of}
use los_cara.Xml.Parse.{parse}
use los_cara.Storage.Fs.{FilePath}
use los_cara.Storage.Io.{M, World, Outcome, done, failed, killed, ◌>>=◌, pure, raise}
use los_cara.Storage.Types.{Env}
use los_cara.Storage.Json.{lift}
use los_cara.Storage.Atomic.Hoare.{Hoare, Post, bind_rule, catch_rule, pure_rule}
use los_cara.S3.Http.{Http}
use los_cara.S3.Payload.{Payload}
use los_cara.S3.Payload.Seen.{guard-ok}
use los_cara.S3.Handlers.Objects.{
  keys_of, limited, delete_list, whole_body, delete_one, delete_each, delete_asked, asked_for,
  delete_objects,
}

-- Nothing is said of the worlds, and an error does not come up.
abbrev Answers : {E A : Type 0} → M E A → Type 0
Answers m = Hoare (λ w. Unit {0}) m (λ a w. Unit {0}) (λ w. ⊥) (λ w. Unit {0})

abbrev Any : {E A : Type 0} → M E A → Type 0
Any m = Hoare (λ w. Unit {0}) m (λ a w. Unit {0}) (λ w. Unit {0}) (λ w. Unit {0})

Any-rule : {E A : Type 0} (m : M E A) → Any m
Any-rule {E = E} {A = A} m = record { at = λ w h. go (m w) }
  where
    go : (r : Outcome E A × World) → Post (λ a w. Unit {0}) (λ w. Unit {0}) (λ w. Unit {0}) r
    go (done a, w) = tt
    go (failed e, w) = tt
    go (killed, w) = tt

Answers-failed : {E A : Type 0} (m : M E A) → Answers m → (w : World) (e : E) → (m w).0 ≢ failed e
Answers-failed {E = E} {A = A} m h w e = go (m w) (h.at w tt)
  where
    go :
        (r : Outcome E A × World)
        → Post (λ a w. Unit {0}) (λ w. ⊥) (λ w. Unit {0}) r
        → r.0 ≢ failed e
    go (done a, w) h k = cc
    go (failed x, w) h k = h
    go (killed, w) h k = cc

limited-bounded :
    (keys : List Text) (quiet : Bool) (asked : List Text × Bool)
    → limited keys quiet ≡ ok asked
    → length asked.0 ≤ 1000
unfolding limited
limited-bounded keys quiet asked = go (ltb 1000 (length keys)) refl
  where
    go :
        (b : Bool)
        → ltb 1000 (length keys) ≡ b
        → (if b
            then err (Error.invalid_argument (codes "Delete list must not exceed 1000 keys"))
            else ok (keys, quiet))
          ≡ ok asked
        → length asked.0 ≤ 1000
    go true k h = cc
    go false k h =
        let same : keys ≡ asked.0 = cc in
        subst (λ l. length l ≤ 1000) same (le_of_ltb 1000 (length keys) k)

delete_list-bounded :
    (root : Option XmlNode) (asked : List Text × Bool)
    → delete_list root ≡ ok asked
    → length asked.0 ≤ 1000
unfolding delete_list
delete_list-bounded none asked h = cc
delete_list-bounded (some root) asked h =
    let (is, rest) =
      guard-ok (text_eq (tag root) (codes "Delete")) Error.malformed_xml
        (limited (keys_of (find_all root (codes "Object"))) (elim (text_of root (codes "Quiet")) [
          | none ↦ false
          | some q ↦ text_eq q (codes "true")
        ]))
        asked h in
    limited-bounded (keys_of (find_all root (codes "Object"))) _ asked rest

module _ (http : Http) (env : Env) (root : FilePath) (bucket : Text) where
  delete_each-Answers :
      (quiet : Bool) (keys : List Text) (doc : Xml)
      → Answers (delete_each http env root bucket quiet keys doc)
  unfolding delete_each delete_one
  delete_each-Answers quiet [] doc = pure_rule doc
  delete_each-Answers quiet (key ∷ keys) doc =
      bind_rule (catch_rule (Any-rule _) (λ e. pure_rule _))
        λ doc'. delete_each-Answers quiet keys doc'

  delete_asked-Answers :
      (asked : List Text × Bool) → Answers (delete_asked http env root bucket asked)
  unfolding delete_asked
  delete_asked-Answers asked =
      bind_rule (delete_each-Answers asked.1 asked.0 _) (λ doc. pure_rule _)

  asked_for-bounded :
      (payload : Payload) (asked : List Text × Bool)
      → asked_for http env root payload ≡ ok asked
      → length asked.0 ≤ 1000
  unfolding asked_for
  asked_for-bounded payload asked = go (whole_body http (4 * 1024 * 1024) payload.body)
    where
      go :
          (r : Result S3Error Text)
          → elim r [ err e ↦ err e | ok body ↦ delete_list (parse (http.read_events body)) ]
            ≡ ok asked
          → length asked.0 ≤ 1000
      go (err e) h = cc
      go (ok body) h = delete_list-bounded _ asked h

  -- A request for the deletion of many objects is refused, and changes nothing, or it lists at most
  -- 1000 keys, and then it has a response, whichever of the deletions fail, unless the process is
  -- killed.
  pub delete_objects-answers :
      (payload : Payload) (w : World)
      → ((e : S3Error) × (delete_objects http env root bucket payload w ≡ (failed e, w)))
        ⊎ ((asked : List Text × Bool) × (asked_for http env root payload ≡ ok asked)
            × (length asked.0 ≤ 1000)
            × ((e : S3Error) → (delete_objects http env root bucket payload w).0 ≢ failed e))
  unfolding delete_objects lift raise pure ◌>>=◌
  delete_objects-answers payload w = go (asked_for http env root payload) refl
    where
      go :
          (r : Result S3Error (List Text × Bool))
          → asked_for http env root payload ≡ r
          → ((e : S3Error) × ((lift r >>= delete_asked http env root bucket) w ≡ (failed e, w)))
            ⊎ ((asked : List Text × Bool) × (r ≡ ok asked)
                × (length asked.0 ≤ 1000)
                × ((e : S3Error) → ((lift r >>= delete_asked http env root bucket) w).0 ≢ failed e))
      go (err e) h = inl (e, refl)
      go (ok asked) h = inr (
        asked,
        refl,
        asked_for-bounded payload asked h,
        Answers-failed _ (delete_asked-Answers asked) w,
      )
