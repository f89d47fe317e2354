-- ===== src/Storage/Listing/Flat.antt =====
-- Listing without a delimiter, in src/storage.rs: what a page holds, and that pages join up.
use los_cara.Base.{
  subst, ℕ, zero, suc, ◌+◌, ◌<◌, Bool, true, false, ◌&&◌, ltb, leb, ◌≡◌, refl, ◌∙◌, sym, Option,
  some, none, List, [], ◌∷◌, ◌++◌, append-nil, append_assoc, arith, Text, text_leb, text_eq_iff,
  starts_with, filter, take, drop, length, take-append-drop, rest-drop, take-add, if◌then◌else◌,
  inl, inr, Bool-cases,
}
use mathlib.Core.Option.{some-injective}
use los_cara.Storage.Types.{ObjectMeta}
use los_cara.Storage.Listing.{Scan, skipped, plain, item_of, scan, page, nothing_scanned}
use los_cara.Storage.Listing.Order.{
  above, above_nil, text_leb_refl, text_leb_trans, text_leb_total, IsRising, filter-above,
  filter-above-IsRising, filter-above-filter,
}

-- The last key of a list, or `d`.
abbrev pub last_key : Option Text → List ObjectMeta → Option Text
last_key d [] = d
last_key d (x ∷ xs) = last_key (some x.key) xs

nil_taken : (room : ℕ) (xs : List ObjectMeta) → xs ++ take room [] ≡ xs
nil_taken zero xs = append-nil xs
nil_taken (suc room) xs = append-nil xs

ltb_zero : (room : ℕ) → false ≡ ltb room 0
ltb_zero room = ground arith

last_nil : (room : ℕ) (d : Option Text) → d ≡ last_key d (take room [])
last_nil zero d = refl
last_nil (suc room) d = refl

none_either : (b : Bool) (o : Option Text) → o ≡ none → (if b then o else none) ≡ none
none_either true o e = e
none_either false o e = refl

module _ (prefix start : Text) where
  -- The objects that a listing from `start` is about.
  abbrev pub listed : ObjectMeta → Bool
  listed obj = starts_with prefix obj.key && above start obj

  item_flat :
      (ps : List Text) (obj : ObjectMeta)
      → above [] obj ≡ true
      → item_of prefix [] start ps obj.key ≡ (if listed obj then plain else skipped)
  unfolding item_of
  item_flat ps obj h = ground (arith, text_eq_iff start [])

  -- What the loop returns, from any point of it.
  abbrev IsScanned : ℕ → List ObjectMeta → Scan → Scan → Type 0
  IsScanned room left s r =
      (r.contents ≡ s.contents ++ take room left)
      × (r.truncated ≡ ltb room (length left))
      × (r.next_token ≡ last_key s.next_token (take room left))
      × (r.prefixes ≡ s.prefixes)
      × (r.next_prefix_token ≡ none)

  abbrev took : ObjectMeta → Scan → Scan
  took obj s = record s {
    contents = s.contents ++ obj ∷ [];
    count = s.count + 1;
    next_token = some obj.key;
    next_prefix_token = none;
  }

  full : (a b : ℕ) → a + 0 ≡ b → leb b a ≡ true
  full a b e = ground arith

  roomy : (a b c : ℕ) → a + suc c ≡ b → leb b a ≡ false
  roomy a b c e = ground arith

  ltb-suc : (a b : ℕ) → ltb a b ≡ ltb (suc a) (suc b)
  ltb-suc a b = ground arith

  -- The round for an object that is listed.
  take_in :
      (max : ℕ) (obj : ObjectMeta) (objs : List ObjectMeta) (s : Scan) (room : ℕ)
      → ((room' : ℕ)
          → (took obj s).count + room' ≡ max
          → IsScanned room'
              (filter listed objs)
              (took obj s)
              (scan prefix [] start max objs (took obj s)))
      → s.count + room ≡ max
      → s.next_prefix_token ≡ none
      → item_of prefix [] start s.prefixes obj.key ≡ plain
      → IsScanned room (obj ∷ filter listed objs) s (scan prefix [] start max (obj ∷ objs) s)
  unfolding scan
  take_in max obj objs s zero ih e v i =
      rw (i, scan, full s.count max e) (sym (append-nil s.contents), ground arith, refl, refl, v)
  take_in max obj objs s (suc room) ih e v i =
      let (c, tr, nt, ps, np) = ih room (omega arith) in
      rw (i, scan, roomy s.count max room e)
        (c ∙ append_assoc s.contents (obj ∷ []) _, tr ∙ ltb-suc room _, nt, ps, np)

  scan_flat :
      (max : ℕ) (objs : List ObjectMeta) (s : Scan) (room : ℕ) (t : Text)
      → IsRising t objs
      → s.count + room ≡ max
      → s.truncated ≡ false
      → s.next_prefix_token ≡ none
      → IsScanned room (filter listed objs) s (scan prefix [] start max objs s)
  unfolding scan
  scan_flat max [] s room t r e u v =
      (sym (nil_taken room s.contents), u ∙ ltb_zero room, last_nil room s.next_token, refl, v)
  scan_flat max (obj ∷ objs) s room t r e u v = elim (Bool-cases (listed obj)) [
    | inl h ↦ rw h (
        take_in max obj objs s room
          (λ room' e'. scan_flat max objs (took obj s) room' obj.key r.1 e' u refl) e v
          (rw h at (item_flat s.prefixes obj (above_nil t obj r.0))))
    | inr h ↦
        rw (h, scan, rw h at (item_flat s.prefixes obj (above_nil t obj r.0)))
          (scan_flat max objs s room obj.key r.1 e u v)
  ]

  module _ (max : ℕ) (all : List ObjectMeta) (t : Text) (rising : IsRising t all) where
    -- Over keys that rise strictly and are not empty, without a delimiter: a page holds the first
    -- `max` listed objects and no common prefix, says whether there are more, and has the last key it
    -- holds as its token exactly if there are.
    pub page_flat :
        ((page prefix [] start max all).contents ≡ take max (filter listed all))
        × ((page prefix [] start max all).truncated ≡ ltb max (length (filter listed all)))
        × ((page prefix [] start max all).common_prefixes ≡ [])
        × ((page prefix [] start max all).next_prefix_token ≡ none)
        × ((page prefix [] start max all).next_token ≡ (
            if ltb max (length (filter listed all))
            then last_key none (take max (filter listed all))
            else none))
    unfolding page
    page_flat =
        let (c, tr, nt, ps, np) =
          scan_flat max all nothing_scanned max t rising (omega arith) refl refl in
        (c, tr, ps, none_either _ _ np, rw (tr, nt))

-- The rest of a rising list is what lies above the last key taken.
above-last_key :
    (n : ℕ) (xs : List ObjectMeta) (t k : Text)
    → IsRising t xs
    → last_key (some t) (take n xs) ≡ some k
    → (filter (above k) xs ≡ drop n xs) × (text_leb t k ≡ true)
above-last_key zero xs t k r e =
    subst (λ j. (filter (above j) xs ≡ xs) × (text_leb t j ≡ true)) (some-injective t k e)
      (filter-above t xs r, text_leb_refl t)
above-last_key (suc n) [] t k r e =
    subst (λ j. (filter (above j) [] ≡ []) × (text_leb t j ≡ true)) (some-injective t k e)
      (refl, text_leb_refl t)
above-last_key (suc n) (x ∷ xs) t k r e =
    let (rest, le) = above-last_key n xs x.key k r.1 e in
    (rw le rest, text_leb_trans t x.key k (text_leb_total x.key t (ground (arith, r.0))) le)

split_at_token :
    (max : ℕ) (xs : List ObjectMeta) (t k : Text)
    → IsRising t xs
    → (if ltb (suc max) (length xs) then last_key none (take (suc max) xs) else none) ≡ some k
    → (take (suc max) xs ++ filter (above k) xs ≡ xs) × (text_leb t k ≡ true)
split_at_token max [] t k r e = ground arith
split_at_token max (x ∷ xs) t k r e =
    let (rest, le) = above-last_key (suc max) (x ∷ xs) t k r (ground arith) in
    (rw rest (take-append-drop (suc max) (x ∷ xs)), le)

-- Continuing from the token of a page without a delimiter: the page and the objects that a listing
-- from its token is about are together those that the listing is about, with nothing lost and nothing
-- twice; and a page of any length from the token goes on exactly where the page ends. The keys rise
-- strictly, as `all_objects` sorts them, and a page has room for at least one key.
pub pages_join :
    (prefix start k : Text) (max : ℕ) (all : List ObjectMeta)
    → IsRising [] all
    → 0 < max
    → (page prefix [] start max all).next_token ≡ some k
    → ((page prefix [] start max all).contents ++ filter (listed prefix k) all
        ≡ filter (listed prefix start) all)
      × ((n : ℕ)
          → (page prefix [] start max all).contents ++ (page prefix [] k n all).contents
            ≡ take (max + n) (filter (listed prefix start) all))
pages_join prefix start k zero all r pos e = absurd (omega arith)
pages_join prefix start k (suc max) all r pos e =
    let (c, tr, ps, np, nt) = page_flat prefix start (suc max) all [] r in
    let rising = filter-above-IsRising (λ x. starts_with prefix x.key) [] start all r in
    let (whole, le) =
      split_at_token max (filter (listed prefix start) all) start k rising (sym nt ∙ e) in
    let later = filter-above-filter (λ x. starts_with prefix x.key) start k all le in
    let joined : take (suc max) (filter (listed prefix start) all) ++ filter (listed prefix k) all
        ≡ filter (listed prefix start) all =
      rw (← later) whole in
    (
      rw c joined,
      λ n.
          rw
            (
              c,
              (page_flat prefix k n all [] r).0,
              rest-drop (suc max) (filter (listed prefix start) all) (filter (listed prefix k) all)
                  joined,
            )
            (take-add (suc max) n (filter (listed prefix start) all)),
    )
