-- ===== src/Storage/Multipart/Check.antt =====
-- What the checks of `complete_multipart` in src/storage.rs accept.
use los_cara.Base.{
  ℕ, ◌≤◌, ◌<◌, true, false, ◌≡◌, ◌↔◌, refl, sym, ◌∙◌, ap, subst, some, none, Option, List, [], ◌∷◌,
  arith, Text, text_eq_iff, list_eq, list_eq_iff, ◌==◌, ==_iff, All, sort, insert_sorted,
}
use los_cara.Error.{ok}
use los_cara.Storage.Types.{min_part_size}
use los_cara.Storage.Multipart.{
  Listed, Part, get_part, numbers, number_leb, has_repeat, all_known, all_large, size_of,
  check_parts, etag_matches,
}

abbrev pub IsSorted : List ℕ → Type 0
IsSorted [] = Unit
IsSorted (n ∷ []) = Unit
IsSorted (n ∷ m ∷ l) = (n ≤ m) × IsSorted (m ∷ l)

-- The part numbers rise strictly.
abbrev pub IsAscending : List ℕ → Type 0
IsAscending [] = Unit
IsAscending (n ∷ []) = Unit
IsAscending (n ∷ m ∷ l) = (n < m) × IsAscending (m ∷ l)

-- Every listed part was uploaded, with the etag that the list gives.
abbrev pub IsKnown : List (ℕ × Part) → ℕ × Text → Type 0
IsKnown parts p = (size : ℕ) × (get_part parts p.0 ≡ some (p.1, size))

-- Every listed part but the last has at least 5 MiB.
abbrev pub AllLarge : List (ℕ × Part) → Listed → Type 0
AllLarge parts [] = Unit
AllLarge parts (p ∷ []) = Unit
AllLarge parts (p ∷ q ∷ l) = (min_part_size ≤ size_of (get_part parts p.0)) × AllLarge parts (q ∷ l)

insert-IsSorted :
    (n : ℕ) (s : Text) (l : Listed)
    → IsSorted (numbers l)
    → IsSorted (numbers (insert_sorted number_leb (n, s) l))
unfolding insert_sorted
insert-IsSorted n s [] h = tt
insert-IsSorted n s ((m, t) ∷ []) h = ground arith
insert-IsSorted n s ((m, t) ∷ (k, u) ∷ l) h = ground (arith, insert-IsSorted n s ((k, u) ∷ l))

sort-IsSorted : (l : Listed) → IsSorted (numbers (sort number_leb l))
unfolding sort
sort-IsSorted [] = tt
sort-IsSorted ((n, s) ∷ l) = insert-IsSorted n s (sort number_leb l) (sort-IsSorted l)

IsAscending-of_sorted :
    (l : Listed) → IsSorted (numbers l) → has_repeat l ≡ false → IsAscending (numbers l)
unfolding has_repeat
IsAscending-of_sorted [] h r = tt
IsAscending-of_sorted ((n, s) ∷ []) h r = tt
IsAscending-of_sorted ((n, s) ∷ (m, t) ∷ l) h r = ground (arith, IsAscending-of_sorted ((m, t) ∷ l))

has_repeat-of_ascending : (l : Listed) → IsAscending (numbers l) → has_repeat l ≡ false
unfolding has_repeat
has_repeat-of_ascending [] h = refl
has_repeat-of_ascending ((n, s) ∷ []) h = refl
has_repeat-of_ascending ((n, s) ∷ (m, t) ∷ l) h =
    ground (arith, has_repeat-of_ascending ((m, t) ∷ l) h.1)

tail-IsAscending : (n : ℕ) (l : List ℕ) → IsAscending (n ∷ l) → IsAscending l
tail-IsAscending n [] h = tt
tail-IsAscending n (m ∷ l) h = h.1

insert_first :
    (n : ℕ) (s : Text) (l : Listed)
    → IsAscending (n ∷ numbers l)
    → insert_sorted number_leb (n, s) l ≡ (n, s) ∷ l
unfolding insert_sorted
insert_first n s [] h = refl
insert_first n s ((m, t) ∷ l) h = ground arith

sort-of_ascending : (l : Listed) → IsAscending (numbers l) → sort number_leb l ≡ l
unfolding sort
sort-of_ascending [] h = refl
sort-of_ascending ((n, s) ∷ l) h =
    rw (sort-of_ascending l (tail-IsAscending n (numbers l) h)) (insert_first n s l h)

known_iff :
    (o : Option Part) (e : Text) → (etag_matches o e ≡ true) ↔ ((size : ℕ) × (o ≡ some (e, size)))
known_iff none e = (λ h. cc, λ h. cc (h.1))
known_iff (some (stored, size)) e = (
  λ h. (size, rw ((text_eq_iff stored e).0 h)),
  λ h. (text_eq_iff stored e).1 (ground (arith, h.1)),
)

module _ (parts : List (ℕ × Part)) where
  all_known_iff : (l : Listed) → (all_known parts l ≡ true) ↔ All (IsKnown parts) l
  unfolding all_known
  all_known_iff [] = (λ _. tt, λ _. refl)
  all_known_iff ((n, e) ∷ l) = ground (arith, known_iff (get_part parts n) e, all_known_iff l)

  all_large_iff : (l : Listed) → (all_large parts l ≡ true) ↔ AllLarge parts l
  unfolding all_large
  all_large_iff [] = (λ _. tt, λ _. refl)
  all_large_iff (p ∷ []) = (λ _. tt, λ _. refl)
  all_large_iff ((n, e) ∷ q ∷ l) = ground (arith, all_large_iff (q ∷ l))

  -- The tests that a successful check has passed.
  passed :
      (listed ordered : Listed)
      → check_parts parts listed ≡ ok ordered
      → (ordered ≡ sort number_leb listed)
        × (has_repeat ordered ≡ false)
        × (list_eq ◌==◌ (numbers ordered) (numbers listed) ≡ true)
        × (all_known parts ordered ≡ true)
        × (all_large parts ordered ≡ true)
  unfolding check_parts
  passed listed ordered h = ground arith

  check_parts_sound :
      (listed ordered : Listed)
      → check_parts parts listed ≡ ok ordered
      → (ordered ≡ listed)
        × IsAscending (numbers listed)
        × All (IsKnown parts) listed
        × AllLarge parts listed
  check_parts_sound listed ordered h =
      let (is_sort, distinct, same, known, large) = passed listed ordered h in
      let sorted : IsSorted (numbers ordered) = rw is_sort (sort-IsSorted listed) in
      let asc : IsAscending (numbers listed) =
        subst IsAscending ((list_eq_iff ◌==◌ ==_iff (numbers ordered) (numbers listed)).0 same)
          (IsAscending-of_sorted ordered sorted distinct) in
      let e : ordered ≡ listed = is_sort ∙ sort-of_ascending listed asc in
      (
        e,
        asc,
        subst (All (IsKnown parts)) e ((all_known_iff ordered).0 known),
        subst (AllLarge parts) e ((all_large_iff ordered).0 large),
      )

  check_parts_complete :
      (listed : Listed)
      → IsAscending (numbers listed)
      → All (IsKnown parts) listed
      → AllLarge parts listed
      → check_parts parts listed ≡ ok listed
  unfolding check_parts
  check_parts_complete listed asc known large = rw (
    sort-of_ascending listed asc,
    has_repeat-of_ascending listed asc,
    (list_eq_iff ◌==◌ ==_iff (numbers listed) (numbers listed)).1 refl,
    (all_known_iff listed).1 known,
    (all_large_iff listed).1 large,
  )

  -- The checks of `complete_multipart` succeed exactly if the listed numbers rise strictly, every
  -- listed part is stored with the listed etag, and all of them but the last have at least 5 MiB;
  -- the list of parts to assemble is then the one that was given.
  pub check_parts_iff :
      (listed ordered : Listed)
      → (check_parts parts listed ≡ ok ordered) ↔ (
          (ordered ≡ listed)
          × IsAscending (numbers listed)
          × All (IsKnown parts) listed
          × AllLarge parts listed)
  check_parts_iff listed ordered = (
    check_parts_sound listed ordered,
    λ h. check_parts_complete listed h.1 h.2 h.3 ∙ ap ok (sym h.0),
  )
