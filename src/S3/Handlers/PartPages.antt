-- ===== src/S3/Handlers/PartPages.antt =====
-- How the pages of `list_parts` of src/s3.rs fit together.
use los_cara.Base.{
  ℕ, zero, suc, ◌≤◌, ◌<◌, ◌≡◌, ◌⊎◌, lt_of_ltb, le_of_ltb, refl, sym, ◌∙◌, ap, true, false, some,
  List, [], ◌∷◌, ◌++◌, arith, length, take, filter, ltb, Bool-cases, inl, inr, length-take,
}
use los_cara.Storage.Multipart.{Part}
use los_cara.S3.Handlers.Uploads.{last_number, part_page}

abbrev pub Parts : Type 0
Parts = List (ℕ × Part)

abbrev pub AllAbove : ℕ → Parts → Type 0
AllAbove n [] = Unit
AllAbove n (p ∷ l) = (n < p.0) × AllAbove n l

-- The numbers rise strictly, as in any map.
abbrev pub IsRising : Parts → Type 0
IsRising [] = Unit
IsRising (p ∷ l) = AllAbove p.0 l × IsRising l

-- The parts after a number.
abbrev pub after : ℕ → Parts → Parts
after n l = filter (λ p. ltb n p.0) l

after-all : (n : ℕ) (l : Parts) → AllAbove n l → after n l ≡ l
after-all n [] h = refl
after-all n (p ∷ l) h = ground (arith, after-all n l h.1)

after-after : (m n : ℕ) (l : Parts) → m ≤ n → after n (after m l) ≡ after n l
after-after m n [] h = refl
after-after m n (p ∷ l) h = ground (arith, after-after m n l h)

AllAbove-after : (k m : ℕ) (l : Parts) → AllAbove k l → AllAbove k (after m l)
AllAbove-after k m [] h = tt
AllAbove-after k m (p ∷ l) h = ground (arith, AllAbove-after k m l h.1)

after-AllAbove : (m : ℕ) (l : Parts) → AllAbove m (after m l)
after-AllAbove m [] = tt
after-AllAbove m (p ∷ l) = ground (arith, after-AllAbove m l)

IsRising-after : (m : ℕ) (l : Parts) → IsRising l → IsRising (after m l)
IsRising-after m [] h = tt
IsRising-after m (p ∷ l) h = ground (arith, IsRising-after m l h.1, AllAbove-after p.0 m l h.0)

after-head : (n : ℕ) (p : ℕ × Part) (l : Parts) → p.0 ≤ n → after n (p ∷ l) ≡ after n l
after-head n p l h = ground arith

take_whole : (k : ℕ) (l : Parts) → length l ≤ k → take k l ≡ l
take_whole zero [] h = refl
take_whole zero (p ∷ l) h = absurd (omega arith)
take_whole (suc k) [] h = refl
take_whole (suc k) (p ∷ l) h = ap (λ r. p ∷ r) (take_whole k l (omega arith))

-- The number of the last of the first parts, from which the others go on.
resume :
    (k : ℕ) (p : ℕ × Part) (l : Parts)
    → IsRising (p ∷ l)
    → (n : ℕ) × (last_number (take (suc k) (p ∷ l)) ≡ some n)
      × (take (suc k) (p ∷ l) ++ after n (p ∷ l) ≡ p ∷ l)
      × (p.0 ≤ n)
unfolding last_number
resume zero p l h = (
  p.0,
  refl,
  ap (λ r. p ∷ r) (after-head p.0 p l (omega arith) ∙ after-all p.0 l h.0),
  omega arith,
)
resume (suc k) p [] h =
    (p.0, refl, ap (λ r. p ∷ r) (after-head p.0 p [] (omega arith)), omega arith)
resume (suc k) p (q ∷ l) h =
    let (n, is, eq, le) = resume k q l h.1 in
    (
      n,
      is,
      ap (λ r. p ∷ (take (suc k) (q ∷ l) ++ r)) (after-head n p (q ∷ l) (omega (arith, h.0.0)))
          ∙ ap (λ r. p ∷ r) eq,
      omega (arith, h.0.0),
    )

more :
    (marker k : ℕ) (l : Parts)
    → IsRising l
    → AllAbove marker l
    → 0 < k
    → k < length l
    → (n : ℕ) × (last_number (take k l) ≡ some n) × (take k l ++ after n l ≡ l) × (marker ≤ n)
more marker zero l h above pos long = absurd (omega arith)
more marker (suc k) [] h above pos long = absurd (omega arith)
more marker (suc k) (p ∷ l) h above pos long =
    let (n, is, eq, le) = resume k p l h in (n, is, eq, omega (arith, above.0))

-- Where there is room for a part, a page has at most as many parts as asked for; and it has all the
-- parts after the marker, or it is truncated and has a next marker: the page and the parts after
-- that marker are together the parts after the first.
pub part_page-resumes :
    (parts : Parts) (marker max_parts : ℕ)
    → IsRising parts
    → 0 < max_parts
    → (length (part_page parts marker max_parts).shown ≤ max_parts)
      × (((part_page parts marker max_parts).truncated ≡ false)
            × ((part_page parts marker max_parts).shown ≡ after marker parts)
          ⊎ ((part_page parts marker max_parts).truncated ≡ true)
            × ((n : ℕ) × ((part_page parts marker max_parts).next_marker ≡ some n)
                × ((part_page parts marker max_parts).shown ++ after n parts ≡ after marker parts)))
unfolding part_page
part_page-resumes parts marker max_parts h pos = (
  omega (arith, length-take max_parts (after marker parts)),
  elim (Bool-cases (ltb max_parts (length (after marker parts)))) [
    | inl t ↦
        let (n, is, eq, le) =
          more marker max_parts (after marker parts) (IsRising-after marker parts h)
            (after-AllAbove marker parts) pos (lt_of_ltb _ _ t) in
        inr (
          t,
          (
            n,
            is,
            ap (λ r. take max_parts (after marker parts) ++ r) (sym (after-after marker n parts le))
                ∙ eq,
          ),
        )
    | inr t ↦ inl (t, take_whole max_parts (after marker parts) (le_of_ltb _ _ t))
  ],
)
