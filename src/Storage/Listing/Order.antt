-- ===== src/Storage/Listing/Order.antt =====
-- The order of keys in src/storage.rs.
use los_cara.Base.{
  Bool, true, false, not, ◌&&◌, ◌≡◌, refl, List, [], ◌∷◌, arith, Text, text_leb, filter, inl, inr,
  Bool-cases,
}
use los_cara.Storage.Types.{ObjectMeta}

pub text_leb_refl : (s : Text) → text_leb s s ≡ true
unfolding text_leb
text_leb_refl [] = refl
text_leb_refl (c ∷ s) = ground (arith, text_leb_refl s)

pub text_leb_trans :
    (s t u : Text) → text_leb s t ≡ true → text_leb t u ≡ true → text_leb s u ≡ true
unfolding text_leb
text_leb_trans [] t u h k = refl
text_leb_trans (c ∷ s) [] u h k = cc
text_leb_trans (c ∷ s) (d ∷ t) [] h k = cc
text_leb_trans (c ∷ s) (d ∷ t) (e ∷ u) h k = ground (arith, text_leb_trans s t u)

pub text_leb_total : (s t : Text) → text_leb s t ≡ false → text_leb t s ≡ true
unfolding text_leb
text_leb_total [] t h = cc
text_leb_total (c ∷ s) [] h = refl
text_leb_total (c ∷ s) (d ∷ t) h = ground (arith, text_leb_total s t)

-- `k < key`.
abbrev pub above : Text → ObjectMeta → Bool
above k obj = not (text_leb obj.key k)

pub above_trans :
    (k : Text) (x y : ObjectMeta) → above k x ≡ true → above x.key y ≡ true → above k y ≡ true
above_trans k x y h e = ground (arith, text_leb_total x.key k, text_leb_trans y.key k x.key)

-- The keys rise strictly, from above `t`.
abbrev pub IsRising : Text → List ObjectMeta → Type 0
IsRising t [] = Unit
IsRising t (x ∷ xs) = (above t x ≡ true) × IsRising x.key xs

pub IsRising-weaken :
    (t : Text) (x : ObjectMeta) (xs : List ObjectMeta)
    → above t x ≡ true
    → IsRising x.key xs
    → IsRising t xs
IsRising-weaken t x [] h r = tt
IsRising-weaken t x (y ∷ ys) h r = (above_trans t x y h r.0, r.1)

pub filter-above : (t : Text) (xs : List ObjectMeta) → IsRising t xs → filter (above t) xs ≡ xs
filter-above t [] r = refl
filter-above t (x ∷ xs) r = rw (r.0, filter-above t xs (IsRising-weaken t x xs r.0 r.1))

pub filter-IsRising :
    (p : ObjectMeta → Bool) (t : Text) (xs : List ObjectMeta)
    → IsRising t xs
    → IsRising t (filter p xs)
filter-IsRising p t [] r = tt
filter-IsRising p t (x ∷ xs) r = elim (Bool-cases (p x)) [
  | inl h ↦ rw h (r.0, filter-IsRising p x.key xs r.1)
  | inr h ↦ rw h (filter-IsRising p t xs (IsRising-weaken t x xs r.0 r.1))
]

pub above_nil : (t : Text) (x : ObjectMeta) → above t x ≡ true → above [] x ≡ true
unfolding text_leb
above_nil t x h = ground (arith, text_leb_trans x.key [] t)

module _ (p : ObjectMeta → Bool) where
  pub filter-above-IsRising :
      (t s : Text) (xs : List ObjectMeta)
      → IsRising t xs
      → IsRising s (filter (λ x. p x && above s x) xs)
  filter-above-IsRising t s [] r = tt
  filter-above-IsRising t s (x ∷ xs) r = elim (Bool-cases (p x && above s x)) [
    | inl h ↦ rw h (ground arith, filter-IsRising (λ x. p x && above s x) x.key xs r.1)
    | inr h ↦ rw h (filter-above-IsRising x.key s xs r.1)
  ]

  -- A later start filters what an earlier one has left.
  pub filter-above-filter :
      (s k : Text) (xs : List ObjectMeta)
      → text_leb s k ≡ true
      → filter (above k) (filter (λ x. p x && above s x) xs) ≡ filter (λ x. p x && above k x) xs
  filter-above-filter s k [] le = refl
  filter-above-filter s k (x ∷ xs) le =
      ground (arith, filter-above-filter s k xs le, text_leb_trans x.key s k)
