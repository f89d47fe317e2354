-- ===== src/Auth/Keys/Refines.antt =====
-- `add_key` and `remove_key` of src/auth.rs as operations on a function from access keys to secrets.
use los_cara.Base.{
  true, false, ◌≡◌, refl, sym, ◌∙◌, ap, subst, Option, none, some, List, [], ◌∷◌, Text, text_eq,
  text_eq_iff, text_leb, list_eq, map_get, map_insert, map_remove, if◌then◌else◌, Bool-cases, inl,
  inr, arith,
}
use los_cara.Storage.Listing.Order.{text_leb_refl, text_leb_trans, text_leb_total}
use los_cara.Auth.Keys.{Keys, get_key, insert_key, read_keys, add_key, remove_key, get-insert}

pub data Op : Type 0 where
  add : Text → Text → Op
  remove : Text → Op

-- What the key file promises: the secret of each access key.
abbrev pub Secrets : Type 0
Secrets = Text → Option Text

unfoldable pub step : Op → Secrets → Secrets
step (add k v) f j = if text_eq k j then some v else f j
step (remove k) f j = if text_eq k j then none else f j

unfoldable pub replay : List Op → Secrets → Secrets
unfolding step
replay [] f = f
replay (op ∷ ops) f = replay ops (step op f)

abbrev AllAbove : Text → Keys → Type 0
AllAbove k [] = Unit
AllAbove k ((j, v) ∷ m) = (text_leb j k ≡ false) × AllAbove k m

-- The keys of a `BTreeMap` rise strictly.
abbrev pub IsOrdered : Keys → Type 0
IsOrdered [] = Unit
IsOrdered ((k, v) ∷ m) = AllAbove k m × IsOrdered m

text_leb-antisym : (s t : Text) → text_leb s t ≡ true → text_leb t s ≡ true → text_eq s t ≡ true
unfolding text_leb text_eq list_eq
text_leb-antisym [] [] h k = refl
text_leb-antisym [] (d ∷ t) h k = cc
text_leb-antisym (c ∷ s) [] h k = cc
text_leb-antisym (c ∷ s) (d ∷ t) h k = ground (arith, text_leb-antisym s t)

get-AllAbove : (k : Text) (m : Keys) → AllAbove k m → get_key k m ≡ none
unfolding map_get
get-AllAbove k [] h = refl
get-AllAbove k ((j, v) ∷ m) h =
    ground (arith, get-AllAbove k m h.1, text_eq_iff j k, text_leb_refl k)

AllAbove-weaken : (k i : Text) (m : Keys) → text_leb i k ≡ false → AllAbove i m → AllAbove k m
AllAbove-weaken k i [] h a = tt
AllAbove-weaken k i ((j, v) ∷ m) h a =
    (ground (arith, text_leb_total i k h, text_leb_trans j k i), AllAbove-weaken k i m h a.1)

insert-AllAbove :
    (b k v : Text) (m : Keys) → text_leb k b ≡ false → AllAbove b m → AllAbove b (insert_key k v m)
unfolding map_insert
insert-AllAbove b k v [] h a = (h, tt)
insert-AllAbove b k v ((i, w) ∷ m) h a = elim (Bool-cases (text_eq i k)) [
  | inl same ↦ rw same (h, a.1)
  | inr other ↦ elim (Bool-cases (text_leb i k)) [
    | inl le ↦ rw (other, le) (a.0, insert-AllAbove b k v m h a.1)
    | inr gt ↦ rw (other, gt) (h, a)
  ]
]

insert-IsOrdered : (k v : Text) (m : Keys) → IsOrdered m → IsOrdered (insert_key k v m)
unfolding map_insert
insert-IsOrdered k v [] o = (tt, tt)
insert-IsOrdered k v ((i, w) ∷ m) o = elim (Bool-cases (text_eq i k)) [
  | inl same ↦ rw same (subst (λ j. AllAbove j m) ((text_eq_iff i k).0 same) o.0, o.1)
  | inr other ↦ elim (Bool-cases (text_leb i k)) [
    | inl le ↦
        rw (other, le)
          (
            insert-AllAbove i k v m (ground (arith, text_leb-antisym i k)) o.0,
            insert-IsOrdered k v m o.1,
          )
    | inr gt ↦ rw (other, gt) ((gt, AllAbove-weaken k i m gt o.0), o)
  ]
]

remove-AllAbove : (b k : Text) (m : Keys) → AllAbove b m → AllAbove b (map_remove text_eq k m)
unfolding map_remove
remove-AllAbove b k [] a = tt
remove-AllAbove b k ((i, w) ∷ m) a = elim (Bool-cases (text_eq i k)) [
  | inl same ↦ rw same a.1
  | inr other ↦ rw other (a.0, remove-AllAbove b k m a.1)
]

remove-IsOrdered : (k : Text) (m : Keys) → IsOrdered m → IsOrdered (map_remove text_eq k m)
unfolding map_remove
remove-IsOrdered k [] o = tt
remove-IsOrdered k ((i, w) ∷ m) o = elim (Bool-cases (text_eq i k)) [
  | inl same ↦ rw same o.1
  | inr other ↦ rw other (remove-AllAbove i k m o.0, remove-IsOrdered k m o.1)
]

get-remove :
    (k j : Text) (m : Keys)
    → IsOrdered m
    → get_key k (map_remove text_eq j m) ≡ (if text_eq j k then none else get_key k m)
unfolding map_get map_remove
get-remove k j [] o = ground arith
get-remove k j ((i, w) ∷ m) o = ground (
  arith,
  get-remove k j m o.1,
  text_eq_iff i j,
  text_eq_iff i k,
  text_eq_iff j k,
  get-AllAbove i m o.0,
)

module _ (from_slice : Text → Option Keys) (to_vec_pretty : Keys → Text)
    (reads_back : (m : Keys) → from_slice (to_vec_pretty m) ≡ some m) where
  -- The commands one after the other, over what stands at `keys.json`.
  unfoldable pub run : List Op → Option Text → Option Text
  run [] content = content
  run (add k v ∷ ops) content = run ops (some (add_key from_slice to_vec_pretty content k v))
  run (remove k ∷ ops) content = run ops (some (remove_key from_slice to_vec_pretty content k))

  abbrev pub view : Option Text → Secrets
  view content j = get_key j (read_keys from_slice content)

  read_keys-written : (m : Keys) → read_keys from_slice (some (to_vec_pretty m)) ≡ m
  unfolding read_keys
  read_keys-written m = rw (read_keys, reads_back) refl

  replay-ext :
      (ops : List Op) (f g : Secrets)
      → ((j : Text) → f j ≡ g j)
      → (j : Text) → replay ops f j ≡ replay ops g j
  unfolding replay step
  replay-ext [] f g h j = h j
  replay-ext (add k v ∷ ops) f g h j =
      replay-ext ops _ _ (λ i. ap (λ o. if text_eq k i then some v else o) (h i)) j
  replay-ext (remove k ∷ ops) f g h j =
      replay-ext ops _ _ (λ i. ap (λ o. if text_eq k i then none else o) (h i)) j

  -- Where serde_json reads back what it writes, and the keys of the file rise strictly to start with: after
  -- any commands they do, and the secrets that it gives are those of the same
  -- commands on the function that it stood for.
  pub run_refines :
      (ops : List Op) (content : Option Text)
      → IsOrdered (read_keys from_slice content)
      → IsOrdered (read_keys from_slice (run ops content))
        × ((j : Text) → view (run ops content) j ≡ replay ops (view content) j)
  unfolding run replay step add_key remove_key
  run_refines [] content d = (d, λ j. refl)
  run_refines (add k v ∷ ops) content d =
      let m = read_keys from_slice content in
      let is = read_keys-written (insert_key k v m) in
      let (kept, same) =
        run_refines ops (some (add_key from_slice to_vec_pretty content k v))
          (subst IsOrdered (sym is) (insert-IsOrdered k v m d)) in
      (kept, λ j. same j ∙ replay-ext ops _ _ (λ i. ap (get_key i) is ∙ get-insert i k v m) j)
  run_refines (remove k ∷ ops) content d =
      let m = read_keys from_slice content in
      let is = read_keys-written (map_remove text_eq k m) in
      let (kept, same) =
        run_refines ops (some (remove_key from_slice to_vec_pretty content k))
          (subst IsOrdered (sym is) (remove-IsOrdered k m d)) in
      (kept, λ j. same j ∙ replay-ext ops _ _ (λ i. ap (get_key i) is ∙ get-remove i k m d) j)
