-- ===== src/Auth/Keys.antt =====
-- The credential store of src/auth.rs. What stands at `keys.json` when a call looks at it is an
-- argument; serde_json is a parameter. The lock makes each call one step.
pub mod Refines
use los_cara.Base.{
  ℕ, Bool, true, false, not, ◌&&◌, ◌||◌, ◌≡◌, refl, subst, ◌⊎◌, ◌∙◌, Option, none, some, List, [],
  ◌∷◌, ◌==◌, if◌then◌else◌, Text, text_eq, text_eq_iff, text_leb, map_get, map_insert, map_remove,
  Bool-cases, inl, inr, arith,
}

-- `BTreeMap<String, String>`.
abbrev pub Keys : Type 0
Keys = List (Text × Text)

abbrev pub get_key : Text → Keys → Option Text
get_key = map_get text_eq

abbrev text_ltb : Text → Text → Bool
text_ltb s t = not (text_leb t s)

abbrev pub insert_key : Text → Text → Keys → Keys
insert_key = map_insert text_eq text_ltb

-- The modification time and the length of the file, where `metadata` yields them, and its bytes,
-- where `read` does.
pub record KeyFile : Type 0 where
  pub sig : Option (ℕ × ℕ)
  pub content : Option Text

pub record CredCache : Type 0 where
  pub map : Keys
  pub root : Option (Text × Text)
  pub mtime : Option (ℕ × ℕ)

unfoldable pub same_sig : Option (ℕ × ℕ) → Option (ℕ × ℕ) → Bool
same_sig none none = true
same_sig none (some q) = false
same_sig (some p) none = false
same_sig (some (a, b)) (some (c, d)) = a == c && b == d

-- The loop that inserts the entries of the file.
unfoldable pub insert_all : Keys → Keys → Keys
unfolding map_insert
insert_all [] m = m
insert_all ((k, v) ∷ f) m = insert_all f (insert_key k v m)

unfoldable pub root_map : Option (Text × Text) → Keys
root_map none = []
root_map (some p) = p ∷ []

module _ (from_slice : Text → Option Keys) where
  -- The entries of the file; none where it cannot be read or parsed.
  unfoldable pub read_keys : Option Text → Keys
  read_keys none = []
  read_keys (some s) = elim (from_slice s) [ none ↦ [] | some f ↦ f ]

  unfoldable pub reload_if_changed : Bool → KeyFile → CredCache → CredCache
  unfolding same_sig insert_all root_map read_keys
  reload_if_changed force file c =
      if force || not (same_sig file.sig c.mtime)
      then record {
        map = insert_all (read_keys file.content) (root_map c.root);
        root = c.root;
        mtime = file.sig;
      }
      else c

  unfoldable pub new_store : KeyFile → Text → Text → CredCache
  unfolding reload_if_changed
  new_store file access_key secret_key = reload_if_changed true file (record {
    map = (access_key, secret_key) ∷ [];
    root = some (access_key, secret_key);
    mtime = none;
  })

  unfoldable pub lookup : KeyFile → Text → CredCache → Option Text × CredCache
  unfolding reload_if_changed map_get
  lookup file access_key c =
      let c' = reload_if_changed false file c in (get_key access_key c'.map, c')

-- `add_key` and `remove_key`: what `keys.json` holds afterwards. A failed write is a panic there.
module _ (from_slice : Text → Option Keys) (to_vec_pretty : Keys → Text) where
  unfoldable pub add_key : Option Text → Text → Text → Text
  unfolding read_keys map_insert
  add_key content access_key secret_key =
      to_vec_pretty (insert_key access_key secret_key (read_keys from_slice content))

  unfoldable pub remove_key : Option Text → Text → Text
  unfolding read_keys map_remove
  remove_key content access_key =
      to_vec_pretty (map_remove text_eq access_key (read_keys from_slice content))

pub get-insert :
    (k j v : Text) (m : Keys)
    → get_key k (insert_key j v m) ≡ (if text_eq j k then some v else get_key k m)
unfolding map_get map_insert
get-insert k j v [] = refl
get-insert k j v ((i, w) ∷ m) =
    ground (arith, get-insert k j v m, text_eq_iff i j, text_eq_iff i k, text_eq_iff j k)

-- The keys of a map are distinct.
abbrev pub IsDistinct : Keys → Type 0
IsDistinct [] = Unit
IsDistinct ((k, v) ∷ f) = (get_key k f ≡ none) × IsDistinct f

-- The secret that a file and the root credentials together give a key.
abbrev pub overlaid : Option Text → Option Text → Option Text
overlaid none root = root
overlaid (some s) root = some s

get-insert_all :
    (k : Text) (f m : Keys)
    → IsDistinct f
    → get_key k (insert_all f m) ≡ overlaid (get_key k f) (get_key k m)
unfolding insert_all map_get
get-insert_all k [] m d = refl
get-insert_all k ((j, v) ∷ f) m d =
    get-insert_all k f (insert_key j v m) d.1 ∙ first (Bool-cases (text_eq j k))
  where
    first :
        (text_eq j k ≡ true) ⊎ (text_eq j k ≡ false)
        → overlaid (get_key k f) (get_key k (insert_key j v m))
          ≡ overlaid (if text_eq j k then some v else get_key k f) (get_key k m)
    first (inl same) =
        rw
          (get-insert k j v m, same, subst (λ i. get_key i f ≡ none) ((text_eq_iff j k).0 same) d.0)
          refl
    first (inr other) = rw (get-insert k j v m, other) refl

same_sig_refl : (s : Option (ℕ × ℕ)) → same_sig s s ≡ true
unfolding same_sig
same_sig_refl none = refl
same_sig_refl (some (a, b)) = ground arith

module _ (from_slice : Text → Option Keys) (file : KeyFile) (k : Text) where
  -- Where the keys in the file are distinct, as in any map, and its modification time or length is
  -- not the one last seen, a lookup answers from the
  -- file as it is now, and from the root credentials for a key that the file does not have: the
  -- file's secret goes before root's.
  pub lookup-overlaid :
      (c : CredCache)
      → same_sig file.sig c.mtime ≡ false
      → IsDistinct (read_keys from_slice file.content)
      → (lookup from_slice file k c).0
        ≡ overlaid (get_key k (read_keys from_slice file.content)) (get_key k (root_map c.root))
  unfolding lookup reload_if_changed
  lookup-overlaid c changed d =
      rw changed (get-insert_all k (read_keys from_slice file.content) (root_map c.root) d)

  -- A new store over a file with distinct keys that does not change answers a lookup with the file's secret, and with
  -- the root secret only for the root key, and only where the file does not have that key.
  pub lookup-new_store :
      (access_key secret_key : Text)
      → IsDistinct (read_keys from_slice file.content)
      → (lookup from_slice file k (new_store from_slice file access_key secret_key)).0
        ≡ overlaid
            (get_key k (read_keys from_slice file.content))
            (if text_eq access_key k then some secret_key else none)
  unfolding lookup new_store reload_if_changed root_map map_get
  lookup-new_store access_key secret_key d =
      rw (same_sig_refl file.sig)
        (get-insert_all k (read_keys from_slice file.content) ((access_key, secret_key) ∷ []) d)
