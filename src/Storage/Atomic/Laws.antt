-- ===== src/Storage/Atomic/Laws.antt =====
-- What the crates promise, and the paths that a writer uses.
use los_cara.Base.{
  ℕ, ◌<◌, false, ◌≡◌, ◌≢◌, ap, [], ◌∷◌, ◌++◌, arith, inl, inr, Bool-cases, Text, length,
  length-append, codes, has_byte, list_eq, text_eq,
}
use los_cara.Error.{ok}
use los_cara.Storage.Fs.{FilePath, path_eq, path_eq_iff, is_within, child}
use los_cara.Storage.Names.{object_dir, tmp_file, meta_name, data_name, with_extension}
use los_cara.Storage.Types.{Env, ObjectMeta}

-- The text of a uuid has 36 bytes and no slash; the hex digest of SHA-256 has 64; a value that
-- serde_json writes is read back.
pub record IsLawful (env : Env) : Type 0 where
  pub uuid_length : (n : ℕ) → length (env.uuid n) ≡ 36
  pub uuid_plain : (n : ℕ) → has_byte b'/' (env.uuid n) ≡ false
  pub hash_length : (s : Text) → length (env.hex_encode (env.sha256 s)) ≡ 64
  pub object_roundtrip :
      (meta : ObjectMeta) (s : Text)
      → env.object_json.to_vec meta ≡ ok s
      → env.object_json.from_slice s ≡ ok meta

abbrev head_or : FilePath → Text
head_or [] = []
head_or (s ∷ p) = s

abbrev second_or : FilePath → Text
second_or [] = []
second_or (s ∷ p) = head_or p

-- Two paths differ if their names have different lengths.
pub path_eq-ne : (p q : FilePath) → length (head_or p) ≢ length (head_or q) → path_eq p q ≡ false
path_eq-ne p q h = elim (Bool-cases (path_eq p q)) [
  | inl same ↦ absurd (h (ap (λ (r : FilePath). length (head_or r)) ((path_eq_iff p q).0 same)))
  | inr other ↦ other
]

pub path_eq-child :
    (a b : Text) (p : FilePath) → text_eq a b ≡ false → path_eq (child p a) (child p b) ≡ false
unfolding path_eq list_eq
path_eq-child a b p h = rw h

pub path_eq-ne_second :
    (p q : FilePath) → length (second_or p) ≢ length (second_or q) → path_eq p q ≡ false
path_eq-ne_second p q h = elim (Bool-cases (path_eq p q)) [
  | inl same ↦ absurd (h (ap (λ (r : FilePath). length (second_or r)) ((path_eq_iff p q).0 same)))
  | inr other ↦ other
]

pub path_eq-ne_depth : (p q : FilePath) → length p ≢ length q → path_eq p q ≡ false
path_eq-ne_depth p q h = elim (Bool-cases (path_eq p q)) [
  | inl same ↦ absurd (h (ap (λ (r : FilePath). length r) ((path_eq_iff p q).0 same)))
  | inr other ↦ other
]

-- A path lies within no longer one.
pub is_within-depth : (p q : FilePath) → length q < length p → is_within p q ≡ false
unfolding is_within
is_within-depth p [] h = path_eq-ne_depth p [] (omega arith)
is_within-depth p (s ∷ q) h =
    rw (path_eq-ne_depth p (s ∷ q) (omega arith), is_within-depth p q (omega arith))

-- The file that `write_json_atomic` stages.
abbrev pub json_tmp : Env → FilePath → ℕ → FilePath
json_tmp env path n = with_extension path (codes "tmp-" ++ env.uuid n)

module _ {env : Env} (law : IsLawful env) (root : FilePath) (bucket key : Text) where
  pub tmp_file-apart :
      (n : ℕ)
      → path_eq (tmp_file env root n) (child (object_dir env root bucket key) meta_name) ≡ false
  unfolding tmp_file object_dir codes
  tmp_file-apart n = path_eq-ne_second _ _ (omega (arith, law.hash_length key))

  pub data-apart :
      (n : ℕ) (p : FilePath) → path_eq (child p (data_name env n)) (child p meta_name) ≡ false
  unfolding data_name codes
  data-apart n p =
      path_eq-ne _ _ (omega (arith, law.uuid_length n, length-append (env.uuid n) (codes ".data")))

  pub json-apart :
      (n : ℕ) (p : FilePath)
      → path_eq (json_tmp env (child p meta_name) n) (child p meta_name) ≡ false
  unfolding with_extension codes
  json-apart n p = path_eq-ne _ _ (omega (arith, law.uuid_length n))

  pub json-ne-data :
      (n m : ℕ) (p : FilePath)
      → path_eq (json_tmp env (child p meta_name) n) (child p (data_name env m)) ≡ false
  unfolding with_extension data_name codes
  json-ne-data n m p = path_eq-ne _ _ (
      omega
        (arith, law.uuid_length n, law.uuid_length m, length-append (env.uuid m) (codes ".data")))
