-- ===== src/Storage/Names.antt =====
-- Bucket names, and the paths of the layout.
use mathlib.Core.List.{reverse}
use los_cara.Base.{
  ℕ, Bool, true, false, not, ◌&&◌, ◌||◌, none, some, [], ◌∷◌, ◌++◌, leb, ◌==◌, if◌then◌else◌,
  length, take, drop, all, filter, Text, codes, split, split_once, is_digit,
}
use los_cara.Storage.Fs.{FilePath, join, child}
use los_cara.Storage.Types.{Env}

-- `name.contains("..")`.
unfoldable pub has_dots : Text → Bool
has_dots [] = false
has_dots (c ∷ []) = false
has_dots (c ∷ d ∷ s) = (c == b'.') && (d == b'.') || has_dots (d ∷ s)

abbrev pub is_lower : ℕ → Bool
is_lower c = leb b'a' c && leb c b'z'

abbrev pub is_alphanumeric : ℕ → Bool
is_alphanumeric c = is_lower c || leb b'A' c && leb c b'Z' || is_digit c

abbrev pub valid_char : ℕ → Bool
valid_char c = is_lower c || is_digit c || c == b'-' || c == b'.'

-- The first and the last byte; never read where there is none.
abbrev pub first_byte : Text → ℕ
first_byte [] = 0
first_byte (c ∷ s) = c

abbrev pub last_byte : Text → ℕ
last_byte [] = 0
last_byte (c ∷ []) = c
last_byte (c ∷ d ∷ s) = last_byte (d ∷ s)

abbrev pub looks_like_ip : Text → Bool
looks_like_ip name =
    all (all is_digit) (split b'.' name) && length (filter (λ c. c == b'.') name) == 3

unfoldable pub valid_bucket_name : Text → Bool
unfolding has_dots split
valid_bucket_name name =
    if not (leb 3 (length name) && leb (length name) 63)
    then false
    else if not (is_alphanumeric (first_byte name)) || not (is_alphanumeric (last_byte name))
    then false
    else if not (all valid_char name)
    then false
    else if has_dots name
    then false
    else if looks_like_ip name
    then false
    else true

-- `path.with_extension(ext)`: what follows the last dot of the name is replaced.
abbrev pub stem : Text → Text
stem name = elim (split_once b'.' (reverse name)) [
  | none ↦ name
  | some (ext, []) ↦ name
  | some (ext, c ∷ rest) ↦ reverse (c ∷ rest)
]

unfoldable pub with_extension : FilePath → Text → FilePath
unfolding split_once
with_extension [] ext = []
with_extension (name ∷ p) ext = child p (stem name ++ (b'.' ∷ ext))

module _ (env : Env) where
  unfoldable pub key_shard : Text → Text × Text × Text
  key_shard key =
      let hex = env.hex_encode (env.sha256 key) in (take 2 hex, take 2 (drop 2 hex), hex)

module _ (root : FilePath) where
  unfoldable pub bucket_dir : Text → FilePath
  bucket_dir bucket = join (child root (codes "buckets")) bucket

  unfoldable pub objects_root : Text → FilePath
  unfolding bucket_dir
  objects_root bucket = child (bucket_dir bucket) (codes "objects")

  unfoldable pub multipart_dir : Text → FilePath
  multipart_dir upload_id = join (child root (codes "multipart")) upload_id

module _ (env : Env) (root : FilePath) where
  unfoldable pub object_dir : Text → Text → FilePath
  unfolding objects_root key_shard
  object_dir bucket key =
      let (a, b, hash) = key_shard env key in
      child (child (child (objects_root root bucket) a) b) hash

  -- `tmp_file`, at the uuid of one drawing.
  unfoldable pub tmp_file : ℕ → FilePath
  tmp_file n = child (child root (codes "tmp")) (env.uuid n)

abbrev pub meta_name : Text
meta_name = codes "meta.json"

-- `format!("{}.data", uuid)`.
unfoldable pub data_name : Env → ℕ → Text
data_name env n = env.uuid n ++ codes ".data"
