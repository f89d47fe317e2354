-- ===== src/Storage/Multipart.antt =====
-- The multipart operations of src/storage.rs.
pub mod Uploads
pub mod Check
use los_cara.Base.{
  ℕ, zero, suc, ◌+◌, ◌-◌, ◌%◌, ◌^◌, ◌/◌, min, Bool, true, false, not, ◌&&◌, ◌||◌, Option, none,
  some, List, [], ◌∷◌, ◌++◌, leb, ltb, ◌==◌, if◌then◌else◌, length, take, drop, filter, map, Text,
  codes, text_eq, list_eq, sort, map_get, map_insert,
}
use los_cara.Error
use los_cara.Error.{S3Error, Result, ok, err}
use los_cara.Storage.Fs.{FilePath, child, join}
use los_cara.Storage.Io.{M, Io, IoError, catch, ignore, pure, raise, tick, draw, ◌>>=◌, ◌>>◌}
use los_cara.Storage.Calls.{
  create_file, write_all, sync, rename, remove_file, create_dir_all, remove_dir_all, read,
}
use los_cara.Storage.Names.{object_dir, multipart_dir, tmp_file, meta_name, data_name}
use los_cara.Storage.Types.{Env, Metadata, ObjectMeta, MultipartManifest, min_part_size, part_dir}
use los_cara.Storage.Json.{checked, write_json_atomic, read_or}
use los_cara.Storage.Buckets.{require_bucket, list_multipart_uploads_raw}
use los_cara.Storage.Objects.{Body, stage, install, get_object, head_object}

-- A part number in decimal, as `format!` writes it.
unfoldable pub decimal_digits : ℕ → ℕ → Text → Text
decimal_digits zero n out = out
decimal_digits (suc fuel) n out =
    let rest = decimal_digits fuel (n / 10) ((b'0' + n % 10) ∷ out) in
    if ltb n 10 then (b'0' + n) ∷ out else rest

-- Twenty digits are enough for a `u64`.
unfoldable pub decimal : ℕ → Text
unfolding decimal_digits
decimal n = decimal_digits 20 n []

abbrev pub Part : Type 0
Part = Text × ℕ

abbrev pub Listed : Type 0
Listed = List (ℕ × Text)

-- `m.parts.get(n)`.
unfoldable pub get_part : List (ℕ × Part) → ℕ → Option Part
unfolding map_get
get_part parts n = map_get ◌==◌ n parts

abbrev pub number_leb : ℕ × Text → ℕ × Text → Bool
number_leb (n, s) (m, t) = leb n m

abbrev pub numbers : Listed → List ℕ
numbers [] = []
numbers ((n, etag) ∷ l) = n ∷ numbers l

-- The loop over `windows(2)`.
unfoldable pub has_repeat : Listed → Bool
has_repeat [] = false
has_repeat ((n, s) ∷ []) = false
has_repeat ((n, s) ∷ (m, t) ∷ l) = n == m || has_repeat ((m, t) ∷ l)

abbrev pub etag_matches : Option Part → Text → Bool
etag_matches none etag = false
etag_matches (some (stored, size)) etag = text_eq stored etag

unfoldable pub all_known : List (ℕ × Part) → Listed → Bool
unfolding get_part
all_known parts [] = true
all_known parts ((n, etag) ∷ l) = etag_matches (get_part parts n) etag && all_known parts l

-- `m.parts.get(n).map(|(_, s)| *s).unwrap_or(0)`.
abbrev pub size_of : Option Part → ℕ
size_of none = 0
size_of (some (etag, size)) = size

-- All but the last part.
unfoldable pub all_large : List (ℕ × Part) → Listed → Bool
unfolding get_part
all_large parts [] = true
all_large parts (p ∷ []) = true
all_large parts ((n, s) ∷ q ∷ l) =
    not (ltb (size_of (get_part parts n)) min_part_size) && all_large parts (q ∷ l)

-- The checks of `complete_multipart`: the parts to assemble, in order.
unfoldable pub check_parts : List (ℕ × Part) → Listed → Result S3Error Listed
unfolding has_repeat all_known all_large sort list_eq
check_parts parts listed =
    let ordered = sort number_leb listed in
    if has_repeat ordered
    then err Error.invalid_part_order
    else if not (list_eq ◌==◌ (numbers ordered) (numbers listed))
    then err Error.invalid_part_order
    else if not (all_known parts ordered)
    then err Error.invalid_part
    else if not (all_large parts ordered)
    then err Error.entity_too_small
    else ok ordered

-- The raw digests, for the etag of the whole; `hex::decode(…).unwrap_or_else(zeros)`.
abbrev pub raw_digest : Env → Text → Text
raw_digest env etag = elim (env.hex_decode etag) [
  | none ↦ 0 ∷ 0 ∷ 0 ∷ 0 ∷ 0 ∷ 0 ∷ 0 ∷ 0 ∷ 0 ∷ 0 ∷ 0 ∷ 0 ∷ 0 ∷ 0 ∷ 0 ∷ 0 ∷ []
  | some raw ↦ raw
]

abbrev pub etag_of : Option Part → Text
etag_of none = []
etag_of (some (etag, size)) = etag

unfoldable pub digests : Env → List (ℕ × Part) → Listed → Text
unfolding get_part
digests env parts [] = []
digests env parts ((n, s) ∷ l) = raw_digest env (etag_of (get_part parts n)) ++ digests env parts l

unfoldable pub multipart_etag : Env → List (ℕ × Part) → Listed → Text
unfolding digests decimal
multipart_etag env parts ordered =
    env.hex_encode (env.md5 (digests env parts ordered)) ++ (b'-' ∷ decimal (length ordered))

-- The sum is a `u64`.
unfoldable pub total_size : List (ℕ × Part) → Listed → ℕ
unfolding get_part
total_size parts [] = 0
total_size parts ((n, s) ∷ l) = (size_of (get_part parts n) + total_size parts l) % 2 ^ 64

module _ (root : FilePath) where
  unfoldable pub manifest_path : Text → FilePath
  unfolding multipart_dir
  manifest_path upload_id = child (multipart_dir root upload_id) (codes "manifest.json")

  unfoldable pub part_path : Text → ℕ → FilePath
  unfolding multipart_dir decimal
  part_path upload_id n =
      child (child (multipart_dir root upload_id) part_dir) (decimal n ++ codes ".data")
