-- ===== src/Storage/Types.antt =====
-- The records of src/storage.rs, and what the engine takes from third-party crates.
use los_cara.Base.{ℕ, ◌*◌, Bool, Option, List, Text, codes}
use los_cara.Error.{Result}
use los_cara.Storage.Io.{IoError}

-- 5 GiB and 5 MiB.
abbrev pub max_object_size : ℕ
max_object_size = 5 * 1024 * 1024 * 1024

abbrev pub min_part_size : ℕ
min_part_size = 5 * 1024 * 1024

abbrev pub part_dir : Text
part_dir = codes "parts"

-- `BTreeMap<String, String>`.
abbrev pub Metadata : Type 0
Metadata = List (Text × Text)

-- Times are milliseconds since the epoch.
pub record ObjectMeta : Type 0 where
  pub key : Text
  pub size : ℕ
  pub etag : Text
  pub content_type : Text
  pub last_modified : ℕ
  pub metadata : Metadata
  pub data_file : Option Text

pub record BucketMeta : Type 0 where
  pub name : Text
  pub created : ℕ

-- `parts` maps a part number to its etag and size.
pub record MultipartManifest : Type 0 where
  pub upload_id : Text
  pub bucket : Text
  pub key : Text
  pub content_type : Text
  pub metadata : Metadata
  pub initiated : ℕ
  pub parts : List (ℕ × (Text × ℕ))

pub record PutResult : Type 0 where
  pub meta : ObjectMeta
  pub sha256_hex : Text
  pub content_md5_hex : Text

pub record ListPage : Type 0 where
  pub contents : List ObjectMeta
  pub common_prefixes : List Text
  pub truncated : Bool
  pub next_token : Option Text
  pub next_prefix_token : Option Text

-- serde_json at one type: `to_vec`, and `from_slice` with the text of its error.
pub record Json (T : Type 0) : Type 0 where
  pub to_vec : T → Result IoError Text
  pub from_slice : Text → Result Text T

-- The crates uuid, chrono (the clock), md-5, sha2, hex and serde_json. `uuid` and `now_ms` take the
-- number of the drawing or reading.
pub record Env : Type 0 where
  pub uuid : ℕ → Text
  pub now_ms : ℕ → ℕ
  pub md5 : Text → Text
  pub sha256 : Text → Text
  pub hex_encode : Text → Text
  pub hex_decode : Text → Option Text
  pub bucket_json : Json BucketMeta
  pub object_json : Json ObjectMeta
  pub manifest_json : Json MultipartManifest
