-- ===== src/Storage/Listing.antt =====
-- Listing in src/storage.rs: the walk that collects the metadata, and the pages of `list_objects`.
pub mod Order
pub mod Flat
use mathlib.Core.List.{reverse}
use los_cara.Base.{
  ℕ, ◌+◌, Bool, true, false, not, ◌&&◌, Option, none, some, List, [], ◌∷◌, ◌++◌, leb, if◌then◌else◌,
  length, take, drop, any, Text, text_eq, text_leb, starts_with, ends_with, find_text, sort,
  insert_sorted,
}
use los_cara.Error.{S3Error}
use los_cara.Storage.Fs.{FilePath}
use los_cara.Storage.Io.{M, catch, pure, ◌>>=◌, ◌>>◌}
use los_cara.Storage.Names.{objects_root}
use los_cara.Storage.Types.{Env, ObjectMeta, ListPage}
use los_cara.Storage.Json.{checked, read_if}
use los_cara.Storage.Buckets.{require_bucket, walk_metas, collect_meta_paths, depth, get_fs}

-- The order of paths, on components from the outside in.
abbrev pub components_leb : List Text → List Text → Bool
components_leb [] qs = true
components_leb (p ∷ ps) [] = false
components_leb (p ∷ ps) (q ∷ qs) = if text_eq p q then components_leb ps qs else text_leb p q

abbrev pub path_leb : FilePath → FilePath → Bool
path_leb p q = components_leb (reverse p) (reverse q)

abbrev pub key_leb : ObjectMeta → ObjectMeta → Bool
key_leb a b = text_leb a.key b.key

module _ (env : Env) (root : FilePath) where
  -- The loop that reads the metadata; what cannot be read is passed over.
  read_metas : List FilePath → M S3Error (List ObjectMeta)
  read_metas [] = pure []
  read_metas (p ∷ ps) = do
    found ← read_if env.object_json p
    rest ← read_metas ps
    elim found [ none ↦ pure rest | some m ↦ pure (m ∷ rest) ]

  unfoldable pub all_objects : Text → M S3Error (List ObjectMeta)
  unfolding require_bucket walk_metas collect_meta_paths objects_root read_metas checked sort get_fs
      catch pure ◌>>=◌
  all_objects bucket = do
    require_bucket env root bucket
    fs ← get_fs
    checked (walk_metas (depth fs) (objects_root root bucket))
    paths ← checked (collect_meta_paths (depth fs) (objects_root root bucket))
    metas ← read_metas (sort path_leb paths)
    pure (sort key_leb metas)

-- What the loop of `list_objects` updates.
pub record Scan : Type 0 where
  pub contents : List ObjectMeta
  pub prefixes : List Text
  pub truncated : Bool
  pub next_token : Option Text
  pub next_prefix_token : Option Text
  pub count : ℕ

abbrev pub nothing_scanned : Scan
nothing_scanned = record {
  contents = [];
  prefixes = [];
  truncated = false;
  next_token = none;
  next_prefix_token = none;
  count = 0;
}

-- `prefixes.insert(cp)` on a `BTreeSet`.
unfoldable pub set_insert : Text → List Text → List Text
unfolding insert_sorted
set_insert cp ps = if any (text_eq cp) ps then ps else insert_sorted text_leb cp ps

-- What one key stands for in the listing: nothing, itself, or a common prefix.
pub data Item : Type 0 where
  skipped plain : Item
  rolled_up : Text → Item

module _ (prefix delimiter start_after : Text) where
  -- The tests on a common prefix.
  unfoldable pub prefix_item : List Text → Text → Item
  unfolding text_leb starts_with ends_with
  prefix_item prefixes cp =
      if any (text_eq cp) prefixes
      then skipped
      else if not (text_eq start_after [])
          && text_leb cp start_after
          && starts_with prefix start_after
          && ends_with delimiter start_after
      then skipped
      else rolled_up cp

  unfoldable pub item_of : List Text → Text → Item
  unfolding prefix_item find_text
  item_of prefixes key =
      if not (starts_with prefix key)
      then skipped
      else if not (text_eq start_after []) && text_leb key start_after
      then skipped
      else if text_eq delimiter []
      then plain
      else elim (find_text delimiter (drop (length prefix) key)) [
        | none ↦ plain
        | some rel ↦
            prefix_item prefixes
              (prefix ++ take (rel + length delimiter) (drop (length prefix) key))
      ]

  -- The loop; `break` ends it.
  unfoldable pub scan : ℕ → List ObjectMeta → Scan → Scan
  unfolding item_of set_insert
  scan max_keys [] s = s
  scan max_keys (obj ∷ objs) s = elim (item_of s.prefixes obj.key) [
    | skipped ↦ scan max_keys objs s
    | plain ↦
        if leb max_keys s.count
        then record s { truncated = true }
        else scan max_keys objs (record s {
          contents = s.contents ++ obj ∷ [];
          count = s.count + 1;
          next_token = some obj.key;
          next_prefix_token = none;
        })
    | rolled_up cp ↦
        if leb max_keys s.count
        then record s { truncated = true }
        else scan max_keys objs (record s {
          prefixes = set_insert cp s.prefixes;
          count = s.count + 1;
          next_prefix_token = some cp;
          next_token = none;
        })
  ]

  -- `list_objects` on the collected objects.
  unfoldable pub page : ℕ → List ObjectMeta → ListPage
  unfolding scan
  page max_keys all =
      let s = scan max_keys all nothing_scanned in
      record {
        contents = s.contents;
        common_prefixes = s.prefixes;
        truncated = s.truncated;
        next_token = if s.truncated then s.next_token else none;
        next_prefix_token = if s.truncated then s.next_prefix_token else none;
      }

module _ (env : Env) (root : FilePath) where
  unfoldable pub list_objects : Text → Text → Text → Text → ℕ → M S3Error ListPage
  unfolding all_objects page
  list_objects bucket prefix delimiter start_after max_keys = do
    all ← all_objects env root bucket
    pure (page prefix delimiter start_after max_keys all)
