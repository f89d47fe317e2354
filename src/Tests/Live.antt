-- ===== src/Tests/Live.antt =====
-- An upload that goes through.
use los_cara.Base.{
  ◌≡◌, ◌≢◌, refl, false, [], ◌∷◌, map, arith, Text, codes, text_eq, inl, inr, Bool-cases, some,
}
use los_cara.Error.{ok}
use los_cara.Storage.Fs.{FilePath, file, lookup, path_eq, path_eq_iff, is_within, join}
use los_cara.Storage.Io.{World, done}
use los_cara.Storage.Names.{object_dir, tmp_file, data_name, with_extension, bucket_dir}
use los_cara.Storage.Types.{PutResult}
use los_cara.Storage.Objects.{put_object}
use los_cara.Storage.Atomic.Put.{IsStored}
use los_cara.Storage.Atomic.Receive.{payload}
use los_cara.Storage.Live.Ready.{
  IsTarget, IsApart, tmp_target, data_target, json_target, meta_target,
}
use los_cara.Storage.Live.Files.{IsFree, IsOpen}
use los_cara.Storage.Live.PutObject.{put_object-completes, Encodes, Writable}
use los_cara.Tests.Atomic.{enclosed, env, env-IsLawful, tree, place, world, world-IsFresh}

abbrev quiet : World
quiet = record world { io = [] }

env-Encodes : Encodes env []
env-Encodes m d plain owned = (
  m.size ∷ m.last_modified ∷ enclosed m.key (enclosed m.etag (enclosed m.content_type d)),
  rw (plain, owned) refl,
)

place-IsApart : IsApart env [] place
unfolding is_within tmp_file object_dir codes path_eq text_eq join
place-IsApart n = refl

abbrev bucket_meta : FilePath
bucket_meta = codes "meta.json" ∷ codes "b" ∷ codes "buckets" ∷ []

-- The one file of the tree.
one_file : (q : FilePath) (s : Text) → path_eq bucket_meta q ≡ false → lookup q tree ≢ some (file s)
unfolding lookup
one_file q s other is = ground arith

bucket_meta-apart : is_within bucket_meta place ≡ false
unfolding is_within object_dir codes path_eq text_eq join
bucket_meta-apart = refl

quiet-IsOpen : IsOpen place tree
quiet-IsOpen q s within is = elim (Bool-cases (path_eq bucket_meta q)) [
  | inl same ↦ cc (within, (path_eq_iff bucket_meta q).0 same, bucket_meta-apart)
  | inr other ↦ one_file q s other is
]

targets-IsFree : (t : FilePath) → IsTarget env [] place t → IsFree t tree
unfolding codes lookup tmp_file object_dir data_name path_eq with_extension text_eq
targets-IsFree t (tmp_target n) = refl
targets-IsFree t (data_target n) = refl
targets-IsFree t (json_target n) = refl
targets-IsFree t meta_target = refl

quiet-Writable : Writable env [] (codes "b") (codes "k") tree
unfolding codes lookup path_eq text_eq bucket_dir join
quiet-Writable = (refl, ((refl, targets-IsFree), quiet-IsOpen))

put_object-completes_example :
    (r : PutResult) × (w' : World) × (put_object env []
        (codes "b")
        (codes "k")
        (map ok (codes "he" ∷ codes "llo" ∷ []))
        (codes "text/plain")
        []
        quiet
      ≡ (done r, w'))
    × IsStored env tree place
        (codes "k")
        (codes "text/plain")
        []
        (payload (map ok (codes "he" ∷ codes "llo" ∷ [])))
        r.meta
        w'.fs
put_object-completes_example =
    put_object-completes env env-IsLawful [] (codes "b") (codes "k") place-IsApart
      (codes "he" ∷ codes "llo" ∷ []) (codes "text/plain") [] quiet env-Encodes refl quiet-Writable
      world-IsFresh (unfold codes in refl) (unfold codes in omega arith)
