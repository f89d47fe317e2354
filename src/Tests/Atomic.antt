-- ===== src/Tests/Atomic.antt =====
-- A run of `put_object` of src/storage.rs, with simple stand-ins for the crates.
use los_cara.Base.{
  ℕ, ◌≡◌, subst, refl, ap, Option, some, none, [], ◌∷◌, ◌++◌, ◌⊎◌, Text, codes, length, take, drop,
  has_byte, text_eq,
}
use los_cara.Error.{Result, ok, err}
use los_cara.Storage.Fs.{FilePath, Fs, Node, dir, file, lookup, child, path_eq}
use los_cara.Storage.Io.{World, IoError, IoKind, fail, proceed}
use los_cara.Storage.Types.{Env, ObjectMeta, Metadata, Json}
use los_cara.Storage.Names.{with_extension, meta_name, data_name, object_dir, tmp_file}
use los_cara.Storage.Objects.{Body, put_object}
use los_cara.Storage.Atomic.Hoare.{Post}
use los_cara.Storage.Atomic.Steps.{IsOld}
use los_cara.Storage.Atomic.Receive.{payload}
use los_cara.Storage.Atomic.Laws.{IsLawful}
use los_cara.Storage.Atomic.Put.{IsFresh, IsStored}
use los_cara.Storage.Atomic.PutObject.{put_object-atomic}

-- A text with its length before it.
abbrev pub enclosed : Text → Text → Text
enclosed s rest = length s ∷ (s ++ rest)

abbrev opened : {A : Type 0} → Text → (Text → Text → Result Text A) → Result Text A
opened [] k = err (codes "truncated")
opened (n ∷ s) k = k (take n s) (drop n s)

take-append : (s t : Text) → take (length s) (s ++ t) ≡ s
take-append [] t = refl
take-append (x ∷ s) t = ap (λ r. x ∷ r) (take-append s t)

drop-append : (s t : Text) → drop (length s) (s ++ t) ≡ t
drop-append [] t = refl
drop-append (x ∷ s) t = drop-append s t

opened-enclosed :
    {A : Type 0} (s rest : Text) (k : Text → Text → Result Text A)
    → opened (enclosed s rest) k ≡ k s rest
opened-enclosed s rest k = rw (take-append s rest, drop-append s rest) refl

-- An encoding of metadata that names no user metadata and has a data file.
abbrev write_meta : ObjectMeta → Result IoError Text
write_meta m = elim m.metadata [
  | _ ∷ _ ↦ err (record { kind = IoKind.other; text = codes "unsupported" })
  | [] ↦ elim m.data_file [
    | none ↦ err (record { kind = IoKind.other; text = codes "unsupported" })
    | some d ↦
        ok (m.size ∷ m.last_modified ∷ enclosed m.key (enclosed m.etag (enclosed m.content_type d)))
  ]
]

abbrev read_meta : Text → Result Text ObjectMeta
read_meta [] = err (codes "truncated")
read_meta (n ∷ []) = err (codes "truncated")
read_meta (n ∷ t ∷ s) = opened s λ key rest. opened rest λ etag rest'.
    opened rest' λ content_type d. ok (record {
      key = key;
      size = n;
      etag = etag;
      content_type = content_type;
      last_modified = t;
      metadata = [];
      data_file = some d;
    })

abbrev unused : {T : Type 0} → Json T
unused = record {
  to_vec = λ m. err (record { kind = IoKind.other; text = [] });
  from_slice = λ s. err [];
}

abbrev pub hash : Text
hash = codes "e3b0c44298fc1c149afbf4c8996fb92427ae41e4649b934ca495991b7852b855"

abbrev pub env : Env
env = record {
  uuid = λ n. codes "123e4567-e89b-42d3-a456-426614174000";
  now_ms = λ t. 0;
  md5 = λ s. s;
  sha256 = λ s. hash;
  hex_encode = λ s. s;
  hex_decode = λ s. some s;
  bucket_json = unused;
  object_json = record { to_vec = write_meta; from_slice = read_meta };
  manifest_json = unused;
}

pub env-IsLawful : IsLawful env
unfolding codes has_byte
env-IsLawful = record {
  uuid_length = λ n. refl;
  uuid_plain = λ n. refl;
  hash_length = λ s. refl;
  object_roundtrip = roundtrip;
}
  where
    fields :
        (key : Text) (n : ℕ) (etag content_type : Text) (t : ℕ) (metadata : Metadata)
        (data_file : Option Text)
        → ObjectMeta
    fields key n etag content_type t metadata data_file = record {
      key = key;
      size = n;
      etag = etag;
      content_type = content_type;
      last_modified = t;
      metadata = metadata;
      data_file = data_file;
    }

    ReadAs : ObjectMeta → Result IoError Text → Type 0
    ReadAs m (ok s) = read_meta s ≡ ok m
    ReadAs m (err e) = Unit

    read_back :
        (key : Text) (n : ℕ) (etag content_type : Text) (t : ℕ) (metadata : Metadata)
        (data_file : Option Text) (s : Text)
        → write_meta (fields key n etag content_type t metadata data_file) ≡ ok s
        → read_meta s ≡ ok (fields key n etag content_type t metadata data_file)
    read_back key n etag content_type t (_ ∷ _) data_file s h = subst (ReadAs _) h tt
    read_back key n etag content_type t [] none s h = subst (ReadAs _) h tt
    read_back key n etag content_type t [] (some d) s h =
        subst (ReadAs (fields key n etag content_type t [] (some d))) h
          (rw (opened-enclosed key, opened-enclosed etag, opened-enclosed content_type) refl)

    roundtrip : (m : ObjectMeta) (s : Text) → write_meta m ≡ ok s → read_meta s ≡ ok m
    roundtrip m =
        read_back m.key m.size m.etag m.content_type m.last_modified m.metadata m.data_file

abbrev pub tree : Fs
tree =
    (codes "buckets" ∷ [], dir)
    ∷ (codes "b" ∷ codes "buckets" ∷ [], dir)
    ∷ (codes "meta.json" ∷ codes "b" ∷ codes "buckets" ∷ [], file [])
    ∷ (codes "tmp" ∷ [], dir)
    ∷ []

abbrev full_disk : IoError
full_disk = record { kind = IoKind.other; text = codes "No space left on device" }

-- The fifth call fails, which writes the second chunk.
abbrev pub world : World
world = record {
  fs = tree;
  io = proceed ∷ proceed ∷ proceed ∷ fail full_disk 1 ∷ [];
  draws = 0;
  ticks = 0;
}

abbrev Absent : Option Node → Type 0
Absent none = Unit
Absent (some n) = ⊥

pub world-IsFresh : IsFresh env [] (object_dir env [] (codes "b") (codes "k")) world.draws world.fs
unfolding codes lookup tmp_file object_dir data_name path_eq text_eq with_extension
world-IsFresh = record {
  no_tmp = λ n s le h. absurd (subst Absent h tt);
  no_data = λ n s le h. absurd (subst Absent h tt);
  no_json = λ n s le h. absurd (subst Absent h tt);
}

abbrev pub body : Body
body = ok (codes "he") ∷ ok (codes "llo") ∷ []

abbrev pub place : FilePath
place = object_dir env [] (codes "b") (codes "k")

put_object-atomic_example :
    Post
      (λ r w'.
        IsStored env world.fs place (codes "k") (codes "text/plain") [] (payload body) r.meta w'.fs)
      (λ w'. IsOld world.fs (child place meta_name) world.draws w'.fs w'.draws)
      (λ w'.
        IsOld world.fs (child place meta_name) world.draws w'.fs w'.draws
        ⊎ ((meta : ObjectMeta) × IsStored env world.fs place
              (codes "k")
              (codes "text/plain")
              []
              (payload body)
              meta
              w'.fs))
      (put_object env [] (codes "b") (codes "k") body (codes "text/plain") [] world)
put_object-atomic_example =
    put_object-atomic env env-IsLawful [] (codes "b") (codes "k") body (codes "text/plain") [] world
      world-IsFresh
