-- ===== src/Tests/Buckets.antt =====
-- A bucket that is made.
use los_cara.Base.{◌≡◌, refl, ℕ, true, [], ◌∷◌, Text, codes, text_eq}
use los_cara.Error.{Result, ok, err}
use los_cara.Storage.Fs
use los_cara.Storage.Fs.{lookup, path_eq, dir}
use los_cara.Storage.Io.{World, done, catch, map_err, tick, draw, ◌>>=◌}
use los_cara.Storage.Calls.{create_dir_all, rename, write}
use los_cara.Storage.Types.{Env, BucketMeta}
use los_cara.Storage.Names.{valid_bucket_name, with_extension}
use los_cara.Storage.Buckets.{create_bucket, bucket_created}
use los_cara.Storage.Buckets.Created.{bucket_created-create_bucket}
use los_cara.Tests.Atomic.{env}

abbrev read_bucket : Text → Result Text BucketMeta
read_bucket [] = err (codes "truncated")
read_bucket (t ∷ s) = ok (record { name = s; created = t })

abbrev bucket_env : Env
bucket_env = record env {
  bucket_json = record { to_vec = λ m. ok (m.created ∷ m.name); from_slice = read_bucket };
}

bucket_roundtrip :
    (m : BucketMeta) (s : Text)
    → bucket_env.bucket_json.to_vec m ≡ ok s
    → bucket_env.bucket_json.from_slice s ≡ ok m
bucket_roundtrip m [] h = cc
bucket_roundtrip m (t ∷ s) h = cc

abbrev empty : World
empty = record { fs = []; io = []; draws = 0; ticks = 0 }

abbrev made : World
made = (create_bucket bucket_env [] (codes "b00") empty).1

create_ran : create_bucket bucket_env [] (codes "b00") empty ≡ (done true, made)
unfolding create_bucket catch valid_bucket_name ◌>>=◌ codes lookup path_eq text_eq Fs.join map_err
    create_dir_all Fs.set rename tick write with_extension draw
create_ran = refl

bucket_created-create_bucket_example :
    (t : ℕ) × (bucket_created bucket_env [] (codes "b00") (record made { io = [] })
      ≡ (done (bucket_env.now_ms t), record made { io = [] }))
bucket_created-create_bucket_example =
    bucket_created-create_bucket bucket_env [] (codes "b00") empty made bucket_roundtrip create_ran
