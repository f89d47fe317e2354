-- ===== src/Tests/ReadBack.antt =====
-- A run of `put_object` and then `get_object` of src/storage.rs.
use los_cara.Base.{◌≡◌, refl, some, [], codes, text_eq, ends_with}
use los_cara.Storage.Fs
use los_cara.Storage.Fs.{file, lookup, child, path_eq, entries}
use los_cara.Storage.Io.{done, ◌>>=◌, World, map_err, tick}
use los_cara.Storage.Calls.{create_dir_all, rename, write}
use los_cara.Storage.Types.{PutResult}
use los_cara.Storage.Names.{bucket_dir, meta_name, tmp_file, object_dir, data_name, with_extension}
use los_cara.Storage.Buckets.{require_bucket}
use los_cara.Storage.Objects.{put_object, write_staged, stage, install, get_object}
use los_cara.Storage.Atomic.Receive.{payload}
use los_cara.Storage.Atomic.Put.{IsFresh}
use los_cara.Storage.Atomic.GetObject.{get_object-put_object}
use los_cara.Tests.Atomic.{hash, env, tree, body, place, env-IsLawful, world-IsFresh}

-- The same call where nothing fails.
abbrev pub quiet : World
quiet = record { fs = tree; io = []; draws = 0; ticks = 0 }

abbrev pub saved : PutResult
saved = record {
  meta = record {
    key = codes "k";
    size = 5;
    etag = codes "hello";
    content_type = codes "text/plain";
    last_modified = 0;
    metadata = [];
    data_file = some (codes "123e4567-e89b-42d3-a456-426614174000.data");
  };
  sha256_hex = hash;
  content_md5_hex = codes "hello";
}

abbrev pub quiet_after : World
quiet_after = (put_object env [] (codes "b") (codes "k") body (codes "text/plain") [] quiet).1

pub quiet_put :
    put_object env [] (codes "b") (codes "k") body (codes "text/plain") [] quiet
    ≡ (done saved, quiet_after)
unfolding put_object write_staged ◌>>=◌ codes lookup path_eq require_bucket text_eq Fs.join stage
    map_err tmp_file create_dir_all object_dir Fs.set rename data_name tick install write
    with_extension entries ends_with
quiet_put = refl

pub quiet-IsFresh : IsFresh env [] place quiet.draws quiet.fs
quiet-IsFresh = record {
  no_tmp = world-IsFresh.no_tmp;
  no_data = world-IsFresh.no_data;
  no_json = world-IsFresh.no_json;
}

pub bucket_there : lookup (child (bucket_dir [] (codes "b")) meta_name) quiet.fs ≡ some (file [])
unfolding lookup path_eq text_eq codes bucket_dir Fs.join
bucket_there = refl

get_object-put_object_example :
    get_object env [] (codes "b") (codes "k") (record quiet_after { io = [] })
    ≡ (done (saved.meta, payload body), record quiet_after { io = [] })
get_object-put_object_example =
    get_object-put_object env env-IsLawful [] (codes "b") (codes "k") body (codes "text/plain") []
      quiet quiet_after saved quiet-IsFresh quiet_put [] bucket_there
