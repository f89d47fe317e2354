-- ===== src/Storage/Atomic/PutObject.antt =====
-- What `put_object` of src/storage.rs leaves behind, however it ends.
use los_cara.Base.{refl, arith, ◌⊎◌, Text}
use los_cara.Storage.Fs.{FilePath, child}
use los_cara.Storage.Io.{World}
use los_cara.Storage.Types.{Env, ObjectMeta, Metadata}
use los_cara.Storage.Names.{meta_name, object_dir}
use los_cara.Storage.Objects.{Body, put_object}
use los_cara.Storage.Atomic.Hoare.{Post}
use los_cara.Storage.Atomic.Steps.{IsOld}
use los_cara.Storage.Atomic.Receive.{payload}
use los_cara.Storage.Atomic.Laws.{IsLawful}
use los_cara.Storage.Atomic.Put.{IsFresh, IsStored, put_rule}

-- Under the promises of the crates, where no file stands under a uuid that is still to be drawn,
-- and whatever call fails or is cut short by a kill: a call that returns leaves the object with the
-- whole body and the metadata it returns, and no file of another directory changed; a call that
-- reports an error leaves every file of before as it was, and so the old version; a kill leaves one
-- of the two.
pub put_object-atomic :
    (env : Env) (law : IsLawful env) (root : FilePath) (bucket key : Text) (body : Body)
    (content_type : Text) (metadata : Metadata) (w : World)
    → IsFresh env root (object_dir env root bucket key) w.draws w.fs
    → Post
        (λ r w'.
          IsStored env w.fs
            (object_dir env root bucket key)
            key
            content_type
            metadata
            (payload body)
            r.meta
            w'.fs)
        (λ w'. IsOld w.fs (child (object_dir env root bucket key) meta_name) w.draws w'.fs w'.draws)
        (λ w'.
          IsOld w.fs (child (object_dir env root bucket key) meta_name) w.draws w'.fs w'.draws
          ⊎ ((meta : ObjectMeta) × IsStored env w.fs
                (object_dir env root bucket key)
                key
                content_type
                metadata
                (payload body)
                meta
                w'.fs))
        (put_object env root bucket key body content_type metadata w)
put_object-atomic env law root bucket key body content_type metadata w fresh =
    (put_rule env law root bucket key body content_type metadata w.fs w.draws fresh).at w
      (record { kept = λ p s h. h; meta_kept = refl; drawn = omega arith })
