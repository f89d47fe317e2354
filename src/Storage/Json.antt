-- ===== src/Storage/Json.antt =====
-- `write_json_atomic` and `read_json`, and the ways in which the engine handles a failed call.
use los_cara.Base.{Option, none, some, ◌++◌, Text, codes}
use los_cara.Error
use los_cara.Error.{S3Error, Result, ok, err}
use los_cara.Storage.Fs.{FilePath}
use los_cara.Storage.Io.{
  M, Io, IoError, not_found, invalid_data, pure, raise, catch, map_err, draw, ◌>>=◌, ◌>>◌,
}
use los_cara.Storage.Calls.{Call, write, rename, read}
use los_cara.Storage.Names.{with_extension}
use los_cara.Storage.Types.{Env, Json}

-- `.map_err(|e| S3Error::internal(e.to_string()))`.
unfoldable pub checked : {A : Type 0} → Io A → M S3Error A
checked m = map_err (λ e. Error.internal e.text) m

unfoldable pub lift : {E A : Type 0} → Result E A → M E A
unfolding pure raise
lift (ok a) = pure a
lift (err e) = raise e

module _ {T : Type 0} (json : Json T) where
  unfoldable pub write_json_atomic : Env → FilePath → T → Call
  unfolding lift
  write_json_atomic env path value = do
    n ← draw
    let tmp = with_extension path (codes "tmp-" ++ env.uuid n)
    text ← lift (json.to_vec value)
    write tmp text
    rename tmp path

  unfoldable pub from_json : Text → Io T
  unfolding pure raise
  from_json text = elim (json.from_slice text) [
    | ok v ↦ pure v
    | err s ↦ raise (record { kind = invalid_data; text = s })
  ]

  unfoldable pub read_json : FilePath → Io T
  unfolding from_json
  read_json path = do text ← read path; from_json text

  -- `match read_json(…)`, with an error of its own for a file that is not there.
  abbrev pub or_internal : {A : Type 0} → S3Error → IoError → M S3Error A
  or_internal absent e = elim e.kind [
    | not_found ↦ raise absent
    | _ ↦ raise (Error.internal e.text)
  ]

  unfoldable pub read_or : FilePath → S3Error → M S3Error T
  unfolding read_json
  read_or path absent = catch (read_json path) (or_internal absent)

  -- `if let Ok(v) = read_json(…)`.
  unfoldable pub read_if : {E : Type 0} → FilePath → M E (Option T)
  unfolding read_json
  read_if path = catch (do v ← read_json path; pure (some v)) (λ e. pure none)
