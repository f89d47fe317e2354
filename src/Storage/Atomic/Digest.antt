-- ===== src/Storage/Atomic/Digest.antt =====
-- The digest that `put_object` of src/storage.rs returns beside the metadata.
use los_cara.Base.{◌≡◌, refl, subst, Bool, true, false, ℕ, Text, if◌then◌else◌}
use los_cara.Error.{S3Error}
use los_cara.Storage.Fs.{FilePath}
use los_cara.Storage.Io.{World, M, done, pure, raise, ◌>>=◌}
use los_cara.Storage.Types.{Env, Metadata, PutResult}
use los_cara.Storage.Runs.{bind-done}
use los_cara.Storage.Objects.{Body, write_staged, put_object}

-- What a computation returns, whenever it returns, satisfies `P`.
record Yields {A : Type 0} (P : A → Type 0) (m : M S3Error A) : Type 0 where
  at : (w w' : World) (a : A) → m w ≡ (done a, w') → P a

module _ {A B : Type 0} (P : B → Type 0) where
  bind-Yields :
      (m : M S3Error A) (f : A → M S3Error B) → ((a : A) → Yields P (f a)) → Yields P (m >>= f)
  bind-Yields m f h = record {
    at = λ w w' b ran. let (a, w₁, first, rest) = bind-done m f w w' b ran in (h a).at w₁ w' b rest;
  }

abbrev IsSummed : PutResult → Type 0
IsSummed r = r.content_md5_hex ≡ r.meta.etag

pure-Yields : {A : Type 0} (P : A → Type 0) (a : A) → P a → Yields P (pure a)
unfolding pure
pure-Yields {A = A} P a h = record { at = λ w w' r ran. subst P (value w w' r ran) h }
  where
    value : (w w' : World) (r : A) → pure {E = S3Error} a w ≡ (done r, w') → a ≡ r
    value w w' r ran = cc

raise-Yields : {A : Type 0} (P : A → Type 0) (e : S3Error) → Yields P (raise e)
unfolding raise
raise-Yields {A = A} P e = record { at = λ w w' r ran. absurd (clash w w' r ran) }
  where
    clash : (w w' : World) (r : A) → raise e w ≡ (done r, w') → ⊥
    clash w w' r ran = cc

if_Yields :
    {A : Type 0} (P : A → Type 0) (b : Bool) (m n : M S3Error A)
    → Yields P m
    → Yields P n
    → Yields P (if b then m else n)
if_Yields P true m n h k = h
if_Yields P false m n h k = k

module _ (env : Env) (root : FilePath) (bucket key : Text) where
  write_staged-IsSummed :
      (content_type : Text) (metadata : Metadata) (staged : FilePath × ℕ × Text)
      → Yields IsSummed (write_staged env root bucket key content_type metadata staged)
  unfolding write_staged
  write_staged-IsSummed content_type metadata staged = bind-Yields IsSummed _ _ λ _.
      bind-Yields IsSummed _ _ λ m.
        bind-Yields IsSummed _ _ λ _.
          bind-Yields IsSummed _ _ λ t. bind-Yields IsSummed _ _ λ _. pure-Yields IsSummed _ refl

  -- The md5 digest that a returned call gives is the etag of the object.
  pub put_object-summed :
      (body : Body) (content_type : Text) (metadata : Metadata) (w w' : World) (r : PutResult)
      → put_object env root bucket key body content_type metadata w ≡ (done r, w')
      → r.content_md5_hex ≡ r.meta.etag
  unfolding put_object
  put_object-summed body content_type metadata = yields.at
    where
      yields : Yields IsSummed (put_object env root bucket key body content_type metadata)
      yields = bind-Yields IsSummed _ _ λ _.
          if_Yields IsSummed _ _ _ (raise-Yields IsSummed _)
            (bind-Yields IsSummed _ _ (write_staged-IsSummed content_type metadata))
