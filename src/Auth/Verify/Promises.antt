-- ===== src/Auth/Verify/Promises.antt =====
-- What the results of src/auth.rs promise, step by step.
use los_cara.Base.{◌≡◌, refl, Bool, true, false, not, Option, none, some, if◌then◌else◌, Text}
use los_cara.Error.{S3Error, Result, ok, err}
use los_cara.Auth.Verify.{Verified, AuthResult, required, as_result}

-- What a result promises where it is no error.
abbrev pub Promised : {A : Type 0} → (A → Type 0) → Result S3Error A → Type 0
Promised P (ok a) = P a
Promised P (err e) = Unit

pub record Holds {A : Type 0} (P : A → Type 0) (r : Result S3Error A) : Type 0 where
  pub at : Promised P r

pub err-Holds : {A : Type 0} {P : A → Type 0} {e : S3Error} → Holds P (err e)
err-Holds = record { at = tt }

pub guarded-Holds :
    (P : Verified → Type 0) (b : Bool) (e : S3Error) (r : Result S3Error Verified)
    → (b ≡ true → Holds P r)
    → Holds P (if not b then err e else r)
guarded-Holds P true e r h = h refl
guarded-Holds P false e r h = err-Holds

pub required-Holds :
    (P : Verified → Type 0) (o : Option Text) (k : Text → Result S3Error Verified)
    → ((s : Text) → o ≡ some s → Holds P (k s))
    → Holds P (required o k)
unfolding required
required-Holds P none k h = err-Holds
required-Holds P (some s) k h = h s refl

pub as_result-Holds :
    (k : Verified → AuthResult) (P : Verified → Type 0) (R : AuthResult → Type 0)
    (r : Result S3Error Verified)
    → ((v : Verified) → P v → R (k v))
    → Holds P r
    → Holds R (as_result k r)
unfolding as_result
as_result-Holds k P R (err e) h p = err-Holds
as_result-Holds k P R (ok v) h p = record { at = h v p.at }
