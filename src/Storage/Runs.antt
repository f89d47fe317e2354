-- ===== src/Storage/Runs.antt =====
-- What a run that returned says of its steps, for the computations of Storage/Io.antt.
use los_cara.Base.{◌≡◌, refl}
use los_cara.Error.{Result, ok, err}
use los_cara.Storage.Io.{
  M, World, Outcome, done, failed, killed, ◌>>=◌, continue, catch, settle, ignore, raise, pure,
}
use los_cara.Storage.Json.{lift}

-- A computation and what it comes to from a world.
pub record Runs {E A : Type 0} (m : M E A) (w : World) (r : Outcome E A × World) : Type 0 where
  pub at : m w ≡ r

pub ignore_at :
    {E F : Type 0} {m : M E Unit} {w w₁ : World}
    → Runs m w (done tt, w₁)
    → Runs (ignore {F = F} m) w (done tt, w₁)
unfolding ignore catch pure
ignore_at h = record { at = rw h.at refl }

module _ {E A : Type 0} where
  pub bind-done :
      {B : Type 0} (m : M E A) (f : A → M E B) (w w' : World) (b : B)
      → (m >>= f) w ≡ (done b, w')
      → (a : A) × (w₁ : World) × (m w ≡ (done a, w₁)) × (f a w₁ ≡ (done b, w'))
  unfolding ◌>>=◌
  bind-done {B = B} m f w w' b = go (m w) refl
    where
      go :
          (r : Outcome E A × World)
          → m w ≡ r
          → continue r.0 f r.1 ≡ (done b, w')
          → (a : A) × (w₁ : World) × (m w ≡ (done a, w₁)) × (f a w₁ ≡ (done b, w'))
      go (done a, w₁) h k = (a, w₁, h, k)
      go (failed e, w₁) h k = cc
      go (killed, w₁) h k = cc

  pub bind_at :
      {B : Type 0} (m : M E A) (f : A → M E B) {w w₁ : World} {a : A} {r : Outcome E B × World}
      → Runs m w (done a, w₁)
      → Runs (f a) w₁ r
      → Runs (m >>= f) w r
  unfolding ◌>>=◌
  bind_at m f h k = record { at = rw h.at k.at }

  pub catch-raise-done :
      {F : Type 0} (m : M E A) (g : E → F) (w w' : World) (a : A)
      → catch m (λ e. raise (g e)) w ≡ (done a, w')
      → m w ≡ (done a, w')
  unfolding catch raise
  catch-raise-done {F = F} m g w w' a = go (m w) refl
    where
      go :
          (r : Outcome E A × World)
          → m w ≡ r
          → settle (λ e. raise (g e)) r.0 r.1 ≡ (done a, w')
          → m w ≡ (done a, w')
      go (done x, w₁) h k = cc
      go (failed e, w₁) h k = cc
      go (killed, w₁) h k = cc

  pub lift-done :
      (r : Result E A) (w w' : World) (a : A) → lift r w ≡ (done a, w') → (r ≡ ok a) × (w ≡ w')
  unfolding lift pure raise
  lift-done (ok x) w w' a h = (cc, cc)
  lift-done (err e) w w' a h = cc
