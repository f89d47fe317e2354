-- ===== src/Storage/Atomic/Hoare.antt =====
-- What a run guarantees: `Q` where it returns, `X` where it fails, `K` where it is killed.
use los_cara.Base.{ℕ, List, [], ◌∷◌, Bool, true, false, ◌≡◌, refl, if◌then◌else◌}
use los_cara.Error.{Result, ok, err}
use los_cara.Storage.Fs.{Fs}
use los_cara.Storage.Io.{
  World, M, Io, IoError, Outcome, done, failed, killed, Verdict, proceed, fail, kill, pure, raise,
  catch, map_err, syscall, settle_call, run_call, continue, settle, ◌>>=◌,
}
use los_cara.Storage.Json.{lift, checked}

abbrev pub Post :
    {E A : Type 0}
    → (A → World → Type 0)
    → (World → Type 0)
    → (World → Type 0)
    → Outcome E A × World
    → Type 0
Post Q X K (done a, w) = Q a w
Post Q X K (failed e, w) = X w
Post Q X K (killed, w) = K w

pub record Hoare {E A : Type 0} (P : World → Type 0) (m : M E A) (Q : A → World → Type 0)
    (X K : World → Type 0) : Type 0 where
  pub at : (w : World) → P w → Post Q X K (m w)

module _ {E A B : Type 0} {Q : A → World → Type 0} {R : B → World → Type 0}
    {X K : World → Type 0} where
  continue_rule :
      (r : Outcome E A × World) (f : A → M E B)
      → Post Q X K r
      → ((a : A) → Hoare (Q a) (f a) R X K)
      → Post R X K (continue r.0 f r.1)
  continue_rule (done a, w) f h k = (k a).at w h
  continue_rule (failed e, w) f h k = h
  continue_rule (killed, w) f h k = h

  pub bind_rule :
      {P : World → Type 0} {m : M E A} {f : A → M E B}
      → Hoare P m Q X K
      → ((a : A) → Hoare (Q a) (f a) R X K)
      → Hoare P (m >>= f) R X K
  unfolding ◌>>=◌
  bind_rule {m} {f} h k = record { at = λ w p. continue_rule (m w) f (h.at w p) k }

module _ {E F A : Type 0} {Q : A → World → Type 0} {X Y K : World → Type 0} where
  settle_rule :
      (r : Outcome E A × World) (h : E → M F A)
      → Post Q X K r
      → ((e : E) → Hoare X (h e) Q Y K)
      → Post Q Y K (settle h r.0 r.1)
  settle_rule (done a, w) h p k = p
  settle_rule (failed e, w) h p k = (k e).at w p
  settle_rule (killed, w) h p k = p

  pub catch_rule :
      {P : World → Type 0} {m : M E A} {h : E → M F A}
      → Hoare P m Q X K
      → ((e : E) → Hoare X (h e) Q Y K)
      → Hoare P (catch m h) Q Y K
  unfolding catch
  catch_rule {m} {h} p k = record { at = λ w s. settle_rule (m w) h (p.at w s) k }

module _ {E A : Type 0} {X K : World → Type 0} where
  pub pure_rule : {Q : A → World → Type 0} (a : A) → Hoare {E = E} (Q a) (pure a) Q X K
  unfolding pure
  pure_rule a = record { at = λ w h. h }

  pub raise_rule : {Q : A → World → Type 0} (e : E) → Hoare {A = A} X (raise e) Q X K
  unfolding raise
  raise_rule e = record { at = λ w h. h }

  pub lift_rule :
      {Q : A → World → Type 0} {P : World → Type 0} (r : Result E A)
      → ((w : World) → P w → X w)
      → ((a : A) → r ≡ ok a → (w : World) → P w → Q a w)
      → Hoare P (lift r) Q X K
  unfolding lift pure raise
  lift_rule (ok a) x q = record { at = λ w h. q a refl w h }
  lift_rule (err e) x q = record { at = λ w h. x w h }

module _ {E A : Type 0} where
  Post-weaken :
      {Q R : A → World → Type 0} {X Y K L : World → Type 0} (r : Outcome E A × World)
      → ((a : A) (w : World) → Q a w → R a w)
      → ((w : World) → X w → Y w)
      → ((w : World) → K w → L w)
      → Post Q X K r
      → Post R Y L r
  Post-weaken (done a, w) q x k h = q a w h
  Post-weaken (failed e, w) q x k h = x w h
  Post-weaken (killed, w) q x k h = k w h

  pub weaken_rule :
      {P S : World → Type 0} {Q R : A → World → Type 0} {X Y K L : World → Type 0} {m : M E A}
      → ((w : World) → S w → P w)
      → ((a : A) (w : World) → Q a w → R a w)
      → ((w : World) → X w → Y w)
      → ((w : World) → K w → L w)
      → Hoare P m Q X K
      → Hoare S m R Y L
  weaken_rule {m} p q x k h = record { at = λ w s. Post-weaken (m w) q x k (h.at w (p w s)) }

  pub if_rule :
      {P : World → Type 0} {Q : A → World → Type 0} {X K : World → Type 0} {m n : M E A} (b : Bool)
      → (b ≡ true → Hoare P m Q X K)
      → (b ≡ false → Hoare P n Q X K)
      → Hoare P (if b then m else n) Q X K
  if_rule true h k = h refl
  if_rule false h k = k refl

module _ {A : Type 0} {P : World → Type 0} {Q : A → World → Type 0} {X K : World → Type 0} where
  pub checked_rule : {m : Io A} → Hoare P m Q X K → Hoare P (checked m) Q X K
  unfolding checked map_err
  checked_rule h = catch_rule h (λ e. raise_rule _)

-- The rule of a call: `P`, `Q` and `X` speak of the file system and of the uuids drawn.
abbrev pub Facts : Type 1
Facts = Fs → ℕ → Type 0

abbrev pub In : Facts → World → Type 0
In P w = P w.fs w.draws

abbrev pub CallPost : {A : Type 0} → (A → Facts) → Facts → Fs → ℕ → Result IoError (A × Fs) → Type 0
CallPost Q X fs d (ok (a, fs')) = Q a fs' d
CallPost Q X fs d (err e) = X fs d

-- A branch of a call.
pub if_post :
    {A : Type 0} (Q : A → Facts) (X : Facts) (fs : Fs) (d : ℕ) (b : Bool)
    (r s : Result IoError (A × Fs))
    → CallPost Q X fs d r
    → CallPost Q X fs d s
    → CallPost Q X fs d (if b then r else s)
if_post Q X fs d true r s h k = h
if_post Q X fs d false r s h k = k

module _ {A : Type 0} (P X : Facts) (Q : A → Facts) (call : Fs → Result IoError (A × Fs))
    (torn : ℕ → Fs → Fs) (through : (fs : Fs) (d : ℕ) → P fs d → CallPost Q X fs d (call fs))
    (cut : (k : ℕ) (fs : Fs) (d : ℕ) → P fs d → X (torn k fs) d) where
  settle-Post :
      (r : Result IoError (A × Fs)) (w : World)
      → CallPost Q X w.fs w.draws r
      → Post (λ a. In (Q a)) (In X) (In X) (settle_call r w)
  settle-Post (ok (a, fs)) w h = h
  settle-Post (err e) w h = h

  run-Post :
      (vs : List Verdict) (w : World)
      → In P w
      → Post (λ a. In (Q a)) (In X) (In X) (run_call call torn vs w)
  unfolding syscall
  run-Post [] w h = settle-Post (call w.fs) w (through w.fs w.draws h)
  run-Post (proceed ∷ vs) w h =
      settle-Post (call w.fs) (record w { io = vs }) (through w.fs w.draws h)
  run-Post (fail e k ∷ vs) w h = cut k w.fs w.draws h
  run-Post (kill k ∷ vs) w h = cut k w.fs w.draws h

  pub syscall_rule : Hoare (In P) (syscall call torn) (λ a. In (Q a)) (In X) (In X)
  unfolding syscall
  syscall_rule = record { at = λ w h. run-Post w.io w h }
