-- ===== src/Storage/Live.antt =====
-- Runs of src/storage.rs in which no call is made to fail: what returns, and with which files.
pub mod Files
pub mod Steps
pub mod Ready
pub mod Staging
pub mod PutObject
use los_cara.Base.{◌≡◌, refl, sym, ◌∙◌, ap, subst, List, [], ◌∷◌, arith, ℕ, suc}
use los_cara.Error.{Result, ok, err}
use los_cara.Storage.Fs.{Fs}
use los_cara.Storage.Io.{
  World, M, Io, IoError, Outcome, Verdict, syscall, settle_call, run_call, draw, tick, pure,
}
use los_cara.Storage.Atomic.Hoare.{Hoare, Post}

abbrev pub Files : Type 1
Files = Fs → Type 0

-- No verdict is left, so that every call goes through.
abbrev pub Live : Files → World → Type 0
Live F w = (w.io ≡ []) × F w.fs

abbrev pub Never : World → Type 0
Never w = ⊥

-- The computation returns.
abbrev pub Returns : {E A : Type 0} → Files → M E A → (A → Files) → Type 0
Returns F m G = Hoare (Live F) m (λ a. Live (G a)) Never Never

module _ {A : Type 0} (F : Files) (G : A → Files) (call : Fs → Result IoError (A × Fs))
    (torn : ℕ → Fs → Fs) where
  pub call-Returns :
      ((fs : Fs) → F fs → (a : A) × (fs' : Fs) × (call fs ≡ ok (a, fs')) × G a fs')
      → Returns F (syscall call torn) G
  unfolding syscall
  call-Returns through = record { at = λ w h. go w h.1 w.io h.0 h.0 }
    where
      go :
          (w : World)
          → F w.fs
          → (vs : List Verdict) → vs ≡ []
          → w.io ≡ []
          → Post (λ a. Live (G a)) Never Never (run_call call torn vs w)
      go w f [] h k =
          let (a, fs', is, g) = through w.fs f in
          subst (λ r. Post (λ a. Live (G a)) Never Never (settle_call r w)) (sym is) (k, g)
      go w f (v ∷ vs) h k = absurd (cons_nil h)
        where
          cons_nil : (v ∷ vs) ≡ [] → ⊥
          cons_nil h = cc

module _ {A : Type 0} (call : Fs → Result IoError (A × Fs)) (torn : ℕ → Fs → Fs) where
  -- A call that may fail.
  pub call_ends :
      Hoare
        (Live (λ fs. Unit {0}))
        (syscall call torn)
        (λ a. Live (λ fs. Unit {0}))
        (Live (λ fs. Unit {0}))
        Never
  unfolding syscall
  call_ends = record { at = λ w h. go w w.io h.0 h.0 }
    where
      settled :
          (w : World)
          → w.io ≡ []
          → (r : Result IoError (A × Fs))
          → Post (λ a. Live (λ fs. Unit {0})) (Live (λ fs. Unit {0})) Never (settle_call r w)
      settled w k (ok (a, fs')) = (k, tt)
      settled w k (err e) = (k, tt)

      go :
          (w : World) (vs : List Verdict)
          → vs ≡ []
          → w.io ≡ []
          → Post
              (λ a. Live (λ fs. Unit {0}))
              (Live (λ fs. Unit {0}))
              Never
              (run_call call torn vs w)
      go w [] h k = settled w k (call w.fs)
      go w (v ∷ vs) h k = absurd (cons_nil h)
        where
          cons_nil : (v ∷ vs) ≡ [] → ⊥
          cons_nil h = cc

module _ {E : Type 0} (F : Files) where
  pub draw-Returns : Returns {E = E} F draw (λ n. F)
  unfolding draw
  draw-Returns = record { at = λ w h. h }

  pub tick-Returns : Returns {E = E} F tick (λ n. F)
  unfolding tick
  tick-Returns = record { at = λ w h. h }
