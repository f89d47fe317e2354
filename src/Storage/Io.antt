-- ===== src/Storage/Io.antt =====
-- Running src/storage.rs: each system call of `tokio::fs` may go through, fail, or be the point
-- where the process is killed, as a list of verdicts says (when the list is used up, the rest go
-- through). `World` also counts the uuids drawn and the clock readings.
use los_cara.Base.{ℕ, suc, List, [], ◌∷◌, Text}
use los_cara.Error.{Result, ok, err}
use los_cara.Storage.Fs.{Fs}

pub data IoKind : Type 0 where
  not_found invalid_data other : IoKind

-- `std::io::Error`: its kind, and its text as `to_string` gives it.
pub record IoError : Type 0 where
  pub kind : IoKind
  pub text : Text

-- The number is how many bytes of a write got through before the failure or the kill.
pub data Verdict : Type 0 where
  proceed : Verdict
  fail : IoError → ℕ → Verdict
  kill : ℕ → Verdict

pub record World : Type 0 where
  pub fs : Fs
  pub io : List Verdict
  pub draws : ℕ
  pub ticks : ℕ

pub data Outcome {ℓ κ} (E : Type ℓ) (A : Type κ) : Type (ℓ ⊔ κ) where
  done : A → Outcome E A
  failed : E → Outcome E A
  killed : Outcome E A

abbrev pub M : Type 0 → Type 0 → Type 0
M E A = World → Outcome E A × World

abbrev pub Io : Type 0 → Type 0
Io A = M IoError A

module _ {E A : Type 0} where
  unfoldable pub pure : A → M E A
  pure a w = (done a, w)

  unfoldable pub raise : E → M E A
  raise e w = (failed e, w)

module _ {E A B : Type 0} where
  abbrev pub continue : Outcome E A → (A → M E B) → M E B
  continue (done a) f w = f a w
  continue (failed e) f w = (failed e, w)
  continue killed f w = (killed, w)

  infixl 5 ◌>>=◌ ◌>>◌
  unfoldable pub ◌>>=◌ : M E A → (A → M E B) → M E B
  unfolding pure raise
  ◌>>=◌ m f w = let (r, w') = m w in continue r f w'

  abbrev pub ◌>>◌ : M E A → M E B → M E B
  m >> n = m >>= λ _. n

module _ {E F A : Type 0} where
  abbrev pub settle : (E → M F A) → Outcome E A → M F A
  settle h (done a) w = (done a, w)
  settle h (failed e) w = h e w
  settle h killed w = (killed, w)

  -- A `match` on the result that goes on from an error.
  unfoldable pub catch : M E A → (E → M F A) → M F A
  catch m h w = let (r, w') = m w in settle h r w'

-- `map_err(f)`.
unfoldable pub map_err : {E F A : Type 0} → (E → F) → M E A → M F A
unfolding catch raise
map_err f m = catch m (λ e. raise (f e))

-- `let _ = …`.
unfoldable pub ignore : {E F : Type 0} → M E Unit → M F Unit
unfolding catch pure
ignore m = catch m (λ e. pure tt)

-- A result that is computed from the file system, and the file system that the call leaves; beside
-- it, what is left if only some bytes get through.
abbrev pub settle_call : {A : Type 0} → Result IoError (A × Fs) → World → Outcome IoError A × World
settle_call (ok (a, fs)) w = (done a, record w { fs = fs })
settle_call (err e) w = (failed e, w)

module _ {A : Type 0} (call : Fs → Result IoError (A × Fs)) (torn : ℕ → Fs → Fs) where
  unfoldable pub under : Verdict → World → Outcome IoError A × World
  under proceed w = settle_call (call w.fs) w
  under (fail e k) w = (failed e, record w { fs = torn k w.fs })
  under (kill k) w = (killed, record w { fs = torn k w.fs })

  unfoldable pub run_call : List Verdict → World → Outcome IoError A × World
  run_call [] w = settle_call (call w.fs) w
  run_call (v ∷ vs) w = under v (record w { io = vs })

  unfoldable pub syscall : Io A
  unfolding run_call under
  syscall w = run_call w.io w

module _ {E : Type 0} where
  -- The number of the next uuid, and of the next reading of the clock.
  unfoldable pub draw : M E ℕ
  draw w = (done w.draws, record w { draws = suc w.draws })

  unfoldable pub tick : M E ℕ
  tick w = (done w.ticks, record w { ticks = suc w.ticks })
