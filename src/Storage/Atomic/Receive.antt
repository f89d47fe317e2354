-- ===== src/Storage/Atomic/Receive.antt =====
-- The loop over a request body in src/storage.rs: the temporary file holds what has arrived.
use los_cara.Base.{
  ℕ, ◌+◌, ◌≤◌, ltb, le_of_ltb, ◌≡◌, sym, ◌∙◌, [], ◌∷◌, ◌++◌, append_assoc, append-nil, arith, Text,
  length, length-append,
}
use los_cara.Error.{ok, err}
use los_cara.Storage.Fs.{FilePath, Fs}
use los_cara.Storage.Types.{max_object_size}
use los_cara.Storage.Objects.{Body, receive}
use los_cara.Storage.Atomic.Hoare.{
  Hoare, Facts, In, catch_rule, pure_rule, bind_rule, if_rule, weaken_rule,
}
use los_cara.Storage.Atomic.Steps.{IsOld, IsSpare, Staged, write_all_rule, give_up_rule}

-- The bytes of the chunks that arrived.
abbrev pub payload : Body → Text
payload [] = []
payload (ok chunk ∷ body) = chunk ++ payload body
payload (err e ∷ body) = payload body

-- The staging phase.
module _ (fs₀ : Fs) (mp : FilePath) (d₀ : ℕ) where
  abbrev Old : Facts
  Old = IsOld fs₀ mp d₀

  abbrev pub IsReceived : Body → Text → ℕ × Text → Type 0
  IsReceived body seen r =
      (r.0 ≡ length r.1) × (r.1 ≡ seen ++ payload body) × (r.0 ≤ max_object_size)

  pub receive_rule :
      (tmp : FilePath) (size : ℕ) (seen : Text) (body : Body)
      → IsSpare fs₀ mp tmp
      → size ≡ length seen
      → size ≤ max_object_size
      → Hoare
          (In (Staged fs₀ mp d₀ tmp seen))
          (receive tmp size seen body)
          (λ r w. IsReceived body seen r × In (Staged fs₀ mp d₀ tmp r.1) w)
          (In Old)
          (In Old)
  unfolding receive
  receive_rule tmp size seen [] sp e le =
      weaken_rule (λ w h. ((e, sym (append-nil seen), le), h)) (λ a w h. h) (λ w h. h) (λ w h. h)
        (pure_rule (size, seen))
  receive_rule tmp size seen (err s ∷ body) sp e le =
      weaken_rule (λ w h. h.0) (λ a w h. h) (λ w h. h) (λ w h. h)
        (give_up_rule fs₀ mp d₀
          (λ r w. IsReceived (err s ∷ body) seen r × In (Staged fs₀ mp d₀ tmp r.1) w) tmp s sp)
  receive_rule tmp size seen (ok chunk ∷ body) sp e le =
      if_rule (ltb max_object_size (size + length chunk))
        (λ _.
          weaken_rule (λ w h. h.0) (λ a w h. h) (λ w h. h) (λ w h. h)
            (give_up_rule fs₀ mp d₀ _ tmp _ sp))
        (λ fits.
          bind_rule
            (catch_rule (write_all_rule fs₀ mp d₀ tmp seen chunk sp)
              (λ _. give_up_rule fs₀ mp d₀ _ tmp _ sp))
            (λ _.
              weaken_rule (λ w h. h)
                (λ r w h. ((h.0.0, h.0.1 ∙ append_assoc seen chunk (payload body), h.0.2), h.1))
                (λ w h. h) (λ w h. h)
                (receive_rule tmp (size + length chunk) (seen ++ chunk) body sp
                  (omega (arith, e, length-append seen chunk))
                  (le_of_ltb max_object_size (size + length chunk) fits))))
