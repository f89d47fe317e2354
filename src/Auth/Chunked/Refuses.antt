-- ===== src/Auth/Chunked/Refuses.antt =====
-- What the decoder of src/auth.rs makes of a body in which a signature is wrong.
use los_cara.Base.{
  ℕ, zero, suc, ◌+◌, ◌-◌, ◌*◌, ◌≤◌, ◌<◌, min, true, false, ◌==◌, ◌≡◌, ◌≢◌, subst, sym, ◌∙◌, arith,
  length-append, refl, Option, some, List, [], ◌∷◌, ◌++◌, map, Text, length, lower_byte, text_eq,
  text_eq_iff, Bool-cases, inl, inr,
}
use los_cara.Error
use los_cara.Error.{S3Error, Result, ok, err}
use los_cara.Auth.Crypto.{Crypto}
use los_cara.Auth.Chunked.{
  ChunkDecoder, reading_header, reading_chunk, done, stop, crlf, chunk_signature, verify_chunk,
  on_header, on_chunk, take_chunk, close_chunk, turn_in, decode, push, new,
}
use los_cara.Auth.Chunked.Decodes
use los_cara.Auth.Chunked.Decodes.{
  IsHeader, signed, between, inside, behind, drop-append, take-append,
}

module _ (c : Crypto) (key scope date : Text) where
  abbrev sign : Text → Text → Text
  sign prev content = signed c key scope date prev content

  -- A body in which some chunks are signed rightly, and then one is not; what follows it is free.
  pub data Tampered : Text → Text → List Text → Type 0 where
    bad_last :
        (prev h sig rest : Text)
        → IsHeader h 0 sig
        → sign prev [] ≢ map lower_byte sig
        → Tampered prev (h ++ rest) []
    bad_chunk :
        (prev h sig content rest : Text)
        → IsHeader h (length content) sig
        → 0 < length content
        → sign prev content ≢ map lower_byte sig
        → Tampered prev (h ++ (content ++ rest)) []
    good_chunk :
        (prev h sig content raw : Text) (cs : List Text)
        → IsHeader h (length content) sig
        → 0 < length content
        → sign prev content ≡ map lower_byte sig
        → Tampered sig raw cs
        → Tampered prev (h ++ (content ++ (crlf ++ raw))) (content ∷ cs)

  verify_chunk-forged :
      (d : ChunkDecoder) (content : Text)
      → chunk_signature c d content ≢ map lower_byte d.pending_sig
      → verify_chunk c d content ≡ (d, err Error.signature_does_not_match)
  unfolding verify_chunk
  verify_chunk-forged d content h = rw other refl
    where
      other : text_eq (chunk_signature c d content) (map lower_byte d.pending_sig) ≡ false
      other =
          elim (Bool-cases (text_eq (chunk_signature c d content) (map lower_byte d.pending_sig))) [
            | inl same ↦ absurd (
                h (
                  (text_eq_iff (chunk_signature c d content) (map lower_byte d.pending_sig)).0
                    same))
            | inr ne ↦ ne
          ]

  forged_last_turn :
      (prev pending h sig rest : Text) (out : List Text)
      → IsHeader h 0 sig
      → sign prev [] ≢ map lower_byte sig
      → turn_in c reading_header (between c key scope date prev pending (h ++ rest)) out
        ≡ stop
            (record (between c key scope date prev sig rest) { state = done; finished = true })
            out
            (err Error.signature_does_not_match)
  unfolding turn_in on_header chunk_signature
  forged_last_turn prev pending h sig rest out head forged =
      rw
        (
          head rest,
          drop-append h rest,
          verify_chunk-forged
              (record (between c key scope date prev sig rest) { state = done; finished = true }) []
              forged,
        )
        refl

  forged_chunk_turn :
      (prev sig content rest : Text) (out : List Text)
      → 0 < length content
      → sign prev content ≢ map lower_byte sig
      → (d : ChunkDecoder) × (turn_in c
            (reading_chunk (length content))
            (inside c key scope date prev sig (content ++ rest) (length content))
            out
          ≡ stop d (out ++ (content ∷ [])) (err Error.signature_does_not_match))
  unfolding turn_in on_chunk take_chunk close_chunk chunk_signature
  forged_chunk_turn prev sig content rest out positive forged = (
    inside c key scope date prev sig rest (length content),
    rw
        (
          on_chunk,
          there,
          all_read,
          take_chunk,
          no_rest,
          take-append content rest,
          drop-append content rest,
          verify_chunk-forged (inside c key scope date prev sig rest (length content)) content
              forged,
        )
        refl,
  )
    where
      there : (length (content ++ rest) == 0) ≡ false
      there = ground (arith, length-append content rest)

      all_read : min (length content) (length (content ++ rest)) ≡ length content
      all_read = omega (arith, length-append content rest)

      no_rest : (length content - length content == 0) ≡ true
      no_rest = ground arith

  -- A run that refuses the body.
  abbrev pub Refuses : Option (ChunkDecoder × List Text × Result S3Error (Unit {0})) → Type 0
  Refuses r =
      (d : ChunkDecoder) × (out : List Text) × (r
        ≡ some (d, out, err Error.signature_does_not_match))

  decode-Tampered :
      {prev raw : Text} {cs : List Text} (f : Tampered prev raw cs) (pending : Text)
      (out : List Text) (n : ℕ)
      → 3 * length cs + 2 ≤ n
      → Refuses (decode c n (between c key scope date prev pending raw) out)
  decode-Tampered f pending out zero h = absurd (omega arith)
  decode-Tampered f pending out (suc zero) h = absurd (omega arith)
  decode-Tampered (bad_last prev h sig rest head forged) pending out (suc (suc n)) le = (
    _,
    _,
    Decodes.decode_stop c key scope date (suc n) _ _ out _ _
        (forged_last_turn prev pending h sig rest out head forged),
  )
  decode-Tampered (bad_chunk prev h sig content rest head positive forged) pending out (suc (suc n))
        le =
      let (d, stops) = forged_chunk_turn prev sig content rest out positive forged in
      (
        d,
        out ++ (content ∷ []),
        Decodes.decode_step c key scope date (suc n) _ _ out _ (
              Decodes.header_turn c key scope date prev pending h sig (content ++ rest)
                (length content) out head positive)
            ∙ Decodes.decode_stop c key scope date n _ _ out _ _ stops,
      )
  decode-Tampered (good_chunk prev h sig content raw cs head positive right f) pending out
        (suc (suc zero)) le =
      absurd (omega arith)
  decode-Tampered (good_chunk prev h sig content raw cs head positive right f) pending out
        (suc (suc (suc n))) le =
      subst Refuses (sym three) (decode-Tampered f sig (out ++ (content ∷ [])) n (omega arith))
    where
      three :
          decode c
            (suc (suc (suc n)))
            (between c key scope date prev pending (h ++ (content ++ (crlf ++ raw))))
            out
          ≡ decode c n (between c key scope date sig sig raw) (out ++ (content ∷ []))
      three =
          Decodes.decode_step c key scope date (suc (suc n)) _ _ out _ (
            Decodes.header_turn c key scope date prev pending h sig (content ++ (crlf ++ raw))
              (length content) out head positive)
          ∙ Decodes.decode_step c key scope date (suc n) _ _ out _ (
              Decodes.chunk_turn c key scope date prev sig content (crlf ++ raw) out positive right)
          ∙ Decodes.decode_step c key scope date n _ _ _ _
              (Decodes.trailer_turn c key scope date sig raw (out ++ (content ∷ [])))

  length-Tampered :
      {prev raw : Text} {cs : List Text}
      → Tampered prev raw cs
      → 3 * length cs ≤ length raw + length raw
  length-Tampered (bad_last prev h sig rest head forged) = omega arith
  length-Tampered (bad_chunk prev h sig content rest head positive forged) = omega arith
  length-Tampered (good_chunk prev h sig content raw cs head positive right f) = omega (
    arith,
    length-Tampered f,
    length-append h (content ++ (crlf ++ raw)),
    length-append content (crlf ++ raw),
  )

  -- A new decoder that is given such a body at once returns with the error of a wrong signature.
  pub push-Tampered :
      (seed raw : Text) (cs : List Text)
      → Tampered seed raw cs
      → Refuses (push c (new key scope date seed) raw [])
  unfolding push new
  push-Tampered seed raw cs f =
      decode-Tampered f [] [] (2 * length raw + 2) (omega (arith, length-Tampered f))
