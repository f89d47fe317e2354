-- ===== src/Auth/Chunked/Decodes.antt =====
-- What the decoder of src/auth.rs makes of a body that is framed and signed as the protocol says.
use los_cara.Base.{
  ℕ, zero, suc, ◌+◌, ◌-◌, ◌*◌, ◌≤◌, ◌<◌, min, true, false, ltb, ◌==◌, ◌≡◌, subst, sym, ◌∙◌, arith,
  length-append, append_assoc, append-nil, refl, ap, Option, some, List, [], ◌∷◌, ◌++◌, map, Text,
  length, take, drop, lower_byte, text_eq, text_eq_iff,
}
use los_cara.Error.{S3Error, Result, ok}
use los_cara.Auth.Crypto.{Crypto}
use los_cara.Auth.Chunked.{
  ChunkDecoder, reading_header, reading_chunk, reading_chunk_trailer, done, next, stop, crlf,
  parse_chunk_header, chunk_signature, verify_chunk, on_header, on_chunk, take_chunk, close_chunk,
  on_trailer, turn_in, decode, push, new, is_finished,
}

-- A header line, its end included, that names a size and a signature whatever follows it.
abbrev pub IsHeader : Text → ℕ → Text → Type 0
IsHeader h size sig =
    (rest : Text) → parse_chunk_header (h ++ rest) ≡ some (ok (size, sig, length h))

pub drop-append : (s t : Text) → drop (length s) (s ++ t) ≡ t
drop-append [] t = refl
drop-append (x ∷ s) t = drop-append s t

pub take-append : (s t : Text) → take (length s) (s ++ t) ≡ s
take-append [] t = refl
take-append (x ∷ s) t = ap (λ r. x ∷ r) (take-append s t)

module _ (c : Crypto) (key scope date : Text) where
  -- The signature of a chunk after the signature `prev`.
  abbrev pub signed : Text → Text → Text
  signed prev content =
      chunk_signature c
        (record {
          signing_key = key;
          scope = scope;
          amz_date = date;
          prev_signature = prev;
          buf = [];
          state = reading_header;
          finished = false;
          pending_sig = [];
          chunk_data = [];
        })
        content

  -- A body of chunks, each signed over the signature of the one before; the empty chunk is the
  -- last, and what follows it is free.
  pub data Frames : Text → Text → List Text → Type 0 where
    last :
        (prev h sig rest : Text)
        → IsHeader h 0 sig
        → signed prev [] ≡ map lower_byte sig
        → Frames prev (h ++ rest) []
    frame :
        (prev h sig content raw : Text) (cs : List Text)
        → IsHeader h (length content) sig
        → 0 < length content
        → signed prev content ≡ map lower_byte sig
        → Frames sig raw cs
        → Frames prev (h ++ (content ++ (crlf ++ raw))) (content ∷ cs)

  -- A decoder between two chunks.
  abbrev pub between : Text → Text → Text → ChunkDecoder
  between prev pending buf = record {
    signing_key = key;
    scope = scope;
    amz_date = date;
    prev_signature = prev;
    buf = buf;
    state = reading_header;
    finished = false;
    pending_sig = pending;
    chunk_data = [];
  }

  pub verify_chunk-signed :
      (d : ChunkDecoder) (content : Text)
      → chunk_signature c d content ≡ map lower_byte d.pending_sig
      → verify_chunk c d content ≡ (record d { prev_signature = d.pending_sig }, ok tt)
  unfolding verify_chunk
  verify_chunk-signed d content h =
      rw (h, (text_eq_iff (map lower_byte d.pending_sig) (map lower_byte d.pending_sig)).1 refl)
        refl

  pub header_turn :
      (prev pending h sig rest : Text) (size : ℕ) (out : List Text)
      → IsHeader h size sig
      → 0 < size
      → turn_in c reading_header (between prev pending (h ++ rest)) out
        ≡ next (record (between prev sig rest) { state = reading_chunk size }) out
  unfolding turn_in on_header
  header_turn prev pending h sig rest size out head positive =
      rw (head rest, nonzero, drop-append h rest) refl
    where
      nonzero : (size == 0) ≡ false
      nonzero = ground arith

  last_turn :
      (prev pending h sig rest : Text) (out : List Text)
      → IsHeader h 0 sig
      → signed prev [] ≡ map lower_byte sig
      → turn_in c reading_header (between prev pending (h ++ rest)) out
        ≡ stop (record (between sig sig rest) { state = done; finished = true }) out (ok tt)
  unfolding turn_in on_header chunk_signature
  last_turn prev pending h sig rest out head sign =
      rw
        (
          head rest,
          drop-append h rest,
          verify_chunk-signed (record (between prev sig rest) { state = done; finished = true }) []
              sign,
        )
        refl

  -- A decoder in a chunk of which it has nothing yet.
  abbrev pub inside : Text → Text → Text → ℕ → ChunkDecoder
  inside prev sig buf size = record (between prev sig buf) { state = reading_chunk size }

  abbrev pub behind : Text → Text → ChunkDecoder
  behind sig buf = record (between sig sig buf) { state = reading_chunk_trailer 0 }

  close_turn :
      (prev sig content rest : Text) (n : ℕ) (out : List Text)
      → signed prev content ≡ map lower_byte sig
      → close_chunk c (verify_chunk c (inside prev sig rest n) content) out
        ≡ next (behind sig rest) out
  unfolding close_chunk chunk_signature
  close_turn prev sig content rest n out sign =
      rw (verify_chunk-signed (inside prev sig rest n) content sign) refl

  take_turn :
      (prev sig content rest : Text) (out : List Text)
      → signed prev content ≡ map lower_byte sig
      → take_chunk c
          (length content)
          (length content)
          (inside prev sig (content ++ rest) (length content))
          out
        ≡ next (behind sig rest) (out ++ (content ∷ []))
  unfolding take_chunk
  take_turn prev sig content rest out sign =
      rw (no_rest, take-append content rest, drop-append content rest)
        (close_turn prev sig content rest (length content) (out ++ (content ∷ [])) sign)
    where
      no_rest : (length content - length content == 0) ≡ true
      no_rest = ground arith

  pub chunk_turn :
      (prev sig content rest : Text) (out : List Text)
      → 0 < length content
      → signed prev content ≡ map lower_byte sig
      → turn_in c
          (reading_chunk (length content))
          (inside prev sig (content ++ rest) (length content))
          out
        ≡ next (behind sig rest) (out ++ (content ∷ []))
  unfolding turn_in on_chunk
  chunk_turn prev sig content rest out positive sign =
      rw (on_chunk, there, all_read) (take_turn prev sig content rest out sign)
    where
      there : (length (content ++ rest) == 0) ≡ false
      there = ground (arith, length-append content rest)

      all_read : min (length content) (length (content ++ rest)) ≡ length content
      all_read = omega (arith, length-append content rest)

  pub trailer_turn :
      (sig raw : Text) (out : List Text)
      → turn_in c
          (reading_chunk_trailer 0)
          (record (between sig sig (crlf ++ raw)) { state = reading_chunk_trailer 0 })
          out
        ≡ next (between sig sig raw) out
  unfolding turn_in on_trailer text_eq
  trailer_turn sig raw out = rw (on_trailer, long) refl
    where
      long : ltb (suc (suc (length raw))) 2 ≡ false
      long = ground arith

  -- What a run of the decoder that takes the whole body yields.
  abbrev Yields : Option (ChunkDecoder × List Text × Result S3Error (Unit {0})) → List Text → Type 0
  Yields r out = (d : ChunkDecoder) × (r ≡ some (d, out, ok tt)) × (d.finished ≡ true)

  pub decode_step :
      (n : ℕ) (d d' : ChunkDecoder) (out out' : List Text)
      → turn_in c d.state d out ≡ next d' out'
      → decode c (suc n) d out ≡ decode c n d' out'
  unfolding decode
  decode_step n d d' out out' h = rw (decode, h) refl

  pub decode_stop :
      (n : ℕ) (d d' : ChunkDecoder) (out out' : List Text) (r : Result S3Error (Unit {0}))
      → turn_in c d.state d out ≡ stop d' out' r
      → decode c (suc n) d out ≡ some (d', out', r)
  unfolding decode
  decode_stop n d d' out out' r h = rw (decode, h) refl

  decode-Frames :
      {prev raw : Text} {cs : List Text} (f : Frames prev raw cs) (pending : Text) (out : List Text)
      (n : ℕ)
      → 3 * length cs < n
      → Yields (decode c n (between prev pending raw) out) (out ++ cs)
  decode-Frames f pending out zero h = absurd (omega arith)
  decode-Frames (last prev h sig rest head sign) pending out (suc n) le = (
    record (between sig sig rest) { state = done; finished = true },
    decode_stop n _ _ out _ _ (last_turn prev pending h sig rest out head sign)
        ∙ ap (λ o. some (_, o, ok tt)) (sym (append-nil out)),
    refl,
  )
  decode-Frames (frame prev h sig content raw cs head positive sign f) pending out
        (suc (suc (suc n))) le =
      subst (λ r. Yields r (out ++ (content ∷ cs))) (sym three)
        (subst (λ o. Yields (decode c n (between sig sig raw) (out ++ (content ∷ []))) o)
          (append_assoc out (content ∷ []) cs)
          (decode-Frames f sig (out ++ (content ∷ [])) n (omega arith)))
    where
      three :
          decode c (suc (suc (suc n))) (between prev pending (h ++ (content ++ (crlf ++ raw)))) out
          ≡ decode c n (between sig sig raw) (out ++ (content ∷ []))
      three =
          decode_step (suc (suc n)) _ _ out _ (
            header_turn prev pending h sig (content ++ (crlf ++ raw)) (length content) out head
              positive)
          ∙ decode_step (suc n) _ _ out _
              (chunk_turn prev sig content (crlf ++ raw) out positive sign)
          ∙ decode_step n _ _ _ _ (trailer_turn sig raw (out ++ (content ∷ [])))
  decode-Frames (frame prev h sig content raw cs head positive sign f) pending out (suc zero) le =
      absurd (omega arith)
  decode-Frames (frame prev h sig content raw cs head positive sign f) pending out (suc (suc zero))
        le =
      absurd (omega arith)

  length-Frames :
      {prev raw : Text} {cs : List Text}
      → Frames prev raw cs
      → 3 * length cs ≤ length raw + length raw
  length-Frames (last prev h sig rest head sign) = omega arith
  length-Frames (frame prev h sig content raw cs head positive sign f) = omega (
    arith,
    length-Frames f,
    length-append h (content ++ (crlf ++ raw)),
    length-append content (crlf ++ raw),
  )

  -- Given at once a whole body that is framed and signed from the seed signature on, a new decoder
  -- returns without an error, has put out the chunks in order, and is finished.
  pub push-Frames :
      (seed raw : Text) (cs : List Text)
      → Frames seed raw cs
      → (d : ChunkDecoder) × (push c (new key scope date seed) raw [] ≡ some (d, cs, ok tt))
        × (is_finished d ≡ true)
  unfolding push new is_finished
  push-Frames seed raw cs f =
      let (d, run, end) =
        decode-Frames f [] [] (2 * length raw + 2) (omega (arith, length-Frames f)) in
      (d, run, rw end refl)
