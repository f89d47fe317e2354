-- ===== src/Auth/Chunked/Total.antt =====
-- The loop of the decoder of src/auth.rs ends within its fuel.
use los_cara.Base.{
  ℕ, zero, suc, ◌+◌, ◌-◌, ◌*◌, ◌≤◌, ◌<◌, min, Bool, true, false, ltb, ◌==◌, ◌≡◌, refl, Option, none,
  some, List, [], ◌∷◌, ◌++◌, arith, inl, inr, Bool-cases, if◌then◌else◌, Text, codes, length, take,
  length-drop, find_text, starts_with, text_eq, map, split, u64_max, parse_radix, lower_byte,
}
use los_cara.Error
use los_cara.Error.{S3Error, Result, ok, err}
use los_cara.Auth.Crypto.{Crypto, is_utf8}
use los_cara.Auth.Chunked.{
  first_part, find_prefixed, ChunkDecoder, DecoderState, reading_header, reading_chunk,
  reading_chunk_trailer, done, Turn, next, stop, crlf, header_of, parse_chunk_header,
  chunk_signature, verify_chunk, on_header, close_chunk, take_chunk, on_chunk, on_trailer, turn_in,
  decode, fuel_for, push,
}

-- What the loop uses up: two for each byte, and one for a chunk that is being read.
abbrev weight : DecoderState → ℕ
weight reading_header = 0
weight (reading_chunk n) = 1
weight (reading_chunk_trailer n) = 0
weight done = 0

abbrev measure : ChunkDecoder → ℕ
measure d = 2 * length d.buf + weight d.state

abbrev IsBelow : ℕ → Turn → Type 0
IsBelow n (next d out) = measure d < n
IsBelow n (stop d out r) = Unit

-- A header line takes a byte.
abbrev Consumes : Option (Result S3Error (ℕ × Text × ℕ)) → Type 0
Consumes none = Unit
Consumes (some (err e)) = Unit
Consumes (some (ok (size, sig, used))) = 0 < used

header_of-Consumes : (bs : Text) (pos : ℕ) → Consumes (header_of bs pos)
unfolding header_of
header_of-Consumes [] pos = tt
header_of-Consumes (b ∷ bs) pos = elim (Bool-cases (is_utf8 (b ∷ bs))) [
  | inr t ↦ rw (Consumes, t) tt
  | inl t ↦ rw (Consumes, t) (sized (parse_radix 16 u64_max (first_part (split b';' (b ∷ bs)))))
]
  where
    sized :
        (o : Option ℕ)
        → Consumes (elim o [
          | none ↦ some (err (Error.invalid_argument (codes "Malformed chunked payload")))
          | some size ↦
              some
                (ok (size, find_prefixed (codes "chunk-signature=") (split b';' (b ∷ bs)), pos + 2))
        ])
    sized none = tt
    sized (some size) = omega arith

find_text-nonempty : (s : Text) (pos : ℕ) → find_text crlf s ≡ some pos → 0 < length s
unfolding find_text starts_with
find_text-nonempty [] pos h = ground arith
find_text-nonempty (c ∷ s) pos h = omega arith

module _ (c : Crypto) where
  header-IsBelow :
      (d : ChunkDecoder) (out : List Text) (r : Option (Result S3Error (ℕ × Text × ℕ)))
      → 0 < length d.buf
      → Consumes r
      → IsBelow (2 * length d.buf) (on_header c d out r)
  unfolding on_header
  header-IsBelow d out none h k = tt
  header-IsBelow d out (some (err e)) h k = tt
  header-IsBelow d out (some (ok (size, sig, used))) h k = elim (Bool-cases (size == 0)) [
    | inl t ↦ rw t tt
    | inr t ↦ rw t (omega (arith, length-drop used d.buf))
  ]

  close-IsBelow :
      (d : ChunkDecoder) (content : Text) (out : List Text) (n : ℕ)
      → 2 * length d.buf < n
      → IsBelow n (close_chunk c (verify_chunk c d content) out)
  unfolding close_chunk verify_chunk
  close-IsBelow d content out n h =
      elim (Bool-cases (text_eq (chunk_signature c d content) (map lower_byte d.pending_sig))) [
        | inl t ↦ rw t (omega arith)
        | inr t ↦ rw t tt
      ]

  chunk-IsBelow :
      (remaining : ℕ) (d : ChunkDecoder) (out : List Text)
      → IsBelow (2 * length d.buf + 1) (on_chunk c remaining d out)
  unfolding on_chunk take_chunk
  chunk-IsBelow remaining d out = elim (Bool-cases (length d.buf == 0)) [
    | inl t ↦ rw (on_chunk, t) tt
    | inr t ↦
        let bytes : 0 < length d.buf = ground arith in
        elim (Bool-cases (remaining - min remaining (length d.buf) == 0)) [
          | inl u ↦
              rw (on_chunk, t, take_chunk, u)
                (close-IsBelow _ _ _ _
                  (omega (arith, length-drop (min remaining (length d.buf)) d.buf)))
          | inr u ↦
              let more : min remaining (length d.buf) < remaining = ground arith in
              rw (on_chunk, t, take_chunk, u)
                (omega (arith, length-drop (min remaining (length d.buf)) d.buf))
        ]
  ]

  trailer-IsBelow :
      (d : ChunkDecoder) (out : List Text) → IsBelow (2 * length d.buf) (on_trailer c d out)
  unfolding on_trailer
  trailer-IsBelow d out = elim (Bool-cases (ltb (length d.buf) 2)) [
    | inl t ↦ rw (on_trailer, t) tt
    | inr t ↦ elim (Bool-cases (text_eq (take 2 d.buf) crlf)) [
      | inl u ↦
          let long : 2 ≤ length d.buf = ground arith in
          rw (on_trailer, t, u) (omega (arith, length-drop 2 d.buf))
      | inr u ↦ rw (on_trailer, t, u) tt
    ]
  ]

  IsBelow-weaken : (n m : ℕ) (t : Turn) → n ≤ m → IsBelow n t → IsBelow m t
  IsBelow-weaken n m (next d out) le h = omega arith
  IsBelow-weaken n m (stop d out r) le h = tt

  read_header-IsBelow :
      (d : ChunkDecoder) (out : List Text)
      → IsBelow (2 * length d.buf) (on_header c d out (parse_chunk_header d.buf))
  unfolding parse_chunk_header on_header
  read_header-IsBelow d out = go (find_text crlf d.buf) refl
    where
      go :
          (o : Option ℕ)
          → find_text crlf d.buf ≡ o
          → IsBelow (2 * length d.buf) (
              on_header c d out
                (elim o [ none ↦ none | some pos ↦ header_of (take pos d.buf) pos ]))
      go none h = tt
      go (some pos) h =
          header-IsBelow d out (header_of (take pos d.buf) pos) (find_text-nonempty d.buf pos h)
            (header_of-Consumes (take pos d.buf) pos)

  turn-IsBelow :
      (s : DecoderState) (d : ChunkDecoder) (out : List Text)
      → IsBelow (2 * length d.buf + weight s) (turn_in c s d out)
  unfolding turn_in
  turn-IsBelow reading_header d out =
      IsBelow-weaken (2 * length d.buf) _ _ (omega arith) (read_header-IsBelow d out)
  turn-IsBelow (reading_chunk n) d out = chunk-IsBelow n d out
  turn-IsBelow (reading_chunk_trailer n) d out =
      IsBelow-weaken (2 * length d.buf) _ _ (omega arith) (trailer-IsBelow d out)
  turn-IsBelow done d out = tt

  decode-total :
      (n : ℕ) (d : ChunkDecoder) (out : List Text)
      → measure d < n
      → (r : ChunkDecoder × List Text × Result S3Error (Unit {0})) × (decode c n d out ≡ some r)
  unfolding decode
  decode-total zero d out h = absurd (omega arith)
  decode-total (suc n) d out h =
      go (turn_in c d.state d out) (turn-IsBelow d.state d out) (decode-total n)
    where
      go :
          (t : Turn)
          → IsBelow (measure d) t
          → ((d' : ChunkDecoder) (out' : List Text)
              → measure d' < n
              → (r : ChunkDecoder × List Text × Result S3Error (Unit {0})) × (decode c n d' out'
                  ≡ some r))
          → (r : ChunkDecoder × List Text × Result S3Error (Unit {0})) × ((elim t [
            | next d' out' ↦ decode c n d' out'
            | stop d' out' r ↦ some (d', out', r)
          ])
              ≡ some r)
      go (next d' out') b rest = rest d' out' (omega arith)
      go (stop d' out' r) b rest = ((d', out', r), refl)

  weight-le : (s : DecoderState) → weight s ≤ 1
  weight-le reading_header = omega arith
  weight-le (reading_chunk n) = omega arith
  weight-le (reading_chunk_trailer n) = omega arith
  weight-le done = omega arith

  -- Whatever the state of the decoder and the bytes pushed, the loop returns within its fuel.
  pub push-total :
      (d : ChunkDecoder) (content : Text) (out : List Text)
      → (r : ChunkDecoder × List Text × Result S3Error (Unit {0})) × (push c d content out ≡ some r)
  unfolding push
  push-total d content out = go d.finished (
      decode-total (fuel_for c (d.buf ++ content)) (record d { buf = d.buf ++ content }) out
        (omega (arith, weight-le d.state)))
    where
      go :
          {o : Option (ChunkDecoder × List Text × Result S3Error (Unit {0}))} (b : Bool)
          → (r : ChunkDecoder × List Text × Result S3Error (Unit {0})) × (o ≡ some r)
          → (r : ChunkDecoder × List Text × Result S3Error (Unit {0})) × ((if b
                then some (d, out, ok tt)
                else o)
              ≡ some r)
      go true e = ((d, out, ok tt), refl)
      go false e = e
