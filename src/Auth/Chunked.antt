-- ===== src/Auth/Chunked.antt =====
-- The decoder of `aws-chunked` bodies of src/auth.rs.
pub mod Decodes
pub mod Refuses
pub mod Total
use los_cara.Base.{
  ℕ, zero, suc, ◌+◌, ◌-◌, ◌*◌, min, Bool, true, false, not, ◌||◌, Option, none, some, List, [], ◌∷◌,
  ◌++◌, ltb, leb, ◌==◌, if◌then◌else◌, map, Text, codes, length, take, drop, split, strip_prefix,
  find_text, parse_radix, u64_max, lower_byte, text_eq,
}
use los_cara.Error
use los_cara.Error.{S3Error, Result, ok, err}
use los_cara.Auth.Crypto.{Crypto, sha256_hex, is_utf8, newline}

abbrev pub crlf : Text
crlf = 13 ∷ 10 ∷ []

-- `find_map(|p| p.strip_prefix(…)).unwrap_or_default()`.
unfoldable pub find_prefixed : Text → List Text → Text
find_prefixed prefix [] = []
find_prefixed prefix (p ∷ ps) =
    let rest = find_prefixed prefix ps in elim (strip_prefix prefix p) [ some s ↦ s | none ↦ rest ]

abbrev pub first_part : List Text → Text
first_part [] = []
first_part (p ∷ ps) = p

-- The size and the signature that a header line names, and the bytes that the line takes.
abbrev Header : Type 0
Header = ℕ × Text × ℕ

unfoldable pub header_of : Text → ℕ → Option (Result S3Error Header)
unfolding find_prefixed
header_of [] pos = none
header_of (b ∷ bs) pos =
    if not (is_utf8 (b ∷ bs))
    then none
    else elim (parse_radix 16 u64_max (first_part (split b';' (b ∷ bs)))) [
      | none ↦ some (err (Error.invalid_argument (codes "Malformed chunked payload")))
      | some size ↦
          some (ok (size, find_prefixed (codes "chunk-signature=") (split b';' (b ∷ bs)), pos + 2))
    ]

unfoldable pub parse_chunk_header : Text → Option (Result S3Error Header)
unfolding header_of
parse_chunk_header buf = elim (find_text crlf buf) [
  | none ↦ none
  | some pos ↦ header_of (take pos buf) pos
]

pub data DecoderState : Type 0 where
  reading_header : DecoderState
  reading_chunk reading_chunk_trailer : ℕ → DecoderState
  done : DecoderState

pub record ChunkDecoder : Type 0 where
  pub signing_key : Text
  pub scope : Text
  pub amz_date : Text
  pub prev_signature : Text
  pub buf : Text
  pub state : DecoderState
  pub finished : Bool
  pub pending_sig : Text
  pub chunk_data : Text

unfoldable pub new : Text → Text → Text → Text → ChunkDecoder
new signing_key scope amz_date seed_signature = record {
  signing_key = signing_key;
  scope = scope;
  amz_date = amz_date;
  prev_signature = seed_signature;
  buf = [];
  state = reading_header;
  finished = false;
  pending_sig = [];
  chunk_data = [];
}

unfoldable pub is_finished : ChunkDecoder → Bool
is_finished d = d.finished || elim d.state [ done ↦ true | _ ↦ false ]

-- One turn of the loop: another follows, or the call returns.
pub data Turn : Type 0 where
  next : ChunkDecoder → List Text → Turn
  stop : ChunkDecoder → List Text → Result S3Error (Unit {0}) → Turn

module _ (c : Crypto) where
  -- The signature that a chunk must carry.
  unfoldable pub chunk_signature : ChunkDecoder → Text → Text
  chunk_signature d content =
      let string_to_sign =
        codes "AWS4-HMAC-SHA256-PAYLOAD"
        ++ (newline
            ++ (d.amz_date
                ++ (newline
                    ++ (d.scope
                        ++ (newline
                            ++ (d.prev_signature
                                ++ (newline
                                    ++ (sha256_hex c []
                                        ++ (newline ++ sha256_hex c content))))))))) in
      c.hex_encode (c.hmac_sha256 d.signing_key string_to_sign)

  unfoldable pub verify_chunk : ChunkDecoder → Text → ChunkDecoder × Result S3Error (Unit {0})
  unfolding chunk_signature
  verify_chunk d content =
      if not (text_eq (chunk_signature d content) (map lower_byte d.pending_sig))
      then (d, err Error.signature_does_not_match)
      else (record d { prev_signature = d.pending_sig }, ok tt)

  -- The arm `ReadingHeader`.
  unfoldable pub on_header : ChunkDecoder → List Text → Option (Result S3Error Header) → Turn
  unfolding verify_chunk
  on_header d out none = stop d out (ok tt)
  on_header d out (some (err e)) = stop d out (err e)
  on_header d out (some (ok (size, sig, consumed))) =
      let d' : ChunkDecoder = record d { pending_sig = sig; buf = drop consumed d.buf } in
      if size == 0
      then (let r = verify_chunk (record d' { state = done; finished = true }) [] in
          stop r.0 out r.1)
      else next (record d' { state = reading_chunk size }) out

  -- The end of a chunk.
  unfoldable pub close_chunk : ChunkDecoder × Result S3Error (Unit {0}) → List Text → Turn
  close_chunk (d, err e) out = stop d out (err e)
  close_chunk (d, ok _) out =
      next (record d { prev_signature = d.pending_sig; state = reading_chunk_trailer 0 }) out

  -- The arm `ReadingChunk`, with `n` bytes of the chunk at hand.
  unfoldable pub take_chunk : ℕ → ℕ → ChunkDecoder → List Text → Turn
  unfolding verify_chunk close_chunk
  take_chunk remaining n d out =
      let full = d.chunk_data ++ take n d.buf in
      if remaining - n == 0
      then close_chunk (verify_chunk (record d { buf = drop n d.buf; chunk_data = [] }) full)
          (out ++ (take n d.buf ∷ []))
      else next
          (record d {
            buf = drop n d.buf;
            chunk_data = full;
            state = reading_chunk (remaining - n);
          })
          (out ++ (take n d.buf ∷ []))

  unfoldable pub on_chunk : ℕ → ChunkDecoder → List Text → Turn
  unfolding take_chunk
  on_chunk remaining d out =
      if length d.buf == 0
      then stop d out (ok tt)
      else take_chunk remaining (min remaining (length d.buf)) d out

  -- The arm `ReadingChunkTrailer`.
  unfoldable pub on_trailer : ChunkDecoder → List Text → Turn
  on_trailer d out =
      if ltb (length d.buf) 2
      then stop d out (ok tt)
      else if text_eq (take 2 d.buf) crlf
      then next (record d { buf = drop 2 d.buf; state = reading_header }) out
      else stop d out (err (Error.invalid_argument (codes "Malformed chunked payload")))

  unfoldable pub turn_in : DecoderState → ChunkDecoder → List Text → Turn
  unfolding on_header on_chunk on_trailer parse_chunk_header
  turn_in reading_header d out = on_header d out (parse_chunk_header d.buf)
  turn_in (reading_chunk remaining) d out = on_chunk remaining d out
  turn_in (reading_chunk_trailer _) d out = on_trailer d out
  turn_in done d out = stop d out (ok tt)

  -- The loop, on fuel.
  unfoldable pub decode :
      ℕ → ChunkDecoder → List Text → Option (ChunkDecoder × List Text × Result S3Error (Unit {0}))
  unfolding turn_in
  decode zero d out = none
  decode (suc n) d out = elim (turn_in d.state d out) [
    | next d' out' ↦ decode n d' out'
    | stop d' out' r ↦ some (d', out', r)
  ]

  -- The fuel: each turn but the last takes a byte of the buffer, or leaves a chunk that has none
  -- left to read.
  abbrev pub fuel_for : Text → ℕ
  fuel_for buf = 2 * length buf + 2

  -- The decoder after the call, what `out` holds then, and the result.
  unfoldable pub push :
      ChunkDecoder
      → Text
      → List Text
      → Option (ChunkDecoder × List Text × Result S3Error (Unit {0}))
  unfolding decode
  push d content out =
      if d.finished
      then some (d, out, ok tt)
      else decode (fuel_for (d.buf ++ content)) (record d { buf = d.buf ++ content }) out
