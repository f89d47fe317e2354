-- ===== src/Tests/Stream.antt =====
-- A run of the decoder of src/auth.rs, with simple stand-ins for the crates.
use los_cara.Base.{
  List, find_text, parse_radix, split, strip_prefix, ◌≡◌, refl, some, true, [], ◌∷◌, ◌++◌, arith,
  Text, codes, length,
}
use los_cara.Error.{S3Error, Result, ok}
use los_cara.Auth.Crypto.{Crypto, is_utf8}
use los_cara.Auth.Chunked
use los_cara.Auth.Chunked.{ChunkDecoder, crlf, push, new, is_finished}
use los_cara.Auth.Chunked.Total.{push-total}
use los_cara.Auth.Chunked.Decodes.{Frames, last, frame, IsHeader, push-Frames}

abbrev pub crypto : Crypto
crypto = record {
  hmac_sha256 = λ key s. key;
  sha256 = λ s. s;
  hex_encode = λ s. s;
  hex_decode = λ s. some s;
}

abbrev pub data_header : Text
data_header = codes "A;chunk-signature=ab" ++ crlf

abbrev pub last_header : Text
last_header = codes "0;chunk-signature=AB" ++ crlf

abbrev pub chunk : Text
chunk = codes "0123456789"

abbrev pub raw_body : Text
raw_body = data_header ++ (chunk ++ (crlf ++ (last_header ++ crlf)))

pub data_header-IsHeader : IsHeader data_header (length chunk) (codes "ab")
unfolding Chunked.parse_chunk_header codes find_text is_utf8 parse_radix split strip_prefix
data_header-IsHeader = λ rest. refl

pub last_header-IsHeader : IsHeader last_header 0 (codes "AB")
unfolding Chunked.parse_chunk_header codes find_text is_utf8 parse_radix split strip_prefix
last_header-IsHeader = λ rest. refl

pub body-Frames :
    Frames crypto (codes "ab") (codes "scope") (codes "date") (codes "seed") raw_body (chunk ∷ [])
unfolding Chunked.chunk_signature codes
body-Frames =
    frame (codes "seed") data_header (codes "ab") chunk (last_header ++ crlf) []
      data_header-IsHeader (omega arith) refl
      (last (codes "ab") last_header (codes "AB") crlf last_header-IsHeader refl)

push-Frames_example :
    (d : ChunkDecoder) × (push crypto
        (new (codes "ab") (codes "scope") (codes "date") (codes "seed"))
        raw_body
        []
      ≡ some (d, chunk ∷ [], ok tt))
    × (is_finished d ≡ true)
push-Frames_example =
    push-Frames crypto (codes "ab") (codes "scope") (codes "date") (codes "seed") raw_body
      (chunk ∷ []) body-Frames

push-total_example :
    (r : ChunkDecoder × List Text × Result S3Error (Unit {0})) × (push crypto
        (new (codes "ab") (codes "scope") (codes "date") (codes "seed"))
        (codes "A;chunk")
        []
      ≡ some r)
push-total_example =
    push-total crypto (new (codes "ab") (codes "scope") (codes "date") (codes "seed"))
      (codes "A;chunk") []
