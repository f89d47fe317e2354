-- ===== src/Tests/Auth.antt =====
-- Runs of the credential store and of the signatures of src/auth.rs, with simple stand-ins for the
-- crates.
use los_cara.Base.{
  map_get, ◌≡◌, refl, Option, none, some, [], ◌∷◌, false, if◌then◌else◌, map, Text, codes, text_eq,
  lower_byte,
}
use los_cara.Error.{ok}
use los_cara.Auth.Crypto.{Crypto}
use los_cara.Auth.Keys.{
  Keys, KeyFile, CredCache, same_sig, read_keys, root_map, new_store, lookup, overlaid, get_key,
  IsDistinct, lookup-overlaid, lookup-new_store,
}
use los_cara.Auth.Request.{Headers, Percent}
use los_cara.Auth.Verify.{Verified, unsigned, header, Seconds, verify_request}
use los_cara.Auth.Verify.Sound.{IsAuthentic, verify_request-IsAuthentic}

-- A file that holds the key `a`, whatever its bytes.
abbrev parsed : Text → Option Keys
parsed s = some ((codes "a", codes "new") ∷ (codes "b", codes "other") ∷ [])

abbrev key_file : KeyFile
key_file = record { sig = some (5, 40); content = some (codes "{}") }

parsed-IsDistinct : IsDistinct (read_keys parsed key_file.content)
unfolding read_keys codes map_get text_eq
parsed-IsDistinct = (refl, (refl, tt))

-- A cache of an older file, with the root credentials `a`.
abbrev stale : CredCache
stale = record {
  map = (codes "a", codes "old") ∷ [];
  root = some (codes "a", codes "old");
  mtime = some (4, 2);
}

stale-changed : same_sig key_file.sig stale.mtime ≡ false
unfolding same_sig
stale-changed = refl

lookup-overlaid_example :
    (lookup parsed key_file (codes "a") stale).0
    ≡ overlaid
        (get_key (codes "a") (read_keys parsed key_file.content))
        (get_key (codes "a") (root_map stale.root))
lookup-overlaid_example =
    lookup-overlaid parsed key_file (codes "a") stale stale-changed parsed-IsDistinct

lookup-new_store_example :
    (lookup parsed key_file (codes "a") (new_store parsed key_file (codes "a") (codes "old"))).0
    ≡ overlaid
        (get_key (codes "a") (read_keys parsed key_file.content))
        (if text_eq (codes "a") (codes "a") then some (codes "old") else none)
lookup-new_store_example =
    lookup-new_store parsed key_file (codes "a") (codes "a") (codes "old") parsed-IsDistinct

abbrev pub crypto : Crypto
crypto = record {
  hmac_sha256 = λ key s. key;
  sha256 = λ s. s;
  hex_encode = λ s. map lower_byte s;
  hex_decode = λ s. some s;
}

abbrev percent : Percent
percent = record { decode = λ s. some s; encode = λ s. s }

abbrev pub secrets : Text → Option Text
secrets key = if text_eq key (codes "key") then some (codes "secret") else none

abbrev headers : Headers
headers name =
    if text_eq name (codes "authorization")
    then some (
        some (
          codes
            "AWS4-HMAC-SHA256 Credential=key/20250101/us/s3/aws4_request, SignedHeaders=host, Signature=AWS4SECRET"))
    else if text_eq name (codes "x-amz-content-sha256")
    then some (some (codes "UNSIGNED-PAYLOAD"))
    else if text_eq name (codes "host")
    then some (some (codes "localhost"))
    else none

abbrev let_in : Verified
let_in = record {
  access_key = codes "key";
  scope_date = codes "20250101";
  scope = codes "20250101/us/s3/aws4_request";
  signature = codes "AWS4SECRET";
  payload_sha_mode = unsigned;
  amz_date = codes "20250101";
  signing_key = codes "AWS4secret";
}

abbrev pub seconds_since : Text → Option Seconds
seconds_since s = none

request_verified :
    verify_request crypto percent secrets seconds_since (codes "GET") (codes "/b") [] headers
    ≡ ok (header let_in)
unfolding verify_request codes text_eq
request_verified = refl

verify_request-IsAuthentic_example :
    IsAuthentic crypto percent secrets seconds_since
      (codes "GET")
      (codes "/b")
      []
      headers
      (header let_in)
verify_request-IsAuthentic_example =
    verify_request-IsAuthentic crypto percent secrets seconds_since (codes "GET") (codes "/b") []
      headers (header let_in) request_verified
