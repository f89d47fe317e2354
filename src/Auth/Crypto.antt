-- ===== src/Auth/Crypto.antt =====
-- The primitives of src/auth.rs. The crates hmac, sha2 and hex are parameters.
use los_cara.Base.{
  ℕ, zero, suc, none, some, Bool, true, false, ◌&&◌, Option, [], ◌∷◌, ◌++◌, leb, ◌==◌,
  if◌then◌else◌, Text, codes,
}

pub record Crypto : Type 0 where
  -- The key, and the bytes that are signed.
  pub hmac_sha256 : Text → Text → Text
  pub sha256 : Text → Text
  pub hex_encode : Text → Text
  pub hex_decode : Text → Option Text

abbrev pub newline : Text
newline = 10 ∷ []

module _ (c : Crypto) where
  abbrev pub sha256_hex : Text → Text
  sha256_hex s = c.hex_encode (c.sha256 s)

  unfoldable pub signing_key : Text → Text → Text → Text → Text
  signing_key secret date region service =
      let k_date = c.hmac_sha256 (codes "AWS4" ++ secret) date in
      let k_region = c.hmac_sha256 k_date region in
      let k_service = c.hmac_sha256 k_region service in
      c.hmac_sha256 k_service (codes "aws4_request")

-- The bytes that follow a first byte of UTF-8: how many, and the bounds of the next one.
abbrev lead : ℕ → Option (ℕ × ℕ × ℕ)
lead a =
    if leb a 127
    then some (0, 0, 0)
    else if leb 194 a && leb a 223
    then some (1, 128, 191)
    else if leb 224 a && leb a 239
    then some (2, if a == 224 then 160 else 128, if a == 237 then 159 else 191)
    else if leb 240 a && leb a 244
    then some (3, if a == 240 then 144 else 128, if a == 244 then 143 else 191)
    else none

unfoldable pub utf8_after : ℕ → ℕ → ℕ → Text → Bool
utf8_after zero lo hi [] = true
utf8_after (suc k) lo hi [] = false
utf8_after zero lo hi (a ∷ s) = elim (lead a) [
  | none ↦ false
  | some (k, low, high) ↦ utf8_after k low high s
]
utf8_after (suc k) lo hi (a ∷ s) = if leb lo a && leb a hi then utf8_after k 128 191 s else false

-- `std::str::from_utf8(s).is_ok()`.
unfoldable pub is_utf8 : Text → Bool
unfolding utf8_after
is_utf8 s = utf8_after 0 0 0 s
