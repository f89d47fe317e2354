-- ===== src/S3/Http/Headers.antt =====
-- The headers of a response in src/s3.rs.
use los_cara.Base.{
  ◌≡◌, some, List, [], ◌∷◌, arith, Text, false, map_get, map_insert, text_eq, text_eq_iff,
}

pub header-inserted :
    (name value : Text) (h : List (Text × Text))
    → map_get text_eq name (map_insert text_eq (λ (j k : Text). false) name value h) ≡ some value
unfolding map_get map_insert
header-inserted name value [] = ground (arith, text_eq_iff name name)
header-inserted name value ((j, v) ∷ h) =
    ground (arith, header-inserted name value h, text_eq_iff name name)
