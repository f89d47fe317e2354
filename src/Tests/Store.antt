-- ===== src/Tests/Store.antt =====
-- Runs of the multipart checks and of the listing of src/storage.rs.
use los_cara.Base.{
  text_leb, ◌≡◌, ◌↔◌, refl, some, none, [], ◌∷◌, ◌++◌, List, ℕ, ◌+◌, arith, Text, codes, All,
  filter, take, ltb, length, if◌then◌else◌,
}
use los_cara.Error.{ok}
use los_cara.Storage.Types.{ObjectMeta}
use los_cara.Storage.Multipart.{Listed, Part, numbers, check_parts}
use los_cara.Storage.Multipart.Check.{IsAscending, IsKnown, AllLarge, check_parts_iff}
use los_cara.Storage.Listing.{page}
use los_cara.Storage.Listing.Flat.{listed, last_key, page_flat, pages_join}
use los_cara.Storage.Listing.Order.{IsRising}

abbrev uploaded : List (ℕ × Part)
uploaded = (1, (codes "a", 6000000)) ∷ (2, (codes "b", 6000000)) ∷ (4, (codes "c", 5)) ∷ []

abbrev request : Listed
request = (1, codes "a") ∷ (4, codes "c") ∷ []

check_parts_iff_example : (check_parts uploaded request ≡ ok request) ↔ (
    (request ≡ request)
    × IsAscending (numbers request)
    × All (IsKnown uploaded) request
    × AllLarge uploaded request)
check_parts_iff_example = check_parts_iff uploaded request request

abbrev object : Text → ObjectMeta
object key = record {
  key = key;
  size = 1;
  etag = [];
  content_type = [];
  last_modified = 0;
  metadata = [];
  data_file = none;
}

abbrev bucket : List ObjectMeta
bucket =
    object (codes "a") ∷ object (codes "b/1") ∷ object (codes "b/2") ∷ object (codes "b/3") ∷ []

bucket-IsRising : IsRising [] bucket
unfolding codes text_leb
bucket-IsRising = (refl, (refl, (refl, (refl, tt))))

page_flat_example :
    ((page (codes "b/") [] (codes "b/1") 1 bucket).contents
      ≡ take 1 (filter (listed (codes "b/") (codes "b/1")) bucket))
    × ((page (codes "b/") [] (codes "b/1") 1 bucket).truncated
        ≡ ltb 1 (length (filter (listed (codes "b/") (codes "b/1")) bucket)))
    × ((page (codes "b/") [] (codes "b/1") 1 bucket).common_prefixes ≡ [])
    × ((page (codes "b/") [] (codes "b/1") 1 bucket).next_prefix_token ≡ none)
    × ((page (codes "b/") [] (codes "b/1") 1 bucket).next_token ≡ (
        if ltb 1 (length (filter (listed (codes "b/") (codes "b/1")) bucket))
        then last_key none (take 1 (filter (listed (codes "b/") (codes "b/1")) bucket))
        else none))
page_flat_example = page_flat (codes "b/") (codes "b/1") 1 bucket [] bucket-IsRising

first_page : (page (codes "b/") [] [] 2 bucket).next_token ≡ some (codes "b/2")
unfolding page codes
first_page = refl

pages_join_example :
    ((page (codes "b/") [] [] 2 bucket).contents
        ++ filter (listed (codes "b/") (codes "b/2")) bucket
      ≡ filter (listed (codes "b/") []) bucket)
    × ((n : ℕ)
        → (page (codes "b/") [] [] 2 bucket).contents
            ++ (page (codes "b/") [] (codes "b/2") n bucket).contents
          ≡ take (2 + n) (filter (listed (codes "b/") []) bucket))
pages_join_example =
    pages_join (codes "b/") [] (codes "b/2") 2 bucket bucket-IsRising (omega arith) first_page
