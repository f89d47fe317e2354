-- ===== src/Tests/Start.antt =====
-- Runs of src/config.rs, of the key store and of the housekeeping.
use los_cara.Base.{
  ℕ, zero, suc, ap, ◌∙◌, append-nil, append_assoc, ◌≡◌, ◌⊎◌, ◌≢◌, ◌≤◌, refl, arith, Option, none,
  some, List, [], ◌∷◌, ◌++◌, true, false, Text, codes, length, text_eq, map_get, if◌then◌else◌,
}
use los_cara.Storage.Fs
use los_cara.Storage.Fs.{FilePath, Fs, file, dir, child, parent, path_eq, is_dir}
use los_cara.Storage.Io.{World, done, killed, map_err, ◌>>=◌}
use los_cara.Storage.Buckets.{open_storage}
use los_cara.Storage.Cleanup.{seconds, tmp_dir, cleanup_tmp}
use los_cara.Storage.Cleanup.Keeps.{cleanup_tmp-keeps}
use los_cara.S3.Handlers.Uploads.{part_page}
use los_cara.S3.Handlers.PartPages.{Parts, IsRising, after, part_page-resumes}
use los_cara.Auth.Keys.{Keys, KeyFile, lookup, new_store, read_keys, get_key, overlaid, IsDistinct}
use los_cara.Auth.Keys.Refines.{IsOrdered, Op, add, remove, run, replay, view, run_refines}
use los_cara.Config.Start.{
  Variables, bind, root_credentials, Serve, Listening, Network, serve_with_cors,
}
use los_cara.Config.Unset.{serve_with_cors-given, serve_with_cors-unset}
use los_cara.Config.KeyStore.{remove_key}
use los_cara.Config.KeyStore.Torn.{cut, remove_key-torn}
use los_cara.Tests.Atomic.{env}
use los_cara.Tests.ReadBack.{quiet}

bucket_file : FilePath
bucket_file = codes "meta.json" ∷ codes "b" ∷ codes "buckets" ∷ []

no_time : FilePath → Option ℕ
no_time p = some 0

elsewhere : parent bucket_file ≢ tmp_dir env [] no_time
unfolding codes bucket_file
elsewhere h = cc

cleanup_tmp-keeps_example :
    Fs.lookup bucket_file (cleanup_tmp env [] no_time {E = Unit} (seconds 60) quiet).1.fs
    ≡ Fs.lookup bucket_file quiet.fs
cleanup_tmp-keeps_example =
    cleanup_tmp-keeps Unit env [] no_time (seconds 60) bucket_file quiet elsewhere

abbrev parts : Parts
parts = (1, (codes "a", 5)) ∷ (3, (codes "b", 6)) ∷ (4, (codes "c", 7)) ∷ []

parts-IsRising : IsRising parts
parts-IsRising = ground arith

part_page-resumes_example :
    (length (part_page parts 1 1).shown ≤ 1)
    × (((part_page parts 1 1).truncated ≡ false) × ((part_page parts 1 1).shown ≡ after 1 parts)
        ⊎ ((part_page parts 1 1).truncated ≡ true)
          × ((n : ℕ) × ((part_page parts 1 1).next_marker ≡ some n)
              × ((part_page parts 1 1).shown ++ after n parts ≡ after 1 parts)))
part_page-resumes_example = part_page-resumes parts 1 1 parts-IsRising (omega arith)

-- An encoding of a key file: a mark, and a one before each byte, and a zero after each text.
abbrev write_text : Text → Text → Text
write_text [] rest = 0 ∷ rest
write_text (c ∷ s) rest = 1 ∷ c ∷ write_text s rest

abbrev write_keys : Keys → Text
write_keys [] = []
write_keys ((k, v) ∷ m) = write_text k (write_text v (write_keys m))

-- The key that was read, where a value is being read, and the bytes so far.
abbrev scan_keys : Option Text → Text → Text → Keys
scan_keys key seen [] = []
scan_keys none seen (zero ∷ s) = scan_keys (some seen) [] s
scan_keys (some k) seen (zero ∷ s) = (k, seen) ∷ scan_keys none [] s
scan_keys key seen (suc n ∷ []) = []
scan_keys key seen (suc n ∷ c ∷ s) = scan_keys key (seen ++ (c ∷ [])) s

scan-key :
    (seen k rest : Text)
    → scan_keys none seen (write_text k rest) ≡ scan_keys (some (seen ++ k)) [] rest
scan-key seen [] rest = rw (append-nil seen) refl
scan-key seen (c ∷ k) rest =
    scan-key (seen ++ (c ∷ [])) k rest
    ∙ ap (λ s. scan_keys (some s) [] rest) (append_assoc seen (c ∷ []) k)

scan-value :
    (key seen v rest : Text)
    → scan_keys (some key) seen (write_text v rest) ≡ (key, seen ++ v) ∷ scan_keys none [] rest
scan-value key seen [] rest = rw (append-nil seen) refl
scan-value key seen (c ∷ v) rest =
    scan-value key (seen ++ (c ∷ [])) v rest
    ∙ ap (λ s. (key, s) ∷ scan_keys none [] rest) (append_assoc seen (c ∷ []) v)

scan-written : (m : Keys) → scan_keys none [] (write_keys m) ≡ m
scan-written [] = refl
scan-written ((k, v) ∷ m) =
    scan-key [] k (write_text v (write_keys m))
    ∙ scan-value k [] v (write_keys m)
    ∙ ap (λ (r : Keys). (k, v) ∷ r) (scan-written m)

abbrev write_file : Keys → Text
write_file m = 2 ∷ write_keys m

abbrev read_text : Text → Option Keys
read_text [] = none
read_text (c ∷ s) = some (scan_keys none [] s)

read_text-written : (m : Keys) → read_text (write_file m) ≡ some m
read_text-written m = ap some (scan-written m)

abbrev commands : List Op
commands = add (codes "a") (codes "1") ∷ add (codes "b") (codes "2") ∷ remove (codes "a") ∷ []

nothing-IsOrdered : IsOrdered (read_keys read_text none)
unfolding read_keys
nothing-IsOrdered = tt

run_refines_example :
    IsOrdered (read_keys read_text (run read_text write_file read_text-written commands none))
    × ((j : Text)
        → view read_text write_file read_text-written
            (run read_text write_file read_text-written commands none)
            j
          ≡ replay commands (view read_text write_file read_text-written none) j)
run_refines_example =
    run_refines read_text write_file read_text-written commands none nothing-IsOrdered

-- A start without any credentials over an empty directory.
abbrev blank : World
blank = record { fs = []; io = []; draws = 0; ticks = 0 }

abbrev no_file : KeyFile
no_file = record { sig = none; content = none }

abbrev no_variables : Variables
no_variables = record {
  lc_access_key = none;
  lc_secret_key = none;
  los_cara_access_key = none;
  los_cara_secret_key = none;
}

abbrev network : Network
network = record { is_address = λ s. true; load_tls = λ c k. none; can_bind = λ s. true }

abbrev args : Serve
args = record {
  address = codes "127.0.0.1:9000";
  data_dir = codes "data" ∷ [];
  access_key = none;
  secret_key = none;
  tls_cert = none;
  tls_key = none;
  allowed_origins = [];
}

abbrev listening : Listening
listening = record { store = new_store read_text no_file [] []; origins = []; over_tls = false }

abbrev blank_after : World
blank_after = (serve_with_cors env read_text network no_variables no_file args blank).1

served :
    serve_with_cors env read_text network no_variables no_file args blank
    ≡ (done listening, blank_after)
unfolding serve_with_cors root_credentials ◌>>=◌ open_storage codes map_err Fs.lookup Fs.set path_eq
    text_eq bind
served = refl

nothing-IsDistinct : IsDistinct (read_keys read_text no_file.content)
unfolding read_keys
nothing-IsDistinct = tt

-- The same with an access key as an argument and its secret in the environment.
abbrev with_secret : Variables
with_secret = record no_variables { los_cara_secret_key = some (codes "s") }

abbrev with_access : Serve
with_access = record args { access_key = some (codes "a") }

abbrev given_listening : Listening
given_listening = record {
  store = new_store read_text no_file (codes "a") (codes "s");
  origins = [];
  over_tls = false;
}

abbrev given_after : World
given_after = (serve_with_cors env read_text network with_secret no_file with_access blank).1

given_served :
    serve_with_cors env read_text network with_secret no_file with_access blank
    ≡ (done given_listening, given_after)
unfolding serve_with_cors root_credentials ◌>>=◌ open_storage codes map_err Fs.lookup Fs.set path_eq
    text_eq bind
given_served = refl

given_not_empty : (codes "a" ≢ []) × (codes "s" ≢ [])
unfolding codes
given_not_empty = (λ h. cc, λ h. cc)

serve_with_cors-given_example :
    (lookup read_text no_file (codes "a") given_listening.store).0
    ≡ overlaid
        (get_key (codes "a") (read_keys read_text no_file.content))
        (if text_eq (codes "a") (codes "a") then some (codes "s") else none)
serve_with_cors-given_example =
    serve_with_cors-given env read_text network with_secret no_file with_access given_listening
      blank given_after (codes "a") (codes "a") (codes "s") nothing-IsDistinct given_not_empty.0
      given_not_empty.1 refl refl given_served

no_empty_key : get_key [] (read_keys read_text no_file.content) ≡ none
unfolding read_keys map_get
no_empty_key = refl

serve_with_cors-unset_example : (lookup read_text no_file [] listening.store).0 ≡ some []
serve_with_cors-unset_example =
    serve_with_cors-unset env read_text network no_variables no_file args listening blank
      blank_after nothing-IsDistinct refl no_empty_key served

abbrev key_text : Text
key_text = write_file ((codes "a", codes "1") ∷ [])

abbrev key_tree : Fs
key_tree = (child [] (codes "keys.json"), file key_text) ∷ []

key_installed : Fs.lookup (child [] (codes "keys.json")) key_tree ≡ some (file key_text)
unfolding Fs.lookup path_eq text_eq codes
key_installed = refl

remove_key-torn_example :
    ((remove_key read_text write_file [] (codes "b") (cut key_tree 0 0 [] 0)).0 ≡ killed)
    × (Fs.lookup
          (child [] (codes "keys.json"))
          (remove_key read_text write_file [] (codes "b") (cut key_tree 0 0 [] 0)).1.fs
        ≡ some (file []))
    × ((j : Text) → get_key j (read_keys read_text (some [])) ≡ none)
remove_key-torn_example =
    remove_key-torn read_text write_file [] key_tree key_text (codes "b") 0 0 [] key_installed refl
      refl
