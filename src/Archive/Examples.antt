-- ===== src/Archive/Examples.antt =====
-- The theorems on the check of a package at a small one, and a test of the paths.
use boi.Prelude.Decimals.{decimal}
use boi.Prelude.{ℕ, ◌≡◌, refl, String, true, some, List, [], ◌∷◌, length, arith}
use boi.Archive.Validate.{
  Entry, Upload, Limits, empty_scan, scan, entry_error, is_invalid_name, has_char, leaves_archive,
  path_parts, is_encrypted, is_symlink, is_zip, is_bomb, ratio, Summary, summary, finish,
  validate_entries, validate_apk_archive, ok,
}
use boi.Archive.Names.{uncompressed, compressed, after}
use boi.Archive.Acceptance.{IsFile, IsAcceptable, accepted-IsAcceptable, IsAcceptable-accepted}

abbrev entry : String → ℕ → Entry
entry name size = record {
  filename = name;
  flag_bits = 0;
  external_attr = 0;
  file_size = size;
  compress_size = size;
}

abbrev apk : List Entry
apk = entry "AndroidManifest.xml" 700 ∷ entry "classes.dex" 9000 ∷ []

abbrev upload : List Entry → Upload
upload es = record { is_file = true; size = 5000; magic = 80 ∷ 75 ∷ 3 ∷ 4 ∷ []; entries = some es }

abbrev limits : Limits
limits = record {
  max_apk_bytes = 100000;
  max_zip_entries = 100;
  max_zip_uncompressed_bytes = 1000000;
}

goes_up : leaves_archive "lib/../../etc" ≡ true
unfolding leaves_archive path_parts
goes_up = refl

upload-IsFile : IsFile limits (upload apk)
unfolding is_zip
upload-IsFile = record { present = refl; some_bytes = omega arith; small = omega arith; zip = refl }

apk-IsAcceptable : IsAcceptable decimal limits apk
unfolding is_invalid_name has_char leaves_archive path_parts is_encrypted is_symlink is_bomb ratio
apk-IsAcceptable = record {
  few = omega arith;
  safe = (
    record { valid_name = refl; stays_inside = refl; plain = refl; no_link = refl },
    (record { valid_name = refl; stays_inside = refl; plain = refl; no_link = refl }, tt),
  );
  distinct = (refl, (refl, tt));
  bounded = omega arith;
  manifest = refl;
  no_bomb = refl;
}

validate_apk :
    validate_apk_archive decimal limits (upload apk)
    ≡ ok (summary decimal apk (after apk empty_scan))
unfolding validate_apk_archive is_zip validate_entries scan entry_error is_invalid_name has_char
    leaves_archive path_parts is_encrypted is_symlink finish is_bomb ratio summary
validate_apk = refl

accepted-IsAcceptable_example :
    let r = summary decimal apk (after apk empty_scan) in
    (es : List Entry) × (some apk ≡ some es)
    × IsFile limits (upload apk)
    × IsAcceptable decimal limits es
    × (r.entry_count ≡ length es)
    × (r.uncompressed_bytes ≡ uncompressed es)
    × (r.compressed_bytes ≡ compressed es)
accepted-IsAcceptable_example =
    accepted-IsAcceptable decimal limits (upload apk) (summary decimal apk (after apk empty_scan))
      validate_apk

IsAcceptable-accepted_example :
    (r : Summary decimal) × (validate_apk_archive decimal limits (upload apk) ≡ ok r)
IsAcceptable-accepted_example =
    IsAcceptable-accepted decimal limits (upload apk) apk upload-IsFile refl apk-IsAcceptable
