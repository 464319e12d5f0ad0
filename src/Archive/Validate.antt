-- ===== src/Archive/Validate.antt =====
-- `validate_apk_archive` (fraudshield/deceptiscope/validator.py). Opening the file and reading its
-- directory is the library's: what it yields is an argument.
use Prim.Native.Char.{code}
use text.Mathlib.Text.{starts_with}
use boi.Prelude.Floats.{Floats}
use boi.Prelude.{
  ℕ, ◌+◌, ◌/◌, ◌%◌, String, Bool, true, false, ◌&&◌, ◌||◌, not, Option, none, some, List, [], ◌∷◌,
  ◌==◌, string_eq, nat_eq, nat_beq, max, ltb, any, keep, contains, length, ends_with, if◌then◌else◌,
}
use boi.Security.Roles.{sorted_set}

-- A `ZipInfo`: the directory's fields have no sign.
pub record Entry : Type 0 where
  pub filename : String
  pub flag_bits : ℕ
  pub external_attr : ℕ
  pub file_size : ℕ
  pub compress_size : ℕ

-- The file on the disk: its first four bytes, and its directory, where the library can read one.
pub record Upload : Type 0 where
  pub is_file : Bool
  pub size : ℕ
  pub magic : List ℕ
  pub entries : Option (List Entry)

pub record Limits : Type 0 where
  pub max_apk_bytes : ℕ
  pub max_zip_entries : ℕ
  pub max_zip_uncompressed_bytes : ℕ

pub data Error : Type 0 where
  apk_missing empty_apk apk_too_large invalid_apk_magic apk_too_many_entries : Error
  unsafe_apk_path duplicate_apk_entry encrypted_apk_entry unsafe_apk_symlink : Error
  apk_uncompressed_too_large missing_manifest suspicious_compression_ratio : Error
  invalid_apk_zip : Error

abbrev pub starts_bytes : List ℕ → List ℕ → Bool
starts_bytes [] bytes = true
starts_bytes (p ∷ ps) [] = false
starts_bytes (p ∷ ps) (b ∷ bs) = p == b && starts_bytes ps bs

-- `ZIP_MAGICS`
unfoldable pub is_zip : List ℕ → Bool
is_zip magic =
    any (λ prefix. starts_bytes prefix magic)
      ((80 ∷ 75 ∷ 3 ∷ 4 ∷ []) ∷ (80 ∷ 75 ∷ 5 ∷ 6 ∷ []) ∷ (80 ∷ 75 ∷ 7 ∷ 8 ∷ []) ∷ [])

unfoldable pub has_char : ℕ → String → Bool
has_char n String.[] = false
has_char n (String.◌∷◌ c s) = nat_beq (code c) n || has_char n s

abbrev pub onto_first : String → List String → List String
onto_first s [] = s ∷ []
onto_first s (p ∷ ps) = Prim.Native.String.◌++◌ s p ∷ ps

-- The parts of a path between its slashes. (`parts` leaves out the empty ones and ".".)
unfoldable pub path_parts : String → List String
path_parts String.[] = "" ∷ []
path_parts (String.◌∷◌ c s) =
    let rest = path_parts s in
    if nat_beq (code c) b'/' then "" ∷ rest else onto_first (String.◌∷◌ c String.[]) rest

-- A NUL or a backslash in the name, or no name.
unfoldable pub is_invalid_name : String → Bool
is_invalid_name name = name == "" || has_char 0 name || has_char b'\\' name

unfoldable pub leaves_archive : String → Bool
leaves_archive name = starts_with name "/" || contains ".." (path_parts name)

-- `stat.S_ISLNK` of the upper half of the attributes; `& 0x1` of the flags.
unfoldable pub is_symlink : Entry → Bool
is_symlink e = e.external_attr / 65536 % 65536 / 4096 == 10

unfoldable pub is_encrypted : Entry → Bool
is_encrypted e = e.flag_bits % 2 == 1

-- The tests of the loop's body, in their order; `names` are the names before.
unfoldable pub entry_error : List String → Entry → Option Error
entry_error names e =
    if is_invalid_name e.filename
    then some unsafe_apk_path
    else if leaves_archive e.filename
    then some unsafe_apk_path
    else if contains e.filename names
    then some duplicate_apk_entry
    else if is_encrypted e
    then some encrypted_apk_entry
    else if is_symlink e
    then some unsafe_apk_symlink
    else none

-- The loop's variables.
pub record Scan : Type 0 where
  pub total_uncompressed : ℕ
  pub total_compressed : ℕ
  pub names : List String

pub data Result (A : Type 0) : Type 0 where
  ok : A → Result A
  err : Error → Result A

abbrev pub grown : Entry → Scan → Scan
grown e s = record {
  total_uncompressed = s.total_uncompressed + e.file_size;
  total_compressed = s.total_compressed + e.compress_size;
  names = e.filename ∷ s.names;
}

abbrev pub unless : {A : Type 0} → Option Error → Result A → Result A
unless none r = r
unless (some e) r = err e

unfoldable pub scan : List Entry → Scan → Result Scan
scan [] s = ok s
scan (e ∷ es) s = unless (entry_error s.names e) (scan es (grown e s))

abbrev pub empty_scan : Scan
empty_scan = record { total_uncompressed = 0; total_compressed = 0; names = [] }

module _ (fs : Floats) where
  open fs use {Float, literal, of_nat, div, less, round_to}

  pub record Summary : Type 0 where
    pub entry_count : ℕ
    pub compressed_bytes : ℕ
    pub uncompressed_bytes : ℕ
    pub compression_ratio : Float
    pub dex_files : List String
    pub warns : Bool

  unfoldable pub ratio : Scan → Float
  ratio s = div (of_nat s.total_uncompressed) (of_nat (max s.total_compressed 1))

  unfoldable pub is_bomb : Scan → Bool
  is_bomb s = less (literal 250 0) (ratio s) && ltb 52428800 s.total_uncompressed

  unfoldable pub dex_files : List String → List String
  dex_files names =
      sorted_set (keep (λ name. starts_with name "classes" && ends_with name ".dex") names)

  abbrev pub is_empty : List String → Bool
  is_empty [] = true
  is_empty (x ∷ xs) = false

  -- The dict that is returned; `warns` says whether its list of warnings has the one there is.
  unfoldable pub summary : List Entry → Scan → Summary
  summary entries s = record {
    entry_count = length entries;
    compressed_bytes = s.total_compressed;
    uncompressed_bytes = s.total_uncompressed;
    compression_ratio = round_to 3 (ratio s);
    dex_files = dex_files s.names;
    warns = is_empty (dex_files s.names);
  }

  -- From the end of the loop to the report.
  unfoldable pub finish : Limits → List Entry → Scan → Result Summary
  finish l entries s =
      if ltb l.max_zip_uncompressed_bytes s.total_uncompressed
      then err apk_uncompressed_too_large
      else if not (contains "AndroidManifest.xml" s.names)
      then err missing_manifest
      else if is_bomb s
      then err suspicious_compression_ratio
      else ok (summary entries s)

  abbrev pub and_finish : Limits → List Entry → Result Scan → Result Summary
  and_finish l entries (ok s) = finish l entries s
  and_finish l entries (err e) = err e

  unfoldable pub validate_entries : Limits → Option (List Entry) → Result Summary
  validate_entries l none = err invalid_apk_zip
  validate_entries l (some entries) =
      if ltb l.max_zip_entries (length entries)
      then err apk_too_many_entries
      else and_finish l entries (scan entries empty_scan)

  unfoldable pub validate_apk_archive : Limits → Upload → Result Summary
  validate_apk_archive l u =
      if not u.is_file
      then err apk_missing
      else if u.size == 0
      then err empty_apk
      else if ltb l.max_apk_bytes u.size
      then err apk_too_large
      else if not (is_zip u.magic)
      then err invalid_apk_magic
      else validate_entries l u.entries
