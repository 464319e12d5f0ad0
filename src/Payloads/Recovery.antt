-- ===== src/Payloads/Recovery.antt =====
-- PayloadRecoveryManager (fraudshield/deceptiscope/payloads/recovery_manager.py) and the payloads of
-- payload_models.py. An id "PAYLOAD-nnn" is its number. The methods return the answer, none where the
-- validation of the model raises, and the manager. SHA-256, the repr of bytes and the texts of
-- exceptions are parameters, and so is what reading a file ends in.
use Prim.Native.String.{◌++◌ as cat, len}
use boi.Prelude.{
  ℕ, ◌+◌, String, Bool, true, false, ◌&&◌, ◌||◌, Option, none, some, List, [], ◌∷◌, ◌==◌, nat_eq,
  ltb, leb, any, length, take, if◌then◌else◌,
}
use boi.Archive.Validate.{starts_bytes}

abbrev pub Bytes : Type 0
Bytes = List ℕ

pub data PayloadType : Type 0 where
  dex jar unknown : PayloadType

pub data AnalysisStatus : Type 0 where
  analyzed unavailable invalid_magic oversized failed : AnalysisStatus

-- The dict `metadata`: the key that it has, if any, and its value.
pub data Metadata : Type 0 where
  no_metadata : Metadata
  reason : String → Metadata
  max_allowed_bytes : ℕ → Metadata
  error : String → Metadata

-- RecoveredPayload, without the fields that the manager leaves at their defaults.
pub record RecoveredPayload : Type 0 where
  pub payload_id : ℕ
  pub parent_sample_sha256 : String
  pub sha256 : String
  pub payload_type : PayloadType
  pub size_bytes : ℕ
  pub source : String
  pub loader : String
  pub runtime_evidence_id : Option String
  pub analysis_status : AnalysisStatus
  pub metadata : Metadata

-- The validation of the model: an id of three digits, and SHA-256 sums of 64 characters.
unfoldable pub is_valid_payload : RecoveredPayload → Bool
is_valid_payload p = leb p.payload_id 999 && len p.parent_sample_sha256 == 64 && len p.sha256 == 64

pub record PayloadRecoveryManager : Type 0 where
  pub max_payload_size : ℕ
  pub max_payload_count : ℕ
  pub max_recursion_depth : ℕ
  pub recovered_count : ℕ

unfoldable pub default_manager : PayloadRecoveryManager
default_manager = record {
  max_payload_size = 10485760;
  max_payload_count = 5;
  max_recursion_depth = 1;
  recovered_count = 0;
}

-- What the methods are told of a payload, apart from its bytes.
pub record Origin : Type 0 where
  pub parent_sha256 : String
  pub source : String
  pub loader : String
  pub runtime_evidence_id : Option String
  pub recursion_depth : ℕ

-- A file that is missing or not regular, one that cannot be read, and one with these bytes.
pub data File : Type 0 where
  missing : File
  unreadable : String → File
  contents : Bytes → File

-- The descriptor, and the bytes that are handed on.
abbrev pub Answer : Type 0
Answer = Option (RecoveredPayload × Option Bytes)

unfoldable pub dex_magics : List Bytes
dex_magics =
    (100 ∷ 101 ∷ 120 ∷ 10 ∷ 48 ∷ 51 ∷ 53 ∷ 0 ∷ [])
    ∷ (100 ∷ 101 ∷ 120 ∷ 10 ∷ 48 ∷ 51 ∷ 55 ∷ 0 ∷ [])
    ∷ (100 ∷ 101 ∷ 120 ∷ 10 ∷ 48 ∷ 51 ∷ 56 ∷ 0 ∷ [])
    ∷ (100 ∷ 101 ∷ 120 ∷ 10 ∷ 48 ∷ 51 ∷ 57 ∷ 0 ∷ [])
    ∷ []

unfoldable pub zip_magic : Bytes
zip_magic = 80 ∷ 75 ∷ 3 ∷ 4 ∷ []

unfoldable pub is_dex : Bytes → Bool
is_dex raw =
    any (λ magic. starts_bytes magic raw) dex_magics || starts_bytes (100 ∷ 101 ∷ 120 ∷ 10 ∷ []) raw

-- `"0" * 64`
abbrev pub zeros : String
zeros = "0000000000000000000000000000000000000000000000000000000000000000"

-- A descriptor without bytes.
abbrev pub refused : ℕ → String → ℕ → Origin → AnalysisStatus → Metadata → RecoveredPayload
refused number hash size o status metadata = record {
  payload_id = number;
  parent_sample_sha256 = o.parent_sha256;
  sha256 = hash;
  payload_type = unknown;
  size_bytes = size;
  source = o.source;
  loader = o.loader;
  runtime_evidence_id = o.runtime_evidence_id;
  analysis_status = status;
  metadata = metadata;
}

-- `RecoveredPayload(...)`, which raises where its fields are not valid.
unfoldable pub validated : RecoveredPayload → Option Bytes → Answer
validated p bytes = if is_valid_payload p then some (p, bytes) else none

abbrev pub error_text : Option String → Metadata
error_text none = no_metadata
error_text (some e) = error e

abbrev pub grown : PayloadRecoveryManager → PayloadRecoveryManager
grown m = record m { recovered_count = m.recovered_count + 1 }

abbrev pub file_recovered : Origin → Origin
file_recovered o = record o { source = "FILE_RECOVERED" }

module _ (sha256_of : Bytes → String) (repr : Bytes → String) (validation_error : String) where
  unfoldable pub validate_magic : Bytes → Bool × PayloadType × Option String
  validate_magic raw =
      if ltb (length raw) 8
      then (false, unknown, some "Payload is too short to contain valid magic")
      else if is_dex raw
      then (true, dex, none)
      else if starts_bytes zip_magic raw
      then (true, jar, none)
      else (false, unknown, some (cat "Invalid magic header: " (repr (take 8 raw))))

  -- The magic bytes, with the number that the payload was given.
  unfoldable pub by_magic : ℕ → Origin → Bytes → Bool × PayloadType × Option String → Answer
  by_magic number o raw (true, t, e) =
      validated
        (record (refused number (sha256_of raw) (length raw) o analyzed no_metadata) {
          payload_type = t;
        })
        (some raw)
  by_magic number o raw (false, t, e) =
      validated (refused number (sha256_of raw) (length raw) o invalid_magic (error_text e)) none

  unfoldable pub registered : PayloadRecoveryManager → Origin → Bytes → Answer
  registered m o raw =
      if ltb m.max_payload_size (length raw)
      then validated
          (refused m.recovered_count (sha256_of raw) (length raw) o oversized
            (max_allowed_bytes m.max_payload_size))
          none
      else by_magic m.recovered_count o raw (validate_magic raw)

  unfoldable pub process_payload_bytes :
      PayloadRecoveryManager → Origin → Bytes → Answer × PayloadRecoveryManager
  process_payload_bytes m o raw =
      let next = m.recovered_count + 1 in
      if leb m.max_recursion_depth o.recursion_depth
      then (
        validated
            (refused next zeros (length raw) o unavailable
              (reason "Maximum recursion depth reached"))
            none,
        m,
      )
      else if leb m.max_payload_count m.recovered_count
      then (
        validated
            (refused next zeros (length raw) o unavailable
              (reason "Maximum recovered payload count exceeded"))
            none,
        m,
      )
      else (registered (grown m) o raw, grown m)

  -- `except Exception`, with the manager as the call left it.
  unfoldable pub or_failed :
      Origin → Answer × PayloadRecoveryManager → Answer × PayloadRecoveryManager
  or_failed o (some answer, m) = (some answer, m)
  or_failed o (none, m) = (
    validated (refused (m.recovered_count + 1) zeros 0 o failed (error validation_error)) none,
    m,
  )

  unfoldable pub recover_from_file_path :
      PayloadRecoveryManager → Origin → File → Answer × PayloadRecoveryManager
  recover_from_file_path m o missing = (
    validated
        (refused (m.recovered_count + 1) zeros 0 (file_recovered o) unavailable
          (error "File does not exist or is not a regular file"))
        none,
    m,
  )
  recover_from_file_path m o (unreadable e) = (
    validated (refused (m.recovered_count + 1) zeros 0 (file_recovered o) failed (error e)) none,
    m,
  )
  recover_from_file_path m o (contents raw) =
      or_failed (file_recovered o) (process_payload_bytes m (file_recovered o) raw)
