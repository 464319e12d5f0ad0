-- ===== src/Payloads/Examples.antt =====
-- The recovery of payloads at concrete inputs
-- (fraudshield/deceptiscope/payloads/recovery_manager.py). SHA-256 stands for a constant.
use boi.Prelude.{ℕ, ◌+◌, ◌≤◌, ◌≡◌, refl, arith, String, none, List, [], ◌∷◌, map, length, All}
use boi.Payloads.Recovery.{
  zip_magic, Bytes, Origin, default_manager, zeros, contents, missing, process_payload_bytes,
  registered, by_magic, validated, is_valid_payload, validate_magic, is_dex, dex_magics,
  recover_from_file_path, or_failed,
}
use boi.Payloads.Handed.{Call, process, recover, Ascends, handed_by, step, handed, IsHandedOn}
use boi.Payloads.Bounded.{handed-IsBounded}

abbrev sum_of : Bytes → String
sum_of raw = zeros

abbrev shown : Bytes → String
shown raw = "b'...'"

abbrev origin : ℕ → Origin
origin depth = record {
  parent_sha256 = zeros;
  source = "MEMORY_DUMP";
  loader = "InMemoryDexClassLoader";
  runtime_evidence_id = none;
  recursion_depth = depth;
}

abbrev dex_bytes : Bytes
dex_bytes = 100 ∷ 101 ∷ 120 ∷ 10 ∷ 48 ∷ 51 ∷ 53 ∷ 0 ∷ 7 ∷ []

abbrev jar_bytes : Bytes
jar_bytes = 80 ∷ 75 ∷ 3 ∷ 4 ∷ 1 ∷ 2 ∷ 3 ∷ 4 ∷ []

abbrev calls : List Call
calls =
    process (origin 1) dex_bytes
    ∷ process (origin 0) dex_bytes
    ∷ process (origin 0) (1 ∷ 2 ∷ [])
    ∷ recover (origin 0) missing
    ∷ recover (origin 0) (contents jar_bytes)
    ∷ []

two_handed :
    map {B = ℕ × Bytes}
      (λ (c, p, b). (p.payload_id, b))
      (handed sum_of shown "invalid" default_manager calls)
    ≡ (1, dex_bytes) ∷ (3, jar_bytes) ∷ []
unfolding handed handed_by step process_payload_bytes registered by_magic validated is_valid_payload
    validate_magic is_dex dex_magics recover_from_file_path or_failed default_manager zip_magic
two_handed = refl

handed-IsBounded_example :
    All
      (IsHandedOn sum_of shown "invalid" default_manager)
      (handed sum_of shown "invalid" default_manager calls)
    × Ascends 0 5 (handed sum_of shown "invalid" default_manager calls)
    × (0 + length (handed sum_of shown "invalid" default_manager calls) ≤ 5)
unfolding default_manager
handed-IsBounded_example =
    handed-IsBounded sum_of shown "invalid" default_manager calls (omega arith)
