-- ===== src/Verifier/Types.antt =====
-- What the verifier reads and returns (fraudshield/deceptiscope/verifier.py): hypotheses, the
-- findings of the analysis, and verifications.
use boi.Prelude.Floats.{Floats}
use boi.Prelude.{ℕ, String, Bool, Option, List}
use boi.Scoring.Rules.{Signal}

-- `ev.get("trust_level")`: a member of the enum, with its value and with its `str`; a text; or
-- nothing, which `str` prints as None.
pub data Trust : Type 0 where
  member : String → String → Trust
  text : String → Trust
  no_trust : Trust

-- An item of `runtime_evidence`: `metadata_text` is `str(metadata)`. A list may also hold items
-- that are no dict, which the code filters out: they are left out here.
pub record Item : Type 0 where
  pub evidence_id : String
  pub evidence_type : String
  pub trust_level : Trust
  pub timestamp_ms : ℕ
  pub payload_correlated : Bool
  pub metadata_text : String

-- An item of `experiment_results`.
pub record Experiment : Type 0 where
  pub experiment_id : String
  pub experiment_type : String
  pub status : String

-- `findings`, with the dict of its extraction.
pub record Findings : Type 0 where
  pub permissions : List String
  pub components : List (String × Bool)
  pub signals : List (String × Signal)
  pub network_indicators : List (String × List String)
  pub urls : List String
  pub runtime_evidence : List Item
  pub experiment_results : List Experiment
  pub dynamic_experiment_results : List Experiment

-- An item of `normalized_evidence`: the text that its tokens are looked for in, before `lower`.
pub record Normalized : Type 0 where
  pub evidence_id : String
  pub searched : String

-- `str.upper`, `str.lower`, and `part in text`.
pub record Texts : Type 0 where
  pub upper : String → String
  pub lower : String → String
  pub occurs : String → String → Bool

module _ (fs : Floats) where
  open fs use {Float}

  -- A key that the dict lacks is `none`; the lists default to empty.
  pub record Hypothesis : Type 0 where
    pub hypothesis_id : Option String
    pub category : Option String
    pub status : Option String
    pub confidence : Option Float
    pub evidence_strength : Option Float
    pub verification_summary : Option String
    pub runtime_evidence_ids : List String
    pub missing_evidence : List String
    pub reasoning_summary : Option String
    pub recommended_next_steps : List String
    pub limitations : List String

  pub record Verification : Type 0 where
    pub hypothesis_id : String
    pub category : String
    pub original_status : String
    pub verified_status : String
    pub evidence_strength : Float
    pub ai_confidence : Float
    pub static_evidence_ids : List String
    pub runtime_evidence_ids : List String
    pub experiment_result_ids : List String
    pub observed_signals : List String
    pub missing_signals : List String
    pub deterministic_explanation : String
    pub confirmation_allowed : Bool

-- `hypothesis.get(key, default)`
abbrev pub or_default {ℓ} : {A : Type ℓ} → A → Option A → A
or_default d Option.none = d
or_default d (Option.some a) = a
