-- ===== src/Verifier/Apply.antt =====
-- `apply_verifications_to_hypotheses` (fraudshield/deceptiscope/verifier.py).
use boi.Prelude.Floats.{Floats}
use boi.Prelude.{
  String, Option, none, some, List, [], ◌∷◌, ◌++◌, map, ◌==◌, string_eq, if◌then◌else◌,
}
use boi.Scoring.Rules.{is_cons}
use boi.Verifier.Types.{Hypothesis, Verification, or_default}
use boi.Verifier.Index.{unique_strings}

-- An update of `feedback_updates`: a key that it lacks is `none`, or the empty list.
pub record Feedback : Type 0 where
  pub reasoning_summary : Option String
  pub recommended_next_steps : Option (List String)
  pub limitations : Option (List String)
  pub missing_evidence : List String

abbrev pub or_kept {ℓ} : {A : Type ℓ} → Option A → Option A → Option A
or_kept none old = old
or_kept (some new) old = some new

unfoldable pub feedback_of : String → List (String × Feedback) → Option Feedback
feedback_of i [] = none
feedback_of i ((j, b) ∷ m) = if j == i then some b else feedback_of i m

-- `_unique_strings([*old, *new], 12)`, where there is something new.
abbrev pub merged_missing : List String → List String → List String
merged_missing old new = if is_cons new then unique_strings (old ++ new) 12 else old

module _ (fs : Floats) where
  -- `by_id.get(i)`: the last verification of an id is the dict's.
  unfoldable pub verification_of : String → List (Verification fs) → Option (Verification fs)
  verification_of i [] = none
  verification_of i (v ∷ vs) = elim (verification_of i vs) [
    | some w ↦ some w
    | none ↦ if v.hypothesis_id == i then some v else none
  ]

  unfoldable pub with_verification : Verification fs → Hypothesis fs → Hypothesis fs
  with_verification v h = record h {
    status = some v.verified_status;
    evidence_strength = some v.evidence_strength;
    verification_summary = some v.deterministic_explanation;
    runtime_evidence_ids = v.runtime_evidence_ids;
    missing_evidence = merged_missing h.missing_evidence v.missing_signals;
  }

  unfoldable pub with_feedback : Feedback → Hypothesis fs → Hypothesis fs
  with_feedback b h = record h {
    reasoning_summary = or_kept b.reasoning_summary h.reasoning_summary;
    recommended_next_steps = or_default h.recommended_next_steps b.recommended_next_steps;
    limitations = or_default h.limitations b.limitations;
    missing_evidence = merged_missing h.missing_evidence b.missing_evidence;
  }

  -- `str(item.get("hypothesis_id"))`
  abbrev pub shown_id : Hypothesis fs → String
  shown_id h = or_default "None" h.hypothesis_id

  -- `if verification:` and `if feedback:`
  unfoldable pub verified_by : Option (Verification fs) → Hypothesis fs → Hypothesis fs
  verified_by none h = h
  verified_by (some v) h = with_verification v h

  unfoldable pub told_by : Option Feedback → Hypothesis fs → Hypothesis fs
  told_by none h = h
  told_by (some b) h = with_feedback b h

  unfoldable pub updated :
      List (Verification fs) → List (String × Feedback) → Hypothesis fs → Hypothesis fs
  updated vs feedback h =
      told_by (feedback_of (shown_id h) feedback) (verified_by (verification_of (shown_id h) vs) h)

  unfoldable pub apply_verifications_to_hypotheses :
      List (Hypothesis fs)
      → List (Verification fs)
      → List (String × Feedback)
      → List (Hypothesis fs)
  apply_verifications_to_hypotheses hs vs feedback = map (updated vs feedback) hs
