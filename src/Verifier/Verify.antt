-- ===== src/Verifier/Verify.antt =====
-- `_verify_accessibility`, `_verify_general`, `verify` and `_verification`
-- (fraudshield/deceptiscope/verifier.py).
use boi.Prelude.Floats.{Floats, minimum, maximum}
use boi.Prelude.{
  Bool, true, false, ◌&&◌, ◌||◌, not, List, [], ◌∷◌, ◌++◌, map, ◌==◌, string_eq, any, contains,
  if◌then◌else◌,
}
use boi.Scoring.Rules.{is_cons}
use boi.Verifier.Types.{Item, Findings, Normalized, Texts, Hypothesis, Verification, or_default}
use boi.Verifier.Index.{
  unique_strings, when_true, has_static_accessibility_signal, by_type, experiments, is_failure,
  has_failed_experiment, has_completed_experiment, runtime_ids, experiment_ids, shown_trust,
  matching_static_evidence_ids,
}
use boi.Verifier.Verdicts.{
  Verdict, Decision, status_of, supported_strength, downgrade_unconfirmed, verify_otp,
  verify_data_exfiltration,
}

module _ (fs : Floats) (ts : Texts) where
  open fs use {Float, literal}

  abbrev pub behaviour : Findings → List Item
  behaviour f = by_type "accessibility_behavior" f

  abbrev pub system_binding : Item → Bool
  system_binding item =
      contains (shown_trust item) ("SYSTEM_OBSERVED" ∷ "INSTRUMENTED" ∷ [])
      || ts.occurs "dumpsys" item.metadata_text

  -- The test `confirmation_allowed` of `_verify_accessibility`.
  unfoldable pub accessibility_allowed : Findings → Bool
  accessibility_allowed f =
      has_static_accessibility_signal f && is_cons (behaviour f) && any system_binding (behaviour f)

  unfoldable pub accessibility_decision : Hypothesis fs → Findings → Decision fs ts
  accessibility_decision h f =
      let static_supported = has_static_accessibility_signal f in
      let runtime_supported = is_cons (behaviour f) in
      if accessibility_allowed f
      then (
        "CONFIRMED",
        literal 95 2,
        "Accessibility abuse confirmed by static accessibility capability and verified system-level active service binding.",
      )
      else if has_failed_experiment f ("ACCESSIBILITY_OBSERVATION" ∷ "LOGCAT_CAPTURE" ∷ [])
      then (
        "INCONCLUSIVE",
        supported_strength fs ts static_supported,
        "Accessibility runtime experiment failed or timed out, so the hypothesis remains inconclusive.",
      )
      else if has_completed_experiment f ("ACCESSIBILITY_OBSERVATION" ∷ [])
          && static_supported
          && not runtime_supported
      then (
        "CONTRADICTED",
        literal 3 1,
        "Accessibility observation completed, but no accessibility runtime behavior was observed.",
      )
      else if static_supported && runtime_supported
      then (
        "SUPPORTED",
        literal 70 2,
        "Accessibility behavior signals were observed in application logs, but active service binding was not confirmed by system instrumentation.",
      )
      else if static_supported || runtime_supported
      then (
        "SUPPORTED",
        literal 50 2,
        "Accessibility hypothesis has partial deterministic support but lacks complete confirmation evidence.",
      )
      else (
        downgrade_unconfirmed fs ts h true,
        literal 15 2,
        "Accessibility hypothesis lacks deterministic static or runtime support.",
      )

  unfoldable pub verify_accessibility : Hypothesis fs → Findings → Verdict Float
  verify_accessibility h f =
      let (status, strength, explanation) = accessibility_decision h f in
      let static_supported = has_static_accessibility_signal f in
      let runtime_supported = is_cons (behaviour f) in
      record {
        status = status;
        strength = strength;
        observed =
            when_true static_supported "static_accessibility_signal"
            ++ when_true runtime_supported "accessibility_behavior";
        missing =
            when_true (not static_supported) "static_accessibility_signal"
            ++ when_true (not runtime_supported) "accessibility_behavior";
        explanation = explanation;
        confirmation_allowed = accessibility_allowed f;
        static_tokens = "accessibility_service" ∷ "AccessibilityService" ∷ "accessibility_api" ∷ [];
        runtime_types = "accessibility_behavior" ∷ [];
        experiment_types = "ACCESSIBILITY_OBSERVATION" ∷ "LOGCAT_CAPTURE" ∷ [];
      }

  -- Whether any experiment at all has failed.
  unfoldable pub any_failed : Findings → Bool
  any_failed f = any (λ e. is_failure e.status) (experiments f)

  unfoldable pub general_decision : Hypothesis fs → Findings → Decision fs ts
  general_decision h f =
      if any_failed f
      then (
        "INCONCLUSIVE",
        literal 25 2,
        "A runtime experiment failed or timed out; no deterministic conclusion is drawn for this hypothesis.",
      )
      else if or_default "" h.status == "CONFIRMED"
      then (
        "SUPPORTED",
        literal 45 2,
        "No category-specific deterministic confirmation rule exists, so AI self-confirmation is reduced to supported.",
      )
      else (
        status_of fs ts h,
        if is_cons f.runtime_evidence then literal 35 2 else literal 2 1,
        "No category-specific deterministic verifier is available; original hypothesis state is retained unless it claimed confirmation.",
      )

  unfoldable pub verify_general : Hypothesis fs → Findings → Verdict Float
  verify_general h f =
      let (status, strength, explanation) = general_decision h f in
      record {
        status = status;
        strength = strength;
        observed = [];
        missing = [];
        explanation = explanation;
        confirmation_allowed = false;
        static_tokens = [];
        runtime_types = [];
        experiment_types = [];
      }

  unfoldable pub verdict : Hypothesis fs → Findings → Verdict Float
  verdict h f =
      let category = or_default "UNKNOWN_SUSPICIOUS_BEHAVIOR" h.category in
      if category == "OTP_INTERCEPTION"
      then verify_otp fs ts h f
      else if category == "DATA_EXFILTRATION"
      then verify_data_exfiltration fs ts h f
      else if category == "ACCESSIBILITY_ABUSE"
      then verify_accessibility h f
      else verify_general h f

  -- `max(0.0, min(1.0, x))`
  unfoldable pub unit_interval : Float → Float
  unit_interval x = maximum fs (literal 0 0) (minimum fs (literal 10 1) x)

  -- `_verification`
  unfoldable pub verification :
      Hypothesis fs → Findings → List Normalized → Verdict Float → Verification fs
  verification h f evidence v = record {
    hypothesis_id = or_default "" h.hypothesis_id;
    category = or_default "" h.category;
    original_status = status_of fs ts h;
    verified_status = v.status;
    evidence_strength = unit_interval v.strength;
    ai_confidence = unit_interval (or_default (literal 0 0) h.confidence);
    static_evidence_ids = matching_static_evidence_ids ts evidence v.static_tokens;
    runtime_evidence_ids = runtime_ids f v.runtime_types;
    experiment_result_ids = experiment_ids f v.experiment_types;
    observed_signals = unique_strings v.observed 20;
    missing_signals = unique_strings v.missing 20;
    deterministic_explanation = v.explanation;
    confirmation_allowed = v.confirmation_allowed;
  }

  unfoldable pub verify : Hypothesis fs → Findings → List Normalized → Verification fs
  verify h f evidence = verification h f evidence (verdict h f)

  unfoldable pub verify_all :
      List (Hypothesis fs) → Findings → List Normalized → List (Verification fs)
  verify_all hs f evidence = map (λ h. verify h f evidence) hs
