-- ===== src/Verifier/Examples.antt =====
-- The theorems on the verifier at concrete findings, and tests of its verdicts.
use boi.Prelude.Decimals.{decimal}
use boi.Prelude.{
  ℕ, ◌≡◌, inl, refl, String, Bool, true, false, Option, none, some, List, [], ◌∷◌, ◌==◌, string_eq,
  Among,
}
use boi.Verifier.Types.{text, Item, Experiment, Findings, Texts, Hypothesis}
use boi.Verifier.Index.{
  unique_strings, unique_from, otp_static_signals, trust_str, marker_precedes_network,
}
use boi.Verifier.Verdicts.{otp_allowed, exfiltration_allowed, otp_decision, verify_otp}
use boi.Verifier.Verify.{verdict, verify, verify_all, verification}
use boi.Verifier.Apply.{
  updated, told_by, verified_by, with_verification, verification_of, feedback_of,
}
use boi.Verifier.Confirmation.{confirmed_iff_allowed}
use boi.Verifier.Hypotheses.{no_self_confirmation}

-- Texts that are in upper case as they stand, with a search for whole texts.
abbrev texts : Texts
texts = record { upper = λ s. s; lower = λ s. s; occurs = λ part s. part == s }

abbrev item : String → String → String → ℕ → Bool → Item
item i t trust at correlated = record {
  evidence_id = i;
  evidence_type = t;
  trust_level = text trust;
  timestamp_ms = at;
  payload_correlated = correlated;
  metadata_text = "{}";
}

-- An SMS was delivered, read, and sent on; and the accessibility service was seen at work.
abbrev seen : List Item
seen =
    item "RT1" "synthetic_sms_delivered" "SYSTEM_OBSERVED" 10 false
    ∷ item "RT2" "sms_access" "INSTRUMENTED" 20 false
    ∷ item "RT3" "synthetic_marker_correlation" "LOG_OBSERVED" 30 false
    ∷ item "RT4" "network_destination" "PAYLOAD_CORRELATED" 40 true
    ∷ item "RT5" "accessibility_behavior" "INSTRUMENTED" 50 false
    ∷ []

abbrev findings : List Experiment → Findings
findings results = record {
  permissions = "android.permission.READ_SMS" ∷ [];
  components = ("accessibility_service", true) ∷ [];
  signals = [];
  network_indicators = [];
  urls = [];
  runtime_evidence = seen;
  experiment_results = results;
  dynamic_experiment_results = [];
}

abbrev completed_sms : List Experiment
completed_sms =
    record { experiment_id = "EXP001"; experiment_type = "SYNTHETIC_SMS"; status = "COMPLETED" }
    ∷ []

abbrev failed_network : List Experiment
failed_network =
    record { experiment_id = "EXP002"; experiment_type = "NETWORK_OBSERVATION"; status = "FAILED" }
    ∷ []

abbrev hypothesis : String → Option String → Hypothesis decimal
hypothesis category status = record {
  hypothesis_id = some "HYP001";
  category = some category;
  status = status;
  confidence = some 8000;
  evidence_strength = none;
  verification_summary = none;
  runtime_evidence_ids = [];
  missing_evidence = [];
  reasoning_summary = none;
  recommended_next_steps = [];
  limitations = [];
}

abbrev otp : Hypothesis decimal
otp = hypothesis "OTP_INTERCEPTION" (some "CONFIRMED")

keeps_order : unique_strings ("a" ∷ "" ∷ "b" ∷ "a" ∷ "c" ∷ []) 2 ≡ "a" ∷ "b" ∷ []
unfolding unique_strings unique_from
keeps_order = refl

confirmed_iff_allowed_example :
    ((verify decimal texts otp (findings completed_sms) []).verified_status == "CONFIRMED")
    ≡ (verify decimal texts otp (findings completed_sms) []).confirmation_allowed
confirmed_iff_allowed_example = confirmed_iff_allowed decimal texts otp (findings completed_sms) []

otp_is_allowed : otp_allowed decimal texts (findings completed_sms) ≡ true
unfolding otp_allowed otp_static_signals trust_str
otp_is_allowed = refl

exfiltration_is_allowed : exfiltration_allowed decimal texts (findings completed_sms) ≡ true
unfolding exfiltration_allowed marker_precedes_network trust_str
exfiltration_is_allowed = refl

otp_is_confirmed :
    (updated decimal
      (verify_all decimal texts (otp ∷ []) (findings completed_sms) [])
      []
      otp).status
    ≡ some "CONFIRMED"
unfolding updated told_by verified_by with_verification verify_all verify verification verdict
    verify_otp otp_decision otp_allowed otp_static_signals trust_str verification_of feedback_of
otp_is_confirmed = refl

no_self_confirmation_example :
    (k : Hypothesis decimal) × Among k (otp ∷ [])
    × ((verify decimal texts k (findings completed_sms) []).hypothesis_id ≡ "HYP001")
    × ((verify decimal texts k (findings completed_sms) []).confirmation_allowed ≡ true)
no_self_confirmation_example =
    no_self_confirmation decimal texts (findings completed_sms) [] (otp ∷ []) [] otp "HYP001"
      (inl refl) refl otp_is_confirmed
