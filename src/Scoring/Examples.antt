-- ===== src/Scoring/Examples.antt =====
-- The theorems on the score at concrete inputs, under decimal numbers with four places in place of
-- floats.
use boi.Prelude.Int.{pos}
use boi.Prelude.Decimals.{decimal}
use boi.Prelude.Floats.{at_or_above, minimum}
use boi.Prelude.{min, ◌↔◌, ℕ, ◌+◌, ◌≤◌, ◌≡◌, refl, String, true, false, none, some, [], ◌∷◌, min}
use boi.Scoring.Types.{
  Severity, category_of, Category, payment_manipulation, sum_totals, points_in, critical,
}
use boi.Scoring.Rules.{
  rules, has_permission, component, signal, obfuscated, bank_impersonation, embedded_payload,
  Features,
}
use boi.Scoring.Static.{
  apply_rules, sms_interaction, overlay_interaction, loader_interaction, interaction, static_stage,
}
use boi.Scoring.Engines.{engine_loop, engine_step, accept, Finding, engine_evidence}
use boi.Scoring.Runtime.{
  runtime_loop, runtime_step, runtime_otp, runtime_exfil, runtime_accessibility, runtime_dcl,
  runtime_network, Observation, runtime_stage, runtime_adjustment, runtime_rules, runtime_cap,
  RuntimeRule, runtime_webview, runtime_rule,
}
use boi.Scoring.Calculate.{
  static_weighted, delta_adjustment, Input, Report, calculate, severity, static_score,
}
use boi.Scoring.Accounting.{calculate_accounted}
use boi.Scoring.Bounds.{calculate_bounds}
use boi.Scoring.Trust.{untrusted_evidence_counts}

abbrev ext_id : String → ℕ → String
ext_id e n = Prim.Native.String.◌++◌ "APK-EXT-" e

abbrev banker : Features
banker = record {
  permissions = "android.permission.READ_SMS" ∷ "android.permission.RECEIVE_SMS" ∷ [];
  components = ("sms_receiver", true) ∷ ("accessibility_service", true) ∷ [];
  signals = ("sms_api", record { detected = true; evidence = "SmsManager" ∷ [] }) ∷ [];
  bank_impersonation_flag = true;
  certificate_sha256 = none;
  trust_evaluation = some "untrusted";
  likely_name_obfuscation = false;
  short_class_ratio = "0.1";
  embedded_payloads = [];
}

abbrev finding : Finding decimal
finding = record {
  score_eligible = true;
  confidence = 9000;
  risk_category = "evasion_resilience";
  engine = "yara";
  risk_points = pos 40;
  title = "packer";
  evidence = [];
  id = "f1";
}

abbrev log_entry : Observation decimal
log_entry = record {
  evidence_type = "accessibility_behavior";
  trust_level = "LOG_OBSERVED";
  confidence = 1000;
  evidence_id = some "R001";
  description = "log line";
  payload_correlated = false;
}

abbrev input : Input decimal
input = record {
  features = banker;
  coverage = record {
    archive = true;
    manifest = true;
    dex = true;
    certificate = true;
    dynamic = true;
  };
  partial = false;
  delta_score = 5000;
  findings = finding ∷ finding ∷ [];
  unavailable_or_failed = 0;
  runtime_evidence = log_entry ∷ [];
}

abbrev report : Report decimal
report = calculate decimal ext_id input

-- Two findings of 40 points ask for 30 each, and are granted 25 together.
calculate_input :
    (report.static_score ≡ 58) × (report.runtime_adjustment ≡ 18) × (report.severity ≡ critical)
unfolding calculate severity static_score static_weighted delta_adjustment static_stage apply_rules
    rules has_permission component signal obfuscated bank_impersonation embedded_payload
    sms_interaction overlay_interaction loader_interaction interaction engine_evidence engine_loop
    engine_step accept category_of runtime_adjustment runtime_stage runtime_loop runtime_step
    runtime_rules runtime_otp runtime_exfil runtime_accessibility runtime_dcl runtime_network
    runtime_webview runtime_cap at_or_above minimum
calculate_input = (refl, refl, refl)

calculate_accounted_example :
    ((c : Category) → report.sub_scores c ≡ min 100 (points_in c report.static_rules))
    × ((c : Category) → points_in c report.runtime_rules ≤ runtime_cap c)
    × (report.runtime_adjustment ≡ min 35 (sum_totals (λ c. points_in c report.runtime_rules)))
calculate_accounted_example = calculate_accounted decimal ext_id input

calculate_bounds_example :
    (report.overall_score ≡ min 100 (report.static_score + report.runtime_adjustment))
    × (report.static_score ≤ report.overall_score)
    × (report.overall_score ≤ 100)
    × (report.runtime_adjustment ≤ 35)
    × (input.runtime_evidence ≡ [] → report.overall_score ≡ report.static_score)
    × ((report.severity ≡ Severity.critical) ↔ (75 ≤ report.overall_score))
    × ((report.severity ≡ Severity.high)
        ↔ ((50 ≤ report.overall_score) × (report.overall_score ≤ 74)))
    × ((report.severity ≡ Severity.medium)
        ↔ ((25 ≤ report.overall_score) × (report.overall_score ≤ 49)))
    × ((report.severity ≡ Severity.low) ↔ (report.overall_score ≤ 24))
calculate_bounds_example = calculate_bounds decimal ext_id input

untrusted_evidence_counts_example : 18 ≤ runtime_adjustment decimal (log_entry ∷ [])
untrusted_evidence_counts_example = (untrusted_evidence_counts decimal log_entry []).0 refl

abbrev webview_event : Observation decimal
webview_event = record log_entry { evidence_type = "webview_activity" }

abbrev webview_rule : RuntimeRule decimal
webview_rule =
    runtime_rule decimal "RUNTIME-WEB-001" "Observed WebView bridge activity" payment_manipulation
      12
      "WebView JavaScript interface addition or dynamic JavaScript bridge interaction was observed."
      "webview_activity" (runtime_webview decimal)
