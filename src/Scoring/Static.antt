-- ===== src/Scoring/Static.antt =====
-- The static stage of `RiskScorer.calculate`: the rules that match, and the interactions.
use boi.Prelude.{
  ℕ, String, ◌&&◌, none, List, [], ◌∷◌, ◌++◌, contains, string_eq, take, if◌then◌else◌,
}
use boi.Scoring.Types.{
  Category, credential_theft, payment_manipulation, evasion_resilience, Totals, zero_totals,
  add_points, Scored,
}
use boi.Scoring.Rules.{Features, Rule, rules, has_component, signal_of, is_cons}

-- `static_totals` and `static_rules`, as the code goes along.
pub record Static : Type 0 where
  pub totals : Totals
  pub scored : List Scored

abbrev pub award : Category → ℕ → Scored → Static → Static
award c n s st = record { totals = add_points c n st.totals; scored = st.scored ++ (s ∷ []) }

abbrev pub scored_rule : Rule → List String → Scored
scored_rule r artifacts = record {
  rule_id = r.id;
  title = r.title;
  category = r.category;
  points = r.points;
  base_points = none;
  rationale = r.rationale;
  required_evidence = none;
  evidence_ids = [];
  artifacts = artifacts;
  source_finding_id = none;
}

unfoldable pub apply_rules : Features → List Rule → Static → Static
apply_rules f [] st = st
apply_rules f (r ∷ rs) st =
    let (matched, artifacts) = r.predicate f in
    apply_rules f rs
      (if matched then award r.category r.points (scored_rule r artifacts) st else st)

-- `_interaction`
unfoldable pub interaction : String → Category → ℕ → String → List String → Static → Static
interaction id c n rationale artifacts = award c n (record {
  rule_id = id;
  title = "Correlated behavior combination";
  category = c;
  points = n;
  base_points = none;
  rationale = rationale;
  required_evidence = none;
  evidence_ids = [];
  artifacts = artifacts;
  source_finding_id = none;
})

unfoldable pub sms_interaction : Features → Static → Static
sms_interaction f st =
    if contains "android.permission.READ_SMS" f.permissions
      && contains "android.permission.RECEIVE_SMS" f.permissions
      && has_component "sms_receiver" f.components
    then interaction "APK-INT-001" credential_theft 18 "SMS permission and receiver combination"
        ("READ_SMS" ∷ "RECEIVE_SMS" ∷ "sms_receiver" ∷ []) st
    else st

unfoldable pub overlay_interaction : Features → Static → Static
overlay_interaction f st =
    if contains "android.permission.SYSTEM_ALERT_WINDOW" f.permissions
      && has_component "accessibility_service" f.components
    then interaction "APK-INT-002" payment_manipulation 22 "Overlay and accessibility combination"
        ("SYSTEM_ALERT_WINDOW" ∷ "accessibility_service" ∷ []) st
    else st

unfoldable pub loader_interaction : Features → Static → Static
loader_interaction f st =
    if (signal_of "dynamic_code_loading" f.signals).detected && is_cons f.embedded_payloads
    then interaction "APK-INT-003" evasion_resilience 15 "Loader plus embedded-payload combination"
        (take 5 f.embedded_payloads) st
    else st

-- From the start to the evidence of the engines.
unfoldable pub static_stage : Features → Static
static_stage f = loader_interaction f (
    overlay_interaction f
      (sms_interaction f (apply_rules f rules (record { totals = zero_totals; scored = [] }))))
