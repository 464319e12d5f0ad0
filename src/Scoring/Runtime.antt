-- ===== src/Scoring/Runtime.antt =====
-- The runtime rules and the runtime stage of `RiskScorer.calculate`
-- (fraudshield/deceptiscope/scoring.py).
use boi.Prelude.Floats.{Floats, at_or_above}
use boi.Prelude.{
  ℕ, ◌+◌, ◌-◌, String, Bool, true, false, ◌&&◌, ◌||◌, Option, none, some, List, [], ◌∷◌, ◌++◌, map,
  ◌==◌, string_eq, nat_eq, min, keep, any, contains, if◌then◌else◌,
}
use boi.Scoring.Types.{
  Category, credential_theft, payment_manipulation, fraud_impersonation, evasion_resilience,
  same_category, Totals, zero_totals, sum_totals, Scored,
}
use boi.Scoring.Rules.{is_cons}

-- `category_runtime_caps`
unfoldable pub runtime_cap : Category → ℕ
runtime_cap credential_theft = 25
runtime_cap payment_manipulation = 25
runtime_cap evasion_resilience = 20
runtime_cap fraud_impersonation = 15

abbrev pub global_runtime_cap : ℕ
global_runtime_cap = 35

-- `totals[c] = n`
abbrev pub put : Category → ℕ → Totals → Totals
put c n t d = if same_category c d then n else t d

module _ (fs : Floats) where
  open fs use {Float, literal}

  -- An item of runtime evidence. `evidence_id` is `none` where it is missing or empty.
  pub record Observation : Type 0 where
    pub evidence_type : String
    pub trust_level : String
    pub confidence : Float
    pub evidence_id : Option String
    pub description : String
    pub payload_correlated : Bool

  -- Whether a rule holds, the ids that it cites, and its artifacts.
  abbrev pub Matched : Type 0
  Matched = Bool × List String × List String

  pub record RuntimeRule : Type 0 where
    pub id : String
    pub title : String
    pub category : Category
    pub points : ℕ
    pub rationale : String
    pub required_evidence : String
    pub predicate : List Observation → Matched

  abbrev pub typed : List String → Observation → Bool
  typed types ev = contains ev.evidence_type types

  abbrev pub unmatched : Matched
  unmatched = (false, [], [])

  abbrev pub cited : List Observation → List String
  cited [] = []
  cited (ev ∷ evs) = elim ev.evidence_id [ none ↦ cited evs | some i ↦ i ∷ cited evs ]

  abbrev pub descriptions : List Observation → List String
  descriptions = map (λ ev. ev.description)

  abbrev pub trusted : Observation → Bool
  trusted ev =
      contains ev.trust_level ("INSTRUMENTED" ∷ "PAYLOAD_CORRELATED" ∷ [])
      || at_or_above fs ev.confidence (literal 8 1)

  unfoldable pub runtime_otp : List Observation → Matched
  runtime_otp evidence =
      let delivered = keep (typed ("synthetic_sms_delivered" ∷ [])) evidence in
      let accessed = keep (typed ("sms_access" ∷ "synthetic_marker_correlation" ∷ [])) evidence in
      if is_cons delivered && is_cons accessed && any trusted (delivered ++ accessed)
      then (true, cited (delivered ++ accessed), descriptions accessed)
      else unmatched

  abbrev pub correlated : Observation → Bool
  correlated ev = ev.trust_level == "PAYLOAD_CORRELATED" || ev.payload_correlated

  abbrev pub outbound : Observation → Bool
  outbound ev =
      typed ("network_destination" ∷ "dns_destination" ∷ []) ev
      && at_or_above fs ev.confidence (literal 7 1)

  unfoldable pub runtime_exfil : List Observation → Matched
  runtime_exfil evidence =
      let markers = keep (typed ("synthetic_marker_correlation" ∷ [])) evidence in
      let network = keep outbound evidence in
      if is_cons markers && is_cons network && any correlated (markers ++ network)
      then (true, cited (markers ++ network), descriptions network)
      else unmatched

  -- The rules that ask only that some observation pass a test.
  abbrev pub seen : (Observation → Bool) → List Observation → Matched
  seen test evidence =
      let events = keep test evidence in
      if is_cons events then (true, cited events, descriptions events) else unmatched

  unfoldable pub runtime_accessibility : List Observation → Matched
  runtime_accessibility = seen (typed ("accessibility_behavior" ∷ "accessibility_event" ∷ []))

  unfoldable pub runtime_dcl : List Observation → Matched
  runtime_dcl = seen (typed ("dynamic_code_load" ∷ "classloader_event" ∷ []))

  unfoldable pub runtime_network : List Observation → Matched
  runtime_network = seen outbound

  unfoldable pub runtime_webview : List Observation → Matched
  runtime_webview = seen (typed ("webview_activity" ∷ []))

  abbrev pub runtime_rule :
      String → String → Category → ℕ → String → String → (List Observation → Matched) → RuntimeRule
  runtime_rule id title category points rationale required predicate = record {
    id = id;
    title = title;
    category = category;
    points = points;
    rationale = rationale;
    required_evidence = required;
    predicate = predicate;
  }

  -- `RUNTIME_RULES`
  unfoldable pub runtime_rules : List RuntimeRule
  runtime_rules =
      runtime_rule "RUNTIME-OTP-001" "Confirmed synthetic SMS / OTP interception" credential_theft
        20
        "Application accessed incoming SMS broadcasts or synthetic OTP marker during controlled sandbox delivery."
        "synthetic_sms_delivered AND (sms_access OR synthetic_marker_correlation)" runtime_otp
      ∷ runtime_rule "RUNTIME-EXFIL-001" "Verified sensitive marker exfiltration" credential_theft
          15
          "Synthetic credential marker appeared in outbound network connection or DNS resolution flow."
          "synthetic_marker_correlation AND (network_destination OR dns_destination)" runtime_exfil
      ∷ runtime_rule "RUNTIME-ACC-001" "Observed accessibility automation behavior"
          payment_manipulation 18
          "Active accessibility gesture dispatch, text observation, or automation service interaction was confirmed in sandbox."
          "accessibility_behavior" runtime_accessibility
      ∷ runtime_rule "RUNTIME-DCL-001" "Observed dynamic code loading execution" evasion_resilience
          15 "ClassLoader instantiated or executed dynamic DEX payload at runtime."
          "dynamic_code_load" runtime_dcl
      ∷ runtime_rule "RUNTIME-NET-001" "Corroborated suspicious network egress" fraud_impersonation
          10
          "Application initiated external network connection or DNS resolution corroborating static infrastructure indicators."
          "network_destination OR dns_destination" runtime_network
      ∷ runtime_rule "RUNTIME-WEB-001" "Observed WebView bridge activity" payment_manipulation 12
          "WebView JavaScript interface addition or dynamic JavaScript bridge interaction was observed."
          "webview_activity" runtime_webview
      ∷ []

  pub record Runtime : Type 0 where
    pub totals : Totals
    pub scored : List Scored

  abbrev pub scored_runtime : RuntimeRule → ℕ → List String → List String → Scored
  scored_runtime r awarded matched_ids artifacts = record {
    rule_id = r.id;
    title = r.title;
    category = r.category;
    points = awarded;
    base_points = some r.points;
    rationale = r.rationale;
    required_evidence = some r.required_evidence;
    evidence_ids = matched_ids;
    artifacts = artifacts;
    source_finding_id = none;
  }

  -- One round of the loop over the rules: points up to what the category's cap leaves.
  unfoldable pub runtime_step : List Observation → RuntimeRule → Runtime → Runtime
  runtime_step evidence r s =
      let (matched, ids, artifacts) = r.predicate evidence in
      let current = s.totals r.category in
      let awarded = min r.points (runtime_cap r.category - current) in
      if matched
      then record {
        totals = put r.category (current + awarded) s.totals;
        scored = s.scored ++ (scored_runtime r awarded ids artifacts ∷ []);
      }
      else s

  unfoldable pub runtime_loop : List Observation → List RuntimeRule → Runtime → Runtime
  runtime_loop evidence [] s = s
  runtime_loop evidence (r ∷ rs) s = runtime_loop evidence rs (runtime_step evidence r s)

  -- `if runtime_evidence:`
  unfoldable pub runtime_stage : List Observation → Runtime
  runtime_stage evidence =
      let start : Runtime = record { totals = zero_totals; scored = [] } in
      if is_cons evidence then runtime_loop evidence runtime_rules start else start

  unfoldable pub runtime_adjustment : List Observation → ℕ
  runtime_adjustment evidence = min global_runtime_cap (sum_totals (runtime_stage evidence).totals)
