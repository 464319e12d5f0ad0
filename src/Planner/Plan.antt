-- ===== src/Planner/Plan.antt =====
-- `_plan_only_handler`, `_score_request` and `plan_requests`
-- (fraudshield/deceptiscope/experiments.py).
use boi.Prelude.Floats.{Floats}
use boi.Prelude.{
  ℕ, ◌-◌, String, Bool, true, false, not, Option, none, some, List, [], ◌∷◌, map, ◌==◌, string_eq,
  min, keep, length, take, if◌then◌else◌,
}
use boi.Scoring.Rules.{is_cons}
use boi.Verifier.Types.{Hypothesis, or_default}
use boi.Planner.Requests.{Request}

-- An `ExperimentDefinition`, without its text and the types of its evidence.
pub record Definition : Type 0 where
  pub required_capabilities : List String
  pub timeout_seconds : ℕ
  pub safe_by_default : Bool

pub data Status : Type 0 where
  planned unsupported skipped : Status

-- An `ExperimentPlanItem`, with the request and the definition that its other fields repeat.
pub record Item : Type 0 where
  pub request : Request
  pub definition : Definition
  pub status : Status
  pub supported : Bool
  pub missing : List String

-- The capabilities that are not there.
unfoldable pub missing_capabilities : (String → Bool) → Definition → List String
missing_capabilities capabilities d = keep (λ c. not (capabilities c)) d.required_capabilities

-- `_plan_only_handler`
unfoldable pub plan_item : (String → Bool) → (String → Definition) → Request → Item
plan_item capabilities definitions r =
    let d = definitions r.experiment_type in
    let missing = missing_capabilities capabilities d in
    record {
      request = r;
      definition = d;
      status =
          if is_cons missing
          then unsupported
          else if not d.safe_by_default
          then skipped
          else planned;
      supported = if is_cons missing then false else if not d.safe_by_default then false else true;
      missing = missing;
    }

-- `_banking_impact`
unfoldable pub banking_impact : String → ℕ
banking_impact c =
    if c == "OTP_INTERCEPTION"
    then 10
    else if c == "CREDENTIAL_PHISHING"
    then 10
    else if c == "REMOTE_CONTROL"
    then 9
    else if c == "BANK_IMPERSONATION"
    then 9
    else if c == "ACCESSIBILITY_ABUSE"
    then 8
    else if c == "OVERLAY_ATTACK"
    then 8
    else if c == "DATA_EXFILTRATION"
    then 8
    else if c == "DYNAMIC_CODE_LOADING"
    then 7
    else if c == "DEVICE_RECONNAISSANCE"
    then 6
    else if c == "UNKNOWN_SUSPICIOUS_BEHAVIOR"
    then 4
    else 3

module _ (fs : Floats) (capabilities : String → Bool) (definitions : String → Definition) where
  open fs use {Float, literal, of_nat, add, sub, mul, div, less}

  abbrev pub category_of : Option (Hypothesis fs) → String
  category_of none = ""
  category_of (some h) = or_default "" h.category

  abbrev pub confidence_of : Option (Hypothesis fs) → Float
  confidence_of none = literal 0 0
  confidence_of (some h) = or_default (literal 0 0) h.confidence

  abbrev pub missing_of : Option (Hypothesis fs) → ℕ
  missing_of none = 0
  missing_of (some h) = length h.missing_evidence

  -- `_score_request`. The priority of a request is between 1 and 10.
  unfoldable pub score_request : Request → Option (Hypothesis fs) → Float
  score_request r h =
      let item = plan_item capabilities definitions r in
      let supported_score = if item.supported then literal 1000 0 else literal 0 0 in
      let confidence_score = mul (confidence_of h) (literal 100 0) in
      let impact_score = mul (of_nat (banking_impact (category_of h))) (literal 10 0) in
      let missing_score = mul (of_nat (min (missing_of h) 5)) (literal 5 0) in
      let priority_score = mul (of_nat (11 - r.priority)) (literal 4 0) in
      let cost_penalty = div (of_nat item.definition.timeout_seconds) (literal 15 0) in
      sub
        (add (add (add (add supported_score confidence_score) impact_score) missing_score)
          priority_score)
        cost_penalty

  -- `sort(key=…, reverse=True)`, which keeps the order of equals.
  unfoldable pub insert_item : Float × Item → List (Float × Item) → List (Float × Item)
  insert_item x [] = x ∷ []
  insert_item x (y ∷ ys) =
      let rest = insert_item x ys in if less x.0 y.0 then y ∷ rest else x ∷ y ∷ ys

  unfoldable pub sort_items : List (Float × Item) → List (Float × Item)
  sort_items [] = []
  sort_items (x ∷ xs) = insert_item x (sort_items xs)

  -- `plan_requests`, with the two limits of the settings, and `hypothesis_by_id.get`.
  unfoldable pub plan_requests :
      ℕ → ℕ → (String → Option (Hypothesis fs)) → List Request → List Item
  plan_requests plan_limit round_limit hypotheses requests =
      map (λ x. x.1)
        (take (min plan_limit round_limit) (
          sort_items (
            map
              (λ r. (
                score_request r (hypotheses r.hypothesis_id),
                plan_item capabilities definitions r,
              ))
              requests)))
