-- ===== src/Delta/Calculate.antt =====
-- FraudDeltaCalculator.calculate (fraudshield/deceptiscope/fraud_delta.py). The file with the
-- baselines is read before: its categories are a parameter. `tidy` is `s.strip().lower()`.
use Prim.Native.String.{◌++◌ as cat}
use boi.Prelude.Floats.{Floats, minimum, at_or_above}
use boi.Prelude.{
  String, Bool, ◌&&◌, not, Option, none, some, List, [], ◌∷◌, ◌++◌, ◌==◌, string_eq, contains, keep,
  map, if◌then◌else◌,
}
use boi.Security.Roles.{sorted_set}

-- What is usual in a category. A dict without any key is `is_empty`.
pub record Baseline : Type 0 where
  pub is_empty : Bool
  pub common_permissions : List String
  pub tolerated_permissions : List String

abbrev pub Categories : Type 0
Categories = List (String × Baseline)

-- What was extracted from the package: `detected` are the signals that were.
pub record Extracted : Type 0 where
  pub requested : List String
  pub detected : List String
  pub accessibility_service : Bool
  pub sms_receiver : Bool
  pub bank_impersonation_flag : Bool

unfoldable pub category_at : String → Categories → Option Baseline
category_at name [] = none
category_at name ((k, b) ∷ rest) =
    let later = category_at name rest in if k == name then some b else later

-- `categories.get(name) or categories.get("other")`
abbrev pub or_other : Option Baseline → Option Baseline → Option Baseline
or_other none other = other
or_other (some b) other = if b.is_empty then other else some b

unfoldable pub baseline_for : String → Categories → Option Baseline
baseline_for name categories =
    or_other (category_at name categories) (category_at "other" categories)

abbrev pub is_category : String → Categories → Bool
is_category name categories = contains name (map (λ (k, b). k) categories)

-- `sorted(requested - common - tolerated)`
unfoldable pub unexpected_permissions : Extracted → Baseline → List String
unexpected_permissions e b =
    keep (λ p. not (contains p b.common_permissions) && not (contains p b.tolerated_permissions))
      (sorted_set e.requested)

module _ (fs : Floats) where
  open fs use {Float, literal, add, round_to}

  abbrev pub Weights : Type 0
  Weights = List (String × Float)

  -- `PERMISSION_WEIGHTS` and `SIGNAL_WEIGHTS`
  abbrev pub permission_weights : Weights
  permission_weights =
      ("android.permission.READ_SMS", literal 14 2)
      ∷ ("android.permission.RECEIVE_SMS", literal 12 2)
      ∷ ("android.permission.SEND_SMS", literal 10 2)
      ∷ ("android.permission.SYSTEM_ALERT_WINDOW", literal 14 2)
      ∷ ("android.permission.REQUEST_INSTALL_PACKAGES", literal 10 2)
      ∷ ("android.permission.QUERY_ALL_PACKAGES", literal 7 2)
      ∷ ("android.permission.READ_CONTACTS", literal 5 2)
      ∷ ("android.permission.READ_CALL_LOG", literal 7 2)
      ∷ ("android.permission.RECORD_AUDIO", literal 4 2)
      ∷ []

  abbrev pub signal_weights : Weights
  signal_weights =
      ("dynamic_code_loading", literal 10 2)
      ∷ ("installed_app_enumeration", literal 8 2)
      ∷ ("sms_api", literal 8 2)
      ∷ ("command_execution", literal 10 2)
      ∷ ("input_injection", literal 12 2)
      ∷ []

  unfoldable pub weight_of : String → Weights → Option Float
  weight_of name [] = none
  weight_of name ((k, w) ∷ rest) =
      let later = weight_of name rest in if k == name then some w else later

  pub record Contribution : Type 0 where
    pub kind : String
    pub evidence : String
    pub weight : Float
    pub reason : String

  -- The variables of the method: the sum, and the list beside it.
  pub record Tally : Type 0 where
    pub raw : Float
    pub contributions : List Contribution

  unfoldable pub contribute : String → String → Float → String → Tally → Tally
  contribute kind evidence weight reason t = record {
    raw = add t.raw weight;
    contributions =
        t.contributions
        ++ (record { kind = kind; evidence = evidence; weight = weight; reason = reason } ∷ []);
  }

  abbrev pub contribute_weighed : String → String → String → Option Float → Tally → Tally
  contribute_weighed kind evidence reason none t = t
  contribute_weighed kind evidence reason (some w) t = contribute kind evidence w reason t

  -- The loop over the unexpected permissions that have a weight.
  unfoldable pub permission_loop : String → List String → Tally → Tally
  permission_loop category [] t = t
  permission_loop category (p ∷ ps) t = permission_loop category ps (
      contribute_weighed "permission" p
        (cat "Unexpected for the declared '" (cat category "' category"))
        (weight_of p permission_weights) t)

  -- The loop over the weights of the signals.
  unfoldable pub signal_loop : String → List String → Weights → Tally → Tally
  signal_loop category detected [] t = t
  signal_loop category detected ((signal, w) ∷ rest) t = signal_loop category detected rest (
      if contains signal detected
      then contribute "code_signal" signal w
          (cat "Observed signal is uncommon in the '" (cat category "' baseline")) t
      else t)

  unfoldable pub contribute_if : Bool → String → String → Float → String → Tally → Tally
  contribute_if flag kind evidence weight reason t =
      if flag then contribute kind evidence weight reason t else t

  unfoldable pub tally : String → Extracted → List String → Tally
  tally category e unexpected =
      contribute_if e.bank_impersonation_flag "identity" "bank_signer_not_in_trusted_inventory"
        (literal 15 2)
        "Bank-branded identity uses a signer absent from the configured trusted inventory"
        (contribute_if e.sms_receiver "component" "sms_receiver" (literal 10 2)
          "SMS broadcast interception is abnormal for the declared category"
          (contribute_if e.accessibility_service "component" "accessibility_service" (literal 13 2)
            "Accessibility service is abnormal for the declared category"
            (signal_loop category e.detected signal_weights (
              permission_loop category unexpected
                (record { raw = literal 0 0; contributions = [] })))))

  -- The dict that is returned, less its fixed texts and versions.
  pub record Delta : Type 0 where
    pub category : String
    pub score : Float
    pub is_anomalous : Bool
    pub unexpected_permissions : List String
    pub contributions : List Contribution

  unfoldable pub delta_of : String → List String → Tally → Delta
  delta_of category unexpected t = record {
    category = category;
    score = minimum fs (literal 1 0) (round_to 4 t.raw);
    is_anomalous = at_or_above fs (minimum fs (literal 1 0) (round_to 4 t.raw)) (literal 35 2);
    unexpected_permissions = unexpected;
    contributions = t.contributions;
  }

  abbrev pub with_baseline : String → Extracted → Option Baseline → Option Delta
  with_baseline category e none = none
  with_baseline category e (some b) =
      let unexpected = unexpected_permissions e b in
      some (delta_of category unexpected (tally category e unexpected))

  -- `calculate`: none where it raises, as there is neither a baseline nor one for "other".
  unfoldable pub calculate : (String → String) → Categories → Extracted → String → Option Delta
  calculate tidy categories e category =
      with_baseline (if is_category (tidy category) categories then tidy category else "other") e
        (baseline_for (tidy category) categories)
