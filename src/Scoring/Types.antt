-- ===== src/Scoring/Types.antt =====
-- Risk categories, their totals, and the scored rules that the report lists
-- (fraudshield/deceptiscope/scoring.py).
use boi.Prelude.{
  ℕ, ◌+◌, String, Bool, true, false, Option, none, some, List, [], ◌∷◌, ◌==◌, string_eq,
  if◌then◌else◌,
}

pub data Category : Type 0 where
  credential_theft payment_manipulation fraud_impersonation evasion_resilience : Category

abbrev pub same_category : Category → Category → Bool
same_category credential_theft credential_theft = true
same_category payment_manipulation payment_manipulation = true
same_category fraud_impersonation fraud_impersonation = true
same_category evasion_resilience evasion_resilience = true
same_category _ _ = false

-- The names that are keys of `weights`.
unfoldable pub category_of : String → Option Category
category_of s =
    if s == "credential_theft"
    then some credential_theft
    else if s == "payment_manipulation"
    then some payment_manipulation
    else if s == "fraud_impersonation"
    then some fraud_impersonation
    else if s == "evasion_resilience"
    then some evasion_resilience
    else none

-- A dict with one entry for each category.
abbrev pub Totals : Type 0
Totals = Category → ℕ

abbrev pub zero_totals : Totals
zero_totals c = 0

-- `totals[category] += points`
abbrev pub add_points : Category → ℕ → Totals → Totals
add_points c n t d = if same_category c d then t d + n else t d

-- `sum(totals.values())`
abbrev pub sum_totals : Totals → ℕ
sum_totals t =
    t credential_theft + t payment_manipulation + t fraud_impersonation + t evasion_resilience

-- An entry of `static_rules` or `runtime_rules`; a key that a dict lacks is `none` or empty.
pub record Scored : Type 0 where
  pub rule_id : String
  pub title : String
  pub category : Category
  pub points : ℕ
  pub base_points : Option ℕ
  pub rationale : String
  pub required_evidence : Option String
  pub evidence_ids : List String
  pub artifacts : List String
  pub source_finding_id : Option String

pub data Severity : Type 0 where
  low medium high critical : Severity

-- The points that the entries of a category add up to.
unfoldable pub points_in : Category → List Scored → ℕ
points_in c [] = 0
points_in c (s ∷ ss) = (if same_category s.category c then s.points else 0) + points_in c ss
