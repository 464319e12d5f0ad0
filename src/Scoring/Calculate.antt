-- ===== src/Scoring/Calculate.antt =====
-- `RiskScorer.calculate` (fraudshield/deceptiscope/scoring.py), from the two stages to the report.
use Prim.Native.String.{compare}
use Prim.Native.Nat.{Ordering}
use boi.Prelude.Int.{clamp}
use boi.Prelude.Floats.{Floats, minimum, maximum}
use boi.Prelude.{
  ℕ, ◌+◌, String, Bool, true, false, ◌&&◌, ◌||◌, List, [], ◌∷◌, ◌++◌, ◌==◌, nat_eq, min, ltb, leb,
  length, if◌then◌else◌,
}
use boi.Scoring.Types.{
  credential_theft, payment_manipulation, fraud_impersonation, evasion_resilience, Totals, Scored,
  Severity, low, medium, high, critical,
}
use boi.Scoring.Rules.{Features, is_cons}
use boi.Scoring.Static.{static_stage}
use boi.Scoring.Engines.{Finding, Engines, engine_evidence}
use boi.Scoring.Runtime.{Observation, runtime_stage, runtime_adjustment, global_runtime_cap}

-- `_severity`
unfoldable pub severity : ℕ → Severity
severity score =
    if leb 75 score
    then critical
    else if leb 50 score
    then high
    else if leb 25 score
    then medium
    else low

-- `sorted(…, key=lambda item: (-item["points"], item["rule_id"]))`, which is stable.
abbrev pub sorts_before : Scored → Scored → Bool
sorts_before a b =
    ltb b.points a.points
    || (a.points == b.points
        && elim (compare a.rule_id b.rule_id) [ Ordering.lt ↦ true | _ ↦ false ])

unfoldable pub insert_scored : Scored → List Scored → List Scored
insert_scored a [] = a ∷ []
insert_scored a (b ∷ bs) = if sorts_before b a then b ∷ insert_scored a bs else a ∷ b ∷ bs

unfoldable pub sort_scored : List Scored → List Scored
sort_scored [] = []
sort_scored (a ∷ as') = insert_scored a (sort_scored as')

abbrev pub sub_scores : Totals → Totals
sub_scores t c = min 100 (t c)

pub record Coverage : Type 0 where
  pub archive : Bool
  pub manifest : Bool
  pub dex : Bool
  pub certificate : Bool
  pub dynamic : Bool

abbrev flag : Bool → ℕ
flag b = if b then 1 else 0

unfoldable pub covered : Coverage → ℕ
covered c = flag c.archive + flag c.manifest + flag c.dex + flag c.certificate

module _ (fs : Floats) where
  open fs use {Float, literal, of_nat, add, sub, mul, div, total, round, round_to}

  -- What `calculate` is given, with the defaults filled in.
  pub record Input : Type 0 where
    pub features : Features
    pub coverage : Coverage
    pub partial : Bool
    pub delta_score : Float
    pub findings : List (Finding fs)
    pub unavailable_or_failed : ℕ
    pub runtime_evidence : List (Observation fs)

  -- The weighted sum over `weights`.
  unfoldable pub static_weighted : Totals → Float
  static_weighted t = total (
      mul (of_nat (sub_scores t credential_theft)) (literal 34 2)
      ∷ mul (of_nat (sub_scores t payment_manipulation)) (literal 30 2)
      ∷ mul (of_nat (sub_scores t fraud_impersonation)) (literal 20 2)
      ∷ mul (of_nat (sub_scores t evasion_resilience)) (literal 16 2)
      ∷ [])

  unfoldable pub delta_adjustment : Float → Float
  delta_adjustment score = minimum fs (literal 10 0) (mul score (literal 10 0))

  unfoldable pub static_score : Totals → Float → ℕ
  static_score t delta = clamp 0 100 (round (add (static_weighted t) (delta_adjustment delta)))

  unfoldable pub base_confidence : ℕ → ℕ → Float
  base_confidence covers rules = round_to 3 (
      minimum fs (literal 85 2) (
        add (add (literal 45 2) (mul (of_nat covers) (literal 10 2)))
          (mul (of_nat (min rules 8)) (literal 125 4))))

  unfoldable pub dynamic_confidence : Float → ℕ → Float
  dynamic_confidence base rules = round_to 3 (
      minimum fs (literal 98 2) (
        add (add base (literal 6 2)) (minimum fs (literal 8 2) (mul (of_nat rules) (literal 3 2)))))

  unfoldable pub runtime_confirmation : ℕ → ℕ → Float
  runtime_confirmation rules adjustment = round_to 2 (
      minimum fs (literal 10 1) (
        add (mul (of_nat rules) (literal 25 2))
          (mul (div (of_nat adjustment) (of_nat global_runtime_cap)) (literal 75 2))))

  abbrev pub after_partial : Bool → Float → Float
  after_partial partial c = if partial then minimum fs c (literal 68 2) else c

  abbrev pub after_unavailable : ℕ → Float → Float
  after_unavailable n c =
      if n == 0
      then c
      else maximum fs (literal 35 2)
          (round_to 3 (sub c (minimum fs (literal 8 2) (mul (of_nat n) (literal 1 2)))))

  pub record Report : Type 0 where
    pub static_score : ℕ
    pub runtime_adjustment : ℕ
    pub overall_score : ℕ
    pub severity : Severity
    pub confidence : Float
    pub runtime_confirmation : Float
    pub sub_scores : Totals
    pub static_rules : List Scored
    pub runtime_rules : List Scored
    pub evidence : List Scored
    pub fraud_delta_adjustment : Float
    pub external_engine_evidence_count : ℕ

  module _ (ext_id : String → ℕ → String) where
    -- The static stage with the engines' evidence.
    abbrev pub engines_of : Input → Engines fs
    engines_of i = engine_evidence fs ext_id i.findings (static_stage i.features)

    unfoldable pub calculate : Input → Report
    calculate i =
        let e = engines_of i in
        let st = e.static in
        let score = static_score st.totals i.delta_score in
        let run = runtime_stage fs i.runtime_evidence in
        let adjustment = runtime_adjustment fs i.runtime_evidence in
        let overall = min 100 (score + adjustment) in
        let base = base_confidence (covered i.coverage) (length st.scored) in
        let dynamic = i.coverage.dynamic && is_cons run.scored in
        let confidence = if dynamic then dynamic_confidence base (length run.scored) else base in
        record {
          static_score = score;
          runtime_adjustment = adjustment;
          overall_score = overall;
          severity = severity overall;
          confidence =
              after_unavailable i.unavailable_or_failed (after_partial i.partial confidence);
          runtime_confirmation =
              if dynamic then runtime_confirmation (length run.scored) adjustment else literal 0 0;
          sub_scores = sub_scores st.totals;
          static_rules = st.scored;
          runtime_rules = run.scored;
          evidence = sort_scored (st.scored ++ run.scored);
          fraud_delta_adjustment = round_to 2 (delta_adjustment i.delta_score);
          external_engine_evidence_count = e.accepted;
        }
