-- ===== src/Scoring/Bounds.antt =====
-- The range of the scores, and how severity reads them.
use boi.Prelude.Int.{clamp_bounds, clamp_mono, ◌≤ℤ◌}
use boi.Prelude.Floats.{Floats}
use boi.Prelude.{ℕ, ◌+◌, ◌≤◌, ◌≡◌, refl, ap, ◌↔◌, String, List, [], ◌∷◌, min, arith}
use boi.Scoring.Types.{
  Category, credential_theft, payment_manipulation, fraud_impersonation, evasion_resilience, Totals,
  sum_totals, low, medium, high, critical,
}
use boi.Scoring.Runtime.{runtime_stage, runtime_adjustment}
use boi.Scoring.Calculate.{
  Input, calculate, severity, static_score, static_weighted, delta_adjustment, engines_of,
}

-- The severity of a score: critical from 75 on, high from 50 to 74, medium from 25 to 49, low up
-- to 24.
pub severity_iff :
    (n : ℕ)
    → ((severity n ≡ critical) ↔ (75 ≤ n))
      × ((severity n ≡ high) ↔ ((50 ≤ n) × (n ≤ 74)))
      × ((severity n ≡ medium) ↔ ((25 ≤ n) × (n ≤ 49)))
      × ((severity n ≡ low) ↔ (n ≤ 24))
unfolding severity
severity_iff n = (
  (λ h. ground arith, λ h. ground arith),
  (λ h. ground arith, λ h. ground arith),
  (λ h. ground arith, λ h. ground arith),
  (λ h. ground arith, λ h. ground arith),
)

module _ (fs : Floats) where
  open fs use {Float, add, mul, literal, of_nat, total, round}

  -- What is assumed of the floats: an order that `float`, products by a literal, sums and `round`
  -- keep, as rounded arithmetic does.
  abbrev pub Pointwise : (Float → Float → Type 0) → List Float → List Float → Type 0
  Pointwise le [] [] = Unit
  Pointwise le (a ∷ xs) (b ∷ ys) = le a b × Pointwise le xs ys
  Pointwise le _ _ = ⊥

  pub record IsMonotone (le : Float → Float → Type 0) : Type 0 where
    pub of_nat_mono : (m n : ℕ) → m ≤ n → le (of_nat m) (of_nat n)
    pub mul_mono : (a b : Float) (m k : ℕ) → le a b → le (mul a (literal m k)) (mul b (literal m k))
    pub add_mono : (a b c : Float) → le a b → le (add a c) (add b c)
    pub total_mono : (xs ys : List Float) → Pointwise le xs ys → le (total xs) (total ys)
    pub round_mono : (a b : Float) → le a b → round a ≤ℤ round b

  -- More evidence never lowers the static score: where no category's total is lower, and the delta
  -- is the same, the score is not lower, whatever the rounding, as long as it is monotone.
  pub static_score_mono :
      (le : Float → Float → Type 0) (t u : Totals) (delta : Float)
      → IsMonotone le
      → ((c : Category) → t c ≤ u c)
      → static_score fs t delta ≤ static_score fs u delta
  unfolding static_score static_weighted
  static_score_mono le t u delta mono more = clamp_mono 0 100 _ _ (omega arith) (
      mono.round_mono _ _ (
        mono.add_mono _ _ (delta_adjustment fs delta) (
          mono.total_mono _ _ (
            part credential_theft 34 2,
            (
              part payment_manipulation 30 2,
              (part fraud_impersonation 20 2, (part evasion_resilience 16 2, tt)),
            ),
          ))))
    where
      part :
          (c : Category) (m k : ℕ)
          → le
              (mul (of_nat (min 100 (t c))) (literal m k))
              (mul (of_nat (min 100 (u c))) (literal m k))
      part c m k = mono.mul_mono _ _ m k (mono.of_nat_mono _ _ (omega (arith, more c)))

module _ (fs : Floats) (ext_id : String → ℕ → String) where
  open fs use {add, round}

  -- The overall score is the static score raised by the runtime adjustment and cut at 100. So no
  -- runtime evidence lowers it, and with none it is the static score; both scores are at most 100, and
  -- the adjustment is at most 35. The severity is critical for an overall score from 75 on, high from
  -- 50 to 74, medium from 25 to 49, and low up to 24.
  pub calculate_bounds :
      (i : Input fs)
      → let r = calculate fs ext_id i in
        (r.overall_score ≡ min 100 (r.static_score + r.runtime_adjustment))
        × (r.static_score ≤ r.overall_score)
        × (r.overall_score ≤ 100)
        × (r.runtime_adjustment ≤ 35)
        × (i.runtime_evidence ≡ [] → r.overall_score ≡ r.static_score)
        × ((r.severity ≡ critical) ↔ (75 ≤ r.overall_score))
        × ((r.severity ≡ high) ↔ ((50 ≤ r.overall_score) × (r.overall_score ≤ 74)))
        × ((r.severity ≡ medium) ↔ ((25 ≤ r.overall_score) × (r.overall_score ≤ 49)))
        × ((r.severity ≡ low) ↔ (r.overall_score ≤ 24))
  unfolding calculate static_score runtime_adjustment
  calculate_bounds i =
      let s =
        clamp_bounds 0 100
          (round (
            add (static_weighted fs (engines_of fs ext_id i).static.totals)
              (delta_adjustment fs i.delta_score)))
          (omega arith) in
      let (is_critical, is_high, is_medium, is_low) =
        severity_iff (calculate fs ext_id i).overall_score in
      (
        refl,
        omega arith,
        omega arith,
        omega arith,
        λ e. omega (arith, silent e),
        is_critical,
        is_high,
        is_medium,
        is_low,
      )
    where
      silent : i.runtime_evidence ≡ [] → sum_totals (runtime_stage fs i.runtime_evidence).totals ≡ 0
      silent e = unfold runtime_stage in (ap (λ l. sum_totals (runtime_stage fs l).totals) e)
