-- ===== src/Scoring/Trust.antt =====
-- Which runtime evidence earns points.
use boi.Prelude.Floats.{Floats}
use boi.Prelude.{
  Among, ◌≤◌, ◌≡◌, refl, subst, ◌≢◌, ap, inl, inr, String, true, List, [], ◌∷◌, string_eq, min,
  arith, Bool-cases,
}
use boi.Scoring.Types.{Category, same_category}
use boi.Scoring.Runtime.{
  runtime_dcl, Observation, RuntimeRule, Runtime, runtime_cap, runtime_step, runtime_loop,
  runtime_rules, runtime_stage, runtime_adjustment, runtime_accessibility, typed, seen,
}
use boi.Scoring.Accounting.{same_category_eq, same_category_refl}

module _ (fs : Floats) where
  abbrev Within : Runtime fs → Type 0
  Within s = (c : Category) → s.totals c ≤ runtime_cap c

  -- One rule raises its category's total, to its points or the cap at least if it holds, and
  -- leaves every total within its cap.
  module _ (evidence : List (Observation fs)) (r : RuntimeRule fs) (s : Runtime fs)
      (h : Within s) where
    step_grows : (c : Category) → s.totals c ≤ (runtime_step fs evidence r s).totals c
    unfolding runtime_step
    step_grows c = elim (Bool-cases (r.predicate evidence).0) [
      | inr miss ↦ rw miss (omega arith)
      | inl hit ↦ elim (Bool-cases (same_category r.category c)) [
        | inr other ↦ rw (hit, other) (omega arith)
        | inl same ↦
            let here = ap s.totals (same_category_eq r.category c same) in
            rw (hit, same) (omega (arith, here))
      ]
    ]

    step-Within : Within (runtime_step fs evidence r s)
    unfolding runtime_step
    step-Within c = elim (Bool-cases (r.predicate evidence).0) [
      | inr miss ↦ rw miss (h c)
      | inl hit ↦ elim (Bool-cases (same_category r.category c)) [
        | inr other ↦ rw (hit, other) (h c)
        | inl same ↦
            let here = ap s.totals (same_category_eq r.category c same) in
            let cap = ap runtime_cap (same_category_eq r.category c same) in
            rw (hit, same) (omega (arith, here, cap, h c))
      ]
    ]

    step_counts :
        (r.predicate evidence).0 ≡ true
        → min r.points (runtime_cap r.category) ≤ (runtime_step fs evidence r s).totals r.category
    unfolding runtime_step
    step_counts hit = rw (hit, same_category_refl r.category) (omega (arith, h r.category))

  loop_grows :
      (evidence : List (Observation fs)) (rs : List (RuntimeRule fs)) (s : Runtime fs)
      (c : Category)
      → Within s
      → s.totals c ≤ (runtime_loop fs evidence rs s).totals c
  unfolding runtime_loop
  loop_grows evidence [] s c h = omega arith
  loop_grows evidence (r ∷ rs) s c h = omega (
    arith,
    step_grows evidence r s h c,
    loop_grows evidence rs (runtime_step fs evidence r s) c (step-Within evidence r s h),
  )

  loop_counts :
      (evidence : List (Observation fs)) (r : RuntimeRule fs) (rs : List (RuntimeRule fs))
      (s : Runtime fs)
      → Among r rs
      → (r.predicate evidence).0 ≡ true
      → Within s
      → min r.points (runtime_cap r.category) ≤ (runtime_loop fs evidence rs s).totals r.category
  unfolding runtime_loop
  loop_counts evidence r [] s m hit h = absurd m
  loop_counts evidence r (q ∷ rs) s (inl e) hit h =
      let after = runtime_step fs evidence q s in
      let mine : min r.points (runtime_cap r.category)
          ≤ (runtime_step fs evidence q s).totals r.category =
        subst
          (λ x.
            min r.points (runtime_cap r.category)
            ≤ (runtime_step fs evidence x s).totals r.category)
          e (step_counts evidence r s h hit) in
      omega (arith, mine, loop_grows evidence rs after r.category (step-Within evidence q s h))
  loop_counts evidence r (q ∷ rs) s (inr m) hit h =
      loop_counts evidence r rs (runtime_step fs evidence q s) m hit (step-Within evidence q s h)

  -- Every runtime rule that the evidence meets counts: its category's total is at least the rule's
  -- points, or the category's cap where that is less.
  pub matched_rule_counts :
      (evidence : List (Observation fs)) (r : RuntimeRule fs)
      → Among r (runtime_rules fs)
      → (r.predicate evidence).0 ≡ true
      → evidence ≢ []
      → min r.points (runtime_cap r.category) ≤ (runtime_stage fs evidence).totals r.category
  unfolding runtime_stage
  matched_rule_counts [] r m hit some_evidence = absurd (some_evidence refl)
  matched_rule_counts (ev ∷ evs) r m hit some_evidence =
      loop_counts (ev ∷ evs) r (runtime_rules fs) _ m hit (λ c. omega arith)

  -- Accessibility behaviour earns its points whatever the trust level and the confidence of the
  -- observation: one observation of that type raises the runtime adjustment to 18 at least, and one
  -- of the type `dynamic_code_load` raises it to 15 at least.
  pub untrusted_evidence_counts :
      (ev : Observation fs) (evs : List (Observation fs))
      → (ev.evidence_type ≡ "accessibility_behavior" → 18 ≤ runtime_adjustment fs (ev ∷ evs))
        × (ev.evidence_type ≡ "dynamic_code_load" → 15 ≤ runtime_adjustment fs (ev ∷ evs))
  unfolding runtime_adjustment runtime_rules runtime_accessibility runtime_dcl runtime_cap
  untrusted_evidence_counts ev evs = (
    λ e. omega (
      arith,
      matched_rule_counts (ev ∷ evs) _ (inr (inr (inl refl)))
          (first ("accessibility_behavior" ∷ "accessibility_event" ∷ []) (rw (e) refl)) (λ n. cc),
    ),
    λ e. omega (
      arith,
      matched_rule_counts (ev ∷ evs) _ (inr (inr (inr (inl refl))))
          (first ("dynamic_code_load" ∷ "classloader_event" ∷ []) (rw (e) refl)) (λ n. cc),
    ),
  )
    where
      first :
          (types : List String)
          → typed fs types ev ≡ true
          → (seen fs (typed fs types) (ev ∷ evs)).0 ≡ true
      first types h = rw h refl
