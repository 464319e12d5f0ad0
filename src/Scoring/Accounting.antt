-- ===== src/Scoring/Accounting.antt =====
-- Every point of a score stands in the report: the totals are the sums of the listed rules.
use boi.Prelude.Floats.{Floats}
use boi.Prelude.{
  subst, ℕ, ◌+◌, ◌-◌, ◌≤◌, ◌≡◌, refl, ap, ◌∙◌, inl, inr, String, Bool, true, false, ◌||◌, not,
  Option, none, some, List, [], ◌∷◌, ◌++◌, nat_eq, min, ◌==◌, arith, Bool-cases, if◌then◌else◌,
}
use boi.Scoring.Types.{
  Category, credential_theft, payment_manipulation, fraud_impersonation, evasion_resilience,
  same_category, category_of, zero_totals, sum_totals, Scored, points_in,
}
use boi.Scoring.Rules.{Features, Rule, rules, is_cons}
use boi.Scoring.Static.{
  Static, award, scored_rule, apply_rules, interaction, sms_interaction, overlay_interaction,
  loader_interaction, static_stage,
}
use boi.Scoring.Engines.{
  accept_known, Finding, Engines, granted, ext_scored, accept, engine_step, engine_loop,
  engine_evidence,
}
use boi.Scoring.Runtime.{
  Observation, Runtime, RuntimeRule, runtime_cap, put, runtime_step, runtime_loop, runtime_rules,
  runtime_stage, runtime_adjustment, scored_runtime,
}
use boi.Scoring.Calculate.{Input, calculate}

pub points_in-append :
    (c : Category) (xs ys : List Scored) → points_in c (xs ++ ys) ≡ points_in c xs + points_in c ys
unfolding points_in
points_in-append c [] ys = omega arith
points_in-append c (x ∷ xs) ys = omega (arith, points_in-append c xs ys)

points_in-singleton :
    (c : Category) (s : Scored)
    → points_in c (s ∷ []) ≡ (if same_category s.category c then s.points else 0)
unfolding points_in
points_in-singleton c s = omega arith

-- The totals are what the listed rules add up to.
abbrev pub IsAccounted : Static → Type 0
IsAccounted st = (c : Category) → st.totals c ≡ points_in c st.scored

nothing_yet : (c : Category) → 0 ≡ points_in c []
unfolding points_in
nothing_yet c = refl

award-IsAccounted :
    (s : Scored) (st : Static) → IsAccounted st → IsAccounted (award s.category s.points s st)
award-IsAccounted s st h c =
    ground (arith, h c, points_in-append c st.scored (s ∷ []), points_in-singleton c s)

apply_rules-IsAccounted :
    (f : Features) (rs : List Rule) (st : Static)
    → IsAccounted st
    → IsAccounted (apply_rules f rs st)
unfolding apply_rules
apply_rules-IsAccounted f [] st h = h
apply_rules-IsAccounted f (r ∷ rs) st h = apply_rules-IsAccounted f rs _ (matched (r.predicate f))
  where
    matched :
        (m : Bool × List String)
        → IsAccounted (if m.0 then award r.category r.points (scored_rule r m.1) st else st)
    matched (true, artifacts) = award-IsAccounted (scored_rule r artifacts) st h
    matched (false, artifacts) = h

if-IsAccounted :
    (b : Bool) (x y : Static) → IsAccounted x → IsAccounted y → IsAccounted (if b then x else y)
if-IsAccounted true x y h k = h
if-IsAccounted false x y h k = k

interaction-IsAccounted :
    (id : String) (c : Category) (n : ℕ) (why : String) (found : List String) (st : Static)
    → IsAccounted st
    → IsAccounted (interaction id c n why found st)
unfolding interaction
interaction-IsAccounted id c n why found st h = award-IsAccounted _ st h

static_stage-IsAccounted : (f : Features) → IsAccounted (static_stage f)
unfolding static_stage sms_interaction overlay_interaction loader_interaction
static_stage-IsAccounted f =
    if-IsAccounted _ _ _ (interaction-IsAccounted _ _ _ _ _ _ overlaid) overlaid
  where
    ruled : IsAccounted (apply_rules f rules (record { totals = zero_totals; scored = [] }))
    ruled = apply_rules-IsAccounted f rules _ (λ c. nothing_yet c)

    texted :
        IsAccounted
          (sms_interaction f (apply_rules f rules (record { totals = zero_totals; scored = [] })))
    texted = if-IsAccounted _ _ _ (interaction-IsAccounted _ _ _ _ _ _ ruled) ruled

    overlaid : IsAccounted (
        overlay_interaction f
          (sms_interaction f (apply_rules f rules (record { totals = zero_totals; scored = [] }))))
    overlaid = if-IsAccounted _ _ _ (interaction-IsAccounted _ _ _ _ _ _ texted) texted

pub same_category_eq : (c d : Category) → same_category c d ≡ true → c ≡ d
same_category_eq credential_theft d h = ground arith
same_category_eq payment_manipulation d h = ground arith
same_category_eq fraud_impersonation d h = ground arith
same_category_eq evasion_resilience d h = ground arith

pub same_category_refl : (c : Category) → same_category c c ≡ true
same_category_refl credential_theft = refl
same_category_refl payment_manipulation = refl
same_category_refl fraud_impersonation = refl
same_category_refl evasion_resilience = refl

module _ (fs : Floats) (ext_id : String → ℕ → String) where
  accepted :
      (f : Finding fs) (c : Category) (s : Engines fs)
      → IsAccounted s.static
      → IsAccounted (accept fs ext_id f c s).static
  unfolding accept ext_scored
  accepted f c s h = elim (Bool-cases (granted fs ext_id f c s.used == 0)) [
    | inl zero_points ↦ rw zero_points h
    | inr some_points ↦ rw some_points (
        award-IsAccounted (ext_scored fs ext_id f c (granted fs ext_id f c s.used) (s.accepted + 1))
          s.static h)
  ]

  step :
      (f : Finding fs) (s : Engines fs)
      → IsAccounted s.static
      → IsAccounted (engine_step fs ext_id f s).static
  unfolding engine_step
  step f s h = elim (Bool-cases (not f.score_eligible || fs.less f.confidence (fs.literal 7 1))) [
    | inl skipped ↦ rw skipped h
    | inr counts ↦ rw counts (categorised (category_of f.risk_category))
  ]
    where
      categorised : (o : Option Category) → IsAccounted (accept_known fs ext_id f o s).static
      categorised none = h
      categorised (some c) = accepted f c s h

  engine_loop-IsAccounted :
      (xs : List (Finding fs)) (s : Engines fs)
      → IsAccounted s.static
      → IsAccounted (engine_loop fs ext_id xs s).static
  unfolding engine_loop
  engine_loop-IsAccounted [] s h = h
  engine_loop-IsAccounted (f ∷ xs) s h =
      engine_loop-IsAccounted xs (engine_step fs ext_id f s) (step f s h)

  -- The runtime totals are what the listed rules add up to, within the cap of each category.
  abbrev pub IsCapped : Runtime fs → Type 0
  IsCapped s = (c : Category) → (s.totals c ≡ points_in c s.scored) × (s.totals c ≤ runtime_cap c)

  runtime_step-IsCapped :
      (evidence : List (Observation fs)) (r : RuntimeRule fs) (s : Runtime fs)
      → IsCapped s
      → IsCapped (runtime_step fs evidence r s)
  unfolding runtime_step
  runtime_step-IsCapped evidence r s h = matched (r.predicate evidence)
    where
      matched :
          (m : Bool × List String × List String)
          → IsCapped (
              if m.0
              then record {
                totals =
                    put r.category
                      (s.totals r.category
                        + min r.points (runtime_cap r.category - s.totals r.category))
                      s.totals;
                scored =
                    s.scored
                    ++ (scored_runtime fs r
                          (min r.points (runtime_cap r.category - s.totals r.category))
                          m.1
                          m.2
                        ∷ []);
              }
              else s)
      matched (false, ids, artifacts) c = h c
      matched (true, ids, artifacts) c = elim (Bool-cases (same_category r.category c)) [
        | inl same ↦ subst Grown (same_category_eq r.category c same) at_rule
        | inr other ↦ rw other ((h c).0 ∙ omega (arith, grown c, rw other at (one c)), (h c).1)
      ]
        where
          awarded : ℕ
          awarded = min r.points (runtime_cap r.category - s.totals r.category)

          new : Scored
          new = scored_runtime fs r awarded ids artifacts

          grown :
              (d : Category)
              → points_in d (s.scored ++ (new ∷ [])) ≡ points_in d s.scored + points_in d (new ∷ [])
          grown d = points_in-append d s.scored (new ∷ [])

          one :
              (d : Category)
              → points_in d (new ∷ []) ≡ (if same_category r.category d then awarded else 0)
          one d = points_in-singleton d new

          Grown : Category → Type 0
          Grown d =
              (put r.category (s.totals r.category + awarded) s.totals d
                ≡ points_in d (s.scored ++ (new ∷ [])))
              × (put r.category (s.totals r.category + awarded) s.totals d ≤ runtime_cap d)

          at_rule : Grown r.category
          at_rule =
              let me = same_category_refl r.category in
              rw me (
                omega (arith, (h r.category).0, grown r.category, rw me at (one r.category)),
                omega (arith, (h r.category).1),
              )

  runtime_loop-IsCapped :
      (evidence : List (Observation fs)) (rs : List (RuntimeRule fs)) (s : Runtime fs)
      → IsCapped s
      → IsCapped (runtime_loop fs evidence rs s)
  unfolding runtime_loop
  runtime_loop-IsCapped evidence [] s h = h
  runtime_loop-IsCapped evidence (r ∷ rs) s h =
      runtime_loop-IsCapped evidence rs (runtime_step fs evidence r s)
        (runtime_step-IsCapped evidence r s h)

  pub runtime_stage-IsCapped :
      (evidence : List (Observation fs)) → IsCapped (runtime_stage fs evidence)
  unfolding runtime_stage
  runtime_stage-IsCapped evidence = elim (Bool-cases (is_cons evidence)) [
    | inl some_evidence ↦
        rw some_evidence (runtime_loop-IsCapped evidence (runtime_rules fs) _ start)
    | inr no_evidence ↦ rw no_evidence start
  ]
    where
      start : (c : Category) → (0 ≡ points_in c []) × (0 ≤ runtime_cap c)
      start c = (nothing_yet c, omega arith)

  -- The report explains its points. For every category the sub-score is what the listed static rules
  -- of that category add up to, cut at 100; the listed runtime rules of a category add up to at most
  -- its cap; and the runtime adjustment is what the listed runtime rules add up to, cut at 35.
  pub calculate_accounted :
      (i : Input fs)
      → let r = calculate fs ext_id i in
        ((c : Category) → r.sub_scores c ≡ min 100 (points_in c r.static_rules))
        × ((c : Category) → points_in c r.runtime_rules ≤ runtime_cap c)
        × (r.runtime_adjustment ≡ min 35 (sum_totals (λ c. points_in c r.runtime_rules)))
  unfolding calculate runtime_adjustment engine_evidence
  calculate_accounted i =
      let st = engine_loop-IsAccounted i.findings _ (static_stage-IsAccounted i.features) in
      let run = runtime_stage-IsCapped i.runtime_evidence in
      (
        λ c. ap (λ n. min 100 n) (st c),
        λ c. omega (arith, run c),
        omega (
          arith,
          (run credential_theft).0,
          (run payment_manipulation).0,
          (run fraud_impersonation).0,
          (run evasion_resilience).0,
        ),
      )
