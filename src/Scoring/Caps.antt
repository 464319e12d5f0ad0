-- ===== src/Scoring/Caps.antt =====
-- What one external engine can add, and what the runtime rules do not ask for.
use boi.Prelude.Floats.{Floats}
use boi.Prelude.{
  ℕ, ◌+◌, ◌≤◌, ◌≡◌, ap₂, inl, inr, String, ◌||◌, not, Option, none, some, List, [], ◌∷◌, nat_eq,
  string_eq, ◌==◌, arith, Bool-cases, All,
}
use boi.Scoring.Types.{Category, same_category, category_of, Totals}
use boi.Scoring.Accounting.{same_category_eq}
use boi.Scoring.Static.{Static}
use boi.Scoring.Engines.{
  Finding, Engines, used_by, granted, ext_scored, accept, accept_known, engine_step, engine_loop,
  engine_evidence,
}

module _ (fs : Floats) (ext_id : String → ℕ → String) where
  -- Findings of one engine, from totals `t`: what the engine has used of a category is what the
  -- category has gained, and at most 25.
  abbrev Spent : String → Totals → Engines fs → Type 0
  Spent e t s =
      (c : Category) → (s.static.totals c ≡ t c + used_by e c s.used) × (used_by e c s.used ≤ 25)

  accept-Spent :
      (e : String) (t : Totals) (f : Finding fs) (c : Category) (s : Engines fs)
      → f.engine ≡ e
      → Spent e t s
      → Spent e t (accept fs ext_id f c s)
  unfolding accept ext_scored
  accept-Spent e t f c s same h d = elim (Bool-cases (granted fs ext_id f c s.used == 0)) [
    | inl none_left ↦ rw none_left (h d)
    | inr some_left ↦ elim (Bool-cases (same_category c d)) [
      | inr other ↦ rw (some_left, other) (ground (arith, h d))
      | inl hit ↦
          let me = (string_eq.equals_iff f.engine e).1 same in
          let used = ap₂ (λ x y. used_by x y s.used) same (same_category_eq c d hit) in
          rw (some_left, hit, me)
            (omega (arith, (h d).0, (h d).1, used), omega (arith, (h d).1, used))
    ]
  ]

  step-Spent :
      (e : String) (t : Totals) (f : Finding fs) (s : Engines fs)
      → f.engine ≡ e
      → Spent e t s
      → Spent e t (engine_step fs ext_id f s)
  unfolding engine_step
  step-Spent e t f s same h =
      elim (Bool-cases (not f.score_eligible || fs.less f.confidence (fs.literal 7 1))) [
        | inl skipped ↦ rw skipped h
        | inr counts ↦ rw counts (known (category_of f.risk_category))
      ]
    where
      known : (o : Option Category) → Spent e t (accept_known fs ext_id f o s)
      known none = h
      known (some c) = accept-Spent e t f c s same h

  loop-Spent :
      (e : String) (t : Totals) (xs : List (Finding fs)) (s : Engines fs)
      → All (λ f. f.engine ≡ e) xs
      → Spent e t s
      → Spent e t (engine_loop fs ext_id xs s)
  unfolding engine_loop
  loop-Spent e t [] s same h = h
  loop-Spent e t (f ∷ xs) s same h =
      loop-Spent e t xs (engine_step fs ext_id f s) same.1 (step-Spent e t f s same.0 h)

  -- However many findings one engine reports, and whatever points they ask for, they raise no
  -- category's total by more than 25, and lower none.
  pub one_engine_cap :
      (e : String) (xs : List (Finding fs)) (st : Static) (c : Category)
      → All (λ f. f.engine ≡ e) xs
      → let after = (engine_evidence fs ext_id xs st).static in
        (st.totals c ≤ after.totals c) × (after.totals c ≤ st.totals c + 25)
  unfolding engine_evidence
  one_engine_cap e xs st c same =
      let spent =
        loop-Spent e st.totals xs (record { static = st; used = []; accepted = 0 }) same
          (λ d. (omega arith, omega arith)) c in
      (omega (arith, spent.0), omega (arith, spent.0, spent.1))
