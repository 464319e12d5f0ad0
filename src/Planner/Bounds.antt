-- ===== src/Planner/Bounds.antt =====
-- What a plan of experiments holds (fraudshield/deceptiscope/experiments.py).
use boi.Prelude.Floats.{Floats}
use boi.Prelude.{
  ℕ, zero, suc, ◌≤◌, ◌≡◌, ◌↔◌, refl, sym, ◌∙◌, String, Bool, true, false, not, Option, List, [],
  ◌∷◌, map, string_eq, arith, Bool-cases, Among, All, keep, take, length, min, true_not_false, inl,
  inr,
}
use boi.Scoring.Rules.{is_cons}
use boi.Verifier.Types.{Hypothesis}
use boi.Planner.Requests.{Request}
use boi.Planner.Plan.{
  Definition, planned, Item, missing_capabilities, plan_item, score_request, insert_item,
  sort_items, plan_requests,
}

-- All required capabilities are there.
abbrev pub IsReady : (String → Bool) → List String → Type 0
IsReady capabilities cs = All (λ c. capabilities c ≡ true) cs

missing-IsReady :
    (capabilities : String → Bool) (cs : List String)
    → (is_cons (keep (λ c. not (capabilities c)) cs) ≡ false) ↔ IsReady capabilities cs
missing-IsReady capabilities [] = (λ h. tt, λ h. refl)
missing-IsReady capabilities (c ∷ cs) = elim (Bool-cases (capabilities c)) [
  | inl there ↦ rw there (
    λ h. (refl, (missing-IsReady capabilities cs).0 h),
    λ h. (missing-IsReady capabilities cs).1 h.1,
  )
  | inr gone ↦ rw gone (λ h. absurd (true_not_false h), λ h. absurd (true_not_false (sym h.0)))
]

-- An experiment is planned exactly where every capability that its definition requires is there and
-- it is safe by default; and it is marked as supported exactly where it is planned.
pub planned_iff :
    (capabilities : String → Bool) (definitions : String → Definition) (r : Request)
    → let item = plan_item capabilities definitions r in
      ((item.status ≡ planned) ↔ (
        IsReady capabilities (definitions r.experiment_type).required_capabilities
        × ((definitions r.experiment_type).safe_by_default ≡ true)))
      × ((item.supported ≡ true) ↔ (item.status ≡ planned))
unfolding plan_item missing_capabilities
planned_iff capabilities definitions r =
    let d = definitions r.experiment_type in
    let (to, from) = missing-IsReady capabilities d.required_capabilities in
    elim (Bool-cases (is_cons (keep (λ c. not (capabilities c)) d.required_capabilities))) [
      | inl lacks ↦
          rw lacks
            ((λ h. cc, λ h. absurd (true_not_false (sym lacks ∙ from h.0))), (λ h. cc, λ h. cc))
      | inr has ↦ elim (Bool-cases d.safe_by_default) [
        | inl safe ↦ rw (has, safe) ((λ h. (to has, refl), λ h. refl), (λ h. refl, λ h. refl))
        | inr risky ↦ rw (has, risky) ((λ h. cc, λ h. cc), (λ h. cc, λ h. cc))
      ]
    ]

module _ (fs : Floats) (capabilities : String → Bool) (definitions : String → Definition) where
  insert_item-All :
      (P : fs.Float × Item → Type 0) (x : fs.Float × Item) (xs : List (fs.Float × Item))
      → P x
      → All P xs
      → All P (insert_item fs capabilities definitions x xs)
  unfolding insert_item
  insert_item-All P x [] p h = (p, tt)
  insert_item-All P x (y ∷ ys) p h = elim (Bool-cases (fs.less x.0 y.0)) [
    | inl later ↦ rw later (h.0, insert_item-All P x ys p h.1)
    | inr first ↦ rw first (p, h)
  ]

  sort_items-All :
      (P : fs.Float × Item → Type 0) (xs : List (fs.Float × Item))
      → All P xs
      → All P (sort_items fs capabilities definitions xs)
  unfolding sort_items
  sort_items-All P [] h = tt
  sort_items-All P (x ∷ xs) h = insert_item-All P x _ h.0 (sort_items-All P xs h.1)

  -- The item is the plan of one of the requests.
  abbrev pub Comes : List Request → Item → Type 0
  Comes rs item = (r : Request) × Among r rs × (item ≡ plan_item capabilities definitions r)

  map-All :
      (f : Request → fs.Float × Item) (P : fs.Float × Item → Type 0) (rs : List Request)
      → ((r : Request) → Among r rs → P (f r))
      → All P (map f rs)
  map-All f P [] h = tt
  map-All f P (r ∷ rs) h = (h r (inl refl), map-All f P rs (λ q m. h q (inr m)))

  take-All :
      (P : Item → Type 0) (n : ℕ) (xs : List (fs.Float × Item))
      → All (λ x. P x.1) xs
      → All P (map (λ x. x.1) (take n xs)) × (length (map (λ x. x.1) (take n xs)) ≤ n)
  take-All P zero xs h = (tt, omega arith)
  take-All P (suc n) [] h = (tt, omega arith)
  take-All P (suc n) (x ∷ xs) h =
      let (all, short) = take-All P n xs h.1 in ((h.0, all), omega (arith, short))

  -- A plan has at most as many experiments as either limit of the settings allows, and each of them
  -- is the plan of one of the requests, whatever the scores are that order them.
  pub plan_requests_bounds :
      (plan_limit round_limit : ℕ) (hypotheses : String → Option (Hypothesis fs))
      (requests : List Request)
      → let plan =
          plan_requests fs capabilities definitions plan_limit round_limit hypotheses requests in
        All (Comes requests) plan × (length plan ≤ plan_limit) × (length plan ≤ round_limit)
  unfolding plan_requests
  plan_requests_bounds plan_limit round_limit hypotheses requests =
      let score : Request → fs.Float × Item = λ r. (
        score_request fs capabilities definitions r (hypotheses r.hypothesis_id),
        plan_item capabilities definitions r,
      ) in
      let scored = map score requests in
      let (all, short) =
        take-All (Comes requests) (min plan_limit round_limit)
          (sort_items fs capabilities definitions scored)
          (sort_items-All (λ x. Comes requests x.1) scored
            (map-All score (λ x. Comes requests x.1) requests (λ r m. (r, m, refl)))) in
      (all, omega (arith, short), omega (arith, short))
