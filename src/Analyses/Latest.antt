-- ===== src/Analyses/Latest.antt =====
-- The analysis that latest_completed answers (AnalysisRepository of fraudshield/core/repository.py).
use boi.Prelude.Floats.{Floats}
use boi.Prelude.{
  ◌≤◌, ◌≡◌, refl, sym, ap, ◌∙◌, ◌⊎◌, Bool, true, false, ◌&&◌, Option, none, some, [], ◌∷◌, Among,
  All, Bool-cases, and-true, true_not_false, subst, inl, inr, ltb, arith,
}
use boi.Analyses.Store.{
  is_completed, Result, ok, err, Analysis, Db, found, time_of, later_of, latest_of,
  latest_completed,
}

module _ (fs : Floats) where
  -- No completed row is later than this one.
  abbrev pub NoLater : Analysis fs → Analysis fs → Type 0
  NoLater row x = is_completed x.status ≡ true → time_of x.completed_at ≤ time_of row.completed_at

  -- What the loop ends in, from the best row before.
  abbrev Best : Option (Analysis fs) → Db fs → Option (Analysis fs) → Type 0
  Best best db none = (best ≡ none) × All (λ x. is_completed x.status ≡ false) db
  Best best db (some row) =
      ((best ≡ some row) ⊎ (Among row db × (is_completed row.status ≡ true)))
      × All (NoLater row) db
      × ((b : Analysis fs) → best ≡ some b → time_of b.completed_at ≤ time_of row.completed_at)

  extend_none :
      (x : Analysis fs) (db : Db fs) (o : Option (Analysis fs))
      → Best (later_of fs none x) db o
      → Best none (x ∷ db) o
  unfolding later_of
  extend_none x db o h = elim (Bool-cases (is_completed x.status)) [
    | inl fine ↦ taken o fine (rw fine at h)
    | inr other ↦ passed o other (rw other at h)
  ]
    where
      taken :
          (p : Option (Analysis fs))
          → is_completed x.status ≡ true
          → Best (some x) db p
          → Best none (x ∷ db) p
      taken none fine (e, all) = cc
      taken (some row) fine (from, all, above) = (
        inr (elim from [
          | inl e ↦
              let same : row ≡ x = cc in (inl same, ap (λ k. is_completed k.status) same ∙ fine)
          | inr (m, c) ↦ (inr m, c)
        ]),
        (λ c. above x refl, all),
        λ b e. cc,
      )

      passed :
          (p : Option (Analysis fs))
          → is_completed x.status ≡ false
          → Best none db p
          → Best none (x ∷ db) p
      passed none other (e, all) = (refl, (other, all))
      passed (some row) other (from, all, above) = (
        elim from [ inl e ↦ cc | inr (m, c) ↦ inr (inr m, c) ],
        (λ c. absurd (true_not_false (sym c ∙ other)), all),
        λ b e. cc,
      )

  extend_some :
      (b x : Analysis fs) (db : Db fs) (o : Option (Analysis fs))
      → Best (later_of fs (some b) x) db o
      → Best (some b) (x ∷ db) o
  unfolding later_of
  extend_some b x db o h =
      elim (Bool-cases
        (is_completed x.status && ltb (time_of b.completed_at) (time_of x.completed_at))) [
          | inl later ↦ taken o later (rw later at h)
          | inr other ↦ passed o other (rw other at h)
        ]
    where
      is_later : Bool
      is_later = is_completed x.status && ltb (time_of b.completed_at) (time_of x.completed_at)

      taken :
          (p : Option (Analysis fs))
          → is_later ≡ true
          → Best (some x) db p
          → Best (some b) (x ∷ db) p
      taken none later (e, all) = cc
      taken (some row) later (from, all, above) =
          let (fine, up) = and-true _ _ later in
          (
            inr (elim from [
              | inl e ↦
                  let same : row ≡ x = cc in (inl same, ap (λ k. is_completed k.status) same ∙ fine)
              | inr (m, c) ↦ (inr m, c)
            ]),
            (λ c. above x refl, all),
            λ d e.
                let same : d ≡ b = cc in
                let low : time_of b.completed_at ≤ time_of row.completed_at =
                  ground (arith, up, above x refl) in
                subst (λ k. time_of k.completed_at ≤ time_of row.completed_at) (sym same) low,
          )

      passed :
          (p : Option (Analysis fs))
          → is_later ≡ false
          → Best (some b) db p
          → Best (some b) (x ∷ db) p
      passed none other (e, all) = cc
      passed (some row) other (from, all, above) = (
        elim from [ inl e ↦ inl e | inr (m, c) ↦ inr (inr m, c) ],
        (λ c. ground (arith, c, other, above b refl), all),
        above,
      )

  latest_of-Best : (db : Db fs) (best : Option (Analysis fs)) → Best best db (latest_of fs best db)
  unfolding latest_of
  latest_of-Best [] none = (refl, tt)
  latest_of-Best [] (some b) = (
    inl refl,
    tt,
    λ c e.
        let same : b ≡ c = cc in
        subst (λ k. time_of k.completed_at ≤ time_of b.completed_at) same (omega arith),
  )
  latest_of-Best (x ∷ db) none = extend_none x db _ (latest_of-Best db (later_of fs none x))
  latest_of-Best (x ∷ db) (some b) =
      extend_some b x db _ (latest_of-Best db (later_of fs (some b) x))

  -- What latest_completed answers.
  abbrev pub IsLatest : Db fs → Result (Analysis fs) → Type 0
  IsLatest db (ok row) = Among row db × (is_completed row.status ≡ true) × All (NoLater row) db
  IsLatest db (err e) = All (λ x. is_completed x.status ≡ false) db

  -- latest_completed answers a completed analysis of the table, and none that is completed is later;
  -- it raises only where no analysis is completed.
  pub latest_completed-IsLatest : (db : Db fs) → IsLatest db (latest_completed fs db)
  unfolding latest_completed
  latest_completed-IsLatest db = answered (latest_of fs none db) (latest_of-Best db none)
    where
      answered : (o : Option (Analysis fs)) → Best none db o → IsLatest db (found fs o)
      answered none (e, all) = all
      answered (some row) (from, all, above) = elim from [ inl e ↦ cc | inr (m, c) ↦ (m, c, all) ]
