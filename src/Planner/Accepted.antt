-- ===== src/Planner/Accepted.antt =====
-- Which requests `_validate_raw_requests` accepts
-- (fraudshield/deceptiscope/experiments.py).
use boi.Prelude.{
  ℕ, ◌+◌, ◌≡◌, refl, sym, ap, ◌∙◌, String, true, false, List, [], ◌∷◌, map, ◌==◌, string_eq,
  contains, Distinct, All, arith, Bool-cases, true_not_false, length, inl, inr,
}
use boi.Scoring.Rules.{is_cons}
use boi.Planner.Requests.{
  Request, Raw, no_dict, dict, Parsed, valid, invalid, Checked, accepted, rejected, forbidden,
  check_request, check, with_checked, seen_after, check_all, validate_raw_requests,
}

abbrev pub experiment_ids : List Request → List String
experiment_ids = map (λ r. r.experiment_id)

module _ (parse : List String → String → Parsed) (hypotheses : List String) where
  -- A request that a dict without forbidden keys parses to, for a hypothesis that there is.
  pub IsGranted : Request → Type 0
  IsGranted r =
      (contains r.hypothesis_id hypotheses ≡ true)
      × ((keys : List String) × (fields : String) × (is_cons (forbidden keys) ≡ false)
          × (parse keys fields ≡ valid r))

  -- What is known of one checked element.
  abbrev Sound : List String → Checked → Type 0
  Sound seen (accepted r) = IsGranted r × (contains r.experiment_id seen ≡ false)
  Sound seen (rejected e) = Unit

  check_request-Sound :
      (index : ℕ) (seen keys : List String) (fields : String) (p : Parsed)
      → is_cons (forbidden keys) ≡ false
      → parse keys fields ≡ p
      → Sound seen (check_request parse hypotheses index seen p)
  unfolding check_request IsGranted
  check_request-Sound index seen keys fields (invalid name) n e = tt
  check_request-Sound index seen keys fields (valid r) n e =
      elim (Bool-cases (contains r.hypothesis_id hypotheses)) [
        | inr missing ↦ rw missing tt
        | inl there ↦ elim (Bool-cases (contains r.experiment_id seen)) [
          | inl twice ↦ rw (there, twice) tt
          | inr new ↦ rw (there, new) ((there, (keys, fields, n, e)), new)
        ]
      ]

  check-Sound :
      (index : ℕ) (seen : List String) (raw : Raw)
      → Sound seen (check parse hypotheses index seen raw)
  unfolding check
  check-Sound index seen no_dict = tt
  check-Sound index seen (dict keys fields) = elim (Bool-cases (is_cons (forbidden keys))) [
    | inl bad ↦ rw bad tt
    | inr fine ↦ rw fine (check_request-Sound index seen keys fields (parse keys fields) fine refl)
  ]

  -- What is known of the loop's lists.
  pub record Good (seen : List String) (raws : List Raw) (rs : List Request) (n : ℕ) : Type 0 where
    pub granted : All IsGranted rs
    pub distinct : Distinct (experiment_ids rs)
    pub apart : (x : String) → contains x (experiment_ids rs) ≡ true → contains x seen ≡ false
    pub counted : length rs + n ≡ length raws

  grown :
      (seen : List String) (raw : Raw) (raws : List Raw) (c : Checked)
      (o : List Request × List boi.Planner.Requests.Rejection)
      → Sound seen c
      → Good (seen_after parse hypotheses c seen) raws o.0 (length o.1)
      → Good seen
          (raw ∷ raws)
          (with_checked parse hypotheses c o).0
          (length (with_checked parse hypotheses c o).1)
  grown seen raw raws (rejected e) (rs, es) s g = record {
    granted = g.granted;
    distinct = g.distinct;
    apart = g.apart;
    counted = omega (arith, g.counted);
  }
  grown seen raw raws (accepted r) (rs, es) s g = record {
    granted = (s.0, g.granted);
    distinct = (
      elim (Bool-cases (contains r.experiment_id (experiment_ids rs))) [
        | inl twice ↦ ground (
          arith,
          g.apart r.experiment_id twice,
          string_eq.equals_iff r.experiment_id r.experiment_id,
        )
        | inr once ↦ once
      ],
      g.distinct,
    );
    apart = λ x m. elim (Bool-cases (x == r.experiment_id)) [
      | inl same ↦ ap (λ y. contains y seen) ((string_eq.equals_iff x r.experiment_id).0 same) ∙ s.1
      | inr other ↦ ground (arith, g.apart x (ground arith))
    ];
    counted = omega (arith, g.counted);
  }

  pub check_all-Good :
      (index : ℕ) (seen : List String) (raws : List Raw)
      → Good seen raws
          (check_all parse hypotheses index seen raws).0
          (length (check_all parse hypotheses index seen raws).1)
  unfolding check_all
  check_all-Good index seen [] = record {
    granted = tt;
    distinct = tt;
    apart = λ x m. absurd (true_not_false (sym m));
    counted = omega arith;
  }
  check_all-Good index seen (raw ∷ raws) =
      let c = check parse hypotheses index seen raw in
      grown seen raw raws c
        (check_all parse hypotheses (index + 1) (seen_after parse hypotheses c seen) raws)
        (check-Sound index seen raw)
        (check_all-Good (index + 1) (seen_after parse hypotheses c seen) raws)
