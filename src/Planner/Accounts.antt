-- ===== src/Planner/Accounts.antt =====
-- What `_validate_raw_requests` makes of each element of the list
-- (fraudshield/deceptiscope/experiments.py).
use boi.Prelude.{
  ℕ, ◌+◌, ◌≤◌, ◌≡◌, refl, sym, ap, ◌∙◌, String, Bool, true, false, List, [], ◌∷◌, ◌==◌, string_eq,
  contains, Distinct, arith, Bool-cases, true_not_false, length, take, length-take-le, keep, any,
  inl, inr,
}
use boi.Scoring.Rules.{is_cons}
use boi.Audit.{add_role}
use boi.Security.Roles.{sorted_set}
use boi.Security.Tokens.{contains-sorted_set}
use boi.Planner.Requests.{
  Request, Raw, no_dict, dict, Parsed, valid, invalid, Rejection, must_be_object, forbidden_fields,
  invalid_request, unknown_hypothesis, duplicate_id, Checked, accepted, rejected, forbidden,
  forbidden_request_keys, check_request, check, with_checked, seen_after, check_all,
  validate_raw_requests,
}
use boi.Planner.Accepted.{experiment_ids, check_all-Good}

abbrev pub is_forbidden : String → Bool
is_forbidden key = contains key forbidden_request_keys

is_cons-sorted_set : (ss : List String) → is_cons (sorted_set ss) ≡ is_cons ss
unfolding sorted_set
is_cons-sorted_set [] = refl
is_cons-sorted_set (s ∷ ss) = added s (sorted_set ss)
  where
    added : (s : String) (ts : List String) → is_cons (add_role s ts) ≡ true
    added s [] = refl
    added s (t ∷ ts) = ground arith

is_cons-keep : (p : String → Bool) (ss : List String) → is_cons (keep p ss) ≡ any p ss
is_cons-keep p [] = refl
is_cons-keep p (s ∷ ss) = ground (arith, is_cons-keep p ss)

contains-keep :
    (p : String → Bool) (x : String) (ss : List String)
    → contains x (keep p ss) ≡ true
    → (contains x ss ≡ true) × (p x ≡ true)
contains-keep p x [] h = absurd (true_not_false (sym h))
contains-keep p x (s ∷ ss) h = elim (Bool-cases (p s)) [
  | inr out ↦ let (there, fine) = contains-keep p x ss (rw out at h) in (ground arith, fine)
  | inl kept ↦ elim (Bool-cases (x == s)) [
    | inl same ↦ (rw same refl, ap p ((string_eq.equals_iff x s).0 same) ∙ kept)
    | inr other ↦
        let (there, fine) = contains-keep p x ss (rw (kept, other) at h) in (rw other there, fine)
  ]
]

is_cons-forbidden : (keys : List String) → is_cons (forbidden keys) ≡ any is_forbidden keys
unfolding forbidden
is_cons-forbidden keys =
    is_cons-sorted_set (keep is_forbidden keys) ∙ is_cons-keep is_forbidden keys

module _ (parse : List String → String → Parsed) (hypotheses : List String) where
  -- Why the element at this place is refused, the ids accepted before it being given.
  abbrev pub IsReason : ℕ → List String → Raw → Rejection → Type 0
  IsReason i seen raw (must_be_object k) = (k ≡ i) × (raw ≡ no_dict)
  IsReason i seen raw (forbidden_fields k names) =
      (k ≡ i)
      × ((keys : List String) × (fields : String) × (raw ≡ dict keys fields)
          × (any is_forbidden keys ≡ true)
          × ((x : String)
              → contains x names ≡ true
              → (contains x keys ≡ true) × (is_forbidden x ≡ true)))
  IsReason i seen raw (invalid_request k name) =
      (k ≡ i)
      × ((keys : List String) × (fields : String) × (raw ≡ dict keys fields)
          × (any is_forbidden keys ≡ false)
          × (parse keys fields ≡ invalid name))
  IsReason i seen raw (unknown_hypothesis k hypothesis) =
      (k ≡ i)
      × (contains hypothesis hypotheses ≡ false)
      × ((keys : List String) × (fields : String) × (r : Request) × (raw ≡ dict keys fields)
          × (any is_forbidden keys ≡ false)
          × (parse keys fields ≡ valid r)
          × (r.hypothesis_id ≡ hypothesis))
  IsReason i seen raw (duplicate_id k experiment) =
      (k ≡ i)
      × (contains experiment seen ≡ true)
      × ((keys : List String) × (fields : String) × (r : Request) × (raw ≡ dict keys fields)
          × (any is_forbidden keys ≡ false)
          × (parse keys fields ≡ valid r)
          × (r.experiment_id ≡ experiment))

  -- Why the element is accepted as this request.
  abbrev pub Granted : List String → Raw → Request → Type 0
  Granted seen raw r =
      (contains r.hypothesis_id hypotheses ≡ true)
      × (contains r.experiment_id seen ≡ false)
      × ((keys : List String) × (fields : String) × (raw ≡ dict keys fields)
          × (any is_forbidden keys ≡ false)
          × (parse keys fields ≡ valid r))

  -- The elements from a place on, each accepted or refused in its turn: `seen` are the ids accepted
  -- before, and the two lists what is made of them.
  pub data Accounts : ℕ → List String → List Raw → List Request → List Rejection → Type 0 where
    done : (i : ℕ) (seen : List String) → Accounts i seen [] [] []
    grants :
        (i : ℕ) (seen : List String) (raw : Raw) (raws : List Raw) (r : Request) (rs : List Request)
        (es : List Rejection)
        → Granted seen raw r
        → Accounts (i + 1) (r.experiment_id ∷ seen) raws rs es
        → Accounts i seen (raw ∷ raws) (r ∷ rs) es
    refuses :
        (i : ℕ) (seen : List String) (raw : Raw) (raws : List Raw) (e : Rejection)
        (rs : List Request) (es : List Rejection)
        → IsReason i seen raw e
        → Accounts (i + 1) seen raws rs es
        → Accounts i seen (raw ∷ raws) rs (e ∷ es)

  abbrev Explained : ℕ → List String → Raw → Checked → Type 0
  Explained i seen raw (accepted r) = Granted seen raw r
  Explained i seen raw (rejected e) = IsReason i seen raw e

  check_request-Explained :
      (i : ℕ) (seen keys : List String) (fields : String) (p : Parsed)
      → any is_forbidden keys ≡ false
      → parse keys fields ≡ p
      → Explained i seen (dict keys fields) (check_request parse hypotheses i seen p)
  unfolding check_request
  check_request-Explained i seen keys fields (invalid name) n e = (refl, (keys, fields, refl, n, e))
  check_request-Explained i seen keys fields (valid r) n e =
      elim (Bool-cases (contains r.hypothesis_id hypotheses)) [
        | inr absent ↦ rw absent (refl, absent, (keys, fields, r, refl, n, e, refl))
        | inl there ↦ elim (Bool-cases (contains r.experiment_id seen)) [
          | inl twice ↦ rw (there, twice) (refl, twice, (keys, fields, r, refl, n, e, refl))
          | inr new ↦ rw (there, new) (there, new, (keys, fields, refl, n, e))
        ]
      ]

  check-Explained :
      (i : ℕ) (seen : List String) (raw : Raw)
      → Explained i seen raw (check parse hypotheses i seen raw)
  unfolding check
  check-Explained i seen no_dict = (refl, refl)
  check-Explained i seen (dict keys fields) = elim (Bool-cases (is_cons (forbidden keys))) [
    | inl bad ↦ rw bad (
      refl,
      (
        keys,
        fields,
        refl,
        sym (is_cons-forbidden keys) ∙ bad,
        λ x h. unfold forbidden in (contains-keep is_forbidden x keys (contains-sorted_set x _ h)),
      ),
    )
    | inr fine ↦ rw fine (
        check_request-Explained i seen keys fields (parse keys fields)
          (sym (is_cons-forbidden keys) ∙ fine) refl)
  ]

  extended :
      (i : ℕ) (seen : List String) (raw : Raw) (raws : List Raw) (c : Checked)
      (o : List Request × List Rejection)
      → Explained i seen raw c
      → Accounts (i + 1) (seen_after parse hypotheses c seen) raws o.0 o.1
      → Accounts i seen
          (raw ∷ raws)
          (with_checked parse hypotheses c o).0
          (with_checked parse hypotheses c o).1
  extended i seen raw raws (accepted r) (rs, es) e a = grants i seen raw raws r rs es e a
  extended i seen raw raws (rejected x) (rs, es) e a = refuses i seen raw raws x rs es e a

  check_all-Accounts :
      (i : ℕ) (seen : List String) (raws : List Raw)
      → Accounts i seen raws
          (check_all parse hypotheses i seen raws).0
          (check_all parse hypotheses i seen raws).1
  unfolding check_all
  check_all-Accounts i seen [] = done i seen
  check_all-Accounts i seen (raw ∷ raws) =
      let c = check parse hypotheses i seen raw in
      extended i seen raw raws c _ (check-Explained i seen raw)
        (check_all-Accounts (i + 1) (seen_after parse hypotheses c seen) raws)

  -- Whatever the language model asks for, each of the first 30 elements is accepted or has its error,
  -- in their order, and the first ten errors are told. An element is accepted as a request where it is
  -- a dict without a forbidden key that parses to the request, for a hypothesis that there is and
  -- under an id that no earlier accepted request has; and an error tells its place and which of these
  -- it fails. So no two accepted requests share an id, and there are at most 30 of them.
  pub validate_raw_requests-Accounts :
      (raws : List Raw)
      → let (rs, told) = validate_raw_requests parse hypotheses raws in
        ((es : List Rejection) × Accounts 0 [] (take 30 raws) rs es × (told ≡ take 10 es))
        × Distinct (experiment_ids rs)
        × (length rs ≤ 30)
  unfolding validate_raw_requests
  validate_raw_requests-Accounts raws =
      let g = check_all-Good parse hypotheses 0 [] (take 30 raws) in
      (
        (
          (check_all parse hypotheses 0 [] (take 30 raws)).1,
          check_all-Accounts 0 [] (take 30 raws),
          refl,
        ),
        g.distinct,
        omega (arith, g.counted, length-take-le 30 raws),
      )
