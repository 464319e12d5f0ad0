-- ===== src/Delta/Explained.antt =====
-- What a score of the fraud delta is made of (fraudshield/deceptiscope/fraud_delta.py).
use boi.Prelude.Floats.{Floats, minimum, at_or_above, IsAtMost, IsOrdered}
use boi.Prelude.{
  ◌≡◌, refl, sym, ap, subst, ◌∙◌, String, Bool, true, false, ◌&&◌, ◌||◌, not, Option, none, some,
  List, [], ◌∷◌, ◌++◌, ◌==◌, string_eq, contains, keep, Bool-cases, inl, inr, arith,
}
use boi.Audit.{add_role, comes_before}
use boi.Security.Roles.{sorted_set}
use boi.Delta.Calculate.{
  Baseline, Categories, Extracted, baseline_for, unexpected_permissions, Weights, weight_of,
  Contribution, Tally, contribute, contribute_weighed, permission_weights, signal_weights,
  permission_loop, signal_loop, contribute_if, tally, Delta, delta_of, with_baseline, calculate,
}

contains-add_role :
    (x a : String) (xs : List String) → contains x (add_role a xs) ≡ (x == a || contains x xs)
contains-add_role x a [] = refl
contains-add_role x a (b ∷ bs) = elim (Bool-cases (a == b)) [
  | inl same ↦
      let one : (x == a) ≡ (x == b) = ap (λ k. x == k) ((string_eq.equals_iff a b).0 same) in
      rw same (ground (arith, one))
  | inr other ↦ rw other (elim (Bool-cases (comes_before a b)) [
    | inl first ↦ rw first refl
    | inr later ↦ rw later (ground (arith, contains-add_role x a bs))
  ])
]

contains-sorted_set : (x : String) (xs : List String) → contains x (sorted_set xs) ≡ contains x xs
unfolding sorted_set
contains-sorted_set x [] = refl
contains-sorted_set x (y ∷ ys) =
    contains-add_role x y (sorted_set ys) ∙ ap (λ b. x == y || b) (contains-sorted_set x ys)

contains-keep :
    (p : String → Bool) (x : String) (xs : List String)
    → contains x (keep p xs) ≡ (p x && contains x xs)
contains-keep p x [] = ground arith
contains-keep p x (y ∷ ys) = elim (Bool-cases (x == y)) [
  | inl same ↦
      let one : p x ≡ p y = ap p ((string_eq.equals_iff x y).0 same) in
      elim (Bool-cases (p y)) [
        | inl hit ↦ rw (hit, same, one ∙ hit) refl
        | inr miss ↦ rw (miss, same) (contains-keep p x ys ∙ rw (one ∙ miss) refl)
      ]
  | inr other ↦ elim (Bool-cases (p y)) [
    | inl hit ↦ rw (hit, other) (contains-keep p x ys)
    | inr miss ↦ rw (miss, other) (contains-keep p x ys)
  ]
]

-- The unexpected permissions are those requested that are neither common nor tolerated.
contains-unexpected_permissions :
    (e : Extracted) (b : Baseline) (p : String)
    → contains p (unexpected_permissions e b) ≡ (
        (not (contains p b.common_permissions) && not (contains p b.tolerated_permissions))
        && contains p e.requested)
unfolding unexpected_permissions
contains-unexpected_permissions e b p =
    contains-keep _ p (sorted_set e.requested)
    ∙ ap
        (λ q.
          (not (contains p b.common_permissions) && not (contains p b.tolerated_permissions)) && q)
        (contains-sorted_set p e.requested)

module _ (fs : Floats) where
  open fs use {Float, literal, add, round_to}

  -- The sum of the weights, from the first on.
  abbrev pub sum_from : Float → List (Contribution fs) → Float
  sum_from raw [] = raw
  sum_from raw (c ∷ cs) = sum_from (add raw c.weight) cs

  sum_from-append :
      (raw : Float) (cs : List (Contribution fs)) (c : Contribution fs)
      → sum_from raw (cs ++ (c ∷ [])) ≡ add (sum_from raw cs) c.weight
  sum_from-append raw [] c = refl
  sum_from-append raw (d ∷ ds) c = sum_from-append (add raw d.weight) ds c

  abbrev Balanced : Tally fs → Type 0
  Balanced t = t.raw ≡ sum_from (literal 0 0) t.contributions

  contribute-Balanced :
      (kind evidence : String) (w : Float) (reason : String) (t : Tally fs)
      → Balanced t
      → Balanced (contribute fs kind evidence w reason t)
  unfolding contribute
  contribute-Balanced kind evidence w reason t h =
      ap (λ r. add r w) h ∙ sym (sum_from-append (literal 0 0) t.contributions _)

  contribute_weighed-Balanced :
      (kind evidence reason : String) (o : Option Float) (t : Tally fs)
      → Balanced t
      → Balanced (contribute_weighed fs kind evidence reason o t)
  contribute_weighed-Balanced kind evidence reason none t h = h
  contribute_weighed-Balanced kind evidence reason (some w) t h =
      contribute-Balanced kind evidence w reason t h

  contribute_if-Balanced :
      (flag : Bool) (kind evidence : String) (w : Float) (reason : String) (t : Tally fs)
      → Balanced t
      → Balanced (contribute_if fs flag kind evidence w reason t)
  unfolding contribute_if
  contribute_if-Balanced true kind evidence w reason t h =
      contribute-Balanced kind evidence w reason t h
  contribute_if-Balanced false kind evidence w reason t h = h

  permission_loop-Balanced :
      (category : String) (ps : List String) (t : Tally fs)
      → Balanced t
      → Balanced (permission_loop fs category ps t)
  unfolding permission_loop
  permission_loop-Balanced category [] t h = h
  permission_loop-Balanced category (p ∷ ps) t h =
      permission_loop-Balanced category ps _
        (contribute_weighed-Balanced "permission" p _ (weight_of fs p (permission_weights fs)) t h)

  signal_loop-Balanced :
      (category : String) (detected : List String) (ws : Weights fs) (t : Tally fs)
      → Balanced t
      → Balanced (signal_loop fs category detected ws t)
  unfolding signal_loop
  signal_loop-Balanced category detected [] t h = h
  signal_loop-Balanced category detected ((signal, w) ∷ rest) t h =
      signal_loop-Balanced category detected rest _ (elim (Bool-cases (contains signal detected)) [
        | inl there ↦ rw there (contribute-Balanced "code_signal" signal w _ t h)
        | inr absent ↦ rw absent h
      ])

  tally-Balanced :
      (category : String) (e : Extracted) (unexpected : List String)
      → Balanced (tally fs category e unexpected)
  unfolding tally
  tally-Balanced category e unexpected =
      contribute_if-Balanced e.bank_impersonation_flag _ _ _ _ _ (
        contribute_if-Balanced e.sms_receiver _ _ _ _ _ (
          contribute_if-Balanced e.accessibility_service _ _ _ _ _ (
            signal_loop-Balanced category e.detected (signal_weights fs) _
              (permission_loop-Balanced category unexpected _ refl))))

  -- What a delta tells, for the baseline that it is measured by.
  pub record IsExplained (e : Extracted) (b : Baseline) (d : Delta fs) : Type 0 where
    pub summed :
        d.score ≡ minimum fs (literal 1 0) (round_to 4 (sum_from (literal 0 0) d.contributions))
    pub bounded : IsAtMost fs d.score (literal 1 0)
    pub anomalous : d.is_anomalous ≡ at_or_above fs d.score (literal 35 2)
    pub unexpected :
        (p : String)
        → contains p d.unexpected_permissions ≡ (
            (not (contains p b.common_permissions) && not (contains p b.tolerated_permissions))
            && contains p e.requested)

  minimum-IsAtMost : IsOrdered fs → (a b : Float) → IsAtMost fs (minimum fs a b) a
  unfolding minimum
  minimum-IsAtMost ord a b = elim (Bool-cases (fs.less b a)) [
    | inl low ↦ rw low (ord.less_at_most b a low)
    | inr high ↦ rw high (ord.at_most_refl a)
  ]

  with_baseline-IsExplained :
      (ord : IsOrdered fs) (category : String) (e : Extracted) (o : Option Baseline) (b : Baseline)
      (d : Delta fs)
      → o ≡ some b
      → with_baseline fs category e o ≡ some d
      → IsExplained e b d
  unfolding delta_of
  with_baseline-IsExplained ord category e none b d f h = cc
  with_baseline-IsExplained ord category e (some c) b d f h =
      let base : c ≡ b = cc in
      let same : delta_of fs category (unexpected_permissions e c)
            (tally fs category e (unexpected_permissions e c))
          ≡ d =
        cc in
      subst (λ k. IsExplained e k d) base
        (subst (IsExplained e c) same (record {
          summed = ap (λ r. minimum fs (literal 1 0) (round_to 4 r)) (tally-Balanced category e _);
          bounded = minimum-IsAtMost ord _ _;
          anomalous = refl;
          unexpected = contains-unexpected_permissions e c;
        }))

  -- A delta is explained by what it lists: its score is the sum of the weights of its contributions,
  -- in their order, rounded to four places and at most 1; it is anomalous just where that is 0.35 or
  -- more; and its unexpected permissions are those that the app requests and that the baseline of
  -- the category, or that of "other", calls neither common nor tolerated.
  pub calculate-IsExplained :
      (tidy : String → String) (categories : Categories) (e : Extracted) (category : String)
      (b : Baseline) (d : Delta fs)
      → IsOrdered fs
      → baseline_for (tidy category) categories ≡ some b
      → calculate fs tidy categories e category ≡ some d
      → IsExplained e b d
  unfolding calculate
  calculate-IsExplained tidy categories e category b d ord found h =
      with_baseline-IsExplained ord _ e (baseline_for (tidy category) categories) b d found h
