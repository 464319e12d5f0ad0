-- ===== src/Campaigns/Weights.antt =====
-- What the weights of the similarity allow (fraudshield/deceptiscope/frauddna/similarity.py).
use boi.Prelude.Floats.{Floats, at_or_above, minimum, maximum, IsAtMost, IsOrdered}
use boi.Prelude.{
  ℕ, ◌≤◌, ◌+◌, ◌≡◌, refl, ◌⊎◌, inl, inr, String, Bool, true, false, ◌||◌, Option, none, some, List,
  [], ◌∷◌, ◌++◌, ◌==◌, string_eq, nat_eq, true_not_false, sym, ◌∙◌, arith, keep, length,
  length-append, if◌then◌else◌, Bool-cases, not,
}
use boi.Scoring.Rules.{is_cons}
use mathlib.Core.Bool.{◌&&◌}
use boi.Campaigns.Types.{Fingerprint}
use boi.Campaigns.Icons.{in_unit}
use boi.Campaigns.Similarity.{
  to_set, intersection, union, jaccard, is_nonzero, when, with_dex, weighted_score, dex_similarity,
  dex_of, behavior_of, infra_of, shares_signer, shares_firebase, shares_payload, infrastructure,
  two_samples, compare,
}

length-keep-le : (p : String → Bool) (xs : List String) → length (keep p xs) ≤ length xs
length-keep-le p [] = omega arith
length-keep-le p (x ∷ xs) = ground (arith, length-keep-le p xs)

-- An intersection is no larger than the union.
intersection-le-union : (a b : List String) → length (intersection a b) ≤ length (union a b)
unfolding intersection union
intersection-le-union a b = omega (
  arith,
  length-keep-le (λ x. boi.Prelude.contains x b) a,
  length-append a (keep (λ x. not (boi.Prelude.contains x a)) b),
)

module _ (fs : Floats) where
  open fs use {Float, literal, of_nat, add, mul, div, less}

  module _ (ord : IsOrdered fs) where
    abbrev one : Float
    one = literal 1 0

    pub jaccard-IsAtMost : (a b : List String) → IsAtMost fs (jaccard fs a b) one
    unfolding jaccard
    jaccard-IsAtMost a b = elim (Bool-cases (not (is_cons a) && not (is_cons b))) [
      | inl empty ↦ rw empty ord.zero_at_most_one
      | inr some_set ↦ elim (Bool-cases (length (union a b) == 0)) [
        | inl nothing ↦ rw (some_set, nothing) ord.zero_at_most_one
        | inr positive ↦
            rw (some_set, positive)
              (ord.share_at_most _ _ (ground arith) (intersection-le-union a b))
      ]
    ]

    -- A share that may be None is at most 1.
    abbrev IsShare : Option Float → Type 0
    IsShare none = Unit
    IsShare (some d) = IsAtMost fs d one

    dex_similarity-IsShare : (a b : List String) → IsShare (dex_similarity fs a b)
    unfolding dex_similarity
    dex_similarity-IsShare a b = elim (Bool-cases (is_cons a || is_cons b)) [
      | inl there ↦ rw there (jaccard-IsAtMost a b)
      | inr nothing ↦ rw nothing tt
    ]

    -- The score of two samples without an anchor, at its highest.
    abbrev pub highest : Float
    highest =
        add (add (add (literal 0 0) (mul (literal 15 2) one)) (mul (literal 10 2) one))
          (mul (literal 5 2) one)

    dex-IsAtMost :
        (dex : Option Float)
        → IsShare dex
        → IsAtMost fs (with_dex fs dex (literal 0 0)) (add (literal 0 0) (mul (literal 15 2) one))
    dex-IsAtMost none h = ord.add_grows _ _ (ord.product_positive 15 2)
    dex-IsAtMost (some d) h = ord.add_mono _ _ _ _ (ord.at_most_refl _) (ord.mul_mono 15 2 d one h)

    when-IsAtMost :
        (b : Bool) (m : ℕ) (x a c : Float)
        → IsAtMost fs a c
        → IsAtMost fs x one
        → IsAtMost fs (when fs b (mul (literal m 2) x) a) (add c (mul (literal m 2) one))
    when-IsAtMost true m x a c h k = ord.add_mono _ _ _ _ h (ord.mul_mono m 2 x one k)
    when-IsAtMost false m x a c h k =
        ord.at_most_trans _ _ _ h (ord.add_grows _ _ (ord.product_positive m 2))

    -- Without a shared signer, Firebase project or payload the score is at most `highest`.
    weighted_score-IsAtMost :
        (dex : Option Float) (behavior infra : Float)
        → IsShare dex
        → IsAtMost fs behavior one
        → IsAtMost fs infra one
        → IsAtMost fs (weighted_score fs false false false dex behavior infra) highest
    unfolding weighted_score
    weighted_score-IsAtMost dex behavior infra d b i =
        when-IsAtMost (is_nonzero fs infra) 5 infra _ _
          (when-IsAtMost (is_nonzero fs behavior) 10 behavior _ _ (dex-IsAtMost dex d) b) i

    zero-IsAtMost-highest : IsAtMost fs (literal 0 0) highest
    zero-IsAtMost-highest =
        when-IsAtMost false 5 one _ _
          (when-IsAtMost false 10 one _ _ (dex-IsAtMost none tt) (ord.at_most_refl _))
          (ord.at_most_refl _)

    in_unit-IsAtMost :
        (x c : Float) → IsAtMost fs x c → IsAtMost fs (literal 0 0) c → IsAtMost fs (in_unit fs x) c
    unfolding in_unit minimum maximum
    in_unit-IsAtMost x c h k = elim (Bool-cases (less x one)) [
      | inl low ↦ rw low (positive_part x h)
      | inr high ↦ rw high (positive_part one (ord.at_most_trans _ _ _ high h))
    ]
      where
        positive_part :
            (y : Float)
            → IsAtMost fs y c
            → IsAtMost fs (if less (literal 0 0) y then y else literal 0 0) c
        positive_part y n = elim (Bool-cases (less (literal 0 0) y)) [
          | inl up ↦ rw up n
          | inr down ↦ rw down k
        ]

    no_anchor_not_close :
        (signer firebase payload : Bool) (dex : Option Float) (behavior infra : Float)
        → less highest (literal 45 2) ≡ true
        → IsShare dex
        → IsAtMost fs behavior one
        → IsAtMost fs infra one
        → (signer || firebase || payload) ≡ false
        → less
            (in_unit fs (weighted_score fs signer firebase payload dex behavior infra))
            (literal 45 2)
          ≡ true
    no_anchor_not_close false false false dex behavior infra light d b i h =
        ord.at_most_less _ _ _
          (in_unit-IsAtMost _ _ (weighted_score-IsAtMost dex behavior infra d b i)
            zero-IsAtMost-highest)
          light
    no_anchor_not_close true firebase payload dex behavior infra light d b i h = cc
    no_anchor_not_close false true payload dex behavior infra light d b i h = cc
    no_anchor_not_close false false true dex behavior infra light d b i h = cc

    module _ (ratio : String → String → Float) (tidy : String → String)
        (int16 : String → Option ℕ) where
      -- Two different samples that are similar to 0.45 or more share a signer, a Firebase project or
      -- a recovered payload, whatever their names, icons, code, behaviour and infrastructure: where
      -- the floats are ordered, and the three other weights add up to less than 0.45.
      pub close_samples_share_anchor :
          (fp1 fp2 : Fingerprint)
          → less highest (literal 45 2) ≡ true
          → (fp1.apk_sha256 == fp2.apk_sha256) ≡ false
          → at_or_above fs (compare fs ratio tidy int16 fp1 fp2).overall_similarity (literal 45 2)
            ≡ true
          → (shares_signer fp1 fp2 || shares_firebase fp1 fp2 || shares_payload fp1 fp2) ≡ true
      unfolding compare two_samples at_or_above dex_of behavior_of infra_of
      close_samples_share_anchor fp1 fp2 light other close =
          elim (Bool-cases
            (shares_signer fp1 fp2 || shares_firebase fp1 fp2 || shares_payload fp1 fp2)) [
              | inl shared ↦ shared
              | inr nothing ↦ absurd (
                  true_not_false (
                    sym close
                    ∙ rw
                        (
                          other,
                          no_anchor_not_close _ _ _ _ _ _ light
                              (dex_similarity-IsShare (to_set fp1.dex_fingerprints)
                                (to_set fp2.dex_fingerprints))
                              (jaccard-IsAtMost (to_set fp1.behavior_signatures)
                                (to_set fp2.behavior_signatures))
                              (jaccard-IsAtMost (to_set (infrastructure fp1))
                                (to_set (infrastructure fp2)))
                              nothing,
                        )
                        refl))
            ]
