-- ===== src/Campaigns/Similarity.antt =====
-- How alike two fingerprints are (fraudshield/deceptiscope/frauddna/similarity.py). Python's
-- `SequenceMatcher(None, a, b).ratio()` and `s.lower().strip()` are parameters.
use boi.Prelude.Floats.{Floats, at_or_above}
use boi.Prelude.{
  ℕ, String, Bool, ◌&&◌, ◌||◌, not, Option, none, some, List, [], ◌∷◌, ◌++◌, ◌==◌, string_eq,
  nat_eq, contains, keep, length, if◌then◌else◌,
}
use boi.Scoring.Rules.{is_cons}
use boi.Campaigns.Types.{
  Fingerprint, Reason, identical_sample, same_signer, shared_infrastructure, same_firebase,
  same_payload, package_share, dex_share, behavior_share, icon_share, Similarity,
}
use boi.Campaigns.Icons.{icon_similarity, in_unit}

-- `set(xs)`, as a list of its elements.
unfoldable pub to_set : List String → List String
to_set [] = []
to_set (x ∷ xs) = let rest = to_set xs in if contains x rest then rest else x ∷ rest

-- `a & b` and `a | b` of two sets.
unfoldable pub intersection : List String → List String → List String
intersection a b = keep (λ x. contains x b) a

unfoldable pub union : List String → List String → List String
union a b = a ++ keep (λ x. not (contains x a)) b

-- `bool(set(xs) & set(ys))`
unfoldable pub overlap : List String → List String → Bool
overlap xs ys = is_cons (intersection (to_set xs) (to_set ys))

abbrev pub infrastructure : Fingerprint → List String
infrastructure fp = fp.domains ++ fp.urls ++ fp.ips

unfoldable pub shares_signer : Fingerprint → Fingerprint → Bool
shares_signer fp1 fp2 = overlap fp1.signer_fingerprints fp2.signer_fingerprints

unfoldable pub shares_firebase : Fingerprint → Fingerprint → Bool
shares_firebase fp1 fp2 = overlap fp1.firebase_project_ids fp2.firebase_project_ids

unfoldable pub shares_payload : Fingerprint → Fingerprint → Bool
shares_payload fp1 fp2 = overlap fp1.recovered_payload_hashes fp2.recovered_payload_hashes

module _ (fs : Floats) where
  open fs use {Float, literal, of_nat, add, mul, div, less}

  -- `_jaccard`
  unfoldable pub jaccard : List String → List String → Float
  jaccard a b =
      if not (is_cons a) && not (is_cons b)
      then literal 0 0
      else if length (union a b) == 0
      then literal 0 0
      else div (of_nat (length (intersection a b))) (of_nat (length (union a b)))

  -- `if x:`
  abbrev pub is_nonzero : Float → Bool
  is_nonzero x = less (literal 0 0) x || less x (literal 0 0)

  abbrev pub when : Bool → Float → Float → Float
  when b weight score = if b then add score weight else score

  abbrev pub with_dex : Option Float → Float → Float
  with_dex none score = score
  with_dex (some d) score = add score (mul (literal 15 2) d)

  -- The weighted score, its terms added in the code's order.
  unfoldable pub weighted_score : Bool → Bool → Bool → Option Float → Float → Float → Float
  weighted_score signer firebase payload dex behavior infra =
      when (is_nonzero infra) (mul (literal 5 2) infra) (
        when (is_nonzero behavior) (mul (literal 10 2) behavior) (
          with_dex dex (
            when payload (literal 20 2)
              (when firebase (literal 25 2) (when signer (literal 25 2) (literal 0 0))))))

  unfoldable pub dex_similarity : List String → List String → Option Float
  dex_similarity dex1 dex2 = if is_cons dex1 || is_cons dex2 then some (jaccard dex1 dex2) else none

  abbrev pub reason : Bool → Reason fs → List (Reason fs)
  reason b r = if b then r ∷ [] else []

  -- A reason for a share that may be None.
  abbrev pub reason_from : (Float → Reason fs) → Float → Option Float → List (Reason fs)
  reason_from told threshold none = []
  reason_from told threshold (some x) = reason (at_or_above fs x threshold) (told x)

  module _ (ratio : String → String → Float) (tidy : String → String)
      (int16 : String → Option ℕ) where
    -- The branch for one and the same sample.
    unfoldable pub same_sample : Fingerprint → Similarity fs
    same_sample fp1 = record {
      signer_match = is_cons fp1.signer_fingerprints;
      package_similarity = literal 1 0;
      dex_similarity = some (literal 1 0);
      behavior_similarity = literal 1 0;
      icon_similarity = elim fp1.icon_phash [
        | none ↦ none
        | some h ↦ if h == "" then none else some (literal 1 0)
      ];
      infrastructure_overlap =
          if is_cons fp1.domains || is_cons fp1.urls || is_cons fp1.ips
          then literal 1 0
          else literal 0 0;
      firebase_overlap = is_cons fp1.firebase_project_ids;
      payload_overlap = is_cons fp1.recovered_payload_hashes;
      overall_similarity = literal 1 0;
      match_reasons = identical_sample ∷ [];
    }

    unfoldable pub package_similarity : Fingerprint → Fingerprint → Float
    package_similarity fp1 fp2 = ratio (tidy fp1.package_name) (tidy fp2.package_name)

    unfoldable pub dex_of : Fingerprint → Fingerprint → Option Float
    dex_of fp1 fp2 = dex_similarity (to_set fp1.dex_fingerprints) (to_set fp2.dex_fingerprints)

    unfoldable pub behavior_of : Fingerprint → Fingerprint → Float
    behavior_of fp1 fp2 = jaccard (to_set fp1.behavior_signatures) (to_set fp2.behavior_signatures)

    unfoldable pub infra_of : Fingerprint → Fingerprint → Float
    infra_of fp1 fp2 = jaccard (to_set (infrastructure fp1)) (to_set (infrastructure fp2))

    -- The reasons, in the order in which the code appends them.
    unfoldable pub reasons_of : Fingerprint → Fingerprint → List (Reason fs)
    reasons_of fp1 fp2 =
        reason (shares_signer fp1 fp2) same_signer
        ++ reason
            (at_or_above fs (package_similarity fp1 fp2) (literal 90 2)
              && not (tidy fp1.package_name == tidy fp2.package_name))
            (package_share (package_similarity fp1 fp2))
        ++ reason_from dex_share (literal 80 2) (dex_of fp1 fp2)
        ++ reason (at_or_above fs (behavior_of fp1 fp2) (literal 60 2))
            (behavior_share (behavior_of fp1 fp2))
        ++ reason_from icon_share (literal 85 2)
            (icon_similarity fs int16 fp1.icon_phash fp2.icon_phash)
        ++ reason (at_or_above fs (infra_of fp1 fp2) (literal 30 2)) shared_infrastructure
        ++ reason (shares_firebase fp1 fp2) same_firebase
        ++ reason (shares_payload fp1 fp2) same_payload

    -- Two different samples.
    unfoldable pub two_samples : Fingerprint → Fingerprint → Similarity fs
    two_samples fp1 fp2 = record {
      signer_match = shares_signer fp1 fp2;
      package_similarity = package_similarity fp1 fp2;
      dex_similarity = dex_of fp1 fp2;
      behavior_similarity = behavior_of fp1 fp2;
      icon_similarity = icon_similarity fs int16 fp1.icon_phash fp2.icon_phash;
      infrastructure_overlap = infra_of fp1 fp2;
      firebase_overlap = shares_firebase fp1 fp2;
      payload_overlap = shares_payload fp1 fp2;
      overall_similarity = in_unit fs (
          weighted_score (shares_signer fp1 fp2) (shares_firebase fp1 fp2) (shares_payload fp1 fp2)
            (dex_of fp1 fp2) (behavior_of fp1 fp2) (infra_of fp1 fp2));
      match_reasons = reasons_of fp1 fp2;
    }

    -- `compare`
    unfoldable pub compare : Fingerprint → Fingerprint → Similarity fs
    compare fp1 fp2 =
        if fp1.apk_sha256 == fp2.apk_sha256 then same_sample fp1 else two_samples fp1 fp2
