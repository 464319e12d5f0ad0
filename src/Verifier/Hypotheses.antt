-- ===== src/Verifier/Hypotheses.antt =====
-- The hypotheses after `verify_all` and `apply_verifications_to_hypotheses`
-- (fraudshield/deceptiscope/verifier.py): what confirms them.
use boi.Prelude.Floats.{Floats}
use boi.Prelude.{
  ◌≡◌, refl, sym, ap, ◌∙◌, inl, inr, String, true, Option, none, some, List, [], ◌∷◌, ◌==◌,
  string_eq, arith, Bool-cases, Option-cases, Among,
}
use boi.Verifier.Types.{Findings, Normalized, Texts, Hypothesis, Verification, or_default}
use boi.Verifier.Verify.{verify, verify_all, verification}
use boi.Verifier.Confirmation.{confirmed_iff_allowed}
use boi.Verifier.Apply.{
  Feedback, verification_of, with_verification, with_feedback, updated, told_by, verified_by,
}

module _ (fs : Floats) (ts : Texts) (f : Findings) (evidence : List Normalized) where
  -- Some verification of the list is found under the id of a hypothesis that it was made of.
  found-Among :
      (i : String) (hs : List (Hypothesis fs))
      → (v : Verification fs) → verification_of fs i (verify_all fs ts hs f evidence) ≡ some v
      → (h : Hypothesis fs) × Among h hs × (v ≡ verify fs ts h f evidence) × (v.hypothesis_id ≡ i)
  unfolding verify_all verification_of
  found-Among i [] v e = cc
  found-Among i (h ∷ hs) v e =
      elim (Option-cases (verification_of fs i (verify_all fs ts hs f evidence))) [
        | inl missing ↦ elim (Bool-cases ((verify fs ts h f evidence).hypothesis_id == i)) [
          | inl same ↦ (
            h,
            inl refl,
            ground (arith, e, missing, same),
            ground (
              arith,
              e,
              missing,
              same,
              string_eq.equals_iff (verify fs ts h f evidence).hypothesis_id i,
            ),
          )
          | inr other ↦ cc (e, missing, other)
        ]
        | inr (w, there) ↦
            let (k, m, p, q) = found-Among i hs w there in
            (k, inr m, ground (arith, e, there, p), ground (arith, e, there, q))
      ]

  verification-found :
      (i : String) (h : Hypothesis fs) (hs : List (Hypothesis fs))
      → Among h hs
      → h.hypothesis_id ≡ some i
      → (v : Verification fs) × (verification_of fs i (verify_all fs ts hs f evidence) ≡ some v)
  unfolding verify_all verification_of verify verification
  verification-found i h [] m e = absurd m
  verification-found i h (k ∷ hs) m e =
      elim (Option-cases (verification_of fs i (verify_all fs ts hs f evidence))) [
        | inr (w, there) ↦ (w, rw there refl)
        | inl missing ↦ elim m [
          | inl p ↦ (
            verify fs ts k f evidence,
            ground (
              arith,
              missing,
              ap (λ (x : Hypothesis fs). x.hypothesis_id) p,
              e,
              string_eq.equals_iff i i,
            ),
          )
          | inr n ↦ let (v, there) = verification-found i h hs n e in cc (missing, there)
        ]
      ]

  status-told_by : (b : Option Feedback) (h : Hypothesis fs) → (told_by fs b h).status ≡ h.status
  unfolding told_by with_feedback
  status-told_by none h = refl
  status-told_by (some b) h = refl

  status-verified_by :
      (o : Option (Verification fs)) (h : Hypothesis fs) (v : Verification fs)
      → o ≡ some v
      → (verified_by fs o h).status ≡ some v.verified_status
  unfolding verified_by with_verification
  status-verified_by none h v e = cc
  status-verified_by (some w) h v e = ground arith

  status-updated :
      (h : Hypothesis fs) (vs : List (Verification fs)) (feedback : List (String × Feedback))
      (i : String) (v : Verification fs)
      → h.hypothesis_id ≡ some i
      → verification_of fs i vs ≡ some v
      → (updated fs vs feedback h).status ≡ some v.verified_status
  unfolding updated
  status-updated h vs feedback i v e found =
      status-told_by _ _
      ∙ status-verified_by _ h v (ap (λ o. verification_of fs (or_default "None" o) vs) e ∙ found)

  -- No hypothesis is confirmed on its author's word. Where a hypothesis that has an id comes out of
  -- the round of verification and feedback with the status CONFIRMED, the evidence allowed it: the
  -- verification of some hypothesis of that id has its flag `confirmation_allowed` set, whatever
  -- status the hypothesis came with and whatever the feedback says.
  pub no_self_confirmation :
      (hs : List (Hypothesis fs)) (feedback : List (String × Feedback)) (h : Hypothesis fs)
      (i : String)
      → Among h hs
      → h.hypothesis_id ≡ some i
      → (updated fs (verify_all fs ts hs f evidence) feedback h).status ≡ some "CONFIRMED"
      → (k : Hypothesis fs) × Among k hs
        × ((verify fs ts k f evidence).hypothesis_id ≡ i)
        × ((verify fs ts k f evidence).confirmation_allowed ≡ true)
  no_self_confirmation hs feedback h i m e c =
      let vs = verify_all fs ts hs f evidence in
      let (v, there) = verification-found i h hs m e in
      let (k, n, p, q) = found-Among i hs v there in
      let s : some v.verified_status ≡ some "CONFIRMED" =
        sym (status-updated h vs feedback i v e there) ∙ c in
      (
        k,
        n,
        sym (ap (λ (x : Verification fs). x.hypothesis_id) p) ∙ q,
        sym (confirmed_iff_allowed fs ts k f evidence)
            ∙ ap (λ (x : Verification fs). x.verified_status == "CONFIRMED") (sym p)
            ∙ (string_eq.equals_iff v.verified_status "CONFIRMED").1 (cc s),
      )
