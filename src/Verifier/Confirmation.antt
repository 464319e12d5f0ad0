-- ===== src/Verifier/Confirmation.antt =====
-- When a hypothesis is confirmed (fraudshield/deceptiscope/verifier.py): the status and the flag
-- agree, and each category's flag asks for trusted evidence.
use boi.Prelude.Floats.{Floats}
use boi.Prelude.{
  true_not_false, ◌≡◌, refl, sym, String, Bool, true, false, ◌&&◌, ◌||◌, not, Option, none, some,
  List, [], ◌∷◌, ◌==◌, string_eq, contains, if◌then◌else◌,
}
use boi.Verifier.Types.{Findings, Normalized, Texts, Hypothesis, or_default}
use boi.Scoring.Rules.{is_cons}
use boi.Verifier.Index.{
  otp_static_signals, by_type, has_completed_experiment, marker_precedes_network,
  has_static_network_signal, has_static_accessibility_signal, has_failed_experiment,
}
use boi.Verifier.Verdicts.{
  otp_delivered, markers, network, Verdict, status_of, downgrade_unconfirmed, otp_allowed,
  otp_decision, verify_otp, exfiltration_allowed, exfiltration_decision, verify_data_exfiltration,
}
use boi.Verifier.Verify.{
  behaviour, accessibility_allowed, accessibility_decision, verify_accessibility, any_failed,
  general_decision, verify_general, verdict, verification, verify,
}

-- A text that is not CONFIRMED.
unfoldable IsOpen : String → Type 0
IsOpen s = (s == "CONFIRMED") ≡ false

as-IsOpen : (s : String) → (s == "CONFIRMED") ≡ false → IsOpen s
unfolding IsOpen
as-IsOpen s h = h

if-IsOpen :
    (b : Bool) (s t : String)
    → (b ≡ true → IsOpen s)
    → (b ≡ false → IsOpen t)
    → IsOpen (if b then s else t)
if-IsOpen true s t h k = h refl
if-IsOpen false s t h k = k refl

module _ (F : Type 0) where
  -- A status that does not confirm.
  unfoldable Open : String × F × String → Type 0
  Open d = (d.0 == "CONFIRMED") ≡ false

  -- A decision whose status says confirmed exactly where the flag allows it, and whose status is
  -- open, or confirmed, where an experiment has failed.
  unfoldable Agrees : String × F × String → Bool → Bool → Type 0
  Agrees d allowed failed =
      ((d.0 == "CONFIRMED") ≡ allowed)
      × (failed ≡ true → contains d.0 ("CONFIRMED" ∷ "INCONCLUSIVE" ∷ []) ≡ true)

  -- A verdict that agrees with its flag and with the experiments that it names.
  unfoldable Honest : Findings → Verdict F → Type 0
  Honest f v =
      ((v.status == "CONFIRMED") ≡ v.confirmation_allowed)
      × (has_failed_experiment f v.experiment_types ≡ true
          → contains v.status ("CONFIRMED" ∷ "INCONCLUSIVE" ∷ []) ≡ true)

  as-Open : (s : String) (x : F) (t : String) → (s == "CONFIRMED") ≡ false → Open (s, x, t)
  unfolding Open
  as-Open s x t h = h

  if-Open :
      (b : Bool) (d e : String × F × String)
      → Open d
      → (b ≡ false → Open e)
      → Open (if b then d else e)
  if-Open true d e h k = h
  if-Open false d e h k = k refl

  -- How every verdict begins: confirmed where that is allowed, open where an experiment failed.
  if-Agrees :
      (allowed failed : Bool) (x y : F) (t u : String) (d : String × F × String)
      → Open d
      → Agrees
          (if allowed then ("CONFIRMED", x, t) else if failed then ("INCONCLUSIVE", y, u) else d)
          allowed
          failed
  unfolding Open Agrees
  if-Agrees true failed x y t u d h = (refl, λ e. refl)
  if-Agrees false true x y t u d h = (refl, λ e. refl)
  if-Agrees false false x y t u d h = (h, λ e. absurd (true_not_false (sym e)))

  if-Honest :
      (f : Findings) (b : Bool) (v w : Verdict F)
      → Honest f v
      → Honest f w
      → Honest f (if b then v else w)
  if-Honest f true v w h k = h
  if-Honest f false v w h k = k

-- A status that defaults to PROPOSED confirms only where it is there.
status_open :
    (s : Option String)
    → (or_default "" s == "CONFIRMED") ≡ false
    → (or_default "PROPOSED" s == "CONFIRMED") ≡ false
status_open none h = refl
status_open (some s) h = h

module _ (fs : Floats) (ts : Texts) where
  downgrade-IsOpen : (h : Hypothesis fs) (b : Bool) → IsOpen (downgrade_unconfirmed fs ts h b)
  unfolding downgrade_unconfirmed
  downgrade-IsOpen h b =
      let s = status_of fs ts h in
      if-IsOpen (not b) _ _ (λ _. as-IsOpen _ refl)
        (λ _.
          if-IsOpen (s == "CONFIRMED") _ _ (λ _. as-IsOpen _ refl)
            (λ n.
              if-IsOpen (contains s ("SUPPORTED" ∷ "CONTRADICTED" ∷ "INCONCLUSIVE" ∷ [])) _ _
                (λ _. as-IsOpen s n) (λ _. as-IsOpen _ refl)))

  downgrade-Open :
      (h : Hypothesis fs) (b : Bool) (x : fs.Float) (t : String)
      → Open fs.Float (downgrade_unconfirmed fs ts h b, x, t)
  unfolding Open IsOpen
  downgrade-Open h b x t = downgrade-IsOpen h b

  -- How the verdicts end.
  three-Open :
      (h : Hypothesis fs) (p q r b : Bool) (x y z w : fs.Float) (k l m t : String)
      → Open fs.Float (
          if p
          then ("CONTRADICTED", x, k)
          else if q
          then ("SUPPORTED", y, l)
          else if r
          then ("SUPPORTED", z, m)
          else (downgrade_unconfirmed fs ts h b, w, t))
  three-Open h true q r b x y z w k l m t = as-Open fs.Float "CONTRADICTED" x k refl
  three-Open h false true r b x y z w k l m t = as-Open fs.Float "SUPPORTED" y l refl
  three-Open h false false true b x y z w k l m t = as-Open fs.Float "SUPPORTED" z m refl
  three-Open h false false false b x y z w k l m t = downgrade-Open h b w t

  otp-Agrees :
      (h : Hypothesis fs) (f : Findings)
      → Agrees fs.Float
          (otp_decision fs ts h f)
          (otp_allowed fs ts f)
          (has_failed_experiment f ("SYNTHETIC_SMS" ∷ "LOGCAT_CAPTURE" ∷ []))
  unfolding otp_decision
  otp-Agrees h f =
      let static_supported = is_cons (otp_static_signals f) in
      let delivered = is_cons (otp_delivered fs ts f) in
      let access =
        is_cons (by_type "sms_access" f) || is_cons (by_type "synthetic_marker_correlation" f) in
      if-Agrees fs.Float (otp_allowed fs ts f)
        (has_failed_experiment f ("SYNTHETIC_SMS" ∷ "LOGCAT_CAPTURE" ∷ [])) _ _ _ _ _
        (three-Open h (has_completed_experiment f ("SYNTHETIC_SMS" ∷ []) && delivered && not access)
          (static_supported && (delivered || access)) static_supported _ _ _ _ _ _ _ _ _)

  exfiltration-Agrees :
      (h : Hypothesis fs) (f : Findings)
      → Agrees fs.Float
          (exfiltration_decision fs ts h f)
          (exfiltration_allowed fs ts f)
          (has_failed_experiment f ("NETWORK_OBSERVATION" ∷ "SYNTHETIC_SMS" ∷ []))
  unfolding exfiltration_decision
  exfiltration-Agrees h f =
      let marker = is_cons (markers fs ts f) in
      let outbound = is_cons (network fs ts f) in
      if-Agrees fs.Float (exfiltration_allowed fs ts f)
        (has_failed_experiment f ("NETWORK_OBSERVATION" ∷ "SYNTHETIC_SMS" ∷ [])) _ _ _ _ _
        (three-Open h
          (has_completed_experiment f ("NETWORK_OBSERVATION" ∷ []) && marker && not outbound)
          (marker && outbound && marker_precedes_network (markers fs ts f) (network fs ts f))
          (has_static_network_signal f || marker || outbound) _ _ _ _ _ _ _ _ _)

  accessibility-Agrees :
      (h : Hypothesis fs) (f : Findings)
      → Agrees fs.Float
          (accessibility_decision fs ts h f)
          (accessibility_allowed fs ts f)
          (has_failed_experiment f ("ACCESSIBILITY_OBSERVATION" ∷ "LOGCAT_CAPTURE" ∷ []))
  unfolding accessibility_decision
  accessibility-Agrees h f =
      let static_supported = has_static_accessibility_signal f in
      let runtime_supported = is_cons (behaviour fs ts f) in
      if-Agrees fs.Float (accessibility_allowed fs ts f)
        (has_failed_experiment f ("ACCESSIBILITY_OBSERVATION" ∷ "LOGCAT_CAPTURE" ∷ [])) _ _ _ _ _
        (three-Open h
          (has_completed_experiment f ("ACCESSIBILITY_OBSERVATION" ∷ [])
            && static_supported
            && not runtime_supported)
          (static_supported && runtime_supported) (static_supported || runtime_supported) _ _ _ _ _
          _ _ _ _)

  general-Open : (h : Hypothesis fs) (f : Findings) → Open fs.Float (general_decision fs ts h f)
  unfolding general_decision
  general-Open h f =
      if-Open fs.Float (any_failed fs ts f) _ _ (as-Open fs.Float "INCONCLUSIVE" _ _ refl) (λ _.
        if-Open fs.Float (or_default "" h.status == "CONFIRMED") _ _
          (as-Open fs.Float "SUPPORTED" _ _ refl)
          (λ n. as-Open fs.Float (status_of fs ts h) _ _ (status_open h.status n)))

  otp-Honest : (h : Hypothesis fs) (f : Findings) → Honest fs.Float f (verify_otp fs ts h f)
  unfolding Honest verify_otp Agrees
  otp-Honest h f = otp-Agrees h f

  exfiltration-Honest :
      (h : Hypothesis fs) (f : Findings) → Honest fs.Float f (verify_data_exfiltration fs ts h f)
  unfolding Honest verify_data_exfiltration Agrees
  exfiltration-Honest h f = exfiltration-Agrees h f

  accessibility-Honest :
      (h : Hypothesis fs) (f : Findings) → Honest fs.Float f (verify_accessibility fs ts h f)
  unfolding Honest verify_accessibility Agrees
  accessibility-Honest h f = accessibility-Agrees h f

  general-Honest : (h : Hypothesis fs) (f : Findings) → Honest fs.Float f (verify_general fs ts h f)
  unfolding Honest verify_general Open has_failed_experiment
  general-Honest h f = (general-Open h f, λ e. absurd (true_not_false (sym e)))

  verdict-Honest : (h : Hypothesis fs) (f : Findings) → Honest fs.Float f (verdict fs ts h f)
  unfolding verdict
  verdict-Honest h f = if-Honest fs.Float f _ _ _ (otp-Honest h f) (
      if-Honest fs.Float f _ _ _ (exfiltration-Honest h f)
        (if-Honest fs.Float f _ _ _ (accessibility-Honest h f) (general-Honest h f)))

  -- A verification says confirmed exactly where its flag `confirmation_allowed` is set: no other
  -- branch of any category, and no status that the hypothesis came with, confirms.
  pub confirmed_iff_allowed :
      (h : Hypothesis fs) (f : Findings) (evidence : List Normalized)
      → let v = verify fs ts h f evidence in
        (v.verified_status == "CONFIRMED") ≡ v.confirmation_allowed
  unfolding verify verification Honest
  confirmed_iff_allowed h f evidence = (verdict-Honest h f).0

  -- A runtime experiment that failed or timed out disproves nothing. Where an experiment of the
  -- types that the category looks at has failed, or, in a category without rules of its own, any
  -- experiment, the status is confirmed or inconclusive, and neither contradicted nor supported.
  pub failed_experiment_open :
      (h : Hypothesis fs) (f : Findings)
      → let v = verdict fs ts h f in
        (has_failed_experiment f v.experiment_types ≡ true
          → contains v.status ("CONFIRMED" ∷ "INCONCLUSIVE" ∷ []) ≡ true)
        × (any_failed fs ts f ≡ true → (verify_general fs ts h f).status ≡ "INCONCLUSIVE")
  unfolding Honest verify_general general_decision
  failed_experiment_open h f = ((verdict-Honest h f).1, λ e. rw e refl)
