-- ===== src/Verifier/Verdicts.antt =====
-- The verdicts of fraudshield/deceptiscope/verifier.py by category: `_verify_otp`,
-- `_verify_data_exfiltration`, `_verify_accessibility` and `_verify_general`, and `verify`.
use boi.Prelude.Floats.{Floats}
use boi.Prelude.{
  String, Bool, true, ◌&&◌, ◌||◌, not, List, [], ◌∷◌, ◌++◌, ◌==◌, string_eq, any, contains,
  if◌then◌else◌,
}
use boi.Scoring.Rules.{is_cons}
use boi.Verifier.Types.{Item, Findings, Texts, Hypothesis, or_default}
use boi.Verifier.Index.{
  when_true, otp_static_signals, has_static_network_signal, by_type, has_failed_experiment,
  has_completed_experiment, marker_precedes_network, trust_str,
}

-- What a verifier has found out, before `_verification` writes it up.
pub record Verdict (F : Type 0) : Type 0 where
  pub status : String
  pub strength : F
  pub observed : List String
  pub missing : List String
  pub explanation : String
  pub confirmation_allowed : Bool
  pub static_tokens : List String
  pub runtime_types : List String
  pub experiment_types : List String

module _ (fs : Floats) (ts : Texts) where
  open fs use {Float, literal}

  abbrev pub status_of : Hypothesis fs → String
  status_of h = or_default "PROPOSED" h.status

  -- `_downgrade_unconfirmed`
  unfoldable pub downgrade_unconfirmed : Hypothesis fs → Bool → String
  downgrade_unconfirmed h has_static_support =
      if not has_static_support
      then "PROPOSED"
      else if status_of h == "CONFIRMED"
      then "SUPPORTED"
      else if contains (status_of h) ("SUPPORTED" ∷ "CONTRADICTED" ∷ "INCONCLUSIVE" ∷ [])
      then status_of h
      else "PROPOSED"

  abbrev pub Decision : Type 0
  Decision = String × Float × String

  abbrev pub supported_strength : Bool → Float
  supported_strength static_supported = if static_supported then literal 35 2 else literal 1 1

  abbrev pub instrumented : Item → Bool
  instrumented item =
      contains (trust_str ts item) ("INSTRUMENTED" ∷ "PAYLOAD_CORRELATED" ∷ "SYSTEM_OBSERVED" ∷ [])

  abbrev pub correlated_access : Item → Bool
  correlated_access item = contains (trust_str ts item) ("INSTRUMENTED" ∷ "PAYLOAD_CORRELATED" ∷ [])

  abbrev pub otp_delivered : Findings → List Item
  otp_delivered f = by_type "synthetic_sms_delivered" f

  abbrev pub otp_accessed : Findings → List Item
  otp_accessed f = by_type "sms_access" f ++ by_type "synthetic_marker_correlation" f

  -- The test `confirmation_allowed` of `_verify_otp`.
  unfoldable pub otp_allowed : Findings → Bool
  otp_allowed f =
      is_cons (otp_static_signals f)
      && is_cons (otp_delivered f)
      && (is_cons (by_type "sms_access" f) || is_cons (by_type "synthetic_marker_correlation" f))
      && any instrumented (otp_delivered f)
      && any correlated_access (otp_accessed f)

  unfoldable pub otp_decision : Hypothesis fs → Findings → Decision
  otp_decision h f =
      let static_supported = is_cons (otp_static_signals f) in
      let delivered = is_cons (otp_delivered f) in
      let access =
        is_cons (by_type "sms_access" f) || is_cons (by_type "synthetic_marker_correlation" f) in
      if otp_allowed f
      then (
        "CONFIRMED",
        literal 10 1,
        "OTP interception confirmed by static SMS capability plus instrumented synthetic SMS delivery and correlated marker access.",
      )
      else if has_failed_experiment f ("SYNTHETIC_SMS" ∷ "LOGCAT_CAPTURE" ∷ [])
      then (
        "INCONCLUSIVE",
        supported_strength static_supported,
        "OTP runtime experiment failed or timed out, so absence of runtime proof is inconclusive.",
      )
      else if has_completed_experiment f ("SYNTHETIC_SMS" ∷ []) && delivered && not access
      then (
        "CONTRADICTED",
        literal 25 2,
        "Synthetic SMS was delivered, but no package-associated SMS access or marker correlation was observed.",
      )
      else if static_supported && (delivered || access)
      then (
        "SUPPORTED",
        if access then literal 75 2 else literal 55 2,
        if not (any instrumented (otp_delivered f) && any correlated_access (otp_accessed f))
            then "OTP hypothesis is supported by static capability and runtime signals, but generic log matching without verified instrumentation does not meet confirmation criteria."
            else "OTP hypothesis remains supported by static evidence and partial runtime evidence, but confirmation requirements are incomplete.",
      )
      else if static_supported
      then (
        "SUPPORTED",
        literal 45 2,
        "OTP hypothesis is statically supported, but runtime confirmation evidence is absent.",
      )
      else (
        downgrade_unconfirmed h static_supported,
        literal 15 2,
        "OTP hypothesis lacks deterministic static and runtime support.",
      )

  unfoldable pub verify_otp : Hypothesis fs → Findings → Verdict Float
  verify_otp h f =
      let (status, strength, explanation) = otp_decision h f in
      let delivered = is_cons (otp_delivered f) in
      let access = is_cons (by_type "sms_access" f) in
      let marker = is_cons (by_type "synthetic_marker_correlation" f) in
      record {
        status = status;
        strength = strength;
        observed =
            otp_static_signals f
            ++ when_true delivered "synthetic_sms_delivered"
            ++ when_true access "sms_access"
            ++ when_true marker "synthetic_marker_correlation";
        missing =
            when_true (not delivered) "synthetic_sms_delivered"
            ++ when_true (not access) "sms_access"
            ++ when_true (not marker) "synthetic_marker_correlation";
        explanation = explanation;
        confirmation_allowed = otp_allowed f;
        static_tokens = "READ_SMS" ∷ "RECEIVE_SMS" ∷ "sms_receiver" ∷ "SmsManager" ∷ [];
        runtime_types =
            "synthetic_sms_delivered" ∷ "sms_access" ∷ "synthetic_marker_correlation" ∷ [];
        experiment_types = "SYNTHETIC_SMS" ∷ "LOGCAT_CAPTURE" ∷ [];
      }

  abbrev pub markers : Findings → List Item
  markers f = by_type "synthetic_marker_correlation" f

  abbrev pub network : Findings → List Item
  network f = by_type "network_destination" f ++ by_type "dns_destination" f

  abbrev pub payload_match : Item → Bool
  payload_match item = trust_str ts item == "PAYLOAD_CORRELATED" || item.payload_correlated

  -- The test `confirmation_allowed` of `_verify_data_exfiltration`.
  unfoldable pub exfiltration_allowed : Findings → Bool
  exfiltration_allowed f =
      is_cons (markers f)
      && is_cons (network f)
      && marker_precedes_network (markers f) (network f)
      && any payload_match (markers f ++ network f)

  unfoldable pub exfiltration_decision : Hypothesis fs → Findings → Decision
  exfiltration_decision h f =
      let static_supported = has_static_network_signal f in
      let marker = is_cons (markers f) in
      let outbound = is_cons (network f) in
      if exfiltration_allowed f
      then (
        "CONFIRMED",
        literal 95 2,
        "Data exfiltration confirmed by verified payload-level correlation between synthetic marker and outbound transmission.",
      )
      else if has_failed_experiment f ("NETWORK_OBSERVATION" ∷ "SYNTHETIC_SMS" ∷ [])
      then (
        "INCONCLUSIVE",
        supported_strength static_supported,
        "Relevant runtime experiment failed or timed out, so exfiltration cannot be disproved.",
      )
      else if has_completed_experiment f ("NETWORK_OBSERVATION" ∷ []) && marker && not outbound
      then (
        "CONTRADICTED",
        literal 3 1,
        "Synthetic marker was observed, but completed network observation produced no outbound destination evidence.",
      )
      else if marker && outbound && marker_precedes_network (markers f) (network f)
      then (
        "SUPPORTED",
        literal 60 2,
        "Synthetic marker was observed in logcat, followed temporally by network activity, but payload content correlation was not verified (temporal correlation only; capped at SUPPORTED).",
      )
      else if static_supported || marker || outbound
      then (
        "SUPPORTED",
        literal 50 2,
        "Data exfiltration hypothesis has partial support, but deterministic confirmation requirements are incomplete.",
      )
      else (
        downgrade_unconfirmed h true,
        literal 15 2,
        "Data exfiltration hypothesis lacks deterministic static or runtime support.",
      )

  unfoldable pub verify_data_exfiltration : Hypothesis fs → Findings → Verdict Float
  verify_data_exfiltration h f =
      let (status, strength, explanation) = exfiltration_decision h f in
      let marker = is_cons (markers f) in
      let outbound = is_cons (network f) in
      record {
        status = status;
        strength = strength;
        observed =
            when_true (has_static_network_signal f) "static_network_or_internet_signal"
            ++ when_true marker "synthetic_marker_correlation"
            ++ when_true outbound "network_destination";
        missing =
            when_true (not marker) "synthetic_marker_correlation"
            ++ when_true (not outbound) "network_destination";
        explanation = explanation;
        confirmation_allowed = exfiltration_allowed f;
        static_tokens = "INTERNET" ∷ "network" ∷ "domain" ∷ "url" ∷ "ip" ∷ [];
        runtime_types =
            "synthetic_marker_correlation" ∷ "network_destination" ∷ "dns_destination" ∷ [];
        experiment_types = "NETWORK_OBSERVATION" ∷ "SYNTHETIC_SMS" ∷ [];
      }
