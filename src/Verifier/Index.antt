-- ===== src/Verifier/Index.antt =====
-- The helpers of fraudshield/deceptiscope/verifier.py: static signals, the findings by type, the
-- ids that are cited, and lists of texts without repetitions.
use boi.Prelude.{
  ℕ, String, Bool, false, ◌&&◌, ◌||◌, not, List, [], ◌∷◌, ◌++◌, map, ◌==◌, string_eq, keep, any,
  contains, leb, min, length, if◌then◌else◌,
}
use boi.Scoring.Rules.{has_component, signal_of, is_cons}
use boi.Verifier.Types.{member, text, no_trust, Item, Experiment, Findings, Normalized, Texts}

-- The loop of `_unique_strings`: `seen` holds what `result` does. It breaks once `limit` texts are
-- held, a test that comes after an item.
unfoldable pub unique_from : ℕ → List String → List String → List String
unique_from limit seen [] = seen
unique_from limit seen (v ∷ vs) =
    let result = if not (v == "") && not (contains v seen) then seen ++ (v ∷ []) else seen in
    let rest = unique_from limit result vs in if leb limit (length result) then result else rest

unfoldable pub unique_strings : List String → ℕ → List String
unique_strings values limit = unique_from limit [] values

abbrev pub when_true : Bool → String → List String
when_true b s = if b then s ∷ [] else []

-- `_otp_static_signals`
unfoldable pub otp_static_signals : Findings → List String
otp_static_signals f =
    when_true (contains "android.permission.READ_SMS" f.permissions) "READ_SMS"
    ++ when_true (contains "android.permission.RECEIVE_SMS" f.permissions) "RECEIVE_SMS"
    ++ when_true (has_component "sms_receiver" f.components) "sms_receiver"
    ++ when_true (signal_of "sms_api" f.signals).detected "SmsManager"

abbrev pub entries : String → List (String × List String) → List String
entries k [] = []
entries k ((j, v) ∷ m) = if j == k then v else entries k m

-- `_has_static_network_signal`
unfoldable pub has_static_network_signal : Findings → Bool
has_static_network_signal f =
    contains "android.permission.INTERNET" f.permissions
    || is_cons f.urls
    || any (λ key. is_cons (entries key f.network_indicators)) ("domains" ∷ "ips" ∷ "urls" ∷ [])

-- `_has_static_accessibility_signal`
unfoldable pub has_static_accessibility_signal : Findings → Bool
has_static_accessibility_signal f =
    has_component "accessibility_service" f.components
    || (signal_of "accessibility_api" f.signals).detected

-- `_runtime_index(findings)["by_type"].get(type, [])`
abbrev pub by_type : String → Findings → List Item
by_type t f = keep (λ item. item.evidence_type == t) f.runtime_evidence

-- The items of `_experiment_index`.
unfoldable pub experiments : Findings → List Experiment
experiments f =
    if is_cons f.experiment_results then f.experiment_results else f.dynamic_experiment_results

-- `statuses_by_type.get(type, [])`
abbrev pub statuses : String → Findings → List String
statuses t f = map (λ e. e.status) (keep (λ e. e.experiment_type == t) (experiments f))

abbrev pub is_failure : String → Bool
is_failure s = contains s ("FAILED" ∷ "TIMED_OUT" ∷ [])

unfoldable pub has_failed_experiment : Findings → List String → Bool
has_failed_experiment f types = any (λ t. any is_failure (statuses t f)) types

unfoldable pub has_completed_experiment : Findings → List String → Bool
has_completed_experiment f types = any (λ t. any (λ s. s == "COMPLETED") (statuses t f)) types

abbrev pub earliest : ℕ → List Item → ℕ
earliest t [] = t
earliest t (i ∷ is) = min i.timestamp_ms (earliest t is)

-- `_marker_precedes_network`
unfoldable pub marker_precedes_network : List Item → List Item → Bool
marker_precedes_network [] network = false
marker_precedes_network (m ∷ ms) network =
    any (λ item. leb (earliest m.timestamp_ms ms) item.timestamp_ms) network

-- `_runtime_ids` and `_experiment_ids`
unfoldable pub runtime_ids : Findings → List String → List String
runtime_ids f types =
    unique_strings
      (map (λ item. item.evidence_id)
        (keep (λ item. contains item.evidence_type types) f.runtime_evidence))
      30

unfoldable pub experiment_ids : Findings → List String → List String
experiment_ids f types =
    unique_strings
      (map (λ e. e.experiment_id)
        (keep (λ e. contains e.experiment_type types) f.experiment_results))
      30

module _ (ts : Texts) where
  open ts use {upper, lower, occurs}

  -- `_trust_str`
  unfoldable pub trust_str : Item → String
  trust_str item = elim item.trust_level [
    | member value shown ↦ upper value
    | text s ↦ upper s
    | no_trust ↦ upper ""
  ]

  -- `_matching_static_evidence_ids`
  unfoldable pub matching_static_evidence_ids : List Normalized → List String → List String
  matching_static_evidence_ids items [] = []
  matching_static_evidence_ids items (t ∷ tokens) =
      unique_strings
        (map (λ item. item.evidence_id)
          (keep (λ item. any (λ token. occurs token (lower item.searched)) (map lower (t ∷ tokens)))
            items))
        30

-- `str(ev.get("trust_level"))`
abbrev pub shown_trust : Item → String
shown_trust item = elim item.trust_level [
  | member value shown ↦ shown
  | text s ↦ s
  | no_trust ↦ "None"
]
