-- ===== src/Lineage/Correlate.antt =====
-- DataLineageCorrelator.correlate (fraudshield/deceptiscope/lineage/correlator.py).
use Prim.Native.String.{◌++◌ as cat}
use boi.Prelude.{
  ℕ, ◌+◌, String, Bool, true, false, ◌&&◌, ◌||◌, Option, none, some, List, [], ◌∷◌, ◌++◌, ◌==◌,
  string_eq, any, keep, length, contains, leb, if◌then◌else◌,
}
use boi.Scoring.Rules.{is_cons}
use boi.Lineage.Markers.{Marker, MarkerType, type_value, Encoding, get_transformations}
use boi.Lineage.Evidence.{
  Item, lookup, shown, is_attributed, find_marker_match, is_verified_body_egress,
}

pub data Phase : Type 0 where
  ingress transformation internal_state egress : Phase

-- A `LineageStep`.
pub record Step : Type 0 where
  pub step_index : ℕ
  pub evidence_id : String
  pub phase : Phase
  pub api : String
  pub transform_type : String
  pub matched_value : String
  pub description : String

-- A `PayloadLineage`, whose id "Pnnn" is its number.
pub record PayloadLineage : Type 0 where
  pub lineage_id : ℕ
  pub marker_id : ℕ
  pub marker_type : MarkerType
  pub marker_value : String
  pub evidence_chain : List String
  pub steps : List Step
  pub source_evidence_id : String
  pub sink_evidence_id : Option String
  pub is_complete_exfiltration : Bool
  pub trust_level : String
  pub summary : String

-- `INGRESS_INDICATORS` and `EGRESS_INDICATORS`
abbrev pub ingress_indicators : List String
ingress_indicators =
    "createfrompdu" ∷ "onreceive" ∷ "onnotificationposted" ∷ "gettext" ∷ "synthetic_sms_delivered"
    ∷ "sms_access" ∷ []

abbrev pub egress_indicators : List String
egress_indicators =
    "sendtextmessage" ∷ "sendmultiparttextmessage" ∷ "newcall" ∷ "openconnection" ∷ "connect"
    ∷ "http_request_observed" ∷ "socket_connect_observed" ∷ "network_destination" ∷ []

abbrev pub is_ingress : Step → Bool
is_ingress s = elim s.phase [ ingress ↦ true | _ ↦ false ]

abbrev pub is_egress : Step → Bool
is_egress s = elim s.phase [ egress ↦ true | _ ↦ false ]

-- `d.get(key, default)` of the transformations.
unfoldable pub transformed : String → String → List (String × String) → String
transformed name default [] = default
transformed name default ((k, v) ∷ rest) =
    let later = transformed name default rest in if k == name then v else later

-- `str(ev.get("description", ""))` and `str(ev.get("evidence_id", ""))`
abbrev pub text_of : Option String → String
text_of none = ""
text_of (some t) = t

abbrev pub either_text : String → String → String
either_text a b = if a == "" then b else a

-- `steps[0]` and `egress_steps[-1]`
abbrev pub source_of : Step → String
source_of s = s.evidence_id

unfoldable pub sink_of : List Step → Option String
sink_of [] = none
sink_of (s ∷ ss) = elim (sink_of ss) [ none ↦ some s.evidence_id | some i ↦ some i ]

-- `' -> '.join(ids)`
unfoldable pub joined_ids : List String → String
joined_ids [] = ""
joined_ids (i ∷ []) = i
joined_ids (i ∷ j ∷ is) = cat i (cat " -> " (joined_ids (j ∷ is)))

-- The loop over the steps' ids: each id once.
unfoldable pub chain_ids : List Step → List String → List String
chain_ids [] ids = ids
chain_ids (s ∷ ss) ids =
    chain_ids ss (if contains s.evidence_id ids then ids else ids ++ (s.evidence_id ∷ []))

-- `show_marker` prints the id of a marker.
module _ (enc : Encoding) (show_marker : ℕ → String) where
  open enc use {lower, occurs}

  abbrev pub api_of : Item → String
  api_of ev = lower (either_text (shown (lookup "api" ev.metadata)) ev.api)

  abbrev pub indicated : List String → Item → Bool
  indicated indicators ev =
      any (λ ind. occurs ind (api_of ev) || occurs ind (lower ev.evidence_type)) indicators

  unfoldable pub phase_of : Item → String → Phase
  phase_of ev transform =
      if indicated ingress_indicators ev
      then ingress
      else if indicated egress_indicators ev
      then egress
      else if contains transform ("base64" ∷ "hex" ∷ "url_encoded" ∷ [])
          || occurs "transform" (lower (text_of ev.description))
      then transformation
      else internal_state

  unfoldable pub step_of : ℕ → Marker → Item → String → Step
  step_of index marker ev transform = record {
    step_index = index;
    evidence_id = text_of ev.evidence_id;
    phase = phase_of ev transform;
    api = either_text (api_of ev) (lower ev.evidence_type);
    transform_type = transform;
    matched_value = transformed transform marker.value (get_transformations enc marker);
    description = text_of ev.description;
  }

  -- The loop's guards: an id, the attribution, and a match with the marker.
  unfoldable pub match_of : Option String → Marker → Item → Option String
  match_of target marker ev =
      if text_of ev.evidence_id == ""
      then none
      else if is_attributed target ev
      then find_marker_match enc ev marker
      else none

  abbrev pub with_match : ℕ → Marker → Item → Option String → List Step
  with_match index marker ev none = []
  with_match index marker ev (some transform) = step_of index marker ev transform ∷ []

  -- The loop over the evidence; the steps before are counted in `index`.
  unfoldable pub steps_from : ℕ → Option String → Marker → List Item → List Step
  steps_from index target marker [] = []
  steps_from index target marker (ev ∷ evs) =
      let new = with_match index marker ev (match_of target marker ev) in
      new ++ steps_from (index + length new) target marker evs

  unfoldable pub is_complete : List Step → List Item → Marker → Bool
  is_complete steps items marker =
      any is_ingress steps
      && any (λ s. is_verified_body_egress enc s.evidence_id items marker) (keep is_egress steps)

  abbrev pub summary_of : Marker → List String → Bool → String
  summary_of marker ids complete = cat "Deterministic payload lineage proven for synthetic " (
      cat (type_value marker.marker_type) (
        cat " marker " (
          cat (show_marker marker.marker_id) (
            cat ": " (
              cat (joined_ids ids) (
                if complete
                then " (Complete Outbound Body Exfiltration Proven)"
                else " (Partial Ingestion / Transformation / Log Observation)"))))))

  unfoldable pub lineage_of : ℕ → Marker → List Item → Step → List Step → PayloadLineage
  lineage_of counter marker items first rest =
      let steps = first ∷ rest in
      let complete = is_complete steps items marker in
      record {
        lineage_id = counter;
        marker_id = marker.marker_id;
        marker_type = marker.marker_type;
        marker_value = marker.value;
        evidence_chain = chain_ids steps [];
        steps = steps;
        source_evidence_id = source_of first;
        sink_evidence_id = sink_of (keep is_egress steps);
        is_complete_exfiltration = complete;
        trust_level = if complete then "PAYLOAD_CORRELATED" else "INSTRUMENTED";
        summary = summary_of marker (chain_ids steps []) complete;
      }

  -- What correlate ends in: the lineages, or the ValidationError of an id with four digits; and the
  -- counter.
  abbrev pub Answer : Type 0
  Answer = Option (List PayloadLineage) × ℕ

  abbrev pub put_before : PayloadLineage → Answer → Answer
  put_before l (none, n) = (none, n)
  put_before l (some ls, n) = (some (l ∷ ls), n)

  -- One marker's lineage before those of the markers that follow.
  abbrev pub with_steps : List Item → Marker → List Step → Answer → ℕ → Answer
  with_steps items marker [] rest counter = rest
  with_steps items marker (s ∷ ss) rest counter =
      if leb counter 999
      then put_before (lineage_of counter marker items s ss) rest
      else (none, counter)

  abbrev pub counter_after : List Step → ℕ → ℕ
  counter_after [] counter = counter
  counter_after (s ∷ ss) counter = counter + 1

  unfoldable pub correlate_all : Option String → List Item → List Marker → ℕ → Answer
  correlate_all target items [] counter = (some [], counter)
  correlate_all target items (marker ∷ markers) counter =
      let steps = steps_from 1 target marker items in
      with_steps items marker steps
        (correlate_all target items markers (counter_after steps counter)) counter

  -- `correlate`
  unfoldable pub correlate : List Item → List Marker → Option String → ℕ → Answer
  correlate items markers target counter =
      if is_cons items && is_cons markers
      then correlate_all target items markers counter
      else (some [], counter)
