-- ===== src/Lineage/Evidence.antt =====
-- An item of evidence, its attribution and its match with a marker
-- (fraudshield/deceptiscope/lineage/correlator.py). Items whose metadata are no dict are left out.
use Prim.Native.String.{◌++◌ as cat}
use text.Mathlib.Text.{starts_with}
use boi.Prelude.{
  String, Bool, true, false, ◌&&◌, ◌||◌, not, Option, none, some, List, [], ◌∷◌, ◌++◌, ◌==◌,
  string_eq, any, keep, if◌then◌else◌,
}
use boi.Scoring.Rules.{is_cons}
use boi.Lineage.Markers.{Marker, Encoding, matches_payload}

-- A value of the metadata: a text, bytes as `decode("utf-8", errors="ignore")` reads them, a dict
-- with the texts among its values, or another value; all but a text with what `str(value or "")`
-- prints.
pub data Value : Type 0 where
  words : String → Value
  bytes : String → String → Value
  dict : List String → String → Value
  other : String → Value

-- An item: a key that it lacks is none, `description` and `value` are texts where they are there; `process`, `trust_level`, `evidence_type` and `api` are what
-- `str` makes of the values, empty where they are missing.
pub record Item : Type 0 where
  pub evidence_id : Option String
  pub description : Option String
  pub value : Option String
  pub process : String
  pub trust_level : String
  pub evidence_type : String
  pub api : String
  pub metadata : List (String × Value)

unfoldable pub lookup : String → List (String × Value) → Option Value
lookup key [] = none
lookup key ((k, v) ∷ rest) = let later = lookup key rest in if k == key then some v else later

-- `str(metadata.get(key) or "")`
unfoldable pub shown : Option Value → String
shown none = ""
shown (some (words t)) = t
shown (some (bytes t p)) = p
shown (some (dict ts p)) = p
shown (some (other t)) = t

-- `_package_matches`, for a text.
unfoldable pub package_matches : String → String → Bool
package_matches target candidate = candidate == target || starts_with candidate (cat target ":")

abbrev pub is_text : String → Bool
is_text t = not (t == "")

abbrev pub every : List String → (String → Bool) → Bool
every [] p = true
every (x ∷ xs) p = p x && every xs p

-- `_has_positive_target_attribution`
unfoldable pub has_positive_target_attribution : Item → String → Bool
has_positive_target_attribution ev target =
    let populated = keep is_text (ev.process ∷ shown (lookup "target_package" ev.metadata) ∷ []) in
    is_cons populated && every populated (package_matches target)

-- `if target_package and not _has_positive_target_attribution(...)`: the item is not skipped.
unfoldable pub is_attributed : Option String → Item → Bool
is_attributed none ev = true
is_attributed (some target) ev = target == "" || has_positive_target_attribution ev target

abbrev pub given : Option String → List String
given none = []
given (some t) = if t == "" then [] else t ∷ []

unfoldable pub texts_of : List (String × Value) → List String
texts_of [] = []
texts_of ((k, words t) ∷ rest) = given (some t) ++ texts_of rest
texts_of ((k, dict ts p) ∷ rest) = keep is_text ts ++ texts_of rest
texts_of ((k, bytes t p) ∷ rest) = texts_of rest
texts_of ((k, other t) ∷ rest) = texts_of rest

-- `fields_to_check`
unfoldable pub fields_to_check : Item → List String
fields_to_check ev = given ev.description ++ given ev.value ++ texts_of ev.metadata

abbrev pub or_else : Option String → Option String → Option String
or_else none later = later
or_else (some t) later = some t

module _ (enc : Encoding) where
  unfoldable pub first_match : Marker → List String → Option String
  first_match marker [] = none
  first_match marker (t ∷ ts) = or_else (matches_payload enc marker t) (first_match marker ts)

  -- `_find_marker_match`: the transformation, where there is a match.
  unfoldable pub find_marker_match : Item → Marker → Option String
  find_marker_match ev marker = first_match marker (fields_to_check ev)

  abbrev pub is_some : Option String → Bool
  is_some none = false
  is_some (some t) = true

  abbrev pub allowed_body_fields : List String
  allowed_body_fields =
      "body" ∷ "body_preview_redacted" ∷ "payload" ∷ "request_body" ∷ "body_bytes_decoded" ∷ []

  -- A field of the body with the marker.
  unfoldable pub field_matches : Marker → Option Value → Bool
  field_matches marker (some (words t)) = is_some (matches_payload enc marker t)
  field_matches marker (some (bytes t p)) = is_some (matches_payload enc marker t)
  field_matches marker _ = false

  unfoldable pub body_matches : Marker → Item → Bool
  body_matches marker ev =
      any (λ key. field_matches marker (lookup key ev.metadata)) allowed_body_fields

  -- `str(ev.get("evidence_id"))`, where a missing key prints "None".
  abbrev pub printed_id : Item → String
  printed_id ev = elim ev.evidence_id [ none ↦ "None" | some i ↦ i ]

  unfoldable pub is_trusted : Item → Bool
  is_trusted ev = enc.upper ev.trust_level == "INSTRUMENTED"

  -- `_is_verified_body_egress`, for the id of the step.
  unfoldable pub is_verified_body_egress : String → List Item → Marker → Bool
  is_verified_body_egress step_id [] marker = false
  is_verified_body_egress step_id (ev ∷ evs) marker =
      let rest = is_verified_body_egress step_id evs marker in
      if printed_id ev == step_id
      then if is_trusted ev then body_matches marker ev || rest else false
      else rest
