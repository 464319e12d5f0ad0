-- ===== src/Lineage/Examples.antt =====
-- The theorems on lineages at one marker that an SMS brings and a request sends.
use boi.Prelude.{
  ℕ, ◌+◌, ◌≡◌, refl, inl, String, none, some, List, [], ◌∷◌, ◌==◌, string_eq, Among, map, keep,
  length, arith,
}
use boi.Lineage.Markers.{
  Encoding, Marker, otp, new_manager, add_marker, matches_payload, first_transform,
  get_transformations,
}
use boi.Lineage.Evidence.{
  Item, words, is_attributed, has_positive_target_attribution, package_matches, lookup, shown,
  find_marker_match, first_match, fields_to_check, texts_of, is_verified_body_egress, is_trusted,
  body_matches, field_matches,
}
use boi.Lineage.Correlate.{
  PayloadLineage, correlate, correlate_all, steps_from, match_of, step_of, phase_of, lineage_of,
  is_complete, chain_ids, sink_of, joined_ids, transformed,
}
use boi.Lineage.Complete.{IsExfiltrated, complete-IsExfiltrated}
use boi.Lineage.Chains.{is_carried, numbers_from, correlate_lineages}
use boi.Lineage.Manager.{Added, add_marker-Added}

-- Texts that are compared as wholes, and an identity for each encoding.
abbrev plain : Encoding
plain = record {
  base64 = λ s. s;
  hex = λ s. s;
  quote_plus = λ s. s;
  without_padding = λ s. s;
  upper = λ s. s;
  lower = λ s. s;
  occurs = λ part s. part == s;
}

abbrev show_marker : ℕ → String
show_marker n = "M001"

abbrev marker : Marker
marker = record {
  marker_id = 1;
  marker_type = otp;
  value = "DS-TEST-OTP-123456";
  created_at_ms = 0;
  purpose = "synthetic_sms_otp_delivery";
}

abbrev sms : Item
sms = record {
  evidence_id = some "E1";
  description = some "DS-TEST-OTP-123456";
  value = none;
  process = "com.bank";
  trust_level = "INSTRUMENTED";
  evidence_type = "sms_access";
  api = "";
  metadata = [];
}

abbrev request : Item
request = record {
  evidence_id = some "E2";
  description = none;
  value = none;
  process = "com.bank:remote";
  trust_level = "INSTRUMENTED";
  evidence_type = "connect";
  api = "";
  metadata = ("body", words "DS-TEST-OTP-123456") ∷ [];
}

abbrev items : List Item
items = sms ∷ request ∷ []

correlate_lineages_example :
    (ls : List PayloadLineage) × (correlate plain show_marker items
        (marker ∷ [])
        (some "com.bank")
        1
      ≡ (some ls, 1 + length ls))
    × (map (λ l. l.marker_id) ls
        ≡ map
            (λ m. m.marker_id)
            (keep (is_carried plain show_marker (some "com.bank") items) (marker ∷ [])))
    × (map (λ l. l.lineage_id) ls ≡ numbers_from 1 (length ls))
correlate_lineages_example =
    correlate_lineages plain show_marker (some "com.bank") items (marker ∷ []) 1 (omega arith)

complete-IsExfiltrated_example :
    (m : Marker) × Among m (marker ∷ [])
    × ("DS-TEST-OTP-123456" ≡ m.value)
    × IsExfiltrated plain show_marker (some "com.bank") items m
unfolding correlate correlate_all steps_from match_of step_of phase_of lineage_of is_complete
    chain_ids sink_of joined_ids transformed is_attributed has_positive_target_attribution
    package_matches lookup shown find_marker_match first_match fields_to_check texts_of
    is_verified_body_egress is_trusted body_matches field_matches matches_payload first_transform
    get_transformations
complete-IsExfiltrated_example =
    complete-IsExfiltrated plain show_marker (some "com.bank") items (marker ∷ []) 1 2 _ _
      (refl, (refl, tt)) refl (inl refl) refl

add_marker-Added_example :
    Added new_manager (add_marker otp "DS-TEST-OTP-123456" "test" new_manager)
add_marker-Added_example = add_marker-Added otp "DS-TEST-OTP-123456" "test" new_manager tt
