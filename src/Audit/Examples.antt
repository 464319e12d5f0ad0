-- ===== src/Audit/Examples.antt =====
-- The theorems on the audit chain at a concrete log, under a toy code in place of HMAC.
use Prim.Native.String.{◌++◌}
use boi.Prelude.{
  ℕ, ◌≡◌, ◌≢◌, refl, String, true, false, none, some, List, [], ◌∷◌, string_eq, arith, take_chars,
  length,
}
use boi.Audit.{
  Event, Hmac, Log, empty_log, Keys, Entry, key_for, verify_chain, checked, append, written, signed,
  rebuilt, normalized_roles, verify_from,
}
use boi.Audit.Chain.{IsChain, is_valid, verify_chain_iff}
use boi.Audit.History.{append_all, appended_log_verifies, IsKeyId}
use boi.Audit.Tamper.{legacy_key_id_refused}

abbrev toy : Hmac
toy = record { digest = λ k t. k ++ t; dumps = λ p. p.id ++ p.action }

abbrev old_keys : Keys
old_keys = record { key_id = "v1"; key = "k1"; previous_keys = [] }

abbrev new_keys : Keys
new_keys = record { key_id = "v2"; key = "k2"; previous_keys = ("v1", "k1") ∷ [] }

abbrev entry : Entry
entry = record {
  request_id = "r1";
  actor_id = "ana";
  auth_type = "oidc";
  roles = "viewer" ∷ "admin" ∷ "viewer" ∷ [];
  action = "read";
  resource_type = "job";
  resource_id = none;
  method = "GET";
  path = "/";
  status_code = 200;
  client_address = "";
  user_agent = "";
  details = "{}";
}

abbrev first_entries : List (String × ℕ × Entry)
first_entries = ("a1", 5, entry) ∷ ("a2", 6, entry) ∷ []

roles_sorted : normalized_roles entry.roles ≡ "admin" ∷ "viewer" ∷ []
unfolding normalized_roles take_chars
roles_sorted = refl

v1_IsKeyId : IsKeyId "v1"
v1_IsKeyId = (
  ground (arith, string_eq.equals_iff "v1" ""),
  ground (arith, string_eq.equals_iff "v1" "legacy"),
)

v2_IsKeyId : IsKeyId "v2"
v2_IsKeyId = (
  ground (arith, string_eq.equals_iff "v2" ""),
  ground (arith, string_eq.equals_iff "v2" "legacy"),
)

abbrev old_log : Log
unfolding append_all append written signed
old_log = append_all toy old_keys first_entries empty_log

abbrev grown_log : Log
unfolding old_log
grown_log = append_all toy new_keys (("a3", 7, entry) ∷ []) old_log

appended_log_verifies_example :
    verify_chain toy new_keys grown_log
    ≡ checked true (length grown_log.events) none grown_log.event_hash
unfolding grown_log key_for written signed append append_all take_chars
appended_log_verifies_example =
    appended_log_verifies toy old_keys new_keys first_entries (("a3", 7, entry) ∷ []) v1_IsKeyId
      v2_IsKeyId (refl, (refl, tt))

grown_log_valid : is_valid (verify_chain toy new_keys grown_log) ≡ true
unfolding grown_log key_for written signed append append_all verify_chain verify_from rebuilt
    take_chars
grown_log_valid = refl

verify_chain_iff_example : IsChain toy new_keys grown_log
verify_chain_iff_example = (verify_chain_iff toy new_keys grown_log).0 grown_log_valid

-- A log whose row has an empty key id, and one whose row names the key
-- "legacy": the column is no part of what such rows sign.
abbrev unnamed : Keys
unnamed = record { key_id = "v2"; key = "k2"; previous_keys = ("legacy", "k1") ∷ [] }

abbrev old_event : String → Event
old_event key_id = record {
  id = "a1";
  sequence_number = 1;
  occurred_at = 5;
  request_id = "r1";
  actor_id = "ana";
  auth_type = "oidc";
  roles = "viewer" ∷ [];
  action = "read";
  resource_type = "job";
  resource_id = none;
  method = "GET";
  path = "/";
  status_code = 200;
  client_address_hash = "";
  user_agent_hash = "";
  details = "{}";
  previous_hash = "";
  event_hash = "k1a1read";
  audit_key_id = key_id;
}

abbrev log_of : String → Log
log_of key_id = record {
  events = old_event key_id ∷ [];
  sequence_number = 1;
  event_hash = "k1a1read";
}

abbrev legacy_keys : Keys
legacy_keys = record { key_id = "legacy"; key = "k"; previous_keys = [] }

-- A code that reads the key id alone.
abbrev id_code : Hmac
id_code = record {
  digest = λ k t. t;
  dumps = λ p. elim p.audit_key_id [ none ↦ "none" | some k ↦ k ];
}

abbrev legacy_log : Log
unfolding written signed
legacy_log = record {
  events = written id_code legacy_keys (signed id_code legacy_keys "a1" 5 entry empty_log) ∷ [];
  sequence_number = 1;
  event_hash = "legacy";
}

differ : ◌≢◌ {A = String} "legacy" "none"
differ = ground (arith, string_eq.equals_iff "legacy" "none")

legacy_key_id_refused_example : is_valid (verify_chain id_code legacy_keys legacy_log) ≡ false
unfolding legacy_log append written signed rebuilt
legacy_key_id_refused_example =
    legacy_key_id_refused id_code legacy_keys "a1" 5 entry
      (written id_code legacy_keys (signed id_code legacy_keys "a1" 5 entry empty_log)) legacy_log
      refl refl (λ e. absurd (differ e))
