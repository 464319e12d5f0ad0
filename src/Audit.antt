-- ===== src/Audit.antt =====
-- `AuditRepository` of fraudshield/core/repository.py: the chain of security audit events, each
-- signed with its predecessor's hash. HMAC-SHA256 and the JSON encoder are parameters.
pub mod Chain
pub mod History
pub mod Tamper
mod Examples
use Prim.Native.String.{compare}
use Prim.Native.Nat.{Ordering}
use boi.Prelude.{
  ◌||◌, ℕ, ◌+◌, String, Bool, true, false, ◌&&◌, Option, none, some, List, [], ◌∷◌, ◌++◌, ◌==◌,
  string_eq, nat_eq, take_chars, keep, any, leb, if◌then◌else◌,
}

-- `json.loads(s)` of a stored column gives back the value that was written: a JSON column is
-- represented by its value, and `details` by its canonical text.
pub record Event : Type 0 where
  pub id : String
  pub sequence_number : ℕ
  pub occurred_at : ℕ
  pub request_id : String
  pub actor_id : String
  pub auth_type : String
  pub roles : List String
  pub action : String
  pub resource_type : String
  pub resource_id : Option String
  pub method : String
  pub path : String
  pub status_code : ℕ
  pub client_address_hash : String
  pub user_agent_hash : String
  pub details : String
  pub previous_hash : String
  pub event_hash : String
  pub audit_key_id : String

-- The dict `integrity_payload`. A legacy event has no `audit_key_id`.
pub record Payload : Type 0 where
  pub id : String
  pub sequence_number : ℕ
  pub occurred_at : ℕ
  pub request_id : String
  pub actor_id : String
  pub auth_type : String
  pub roles : List String
  pub action : String
  pub resource_type : String
  pub resource_id : Option String
  pub method : String
  pub path : String
  pub status_code : ℕ
  pub client_address_hash : String
  pub user_agent_hash : String
  pub details : String
  pub previous_hash : String
  pub audit_key_id : Option String

-- `hmac.new(key, text, sha256).hexdigest()`, and `dumps` of a payload.
pub record Hmac : Type 0 where
  pub digest : String → String → String
  pub dumps : Payload → String

-- The tables `audit_events`, in the order of their unique sequence numbers, and
-- `audit_chain_state`.
pub record Log : Type 0 where
  pub events : List Event
  pub sequence_number : ℕ
  pub event_hash : String

-- The schema's first row.
abbrev pub empty_log : Log
empty_log = record { events = []; sequence_number = 0; event_hash = "" }

pub record Keys : Type 0 where
  pub key_id : String
  pub key : String
  pub previous_keys : List (String × String)

abbrev pub or_text : String → String → String
or_text s d = if s == "" then d else s

-- `__init__`
unfoldable pub init : String → String → List (String × String) → Keys
init hmac_key key_id previous_keys = record {
  key_id = key_id;
  key = or_text hmac_key "development-only-audit-integrity-key";
  previous_keys = previous_keys;
}

abbrev pub lookup : String → List (String × String) → Option String
lookup k [] = none
lookup k ((j, v) ∷ m) = if j == k then some v else lookup k m

-- `self._keys.get(id)`, where the current key hides a previous one of its id; then the fallback of
-- `verify_chain` for events that name no key.
unfoldable pub key_for : Keys → String → Option String
key_for ks i = if i == ks.key_id then some ks.key else elim (lookup i ks.previous_keys) [
  | some k ↦ some k
  | none ↦ if i == "legacy" then some ks.key else none
]

-- `sorted({str(role)[:64] for role in roles})`
abbrev pub comes_before : String → String → Bool
comes_before a b = elim (compare a b) [ Ordering.lt ↦ true | _ ↦ false ]

abbrev pub add_role : String → List String → List String
add_role a [] = a ∷ []
add_role a (b ∷ bs) =
    if a == b then b ∷ bs else if comes_before a b then a ∷ b ∷ bs else b ∷ add_role a bs

pub normalized_roles : List String → List String
normalized_roles [] = []
normalized_roles (r ∷ rs) = add_role (take_chars 64 r) (normalized_roles rs)

pub record Entry : Type 0 where
  pub request_id : String
  pub actor_id : String
  pub auth_type : String
  pub roles : List String
  pub action : String
  pub resource_type : String
  pub resource_id : Option String
  pub method : String
  pub path : String
  pub status_code : ℕ
  pub client_address : String
  pub user_agent : String
  pub details : String

-- `str(item.get("audit_key_id") or "legacy")`
abbrev pub stored_key_id : Event → String
stored_key_id e = or_text e.audit_key_id "legacy"

abbrev pub named_key : String → Option String
named_key i = if i == "legacy" then none else some i

-- `resource_id[:256] if resource_id else None`
abbrev pub bounded_id : Option String → Option String
bounded_id none = none
bounded_id (some s) = if s == "" then none else some (take_chars 256 s)

-- The payload that `verify_chain` rebuilds from a row and the hash before it.
pub rebuilt : String → Event → Payload
rebuilt previous e = record {
  id = e.id;
  sequence_number = e.sequence_number;
  occurred_at = e.occurred_at;
  request_id = e.request_id;
  actor_id = e.actor_id;
  auth_type = e.auth_type;
  roles = e.roles;
  action = e.action;
  resource_type = e.resource_type;
  resource_id = e.resource_id;
  method = e.method;
  path = e.path;
  status_code = e.status_code;
  client_address_hash = e.client_address_hash;
  user_agent_hash = e.user_agent_hash;
  details = e.details;
  previous_hash = previous;
  audit_key_id = named_key (stored_key_id e);
}

-- Rows that the constraints PRIMARY KEY and UNIQUE refuse beside `new`.
abbrev pub clashes : Event → Event → Bool
clashes new e =
    (e.id == new.id)
    || (e.sequence_number == new.sequence_number)
    || (e.event_hash == new.event_hash)

-- What `verify_chain` reports.
pub data Verdict : Type 0 where
  key_unavailable : ℕ → ℕ → ℕ → String → Verdict
  chain_mismatch : ℕ → ℕ → ℕ → Verdict
  checked : Bool → ℕ → Option ℕ → String → Verdict

module _ (h : Hmac) where
  open h use {digest, dumps}

  -- The payload of `append`, signed as it is written.
  pub signed : Keys → String → ℕ → Entry → Log → Payload
  signed ks i occurred_at n log = record {
    id = i;
    sequence_number = log.sequence_number + 1;
    occurred_at = occurred_at;
    request_id = take_chars 128 n.request_id;
    actor_id = take_chars 256 n.actor_id;
    auth_type = take_chars 32 n.auth_type;
    roles = normalized_roles n.roles;
    action = take_chars 128 n.action;
    resource_type = take_chars 128 n.resource_type;
    resource_id = bounded_id n.resource_id;
    method = take_chars 16 n.method;
    path = take_chars 1000 n.path;
    status_code = n.status_code;
    client_address_hash = digest ks.key (or_text n.client_address "unknown");
    user_agent_hash = digest ks.key (or_text n.user_agent "unknown");
    details = n.details;
    previous_hash = log.event_hash;
    audit_key_id = some ks.key_id;
  }

  pub written : Keys → Payload → Event
  written ks p = record {
    id = p.id;
    sequence_number = p.sequence_number;
    occurred_at = p.occurred_at;
    request_id = p.request_id;
    actor_id = p.actor_id;
    auth_type = p.auth_type;
    roles = p.roles;
    action = p.action;
    resource_type = p.resource_type;
    resource_id = p.resource_id;
    method = p.method;
    path = p.path;
    status_code = p.status_code;
    client_address_hash = p.client_address_hash;
    user_agent_hash = p.user_agent_hash;
    details = p.details;
    previous_hash = p.previous_hash;
    event_hash = digest ks.key (dumps p);
    audit_key_id = ks.key_id;
  }

  -- `none` is the INSERT's refusal, which rolls the transaction back.
  pub append : Keys → String → ℕ → Entry → Log → Option (Event × Log)
  append ks i occurred_at n log =
      let e = written ks (signed ks i occurred_at n log) in
      if any (clashes e) log.events
      then none
      else some (
        e,
        record {
          events = log.events ++ (e ∷ []);
          sequence_number = log.sequence_number + 1;
          event_hash = e.event_hash;
        },
      )

  -- The loop of `verify_chain`: the target, the state's hash, and then the loop's variables.
  pub verify_from : Keys → ℕ → String → String → ℕ → ℕ → List Event → Verdict
  verify_from ks target head previous expected verified [] =
      let valid = (target == verified) && (head == previous) in
      checked valid verified (if valid then none else some expected) previous
  verify_from ks target head previous expected verified (e ∷ es) =
      let rest = verify_from ks target head e.event_hash (expected + 1) (verified + 1) es in
      elim (key_for ks (stored_key_id e)) [
        | none ↦ key_unavailable target verified e.sequence_number (stored_key_id e)
        | some key ↦
            if (e.sequence_number == expected)
              && (e.previous_hash == previous)
              && (e.event_hash == digest key (dumps (rebuilt previous e)))
            then rest
            else chain_mismatch target verified e.sequence_number
      ]

  -- `WHERE sequence_number<=?`
  abbrev pub selected : Log → List Event
  selected log = keep (λ e. leb e.sequence_number log.sequence_number) log.events

  pub verify_chain : Keys → Log → Verdict
  verify_chain ks log = verify_from ks log.sequence_number log.event_hash "" 1 0 (selected log)
