-- ===== src/Security/Requests.antt =====
-- `authenticate_request`, `permission_for_request`, `require_api_key` and `require_roles`
-- (fraudshield/core/security.py).
use Prim.Native.String.{find, len, slice}
use text.Mathlib.Text.{starts_with}
use boi.Prelude.{
  ends_with, ℕ, ◌+◌, String, Bool, true, false, ◌||◌, not, Option, none, some, List, [], ◌∷◌, ◌==◌,
  string_eq, any, contains, take_chars, if◌then◌else◌,
}
use boi.Security.Roles.{
  permits, Json, string, items, object, other, Fields, no_fields, field, Words, roles,
}

pub record Principal : Type 0 where
  pub subject : String
  pub roles : List String
  pub auth_type : String

-- `settings.auth_mode`
pub data AuthMode : Type 0 where
  disabled api_key oidc : AuthMode

-- The names of the claims are split at their dots.
pub record Settings : Type 0 where
  pub auth_mode : AuthMode
  pub api_key : String
  pub subject_claim : List String
  pub roles_claim : List String

-- `method` is in upper case.
pub record Request : Type 0 where
  pub method : String
  pub path : String
  pub authorization : Option String
  pub x_api_key : Option String

-- The HTTPException: its status code.
pub data Outcome : Type 0 where
  granted : Principal → Outcome
  refused : ℕ → Outcome

-- What stands outside: `_decode_oidc_token`, which ends in a status code or the claims, and `str`
-- of a claim that is no text.
pub record Oidc : Type 0 where
  pub words : Words
  pub decode : String → Option Json
  pub decode_status : String → ℕ
  pub shown : Json → String

abbrev pub local_admin : Principal
local_admin = record { subject = "local-development"; roles = "admin" ∷ []; auth_type = "disabled" }

unfoldable pub field_of : String → Fields → Option Json
field_of name no_fields = none
field_of name (field k v rest) = if k == name then some v else field_of name rest

abbrev pub member : String → Json → Option Json
member name (object fields) = field_of name fields
member name _ = none

-- `_claim`
unfoldable pub claim_at : List String → Json → Option Json
claim_at [] value = some value
claim_at (part ∷ parts) value = elim (member part value) [ none ↦ none | some v ↦ claim_at parts v ]

-- A claim as a truth value.
unfoldable pub is_truthy : Json → Bool
is_truthy (string s) = not (s == "")
is_truthy (items []) = false
is_truthy (items (s ∷ ss)) = true
is_truthy (object no_fields) = false
is_truthy (object (field k v rest)) = true
is_truthy (other s b) = b

abbrev pub is_missing : Option Json → Bool
is_missing none = true
is_missing (some v) = not (is_truthy v)

module _ (o : Oidc) where
  abbrev pub roles_of : Option Json → List String
  roles_of none = []
  roles_of (some v) = roles o.words v

  abbrev pub shown_subject : Option Json → String
  shown_subject none = ""
  shown_subject (some v) = take_chars 256 (o.shown v)

  -- The OIDC branch, from the decoded claims on.
  unfoldable pub principal_of : Settings → Json → Outcome
  principal_of s claims =
      let subject = claim_at s.subject_claim claims in
      let granted_roles = roles_of (claim_at s.roles_claim claims) in
      if is_missing subject || not (any (λ r. true) granted_roles)
      then refused 403
      else granted
          (record { subject = shown_subject subject; roles = granted_roles; auth_type = "oidc" })

  -- The token of a header `Authorization: Bearer …`: the header is parted at its first blank.
  unfoldable pub bearer_of : Option String → Option String
  bearer_of none = none
  bearer_of (some header) =
      let blank = find header " " in
      let token = slice header (blank + 1) (len header) in
      if not (o.words.lower (slice header 0 blank) == "bearer") || token == ""
      then none
      else some token

  unfoldable pub with_claims : Settings → ℕ → Option Json → Outcome
  with_claims s code none = refused code
  with_claims s code (some claims) = principal_of s claims

  unfoldable pub authenticate_oidc : Settings → Option String → Outcome
  authenticate_oidc s none = refused 401
  authenticate_oidc s (some token) = with_claims s (o.decode_status token) (o.decode token)

  -- `not x_api_key or not hmac.compare_digest(x_api_key, settings.api_key)`
  unfoldable pub is_wrong_key : String → Option String → Bool
  is_wrong_key key none = true
  is_wrong_key key (some given) = given == "" || not (given == key)

  unfoldable pub authenticate_key : Settings → Option String → Outcome
  authenticate_key s given =
      if s.api_key == ""
      then granted local_admin
      else if is_wrong_key s.api_key given
      then refused 401
      else granted
          (record { subject = "service-api-key"; roles = "admin" ∷ []; auth_type = "api_key" })

  unfoldable pub authenticate : AuthMode → Settings → Request → Outcome
  authenticate disabled s r = granted local_admin
  authenticate api_key s r = authenticate_key s r.x_api_key
  authenticate oidc s r = authenticate_oidc s (bearer_of r.authorization)

  unfoldable pub authenticate_request : Settings → Request → Outcome
  authenticate_request s r = authenticate s.auth_mode s r

  unfoldable pub permission_for_request : Request → String
  permission_for_request r =
      if starts_with r.path "/api/v1/audit-events"
      then "audit:read"
      else if contains r.method ("GET" ∷ "HEAD" ∷ "OPTIONS" ∷ [])
      then "read"
      else if starts_with r.path "/api/v1/jobs"
      then if ends_with r.path "/cancel" || ends_with r.path "/retry"
        then "admin"
        else "analysis:run"
      else if r.path == "/api/v1/method-review"
      then "analysis:run"
      else if starts_with r.path "/api/v1/indicators"
      then "indicator:write"
      else if starts_with r.path "/api/v1/apk-analyses"
          || starts_with r.path "/api/v1/deceptiscope"
          || starts_with r.path "/analyze-apk"
      then "analysis:run"
      else "admin"

  -- `if not principal.permits(permission)`
  unfoldable pub with_permission : String → Outcome → Outcome
  with_permission permission (refused code) = refused code
  with_permission permission (granted p) =
      if permits p.roles permission then granted p else refused 403

  unfoldable pub require_api_key : Settings → Request → Outcome
  require_api_key s r = with_permission (permission_for_request r) (authenticate_request s r)

  unfoldable pub with_roles : List String → Outcome → Outcome
  with_roles allowed (refused code) = refused code
  with_roles allowed (granted p) =
      if any (λ role. contains role p.roles) allowed then granted p else refused 403

  unfoldable pub require_roles : List String → Settings → Request → Outcome
  require_roles allowed s r = with_roles allowed (authenticate_request s r)
