-- ===== src/Security/Examples.antt =====
-- The theorems on authentication at concrete requests, and tests of the permission that is asked.
use boi.Prelude.{
  take_chars, if◌then◌else◌, ◌==◌, ◌≡◌, ◌≢◌, refl, sym, String, true, false, Option, none, some, [],
  ◌∷◌, any, contains, string_eq, true_not_false,
}
use boi.Security.Roles.{
  Json, string, items, object, no_fields, field, permits, role_permissions, known_roles, roles,
  sorted_set, candidates, without_prefix, without_prefixes,
}
use boi.Security.Requests.{
  bearer_of, Principal, api_key, oidc, Settings, Request, granted, Oidc, claim_at, field_of,
  is_missing, is_truthy, roles_of, principal_of, with_claims, authenticate_oidc, is_wrong_key,
  authenticate_key, authenticate, authenticate_request, permission_for_request, with_permission,
  require_api_key,
}
use boi.Security.Grants.{operators_are_admins}
use boi.Security.Tokens.{token_principal}

-- A decoder that knows two tokens.
abbrev claims_of : String → Option Json
claims_of token =
    if token == "good"
    then some (
        object (
          field "sub" (string "ana")
            (field "roles" (items ("fraudshield:viewer" ∷ "owner" ∷ [])) no_fields)))
    else none

abbrev provider : Oidc
provider = record {
  words = record { split = λ s. s ∷ []; tidy = λ s. s; lower = λ s. s };
  decode = claims_of;
  decode_status = λ token. 401;
  shown = λ v. elim v [ string s ↦ s | _ ↦ "" ];
}

abbrev by_key : Settings
by_key = record {
  auth_mode = api_key;
  api_key = "secret";
  subject_claim = "sub" ∷ [];
  roles_claim = "roles" ∷ [];
}

abbrev by_token : Settings
by_token = record by_key { auth_mode = oidc }

abbrev cancel : Request
cancel = record {
  method = "POST";
  path = "/api/v1/jobs/j1/cancel";
  authorization = none;
  x_api_key = some "secret";
}

abbrev reading : Request
reading = record {
  method = "GET";
  path = "/api/v1/jobs/j1";
  authorization = some "bearer good";
  x_api_key = none;
}

abbrev service : Principal
service = record { subject = "service-api-key"; roles = "admin" ∷ []; auth_type = "api_key" }

abbrev ana : Principal
ana = record { subject = "ana"; roles = "viewer" ∷ []; auth_type = "oidc" }

service_cancels : require_api_key provider by_key cancel ≡ granted service
unfolding require_api_key with_permission permits role_permissions authenticate_request authenticate
    authenticate_key is_wrong_key permission_for_request
service_cancels = refl

ana_authenticated : authenticate_request provider by_token reading ≡ granted ana
unfolding authenticate_request authenticate authenticate_oidc bearer_of with_claims principal_of
    claim_at field_of is_truthy roles sorted_set candidates without_prefix without_prefixes
    take_chars
ana_authenticated = refl

ana_reads : require_api_key provider by_token reading ≡ granted ana
unfolding require_api_key with_permission permits role_permissions authenticate_request authenticate
    authenticate_oidc bearer_of with_claims principal_of claim_at field_of is_truthy roles
    sorted_set candidates without_prefix without_prefixes permission_for_request take_chars
ana_reads = refl

operators_are_admins_example : contains "admin" service.roles ≡ true
operators_are_admins_example =
    operators_are_admins provider by_key cancel service refl refl refl refl service_cancels

key_is_set : by_key.api_key ≢ ""
key_is_set e = true_not_false (sym ((string_eq.equals_iff "secret" "").1 e))

token_principal_example :
    (token : String) × (claims : Json) × (bearer_of provider reading.authorization ≡ some token)
    × (claims_of token ≡ some claims)
    × (is_missing (claim_at ("sub" ∷ []) claims) ≡ false)
    × (ana.roles ≡ roles_of provider (claim_at ("roles" ∷ []) claims))
    × (any (λ (r : String). true) ("viewer" ∷ []) ≡ true)
    × ((role : String) → contains role ("viewer" ∷ []) ≡ true → contains role known_roles ≡ true)
token_principal_example = token_principal provider by_token reading ana refl ana_authenticated
