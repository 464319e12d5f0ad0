-- ===== src/Security/Roles.antt =====
-- Roles, their permissions, and the roles that a token's claim names (fraudshield/core/security.py).
use Prim.Native.String.{len, slice}
use text.Mathlib.Text.{starts_with}
use boi.Prelude.{
  String, Bool, ◌||◌, List, [], ◌∷◌, map, ◌==◌, string_eq, any, keep, contains, if◌then◌else◌,
}
use boi.Audit.{add_role}

-- `KNOWN_ROLES`
abbrev pub known_roles : List String
known_roles = "viewer" ∷ "analyst" ∷ "investigator" ∷ "auditor" ∷ "admin" ∷ []

-- `ROLE_PERMISSIONS.get(role, frozenset())`
unfoldable pub role_permissions : String → List String
role_permissions role =
    if role == "viewer"
    then "read" ∷ []
    else if role == "analyst"
    then "read" ∷ "analysis:run" ∷ []
    else if role == "investigator"
    then "read" ∷ "analysis:run" ∷ "indicator:write" ∷ []
    else if role == "auditor"
    then "read" ∷ "audit:read" ∷ []
    else if role == "admin"
    then "*" ∷ []
    else []

-- `Principal.permits`
unfoldable pub permits : List String → String → Bool
permits roles permission =
    any
      (λ role. contains "*" (role_permissions role) || contains permission (role_permissions role))
      roles

-- A claim of the token, after JSON: `items` holds what `str` makes of the elements, and `other`
-- stands for numbers, Booleans and null: what `str` prints, and whether it counts as true.
mutual
  pub data Json : Type 0 where
    string : String → Json
    items : List String → Json
    object : Fields → Json
    other : String → Bool → Json

  pub data Fields : Type 0 where
    no_fields : Fields
    field : String → Json → Fields → Fields

-- Python's `re.split(r"[\s,]+", s)` `s.strip().lower()` and `s.lower()`.
pub record Words : Type 0 where
  pub split : String → List String
  pub tidy : String → String
  pub lower : String → String

-- `role[len(prefix):]`, where the prefix is there.
unfoldable pub without_prefix : String → String → String
without_prefix prefix role =
    if starts_with role prefix then slice role (len prefix) (len role) else role

-- The loop over the three prefixes.
unfoldable pub without_prefixes : String → String
without_prefixes role =
    without_prefix "fraudshield-"
      (without_prefix "fraudshield_" (without_prefix "fraudshield:" role))

-- `sorted` of a set of texts.
unfoldable pub sorted_set : List String → List String
sorted_set [] = []
sorted_set (s ∷ ss) = add_role s (sorted_set ss)

unfoldable pub candidates : Words → Json → List String
candidates w (string s) = w.split s
candidates w (items ss) = ss
candidates w (object _) = []
candidates w (other s b) = []

-- `_roles`
unfoldable pub roles : Words → Json → List String
roles w value = sorted_set (
    keep (λ role. contains role known_roles)
      (map (λ c. without_prefixes (w.tidy c)) (candidates w value)))
