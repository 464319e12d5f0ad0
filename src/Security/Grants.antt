-- ===== src/Security/Grants.antt =====
-- Who gets through `require_api_key` (fraudshield/core/security.py): what the roles allow, and
-- where the roles come from.
use text.Mathlib.Text.{starts_with}
use boi.Prelude.{
  ends_with, subst, ◌≡◌, ◌≢◌, ◌↔◌, refl, sym, ap, ◌∙◌, String, Bool, true, false, ◌||◌, Option,
  none, some, List, [], ◌∷◌, ◌==◌, string_eq, contains, All, arith, Bool-cases, true_not_false,
  if◌then◌else◌, inl, inr,
}
use boi.Security.Roles.{role_permissions, permits}
use boi.Security.Requests.{
  Principal, api_key, Settings, Request, Outcome, granted, refused, Oidc, is_wrong_key,
  authenticate_key, authenticate, authenticate_request, permission_for_request, with_permission,
  require_api_key,
}

-- One role allows a permission.
abbrev allows : String → String → Bool
allows role permission =
    contains "*" (role_permissions role) || contains permission (role_permissions role)

-- Only the role admin holds a permission that no other role names.
allows_admin : (role : String) → allows role "admin" ≡ true → (role == "admin") ≡ true
unfolding role_permissions
allows_admin role h = ground arith

permits_admin : (rs : List String) → permits rs "admin" ≡ true → contains "admin" rs ≡ true
unfolding permits
permits_admin [] h = absurd (true_not_false (sym h))
permits_admin (r ∷ rs) h = elim (Bool-cases (allows r "admin")) [
  | inl hit ↦
      ground
        (arith, allows_admin r hit, string_eq.equals_iff r "admin", string_eq.equals_iff "admin" r)
  | inr miss ↦ ground (arith, permits_admin rs (ground arith))
]

abbrev IsViewer : String → Type 0
IsViewer role = role ≡ "viewer"

literals_differ : (a b : String) → (a == b) ≡ false → a ≢ b
literals_differ a b n e = true_not_false (sym ((string_eq.equals_iff a b).1 e) ∙ n)

viewer_allows :
    (r permission : String) → r ≡ "viewer" → allows r permission ≡ true → permission ≡ "read"
unfolding role_permissions
viewer_allows r permission e h =
    (string_eq.equals_iff permission "read").0
      (ground (arith, ap (λ x. allows x permission) (sym e) ∙ h))

viewer_reads :
    (rs : List String) (permission : String)
    → All IsViewer rs
    → permits rs permission ≡ true
    → permission ≡ "read"
unfolding permits
viewer_reads [] permission v h = absurd (true_not_false (sym h))
viewer_reads (r ∷ rs) permission v h = elim (Bool-cases (allows r permission)) [
  | inl hit ↦ viewer_allows r permission v.0 hit
  | inr miss ↦ viewer_reads rs permission v.1 (ground (arith, miss))
]

-- The permissions of everything but reading and the audit events.
never_reads :
    (a b c d e : Bool)
    → let permission : String =
        if a
        then (if b then "admin" else "analysis:run")
        else if c
        then "analysis:run"
        else if d
        then "indicator:write"
        else if e
        then "analysis:run"
        else "admin" in
      permission ≢ "read"
never_reads true true c d e h = literals_differ "admin" "read" refl h
never_reads true false c d e h = literals_differ "analysis:run" "read" refl h
never_reads false b true d e h = literals_differ "analysis:run" "read" refl h
never_reads false b false true e h = literals_differ "indicator:write" "read" refl h
never_reads false b false false true h = literals_differ "analysis:run" "read" refl h
never_reads false b false false false h = literals_differ "admin" "read" refl h

module _ (o : Oidc) where
  with_permission_iff :
      (permission : String) (outcome : Outcome) (p : Principal)
      → (with_permission o permission outcome ≡ granted p)
        ↔ ((outcome ≡ granted p) × (permits p.roles permission ≡ true))
  unfolding with_permission
  with_permission_iff permission (refused code) p = (λ h. cc, λ h. cc)
  with_permission_iff permission (granted q) p = elim (Bool-cases (permits q.roles permission)) [
    | inl allowed ↦ rw allowed (
      λ h. (h, ap (λ (x : Principal). permits x.roles permission) (sym (granted_inj h)) ∙ allowed),
      λ h. h.0,
    )
    | inr denied ↦ rw denied (
      λ h. cc,
      λ h. absurd (
          true_not_false (
            sym h.1
            ∙ ap (λ (x : Principal). permits x.roles permission) (sym (granted_inj h.0))
            ∙ denied)),
    )
  ]
    where
      granted_inj : {a b : Principal} → granted a ≡ granted b → a ≡ b
      granted_inj e = cc

  -- A request gets through exactly where its sender is authenticated and one of the roles permits
  -- what the request needs.
  pub require_api_key_iff :
      (s : Settings) (r : Request) (p : Principal)
      → (require_api_key o s r ≡ granted p) ↔ (
          (authenticate_request o s r ≡ granted p)
          × (permits p.roles (permission_for_request o r) ≡ true))
  unfolding require_api_key
  require_api_key_iff s r p =
      with_permission_iff (permission_for_request o r) (authenticate_request o s r) p

  operator_permission :
      (r : Request)
      → starts_with r.path "/api/v1/jobs" ≡ true
      → (ends_with r.path "/cancel" || ends_with r.path "/retry") ≡ true
      → starts_with r.path "/api/v1/audit-events" ≡ false
      → contains r.method ("GET" ∷ "HEAD" ∷ "OPTIONS" ∷ []) ≡ false
      → permission_for_request o r ≡ "admin"
  unfolding permission_for_request
  operator_permission r jobs tail audit method = rw (audit, method, jobs, tail) refl

  -- Only an administrator cancels or retries a job: a request to a path of jobs that ends in
  -- `/cancel` or `/retry`, by a method that does more than read, gets through only for a principal
  -- with the role admin. (The path is none of the audit events, which have a rule of their own.)
  pub operators_are_admins :
      (s : Settings) (r : Request) (p : Principal)
      → starts_with r.path "/api/v1/jobs" ≡ true
      → (ends_with r.path "/cancel" || ends_with r.path "/retry") ≡ true
      → starts_with r.path "/api/v1/audit-events" ≡ false
      → contains r.method ("GET" ∷ "HEAD" ∷ "OPTIONS" ∷ []) ≡ false
      → require_api_key o s r ≡ granted p
      → contains "admin" p.roles ≡ true
  operators_are_admins s r p jobs tail audit method h = permits_admin p.roles (
      subst (λ x. permits p.roles x ≡ true) (operator_permission r jobs tail audit method)
        ((require_api_key_iff s r p).0 h).1)

  reading_permission :
      (r : Request)
      → permission_for_request o r ≡ "read"
      → (contains r.method ("GET" ∷ "HEAD" ∷ "OPTIONS" ∷ []) ≡ true)
        × (starts_with r.path "/api/v1/audit-events" ≡ false)
  unfolding permission_for_request
  reading_permission r h = elim (Bool-cases (starts_with r.path "/api/v1/audit-events")) [
    | inl audit ↦ absurd (literals_differ "audit:read" "read" refl (rw audit at h))
    | inr other ↦ elim (Bool-cases (contains r.method ("GET" ∷ "HEAD" ∷ "OPTIONS" ∷ []))) [
      | inl reads ↦ (reads, other)
      | inr writes ↦
          absurd (never_reads (starts_with r.path "/api/v1/jobs") _ _ _ _ (rw (other, writes) at h))
    ]
  ]

  -- A viewer only reads: a request that gets through for a principal whose roles are all viewer has
  -- the method GET, HEAD or OPTIONS, and is not for the audit events.
  pub viewers_read :
      (s : Settings) (r : Request) (p : Principal)
      → require_api_key o s r ≡ granted p
      → All IsViewer p.roles
      → (contains r.method ("GET" ∷ "HEAD" ∷ "OPTIONS" ∷ []) ≡ true)
        × (starts_with r.path "/api/v1/audit-events" ≡ false)
  viewers_read s r p h v =
      reading_permission r
        (viewer_reads p.roles (permission_for_request o r) v ((require_api_key_iff s r p).0 h).1)

  -- `_` stands for a key that is set.
  key_decides :
      (key : String) (given : Option String)
      → (key == "") ≡ false
      → (given ≡ some key → is_wrong_key o key given ≡ false)
        × (given ≢ some key → is_wrong_key o key given ≡ true)
  unfolding is_wrong_key
  key_decides key none set = (λ e. cc, λ n. refl)
  key_decides key (some g) set = (
    λ e.
        let same : g ≡ key = some_inj e in
        rw (same, set, (string_eq.equals_iff key key).1 refl) refl,
    λ n. elim (Bool-cases (g == key)) [
      | inl same ↦ absurd (n (ap some ((string_eq.equals_iff g key).0 same)))
      | inr other ↦ ground arith
    ],
  )
    where
      some_inj : {a b : String} → some a ≡ some b → a ≡ b
      some_inj e = cc

  -- Where a key is set, a request in the mode `api_key` is authenticated exactly where it brings
  -- that key, as an administrator, and is refused with the status 401 in every other case.
  pub api_key_decides :
      (s : Settings) (r : Request)
      → s.auth_mode ≡ api_key
      → s.api_key ≢ ""
      → (r.x_api_key ≡ some s.api_key
          → authenticate_request o s r
            ≡ granted (record {
              subject = "service-api-key";
              roles = "admin" ∷ [];
              auth_type = "api_key";
            }))
        × (r.x_api_key ≢ some s.api_key → authenticate_request o s r ≡ refused 401)
  unfolding authenticate_request authenticate authenticate_key
  api_key_decides s r mode set =
      let there : (s.api_key == "") ≡ false = elim (Bool-cases (s.api_key == "")) [
        | inl blank ↦ absurd (set ((string_eq.equals_iff s.api_key "").0 blank))
        | inr n ↦ n
      ] in
      let (right, wrong) = key_decides s.api_key r.x_api_key there in
      (λ e. rw (mode, there, right e) refl, λ n. rw (mode, there, wrong n) refl)
