-- ===== src/Security/Tokens.antt =====
-- The principal of a Bearer token (fraudshield/core/security.py): which roles it may have.
use boi.Prelude.{
  ℕ, ◌≡◌, refl, sym, ap, ◌∙◌, String, Bool, true, false, ◌||◌, not, Option, none, some, List, [],
  ◌∷◌, map, ◌==◌, string_eq, any, keep, contains, arith, Bool-cases, inl, inr,
}
use boi.Audit.{add_role, comes_before}
use boi.Security.Roles.{known_roles, Json, Words, candidates, without_prefixes, sorted_set, roles}
use boi.Security.Requests.{
  bearer_of, with_claims, Principal, oidc, Settings, Request, granted, Oidc, claim_at, is_missing,
  roles_of, principal_of, authenticate_oidc, authenticate, authenticate_request,
}

-- A sorted set holds what its list does.
contains-add_role :
    (s a : String) (bs : List String)
    → contains s (add_role a bs) ≡ true
    → (s == a || contains s bs) ≡ true
contains-add_role s a [] h = h
contains-add_role s a (b ∷ bs) h = elim (Bool-cases (a == b)) [
  | inl same ↦ ground (arith, same)
  | inr other ↦ elim (Bool-cases (comes_before a b)) [
    | inl front ↦ ground (arith, other, front)
    | inr behind ↦ ground (arith, other, behind, contains-add_role s a bs)
  ]
]

pub contains-sorted_set :
    (s : String) (ss : List String) → contains s (sorted_set ss) ≡ true → contains s ss ≡ true
unfolding sorted_set
contains-sorted_set s [] h = h
contains-sorted_set s (t ∷ ss) h =
    ground (arith, contains-add_role s t (sorted_set ss) h, contains-sorted_set s ss)

contains-keep :
    (p : String → Bool) (s : String) (ss : List String) → contains s (keep p ss) ≡ true → p s ≡ true
contains-keep p s [] h = cc
contains-keep p s (t ∷ ss) h = elim (Bool-cases (p t)) [
  | inl hit ↦ elim (Bool-cases (s == t)) [
    | inl same ↦ ap p ((string_eq.equals_iff s t).0 same) ∙ hit
    | inr other ↦ contains-keep p s ss (ground (arith, hit, other))
  ]
  | inr miss ↦ contains-keep p s ss (ground (arith, miss))
]

known :
    (w : Words) (v : Json) (r : String)
    → contains r (roles w v) ≡ true
    → contains r known_roles ≡ true
unfolding roles
known w v r h =
    contains-keep (λ role. contains role known_roles) r
      (map (λ c. without_prefixes (w.tidy c)) (candidates w v)) (contains-sorted_set r _ h)

module _ (o : Oidc) where
  known_of :
      (c : Option Json) (r : String)
      → contains r (roles_of o c) ≡ true
      → contains r known_roles ≡ true
  known_of none r h = cc
  known_of (some v) r h = known o.words v r h

  roles_inj : (a b : Principal) → granted a ≡ granted b → a.roles ≡ b.roles
  roles_inj a b e = ap (λ (x : Principal). x.roles) (granted_inj e)
    where
      granted_inj : granted a ≡ granted b → a ≡ b
      granted_inj h = cc

  principal_of-granted :
      (s : Settings) (claims : Json) (p : Principal)
      → principal_of o s claims ≡ granted p
      → (p.roles ≡ roles_of o (claim_at s.roles_claim claims))
        × (is_missing (claim_at s.subject_claim claims) ≡ false)
        × (any (λ r. true) p.roles ≡ true)
  unfolding principal_of
  principal_of-granted s claims p h =
      let missing = is_missing (claim_at s.subject_claim claims) in
      let mine = roles_of o (claim_at s.roles_claim claims) in
      elim (Bool-cases (missing || not (any (λ r. true) mine))) [
        | inl bad ↦ cc (rw bad at h)
        | inr good ↦
            let same : mine ≡ p.roles = roles_inj _ p (rw good at h) in
            (sym same, ground (arith, good), ap (any (λ r. true)) (sym same) ∙ ground (arith, good))
      ]

  with_claims-granted :
      (s : Settings) (code : ℕ) (c : Option Json) (p : Principal)
      → with_claims o s code c ≡ granted p
      → (claims : Json) × (c ≡ some claims) × (principal_of o s claims ≡ granted p)
  unfolding with_claims
  with_claims-granted s code none p h = cc
  with_claims-granted s code (some claims) p h = (claims, refl, h)

  authenticate_oidc-granted :
      (s : Settings) (bearer : Option String) (p : Principal)
      → authenticate_oidc o s bearer ≡ granted p
      → (token : String) × (claims : Json) × (bearer ≡ some token)
        × (o.decode token ≡ some claims)
        × (principal_of o s claims ≡ granted p)
  unfolding authenticate_oidc
  authenticate_oidc-granted s none p h = cc
  authenticate_oidc-granted s (some token) p h =
      let (claims, decoded, made) = with_claims-granted s _ (o.decode token) p h in
      (token, claims, refl, decoded, made)

  -- The principal of a Bearer token. In the mode `oidc` a request is authenticated only with a
  -- token that the decoder accepts, whose claim of the subject is there and not empty; the
  -- principal's roles are those that the claim of the roles names, at least one, and each of them
  -- is a known role, whatever the token says.
  pub token_principal :
      (s : Settings) (r : Request) (p : Principal)
      → s.auth_mode ≡ oidc
      → authenticate_request o s r ≡ granted p
      → (token : String) × (claims : Json) × (bearer_of o r.authorization ≡ some token)
        × (o.decode token ≡ some claims)
        × (is_missing (claim_at s.subject_claim claims) ≡ false)
        × (p.roles ≡ roles_of o (claim_at s.roles_claim claims))
        × (any (λ r. true) p.roles ≡ true)
        × ((role : String) → contains role p.roles ≡ true → contains role known_roles ≡ true)
  unfolding authenticate_request authenticate
  token_principal s r p mode h =
      let (token, claims, sent, decoded, made) =
        authenticate_oidc-granted s (bearer_of o r.authorization) p
          (ap (λ m. authenticate o m s r) (sym mode) ∙ h) in
      let (same, subject, some_role) = principal_of-granted s claims p made in
      (
        token,
        claims,
        sent,
        decoded,
        subject,
        same,
        some_role,
        λ role m. known_of (claim_at s.roles_claim claims) role (ap (contains role) (sym same) ∙ m),
      )
