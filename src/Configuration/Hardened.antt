-- ===== src/Configuration/Hardened.antt =====
-- What Settings.validate (fraudshield/core/config.py) accepts in production.
use Prim.Native.String.{len}
use boi.Prelude.{
  ◌≤◌, ◌≡◌, ◌⊎◌, ap, true, false, ◌||◌, ◌&&◌, not, none, List, [], ◌∷◌, ◌++◌, ◌==◌, string_eq,
  contains, any, arith, Bool-cases, inl, inr, All,
}
use boi.Configuration.Settings.{Settings, effective_database_url, is_postgresql}
use boi.Configuration.Checks.{
  Host, Check, first_error, in_production, is_https, is_nil, allowed_algorithms,
  authentication_checks, database_checks, storage_checks, audit_checks,
}
use boi.Configuration.Validate.{
  network_checks, model_checks, surface_checks, engine_checks, checks, validate,
}

-- Who may call: tokens under asymmetric algorithms from an issuer behind HTTPS, or a long key that
-- was allowed by hand.
abbrev pub IsAuthenticated : Settings → Type 0
IsAuthenticated s =
    ((s.auth_mode == "oidc") ≡ true)
      × (is_https s.oidc_issuer ≡ true)
      × (is_https s.oidc_jwks_url ≡ true)
      × (is_nil s.oidc_algorithms ≡ false)
      × (any (λ a. not (contains a allowed_algorithms)) s.oidc_algorithms ≡ false)
    ⊎ ((s.auth_mode == "api_key") ≡ true)
      × (32 ≤ len s.api_key)
      × (s.allow_legacy_api_key_in_production ≡ true)

-- Where data goes: to a database whose certificate is verified, and to an encrypted bucket.
abbrev pub IsStored : Host → Settings → Type 0
IsStored host s =
    (is_postgresql s ≡ true)
    × ((host.first_option (effective_database_url s) "sslmode" == "verify-full") ≡ true)
    × ((s.storage_backend == "s3") ≡ true)
    × ((s.s3_bucket == "") ≡ false)
    × ((s.s3_kms_key_id == "") ≡ false)
    × (((s.s3_endpoint_url == "") || is_https s.s3_endpoint_url) ≡ true)

-- What is kept of what happened.
abbrev pub IsAudited : Settings → Type 0
IsAudited s =
    (32 ≤ len s.audit_hmac_key) × (180 ≤ s.audit_retention_days) × (s.metrics_enabled ≡ true)

-- Which browsers and proxies are trusted, and what is not offered at all.
abbrev pub IsClosed : Settings → Type 0
IsClosed s =
    (contains "*" s.trusted_hosts ≡ false)
    × ((s.forwarded_allow_ips == "*") ≡ false)
    × (contains "*" s.cors_origins ≡ false)
    × (any (λ o. not (is_https o)) s.cors_origins ≡ false)
    × (s.docs_enabled ≡ false)
    × (s.legacy_api_enabled ≡ false)
    × (s.inline_analysis_enabled ≡ false)

-- What leaves for other services was approved.
abbrev pub IsApproved : Settings → Type 0
IsApproved s =
    (((s.llm_provider == "disabled") || s.allow_external_llm_in_production) ≡ true)
    × ((not s.reputation_enabled || s.allow_external_reputation_in_production) ≡ true)
    × ((not s.mobsf_enabled || (is_https s.mobsf_url && s.mobsf_allow_binary_transfer)) ≡ true)

abbrev pub Passed : List Check → Type 0
Passed = All λ c. c.0 ≡ false

pub first_error-none : (cs : List Check) → first_error cs ≡ none → Passed cs
unfolding first_error
first_error-none [] h = tt
first_error-none ((bad, message) ∷ cs) h = elim (Bool-cases bad) [
  | inl bad_holds ↦ cc (rw bad_holds at h)
  | inr fine ↦ (fine, first_error-none cs (rw fine at h))
]

pub Passed-split : (xs ys : List Check) → Passed (xs ++ ys) → Passed xs × Passed ys
Passed-split [] ys h = (tt, h)
Passed-split (x ∷ xs) ys (h, t) = let (a, b) = Passed-split xs ys t in ((h, a), b)

IsAuthenticated-Passed :
    (s : Settings) → Passed (authentication_checks s) → in_production s ≡ true → IsAuthenticated s
unfolding authentication_checks
IsAuthenticated-Passed s
      (_, (mode, (disabled, (_, (short, (flag, (_, (algorithms, (https, _))))))))) p =
    elim (Bool-cases (s.auth_mode == "oidc")) [
      | inl oidc ↦ inl (oidc, ground arith, ground arith, ground arith, ground arith)
      | inr other ↦ inr (ground arith, ground arith, ground arith)
    ]

IsStored-Passed :
    (host : Host) (s : Settings)
    → Passed (database_checks host s)
    → Passed (storage_checks s)
    → in_production s ≡ true
    → IsStored host s
unfolding database_checks storage_checks
IsStored-Passed host s (postgres, (_, (_, (ssl, _)))) (_, (bucket, (_, (s3, (endpoint, (kms, _))))))
      p =
    (ground arith, ground arith, ground arith, ground arith, ground arith, ground arith)

IsAudited-Passed : (s : Settings) → Passed (audit_checks s) → in_production s ≡ true → IsAudited s
unfolding audit_checks
IsAudited-Passed s (key, (_, (_, (days, (metrics, _))))) p =
    (ground arith, ground arith, ground arith)

IsClosed-Passed :
    (s : Settings)
    → Passed (network_checks s)
    → Passed (surface_checks s)
    → in_production s ≡ true
    → IsClosed s
unfolding network_checks surface_checks
IsClosed-Passed s (hosts, (_, (forwarded, _))) (cors, (_, (origins, (docs, (legacy, (inline, _))))))
      p =
    (ground arith, ground arith, cors, ground arith, ground arith, ground arith, ground arith)

IsApproved-Passed :
    (host : Host) (s : Settings)
    → Passed (model_checks s)
    → Passed (engine_checks host s)
    → in_production s ≡ true
    → IsApproved s
unfolding model_checks engine_checks
IsApproved-Passed host s (_, (llm, _)) (_, (_, (_, (transfer, (https, (reputation, _)))))) p =
    (ground arith, ground arith, ground arith)

-- Whatever `validate` accepts in production is safe to run. Its callers are authenticated by tokens
-- under approved asymmetric algorithms from an issuer and keys behind HTTPS, or by an API key of at
-- least 32 characters in a mode that was allowed by hand. Its database is PostgreSQL under
-- sslmode=verify-full, its storage a bucket of S3 with a KMS key and an endpoint, if any, behind
-- HTTPS. Its audit key has at least 32 characters, events are kept for 180 days or more, and metrics
-- are on. Hosts, proxies and origins have no wildcard, origins are HTTPS, and the docs, the legacy
-- API and inline analyses are off. A language model, the lookup of hashes and MobSF are off or
-- approved, and MobSF is behind HTTPS.
pub validate-IsHardened :
    (host : Host) (s : Settings)
    → s.environment ≡ "production"
    → validate host s ≡ none
    → IsAuthenticated s × IsStored host s × IsAudited s × IsClosed s × IsApproved s
unfolding validate checks
validate-IsHardened host s production accepted =
    let p = ap (λ e. e == "production") production in
    let (auth, r1) = Passed-split (authentication_checks s) _ (first_error-none _ accepted) in
    let (database, r2) = Passed-split (database_checks host s) _ r1 in
    let (storage, r3) = Passed-split (storage_checks s) _ r2 in
    let (audit, r4) = Passed-split (audit_checks s) _ r3 in
    let (network, r5) = Passed-split (network_checks s) _ r4 in
    let (model, r6) = Passed-split (model_checks s) _ r5 in
    let (surface, engines) = Passed-split (surface_checks s) _ r6 in
    (
      IsAuthenticated-Passed s auth p,
      IsStored-Passed host s database storage p,
      IsAudited-Passed s audit p,
      IsClosed-Passed s network surface p,
      IsApproved-Passed host s model engines p,
    )

-- The part of the checks on the audit keys, which the keyring stands on.
pub validate-audit_checks :
    (host : Host) (s : Settings) → validate host s ≡ none → Passed (audit_checks s)
unfolding validate checks
validate-audit_checks host s accepted =
    let (_, r1) = Passed-split (authentication_checks s) _ (first_error-none _ accepted) in
    let (_, r2) = Passed-split (database_checks host s) _ r1 in
    let (_, r3) = Passed-split (storage_checks s) _ r2 in (Passed-split (audit_checks s) _ r3).0
