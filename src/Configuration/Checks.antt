-- ===== src/Configuration/Checks.antt =====
-- The first half of Settings.validate (fraudshield/core/config.py), up to the settings of the audit
-- chain: RuntimeErrors in their order, each with the condition that raises it. urlsplit, parse_qs and
-- the file system are parameters; a database URL on which urlsplit raises is left out.
use Prim.Native.String.{◌++◌ as cat, len}
use boi.Prelude.{
  String, Bool, true, false, ◌&&◌, ◌||◌, not, Option, none, some, List, [], ◌∷◌, ◌==◌, string_eq,
  nat_eq, ltb, leb, any, contains, every_code, between, starts_with, if◌then◌else◌,
}
use boi.Configuration.Settings.{Settings, effective_database_url, is_postgresql, partition}

-- The scheme of a URL, the first value of an option in its query ("" where it has none), and whether
-- a path names a file.
pub record Host : Type 0 where
  pub scheme : String → String
  pub first_option : String → String → String
  pub is_file : String → Bool

-- `if condition: raise RuntimeError(message)`
abbrev pub Check : Type 0
Check = Bool × String

unfoldable pub first_error : List Check → Option String
first_error [] = none
first_error ((bad, message) ∷ checks) =
    let later = first_error checks in if bad then some message else later

abbrev pub in_production : Settings → Bool
in_production s = s.environment == "production"

abbrev pub is_empty : String → Bool
is_empty s = s == ""

abbrev pub is_web_url : String → Bool
is_web_url s = starts_with s "http://" || starts_with s "https://"

abbrev pub is_https : String → Bool
is_https s = starts_with s "https://"

-- `[A-Za-z0-9._-]{1,64}` and `[0-9a-fA-F]{64}` of a whole text
unfoldable pub is_key_id : String → Bool
is_key_id s =
    leb 1 (len s)
    && leb (len s) 64
    && every_code
        (λ n.
          between b'A' b'Z' n
          || between b'a' b'z' n
          || between b'0' b'9' n
          || n == b'.'
          || n == b'_'
          || n == b'-')
        s

unfoldable pub is_fingerprint : String → Bool
is_fingerprint s =
    len s == 64
    && every_code (λ n. between b'0' b'9' n || between b'a' b'f' n || between b'A' b'F' n) s

unfoldable pub join_missing : List (String × String) → List String
join_missing [] = []
join_missing ((name, value) ∷ rest) =
    let later = join_missing rest in if is_empty value then name ∷ later else later

-- `", ".join(names)`
unfoldable pub comma_joined : List String → String
comma_joined [] = ""
comma_joined (name ∷ []) = name
comma_joined (name ∷ (next ∷ names)) = cat name (cat ", " (comma_joined (next ∷ names)))

abbrev pub missing : Settings → List String
missing s = join_missing (
    ("FRAUDSHIELD_OIDC_ISSUER", s.oidc_issuer)
    ∷ ("FRAUDSHIELD_OIDC_AUDIENCE", s.oidc_audience)
    ∷ ("FRAUDSHIELD_OIDC_JWKS_URL", s.oidc_jwks_url)
    ∷ [])

abbrev pub is_nil : List String → Bool
is_nil [] = true
is_nil (x ∷ xs) = false

abbrev pub allowed_algorithms : List String
allowed_algorithms =
    "RS256" ∷ "RS384" ∷ "RS512" ∷ "PS256" ∷ "PS384" ∷ "PS512" ∷ "ES256" ∷ "ES384" ∷ "ES512" ∷ []

unfoldable pub authentication_checks : Settings → List Check
authentication_checks s =
    let legacy = s.auth_mode == "api_key" && in_production s in
    let oidc = s.auth_mode == "oidc" in
    (
      not (contains s.environment ("development" ∷ "test" ∷ "production" ∷ [])),
      "FRAUDSHIELD_ENV must be development, test, or production",
    )
    ∷ (
      not (contains s.auth_mode ("disabled" ∷ "api_key" ∷ "oidc" ∷ [])),
      "FRAUDSHIELD_AUTH_MODE must be disabled, api_key, or oidc",
    )
    ∷ (
      s.auth_mode == "disabled" && in_production s,
      "FRAUDSHIELD_AUTH_MODE=disabled is forbidden in production",
    )
    ∷ (legacy && is_empty s.api_key, "FRAUDSHIELD_API_KEY is required in production API-key mode")
    ∷ (
      legacy && ltb (len s.api_key) 32,
      "FRAUDSHIELD_API_KEY must contain at least 32 characters in production",
    )
    ∷ (
      legacy && not s.allow_legacy_api_key_in_production,
      "Production requires OIDC; legacy API-key mode needs the explicit FRAUDSHIELD_ALLOW_LEGACY_API_KEY_IN_PRODUCTION break-glass flag",
    )
    ∷ (
      oidc && not (is_nil (missing s)),
      cat "OIDC configuration is incomplete: " (comma_joined (missing s)),
    )
    ∷ (
      oidc
          && (is_nil s.oidc_algorithms
              || any (λ a. not (contains a allowed_algorithms)) s.oidc_algorithms),
      "FRAUDSHIELD_OIDC_ALGORITHMS must contain only approved asymmetric algorithms",
    )
    ∷ (
      oidc && (in_production s && (not (is_https s.oidc_issuer) || not (is_https s.oidc_jwks_url))),
      "Production OIDC issuer and JWKS URL must use HTTPS",
    )
    ∷ []

unfoldable pub database_checks : Host → Settings → List Check
database_checks host s =
    let url = effective_database_url s in
    (
      in_production s && not (is_postgresql s),
      "FRAUDSHIELD_DATABASE_URL must use PostgreSQL in production",
    )
    ∷ (
      not (contains (host.scheme url) ("sqlite" ∷ "postgresql" ∷ "postgres" ∷ [])),
      "FRAUDSHIELD_DATABASE_URL must use sqlite or postgresql",
    )
    ∷ (
      ltb s.database_pool_max_size s.database_pool_min_size,
      "Database pool minimum cannot exceed maximum",
    )
    ∷ (
      in_production s && not (host.first_option url "sslmode" == "verify-full"),
      "Production PostgreSQL requires sslmode=verify-full in FRAUDSHIELD_DATABASE_URL",
    )
    ∷ []

unfoldable pub storage_checks : Settings → List Check
storage_checks s =
    let endpoint = not (is_empty s.s3_endpoint_url) in
    (
      not (contains s.storage_backend ("local" ∷ "s3" ∷ [])),
      "FRAUDSHIELD_STORAGE_BACKEND must be local or s3",
    )
    ∷ (
      s.storage_backend == "s3" && is_empty s.s3_bucket,
      "FRAUDSHIELD_S3_BUCKET is required for S3 storage",
    )
    ∷ (
      endpoint && not (is_web_url s.s3_endpoint_url),
      "FRAUDSHIELD_S3_ENDPOINT_URL must be an HTTP(S) URL",
    )
    ∷ (
      in_production s && not (s.storage_backend == "s3"),
      "FRAUDSHIELD_STORAGE_BACKEND must be s3 in production",
    )
    ∷ (
      in_production s && (endpoint && not (is_https s.s3_endpoint_url)),
      "Production S3-compatible endpoints must use HTTPS",
    )
    ∷ (
      in_production s && is_empty s.s3_kms_key_id,
      "FRAUDSHIELD_S3_KMS_KEY_ID is required in production",
    )
    ∷ []

-- A previous key, under the id of the current one, that is refused.
unfoldable pub is_invalid_previous : String → Option (String × String) → Bool
is_invalid_previous current none = true
is_invalid_previous current (some (key_id, secret)) =
    not (is_key_id key_id) || ltb (len secret) 32 || key_id == current

unfoldable pub audit_checks : Settings → List Check
audit_checks s =
    (
      in_production s && ltb (len s.audit_hmac_key) 32,
      "FRAUDSHIELD_AUDIT_HMAC_KEY must contain at least 32 characters in production",
    )
    ∷ (not (is_key_id s.audit_hmac_key_id), "FRAUDSHIELD_AUDIT_HMAC_KEY_ID is invalid")
    ∷ (
      any (λ e. is_invalid_previous s.audit_hmac_key_id (partition e)) s.audit_hmac_previous_keys,
      "FRAUDSHIELD_AUDIT_HMAC_PREVIOUS_KEYS contains an invalid entry",
    )
    ∷ (
      in_production s && ltb s.audit_retention_days 180,
      "FRAUDSHIELD_AUDIT_RETENTION_DAYS cannot be below 180 in production",
    )
    ∷ (
      in_production s && not s.metrics_enabled,
      "FRAUDSHIELD_METRICS_ENABLED must be true in production",
    )
    ∷ []
