-- ===== src/Configuration/Examples.antt =====
-- The validation at concrete settings (fraudshield/core/config.py).
use Prim.Native.String.{len}
use boi.Prelude.{
  take_chars, every_code, has_part, ◌≤◌, ◌≡◌, refl, String, true, false, none, some, [], ◌∷◌,
  string_eq, starts_with, if◌then◌else◌,
}
use boi.Audit.{lookup, key_for}
use boi.Configuration.Settings.{
  Settings, effective_database_url, is_postgresql, partition, assigned, with_entry, with_previous,
  audit_keyring,
}
use boi.Configuration.Checks.{
  Host, first_error, join_missing, comma_joined, is_key_id, is_invalid_previous,
  authentication_checks, database_checks, storage_checks, audit_checks,
}
use boi.Configuration.Validate.{
  network_checks, model_checks, surface_checks, engine_checks, checks, validate,
}
use boi.Configuration.Hardened.{
  IsAuthenticated, IsStored, IsAudited, IsClosed, IsApproved, validate-IsHardened,
}
use boi.Configuration.Keyring.{keys_of, audit_keyring-IsStrong}

abbrev host : Host
host = record {
  scheme = λ url. if starts_with url "postgresql:" then "postgresql" else "sqlite";
  first_option = λ url name. "verify-full";
  is_file = λ path. true;
}

abbrev production : Settings
production = record {
  environment = "production";
  database_path = "/data/fraudshield.db";
  database_url = "postgresql://db/fraudshield?sslmode=verify-full";
  database_pool_min_size = 2;
  database_pool_max_size = 10;
  storage_backend = "s3";
  s3_bucket = "packages";
  s3_endpoint_url = "";
  s3_kms_key_id = "kms-1";
  yara_rules_path = "/rules/banking.yar";
  yara_enabled = true;
  mobsf_enabled = false;
  mobsf_url = "";
  mobsf_api_key = "";
  mobsf_allow_binary_transfer = false;
  reputation_enabled = false;
  allow_external_reputation_in_production = false;
  trusted_bank_cert_sha256 = [];
  auth_mode = "oidc";
  api_key = "";
  allow_legacy_api_key_in_production = false;
  oidc_issuer = "https://id.bank.example";
  oidc_audience = "fraudshield";
  oidc_jwks_url = "https://id.bank.example/keys";
  oidc_algorithms = "RS256" ∷ [];
  trusted_hosts = "fraud.bank.example" ∷ [];
  forwarded_allow_ips = "10.0.0.1";
  cors_origins = "https://fraud.bank.example" ∷ [];
  docs_enabled = false;
  legacy_api_enabled = false;
  inline_analysis_enabled = false;
  audit_hmac_key = "0123456789abcdef0123456789abcdef";
  audit_hmac_key_id = "v2";
  audit_hmac_previous_keys = "v1=fedcba9876543210fedcba9876543210" ∷ [];
  audit_retention_days = 365;
  metrics_enabled = true;
  llm_provider = "disabled";
  allow_external_llm_in_production = false;
  ai_experiment_plan_limit = 3;
  max_investigation_rounds = 2;
  max_experiments_per_round = 3;
  dynamic_analysis_enabled = false;
  dynamic_network_policy = "observe-only";
  adb_emulator_serial = "";
}

production_accepted : validate host production ≡ none
unfolding validate checks first_error authentication_checks database_checks storage_checks
    audit_checks network_checks model_checks surface_checks engine_checks is_postgresql
    effective_database_url is_key_id is_invalid_previous partition join_missing take_chars
    every_code has_part
production_accepted = refl

disabled_refused :
    validate host (record production { auth_mode = "disabled" })
    ≡ some "FRAUDSHIELD_AUTH_MODE=disabled is forbidden in production"
unfolding validate checks first_error authentication_checks
disabled_refused = refl

incomplete_refused :
    validate host (record production { oidc_issuer = ""; oidc_jwks_url = "" })
    ≡ some "OIDC configuration is incomplete: FRAUDSHIELD_OIDC_ISSUER, FRAUDSHIELD_OIDC_JWKS_URL"
unfolding validate checks first_error authentication_checks join_missing comma_joined
incomplete_refused = refl

rotated : lookup "v1" (audit_keyring production) ≡ some "fedcba9876543210fedcba9876543210"
unfolding audit_keyring with_previous with_entry assigned partition
rotated = refl

validate-IsHardened_example :
    IsAuthenticated production
    × IsStored host production
    × IsAudited production
    × IsClosed production
    × IsApproved production
validate-IsHardened_example = validate-IsHardened host production refl production_accepted

audit_keyring-IsStrong_example :
    ((keys_of production).key ≡ production.audit_hmac_key)
    × (lookup "v2" (audit_keyring production) ≡ some production.audit_hmac_key)
    × ((i k : String) → key_for (keys_of production) i ≡ some k → 32 ≤ len k)
audit_keyring-IsStrong_example = audit_keyring-IsStrong host production refl production_accepted
