-- ===== src/Configuration/Settings.antt =====
-- Settings and its properties (fraudshield/core/config.py). The record has the fields that `validate`
-- and the properties read, under their names. Numbers are natural, which from_env sees to.
use Prim.Native.Char.{code}
use Prim.Native.String.{◌++◌ as cat}
use boi.Prelude.{
  ℕ, String, Bool, ◌||◌, Option, none, some, List, [], ◌∷◌, ◌==◌, string_eq, nat_eq, starts_with,
  if◌then◌else◌,
}

pub record Settings : Type 0 where
  pub environment : String
  pub database_path : String
  pub database_url : String
  pub database_pool_min_size : ℕ
  pub database_pool_max_size : ℕ
  pub storage_backend : String
  pub s3_bucket : String
  pub s3_endpoint_url : String
  pub s3_kms_key_id : String
  pub yara_rules_path : String
  pub yara_enabled : Bool
  pub mobsf_enabled : Bool
  pub mobsf_url : String
  pub mobsf_api_key : String
  pub mobsf_allow_binary_transfer : Bool
  pub reputation_enabled : Bool
  pub allow_external_reputation_in_production : Bool
  pub trusted_bank_cert_sha256 : List String
  pub auth_mode : String
  pub api_key : String
  pub allow_legacy_api_key_in_production : Bool
  pub oidc_issuer : String
  pub oidc_audience : String
  pub oidc_jwks_url : String
  pub oidc_algorithms : List String
  pub trusted_hosts : List String
  pub forwarded_allow_ips : String
  pub cors_origins : List String
  pub docs_enabled : Bool
  pub legacy_api_enabled : Bool
  pub inline_analysis_enabled : Bool
  pub audit_hmac_key : String
  pub audit_hmac_key_id : String
  pub audit_hmac_previous_keys : List String
  pub audit_retention_days : ℕ
  pub metrics_enabled : Bool
  pub llm_provider : String
  pub allow_external_llm_in_production : Bool
  pub ai_experiment_plan_limit : ℕ
  pub max_investigation_rounds : ℕ
  pub max_experiments_per_round : ℕ
  pub dynamic_analysis_enabled : Bool
  pub dynamic_network_policy : String
  pub adb_emulator_serial : String

unfoldable pub effective_database_url : Settings → String
effective_database_url s =
    if s.database_url == ""
    then if s.database_path == ":memory:"
      then "sqlite:///:memory:"
      else cat "sqlite:///" s.database_path
    else s.database_url

unfoldable pub is_postgresql : Settings → Bool
is_postgresql s =
    starts_with (effective_database_url s) "postgresql://"
    || starts_with (effective_database_url s) "postgres://"

-- `entry.partition("=")`: what stands before the first "=" and after it, where there is one.
unfoldable pub partition : String → Option (String × String)
partition String.[] = none
partition (String.◌∷◌ c s) =
    let later = partition s in
    if code c == b'='
    then some (String.[], s)
    else elim later [ none ↦ none | some (k, v) ↦ some (String.◌∷◌ c k, v) ]

-- A dict: its keys are different, and an assignment writes over the value of its key.
abbrev pub Keyring : Type 0
Keyring = List (String × String)

unfoldable pub assigned : String → String → Keyring → Keyring
assigned k v [] = (k, v) ∷ []
assigned k v ((j, w) ∷ ring) =
    let later = assigned k v ring in if j == k then (k, v) ∷ ring else (j, w) ∷ later

unfoldable pub with_entry : Option (String × String) → Keyring → Keyring
with_entry none ring = ring
with_entry (some (k, v)) ring = assigned k v ring

unfoldable pub with_previous : List String → Keyring → Keyring
with_previous [] ring = ring
with_previous (e ∷ es) ring = with_previous es (with_entry (partition e) ring)

unfoldable pub audit_keyring : Settings → Keyring
audit_keyring s =
    with_previous s.audit_hmac_previous_keys ((s.audit_hmac_key_id, s.audit_hmac_key) ∷ [])
