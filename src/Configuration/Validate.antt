-- ===== src/Configuration/Validate.antt =====
-- Settings.validate (fraudshield/core/config.py) from the trusted hosts on, and as a whole: the answer
-- is the message of the first RuntimeError, or none.
use boi.Prelude.{
  String, ◌&&◌, ◌||◌, not, Option, List, [], ◌∷◌, ◌++◌, ◌==◌, string_eq, nat_eq, leb, any, contains,
  without_char, starts_with, has_part,
}
use boi.Configuration.Settings.{Settings}
use boi.Configuration.Checks.{
  Host, Check, first_error, in_production, is_empty, is_web_url, is_https, is_fingerprint, is_nil,
  authentication_checks, database_checks, storage_checks, audit_checks,
}

unfoldable pub network_checks : Settings → List Check
network_checks s =
    (
      is_nil s.trusted_hosts || contains "*" s.trusted_hosts,
      "FRAUDSHIELD_TRUSTED_HOSTS must be an explicit non-wildcard allowlist",
    )
    ∷ (
      any (λ h. has_part "/" h || has_part "://" h) s.trusted_hosts,
      "FRAUDSHIELD_TRUSTED_HOSTS must contain hostnames, not URLs",
    )
    ∷ (
      in_production s && s.forwarded_allow_ips == "*",
      "FRAUDSHIELD_FORWARDED_ALLOW_IPS cannot be '*' in production",
    )
    ∷ []

unfoldable pub model_checks : Settings → List Check
model_checks s =
    (
      not (contains s.llm_provider ("disabled" ∷ "openai" ∷ "gemini" ∷ [])),
      "FRAUDSHIELD_LLM_PROVIDER must be disabled, openai, or gemini",
    )
    ∷ (
      in_production s
          && (not (s.llm_provider == "disabled") && not s.allow_external_llm_in_production),
      "External LLM use in production requires explicit privacy/compliance approval and FRAUDSHIELD_ALLOW_EXTERNAL_LLM_IN_PRODUCTION=true",
    )
    ∷ (
      not (leb 1 s.ai_experiment_plan_limit && leb s.ai_experiment_plan_limit 10),
      "FRAUDSHIELD_AI_EXPERIMENT_PLAN_LIMIT must be between 1 and 10",
    )
    ∷ (
      not (leb 0 s.max_investigation_rounds && leb s.max_investigation_rounds 5),
      "FRAUDSHIELD_MAX_INVESTIGATION_ROUNDS must be between 0 and 5",
    )
    ∷ (
      not (leb 1 s.max_experiments_per_round && leb s.max_experiments_per_round 10),
      "FRAUDSHIELD_MAX_EXPERIMENTS_PER_ROUND must be between 1 and 10",
    )
    ∷ []

unfoldable pub surface_checks : Settings → List Check
surface_checks s =
    (contains "*" s.cors_origins, "Wildcard CORS origins are not supported")
    ∷ (
      any (λ o. not (is_web_url o)) s.cors_origins,
      "FRAUDSHIELD_CORS_ORIGINS must contain only HTTP(S) origins",
    )
    ∷ (
      in_production s && any (λ o. not (is_https o)) s.cors_origins,
      "Production CORS origins must use HTTPS",
    )
    ∷ (in_production s && s.docs_enabled, "FRAUDSHIELD_DOCS_ENABLED must be false in production")
    ∷ (
      in_production s && s.legacy_api_enabled,
      "FRAUDSHIELD_LEGACY_API_ENABLED must be false in production",
    )
    ∷ (
      in_production s && s.inline_analysis_enabled,
      "FRAUDSHIELD_INLINE_ANALYSIS_ENABLED must be false in production",
    )
    ∷ []

unfoldable pub engine_checks : Host → Settings → List Check
engine_checks host s =
    (
      s.yara_enabled && not (host.is_file s.yara_rules_path),
      "FRAUDSHIELD_YARA_RULES_PATH must identify a readable rule file",
    )
    ∷ (
      s.mobsf_enabled && (is_empty s.mobsf_url || is_empty s.mobsf_api_key),
      "FRAUDSHIELD_MOBSF_URL and FRAUDSHIELD_MOBSF_API_KEY are required when MobSF is enabled",
    )
    ∷ (s.mobsf_enabled && not (is_web_url s.mobsf_url), "FRAUDSHIELD_MOBSF_URL must use HTTP(S)")
    ∷ (
      s.mobsf_enabled && not s.mobsf_allow_binary_transfer,
      "MobSF analysis transfers the APK and requires FRAUDSHIELD_MOBSF_ALLOW_BINARY_TRANSFER=true",
    )
    ∷ (
      s.mobsf_enabled && (in_production s && not (is_https s.mobsf_url)),
      "Production MobSF endpoints must use HTTPS",
    )
    ∷ (
      in_production s && (s.reputation_enabled && not s.allow_external_reputation_in_production),
      "External hash reputation in production requires explicit privacy approval and FRAUDSHIELD_ALLOW_EXTERNAL_REPUTATION_IN_PRODUCTION=true",
    )
    ∷ (
      any (λ v. not (is_fingerprint (without_char b':' v))) s.trusted_bank_cert_sha256,
      "FRAUDSHIELD_TRUSTED_BANK_CERT_SHA256 contains an invalid SHA-256",
    )
    ∷ (
      s.dynamic_analysis_enabled && not (starts_with s.adb_emulator_serial "emulator-"),
      "FRAUDSHIELD_ADB_EMULATOR_SERIAL must identify an emulator-* target when dynamic analysis is enabled",
    )
    ∷ (
      not (contains s.dynamic_network_policy ("observe-only" ∷ "disabled" ∷ [])),
      "FRAUDSHIELD_DYNAMIC_NETWORK_POLICY must be observe-only or disabled",
    )
    ∷ []

unfoldable pub checks : Host → Settings → List Check
checks host s =
    authentication_checks s
    ++ (database_checks host s
        ++ (storage_checks s
            ++ (audit_checks s
                ++ (network_checks s
                    ++ (model_checks s ++ (surface_checks s ++ engine_checks host s))))))

unfoldable pub validate : Host → Settings → Option String
validate host s = first_error (checks host s)
