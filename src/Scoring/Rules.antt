-- ===== src/Scoring/Rules.antt =====
-- The static rules and their predicates (fraudshield/deceptiscope/scoring.py).
use boi.Prelude.{
  ℕ, String, Bool, true, false, Option, none, some, List, [], ◌∷◌, ◌==◌, string_eq, contains, take,
  if◌then◌else◌,
}
use boi.Scoring.Types.{
  evasion_resilience, fraud_impersonation, payment_manipulation, credential_theft, Category,
}

-- An entry of `code_signals`.
pub record Signal : Type 0 where
  pub detected : Bool
  pub evidence : List String

-- The dict `features`. A ratio is the text that the f-string prints.
pub record Features : Type 0 where
  pub permissions : List String
  pub components : List (String × Bool)
  pub signals : List (String × Signal)
  pub bank_impersonation_flag : Bool
  pub certificate_sha256 : Option String
  pub trust_evaluation : Option String
  pub likely_name_obfuscation : Bool
  pub short_class_ratio : String
  pub embedded_payloads : List String

abbrev pub Found : Type 0
Found = Bool × List String

pub record Rule : Type 0 where
  pub id : String
  pub title : String
  pub category : Category
  pub points : ℕ
  pub rationale : String
  pub predicate : Features → Found

-- `components.get(name)`, as a truth value.
abbrev pub has_component : String → List (String × Bool) → Bool
has_component name [] = false
has_component name ((k, b) ∷ m) = if k == name then b else has_component name m

-- `signals.get(name, {})`
abbrev pub signal_of : String → List (String × Signal) → Signal
signal_of name [] = record { detected = false; evidence = [] }
signal_of name ((k, s) ∷ m) = if k == name then s else signal_of name m

unfoldable pub has_permission : String → Features → Found
has_permission name f =
    let present = contains name f.permissions in (present, if present then name ∷ [] else [])

unfoldable pub component : String → Features → Found
component name f =
    let present = has_component name f.components in (present, if present then name ∷ [] else [])

unfoldable pub signal : String → Features → Found
signal name f = let s = signal_of name f.signals in (s.detected, s.evidence)

abbrev join : String → String → String
join a b = Prim.Native.String.◌++◌ a b

unfoldable pub obfuscated : Features → Found
obfuscated f = (
  f.likely_name_obfuscation,
  if f.likely_name_obfuscation then join "short_class_ratio=" f.short_class_ratio ∷ [] else [],
)

-- `x or 'unknown'`
abbrev pub or_unknown : Option String → String
or_unknown none = "unknown"
or_unknown (some s) = if s == "" then "unknown" else s

unfoldable pub bank_impersonation : Features → Found
bank_impersonation f = (
  f.bank_impersonation_flag,
  if f.bank_impersonation_flag
      then join "certificate_sha256=" (or_unknown f.certificate_sha256)
        ∷ join "trust_evaluation=" (or_unknown f.trust_evaluation)
        ∷ []
      else [],
)

abbrev pub is_cons {ℓ} : {A : Type ℓ} → List A → Bool
is_cons [] = false
is_cons (x ∷ xs) = true

unfoldable pub embedded_payload : Features → Found
embedded_payload f = (is_cons f.embedded_payloads, take 10 f.embedded_payloads)

abbrev pub rule : String → String → Category → ℕ → String → (Features → Found) → Rule
rule id title category points rationale predicate = record {
  id = id;
  title = title;
  category = category;
  points = points;
  rationale = rationale;
  predicate = predicate;
}

-- `RULES`
unfoldable pub rules : List Rule
rules =
    rule "APK-CRED-001" "Read SMS messages" credential_theft 18 "Can access OTP-bearing SMS data"
      (has_permission "android.permission.READ_SMS")
    ∷ rule "APK-CRED-002" "Receive SMS broadcasts" credential_theft 14
        "Can observe incoming OTP messages" (has_permission "android.permission.RECEIVE_SMS")
    ∷ rule "APK-CRED-003" "SMS receiver component" credential_theft 18
        "Manifest declares an SMS broadcast receiver" (component "sms_receiver")
    ∷ rule "APK-CRED-004" "Accessibility service" credential_theft 22
        "Accessibility events can expose sensitive on-screen text"
        (component "accessibility_service")
    ∷ rule "APK-CRED-005" "SMS API usage" credential_theft 10 "DEX evidence references SMS APIs"
        (signal "sms_api")
    ∷ rule "APK-PAY-001" "Overlay permission" payment_manipulation 22
        "Draw-over-apps can support credential overlays"
        (has_permission "android.permission.SYSTEM_ALERT_WINDOW")
    ∷ rule "APK-PAY-002" "Installed-app enumeration" payment_manipulation 17
        "Can identify targeted banking/payment apps" (signal "installed_app_enumeration")
    ∷ rule "APK-PAY-003" "Input injection APIs" payment_manipulation 28
        "Accessibility automation can act inside other applications" (signal "input_injection")
    ∷ rule "APK-PAY-004" "Accessibility service" payment_manipulation 20
        "Privileged UI observation/control increases transaction risk"
        (component "accessibility_service")
    ∷ rule "APK-IMP-001" "Bank identity/certificate mismatch" fraud_impersonation 45
        "Bank branding is paired with a signer absent from the configured trusted inventory"
        bank_impersonation
    ∷ rule "APK-IMP-002" "Package installation capability" fraud_impersonation 18
        "Can request installation of additional APKs"
        (has_permission "android.permission.REQUEST_INSTALL_PACKAGES")
    ∷ rule "APK-EVA-001" "Dynamic code loading" evasion_resilience 25
        "Runtime-loaded code can evade package-time inspection" (signal "dynamic_code_loading")
    ∷ rule "APK-EVA-002" "Reflection" evasion_resilience 12
        "Reflection can conceal API use from simple scanners" (signal "reflection")
    ∷ rule "APK-EVA-003" "Command execution" evasion_resilience 25
        "Process execution expands post-install capabilities" (signal "command_execution")
    ∷ rule "APK-EVA-004" "Name obfuscation" evasion_resilience 18
        "High short-name ratio hinders static review" obfuscated
    ∷ rule "APK-EVA-005" "Embedded executable payload" evasion_resilience 20
        "APK contains secondary executable artifacts" embedded_payload
    ∷ []
