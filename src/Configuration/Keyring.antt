-- ===== src/Configuration/Keyring.antt =====
-- The keys of the audit chain that accepted settings give (fraudshield/core/config.py, audit_keyring),
-- as the service hands them to AuditRepository (fraudshield/services/container.py).
use Prim.Native.String.{len}
use boi.Prelude.{
  Option-cases, equals_refl, subst, ◌≤◌, ◌≡◌, refl, sym, ap, ◌∙◌, String, false, Option, none, some,
  List, [], ◌∷◌, ◌==◌, string_eq, any, arith, Bool-cases, inl, inr, All, or-false,
}
use boi.Audit.{Keys, or_text, lookup, init, key_for}
use boi.Configuration.Settings.{
  Settings, Keyring, assigned, with_entry, with_previous, partition, audit_keyring,
}
use boi.Configuration.Checks.{Host, audit_checks, is_invalid_previous}
use boi.Configuration.Validate.{validate}
use boi.Configuration.Hardened.{validate-audit_checks}

abbrev IsStrong : Keyring → Type 0
IsStrong = All λ (k, secret). 32 ≤ len secret

assigned-IsStrong :
    (k v : String) (ring : Keyring) → 32 ≤ len v → IsStrong ring → IsStrong (assigned k v ring)
unfolding assigned
assigned-IsStrong k v [] long h = (long, tt)
assigned-IsStrong k v ((j, w) ∷ ring) long h = elim (Bool-cases (j == k)) [
  | inl same ↦ rw same (long, h.1)
  | inr other ↦ rw other (h.0, assigned-IsStrong k v ring long h.1)
]

lookup-assigned :
    (i k v : String) (ring : Keyring)
    → (k == i) ≡ false
    → lookup i (assigned k v ring) ≡ lookup i ring
unfolding assigned
lookup-assigned i k v [] apart = rw apart refl
lookup-assigned i k v ((j, w) ∷ ring) apart = elim (Bool-cases (j == k)) [
  | inl same ↦
      let e = (string_eq.equals_iff j k).0 same in
      rw (same, apart, subst (λ x. (x == i) ≡ false) (sym e) apart) refl
  | inr other ↦ elim (Bool-cases (j == i)) [
    | inl here ↦ rw (other, here) refl
    | inr later ↦ rw (other, later) (lookup-assigned i k v ring apart)
  ]
]

with_entry-keeps :
    (i : String) (e : Option (String × String)) (ring : Keyring)
    → is_invalid_previous i e ≡ false
    → IsStrong ring
    → IsStrong (with_entry e ring) × (lookup i (with_entry e ring) ≡ lookup i ring)
unfolding is_invalid_previous with_entry
with_entry-keeps i none ring valid h = (h, refl)
with_entry-keeps i (some (k, v)) ring valid h =
    (assigned-IsStrong k v ring (ground arith) h, lookup-assigned i k v ring (ground arith))

with_previous-keeps :
    (i : String) (es : List String) (ring : Keyring)
    → any (λ e. is_invalid_previous i (partition e)) es ≡ false
    → IsStrong ring
    → IsStrong (with_previous es ring) × (lookup i (with_previous es ring) ≡ lookup i ring)
unfolding with_previous
with_previous-keeps i [] ring valid h = (h, refl)
with_previous-keeps i (e ∷ es) ring valid h =
    let (now, later) = or-false _ _ valid in
    let (strong, same) = with_entry-keeps i (partition e) ring now h in
    let (strong', same') = with_previous-keeps i es (with_entry (partition e) ring) later strong in
    (strong', same' ∙ same)

some_inj : {a b : String} → some a ≡ some b → a ≡ b
some_inj e = cc

lookup-IsStrong :
    (i k : String) (ring : Keyring) → IsStrong ring → lookup i ring ≡ some k → 32 ≤ len k
lookup-IsStrong i k [] h found = cc
lookup-IsStrong i k ((j, v) ∷ ring) h found = elim (Bool-cases (j == i)) [
  | inl same ↦ subst (λ x. 32 ≤ len x) (some_inj (rw same at found)) h.0
  | inr other ↦ lookup-IsStrong i k ring h.1 (rw other at found)
]

or_text-long : (k d : String) → 32 ≤ len k → or_text k d ≡ k
or_text-long k d long = elim (Bool-cases (k == "")) [
  | inl empty ↦
      let e = ap len ((string_eq.equals_iff k "").0 empty) in absurd (omega (arith, e, long))
  | inr full ↦ rw full refl
]

abbrev pub keys_of : Settings → Keys
keys_of s = init s.audit_hmac_key s.audit_hmac_key_id (audit_keyring s)

key_for-IsStrong :
    (s : Settings) (i k : String)
    → or_text s.audit_hmac_key "development-only-audit-integrity-key" ≡ s.audit_hmac_key
    → 32 ≤ len s.audit_hmac_key
    → IsStrong (audit_keyring s)
    → key_for (keys_of s) i ≡ some k
    → 32 ≤ len k
unfolding init key_for
key_for-IsStrong s i k same long strong found = elim (Bool-cases (i == s.audit_hmac_key_id)) [
  | inl current ↦
      let e = some_inj (rw current at found) in subst (λ x. 32 ≤ len x) (sym same ∙ e) long
  | inr other ↦ elim (Option-cases (lookup i (audit_keyring s))) [
    | inr (secret, there) ↦
        lookup-IsStrong i k (audit_keyring s) strong (there ∙ rw (other, there) at found)
    | inl none_there ↦ elim (Bool-cases (i == "legacy")) [
      | inl legacy ↦
          let e = some_inj (rw (other, none_there, legacy) at found) in
          subst (λ x. 32 ≤ len x) (sym same ∙ e) long
      | inr unknown ↦ cc (rw (other, none_there, unknown) at found)
    ]
  ]
]

-- The keys that accepted settings of production give the audit chain are strong. Its events are
-- signed under the current key; the previous keys, which may not bear its id, leave the entry of that
-- id in the keyring as it is; and every key under which an event can be verified has at least 32
-- characters.
pub audit_keyring-IsStrong :
    (host : Host) (s : Settings)
    → s.environment ≡ "production"
    → validate host s ≡ none
    → ((keys_of s).key ≡ s.audit_hmac_key)
      × (lookup s.audit_hmac_key_id (audit_keyring s) ≡ some s.audit_hmac_key)
      × ((i k : String) → key_for (keys_of s) i ≡ some k → 32 ≤ len k)
unfolding audit_keyring audit_checks init
audit_keyring-IsStrong host s production accepted =
    let p = ap (λ e. e == "production") production in
    let (key, (_, (previous, _))) = validate-audit_checks host s accepted in
    let long : 32 ≤ len s.audit_hmac_key = ground arith in
    let start = (s.audit_hmac_key_id, s.audit_hmac_key) ∷ [] in
    let (strong, same) =
      with_previous-keeps s.audit_hmac_key_id s.audit_hmac_previous_keys start previous
        (long, tt) in
    let e = or_text-long s.audit_hmac_key "development-only-audit-integrity-key" long in
    (
      e,
      same ∙ rw (equals_refl s.audit_hmac_key_id) refl,
      λ i k found. key_for-IsStrong s i k e long strong found,
    )
