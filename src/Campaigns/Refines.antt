-- ===== src/Campaigns/Refines.antt =====
-- The table of fingerprints (FraudDNARepository of fraudshield/core/repository.py) refines a
-- function from hashes to what was saved last.
use boi.Campaigns.Types.{Fingerprint}
use boi.Prelude.Rows.{select, or_new, select-upsert_same, select-upsert_other}
use boi.Campaigns.Store.{Stored, Store, has_sha, coalesce, overwritten, save_fingerprint}
use boi.Prelude.{
  ℕ, ◌≡◌, refl, sym, ap, ◌∙◌, String, false, Option, none, some, List, [], ◌∷◌, ◌==◌, string_eq,
  equals_refl, inl, inr, Bool-cases, if◌then◌else◌,
}

-- The specification: a hash names the last fingerprint, and the last analysis that was named.
abbrev pub Saved : Type 0
Saved = Fingerprint × Option String

abbrev pub Spec : Type 0
Spec = String → Option Saved

abbrev pub analysis_of : Option Saved → Option String
analysis_of none = none
analysis_of (some (fp, a)) = a

abbrev pub save_in_spec : Option String → Fingerprint → Spec → Spec
save_in_spec analysis_id fp m sha =
    if fp.apk_sha256 == sha then some (fp, coalesce analysis_id (analysis_of (m sha))) else m sha

-- What the table says of a hash.
abbrev pub saved_of : Option Stored → Option Saved
saved_of none = none
saved_of (some row) = some (row.fingerprint, row.analysis_id)

abbrev pub view : Store → Spec
view s sha = saved_of (select (has_sha sha) s.fingerprints)

-- A call: the analysis, the time, the fingerprint.
abbrev pub Save : Type 0
Save = Option String × ℕ × Fingerprint

abbrev pub run_saves : List Save → Store → Store
run_saves [] s = s
run_saves ((a, now, fp) ∷ ops) s = run_saves ops (save_fingerprint a now fp s)

abbrev pub run_spec : List Save → Spec → Spec
run_spec [] m = m
run_spec ((a, now, fp) ∷ ops) m = run_spec ops (save_in_spec a fp m)

saved_after :
    (a : Option String) (now : ℕ) (fp : Fingerprint) (new : Stored) (o : Option Stored)
    → saved_of (some new) ≡ some (fp, a)
    → saved_of (or_new (overwritten a now fp) new o)
      ≡ some (fp, coalesce a (analysis_of (saved_of o)))
unfolding overwritten
saved_after none now fp new none e = e
saved_after (some a) now fp new none e = e
saved_after a now fp new (some row) e = refl

view-save_same :
    (a : Option String) (now : ℕ) (fp : Fingerprint) (s : Store)
    → view (save_fingerprint a now fp s) fp.apk_sha256
      ≡ some (fp, coalesce a (analysis_of (view s fp.apk_sha256)))
unfolding save_fingerprint overwritten
view-save_same a now fp s =
    ap saved_of (
      select-upsert_same (has_sha fp.apk_sha256) (overwritten a now fp) _ s.fingerprints
        (equals_refl fp.apk_sha256) (λ x h. equals_refl fp.apk_sha256))
    ∙ saved_after a now fp _ (select (has_sha fp.apk_sha256) s.fingerprints) refl

view-save_other :
    (a : Option String) (now : ℕ) (fp : Fingerprint) (s : Store) (sha : String)
    → (fp.apk_sha256 == sha) ≡ false
    → view (save_fingerprint a now fp s) sha ≡ view s sha
unfolding save_fingerprint overwritten
view-save_other a now fp s sha other = ap saved_of (
    select-upsert_other (has_sha sha) (has_sha fp.apk_sha256) (overwritten a now fp) _
      s.fingerprints other
      (λ x h. (
        ap (λ k. k == sha) ((string_eq.equals_iff x.fingerprint.apk_sha256 fp.apk_sha256).0 h)
            ∙ other,
        other,
      )))

view-save :
    (a : Option String) (now : ℕ) (fp : Fingerprint) (s : Store) (sha : String)
    → view (save_fingerprint a now fp s) sha ≡ save_in_spec a fp (view s) sha
view-save a now fp s sha = elim (Bool-cases (fp.apk_sha256 == sha)) [
  | inr other ↦ rw other (view-save_other a now fp s sha other)
  | inl same ↦
      rw (same, sym ((string_eq.equals_iff fp.apk_sha256 sha).0 same)) (view-save_same a now fp s)
]

run_spec_ext :
    (ops : List Save) (m n : Spec)
    → ((sha : String) → m sha ≡ n sha)
    → (sha : String) → run_spec ops m sha ≡ run_spec ops n sha
run_spec_ext [] m n h sha = h sha
run_spec_ext ((a, now, fp) ∷ ops) m n h sha = run_spec_ext ops _ _ (λ k. rw (h k) refl) sha

-- Whatever fingerprints are saved, in any order and at any times, the table tells of every hash what
-- the specification does: the fingerprint that was saved last under it, with the last analysis that
-- was named, and nothing of a hash that was never saved.
pub run_saves_refines :
    (ops : List Save) (s : Store) (sha : String)
    → view (run_saves ops s) sha ≡ run_spec ops (view s) sha
run_saves_refines [] s sha = refl
run_saves_refines ((a, now, fp) ∷ ops) s sha =
    run_saves_refines ops (save_fingerprint a now fp s) sha
    ∙ run_spec_ext ops _ _ (view-save a now fp s) sha
