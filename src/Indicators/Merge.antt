-- ===== src/Indicators/Merge.antt =====
-- What a second report makes of an indicator that is known (IndicatorRepository.upsert of
-- fraudshield/core/repository.py).
use boi.Prelude.Floats.{Floats, maximum, IsAtMost, IsOrdered}
use boi.Prelude.Rows.{select, update, select_hit, select-update_same}
use boi.Prelude.{
  ℕ, ◌≤◌, ◌≡◌, refl, sym, ap, ◌∙◌, subst, String, Bool, true, false, Option, none, some, List, [],
  ◌∷◌, ◌==◌, string_eq, equals_refl, equals_sym, any, any_hit, Among, Bool-cases, true_not_false,
  inl, inr, if◌then◌else◌, arith, ltb,
}
use boi.Indicators.Normalize.{ok, Names, normalize_indicator}
use boi.Indicators.Store.{
  Severity, rank, severity_of, higher, is_sighting, Indicator, Tables, Report, has_id, has_value,
  clamped, merged, kind_of, with_sighting, upsert_row, get, upsert,
}
use boi.Indicators.Counts.{IsCounted, same_row}

higher_rises : (a b : Severity) → (rank a ≤ rank (higher a b)) × (rank b ≤ rank (higher a b))
unfolding higher
higher_rises a b = ground arith

module _ (fs : Floats) where
  open fs use {less}

  maximum_rises :
      (ord : IsOrdered fs) (a b : fs.Float)
      → IsAtMost fs a (maximum fs a b) × IsAtMost fs b (maximum fs a b)
  unfolding maximum
  maximum_rises ord a b = elim (Bool-cases (less a b)) [
    | inl up ↦ rw up (ord.less_at_most a b up, ord.at_most_refl b)
    | inr down ↦ rw down (ord.at_most_refl a, down)
  ]

  select_own :
      (rows : List (Indicator fs)) (row : Indicator fs)
      → boi.Prelude.Rows.Unique (same_row fs) rows
      → Among row rows
      → select (has_id fs row.id) rows ≡ some row
  select_own [] row u m = absurd m
  select_own (y ∷ ys) row u (inl e) =
      rw (ap (λ k. k.id == row.id) (sym e) ∙ equals_refl row.id) (ap some (sym e))
  select_own (y ∷ ys) row u (inr m) = elim (Bool-cases (y.id == row.id)) [
    | inr other ↦ rw other (select_own ys row u.1 m)
    | inl same ↦ absurd (
        true_not_false
          (sym (any_hit (has_id fs y.id) row ys m (equals_sym row.id y.id ∙ same)) ∙ u.0))
  ]

  module _ (names : Names) (analyses : List String) where
    -- A report of a value that is known, from a source that has seen it, is merged and not counted:
    -- upsert answers the row under its old id and its first time, with its old count, a severity and
    -- a confidence that are at least the old and at least the new ones, and the sightings stay.
    pub upsert_seen_again :
        (iid sid : String) (now : ℕ) (r : Report fs) (normalized : String) (sev : Severity)
        (t : Tables fs) (row : Indicator fs)
        → IsOrdered fs
        → IsCounted fs t
        → normalize_indicator names (kind_of fs names r) r.value ≡ ok normalized
        → severity_of (names.upper r.severity) ≡ some sev
        → select (has_value fs (kind_of fs names r) normalized) t.indicators ≡ some row
        → any (is_sighting row.id r.source_analysis_id) t.sightings ≡ true
        → (row' : Indicator fs) × (t' : Tables fs) × (upsert fs names analyses iid sid now r t
            ≡ ok (row', t'))
          × (t'.sightings ≡ t.sightings)
          × (row'.id ≡ row.id)
          × (row'.first_seen ≡ row.first_seen)
          × (row'.sightings_count ≡ row.sightings_count)
          × (rank row.severity ≤ rank row'.severity)
          × (rank sev ≤ rank row'.severity)
          × IsAtMost fs row.confidence row'.confidence
          × IsAtMost fs (clamped fs r.confidence) row'.confidence
    unfolding upsert upsert_row with_sighting get merged
    upsert_seen_again iid sid now r normalized sev t row ord c named valued found seen =
        let own : select (has_id fs row.id) t.indicators ≡ some row =
          select_own t.indicators row c.ids (select_hit _ t.indicators row found).1 in
        let read : select (has_id fs row.id)
              (update (has_id fs row.id) (merged fs now r sev) t.indicators)
            ≡ some (merged fs now r sev row) =
          select-update_same (has_id fs row.id) (merged fs now r sev) t.indicators (λ x h. h)
          ∙ ap (boi.Prelude.Rows.after (merged fs now r sev)) own in
        (
          merged fs now r sev row,
          record t { indicators = update (has_id fs row.id) (merged fs now r sev) t.indicators },
          rw (named, valued, found, seen, read) refl,
          refl,
          refl,
          refl,
          refl,
          (higher_rises row.severity sev).0,
          (higher_rises row.severity sev).1,
          (maximum_rises ord row.confidence (clamped fs r.confidence)).0,
          (maximum_rises ord row.confidence (clamped fs r.confidence)).1,
        )
