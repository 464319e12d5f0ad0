-- ===== src/Indicators/Upsert.antt =====
-- IndicatorRepository.upsert (fraudshield/core/repository.py): what it leaves of the tables.
use boi.Prelude.Floats.{Floats}
use boi.Prelude.Rows.{select, update, select_hit, unselected, any-update}
use boi.Prelude.{
  ℕ, ◌≡◌, refl, sym, ◌∙◌, subst, String, true, false, ◌||◌, not, Option, none, some, List, [], ◌∷◌,
  ◌++◌, ◌==◌, string_eq, equals_refl, any, any_hit, Bool-cases, inl, inr,
}
use boi.Indicators.Normalize.{Result, ok, err, ◌>>=◌, Names, normalize_indicator}
use boi.Indicators.Store.{
  Severity, Sighting, is_sighting, Indicator, Tables, Report, has_id, has_value, first_row, merged,
  counted, kind_of, severity_of, known_severity, insert_sighting, source_exists, with_sighting,
  insert_indicator, upsert_row, get, upsert,
}
use boi.Indicators.Counts.{IsCounted, keep_keys, sighted_again, sighted_first, unreferred}

module _ (fs : Floats) (names : Names) (analyses : List String) where
  abbrev KeepsCounts : {A : Type 0} → Result (A × Tables fs) → Type 0
  KeepsCounts (ok (a, t)) = IsCounted fs t
  KeepsCounts (err e) = Unit

  -- The INSERT of a sighting leaves the old rows before the new one, or raises.
  abbrev Inserted : Sighting → List Sighting → Result (List Sighting) → Type 0
  Inserted new ss (ok ss') = ss' ≡ ss ++ (new ∷ [])
  Inserted new ss (err e) = Unit

  insert_sighting-Inserted :
      (new : Sighting) (ss : List Sighting)
      → Inserted new ss (insert_sighting fs names analyses new ss)
  unfolding insert_sighting
  insert_sighting-Inserted new ss =
      elim (Bool-cases (
        any (λ s. s.id == new.id) ss
        || not (source_exists fs names analyses new.source_analysis_id))) [
          | inl refused ↦ rw refused tt
          | inr fine ↦ rw fine refl
        ]

  -- Both branches of the sighting, for a row that is known.
  known-KeepsCounts :
      (sid : String) (now : ℕ) (r : Report fs) (i : String) (t : Tables fs)
      → any (has_id fs i) t.indicators ≡ true
      → IsCounted fs t
      → KeepsCounts (with_sighting fs names analyses sid now r true i t >>= λ t'. ok (i, t'))
  unfolding with_sighting
  known-KeepsCounts sid now r i t there c =
      elim (Bool-cases (any (is_sighting i r.source_analysis_id) t.sightings)) [
        | inl seen ↦ rw seen c
        | inr unseen ↦ rw unseen (
            inserted (insert_sighting fs names analyses new t.sightings)
              (insert_sighting-Inserted new t.sightings) (sighted_again fs t new there unseen c))
      ]
    where
      new : Sighting
      new = record {
        id = sid;
        indicator_id = i;
        source_analysis_id = r.source_analysis_id;
        seen_at = now;
        context = r.context;
      }

      inserted :
          (o : Result (List Sighting))
          → Inserted new t.sightings o
          → IsCounted fs (record {
            indicators = update (has_id fs i) (counted fs) t.indicators;
            sightings = t.sightings ++ (new ∷ []);
          })
          → KeepsCounts (
              (o >>= λ ss. ok (record {
                indicators = update (has_id fs i) (counted fs) t.indicators;
                sightings = ss;
              }))
              >>= λ t'. ok (i, t'))
      inserted (err e) h k = tt
      inserted (ok ss) h k =
          subst
            (λ q. IsCounted fs (record {
              indicators = update (has_id fs i) (counted fs) t.indicators;
              sightings = q;
            }))
            (sym h) k

  -- Both branches of a value that is seen for the first time: its sighting is new.
  first-KeepsCounts :
      (sid : String) (now : ℕ) (r : Report fs) (row : Indicator fs) (t : Tables fs)
      → row.sightings_count ≡ 1
      → any (has_id fs row.id) t.indicators ≡ false
      → any (has_value fs row.type row.normalized_value) t.indicators ≡ false
      → IsCounted fs t
      → KeepsCounts (
          with_sighting fs names analyses sid now r false row.id
            (record t { indicators = t.indicators ++ (row ∷ []) })
          >>= λ t'. ok (row.id, t'))
  unfolding with_sighting
  first-KeepsCounts sid now r row t one fresh unknown c =
      let unseen : any (is_sighting row.id r.source_analysis_id) t.sightings ≡ false =
        (unreferred fs row.id r.source_analysis_id t.indicators t.sightings fresh c.referred).1 in
      rw unseen (
        inserted (insert_sighting fs names analyses new t.sightings)
          (insert_sighting-Inserted new t.sightings)
          (sighted_first fs t row sid r.source_analysis_id now r.context one fresh unknown c))
    where
      new : Sighting
      new = record {
        id = sid;
        indicator_id = row.id;
        source_analysis_id = r.source_analysis_id;
        seen_at = now;
        context = r.context;
      }

      inserted :
          (o : Result (List Sighting))
          → Inserted new t.sightings o
          → IsCounted fs (record {
            indicators = t.indicators ++ (row ∷ []);
            sightings = t.sightings ++ (new ∷ []);
          })
          → KeepsCounts (
              (o >>= λ ss. ok (record { indicators = t.indicators ++ (row ∷ []); sightings = ss }))
              >>= λ t'. ok (row.id, t'))
      inserted (err e) h k = tt
      inserted (ok ss) h k =
          subst
            (λ q. IsCounted fs (record { indicators = t.indicators ++ (row ∷ []); sightings = q }))
            (sym h) k

  upsert_row-KeepsCounts :
      (iid sid : String) (now : ℕ) (r : Report fs) (normalized : String) (sev : Severity)
      (o : Option (Indicator fs)) (t : Tables fs)
      → select (has_value fs (kind_of fs names r) normalized) t.indicators ≡ o
      → IsCounted fs t
      → KeepsCounts (upsert_row fs names analyses iid sid now r normalized sev o t)
  unfolding upsert_row insert_indicator first_row merged
  upsert_row-KeepsCounts iid sid now r normalized sev (some row) t found c =
      let (_, there) =
        select_hit (has_value fs (kind_of fs names r) normalized) t.indicators row found in
      known-KeepsCounts sid now r row.id _
        (any-update (has_id fs row.id) (has_id fs row.id) (merged fs now r sev) t.indicators
            (λ x hit. refl)
          ∙ any_hit (has_id fs row.id) row t.indicators there (equals_refl row.id))
        (keep_keys fs (has_id fs row.id) (merged fs now r sev) t (λ x. refl) (λ x. refl) (λ x. refl)
          (λ x. refl) c)
  upsert_row-KeepsCounts iid sid now r normalized sev none t found c =
      elim (Bool-cases (any (has_id fs iid) t.indicators)) [
        | inl clash ↦ rw clash tt
        | inr fresh ↦ rw fresh (
            first-KeepsCounts sid now r (first_row fs names iid now r normalized sev) t refl fresh
              (unselected _ t.indicators found) c)
      ]

  -- A call of upsert that returns leaves tables in which no two rows have one id, nor one type and
  -- value, every sighting is of a row, no source sees an indicator twice, and each row counts its
  -- sightings: where this is so before, whether the value is new or known, and the source or not. (A
  -- call that raises leaves the tables as they were.)
  pub upsert-IsCounted :
      (iid sid : String) (now : ℕ) (r : Report fs) (t t' : Tables fs) (row : Indicator fs)
      → IsCounted fs t
      → upsert fs names analyses iid sid now r t ≡ ok (row, t')
      → IsCounted fs t'
  unfolding upsert
  upsert-IsCounted iid sid now r t t' row c e =
      subst KeepsCounts e (by_name (normalize_indicator names (kind_of fs names r) r.value))
    where
      read :
          (o : Result (String × Tables fs))
          → KeepsCounts o
          → KeepsCounts (o >>= λ (i, u). get fs names i u >>= λ k. ok (k, u))
      read (err x) k = tt
      read (ok (i, u)) k = got (get fs names i u)
        where
          got : (o : Result (Indicator fs)) → KeepsCounts (o >>= λ q. ok (q, u))
          got (ok q) = k
          got (err x) = tt

      by_severity :
          (o : Option Severity) (normalized : String)
          → KeepsCounts (
              known_severity fs names o >>= λ sev.
              upsert_row fs names analyses iid sid now r normalized sev
                (select (has_value fs (kind_of fs names r) normalized) t.indicators)
                t
              >>= λ (i, u). get fs names i u >>= λ k. ok (k, u))
      by_severity none normalized = tt
      by_severity (some sev) normalized =
          read _ (upsert_row-KeepsCounts iid sid now r normalized sev _ t refl c)

      by_name :
          (o : Result String)
          → KeepsCounts (
              o >>= λ normalized.
              known_severity fs names (severity_of (names.upper r.severity)) >>= λ sev.
              upsert_row fs names analyses iid sid now r normalized sev
                (select (has_value fs (kind_of fs names r) normalized) t.indicators)
                t
              >>= λ (i, u). get fs names i u >>= λ k. ok (k, u))
      by_name (err x) = tt
      by_name (ok normalized) = by_severity (severity_of (names.upper r.severity)) normalized
