-- ===== src/Analyses/Cleanup.antt =====
-- cleanup_synthetic_records (fraudshield/core/repository.py): what it keeps, and what it does to the
-- counts of sightings.
use boi.Prelude.Floats.{Floats}
use boi.Prelude.{
  ◌+◌, ◌≡◌, refl, sym, ap, ◌∙◌, ◌↔◌, String, Bool, true, false, not, Option, none, some, List, [],
  ◌∷◌, ◌==◌, string_eq, equals_sym, subst, any, any_hit, any-found, keep, map, contains, Among,
  Among-keep, All, All-mono, Bool-cases, inl, inr, true_not_false, arith,
}
use boi.Scoring.Rules.{is_cons}
use boi.Indicators.Store.{Sighting, Indicator, Tables, has_id}
use boi.Indicators.Counts.{sighted, IsCounted}
use boi.Analyses.Store.{
  Analysis, Db, is_synthetic, of_source, is_seen, delete_synthetic, cleanup_synthetic_records,
}

sighted_none : (i : String) → sighted i [] ≡ 0
unfolding sighted
sighted_none i = refl

-- The sightings of an indicator are those that are kept and those that are not.
sighted_split :
    (p : Sighting → Bool) (i : String) (ss : List Sighting)
    → sighted i ss ≡ sighted i (keep (λ s. not (p s)) ss) + sighted i (keep p ss)
unfolding sighted
sighted_split p i [] = refl
sighted_split p i (s ∷ ss) = elim (Bool-cases (p s)) [
  | inl hit ↦ rw hit (omega (arith, sighted_split p i ss))
  | inr miss ↦ rw miss (omega (arith, sighted_split p i ss))
]

All-keep : {A : Type 0} (P : A → Type 0) (p : A → Bool) (xs : List A) → All P xs → All P (keep p xs)
All-keep P p [] h = tt
All-keep P p (x ∷ xs) h = elim (Bool-cases (p x)) [
  | inl hit ↦ rw hit (h.0, All-keep P p xs h.1)
  | inr miss ↦ rw miss (All-keep P p xs h.1)
]

module _ (fs : Floats) where
  abbrev pub synthetic_ids : Db fs → List String
  synthetic_ids db = map (λ row. row.id) (keep (is_synthetic fs) db)

  -- A sighting that no synthetic analysis made.
  abbrev pub is_uploaded : Db fs → Sighting → Bool
  is_uploaded db s = not (of_source (synthetic_ids db) s)

  -- What a cleanup leaves of the analyses and of the tables of indicators.
  pub record IsCleaned (db : Db fs) (t : Tables fs) (db' : Db fs) (t' : Tables fs) : Type 0 where
    pub analyses :
        (row : Analysis fs) → Among row db' ↔ (Among row db × (not (is_synthetic fs row) ≡ true))
    pub sightings :
        (s : Sighting) → Among s t'.sightings ↔ (Among s t.sightings × (is_uploaded db s ≡ true))
    pub referred : All (λ s. any (has_id fs s.indicator_id) t'.indicators ≡ true) t'.sightings
    -- each count is the number of sightings, those that are gone included
    pub counts :
        All
          (λ row.
            row.sightings_count
            ≡ sighted row.id t'.sightings
              + sighted row.id (keep (of_source (synthetic_ids db)) t.sightings))
          t'.indicators

  -- The indicators of the sightings that are kept are kept.
  referred_after :
      (rows : List (Indicator fs)) (kept ss : List Sighting)
      → ((s : Sighting) → Among s ss → Among s kept)
      → All (λ s. any (has_id fs s.indicator_id) rows ≡ true) ss
      → All (λ s. any (has_id fs s.indicator_id) (keep (is_seen fs kept) rows) ≡ true) ss
  referred_after rows kept [] m h = tt
  referred_after rows kept (s ∷ ss) m h =
      let (row, there, hit) = any-found (has_id fs s.indicator_id) rows h.0 in
      let seen : is_seen fs kept row ≡ true =
        any_hit (λ q. q.indicator_id == row.id) s kept (m s (inl refl))
          (equals_sym s.indicator_id row.id ∙ hit) in
      (
        any_hit (has_id fs s.indicator_id) row _
            ((Among-keep (is_seen fs kept) row rows).1 (there, seen)) hit,
        referred_after rows kept ss (λ q n. m q (inr n)) h.1,
      )

  delete_synthetic-IsCleaned :
      (db : Db fs) (t : Tables fs)
      → IsCounted fs t
      → let (_, db', t') = delete_synthetic fs (synthetic_ids db) db t in IsCleaned db t db' t'
  unfolding delete_synthetic
  delete_synthetic-IsCleaned db t c =
      let kept = keep (is_uploaded db) t.sightings in
      record {
        analyses = λ row. Among-keep (λ r. not (is_synthetic fs r)) row db;
        sightings = λ s. Among-keep (is_uploaded db) s t.sightings;
        referred =
            referred_after t.indicators kept kept (λ s m. m)
              (All-keep _ (is_uploaded db) t.sightings c.referred);
        counts =
            All-mono _ _ (keep (is_seen fs kept) t.indicators)
              (λ row h. h ∙ sighted_split (of_source (synthetic_ids db)) row.id t.sightings)
              (All-keep _ (is_seen fs kept) t.indicators c.counts);
      }

  -- Without synthetic analyses nothing is deleted.
  no_source : (s : Sighting) → of_source [] s ≡ false
  no_source s = by_source s.source_analysis_id
    where
      by_source : (o : Option String) → elim o [ none ↦ false | some a ↦ contains a [] ] ≡ false
      by_source none = refl
      by_source (some a) = refl

  keep_nothing : (ss : List Sighting) → keep (of_source []) ss ≡ []
  keep_nothing [] = refl
  keep_nothing (s ∷ ss) = rw (no_source s) (keep_nothing ss)

  no_ids : (rows : Db fs) → is_cons (map (λ row. row.id) rows) ≡ false → rows ≡ []
  no_ids [] h = refl
  no_ids (row ∷ rows) h = absurd (true_not_false h)

  untouched-IsCleaned :
      (db : Db fs) (t : Tables fs)
      → keep (is_synthetic fs) db ≡ []
      → IsCounted fs t
      → IsCleaned db t db t
  untouched-IsCleaned db t nothing c = record {
    analyses = λ row. (λ m. (m, uploaded row m), λ m. m.0);
    sightings =
        λ s. (λ m. (m, ap (λ ids. not (of_source ids s)) ids ∙ ap not (no_source s)), λ m. m.0);
    referred = c.referred;
    counts =
        All-mono _ _ t.indicators
          (λ row h.
            h
            ∙ subst
                (λ q. sighted row.id t.sightings ≡ sighted row.id t.sightings + sighted row.id q)
                (sym (ap (λ k. keep (of_source k) t.sightings) ids ∙ keep_nothing t.sightings))
                (plus_none row.id))
          c.counts;
  }
    where
      ids : synthetic_ids db ≡ []
      ids = ap (map (λ row. row.id)) nothing

      uploaded : (row : Analysis fs) → Among row db → not (is_synthetic fs row) ≡ true
      uploaded row m = elim (Bool-cases (is_synthetic fs row)) [
        | inr other ↦ ap not other
        | inl made ↦
            absurd (subst (Among row) nothing ((Among-keep (is_synthetic fs) row db).1 (m, made)))
      ]

      plus_none : (i : String) → sighted i t.sightings ≡ sighted i t.sightings + sighted i []
      plus_none i = omega (arith, sighted_none i)

  -- cleanup_synthetic_records keeps every analysis that is not synthetic and no other, every sighting
  -- that no synthetic analysis made and no other, and the indicators of the sightings that it keeps.
  -- It leaves the counts as they were: each still counts the sightings that are gone.
  pub cleanup-IsCleaned :
      (db : Db fs) (t : Tables fs)
      → IsCounted fs t
      → let (_, db', t') = cleanup_synthetic_records fs db t in IsCleaned db t db' t'
  unfolding cleanup_synthetic_records
  cleanup-IsCleaned db t c = elim (Bool-cases (is_cons (synthetic_ids db))) [
    | inl some_ids ↦ rw some_ids (delete_synthetic-IsCleaned db t c)
    | inr nothing ↦
        rw nothing (untouched-IsCleaned db t (no_ids (keep (is_synthetic fs) db) nothing) c)
  ]
