-- ===== src/Indicators/Counts.antt =====
-- IndicatorRepository.upsert keeps the counts of sightings (fraudshield/core/repository.py).
use boi.Prelude.Floats.{Floats}
use boi.Prelude.Rows.{
  any-append, none-found, Unique-append, update, any-update, All-update, Unique, Unique-update,
}
use boi.Prelude.{
  none, some, inr, true_not_false, inl, equals_refl, Bool-cases, All-append, equals_sym, Option, ℕ,
  ◌+◌, ◌≡◌, refl, sym, ap, ◌∙◌, String, Bool, true, false, List, [], ◌∷◌, ◌++◌, ◌==◌, string_eq,
  any, All, All-mono, or-false, if◌then◌else◌, arith,
}
use boi.Indicators.Store.{
  same_source, counted, Sighting, is_sighting, Indicator, Tables, has_id, has_value,
}

-- The number of sightings of an indicator.
unfoldable pub sighted : String → List Sighting → ℕ
sighted i [] = 0
sighted i (s ∷ ss) = (if s.indicator_id == i then 1 else 0) + sighted i ss

sighted-append :
    (i : String) (ss : List Sighting) (s : Sighting)
    → sighted i (ss ++ (s ∷ [])) ≡ sighted i ss + (if s.indicator_id == i then 1 else 0)
unfolding sighted
sighted-append i [] s = omega arith
sighted-append i (x ∷ ss) s = omega (arith, sighted-append i ss s)

abbrev pub of_indicator : String → Sighting → Bool
of_indicator i s = s.indicator_id == i

unsighted : (i : String) (ss : List Sighting) → any (of_indicator i) ss ≡ false → sighted i ss ≡ 0
unfolding sighted
unsighted i [] h = refl
unsighted i (s ∷ ss) h =
    let (miss, rest) = or-false (s.indicator_id == i) _ h in rw (miss, unsighted i ss rest) refl

same_source_sym : (a b : Option String) → same_source a b ≡ same_source b a
same_source_sym none none = refl
same_source_sym none (some b) = refl
same_source_sym (some a) none = refl
same_source_sym (some a) (some b) = equals_sym a b

abbrev pub same_sighting : Sighting → Sighting → Bool
same_sighting a b = is_sighting a.indicator_id a.source_analysis_id b

module _ (fs : Floats) where
  abbrev pub same_value : Indicator fs → Indicator fs → Bool
  same_value a b = has_value fs a.type a.normalized_value b

  abbrev pub same_row : Indicator fs → Indicator fs → Bool
  same_row a b = has_id fs a.id b

  -- No two rows have one id, or one type and value; every sighting is of a row; a source sees an
  -- indicator once; and each row counts its sightings.
  pub record IsCounted (t : Tables fs) : Type 0 where
    pub ids : Unique same_row t.indicators
    pub values : Unique same_value t.indicators
    pub referred : All (λ s. any (has_id fs s.indicator_id) t.indicators ≡ true) t.sightings
    pub once : Unique same_sighting t.sightings
    pub counts : All (λ row. row.sightings_count ≡ sighted row.id t.sightings) t.indicators

  -- A row that an UPDATE changed keeps its keys.
  pub keep_keys :
      (q : Indicator fs → Bool) (f : Indicator fs → Indicator fs) (t : Tables fs)
      → ((x : Indicator fs) → (f x).id ≡ x.id)
      → ((x : Indicator fs) → (f x).type ≡ x.type)
      → ((x : Indicator fs) → (f x).normalized_value ≡ x.normalized_value)
      → ((x : Indicator fs) → (f x).sightings_count ≡ x.sightings_count)
      → IsCounted t
      → IsCounted (record t { indicators = update q f t.indicators })
  keep_keys q f t i k v n c = record {
    ids =
        Unique-update same_row q f t.indicators (λ x y. rw (i x) refl) (λ x y. rw (i y) refl) c.ids;
    values =
        Unique-update same_value q f t.indicators (λ x y. rw (k x, v x) refl)
          (λ x y. rw (k y, v y) refl) c.values;
    referred =
        All-mono _ _ t.sightings
          (λ s h.
            any-update (has_id fs s.indicator_id) q f t.indicators (λ x hit. rw (i x) refl) ∙ h)
          c.referred;
    once = c.once;
    counts =
        All-update _ _ q f t.indicators
          (λ x hit h. n x ∙ h ∙ ap (λ j. sighted j t.sightings) (sym (i x))) (λ x miss h. h)
          c.counts;
  }

  -- A sighting that no other repeats.
  new_sighting :
      (ss : List Sighting) (new : Sighting)
      → any (is_sighting new.indicator_id new.source_analysis_id) ss ≡ false
      → Unique same_sighting ss
      → Unique same_sighting (ss ++ (new ∷ []))
  new_sighting ss new h u =
      Unique-append same_sighting new ss
        (All-mono _ _ ss
          (λ x k.
            rw
              (
                equals_sym new.indicator_id x.indicator_id,
                same_source_sym new.source_analysis_id x.source_analysis_id,
              )
              k)
          (none-found _ ss h))
        u

  -- A new sighting of a row that is there, counted.
  pub sighted_again :
      (t : Tables fs) (new : Sighting)
      → any (has_id fs new.indicator_id) t.indicators ≡ true
      → any (is_sighting new.indicator_id new.source_analysis_id) t.sightings ≡ false
      → IsCounted t
      → IsCounted (record {
        indicators = update (has_id fs new.indicator_id) (counted fs) t.indicators;
        sightings = t.sightings ++ (new ∷ []);
      })
  unfolding counted
  sighted_again t new there unseen c = record {
    ids =
        Unique-update same_row (has_id fs new.indicator_id) (counted fs) t.indicators (λ x y. refl)
          (λ x y. refl) c.ids;
    values =
        Unique-update same_value (has_id fs new.indicator_id) (counted fs) t.indicators
          (λ x y. refl) (λ x y. refl) c.values;
    referred =
        All-append _ t.sightings (new ∷ [])
          (All-mono _ _ t.sightings (λ s h. still s.indicator_id ∙ h) c.referred)
          (still new.indicator_id ∙ there, tt);
    once = new_sighting t.sightings new unseen c.once;
    counts =
        All-update _ _ (has_id fs new.indicator_id) (counted fs) t.indicators
          (λ x hit h. sym (
            sighted-append x.id t.sightings new
            ∙ rw (equals_sym new.indicator_id x.id, hit) (omega (arith, h))))
          (λ x miss h.
            h
            ∙ sym (
                sighted-append x.id t.sightings new
                ∙ rw (equals_sym new.indicator_id x.id, miss) (omega arith)))
          c.counts;
  }
    where
      still :
          (i : String)
          → any (has_id fs i) (update (has_id fs new.indicator_id) (counted fs) t.indicators)
            ≡ any (has_id fs i) t.indicators
      still i = any-update (has_id fs i) _ _ t.indicators (λ x hit. refl)

  -- No sighting is of an id that no row has.
  pub unreferred :
      (i : String) (src : Option String) (rows : List (Indicator fs)) (ss : List Sighting)
      → any (has_id fs i) rows ≡ false
      → All (λ s. any (has_id fs s.indicator_id) rows ≡ true) ss
      → (sighted i ss ≡ 0) × (any (is_sighting i src) ss ≡ false)
  unfolding sighted
  unreferred i src rows [] h r = (refl, refl)
  unreferred i src rows (s ∷ ss) h r = elim (Bool-cases (s.indicator_id == i)) [
    | inl same ↦ absurd (
        true_not_false (
          sym r.0
          ∙ ap (λ k. any (has_id fs k) rows) ((string_eq.equals_iff s.indicator_id i).0 same)
          ∙ h))
    | inr other ↦
        let (zero, unseen) = unreferred i src rows ss h r.1 in
        rw other (omega (arith, zero), unseen)
  ]

  -- A row of a new value, with its first sighting.
  pub sighted_first :
      (t : Tables fs) (row : Indicator fs) (id : String) (src : Option String) (seen : ℕ)
      (ctx : String)
      → row.sightings_count ≡ 1
      → any (has_id fs row.id) t.indicators ≡ false
      → any (has_value fs row.type row.normalized_value) t.indicators ≡ false
      → IsCounted t
      → IsCounted (record {
        indicators = t.indicators ++ (row ∷ []);
        sightings =
            t.sightings
            ++ (record {
              id = id;
              indicator_id = row.id;
              source_analysis_id = src;
              seen_at = seen;
              context = ctx;
            }
                ∷ []);
      })
  sighted_first t row id src seen ctx one fresh unknown c = record {
    ids =
        Unique-append same_row row t.indicators
          (All-mono _ _ t.indicators (λ x k. equals_sym row.id x.id ∙ k) others) c.ids;
    values =
        Unique-append same_value row t.indicators
          (All-mono _ _ t.indicators
            (λ x k.
              rw (equals_sym row.type x.type, equals_sym row.normalized_value x.normalized_value) k)
            (none-found _ t.indicators unknown))
          c.values;
    referred =
        All-append _ t.sightings (new ∷ [])
          (All-mono _ _ t.sightings
            (λ s h. any-append (has_id fs s.indicator_id) t.indicators (row ∷ []) ∙ rw h refl)
            c.referred)
          (
            any-append (has_id fs row.id) t.indicators (row ∷ [])
                ∙ rw (fresh, equals_refl row.id) refl,
            tt,
          );
    once = new_sighting t.sightings new nowhere.1 c.once;
    counts =
        All-append _ t.indicators (row ∷ [])
          (All-mono _ _ t.indicators
            (λ x (k, h).
              h
              ∙ sym (
                  sighted-append x.id t.sightings new
                  ∙ rw (equals_sym row.id x.id, k) (omega arith)))
            (both t.indicators others c.counts))
          (
            one
                ∙ sym (
                    sighted-append row.id t.sightings new
                    ∙ rw (nowhere.0, equals_refl row.id) refl),
            tt,
          );
  }
    where
      new : Sighting
      new = record {
        id = id;
        indicator_id = row.id;
        source_analysis_id = src;
        seen_at = seen;
        context = ctx;
      }

      others : All (λ x. has_id fs row.id x ≡ false) t.indicators
      others = none-found (has_id fs row.id) t.indicators fresh

      nowhere :
          (sighted row.id t.sightings ≡ 0) × (any (is_sighting row.id src) t.sightings ≡ false)
      nowhere = unreferred row.id src t.indicators t.sightings fresh c.referred

      both :
          (xs : List (Indicator fs))
          → All (λ x. has_id fs row.id x ≡ false) xs
          → All (λ x. x.sightings_count ≡ sighted x.id t.sightings) xs
          → All
              (λ x. (has_id fs row.id x ≡ false) × (x.sightings_count ≡ sighted x.id t.sightings))
              xs
      both [] h k = tt
      both (x ∷ xs) h k = ((h.0, k.0), both xs h.1 k.1)
