-- ===== src/Indicators/Store.antt =====
-- The tables `indicators` and `indicator_sightings`, and IndicatorRepository.upsert and get
-- (fraudshield/core/repository.py). Ids are those that new_id makes; `analyses` has the ids of the
-- table that a sighting's source refers to. JSON columns hold the text that `dumps` writes.
use boi.Prelude.Floats.{Floats, minimum, maximum}
use boi.Prelude.Rows.{select, update}
use boi.Prelude.{
  ℕ, ◌+◌, String, Bool, true, false, ◌&&◌, ◌||◌, not, Option, none, some, List, [], ◌∷◌, ◌++◌, ◌==◌,
  string_eq, nat_eq, ltb, any, take_chars, if◌then◌else◌,
}
use boi.Indicators.Normalize.{
  invalid_severity, not_found, integrity, Result, ok, err, ◌>>=◌, Names, normalize_indicator,
}

pub data Severity : Type 0 where
  low medium high critical : Severity

-- `SEVERITY_ORDER`
abbrev pub rank : Severity → ℕ
rank low = 0
rank medium = 1
rank high = 2
rank critical = 3

-- A name that is a key of `SEVERITY_ORDER`.
unfoldable pub severity_of : String → Option Severity
severity_of sev =
    if sev == "LOW"
    then some low
    else if sev == "MEDIUM"
    then some medium
    else if sev == "HIGH"
    then some high
    else if sev == "CRITICAL"
    then some critical
    else none

-- `max((a, b), key=SEVERITY_ORDER.get)`, which keeps the first of two equals.
unfoldable pub higher : Severity → Severity → Severity
higher a b = if ltb (rank a) (rank b) then b else a

-- A row of `indicator_sightings`.
pub record Sighting : Type 0 where
  pub id : String
  pub indicator_id : String
  pub source_analysis_id : Option String
  pub seen_at : ℕ
  pub context : String

-- SQL's `source_analysis_id=? OR (source_analysis_id IS NULL AND ? IS NULL)`
abbrev pub same_source : Option String → Option String → Bool
same_source none none = true
same_source (some a) (some b) = a == b
same_source _ _ = false

abbrev pub is_sighting : String → Option String → Sighting → Bool
is_sighting indicator_id source s =
    s.indicator_id == indicator_id && same_source s.source_analysis_id source

module _ (fs : Floats) where
  open fs use {Float, literal}

  -- A row of `indicators`.
  pub record Indicator : Type 0 where
    pub id : String
    pub type : String
    pub normalized_value : String
    pub display_value : String
    pub severity : Severity
    pub confidence : Float
    pub first_seen : ℕ
    pub last_seen : ℕ
    pub sightings_count : ℕ
    pub description : String
    pub metadata : String

  pub record Tables : Type 0 where
    pub indicators : List Indicator
    pub sightings : List Sighting

  -- The arguments of upsert.
  pub record Report : Type 0 where
    pub indicator_type : String
    pub value : String
    pub severity : String
    pub confidence : Float
    pub description : String
    pub source_analysis_id : Option String
    pub metadata : String
    pub context : String

  abbrev pub has_id : String → Indicator → Bool
  has_id i row = row.id == i

  abbrev pub has_value : String → String → Indicator → Bool
  has_value kind normalized row = row.type == kind && row.normalized_value == normalized

  -- `min(1.0, max(0.0, x))`
  unfoldable pub clamped : Float → Float
  clamped x = minimum fs (literal 1 0) (maximum fs (literal 0 0) x)

  -- The row of a value that is known.
  unfoldable pub merged : ℕ → Report → Severity → Indicator → Indicator
  merged now r sev row = record row {
    last_seen = now;
    severity = higher row.severity sev;
    confidence = maximum fs row.confidence (clamped r.confidence);
    description = if r.description == "" then row.description else take_chars 1000 r.description;
  }

  -- `UPDATE indicators SET sightings_count=sightings_count+1`
  unfoldable pub counted : Indicator → Indicator
  counted row = record row { sightings_count = row.sightings_count + 1 }

  module _ (names : Names) where
    open names use {strip, lower, upper}

    abbrev pub kind_of : Report → String
    kind_of r = lower (strip r.indicator_type)

    -- The row of a value that is seen for the first time.
    unfoldable pub first_row : String → ℕ → Report → String → Severity → Indicator
    first_row id now r normalized sev = record {
      id = id;
      type = kind_of r;
      normalized_value = normalized;
      display_value = strip r.value;
      severity = sev;
      confidence = clamped r.confidence;
      first_seen = now;
      last_seen = now;
      sightings_count = 1;
      description = take_chars 1000 r.description;
      metadata = r.metadata;
    }

    abbrev pub source_exists : List String → Option String → Bool
    source_exists analyses none = true
    source_exists analyses (some a) = any (λ i. i == a) analyses

    -- The INSERT of a sighting: its key, and the key that it refers to.
    unfoldable pub insert_sighting : List String → Sighting → List Sighting → Result (List Sighting)
    insert_sighting analyses new rows =
        if any (λ s. s.id == new.id) rows || not (source_exists analyses new.source_analysis_id)
        then err integrity
        else ok (rows ++ (new ∷ []))

    -- The sighting of the report, unless its source has seen the indicator before; `known` says
    -- whether the indicator was there.
    unfoldable pub with_sighting :
        List String → String → ℕ → Report → Bool → String → Tables → Result Tables
    with_sighting analyses sighting_id now r known indicator_id t =
        if any (is_sighting indicator_id r.source_analysis_id) t.sightings
        then ok t
        else (insert_sighting analyses
              (record {
                id = sighting_id;
                indicator_id = indicator_id;
                source_analysis_id = r.source_analysis_id;
                seen_at = now;
                context = r.context;
              })
              t.sightings
            >>= λ sightings. ok (record {
              indicators =
                  if known then update (has_id indicator_id) counted t.indicators else t.indicators;
              sightings = sightings;
            }))

    -- The INSERT of a row, in the transaction that found no row of its value.
    unfoldable pub insert_indicator : Indicator → Tables → Result Tables
    insert_indicator new t =
        if any (has_id new.id) t.indicators
        then err integrity
        else ok (record t { indicators = t.indicators ++ (new ∷ []) })

    -- The two branches, each up to the sighting, with the id of the row.
    unfoldable pub upsert_row :
        List String
        → String
        → String
        → ℕ
        → Report
        → String
        → Severity
        → Option Indicator
        → Tables
        → Result (String × Tables)
    upsert_row analyses ioc_id sighting_id now r normalized sev none t =
        insert_indicator (first_row ioc_id now r normalized sev) t >>= λ t'.
        with_sighting analyses sighting_id now r false ioc_id t' >>= λ t''. ok (ioc_id, t'')
    upsert_row analyses ioc_id sighting_id now r normalized sev (some row) t =
        with_sighting analyses sighting_id now r true row.id
          (record t { indicators = update (has_id row.id) (merged now r sev) t.indicators })
        >>= λ t'. ok (row.id, t')

    abbrev pub found : Option Indicator → Result Indicator
    found none = err not_found
    found (some row) = ok row

    unfoldable pub get : String → Tables → Result Indicator
    get i t = found (select (has_id i) t.indicators)

    abbrev pub known_severity : Option Severity → Result Severity
    known_severity none = err invalid_severity
    known_severity (some sev) = ok sev

    -- `upsert`, and the tables that it leaves.
    unfoldable pub upsert :
        List String → String → String → ℕ → Report → Tables → Result (Indicator × Tables)
    upsert analyses ioc_id sighting_id now r t =
        normalize_indicator names (kind_of r) r.value >>= λ normalized.
        known_severity (severity_of (upper r.severity)) >>= λ sev.
        upsert_row analyses ioc_id sighting_id now r normalized sev
          (select (has_value (kind_of r) normalized) t.indicators) t
        >>= λ (i, t'). get i t' >>= λ row. ok (row, t')
