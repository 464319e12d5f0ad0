-- ===== src/Analyses/Store.antt =====
-- The table `analyses` and the methods of AnalysisRepository (fraudshield/core/repository.py). JSON
-- columns hold the text that `dumps` writes, times are microseconds.
use boi.Prelude.Floats.{Floats}
use boi.Prelude.Int.{ℤ}
use boi.Prelude.Rows.{select, update}
use boi.Prelude.Sorting.{sort_by}
use boi.Prelude.{
  ℕ, zero, suc, String, Bool, true, false, ◌&&◌, ◌||◌, not, Option, none, some, List, [], ◌∷◌, ◌++◌,
  ◌==◌, string_eq, nat_eq, ltb, any, keep, map, length, take, take_chars, contains, if◌then◌else◌,
}
use boi.Scoring.Rules.{is_cons}
use boi.Indicators.Store.{Sighting, Indicator, Tables}

pub data Status : Type 0 where
  pending running completed failed : Status

abbrev pub is_completed : Status → Bool
is_completed completed = true
is_completed _ = false

abbrev pub is_failed : Status → Bool
is_failed failed = true
is_failed _ = false

-- The text in the column.
abbrev pub status_text : Status → String
status_text pending = "pending"
status_text running = "running"
status_text completed = "completed"
status_text failed = "failed"

pub data Error : Type 0 where
  not_found integrity : Error

pub data Result (A : Type 0) : Type 0 where
  ok : A → Result A
  err : Error → Result A

infixl 5 ◌>>=◌
abbrev pub ◌>>=◌ : {A B : Type 0} → Result A → (A → Result B) → Result B
ok a >>= f = f a
err e >>= f = err e

abbrev pub column_is : Option String → String → Bool
column_is none v = false
column_is (some c) v = c == v

-- `LIMIT ? OFFSET ?`
abbrev pub skip : {A : Type 0} → ℕ → List A → List A
skip zero xs = xs
skip (suc n) [] = []
skip (suc n) (x ∷ xs) = skip n xs

-- A time by which `completed_at` orders; NULL is the least.
abbrev pub time_of : Option ℕ → ℕ
time_of none = 0
time_of (some t) = suc t

abbrev pub of_source : List String → Sighting → Bool
of_source ids s = elim s.source_analysis_id [ none ↦ false | some a ↦ contains a ids ]

pub record Deleted : Type 0 where
  pub deleted_sightings : ℕ
  pub deleted_indicators : ℕ
  pub deleted_analyses : ℕ

module _ (fs : Floats) where
  open fs use {Float}

  pub record Analysis : Type 0 where
    pub id : String
    pub status : Status
    pub data_origin : String
    pub file_name : String
    pub sha256 : String
    pub size_bytes : ℕ
    pub category : String
    pub created_at : ℕ
    pub started_at : Option ℕ
    pub completed_at : Option ℕ
    pub overall_score : Option ℤ
    pub severity : Option String
    pub confidence : Option Float
    pub analysis_quality : Option String
    pub result : Option String
    pub narrative : Option String
    pub error_code : Option String
    pub error_message : Option String

  abbrev pub Db : Type 0
  Db = List Analysis

  -- What an upload, and what a finished analysis brings.
  pub record Upload : Type 0 where
    pub file_name : String
    pub sha256 : String
    pub size_bytes : ℕ
    pub category : String
    pub data_origin : String

  pub record Outcome : Type 0 where
    pub result : String
    pub narrative : String
    pub overall_score : ℤ
    pub severity : String
    pub confidence : Float
    pub analysis_quality : String

  abbrev pub with_id : String → Analysis → Bool
  with_id i row = row.id == i

  abbrev pub found : Option Analysis → Result Analysis
  found none = err not_found
  found (some row) = ok row

  unfoldable pub get : String → Db → Result Analysis
  get i db = found (select (with_id i) db)

  -- The row and the table that a method answers with.
  abbrev pub and_get : String → Db → Result (Analysis × Db)
  and_get i db = get i db >>= λ row. ok (row, db)

  unfoldable pub new_row : String → ℕ → Upload → Analysis
  new_row id now u = record {
    id = id;
    status = pending;
    data_origin = u.data_origin;
    file_name = u.file_name;
    sha256 = u.sha256;
    size_bytes = u.size_bytes;
    category = u.category;
    created_at = now;
    started_at = none;
    completed_at = none;
    overall_score = none;
    severity = none;
    confidence = none;
    analysis_quality = none;
    result = none;
    narrative = none;
    error_code = none;
    error_message = none;
  }

  -- `create`, with the id that new_id makes: the table has a PRIMARY KEY and a CHECK of the origin.
  unfoldable pub create : String → ℕ → Upload → Db → Result (Analysis × Db)
  create id now u db =
      if any (with_id id) db || not (contains u.data_origin ("uploaded" ∷ "synthetic" ∷ []))
      then err integrity
      else and_get id (db ++ (new_row id now u ∷ []))

  unfoldable pub started : ℕ → Analysis → Analysis
  started now row = record row { status = running; started_at = some now }

  unfoldable pub mark_running : String → ℕ → Db → Db
  mark_running i now db = update (with_id i) (started now) db

  unfoldable pub finished : ℕ → Outcome → Analysis → Analysis
  finished now o row = record row {
    status = completed;
    completed_at = some now;
    result = some o.result;
    narrative = some o.narrative;
    overall_score = some o.overall_score;
    severity = some o.severity;
    confidence = some o.confidence;
    analysis_quality = some o.analysis_quality;
    error_code = none;
    error_message = none;
  }

  -- An UPDATE of one row, rolled back unless its `rowcount` is 1.
  unfoldable pub update_one : String → (Analysis → Analysis) → Db → Result (Analysis × Db)
  update_one i f db =
      if length (keep (with_id i) db) == 1
      then and_get i (update (with_id i) f db)
      else err not_found

  unfoldable pub complete : String → ℕ → Outcome → Db → Result (Analysis × Db)
  complete i now o db = update_one i (finished now o) db

  unfoldable pub broken : ℕ → String → String → Analysis → Analysis
  broken now code message row = record row {
    status = failed;
    completed_at = some now;
    error_code = some code;
    error_message = some (take_chars 1000 message);
  }

  unfoldable pub fail : String → ℕ → String → String → Db → Result (Analysis × Db)
  fail i now code message db = update_one i (broken now code message) db

  -- `if severity:` and `if status:` of `list`: a text that is not empty is a clause of the WHERE.
  abbrev pub severity_clause : Option String → Analysis → Bool
  severity_clause none row = true
  severity_clause (some v) row = v == "" || column_is row.severity v

  abbrev pub status_clause : Option String → Analysis → Bool
  status_clause none row = true
  status_clause (some v) row = v == "" || status_text row.status == v

  abbrev pub earlier : Analysis → Analysis → Bool
  earlier a b = ltb a.created_at b.created_at

  -- `list`: a page of the rows, the newest first, and the number of all that match.
  unfoldable pub list : ℕ → ℕ → Option String → Option String → Db → List Analysis × ℕ
  list limit offset severity status db =
      let matching = keep (λ row. severity_clause severity row && status_clause status row) db in
      (take limit (skip offset (sort_by earlier matching)), length matching)

  pub record Summary : Type 0 where
    pub total : ℕ
    pub completed : ℕ
    pub failed : ℕ
    pub critical : ℕ

  unfoldable pub summary : Db → Summary
  summary db = record {
    total = length db;
    completed = length (keep (λ row. is_completed row.status) db);
    failed = length (keep (λ row. is_failed row.status) db);
    critical = length (keep (λ row. column_is row.severity "CRITICAL") db);
  }

  -- `ORDER BY completed_at DESC LIMIT 1` of the completed rows.
  unfoldable pub later_of : Option Analysis → Analysis → Option Analysis
  later_of none row = if is_completed row.status then some row else none
  later_of (some b) row =
      if is_completed row.status && ltb (time_of b.completed_at) (time_of row.completed_at)
      then some row
      else some b

  unfoldable pub latest_of : Option Analysis → Db → Option Analysis
  latest_of best [] = best
  latest_of best (row ∷ db) = latest_of (later_of best row) db

  unfoldable pub latest_completed : Db → Result Analysis
  latest_completed db = found (latest_of none db)

  abbrev pub is_synthetic : Analysis → Bool
  is_synthetic row = row.data_origin == "synthetic"

  abbrev pub is_seen : List Sighting → Indicator fs → Bool
  is_seen ss row = any (λ s. s.indicator_id == row.id) ss

  -- The three DELETEs, for the ids of the synthetic analyses.
  unfoldable pub delete_synthetic : List String → Db → Tables fs → Deleted × Db × Tables fs
  delete_synthetic ids db t =
      let sightings = keep (λ s. not (of_source ids s)) t.sightings in
      (
        record {
          deleted_sightings = length (keep (of_source ids) t.sightings);
          deleted_indicators = length (keep (λ row. not (is_seen sightings row)) t.indicators);
          deleted_analyses = length (keep is_synthetic db);
        },
        keep (λ row. not (is_synthetic row)) db,
        record { indicators = keep (is_seen sightings) t.indicators; sightings = sightings },
      )

  -- `cleanup_synthetic_records`
  unfoldable pub cleanup_synthetic_records : Db → Tables fs → Deleted × Db × Tables fs
  cleanup_synthetic_records db t =
      let ids = map (λ row. row.id) (keep is_synthetic db) in
      if is_cons ids
      then delete_synthetic ids db t
      else (record { deleted_sightings = 0; deleted_indicators = 0; deleted_analyses = 0 }, db, t)
