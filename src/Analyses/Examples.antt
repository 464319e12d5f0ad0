-- ===== src/Analyses/Examples.antt =====
-- The theorems on analyses at one upload and one synthetic record.
use boi.Prelude.Decimals.{decimal}
use boi.Prelude.Int.{pos}
use boi.Prelude.{refl, none, some, List, [], ◌∷◌}
use boi.Indicators.Store.{high, Sighting, Indicator, Tables}
use boi.Indicators.Counts.{sighted, IsCounted}
use boi.Analyses.Store.{
  completed, Analysis, Db, Upload, Outcome, cleanup_synthetic_records, latest_completed,
}
use boi.Analyses.Lifecycle.{Call, creates, starts, completes, fails, run, IsValid, run-IsValid}
use boi.Analyses.Latest.{IsLatest, latest_completed-IsLatest}
use boi.Analyses.Cleanup.{IsCleaned, cleanup-IsCleaned}

abbrev upload : Upload decimal
upload = record {
  file_name = "bank.apk";
  sha256 = "aa";
  size_bytes = 10;
  category = "banking";
  data_origin = "uploaded";
}

abbrev outcome : Outcome decimal
outcome = record {
  result = "{}";
  narrative = "n";
  overall_score = pos 80;
  severity = "CRITICAL";
  confidence = 9000;
  analysis_quality = "full";
}

abbrev calls : List (Call decimal)
calls =
    creates "apk_1" 1 upload
    ∷ starts "apk_1" 2
    ∷ fails "apk_1" 3 "timeout" "no answer"
    ∷ completes "apk_1" 4 outcome
    ∷ completes "apk_2" 5 outcome
    ∷ []

run-IsValid_example : IsValid decimal (run decimal calls [])
run-IsValid_example = run-IsValid decimal calls [] (record { ids = tt; says = tt })

abbrev row : Analysis decimal
row = record {
  id = "apk_1";
  status = completed;
  data_origin = "uploaded";
  file_name = "bank.apk";
  sha256 = "aa";
  size_bytes = 10;
  category = "banking";
  created_at = 1;
  started_at = some 2;
  completed_at = some 3;
  overall_score = some (pos 80);
  severity = some "CRITICAL";
  confidence = some 9000;
  analysis_quality = some "full";
  result = some "{}";
  narrative = some "n";
  error_code = none;
  error_message = none;
}

abbrev db : Db decimal
db = row ∷ record row { id = "apk_2"; data_origin = "synthetic" } ∷ []

latest_completed-IsLatest_example : IsLatest decimal db (latest_completed decimal db)
latest_completed-IsLatest_example = latest_completed-IsLatest decimal db

abbrev indicator : Indicator decimal
indicator = record {
  id = "ioc_1";
  type = "domain";
  normalized_value = "c2.example";
  display_value = "c2.example";
  severity = high;
  confidence = 7000;
  first_seen = 5;
  last_seen = 5;
  sightings_count = 2;
  description = "";
  metadata = "{}";
}

abbrev sighting : Sighting
sighting = record {
  id = "sighting_1";
  indicator_id = "ioc_1";
  source_analysis_id = some "apk_1";
  seen_at = 5;
  context = "{}";
}

abbrev tables : Tables decimal
tables = record {
  indicators = indicator ∷ [];
  sightings =
      sighting ∷ record sighting { id = "sighting_2"; source_analysis_id = some "apk_2" } ∷ [];
}

tables-IsCounted : IsCounted decimal tables
unfolding sighted
tables-IsCounted = record {
  ids = (refl, tt);
  values = (refl, tt);
  referred = (refl, (refl, tt));
  once = (refl, (refl, tt));
  counts = (refl, tt);
}

cleanup-IsCleaned_example :
    let (_, db', t') = cleanup_synthetic_records decimal db tables in
    IsCleaned decimal db tables db' t'
cleanup-IsCleaned_example = cleanup-IsCleaned decimal db tables tables-IsCounted
