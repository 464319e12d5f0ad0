-- ===== src/Indicators/Examples.antt =====
-- The theorems on indicators at one package name that two analyses see.
use boi.Prelude.Floats.{IsAtMost, maximum, minimum}
use boi.Prelude.Decimals.{decimal, decimal-IsOrdered}
use boi.Prelude.{◌≤◌, ◌≡◌, refl, take_chars, some, [], ◌∷◌, ◌==◌, string_eq}
use boi.Indicators.Normalize.{
  ok, Names, is_package, package_from, normalize_package, normalize_raw, normalize_indicator,
}
use boi.Indicators.Store.{
  high, rank, severity_of, Sighting, Indicator, Tables, Report, clamped, first_row, insert_sighting,
  with_sighting, insert_indicator, upsert_row, get, upsert,
}
use boi.Indicators.Counts.{sighted, IsCounted}
use boi.Indicators.Upsert.{upsert-IsCounted}
use boi.Indicators.Merge.{upsert_seen_again}

abbrev plain : Names
plain = record {
  strip = λ s. s;
  lower = λ s. s;
  upper = λ s. s;
  without_dots = λ s. s;
  occurs = λ part s. part == s;
  scheme = λ s. s;
  hostname = some;
  idna = λ s. s;
  ip_address = some;
}

abbrev report : Report decimal
report = record {
  indicator_type = "package";
  value = "com.evil";
  severity = "HIGH";
  confidence = 7000;
  description = "";
  source_analysis_id = some "apk_1";
  metadata = "{}";
  context = "{}";
}

abbrev row : Indicator decimal
row = record {
  id = "ioc_1";
  type = "package";
  normalized_value = "com.evil";
  display_value = "com.evil";
  severity = high;
  confidence = 7000;
  first_seen = 5;
  last_seen = 5;
  sightings_count = 1;
  description = "";
  metadata = "{}";
}

abbrev sighting : Sighting
sighting = record {
  id = "sighting_1";
  indicator_id = "ioc_1";
  source_analysis_id = some "apk_1";
  seen_at = 5;
  context = "{}";
}

abbrev nothing : Tables decimal
nothing = record { indicators = []; sightings = [] }

abbrev seen : Tables decimal
seen = record { indicators = row ∷ []; sightings = sighting ∷ [] }

nothing-IsCounted : IsCounted decimal nothing
nothing-IsCounted = record { ids = tt; values = tt; referred = tt; once = tt; counts = tt }

upsert-IsCounted_example : IsCounted decimal seen
unfolding upsert upsert_row insert_indicator first_row with_sighting insert_sighting get
    normalize_indicator normalize_raw normalize_package is_package package_from severity_of clamped
    minimum maximum take_chars
upsert-IsCounted_example =
    upsert-IsCounted decimal plain ("apk_1" ∷ []) "ioc_1" "sighting_1" 5 report nothing seen row
      nothing-IsCounted refl

seen-IsCounted : IsCounted decimal seen
unfolding sighted
seen-IsCounted = record {
  ids = (refl, tt);
  values = (refl, tt);
  referred = (refl, tt);
  once = (refl, tt);
  counts = (refl, tt);
}

upsert_seen_again_example :
    (row' : Indicator decimal) × (t' : Tables decimal) × (upsert decimal plain
        ("apk_1" ∷ [])
        "ioc_2"
        "sighting_2"
        9
        report
        seen
      ≡ ok (row', t'))
    × (t'.sightings ≡ seen.sightings)
    × (row'.id ≡ row.id)
    × (row'.first_seen ≡ row.first_seen)
    × (row'.sightings_count ≡ row.sightings_count)
    × (rank row.severity ≤ rank row'.severity)
    × (rank high ≤ rank row'.severity)
    × IsAtMost decimal row.confidence row'.confidence
    × IsAtMost decimal (clamped decimal report.confidence) row'.confidence
unfolding normalize_indicator normalize_raw normalize_package is_package package_from severity_of
upsert_seen_again_example =
    upsert_seen_again decimal plain ("apk_1" ∷ []) "ioc_2" "sighting_2" 9 report "com.evil" high
      seen row decimal-IsOrdered seen-IsCounted refl refl refl refl
