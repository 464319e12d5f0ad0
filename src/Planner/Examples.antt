-- ===== src/Planner/Examples.antt =====
-- The theorems on the planner at two requests of a language model.
use boi.Prelude.{
  ◌≤◌, ◌≡◌, String, Bool, true, List, [], ◌∷◌, ◌==◌, string_eq, Distinct, length, take,
  if◌then◌else◌,
}
use boi.Planner.Requests.{
  Rejection, Request, Raw, no_dict, dict, Parsed, valid, invalid, validate_raw_requests,
}
use boi.Planner.Accepted.{experiment_ids}
use boi.Planner.Accounts.{Accounts, validate_raw_requests-Accounts}
use boi.Planner.Plan.{Definition}

abbrev launch : Request
launch = record {
  experiment_id = "EXP001";
  hypothesis_id = "HYP001";
  experiment_type = "LAUNCH_APP";
  objective = "Launch the app.";
  expected_signal = "package_state";
  priority = 1;
}

abbrev parse : List String → String → Parsed
parse keys fields = if fields == "launch" then valid launch else invalid "ValidationError"

abbrev asked : List Raw
asked =
    dict ("experiment_id" ∷ []) "launch"
    ∷ dict ("experiment_id" ∷ "shell" ∷ []) "launch"
    ∷ no_dict
    ∷ dict ("experiment_id" ∷ []) "launch"
    ∷ []

abbrev known : List String
known = "HYP001" ∷ []

validate_raw_requests-Accounts_example :
    let (rs, told) = validate_raw_requests parse known asked in
    ((es : List Rejection) × Accounts parse known 0 [] (take 30 asked) rs es × (told ≡ take 10 es))
    × Distinct (experiment_ids rs)
    × (length rs ≤ 30)
validate_raw_requests-Accounts_example = validate_raw_requests-Accounts parse known asked

abbrev emulator : String → Bool
emulator c = c == "adb_available"

abbrev definitions : String → Definition
definitions t = record {
  required_capabilities = "adb_available" ∷ [];
  timeout_seconds = 60;
  safe_by_default = true;
}
