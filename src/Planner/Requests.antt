-- ===== src/Planner/Requests.antt =====
-- `_validate_raw_requests` and `_plan_only_handler`
-- (fraudshield/deceptiscope/experiments.py). The validation of the fields is the library's, by the
-- model `ExperimentRequest`: it is a parameter.
use boi.Prelude.{ℕ, ◌+◌, String, not, List, [], ◌∷◌, string_eq, keep, contains, take, if◌then◌else◌}
use boi.Security.Roles.{sorted_set}
use boi.Scoring.Rules.{is_cons}

-- An `ExperimentRequest`.
pub record Request : Type 0 where
  pub experiment_id : String
  pub hypothesis_id : String
  pub experiment_type : String
  pub objective : String
  pub expected_signal : String
  pub priority : ℕ

-- An element of the list of requests: some other value, or a dict with its keys.
pub data Raw : Type 0 where
  no_dict : Raw
  dict : List String → String → Raw

-- `ExperimentRequest.model_validate` of a dict, which is here a text beside its keys: a request, or
-- the name of the exception.
pub data Parsed : Type 0 where
  valid : Request → Parsed
  invalid : String → Parsed

-- The messages of the list of errors, with what they print.
pub data Rejection : Type 0 where
  must_be_object : ℕ → Rejection
  forbidden_fields : ℕ → List String → Rejection
  invalid_request : ℕ → String → Rejection
  unknown_hypothesis : ℕ → String → Rejection
  duplicate_id : ℕ → String → Rejection

-- `FORBIDDEN_REQUEST_KEYS`
abbrev pub forbidden_request_keys : List String
forbidden_request_keys =
    "command" ∷ "commands" ∷ "shell" ∷ "script" ∷ "scripts" ∷ "adb" ∷ "adb_args" ∷ "args"
    ∷ "arguments" ∷ "url" ∷ "urls" ∷ "path" ∷ "paths" ∷ "filesystem_path" ∷ "host" ∷ "target"
    ∷ "network_target" ∷ []

unfoldable pub forbidden : List String → List String
forbidden keys = sorted_set (keep (λ key. contains key forbidden_request_keys) keys)

pub data Checked : Type 0 where
  accepted : Request → Checked
  rejected : Rejection → Checked

module _ (parse : List String → String → Parsed) (hypotheses : List String) where
  -- The last two tests: of the hypothesis, and of the id.
  unfoldable pub check_request : ℕ → List String → Parsed → Checked
  check_request index seen (invalid name) = rejected (invalid_request index name)
  check_request index seen (valid r) =
      if not (contains r.hypothesis_id hypotheses)
      then rejected (unknown_hypothesis index r.hypothesis_id)
      else if contains r.experiment_id seen
      then rejected (duplicate_id index r.experiment_id)
      else accepted r

  -- The body of the loop, for one element.
  unfoldable pub check : ℕ → List String → Raw → Checked
  check index seen no_dict = rejected (must_be_object index)
  check index seen (dict keys fields) =
      if is_cons (forbidden keys)
      then rejected (forbidden_fields index (forbidden keys))
      else check_request index seen (parse keys fields)

  abbrev pub Outcome : Type 0
  Outcome = List Request × List Rejection

  abbrev pub with_checked : Checked → Outcome → Outcome
  with_checked (accepted r) (rs, es) = (r ∷ rs, es)
  with_checked (rejected e) (rs, es) = (rs, e ∷ es)

  abbrev pub seen_after : Checked → List String → List String
  seen_after (accepted r) seen = r.experiment_id ∷ seen
  seen_after (rejected e) seen = seen

  unfoldable pub check_all : ℕ → List String → List Raw → Outcome
  check_all index seen [] = ([], [])
  check_all index seen (raw ∷ raws) =
      let c = check index seen raw in
      with_checked c (check_all (index + 1) (seen_after c seen) raws)

  -- `_validate_raw_requests`, for a list.
  unfoldable pub validate_raw_requests : List Raw → Outcome
  validate_raw_requests raws = let (rs, es) = check_all 0 [] (take 30 raws) in (rs, take 10 es)
