-- ===== src/Worker/Examples.antt =====
-- The theorems on the worker at a queue with one job.
use boi.Prelude.{◌≢◌, ◌≡◌, refl, Bool, true, none, some, [], ◌∷◌, take_chars, arith}
use boi.Jobs.{Status, complete, Job, Db, queued, running, ok, claim, claimed, get, finished}
use boi.Jobs.Calls.{run, claims}
use boi.Jobs.Invariant.{IsRow, IsValid}
use boi.Worker.{attempt, conclude, analysed, raised, Clock, process_next}
use boi.Worker.Outcomes.{process_next-IsValid}
use boi.Worker.Settled.{IsGivenBack, process_next_settles}
use boi.Jobs.Effects.{Replaces}

abbrev waiting_job : Job
waiting_job = record {
  id = "j1";
  kind = "apk_analysis";
  status = queued;
  payload = "{}";
  result = none;
  priority = 100;
  attempts = 0;
  max_attempts = 3;
  available_at = 10;
  lease_owner = none;
  lease_expires_at = none;
  created_by = "ana";
  created_at = 10;
  started_at = none;
  completed_at = none;
  error_code = none;
  error_message = none;
  idempotency_key = none;
}

abbrev queue : Db
queue = waiting_job ∷ []

queue-IsValid : IsValid queue
queue-IsValid = record { rows = (waiting, tt); unique_ids = (refl, tt); unique_keys = tt }
  where
    waiting : IsRow waiting_job
    waiting = ground arith

abbrev clock : Clock
clock = record { now = 20; later = 21; done = 30; failing = 31; failed = 32 }

abbrev lent_job : Job
lent_job = record waiting_job {
  status = running;
  attempts = 1;
  lease_owner = some "w1";
  lease_expires_at = some 300000021;
  started_at = some 20;
}

lends_job : claim "w1" 300 20 21 queue ≡ ok (some lent_job, lent_job ∷ [])
unfolding claim claimed get take_chars
lends_job = refl

process_next-IsValid_example :
    (processed : Bool) × (db' : Db) × (process_next "w1" 300 clock
        (analysed "{}")
        (claims "w2" 300 22 23 ∷ [])
        queue
      ≡ ok (processed, db'))
    × IsValid db'
process_next-IsValid_example =
    process_next-IsValid "w1" 300 clock (analysed "{}") (claims "w2" 300 22 23 ∷ []) queue
      queue-IsValid

-- An analysis that ends, and one that raises.
analysed_round :
    process_next "w1" 300 clock (analysed "{}") [] queue
    ≡ ok (
      true,
      record lent_job {
        status = Status.completed;
        result = some "{}";
        completed_at = some 30;
        lease_owner = none;
        lease_expires_at = none;
      }
          ∷ [],
    )
unfolding process_next claim claimed get take_chars attempt conclude complete finished run
analysed_round = refl

process_next_settles_example :
    (k : Job) × (db' : Db) × (process_next "w1" 300 clock
        (raised "missing_job_artifact" "gone")
        []
        queue
      ≡ ok (true, db'))
    × Replaces (lent_job ∷ []) k db'
    × (lent_job.kind ≡ "apk_analysis" → IsGivenBack clock "missing_job_artifact" "gone" lent_job k)
    × (lent_job.kind ≢ "apk_analysis"
        → IsGivenBack clock "invalid_job_kind" "Worker cannot process this job kind" lent_job k)
process_next_settles_example =
    process_next_settles "w1" 300 clock lent_job queue (lent_job ∷ [])
      (raised "missing_job_artifact" "gone") queue-IsValid lends_job
