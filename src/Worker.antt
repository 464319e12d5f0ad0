-- ===== src/Worker.antt =====
-- `DurableWorker.process_next` of fraudshield/worker.py over the job queue. The analysis itself, the
-- threads and the artifacts on the disk are not modelled: what the analysis ends in is an argument,
-- and so are the calls of the queue that happen while it runs, the lease's renewals among them.
pub mod Outcomes
pub mod Settled
mod Examples
use boi.Prelude.Int.{pos}
use boi.Prelude.{
  ℕ, String, Bool, true, false, Option, none, some, List, [], ◌∷◌, ◌==◌, string_eq, if◌then◌else◌,
}
use boi.Jobs.{
  Job, Db, Error, Result, ok, err, claim, complete, fail, job_not_running, not_found,
  invalid_job_kind, idempotency_conflict, integrity, job_lease_lost, job_not_cancellable,
  job_not_retryable,
}
use boi.Jobs.Calls.{Call, after, run}

-- How `_process_apk` ends: with its result, as a text; with a FraudShieldError, of a code and a
-- message; or with another exception.
pub data Work : Type 0 where
  analysed : String → Work
  raised : String → String → Work
  crashed : Work

-- What the methods read of the clock: two times in `claim`, one in `complete`, two in `fail`.
pub record Clock : Type 0 where
  pub now : ℕ
  pub later : ℕ
  pub done : ℕ
  pub failing : ℕ
  pub failed : ℕ

abbrev join : String → String → String
join a b = Prim.Native.String.◌++◌ a b

-- The exceptions of the queue's methods, as the worker catches them.
unfoldable pub caught : String → Error → Work
caught i invalid_job_kind = raised "invalid_job_kind" "Unsupported job kind"
caught i idempotency_conflict =
    raised "idempotency_conflict" "Idempotency-Key was already used for a different request"
caught i not_found = raised "not_found" (join "job '" (join i "' was not found"))
caught i integrity = crashed
caught i job_not_running = raised "job_not_running" "Only a running job can be completed"
caught i job_lease_lost = raised "job_lease_lost" "Worker no longer owns the job lease"
caught i job_not_cancellable = raised "job_not_cancellable" "Only a queued job can be cancelled"
caught i job_not_retryable =
    raised "job_not_retryable" "Only a failed or cancelled job can be retried"

-- The test of the job's kind.
unfoldable pub attempt : Job → Work → Work
attempt job work =
    if job.kind == "apk_analysis"
    then work
    else raised "invalid_job_kind" "Worker cannot process this job kind"

module _ (worker : String) (clock : Clock) (job : Job) where
  -- The `fail` of an `except` branch, whose own exception is only logged.
  unfoldable pub give_up : String → String → Db → Db
  give_up code message db =
      after db (fail job.id code message (pos 30) (some worker) clock.failing clock.failed db)

  -- The `except` branches.
  unfoldable pub recover : Work → Db → Db
  recover (analysed result) db = db
  recover (raised code message) db = give_up code message db
  recover crashed db =
      give_up "worker_execution_failed"
        "Worker execution failed; inspect restricted server logs using the job ID." db

  abbrev pub completed_or : Db → Result (Job × Db) → Db
  completed_or db (ok (j, db')) = db'
  completed_or db (err e) = recover (caught job.id e) db

  -- From the end of the analysis on.
  unfoldable pub conclude : Work → Db → Db
  conclude (analysed result) db =
      completed_or db (complete job.id result (some worker) clock.done db)
  conclude (raised code message) db = recover (raised code message) db
  conclude crashed db = recover crashed db

-- From the claim on: whether a job was processed, and the table.
abbrev pub with_claim :
    String → Clock → Work → List Call → Result (Option Job × Db) → Result (Bool × Db)
with_claim worker clock work between (err e) = err e
with_claim worker clock work between (ok (none, db)) = ok (false, db)
with_claim worker clock work between (ok (some job, db)) =
    ok (true, conclude worker clock job (attempt job work) (run between db))

unfoldable pub process_next : String → ℕ → Clock → Work → List Call → Db → Result (Bool × Db)
process_next worker lease clock work between db =
    with_claim worker clock work between (claim worker lease clock.now clock.later db)
