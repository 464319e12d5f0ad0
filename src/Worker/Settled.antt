-- ===== src/Worker/Settled.antt =====
-- How a round of the worker (fraudshield/worker.py) leaves the job that it claimed, where nothing else
-- touches the queue meanwhile.
use boi.Prelude.Int.{pos}
use boi.Prelude.{
  true_not_false, ℕ, ◌+◌, ◌≤◌, ◌<◌, ◌≡◌, ◌≢◌, refl, sym, ap, ◌∙◌, subst, inl, inr, String, true,
  none, some, [], ◌==◌, string_eq, equals_refl, take_chars, arith, Bool-cases, ltb,
}
use boi.Jobs.{
  Job, Db, ok, claim, finished, failed_row, completable, failable, owner_clause, truthy, queued,
  running, completed, failed, seconds,
}
use boi.Jobs.Calls.{after, run}
use boi.Jobs.Table.{In}
use boi.Jobs.Invariant.{IsValid}
use boi.Jobs.Lifecycle.{complete_owned, fail_owned}
use boi.Jobs.Effects.{request_of, Replaces, update-Replaces}
use boi.Worker.{
  Work, analysed, raised, crashed, Clock, attempt, give_up, recover, conclude, process_next,
}
use boi.Worker.Outcomes.{lent_row}

-- The job after the round, beside the job that was claimed: in both cases its request and its attempts
-- are as they were, and nobody holds it.
pub record IsReleased (job k : Job) : Type 0 where
  pub same_request : request_of k ≡ request_of job
  pub attempts : k.attempts ≡ job.attempts
  pub no_lease : (k.lease_owner ≡ none) × (k.lease_expires_at ≡ none)

-- The job was completed.
pub record IsCompleted (clock : Clock) (result : String) (job k : Job) : Type 0 where
  pub released : IsReleased job k
  pub status : k.status ≡ completed
  pub result_is : k.result ≡ some result
  pub completed_at : k.completed_at ≡ some clock.done

-- The job was given back: with an attempt left it waits for half a minute, and with none it has
-- failed. The columns of the error hold 128 characters of the code and 1000 of the message.
pub record IsGivenBack (clock : Clock) (code message : String) (job k : Job) : Type 0 where
  pub released : IsReleased job k
  pub again : job.attempts < job.max_attempts → (k.status ≡ queued) × (k.completed_at ≡ none)
  pub ended :
      job.max_attempts ≤ job.attempts → (k.status ≡ failed) × (k.completed_at ≡ some clock.failed)
  pub available_at : k.available_at ≡ clock.failing + 30000000
  pub error_code : k.error_code ≡ some (take_chars 128 code)
  pub error_message : k.error_message ≡ some (take_chars 1000 message)
  pub result_is : k.result ≡ job.result

-- What the analysis ends in, and how the job ends by it.
abbrev pub Ends : Clock → Job → Work → Job → Type 0
Ends clock job (analysed result) k = IsCompleted clock result job k
Ends clock job (raised code message) k = IsGivenBack clock code message job k
Ends clock job crashed k =
    IsGivenBack clock "worker_execution_failed"
      "Worker execution failed; inspect restricted server logs using the job ID." job k

module _ (worker : String) (clock : Clock) (job : Job) (db : Db) (v : IsValid db) (m : In job db)
    (is_running : job.status ≡ running)
    (owned : owner_clause (truthy (some worker)) job ≡ true) where
  give_up_settles :
      (code message : String)
      → (k : Job) × Replaces db k (give_up worker clock job code message db)
        × IsGivenBack clock code message job k
  unfolding give_up failed_row
  give_up_settles code message =
      let f =
        failed_row (ltb job.attempts job.max_attempts) code message (clock.failing + seconds 30)
          clock.failed in
      let e =
        fail_owned code message (pos 30) (some worker) clock.failing clock.failed job db v m
          owned in
      (
        f job,
        subst (Replaces db (f job)) (sym (ap (after db) e)) (
            update-Replaces (failable job.id (some worker)) f job db
              (λ j h. (string_eq.equals_iff j.id job.id).0 (ground arith)) (λ j. refl) v.unique_ids
              m (ground (arith, equals_refl job.id))),
        record {
          released = record { same_request = refl; attempts = refl; no_lease = (refl, refl) };
          again = λ h. (ground arith, ground arith);
          ended = λ h. (ground arith, ground arith);
          available_at = refl;
          error_code = refl;
          error_message = refl;
          result_is = refl;
        },
      )

  conclude_settles :
      (w : Work) → (k : Job) × Replaces db k (conclude worker clock job w db) × Ends clock job w k
  unfolding conclude recover finished
  conclude_settles (raised code message) = give_up_settles code message
  conclude_settles crashed = give_up_settles _ _
  conclude_settles (analysed result) =
      let e = complete_owned result (some worker) clock.done job db v m is_running owned in
      let f = finished result clock.done in
      (
        f job,
        rw e (
            update-Replaces (completable job.id (some worker)) f job db
              (λ j h. (string_eq.equals_iff j.id job.id).0 (ground arith)) (λ j. refl) v.unique_ids
              m (ground (arith, equals_refl job.id))),
        record {
          released = record { same_request = refl; attempts = refl; no_lease = (refl, refl) };
          status = refl;
          result_is = refl;
          completed_at = refl;
        },
      )

-- A round that claims a job settles it, whatever the analysis ends in, where nothing else touches the
-- queue meanwhile. An analysed job is completed with the result. One whose analysis raises is queued
-- again, for half a minute later, where it has an attempt left, and has failed where it has none;
-- its error has the first 128 characters of the code and the first 1000 of the message of the
-- exception, or the code and message for an exception of another kind. A job that is no analysis of a package ends in the same way, under the code
-- invalid_job_kind. Its lease is given back, its request and its attempts stay, and so does every
-- other row of the table that the claim left.
pub process_next_settles :
    (worker : String) (lease : ℕ) (clock : Clock) (job : Job) (db db1 : Db) (work : Work)
    → IsValid db
    → claim worker lease clock.now clock.later db ≡ ok (some job, db1)
    → (k : Job) × (db' : Db) × (process_next worker lease clock work [] db ≡ ok (true, db'))
      × Replaces db1 k db'
      × (job.kind ≡ "apk_analysis" → Ends clock job work k)
      × (job.kind ≢ "apk_analysis"
          → IsGivenBack clock "invalid_job_kind" "Worker cannot process this job kind" job k)
unfolding process_next attempt run
process_next_settles worker lease clock job db db1 work v e =
    let (u, m, r, o) = lent_row worker lease clock.now clock.later db db1 job v e in
    elim (Bool-cases (job.kind == "apk_analysis")) [
      | inl apk ↦
          let (k, kept, ends) = conclude_settles worker clock job db1 u m r o work in
          (
            k,
            conclude worker clock job work db1,
            rw (e, apk) refl,
            kept,
            λ same. ends,
            λ other. absurd (other ((string_eq.equals_iff job.kind "apk_analysis").0 apk)),
          )
      | inr not_apk ↦
          let refusal = raised "invalid_job_kind" "Worker cannot process this job kind" in
          let (k, kept, ends) = conclude_settles worker clock job db1 u m r o refusal in
          (
            k,
            conclude worker clock job refusal db1,
            rw (e, not_apk) refl,
            kept,
            λ same. absurd (true_not_false (sym (apk_kind same) ∙ not_apk)),
            λ other. ends,
          )
    ]
  where
    apk_kind : job.kind ≡ "apk_analysis" → (job.kind == "apk_analysis") ≡ true
    apk_kind same = (string_eq.equals_iff job.kind "apk_analysis").1 same
