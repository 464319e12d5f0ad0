-- ===== src/Jobs/Examples.antt =====
-- The theorems on the queue at concrete tables, and tests of its methods.
use boi.Prelude.Int.{pos, negsuc}
use boi.Prelude.{
  ◌≡◌, ◌≢◌, refl, inl, inr, String, true, false, Option, none, some, [], ◌∷◌, string_eq, take_chars,
  arith,
}
use boi.Jobs.{
  new_row, find_by_idempotency_key, enqueue_insert, Job, Db, queued, running, Request, ok, err,
  claim, complete, fail, cancel, retry, renew_lease, enqueue, job_not_running, job_lease_lost,
  job_not_cancellable, job_not_retryable, claimed, get,
}
use boi.Jobs.Calls.{claims, apply}
use boi.Jobs.Invariant.{IsRow, IsValid}
use boi.Jobs.Histories.{apply-IsValid}
use boi.Jobs.Serving.{Serves, claim-Serves}
use boi.Jobs.Leases.{claim_exclusive, stale_worker_refused}
use boi.Jobs.Lifecycle.{last_attempt_stuck}
use boi.Jobs.Idempotency.{enqueue_answered}

abbrev waiting_job : Job
waiting_job = record {
  id = "j1";
  kind = "apk_analysis";
  status = queued;
  payload = "{}";
  result = none;
  priority = 100;
  attempts = 0;
  max_attempts = 3;
  available_at = 10;
  lease_owner = none;
  lease_expires_at = none;
  created_by = "ana";
  created_at = 10;
  started_at = none;
  completed_at = none;
  error_code = none;
  error_message = none;
  idempotency_key = some "key-0001";
}

abbrev running_job : Job
running_job = record waiting_job {
  id = "j2";
  status = running;
  attempts = 3;
  lease_owner = some "w1";
  lease_expires_at = some 50;
  started_at = some 20;
  idempotency_key = none;
}

abbrev table : Db
table = waiting_job ∷ running_job ∷ []

waiting_job-IsRow : IsRow waiting_job
waiting_job-IsRow = ground arith

running_job-IsRow : IsRow running_job
running_job-IsRow = ground arith

table-IsValid : IsValid table
table-IsValid = record {
  rows = (waiting_job-IsRow, (running_job-IsRow, tt));
  unique_ids = (refl, (refl, tt));
  unique_keys = (refl, tt);
}

apply-IsValid_example : IsValid (apply (claims "w2" 300 60 61) table)
apply-IsValid_example = apply-IsValid (claims "w2" 300 60 61) table table-IsValid

claim-Serves_example :
    (o : Option Job) × (db' : Db) × (claim "w2" 300 60 61 table ≡ ok (o, db'))
    × Serves "w2" 300 60 61 table o db'
claim-Serves_example = claim-Serves "w2" 300 60 61 table table-IsValid

abbrev lent_job : Job
lent_job = record waiting_job {
  status = running;
  attempts = 1;
  lease_owner = some "w2";
  lease_expires_at = some 61;
  started_at = some 60;
}

abbrev late_job : Job
late_job = record waiting_job { id = "j3"; idempotency_key = none }

abbrev two_waiting : Db
two_waiting = waiting_job ∷ late_job ∷ []

two_waiting-IsValid : IsValid two_waiting
two_waiting-IsValid = record {
  rows = (waiting_job-IsRow, (late_job-IsRow, tt));
  unique_ids = (refl, (refl, tt));
  unique_keys = (refl, tt);
}
  where
    late_job-IsRow : IsRow late_job
    late_job-IsRow = ground arith

first_claim : claim "w2" 0 60 61 two_waiting ≡ ok (some lent_job, lent_job ∷ late_job ∷ [])
unfolding claim claimed get take_chars
first_claim = refl

abbrev lent_late_job : Job
lent_late_job = record late_job {
  status = running;
  attempts = 1;
  lease_owner = some "w3";
  lease_expires_at = some 62;
  started_at = some 61;
}

second_claim :
    claim "w3" 0 61 62 (lent_job ∷ late_job ∷ [])
    ≡ ok (some lent_late_job, lent_job ∷ lent_late_job ∷ [])
unfolding claim claimed get take_chars
second_claim = refl

claim_exclusive_example : lent_late_job.id ≢ lent_job.id
claim_exclusive_example =
    claim_exclusive "w2" "w3" 0 60 61 0 61 62 two_waiting (lent_job ∷ late_job ∷ [])
      (lent_job ∷ lent_late_job ∷ []) lent_job lent_late_job two_waiting-IsValid first_claim
      (omega arith) second_claim

w9_named : ◌≢◌ {A = String} "w9" ""
w9_named = ground (arith, string_eq.equals_iff "w9" "")

not_w9 : running_job.lease_owner ≢ some (take_chars 256 "w9")
unfolding take_chars
not_w9 e = ground (arith, string_eq.equals_iff "w1" "w9")

stale_worker_refused_example :
    (complete "j2" "{}" (some "w9") 40 table ≡ err job_not_running)
    × (fail "j2" "code" "text" (pos 30) (some "w9") 40 41 table ≡ err job_lease_lost)
    × (renew_lease "j2" "w9" (pos 300) 40 table ≡ (false, table))
stale_worker_refused_example =
    stale_worker_refused "w9" "{}" "code" "text" (pos 300) (pos 30) 40 41 running_job table
      table-IsValid (inr (inl refl)) w9_named not_w9

last_attempt_stuck_example :
    (cancel "j2" 60 table ≡ err job_not_cancellable)
    × (retry "j2" 60 table ≡ err job_not_retryable)
    × (claim "w2" 0 60 61 table ≡ ok (some lent_job, lent_job ∷ running_job ∷ [])
        → lent_job.id ≢ "j2")
last_attempt_stuck_example =
    last_attempt_stuck "w2" 0 60 61 running_job lent_job table (lent_job ∷ running_job ∷ [])
      table-IsValid (inr (inl refl)) refl refl

abbrev request : Request
request = record {
  kind = "apk_analysis";
  payload = "{}";
  created_by = "ana";
  priority = pos 5;
  max_attempts = negsuc 0;
  idempotency_key = some "key-0001";
}

-- The request's key is taken by another process after the first lookup.
enqueue_answered_example : enqueue "j9" 80 request [] table ≡ ok (waiting_job, false, table)
unfolding take_chars find_by_idempotency_key
enqueue_answered_example =
    enqueue_answered "j9" "key-0001" 80 request waiting_job [] table table-IsValid (inl refl) refl
      refl refl (inr refl) refl

-- A negative `max_attempts` is raised to one.
fresh_row :
    (enqueue "j9" 80 (record request { idempotency_key = none }) [] [])
    ≡ ok (
      record waiting_job {
        id = "j9";
        priority = 5;
        max_attempts = 1;
        available_at = 80;
        created_at = 80;
        idempotency_key = none;
      },
      true,
      (record waiting_job {
        id = "j9";
        priority = 5;
        max_attempts = 1;
        available_at = 80;
        created_at = 80;
        idempotency_key = none;
      })
          ∷ [],
    )
unfolding enqueue enqueue_insert new_row take_chars get
fresh_row = refl
