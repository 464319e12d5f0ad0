-- ===== src/Jobs/Lifecycle.antt =====
-- How a job ends: by its worker, by an operator, or, on its last attempt, not at all.
use boi.Prelude.Int.{ℤ, at_least}
use boi.Prelude.{
  ℕ, ◌+◌, ◌≡◌, refl, ◌≢◌, ◌⊎◌, inl, inr, String, Bool, true, false, ◌&&◌, Option, some, ◌==◌,
  string_eq, equals_refl, arith, Bool-cases, ap, sym, ◌∙◌, ltb, if◌then◌else◌,
}
use boi.Jobs.{
  cancelled, Job, Db, ok, err, get, update, rowcount, update_one, eligible, claim, claimed, seconds,
  complete, fail, cancel, retry, completable, failable, owner_clause, finished, failed_row,
  requeued, is_queued, is_retryable, running, and_get, job_not_cancellable, job_not_retryable,
  Error, truthy,
}
use boi.Jobs.Table.{In, In-unique, select_self, rowcount_none, rowcount_one}
use boi.Jobs.Invariant.{IsValid}
use boi.Jobs.Leases.{get-update, claim_lent}

-- An update that meets the row of this id alone.
module _ (row : Job) (p : Job → Bool) (f : Job → Job) (e : Error) (db : Db) (v : IsValid db)
    (m : In row db) (same : (j : Job) → (f j).id ≡ j.id)
    (only : (j : Job) → p j ≡ true → (j.id == row.id) ≡ true) where
  met : p row ≡ true → and_get row.id (update_one p f e db) ≡ ok (f row, update p f db)
  met hit =
      let one : rowcount p db ≡ 1 =
        rowcount_one p row db v.unique_ids (λ j h. (string_eq.equals_iff j.id row.id).0 (only j h))
          m hit in
      let read : get row.id (update p f db) ≡ ok (f row) = get-update row p f db v m hit same in
      rw (one, read)

  missed : p row ≡ false → and_get row.id (update_one p f e db) ≡ err e
  missed miss =
      let zero_rows : rowcount p db ≡ 0 = rowcount_none p db (λ j n. elim (Bool-cases (p j)) [
        | inr h ↦ h
        | inl h ↦
            let it : j ≡ row =
              In-unique j row db v.unique_ids n m
                ((string_eq.equals_iff j.id row.id).0 (only j h)) in
            cc (ap p it)
      ]) in
      rw zero_rows

-- The owner of a running job can complete it. The row is then completed with the result, its lease
-- is given back, and only the row of that id is touched.
pub complete_owned :
    (result : String) (worker : Option String) (now : ℕ) (j : Job) (db : Db)
    → IsValid db
    → In j db
    → j.status ≡ running
    → owner_clause (truthy worker) j ≡ true
    → complete j.id result worker now db
      ≡ ok (finished result now j, update (completable j.id worker) (finished result now) db)
unfolding complete finished
complete_owned result worker now j db v m r o =
    met j (completable j.id worker) (finished result now) Error.job_not_running db v m (λ a. refl)
      (λ a h. ground arith) (ground (arith, equals_refl j.id))

-- The owner of a running job can fail it. The job is queued again, after the delay, where it has an
-- attempt left, and ends as failed where it has none; either way its lease is given back.
pub fail_owned :
    (code message : String) (delay : ℤ) (worker : Option String) (now later : ℕ) (j : Job) (db : Db)
    → IsValid db
    → In j db
    → owner_clause (truthy worker) j ≡ true
    → let f =
        failed_row
          (ltb j.attempts j.max_attempts)
          code
          message
          (now + seconds (at_least 0 delay))
          later in
      fail j.id code message delay worker now later db
      ≡ ok (f j, update (failable j.id worker) f db)
unfolding fail failed_row
fail_owned code message delay worker now later j db v m o =
    let found : get j.id db ≡ ok j =
      unfold get in (ground (arith, select_self j db v.unique_ids m)) in
    rw (found, fail)
      (met j (failable j.id worker)
        (failed_row (ltb j.attempts j.max_attempts) code message (now + seconds (at_least 0 delay))
          later)
        Error.job_lease_lost db v m (λ a. refl) (λ a h. ground arith)
        (ground (arith, equals_refl j.id)))

-- An operator's `cancel` takes a job out of the queue exactly where it is queued, and `retry` puts
-- it back, with all its attempts, exactly where it has failed or was cancelled.
pub operator_calls :
    (now : ℕ) (j : Job) (db : Db)
    → IsValid db
    → In j db
    → (cancel j.id now db ≡ (
        if is_queued j.status
        then ok (
          record j { status = cancelled; completed_at = some now },
          update
              (λ a. a.id == j.id && is_queued a.status)
              (λ a. record a { status = cancelled; completed_at = some now })
              db,
        )
        else err job_not_cancellable))
      × (retry j.id now db ≡ (
          if is_retryable j.status
          then ok (
            requeued now j,
            update (λ a. a.id == j.id && is_retryable a.status) (requeued now) db,
          )
          else err job_not_retryable))
unfolding cancel retry requeued
operator_calls now j db v m =
    (cancels (Bool-cases (is_queued j.status)), retries (Bool-cases (is_retryable j.status)))
  where
    cancels :
        (is_queued j.status ≡ true) ⊎ (is_queued j.status ≡ false)
        → cancel j.id now db ≡ (
            if is_queued j.status
            then ok (
              record j { status = cancelled; completed_at = some now },
              update
                  (λ a. a.id == j.id && is_queued a.status)
                  (λ a. record a { status = cancelled; completed_at = some now })
                  db,
            )
            else err job_not_cancellable)
    cancels (inl q) = rw q (
        met j _ _ Error.job_not_cancellable db v m (λ a. refl) (λ a h. ground arith)
          (ground (arith, equals_refl j.id)))
    cancels (inr q) = rw q (
        missed j _ _ Error.job_not_cancellable db v m (λ a. refl) (λ a h. ground arith)
          (ground (arith, equals_refl j.id)))

    retries :
        (is_retryable j.status ≡ true) ⊎ (is_retryable j.status ≡ false)
        → retry j.id now db ≡ (
            if is_retryable j.status
            then ok (
              requeued now j,
              update (λ a. a.id == j.id && is_retryable a.status) (requeued now) db,
            )
            else err job_not_retryable)
    retries (inl q) = rw q (
        met j _ (requeued now) Error.job_not_retryable db v m (λ a. refl) (λ a h. ground arith)
          (ground (arith, equals_refl j.id)))
    retries (inr q) = rw q (
        missed j _ (requeued now) Error.job_not_retryable db v m (λ a. refl) (λ a h. ground arith)
          (ground (arith, equals_refl j.id)))

-- A job that is running on its last attempt is never handed out again, however long its lease has
-- run out, and an operator can neither cancel nor retry it: once its worker is gone, it stays
-- running.
pub last_attempt_stuck :
    (w : String) (lease now later : ℕ) (j k : Job) (db db' : Db)
    → IsValid db
    → In j db
    → j.status ≡ running
    → j.attempts ≡ j.max_attempts
    → (cancel j.id now db ≡ err job_not_cancellable)
      × (retry j.id now db ≡ err job_not_retryable)
      × (claim w lease now later db ≡ ok (some k, db') → k.id ≢ j.id)
unfolding claimed
last_attempt_stuck w lease now later j k db db' v m r last =
    let (c, q) = operator_calls now j db v m in
    (
      c ∙ (rw r refl),
      q ∙ (rw r refl),
      λ e same.
          let (row, first, ek, _) = claim_lent w lease now later db db' k v e in
          let it : row ≡ j =
            In-unique row j db v.unique_ids first.present m
              (sym (ap (λ (a : Job). a.id) ek) ∙ same) in
          spent (sym (ap (eligible now) it) ∙ first.meets),
    )
  where
    spent : eligible now j ≡ true → ⊥
    spent h = ground arith
