-- ===== src/Jobs/Histories.antt =====
-- Every method of the queue keeps the invariant, and so does every history of calls.
use boi.Prelude.Int.{ℤ, at_least}
use boi.Prelude.{
  ℕ, ◌+◌, ◌≡◌, refl, inl, inr, String, true, Option, none, some, List, [], ◌∷◌, ◌==◌, string_eq,
  nat_eq, arith, Bool-cases, Option-cases, ltb,
}
use boi.Jobs.{
  seconds, ◌>>=◌, enqueue_keyed, Job, Db, Error, Result, ok, err, Request, truthy, select, update,
  update_one, with_id, insert, new_row, get, and_get, eligible, first_of, claimed, finished,
  failed_row, requeued, enqueue, enqueue_insert, recover, answered, claim, renew_lease, complete,
  fail, cancel, retry, find_by_idempotency_key, idempotent_result, completable, failable,
}
use boi.Jobs.Table.{In, In-unique, select-In}
use boi.Jobs.Claim.{IsFirst, first_of-IsFirst}
use boi.Jobs.Calls.{
  Call, enqueues, claims, renews, completes, fails, cancels, retries, after, after_enqueue, apply,
  run,
}
use boi.Jobs.Invariant.{
  IsValid, new_row-IsRow, claimed-IsRow, finished-IsRow, failed_row-IsRow, requeued-IsRow,
  update-IsValid, insert-IsValid, and_get_cases,
}

complete-IsValid :
    (i result : String) (worker : Option String) (now : ℕ) (db : Db)
    → IsValid db
    → IsValid (after db (complete i result worker now db))
unfolding complete finished
complete-IsValid i result worker now db v =
    and_get_cases IsValid i (completable i worker) (finished result now) Error.job_not_running db v
      (update-IsValid _ _ db (λ j _ r _. finished-IsRow result now j r) (λ j. refl) (λ j. refl) v)

cancel-IsValid :
    (i : String) (now : ℕ) (db : Db) → IsValid db → IsValid (after db (cancel i now db))
unfolding cancel
cancel-IsValid i now db v =
    and_get_cases IsValid i _ _ Error.job_not_cancellable db v
      (update-IsValid _ _ db (λ j _ r e. ground arith) (λ j. refl) (λ j. refl) v)

retry-IsValid : (i : String) (now : ℕ) (db : Db) → IsValid db → IsValid (after db (retry i now db))
unfolding retry requeued
retry-IsValid i now db v =
    and_get_cases IsValid i _ (requeued now) Error.job_not_retryable db v
      (update-IsValid _ _ db (λ j _ r _. requeued-IsRow now j r) (λ j. refl) (λ j. refl) v)

renew_lease-IsValid :
    (i worker : String) (lease : ℤ) (now : ℕ) (db : Db)
    → IsValid db
    → IsValid (renew_lease i worker lease now db).1
unfolding renew_lease
renew_lease-IsValid i worker lease now db v =
    update-IsValid _ _ db (λ j _ r e. ground arith) (λ j. refl) (λ j. refl) v

-- The row that an update by id meets is the one that was read.
same_row :
    (row j : Job) (db : Db) → IsValid db → In row db → In j db → (j.id == row.id) ≡ true → j ≡ row
same_row row j db v m n e =
    In-unique j row db v.unique_ids n m ((string_eq.equals_iff j.id row.id).0 e)

fail-IsValid :
    (i code message : String) (delay : ℤ) (worker : Option String) (now later : ℕ) (db : Db)
    → IsValid db
    → IsValid (after db (fail i code message delay worker now later db))
unfolding fail get failed_row
fail-IsValid i code message delay worker now later db v =
    elim (Option-cases (select (with_id i) db)) [
      | inl gone ↦ rw (gone, after, fail, get) v
      | inr (current, found) ↦
          rw (found, after, fail, get) (found_case current (select-In (with_id i) db current found))
    ]
  where
    found_case :
        (current : Job)
        → In current db × (with_id i current ≡ true)
        → IsValid (
            after db (
              and_get i (
                update_one
                  (failable i worker)
                  (failed_row
                    (ltb current.attempts current.max_attempts)
                    code
                    message
                    (now + seconds (at_least 0 delay))
                    later)
                  Error.job_lease_lost
                  db)))
    found_case current (m, e) = and_get_cases IsValid i _ _ Error.job_lease_lost db v (
        update-IsValid _ _ db
          (λ j n r hit.
            let same : j ≡ current = same_row current j db v m n (
              ground (
                arith,
                string_eq.equals_iff j.id i,
                string_eq.equals_iff current.id i,
                string_eq.equals_iff j.id current.id,
              )) in
            rw (← same)
              (failed_row-IsRow code message (now + seconds (at_least 0 delay)) later j r))
          (λ j. refl) (λ j. refl) v)

answered-keeps : (j : Job) (r : Request) (db : Db) → after_enqueue db (answered j r db) ≡ db
unfolding idempotent_result
answered-keeps j r db = ground arith

recover-keeps : (e : Error) (r : Request) (db : Db) → after_enqueue db (recover e r db) ≡ db
unfolding recover idempotent_result
recover-keeps e r db = ground arith

enqueue_insert-IsValid :
    (i : String) (now : ℕ) (r : Request) (db : Db)
    → IsValid db
    → IsValid (after_enqueue db (enqueue_insert i now r db))
unfolding enqueue_insert
enqueue_insert-IsValid i now r db v = go (insert (new_row i now r) db) refl
  where
    go :
        (o : Result Db)
        → insert (new_row i now r) db ≡ o
        → IsValid (
            after_enqueue db
              (elim o [ err e ↦ recover e r db | ok db' ↦ get i db' >>= λ j. ok (j, true, db') ]))
    go (err e) h = rw (recover-keeps e r db) v
    go (ok db') h = read (get i db')
      where
        new : IsValid db'
        new = insert-IsValid (new_row i now r) db db' h (new_row-IsRow i now r) v

        read : (o : Result Job) → IsValid (after_enqueue db (o >>= λ j. ok (j, true, db')))
        read (ok j) = new
        read (err e) = v

enqueue-IsValid :
    (i : String) (now : ℕ) (r : Request) (seen db : Db)
    → IsValid db
    → IsValid (after_enqueue db (enqueue i now r seen db))
unfolding enqueue
enqueue-IsValid i now r seen db v = elim (Bool-cases (r.kind == "apk_analysis")) [
  | inr other ↦ rw other v
  | inl known ↦ rw known (keyed (truthy r.idempotency_key))
]
  where
    keyed : (k : Option String) → IsValid (after_enqueue db (enqueue_keyed k i now r seen db))
    keyed none = enqueue_insert-IsValid i now r db v
    keyed (some k) = looked_up (find_by_idempotency_key k seen)
      where
        looked_up :
            (o : Option Job)
            → IsValid (
                after_enqueue db
                  (elim o [ none ↦ enqueue_insert i now r db | some j ↦ answered j r db ]))
        looked_up none = enqueue_insert-IsValid i now r db v
        looked_up (some j) = rw (answered-keeps j r db) v

pub claim-IsValid :
    (worker : String) (lease now later : ℕ) (db : Db)
    → IsValid db
    → IsValid (after db (claim worker lease now later db))
unfolding claim claimed
claim-IsValid worker lease now later db v = go (first_of (eligible now) none db) refl
  where
    go :
        (o : Option Job)
        → first_of (eligible now) none db ≡ o
        → IsValid (
            after db (elim o [
              | none ↦ ok (none, db)
              | some row ↦
                  let db' =
                    update (with_id row.id) (claimed worker (later + seconds lease) now) db in
                  get row.id db' >>= λ j. ok (some j, db')
            ]))
    go none e = v
    go (some row) e = read (get row.id new_table)
      where
        first : IsFirst (eligible now) db row
        first = first_of-IsFirst (eligible now) db row e

        new_table : Db
        new_table = update (with_id row.id) (claimed worker (later + seconds lease) now) db

        new : IsValid new_table
        new =
            update-IsValid _ _ db
              (λ j m r hit.
                claimed-IsRow worker _ now now j
                  (rw (same_row row j db v first.present m hit) first.meets) r)
              (λ j. refl) (λ j. refl) v

        read : (o : Result Job) → IsValid (after db (o >>= λ j. ok (some j, new_table)))
        read (ok j) = new
        read (err x) = v

-- Every call of a method keeps the table valid: attempts within 1 ≤ max_attempts ≤ 20, a lease
-- exactly on the running rows, a completion time exactly on the ended ones, a queued row with an
-- attempt left, a failed one with none, and ids and idempotency keys that are unique.
pub apply-IsValid : (c : Call) (db : Db) → IsValid db → IsValid (apply c db)
unfolding apply
apply-IsValid (enqueues i now r seen) db v = enqueue-IsValid i now r seen db v
apply-IsValid (claims worker lease now later) db v = claim-IsValid worker lease now later db v
apply-IsValid (renews i worker lease now) db v = renew_lease-IsValid i worker lease now db v
apply-IsValid (completes i result worker now) db v = complete-IsValid i result worker now db v
apply-IsValid (fails i code message delay worker now later) db v =
    fail-IsValid i code message delay worker now later db v
apply-IsValid (cancels i now) db v = cancel-IsValid i now db v
apply-IsValid (retries i now) db v = retry-IsValid i now db v

-- So the table is valid after any history of calls that begins with the empty table.
pub run-IsValid : (cs : List Call) → IsValid (run cs [])
unfolding run
run-IsValid cs = from cs [] (record { rows = tt; unique_ids = tt; unique_keys = tt })
  where
    from : (cs : List Call) (db : Db) → IsValid db → IsValid (run cs db)
    from [] db v = v
    from (c ∷ cs) db v = from cs (apply c db) (apply-IsValid c db v)
