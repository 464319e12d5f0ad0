-- ===== src/Jobs/Leases.antt =====
-- Leases: what `claim` hands out, and who may renew, complete or fail a job.
use boi.Prelude.Int.{ℤ}
use boi.Prelude.{
  equals_refl, ℕ, ◌+◌, ◌≤◌, ◌≡◌, refl, ◌≢◌, inl, inr, String, Bool, true, false, Option, none, some,
  string_eq, take_chars, arith, Bool-cases, Option-cases, ap, sym, ◌∙◌,
}
use boi.Jobs.{
  rowcount, column_is, job_lease_lost, job_not_running, Job, Db, ok, err, get, update, with_id,
  eligible, first_of, claim, claimed, seconds, renew_lease, complete, fail, holds_lease,
  completable, failable,
}
use boi.Jobs.Table.{
  In, In-unique, select-update, select_self, update_hit, rowcount_none, update_none,
}
use boi.Jobs.Claim.{IsFirst, first_of-IsFirst, first_of-none}
use boi.Jobs.Invariant.{IsValid}
use boi.Jobs.Histories.{claim-IsValid}

-- What one claim does to the table, by whether it hands out a job.
pub data Claims (worker : String) (lease now later : ℕ) (db : Db) : Option Job → Db → Type 0 where
  nothing :
      ((j : Job) → In j db → eligible now j ≡ false) → Claims worker lease now later db none db
  lends :
      (row : Job)
      → IsFirst (eligible now) db row
      → Claims worker lease now later db
          (some (claimed worker (later + seconds lease) now row))
          (update (with_id row.id) (claimed worker (later + seconds lease) now) db)

-- Reading back a row that an update has met.
pub get-update :
    (row : Job) (p : Job → Bool) (f : Job → Job) (db : Db)
    → IsValid db
    → In row db
    → p row ≡ true
    → ((j : Job) → (f j).id ≡ j.id)
    → get row.id (update p f db) ≡ ok (f row)
unfolding get
get-update row p f db v m hit same =
    ground (arith, select-update row.id p f same db row (select_self row db v.unique_ids m))

-- On a valid table a claim does not raise. It hands out the first of the eligible rows, in the
-- order of priority and then of age, marked as running under the worker's lease, with one attempt
-- more, and changes no other row; it hands out nothing, and changes nothing, exactly where no row
-- is eligible.
pub claim-Claims :
    (worker : String) (lease now later : ℕ) (db : Db)
    → IsValid db
    → (o : Option Job) × (db' : Db) × (claim worker lease now later db ≡ ok (o, db'))
      × Claims worker lease now later db o db'
unfolding claim claimed
claim-Claims worker lease now later db v = elim (Option-cases (first_of (eligible now) none db)) [
  | inl e ↦ (none, db, rw (e, claim), nothing (λ j m. first_of-none (eligible now) db j e m))
  | inr (row, e) ↦
      let first = first_of-IsFirst (eligible now) db row e in
      let lent = claimed worker (later + seconds lease) now in
      let read : get row.id (update (with_id row.id) lent db) ≡ ok (lent row) =
        get-update row (with_id row.id) lent db v first.present (equals_refl row.id) (λ j. refl) in
      (some (lent row), update (with_id row.id) lent db, rw (e, claim, read), lends row first)
]

-- Whenever some row is eligible, a claim hands out a job.
pub claim_succeeds :
    (worker : String) (lease now later : ℕ) (db : Db) (j : Job)
    → IsValid db
    → In j db
    → eligible now j ≡ true
    → (k : Job) × (db' : Db) × (claim worker lease now later db ≡ ok (some k, db'))
claim_succeeds worker lease now later db j v m h =
    let (o, db', e, c) = claim-Claims worker lease now later db v in go o db' e c
  where
    go :
        (o : Option Job) (db' : Db)
        → claim worker lease now later db ≡ ok (o, db')
        → Claims worker lease now later db o db'
        → (k : Job) × (db' : Db) × (claim worker lease now later db ≡ ok (some k, db'))
    go none db' e (nothing free) = cc (free j m)
    go (some k) db' e c = (k, db', e)

-- A claim that hands out a job, taken apart.
pub claim_lent :
    (worker : String) (lease now later : ℕ) (db db' : Db) (j : Job)
    → IsValid db
    → claim worker lease now later db ≡ ok (some j, db')
    → (row : Job) × IsFirst (eligible now) db row
      × (j ≡ claimed worker (later + seconds lease) now row)
      × (db' ≡ update (with_id row.id) (claimed worker (later + seconds lease) now) db)
claim_lent worker lease now later db db' j v e =
    let (o, db1, f, c) = claim-Claims worker lease now later db v in go o db1 f c
  where
    go :
        (o : Option Job) (db1 : Db)
        → claim worker lease now later db ≡ ok (o, db1)
        → Claims worker lease now later db o db1
        → (row : Job) × IsFirst (eligible now) db row
          × (j ≡ claimed worker (later + seconds lease) now row)
          × (db' ≡ update (with_id row.id) (claimed worker (later + seconds lease) now) db)
    go none db1 f (nothing free) = cc
    go (some k) db1 f (lends row first) = (row, first, cc, cc)

-- A job under a lease that has not run out is handed out to nobody else: until the clock has
-- passed the time to which the job was lent, no claim on the table that the first claim left,
-- by whatever worker, returns a job of that id.
pub claim_exclusive :
    (w w' : String) (lease now later lease' now' later' : ℕ) (db db' db'' : Db) (j k : Job)
    → IsValid db
    → claim w lease now later db ≡ ok (some j, db')
    → now' ≤ later + seconds lease
    → claim w' lease' now' later' db' ≡ ok (some k, db'')
    → k.id ≢ j.id
unfolding claimed
claim_exclusive w w' lease now later lease' now' later' db db' db'' j k v e h f same =
    let v' : IsValid db' = rw e at (claim-IsValid w lease now later db v) in
    let (row, first, ej, edb) = claim_lent w lease now later db db' j v e in
    let (row', first', ek, _) = claim_lent w' lease' now' later' db' db'' k v' f in
    let held : In j db' =
      rw (edb, ej) (update_hit (with_id row.id) _ row db first.present (equals_refl row.id)) in
    let again : row' ≡ j =
      In-unique row' j db' v'.unique_ids first'.present held
        (sym (ap (λ (r : Job). r.id) ek) ∙ same) in
    expired row' row (ap (eligible now') again ∙ ap (eligible now') ej) first'.meets
  where
    expired :
        (row' row : Job)
        → eligible now' row' ≡ eligible now' (claimed w (later + seconds lease) now row)
        → eligible now' row' ≡ true
        → ⊥
    expired row' row p q = ground arith

column_is→eq : (o : Option String) (v : String) → column_is o v ≡ true → o ≡ some v
column_is→eq none v h = cc
column_is→eq (some c) v h = ap some ((string_eq.equals_iff c v).0 h)

-- A statement that asks for the job's id and another owner meets no row.
no_row :
    (p : Job → Bool) (owner : String) (j : Job) (db : Db)
    → IsValid db
    → In j db
    → j.lease_owner ≢ some owner
    → ((a : Job) → p a ≡ true → (a.id ≡ j.id) × (column_is a.lease_owner owner ≡ true))
    → rowcount p db ≡ 0
no_row p owner j db v m other reads = rowcount_none p db λ a n. elim (Bool-cases (p a)) [
  | inr miss ↦ miss
  | inl hit ↦
      let (same, owns) = reads a hit in
      absurd (
        other (
          ap (λ (r : Job). r.lease_owner) (sym (In-unique a j db v.unique_ids n m same))
          ∙ column_is→eq a.lease_owner owner owns))
]

-- While it runs, a job belongs to the worker that holds its lease: another named worker can
-- neither renew the lease, nor complete the job, nor fail it. Its complete and its fail raise, so
-- that their transactions are rolled back, and its renew_lease reports false and leaves the table as
-- it was.
pub stale_worker_refused :
    (w result code message : String) (lease delay : ℤ) (now later : ℕ) (j : Job) (db : Db)
    → IsValid db
    → In j db
    → w ≢ ""
    → j.lease_owner ≢ some (take_chars 256 w)
    → (complete j.id result (some w) now db ≡ err job_not_running)
      × (fail j.id code message delay (some w) now later db ≡ err job_lease_lost)
      × (renew_lease j.id w lease now db ≡ (false, db))
unfolding complete fail renew_lease get
stale_worker_refused w result code message lease delay now later j db v m ne other =
    let named = λ (a : Job). string_eq.equals_iff a.id j.id in
    let owner = take_chars 256 w in
    let completes : rowcount (completable j.id (some w)) db ≡ 0 =
      no_row (completable j.id (some w)) owner j db v m other
        (λ a h. (ground (arith, named a), ground (arith, string_eq.equals_iff w ""))) in
    let fails : rowcount (failable j.id (some w)) db ≡ 0 =
      no_row (failable j.id (some w)) owner j db v m other
        (λ a h. (ground (arith, named a), ground (arith, string_eq.equals_iff w ""))) in
    let renews : rowcount (holds_lease j.id w) db ≡ 0 =
      no_row (holds_lease j.id w) owner j db v m other
        (λ a h. (ground (arith, named a), ground (arith, named a))) in
    let found = select_self j db v.unique_ids m in
    (
      rw completes,
      rw (found, fail, get, fails),
      rw (renews, update_none (holds_lease j.id w) _ db renews) refl,
    )
