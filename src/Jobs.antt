-- ===== src/Jobs.antt =====
-- `JobRepository` of fraudshield/core/repository.py: the durable queue, method by method. A method
-- takes what it reads of the clock as arguments, and the new row's id from `new_id`.
pub mod Row
pub mod Table
pub mod Calls
pub mod Claim
pub mod Effects
pub mod Invariant
pub mod Histories
pub mod Leases
pub mod Serving
pub mod Lifecycle
pub mod Idempotency
mod Examples
pub use Row.*
use boi.Prelude.Int.{ℤ, clamp, at_least}
use boi.Prelude.{
  ℕ, ◌+◌, ◌*◌, String, Bool, true, false, ◌&&◌, ◌||◌, not, Option, none, some, List, [], ◌∷◌, ◌==◌,
  string_eq, nat_eq, ltb, leb, if◌then◌else◌, take_chars,
}

-- `timedelta(seconds=n)`
abbrev pub seconds : ℕ → ℕ
seconds n = n * 1000000

pub record Request : Type 0 where
  pub kind : String
  pub payload : String
  pub created_by : String
  pub priority : ℤ
  pub max_attempts : ℤ
  pub idempotency_key : Option String

-- `if idempotency_key`: the empty text counts as no key.
abbrev pub truthy : Option String → Option String
truthy none = none
truthy (some s) = if s == "" then none else some s

abbrev pub truncated : Option String → Option String
truncated none = none
truncated (some s) = some (take_chars 256 s)

unfoldable pub get : String → Db → Result Job
get i db = elim (select (with_id i) db) [ none ↦ err not_found | some j ↦ ok j ]

pub find_by_idempotency_key : String → Db → Option Job
find_by_idempotency_key k db = select (with_key k) db

pub idempotent_result : Job → Request → Result Job
idempotent_result j r =
    if j.kind == r.kind && j.payload == r.payload then ok j else err idempotency_conflict

pub new_row : String → ℕ → Request → Job
new_row i now r = record {
  id = i;
  kind = r.kind;
  status = queued;
  payload = r.payload;
  result = none;
  priority = clamp 0 1000 r.priority;
  attempts = 0;
  max_attempts = clamp 1 20 r.max_attempts;
  available_at = now;
  lease_owner = none;
  lease_expires_at = none;
  created_by = take_chars 256 r.created_by;
  created_at = now;
  started_at = none;
  completed_at = none;
  error_code = none;
  error_message = none;
  idempotency_key = truncated (truthy r.idempotency_key);
}

-- A result that an earlier row answers: nothing is written.
abbrev pub answered : Job → Request → Db → Result (Job × Bool × Db)
answered j r db = do found ← idempotent_result j r; ok (found, false, db)

-- The `except` branch, after the INSERT was refused.
pub recover : Error → Request → Db → Result (Job × Bool × Db)
recover e r db = elim (truthy r.idempotency_key) [
  | none ↦ err e
  | some k ↦ elim (find_by_idempotency_key k db) [ none ↦ err e | some j ↦ answered j r db ]
]

-- From the INSERT on. Another process may have written between the lookup and this.
pub enqueue_insert : String → ℕ → Request → Db → Result (Job × Bool × Db)
enqueue_insert i now r db = elim (insert (new_row i now r) db) [
  | err e ↦ recover e r db
  | ok db' ↦ get i db' >>= λ j. ok (j, true, db')
]

-- `seen` is the table that the first lookup reads, `db` the one that the INSERT meets.
abbrev pub enqueue_keyed : Option String → String → ℕ → Request → Db → Db → Result (Job × Bool × Db)
enqueue_keyed none i now r seen db = enqueue_insert i now r db
enqueue_keyed (some k) i now r seen db = elim (find_by_idempotency_key k seen) [
  | none ↦ enqueue_insert i now r db
  | some j ↦ answered j r db
]

pub enqueue : String → ℕ → Request → Db → Db → Result (Job × Bool × Db)
enqueue i now r seen db =
    if r.kind == "apk_analysis"
    then enqueue_keyed (truthy r.idempotency_key) i now r seen db
    else err invalid_job_kind

-- The WHERE clause of `claim`.
abbrev pub eligible : ℕ → Job → Bool
eligible now j =
    ltb j.attempts j.max_attempts
    && leb j.available_at now
    && (is_queued j.status || (is_running j.status && is_before j.lease_expires_at now))

-- `ORDER BY priority ASC, created_at ASC`
abbrev pub ahead : Job → Job → Bool
ahead a b = ltb a.priority b.priority || (a.priority == b.priority && ltb a.created_at b.created_at)

abbrev pub first_of : (Job → Bool) → Option Job → Db → Option Job
first_of p best [] = best
first_of p none (j ∷ db) = first_of p (if p j then some j else none) db
first_of p (some b) (j ∷ db) = first_of p (if p j && ahead j b then some j else some b) db

abbrev pub coalesce : Option ℕ → ℕ → ℕ
coalesce none d = d
coalesce (some t) d = t

unfoldable pub claimed : String → ℕ → ℕ → Job → Job
claimed worker lease_expires now j = record j {
  status = running;
  lease_owner = some (take_chars 256 worker);
  lease_expires_at = some lease_expires;
  attempts = j.attempts + 1;
  started_at = some (coalesce j.started_at now);
  error_code = none;
  error_message = none;
}

-- The clock is read twice: `now` for the tests, `later` for the lease.
unfoldable pub claim : String → ℕ → ℕ → ℕ → Db → Result (Option Job × Db)
claim worker lease_seconds now later db = elim (first_of (eligible now) none db) [
  | none ↦ ok (none, db)
  | some row ↦
      let db' = update (with_id row.id) (claimed worker (later + seconds lease_seconds) now) db in
      get row.id db' >>= λ j. ok (some j, db')
]

abbrev pub holds_lease : String → String → Job → Bool
holds_lease i worker j =
    j.id == i && is_running j.status && column_is j.lease_owner (take_chars 256 worker)

pub renew_lease : String → String → ℤ → ℕ → Db → Bool × Db
renew_lease i worker lease_seconds now db = (
  rowcount (holds_lease i worker) db == 1,
  update (holds_lease i worker)
      (λ j. record j { lease_expires_at = some (now + seconds (at_least 5 lease_seconds)) }) db,
)

-- `AND lease_owner=?`, which is left out where no worker is named.
abbrev pub owner_clause : Option String → Job → Bool
owner_clause none j = true
owner_clause (some w) j = column_is j.lease_owner (take_chars 256 w)

abbrev pub completable : String → Option String → Job → Bool
completable i worker j = j.id == i && is_running j.status && owner_clause (truthy worker) j

unfoldable pub finished : String → ℕ → Job → Job
finished result now j = record j {
  status = completed;
  result = some result;
  completed_at = some now;
  lease_owner = none;
  lease_expires_at = none;
}

-- Where a method ends by reading its row back.
abbrev pub and_get : String → Result Db → Result (Job × Db)
and_get i r = r >>= λ db. get i db >>= λ j. ok (j, db)

unfoldable pub complete : String → String → Option String → ℕ → Db → Result (Job × Db)
complete i result worker now db =
    and_get i (update_one (completable i worker) (finished result now) job_not_running db)

abbrev pub failable : String → Option String → Job → Bool
failable i worker j = j.id == i && owner_clause (truthy worker) j

unfoldable pub failed_row : Bool → String → String → ℕ → ℕ → Job → Job
failed_row retry code message available_at later j = record j {
  status = if retry then queued else failed;
  available_at = available_at;
  completed_at = if retry then none else some later;
  error_code = some (take_chars 128 code);
  error_message = some (take_chars 1000 message);
  lease_owner = none;
  lease_expires_at = none;
}

-- The read of the row and the update stand in one step.
unfoldable pub fail : String → String → String → ℤ → Option String → ℕ → ℕ → Db → Result (Job × Db)
fail i code message retry_delay worker now later db = get i db >>= λ current. and_get i (
    update_one (failable i worker)
      (failed_row (ltb current.attempts current.max_attempts) code message
        (now + seconds (at_least 0 retry_delay)) later)
      job_lease_lost db)

pub cancel : String → ℕ → Db → Result (Job × Db)
cancel i now db = and_get i (
    update_one (λ j. j.id == i && is_queued j.status)
      (λ j. record j { status = cancelled; completed_at = some now }) job_not_cancellable db)

pub requeued : ℕ → Job → Job
requeued now j = record j {
  status = queued;
  attempts = 0;
  available_at = now;
  completed_at = none;
  lease_owner = none;
  lease_expires_at = none;
  error_code = none;
  error_message = none;
}

pub retry : String → ℕ → Db → Result (Job × Db)
retry i now db =
    and_get i
      (update_one (λ j. j.id == i && is_retryable j.status) (requeued now) job_not_retryable db)
