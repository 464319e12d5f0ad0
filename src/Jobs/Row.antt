-- ===== src/Jobs/Row.antt =====
-- A row of the table `jobs` (fraudshield/core/database.py), the errors that the queue raises, and
-- the SQL statements on the table as functions on the list of its rows.
use boi.Prelude.{
  ℕ, ◌+◌, String, Bool, true, false, ◌||◌, Option, none, some, List, [], ◌∷◌, ◌==◌, string_eq,
  nat_eq, ltb, if◌then◌else◌,
}

pub data Status : Type 0 where
  queued running completed failed cancelled : Status

-- Times are microseconds since the epoch; the columns hold them as ISO texts, whose order is theirs.
-- A JSON column holds the canonical text that `dumps` writes.
pub record Job : Type 0 where
  pub id : String
  pub kind : String
  pub status : Status
  pub payload : String
  pub result : Option String
  pub priority : ℕ
  pub attempts : ℕ
  pub max_attempts : ℕ
  pub available_at : ℕ
  pub lease_owner : Option String
  pub lease_expires_at : Option ℕ
  pub created_by : String
  pub created_at : ℕ
  pub started_at : Option ℕ
  pub completed_at : Option ℕ
  pub error_code : Option String
  pub error_message : Option String
  pub idempotency_key : Option String

pub data Error : Type 0 where
  invalid_job_kind idempotency_conflict not_found integrity : Error
  job_not_running job_lease_lost job_not_cancellable job_not_retryable : Error

pub data Result {ℓ} (A : Type ℓ) : Type ℓ where
  ok : A → Result A
  err : Error → Result A

infixl 5 ◌>>=◌
abbrev pub ◌>>=◌ {ℓ κ} : {A : Type ℓ} {B : Type κ} → Result A → (A → Result B) → Result B
ok a >>= f = f a
err e >>= f = err e

abbrev pub Db : Type 0
Db = List Job

abbrev pub is_queued : Status → Bool
is_queued queued = true
is_queued _ = false

abbrev pub is_running : Status → Bool
is_running running = true
is_running _ = false

-- `status IN ('failed','cancelled')`
abbrev pub is_retryable : Status → Bool
is_retryable failed = true
is_retryable cancelled = true
is_retryable _ = false

-- SQL's `column = ?`, which no NULL meets.
abbrev pub column_is : Option String → String → Bool
column_is none v = false
column_is (some c) v = c == v

-- SQL's `lease_expires_at < ?`
abbrev pub is_before : Option ℕ → ℕ → Bool
is_before none t = false
is_before (some c) t = ltb c t

-- `SELECT * FROM jobs WHERE p LIMIT 1`
abbrev pub select : (Job → Bool) → Db → Option Job
select p [] = none
select p (j ∷ db) = if p j then some j else select p db

-- `UPDATE jobs SET f WHERE p`, and the cursor's `rowcount`.
abbrev pub update : (Job → Bool) → (Job → Job) → Db → Db
update p f [] = []
update p f (j ∷ db) = (if p j then f j else j) ∷ update p f db

abbrev pub rowcount : (Job → Bool) → Db → ℕ
rowcount p [] = 0
rowcount p (j ∷ db) = (if p j then 1 else 0) + rowcount p db

-- An update in a transaction that is rolled back unless it meets one row.
abbrev pub update_one : (Job → Bool) → (Job → Job) → Error → Db → Result Db
update_one p f e db = if rowcount p db == 1 then ok (update p f db) else err e

abbrev pub with_id : String → Job → Bool
with_id i j = j.id == i

abbrev pub with_key : String → Job → Bool
with_key k j = column_is j.idempotency_key k

-- The table's PRIMARY KEY and UNIQUE column: a NULL key clashes with nothing.
abbrev pub key_clash : Option String → Job → Bool
key_clash none j = false
key_clash (some k) j = with_key k j

abbrev pub clashes : Job → Job → Bool
clashes new j = j.id == new.id || key_clash new.idempotency_key j

abbrev pub clash : Job → Db → Bool
clash new [] = false
clash new (j ∷ db) = clashes new j || clash new db

abbrev pub insert : Job → Db → Result Db
insert new db = if clash new db then err integrity else ok (new ∷ db)
