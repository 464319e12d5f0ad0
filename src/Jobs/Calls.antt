-- ===== src/Jobs/Calls.antt =====
-- Histories of the queue: the calls of its methods, each with what it reads of the clock, and the
-- table that they leave. A method that raises leaves the table as it was: it wrote nothing, or its
-- transaction is rolled back.
use boi.Prelude.Int.{ℤ}
use boi.Prelude.{ℕ, String, Bool, Option, List, [], ◌∷◌}
use boi.Jobs.{
  Job, Db, Request, Result, ok, err, enqueue, claim, renew_lease, complete, fail, cancel, retry,
}

-- `enqueues` carries the table that its first lookup read.
pub data Call : Type 0 where
  enqueues : String → ℕ → Request → Db → Call
  claims : String → ℕ → ℕ → ℕ → Call
  renews : String → String → ℤ → ℕ → Call
  completes : String → String → Option String → ℕ → Call
  fails : String → String → String → ℤ → Option String → ℕ → ℕ → Call
  cancels : String → ℕ → Call
  retries : String → ℕ → Call

abbrev pub after {ℓ} : {A : Type ℓ} → Db → Result (A × Db) → Db
after db (ok (a, db')) = db'
after db (err e) = db

abbrev pub after_enqueue : Db → Result (Job × Bool × Db) → Db
after_enqueue db (ok (j, created, db')) = db'
after_enqueue db (err e) = db

unfoldable pub apply : Call → Db → Db
apply (enqueues i now r seen) db = after_enqueue db (enqueue i now r seen db)
apply (claims worker lease now later) db = after db (claim worker lease now later db)
apply (renews i worker lease now) db = (renew_lease i worker lease now db).1
apply (completes i result worker now) db = after db (complete i result worker now db)
apply (fails i code message delay worker now later) db =
    after db (fail i code message delay worker now later db)
apply (cancels i now) db = after db (cancel i now db)
apply (retries i now) db = after db (retry i now db)

unfoldable pub run : List Call → Db → Db
run [] db = db
run (c ∷ cs) db = run cs (apply c db)
