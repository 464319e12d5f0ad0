-- ===== src/Worker/Outcomes.antt =====
-- What a round of the worker does to the queue (fraudshield/worker.py).
use boi.Prelude.Int.{pos}
use boi.Prelude.{
  ℕ, ◌≡◌, ap, subst, String, Bool, true, false, Option, none, some, List, [], ◌∷◌, string_eq,
  equals_refl, take_chars, arith,
}
use boi.Jobs.{
  Job, Db, Result, ok, err, claim, claimed, complete, owner_clause, truthy, running, with_id,
}
use boi.Jobs.Calls.{Call, completes, fails, after, apply, run}
use boi.Jobs.Table.{In, update_hit}
use boi.Jobs.Invariant.{IsValid}
use boi.Jobs.Histories.{apply-IsValid, claim-IsValid}
use boi.Jobs.Leases.{claim_lent, claim-Claims}
use boi.Worker.{
  Work, analysed, raised, crashed, Clock, caught, attempt, give_up, recover, completed_or, conclude,
  with_claim, process_next,
}

run_on-IsValid : (cs : List Call) (db : Db) → IsValid db → IsValid (run cs db)
unfolding run
run_on-IsValid [] db v = v
run_on-IsValid (c ∷ cs) db v = run_on-IsValid cs (apply c db) (apply-IsValid c db v)

module _ (worker : String) (clock : Clock) (job : Job) where
  give_up-IsValid :
      (code message : String) (db : Db)
      → IsValid db
      → IsValid (give_up worker clock job code message db)
  unfolding give_up apply
  give_up-IsValid code message db v =
      apply-IsValid (fails job.id code message (pos 30) (some worker) clock.failing clock.failed) db
        v

  recover-IsValid : (w : Work) (db : Db) → IsValid db → IsValid (recover worker clock job w db)
  unfolding recover
  recover-IsValid (analysed result) db v = v
  recover-IsValid (raised code message) db v = give_up-IsValid code message db v
  recover-IsValid crashed db v = give_up-IsValid _ _ db v

  completed_or-IsValid :
      (db : Db) (r : Result (Job × Db))
      → IsValid db
      → IsValid (after db r)
      → IsValid (completed_or worker clock job db r)
  completed_or-IsValid db (ok (j, db')) v u = u
  completed_or-IsValid db (err e) v u = recover-IsValid (caught job.id e) db v

  conclude-IsValid : (w : Work) (db : Db) → IsValid db → IsValid (conclude worker clock job w db)
  unfolding conclude apply
  conclude-IsValid (analysed result) db v =
      completed_or-IsValid db (complete job.id result (some worker) clock.done db) v
        (apply-IsValid (completes job.id result (some worker) clock.done) db v)
  conclude-IsValid (raised code message) db v = recover-IsValid (raised code message) db v
  conclude-IsValid crashed db v = recover-IsValid crashed db v

-- A round of the worker never raises on a valid table and leaves it valid, whatever the analysis
-- ends in and whatever calls of the queue, by other workers and operators, happen meanwhile.
pub process_next-IsValid :
    (worker : String) (lease : ℕ) (clock : Clock) (work : Work) (between : List Call) (db : Db)
    → IsValid db
    → (processed : Bool) × (db' : Db) × (process_next worker lease clock work between db
        ≡ ok (processed, db'))
      × IsValid db'
unfolding process_next
process_next-IsValid worker lease clock work between db v =
    let (o, db1, e, c) = claim-Claims worker lease clock.now clock.later db v in
    go o db1 e
      (subst (λ r. IsValid (after db r)) e (claim-IsValid worker lease clock.now clock.later db v))
  where
    go :
        (o : Option Job) (db1 : Db)
        → claim worker lease clock.now clock.later db ≡ ok (o, db1)
        → IsValid db1
        → (processed : Bool) × (db' : Db) × (with_claim worker clock work between
              (claim worker lease clock.now clock.later db)
            ≡ ok (processed, db'))
          × IsValid db'
    go none db1 e u = (false, db1, ap (with_claim worker clock work between) e, u)
    go (some job) db1 e u = (
      true,
      conclude worker clock job (attempt job work) (run between db1),
      ap (with_claim worker clock work between) e,
      conclude-IsValid worker clock job (attempt job work) _ (run_on-IsValid between db1 u),
    )

-- The row that a claim lends stands in the table that it leaves, running under the worker's name.
pub lent_row :
    (worker : String) (lease now later : ℕ) (db db' : Db) (j : Job)
    → IsValid db
    → claim worker lease now later db ≡ ok (some j, db')
    → IsValid db' × In j db' × (j.status ≡ running) × (owner_clause (truthy (some worker)) j ≡ true)
unfolding claimed
lent_row worker lease now later db db' j v e =
    let (row, first, ej, edb) = claim_lent worker lease now later db db' j v e in
    (
      subst (λ r. IsValid (after db r)) e (claim-IsValid worker lease now later db v),
      rw (edb, ej) (update_hit (with_id row.id) _ row db first.present (equals_refl row.id)),
      ap (λ (r : Job). r.status) ej,
      rw ej (ground (arith, equals_refl (take_chars 256 worker))),
    )
