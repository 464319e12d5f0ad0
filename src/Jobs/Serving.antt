-- ===== src/Jobs/Serving.antt =====
-- What `claim` (fraudshield/core/repository.py) hands out, and what it writes.
use boi.Prelude.{
  equals_refl, ℕ, ◌+◌, ◌*◌, ◌≡◌, refl, sym, ◌∙◌, String, Option, none, some, string_eq,
  true_not_false,
}
use boi.Jobs.{Job, Db, ok, with_id, claim, claimed, seconds}
use boi.Jobs.Table.{In}
use boi.Jobs.Invariant.{IsValid}
use boi.Jobs.Leases.{Claims, nothing, lends, claim-Claims}
use boi.Jobs.Effects.{
  IsEligible, eligible-IsEligible, IsEligible-eligible, ComesFirst, not_ahead-ComesFirst, IsLent,
  claimed-IsLent, Replaces, update-Replaces,
}

-- What a claim hands out and leaves: nothing, and the table as it was, where no row is eligible; or
-- the first eligible row, as it stands after the claim, in the place that it had.
pub data Serves (worker : String) (lease now later : ℕ) (db : Db) : Option Job → Db → Type 0 where
  idle : ((j : Job) → In j db → IsEligible now j → ⊥) → Serves worker lease now later db none db
  serves :
      (row job : Job) (db' : Db)
      → In row db
      → IsEligible now row
      → ((b : Job) → In b db → IsEligible now b → ComesFirst row b)
      → IsLent worker (later + lease * 1000000) now row job
      → Replaces db job db'
      → Serves worker lease now later db (some job) db'

Claims-Serves :
    (worker : String) (lease now later : ℕ) (db : Db) (o : Option Job) (db' : Db)
    → IsValid db
    → Claims worker lease now later db o db'
    → Serves worker lease now later db o db'
unfolding claimed
Claims-Serves worker lease now later db none db' v (nothing free) =
    idle λ j m e. true_not_false (sym (IsEligible-eligible now j e) ∙ free j m)
Claims-Serves worker lease now later db (some job) db' v (lends row first) =
    serves row _ _ first.present (eligible-IsEligible now row first.meets)
      (λ b m e. not_ahead-ComesFirst row b (first.least b m (IsEligible-eligible now b e)))
      (claimed-IsLent worker (later + seconds lease) now row)
      (update-Replaces (with_id row.id) (claimed worker (later + seconds lease) now) row db
        (λ j h. (string_eq.equals_iff j.id row.id).0 h) (λ j. refl) v.unique_ids first.present
        (equals_refl row.id))

-- On a valid table a claim does not raise. Where a row is eligible, that is, has an attempt left, is due
-- and is queued or running under a lease that has run out, it hands out the first of these, in the
-- order of priority and then of age. The row is then running under the worker's name until the end
-- of the lease, with one attempt more, its first start kept and no error; its request, result and
-- times are as they were, and so is every other row. Where no row is eligible the claim hands out
-- nothing and changes nothing.
pub claim-Serves :
    (worker : String) (lease now later : ℕ) (db : Db)
    → IsValid db
    → (o : Option Job) × (db' : Db) × (claim worker lease now later db ≡ ok (o, db'))
      × Serves worker lease now later db o db'
claim-Serves worker lease now later db v =
    let (o, db', e, c) = claim-Claims worker lease now later db v in
    (o, db', e, Claims-Serves worker lease now later db o db' v c)
