-- ===== src/Jobs/Invariant.antt =====
-- The invariant of the table of jobs, kept by every method.
use boi.Prelude.Int.{clamp_bounds}
use boi.Prelude.{
  Distinct, ℕ, ◌≤◌, ◌<◌, ◌≡◌, refl, ◌⊎◌, inl, inr, String, Bool, true, false, Option, none, some,
  [], ◌∷◌, ◌==◌, string_eq, nat_eq, contains, All, arith, Bool-cases, Option-cases, ltb,
}
use boi.Jobs.{
  Job, Db, Status, completed, failed, cancelled, Error, ok, is_queued, is_running, Request, select,
  update, rowcount, update_one, with_id, insert, clash, new_row, get, and_get, eligible, claimed,
  finished, failed_row, requeued,
}
use boi.Jobs.Table.{In, ids, keys, add_key, update-All, update-ids, update-keys}
use boi.Jobs.Calls.{after}

abbrev pub is_some : {A : Type 0} → Option A → Bool
is_some none = false
is_some (some a) = true

abbrev pub is_failed : Status → Bool
is_failed failed = true
is_failed _ = false

-- The statuses in which a job has ended.
abbrev pub is_final : Status → Bool
is_final completed = true
is_final failed = true
is_final cancelled = true
is_final _ = false

pub record IsRow (j : Job) : Type 0 where
  pub within : j.attempts ≤ j.max_attempts
  pub some_attempt : 1 ≤ j.max_attempts
  pub few_attempts : j.max_attempts ≤ 20
  pub bounded : j.priority ≤ 1000
  pub leased : is_some j.lease_owner ≡ is_running j.status
  pub timed : is_some j.lease_expires_at ≡ is_running j.status
  pub waiting : is_queued j.status ≡ true → j.attempts < j.max_attempts
  pub spent : is_failed j.status ≡ true → j.attempts ≡ j.max_attempts
  pub ended : is_some j.completed_at ≡ is_final j.status

pub record IsValid (db : Db) : Type 0 where
  pub rows : All IsRow db
  pub unique_ids : Distinct (ids db)
  pub unique_keys : Distinct (keys db)

pub new_row-IsRow : (i : String) (now : ℕ) (r : Request) → IsRow (new_row i now r)
unfolding new_row
new_row-IsRow i now r =
    let p = clamp_bounds 0 1000 r.priority (omega arith) in
    let m = clamp_bounds 1 20 r.max_attempts (omega arith) in
    record {
      within = omega arith;
      some_attempt = m.0;
      few_attempts = m.1;
      bounded = p.1;
      leased = refl;
      timed = refl;
      waiting = λ _. omega (arith, m.0);
      spent = λ e. cc;
      ended = refl;
    }

pub claimed-IsRow :
    (worker : String) (lease now t : ℕ) (j : Job)
    → eligible t j ≡ true
    → IsRow j
    → IsRow (claimed worker lease now j)
unfolding claimed
claimed-IsRow worker lease now t j e v = ground arith

pub finished-IsRow : (result : String) (now : ℕ) (j : Job) → IsRow j → IsRow (finished result now j)
unfolding finished
finished-IsRow result now j v = ground arith

pub failed_row-IsRow :
    (code message : String) (at later : ℕ) (j : Job)
    → IsRow j
    → IsRow (failed_row (ltb j.attempts j.max_attempts) code message at later j)
unfolding failed_row
failed_row-IsRow code message at later j v = ground arith

pub requeued-IsRow : (now : ℕ) (j : Job) → IsRow j → IsRow (requeued now j)
unfolding requeued
requeued-IsRow now j v = ground arith

pub update-IsValid :
    (p : Job → Bool) (f : Job → Job) (db : Db)
    → ((j : Job) → In j db → IsRow j → p j ≡ true → IsRow (f j))
    → ((j : Job) → (f j).id ≡ j.id)
    → ((j : Job) → (f j).idempotency_key ≡ j.idempotency_key)
    → IsValid db
    → IsValid (update p f db)
update-IsValid p f db keep same_id same_key v = record {
  rows = update-All p f IsRow IsRow db keep (λ j _ r _. r) v.rows;
  unique_ids = rw (update-ids p f same_id db) v.unique_ids;
  unique_keys = rw (update-keys p f same_key db) v.unique_keys;
}

-- A method that updates one row and reads it back leaves the table, or updates it.
pub and_get_cases {ℓ} :
    (P : Db → Type ℓ) (i : String) (p : Job → Bool) (f : Job → Job) (e : Error) (db : Db)
    → P db
    → P (update p f db)
    → P (after db (and_get i (update_one p f e db)))
unfolding get
and_get_cases P i p f e db old new = elim (Bool-cases (rowcount p db == 1)) [
  | inr miss ↦ rw miss old
  | inl hit ↦ elim (Option-cases (select (with_id i) (update p f db))) [
    | inl gone ↦ rw (hit, gone, get) old
    | inr (j, found) ↦ rw (hit, found, get) new
  ]
]

clash-id : (new : Job) (db : Db) → clash new db ≡ false → contains new.id (ids db) ≡ false
clash-id new [] e = refl
clash-id new (j ∷ db) e =
    ground
      (arith, string_eq.equals_iff j.id new.id, string_eq.equals_iff new.id j.id, clash-id new db)

clash-key :
    (new : Job) (k : String) (db : Db)
    → new.idempotency_key ≡ some k
    → clash new db ≡ false
    → contains k (keys db) ≡ false
clash-key new k [] h e = refl
clash-key new k (j ∷ db) h e = elim (Option-cases j.idempotency_key) [
  | inl n ↦ rw n (clash-key new k db h (ground arith))
  | inr (c, n) ↦
      rw n
        (ground (arith, string_eq.equals_iff c k, string_eq.equals_iff k c, clash-key new k db h))
]

-- A row that the constraints let in keeps ids and keys distinct.
pub insert-IsValid :
    (new : Job) (db db' : Db) → insert new db ≡ ok db' → IsRow new → IsValid db → IsValid db'
insert-IsValid new db db' e r v = elim (Bool-cases (clash new db)) [
  | inl hit ↦ cc (rw hit at e)
  | inr free ↦ rw (← inserted free) (record {
    rows = (r, v.rows);
    unique_ids = (clash-id new db free, v.unique_ids);
    unique_keys = add (Option-cases new.idempotency_key) free;
  })
]
  where
    inserted : clash new db ≡ false → new ∷ db ≡ db'
    inserted free = cc (rw free at e)

    add :
        (new.idempotency_key ≡ none) ⊎ ((k : String) × (new.idempotency_key ≡ some k))
        → clash new db ≡ false
        → Distinct (add_key new.idempotency_key (keys db))
    add (inl n) free = rw n v.unique_keys
    add (inr (k, n)) free = rw n (clash-key new k db n free, v.unique_keys)
