-- ===== src/Jobs/Effects.antt =====
-- What the statements of the queue (fraudshield/core/repository.py) mean for a table, told without
-- them: which rows may be claimed and in which order, what a claim writes, and a table in which one row
-- was replaced.
use boi.Prelude.{
  ◌||◌, ◌&&◌, subst, true_not_false, ℕ, ◌+◌, ◌≤◌, ◌<◌, ◌≡◌, ◌≢◌, ◌↔◌, ◌⊎◌, refl, sym, ap, ◌∙◌, inl,
  inr, String, Bool, true, false, Option, none, some, [], ◌∷◌, Distinct, string_eq, nat_eq,
  take_chars, arith, Bool-cases,
}
use boi.Jobs.{
  Job, Db, Status, queued, running, eligible, ahead, update, claimed, is_queued, is_running,
  is_before, coalesce,
}
use boi.Jobs.Table.{In, ids, In-unique, update_hit, update-In, update-ids}

-- A row that a claim may hand out: it has an attempt left and its time has come, and it is queued, or
-- running under a lease that has run out.
pub record IsEligible (now : ℕ) (j : Job) : Type 0 where
  pub attempt_left : j.attempts < j.max_attempts
  pub due : j.available_at ≤ now
  pub free :
      (j.status ≡ queued)
      ⊎ ((j.status ≡ running) × ((t : ℕ) × (j.lease_expires_at ≡ some t) × (t < now)))

pub eligible-IsEligible : (now : ℕ) (j : Job) → eligible now j ≡ true → IsEligible now j
eligible-IsEligible now j h = record {
  attempt_left = ground arith;
  due = ground arith;
  free = free_of j.status j.lease_expires_at (ground arith);
}
  where
    free_of :
        (s : Status) (l : Option ℕ)
        → (is_queued s || (is_running s && is_before l now)) ≡ true
        → (s ≡ queued) ⊎ ((s ≡ running) × ((t : ℕ) × (l ≡ some t) × (t < now)))
    free_of Status.queued l e = inl refl
    free_of Status.running none e = cc
    free_of Status.running (some t) e = inr (refl, (t, refl, ground arith))
    free_of Status.completed l e = cc
    free_of Status.failed l e = cc
    free_of Status.cancelled l e = cc

pub IsEligible-eligible : (now : ℕ) (j : Job) → IsEligible now j → eligible now j ≡ true
IsEligible-eligible now j e = ground (arith, e.attempt_left, e.due, e.free)

-- Of two rows, the one with the smaller priority number comes first, and the older one of two with the
-- same.
abbrev pub ComesFirst : Job → Job → Type 0
ComesFirst a b =
    (a.priority < b.priority) ⊎ ((a.priority ≡ b.priority) × (a.created_at ≤ b.created_at))

pub not_ahead-ComesFirst : (a b : Job) → ahead b a ≡ false → ComesFirst a b
not_ahead-ComesFirst a b h = ground arith

-- The columns that only `enqueue` writes.
abbrev pub Request : Type 0
Request = String × String × String × ℕ × ℕ × String × ℕ × Option String

abbrev pub request_of : Job → Request
request_of j = (
  j.id, j.kind, j.payload, j.priority, j.max_attempts, j.created_by, j.created_at,
  j.idempotency_key,
)

-- The row after a claim, beside the row before it.
pub record IsLent (worker : String) (expires now : ℕ) (row j : Job) : Type 0 where
  pub same_request : request_of j ≡ request_of row
  pub status : j.status ≡ running
  pub owner : j.lease_owner ≡ some (take_chars 256 worker)
  pub lease : j.lease_expires_at ≡ some expires
  pub attempts : j.attempts ≡ row.attempts + 1
  pub first_start : row.started_at ≡ none → j.started_at ≡ some now
  pub same_start : (t : ℕ) → row.started_at ≡ some t → j.started_at ≡ some t
  pub no_error : (j.error_code ≡ none) × (j.error_message ≡ none)
  pub rest :
      (j.result ≡ row.result)
      × (j.available_at ≡ row.available_at)
      × (j.completed_at ≡ row.completed_at)

pub claimed-IsLent :
    (worker : String) (expires now : ℕ) (row : Job)
    → IsLent worker expires now row (claimed worker expires now row)
unfolding claimed
claimed-IsLent worker expires now row = record {
  same_request = refl;
  status = refl;
  owner = refl;
  lease = refl;
  attempts = refl;
  first_start = λ e. ap (λ o. some (coalesce o now)) e;
  same_start = λ t e. ap (λ o. some (coalesce o now)) e;
  no_error = (refl, refl);
  rest = (refl, refl, refl);
}

-- The second table is the first with this row in the place of the one of its id.
pub record Replaces (db : Db) (new : Job) (db' : Db) : Type 0 where
  pub present : In new db'
  pub only : (k : Job) → In k db' → k.id ≡ new.id → k ≡ new
  pub others : (k : Job) → k.id ≢ new.id → In k db ↔ In k db'
  pub same_ids : ids db' ≡ ids db

module _ (p : Job → Bool) (f : Job → Job) (a : Job) (db : Db)
    (only : (j : Job) → p j ≡ true → j.id ≡ a.id) (same : (j : Job) → (f j).id ≡ j.id) where
  other_kept : (k : Job) (db : Db) → k.id ≢ a.id → In k db → In k (update p f db)
  other_kept k [] ne m = absurd m
  other_kept k (j ∷ db) ne (inl e) = elim (Bool-cases (p j)) [
    | inl hit ↦ absurd (ne (ap (λ (r : Job). r.id) e ∙ only j hit))
    | inr miss ↦ rw miss (inl e)
  ]
  other_kept k (j ∷ db) ne (inr m) = inr (other_kept k db ne m)

  -- A row of the new table is one of the old, or the replaced one.
  from_old :
      (k : Job)
      → In k (update p f db)
      → (In k db × (p k ≡ false)) ⊎ ((j : Job) × In j db × (p j ≡ true) × (k ≡ f j))
  from_old k m =
      let (j, n, e) = update-In p f k db m in
      elim (Bool-cases (p j)) [
        | inl hit ↦ inr (j, n, hit, rw hit at e)
        | inr miss ↦
            let e' : k ≡ j = rw miss at e in inl (subst (λ x. In x db) (sym e') n, ap p e' ∙ miss)
      ]

  pub update-Replaces : Distinct (ids db) → In a db → p a ≡ true → Replaces db (f a) (update p f db)
  update-Replaces d m hit = record {
    present = update_hit p f a db m hit;
    only = λ k n e. elim (from_old k n) [
      | inr (j, there, met, from) ↦ from ∙ ap f (In-unique j a db d there m (only j met))
      | inl (there, miss) ↦
          absurd
            (true_not_false (sym hit ∙ ap p (sym (In-unique k a db d there m (e ∙ same a))) ∙ miss))
    ];
    others = λ k ne. (
      λ n. other_kept k db (λ e. ne (e ∙ sym (same a))) n,
      λ n. elim (from_old k n) [
        | inl (there, miss) ↦ there
        | inr (j, there, met, from) ↦
            absurd (ne (ap (λ (r : Job). r.id) from ∙ same j ∙ only j met ∙ sym (same a)))
      ],
    );
    same_ids = update-ids p f same db;
  }
