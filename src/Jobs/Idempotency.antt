-- ===== src/Jobs/Idempotency.antt =====
-- `enqueue` under an idempotency key, with and without a race for the key.
use boi.Prelude.{
  Distinct, ℕ, ◌≡◌, refl, ◌⊎◌, inl, inr, String, true, false, ◌&&◌, Option, none, some, List, [],
  ◌∷◌, ◌==◌, string_eq, take_chars, equals_refl, contains, arith, Bool-cases, Option-cases, ap, sym,
  ◌∙◌, if◌then◌else◌,
}
use boi.Jobs.{
  Job, Db, ok, err, get, select, with_key, column_is, insert, clash, new_row, enqueue,
  enqueue_insert, enqueue_keyed, recover, answered, find_by_idempotency_key, idempotent_result,
  Request, truthy, truncated, idempotency_conflict,
}
use boi.Jobs.Table.{In, keys, add_key}
use boi.Jobs.Invariant.{IsValid}

key_is : (j : Job) (k : String) → j.idempotency_key ≡ some k → with_key k j ≡ true
key_is j k e = rw e (equals_refl k)

In-keys :
    (j : Job) (k : String) (db : Db)
    → In j db
    → j.idempotency_key ≡ some k
    → contains k (keys db) ≡ true
In-keys j k [] m e = absurd m
In-keys j k (a ∷ db) (inl h) e =
    rw (sym (ap (λ (r : Job). r.idempotency_key) h) ∙ e) (ground (arith, equals_refl k))
In-keys j k (a ∷ db) (inr m) e = elim (Option-cases a.idempotency_key) [
  | inl n ↦ rw n (In-keys j k db m e)
  | inr (c, n) ↦ rw n (ground (arith, In-keys j k db m e))
]

other_key :
    (o : Option String) (k : String) (ks : List String)
    → Distinct (add_key o ks)
    → contains k ks ≡ true
    → (column_is o k ≡ false) × Distinct ks
other_key none k ks d c = (refl, d)
other_key (some a) k ks d c = (
  elim (Bool-cases (a == k)) [
    | inl same ↦ cc (ap (λ s. contains s ks) ((string_eq.equals_iff a k).0 same), d.0, c)
    | inr differs ↦ differs
  ],
  d.1,
)

-- A key finds the one row that has it.
find-key :
    (j : Job) (k : String) (db : Db)
    → Distinct (keys db)
    → In j db
    → j.idempotency_key ≡ some k
    → select (with_key k) db ≡ some j
find-key j k [] d m e = absurd m
find-key j k (a ∷ db) d (inl h) e =
    ground (arith, key_is a k (sym (ap (λ (r : Job). r.idempotency_key) h) ∙ e))
find-key j k (a ∷ db) d (inr m) e =
    let (differs, rest) = other_key a.idempotency_key k (keys db) d (In-keys j k db m e) in
    rw differs (find-key j k db rest m e)

clash-hit :
    (new j : Job) (k : String) (db : Db)
    → In j db
    → j.idempotency_key ≡ some k
    → new.idempotency_key ≡ some k
    → clash new db ≡ true
clash-hit new j k [] m e f = absurd m
clash-hit new j k (a ∷ db) (inl h) e f =
    ground (arith, key_is a k (sym (ap (λ (r : Job). r.idempotency_key) h) ∙ e))
clash-hit new j k (a ∷ db) (inr m) e f = ground (arith, clash-hit new j k db m e f)

answered_lem :
    (j : Job) (r : Request) (db : Db)
    → answered j r db ≡ (
        if j.kind == r.kind && j.payload == r.payload
        then ok (j, false, db)
        else err idempotency_conflict)
unfolding idempotent_result
answered_lem j r db = ground arith

new_row-key :
    (i : String) (now : ℕ) (r : Request)
    → (new_row i now r).idempotency_key ≡ truncated (truthy r.idempotency_key)
unfolding new_row
new_row-key i now r = refl

new_row-id : (i : String) (now : ℕ) (r : Request) → (new_row i now r).id ≡ i
unfolding new_row
new_row-id i now r = refl

insert_taken :
    (i k : String) (now : ℕ) (r : Request) (j : Job) (db : Db)
    → IsValid db
    → In j db
    → j.idempotency_key ≡ some k
    → truthy r.idempotency_key ≡ some k
    → take_chars 256 k ≡ k
    → enqueue_insert i now r db ≡ answered j r db
unfolding enqueue_insert recover find_by_idempotency_key
insert_taken i k now r j db v m has asks short =
    let taken : clash (new_row i now r) db ≡ true =
      clash-hit (new_row i now r) j k db m has
        (new_row-key i now r ∙ ap truncated asks ∙ ap some short) in
    let finds = find-key j k db v.unique_keys m has in
    rw (taken, enqueue_insert, insert, asks, recover, finds, find_by_idempotency_key)

-- A key that is taken answers for its row. Whether the first lookup sees the row, or another
-- process writes it between that lookup and the INSERT, a request under the key of a row that
-- stands in the table adds no row: it returns that row where kind and payload agree, and is refused
-- as a conflict where they do not. The key is as long as a row stores it.
pub enqueue_answered :
    (i k : String) (now : ℕ) (r : Request) (j : Job) (seen db : Db)
    → IsValid db
    → In j db
    → j.idempotency_key ≡ some k
    → truthy r.idempotency_key ≡ some k
    → take_chars 256 k ≡ k
    → (seen ≡ db) ⊎ (find_by_idempotency_key k seen ≡ none)
    → r.kind ≡ "apk_analysis"
    → enqueue i now r seen db ≡ (
        if j.kind == r.kind && j.payload == r.payload
        then ok (j, false, db)
        else err idempotency_conflict)
unfolding enqueue
enqueue_answered i k now r j seen db v m has asks short race known =
    rw ((string_eq.equals_iff r.kind "apk_analysis").1 known, enqueue, asks)
      (go race ∙ answered_lem j r db)
  where
    go :
        (seen ≡ db) ⊎ (find_by_idempotency_key k seen ≡ none)
        → enqueue_keyed (some k) i now r seen db ≡ answered j r db
    go (inl same) =
        let finds : find_by_idempotency_key k seen ≡ some j =
          ap (find_by_idempotency_key k) same
          ∙ unfold find_by_idempotency_key in (find-key j k db v.unique_keys m has) in
        rw (finds, enqueue_keyed)
    go (inr unseen) = rw (unseen, enqueue_keyed) (insert_taken i k now r j db v m has asks short)

inserts :
    (i : String) (now : ℕ) (r : Request) (db : Db)
    → clash (new_row i now r) db ≡ false
    → enqueue_insert i now r db ≡ ok (new_row i now r, true, new_row i now r ∷ db)
unfolding enqueue_insert get
inserts i now r db free =
    let found : ((new_row i now r).id == i) ≡ true =
      (string_eq.equals_iff _ i).1 (new_row-id i now r) in
    rw (free, enqueue_insert, insert, found, get)

-- A request that no row answers is queued: where its key is free and its id is new, it adds
-- exactly one row, at the front of the table, and returns it.
pub enqueue_fresh :
    (i : String) (now : ℕ) (r : Request) (db : Db)
    → r.kind ≡ "apk_analysis"
    → clash (new_row i now r) db ≡ false
    → ((k : String) → truthy r.idempotency_key ≡ some k → find_by_idempotency_key k db ≡ none)
    → enqueue i now r db db ≡ ok (new_row i now r, true, new_row i now r ∷ db)
unfolding enqueue
enqueue_fresh i now r db known free unseen =
    rw ((string_eq.equals_iff r.kind "apk_analysis").1 known) (go (truthy r.idempotency_key) refl)
  where
    inserted : enqueue_insert i now r db ≡ ok (new_row i now r, true, new_row i now r ∷ db)
    inserted = inserts i now r db free

    go :
        (o : Option String)
        → truthy r.idempotency_key ≡ o
        → enqueue_keyed o i now r db db ≡ ok (new_row i now r, true, new_row i now r ∷ db)
    go none e = inserted
    go (some k) e = rw (unseen k e, enqueue_keyed) inserted
