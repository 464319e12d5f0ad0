-- ===== src/Jobs/Table.antt =====
-- What the statements on the table do: membership, unique ids, and rows under an update.
use boi.Prelude.{
  Distinct, ap, ◌≡◌, refl, sym, ◌∙◌, ◌⊎◌, inl, inr, String, Bool, true, false, Option, none, some,
  List, [], ◌∷◌, map, string_eq, nat_eq, contains, All, arith, Bool-cases, if◌then◌else◌,
}
use boi.Jobs.Row.{with_id, Job, Db, select, update, rowcount}

-- The row stands in the table.
abbrev pub In : Job → Db → Type 0
In a [] = ⊥
In a (j ∷ db) = (a ≡ j) ⊎ In a db

abbrev pub ids : Db → List String
ids = map (λ j. j.id)

abbrev pub add_key : Option String → List String → List String
add_key none ks = ks
add_key (some k) ks = k ∷ ks

-- The idempotency keys that are not NULL.
abbrev pub keys : Db → List String
keys [] = []
keys (j ∷ db) = add_key j.idempotency_key (keys db)

pub All-In : (P : Job → Type 0) (a : Job) (db : Db) → All P db → In a db → P a
All-In P a [] h m = absurd m
All-In P a (j ∷ db) h (inl e) = rw e h.0
All-In P a (j ∷ db) h (inr m) = All-In P a db h.1 m

In-contains : (a : Job) (db : Db) → In a db → contains a.id (ids db) ≡ true
In-contains a [] m = absurd m
In-contains a (j ∷ db) (inl e) = ground (arith, string_eq.equals_iff a.id j.id)
In-contains a (j ∷ db) (inr m) = ground (arith, In-contains a db m)

-- Two rows with one id are one row.
pub In-unique : (a b : Job) (db : Db) → Distinct (ids db) → In a db → In b db → a.id ≡ b.id → a ≡ b
In-unique a b [] d m n e = absurd m
In-unique a b (j ∷ db) d (inl p) (inl q) e = p ∙ sym q
In-unique a b (j ∷ db) d (inl p) (inr n) e = ground (arith, In-contains b db n)
In-unique a b (j ∷ db) d (inr m) (inl q) e = ground (arith, In-contains a db m)
In-unique a b (j ∷ db) d (inr m) (inr n) e = In-unique a b db d.1 m n e

module _ (p : Job → Bool) where
  pub select-In : (db : Db) (a : Job) → select p db ≡ some a → In a db × (p a ≡ true)
  select-In [] a e = cc
  select-In (j ∷ db) a e = elim (Bool-cases (p j)) [
    | inl hit ↦ (inl (ground arith), ground arith)
    | inr miss ↦ let (m, t) = select-In db a (rw miss at e) in (inr m, t)
  ]

  pub select-none : (db : Db) (a : Job) → select p db ≡ none → In a db → p a ≡ false
  select-none [] a e m = absurd m
  select-none (j ∷ db) a e (inl h) = ground arith
  select-none (j ∷ db) a e (inr m) = ground (arith, select-none db a, m)

  pub rowcount-zero : (db : Db) (a : Job) → rowcount p db ≡ 0 → In a db → p a ≡ false
  rowcount-zero [] a e m = absurd m
  rowcount-zero (j ∷ db) a e (inl h) = ground arith
  rowcount-zero (j ∷ db) a e (inr m) = ground (arith, rowcount-zero db a, m)

  -- Where no row meets the test the table stays as it is.
  pub rowcount_none : (db : Db) → ((a : Job) → In a db → p a ≡ false) → rowcount p db ≡ 0
  rowcount_none [] h = refl
  rowcount_none (j ∷ db) h = ground (arith, h j (inl refl), rowcount_none db (λ a m. h a (inr m)))

  pub update_none : (f : Job → Job) (db : Db) → rowcount p db ≡ 0 → update p f db ≡ db
  update_none f [] h = refl
  update_none f (j ∷ db) h = ground (arith, update_none f db)

  module _ (f : Job → Job) where
    pub update-All :
        (P Q : Job → Type 0) (db : Db)
        → ((j : Job) → In j db → P j → p j ≡ true → Q (f j))
        → ((j : Job) → In j db → P j → p j ≡ false → Q j)
        → All P db
        → All Q (update p f db)
    update-All P Q [] h k all = tt
    update-All P Q (j ∷ db) h k all = (
      elim (Bool-cases (p j)) [
        | inl e ↦ rw e (h j (inl refl) all.0 e)
        | inr e ↦ rw e (k j (inl refl) all.0 e)
      ],
      update-All P Q db (λ a m. h a (inr m)) (λ a m. k a (inr m)) all.1,
    )

    pub update-ids : ((j : Job) → (f j).id ≡ j.id) → (db : Db) → ids (update p f db) ≡ ids db
    update-ids h [] = refl
    update-ids h (j ∷ db) = ground (arith, h j, update-ids h db)

    pub update-keys :
        ((j : Job) → (f j).idempotency_key ≡ j.idempotency_key)
        → (db : Db) → keys (update p f db) ≡ keys db
    update-keys h [] = refl
    update-keys h (j ∷ db) = ground (arith, h j, update-keys h db)

    -- Each row of the new table comes from a row of the old one.
    pub update-In :
        (a : Job) (db : Db)
        → In a (update p f db)
        → (j : Job) × In j db × (a ≡ (if p j then f j else j))
    update-In a [] m = absurd m
    update-In a (j ∷ db) (inl e) = (j, inl refl, e)
    update-In a (j ∷ db) (inr m) = let (i, n, e) = update-In a db m in (i, inr n, e)

    pub update_hit : (a : Job) (db : Db) → In a db → p a ≡ true → In (f a) (update p f db)
    update_hit a [] m e = absurd m
    update_hit a (j ∷ db) (inl h) e = inl (rw h (ground arith))
    update_hit a (j ∷ db) (inr m) e = inr (update_hit a db m e)

-- Reading a row by its id sees the update.
pub select-update :
    (i : String) (p : Job → Bool) (f : Job → Job)
    → ((j : Job) → (f j).id ≡ j.id)
    → (db : Db) (a : Job) → select (with_id i) db ≡ some a
    → select (with_id i) (update p f db) ≡ some (if p a then f a else a)
select-update i p f same [] a e = cc
select-update i p f same (j ∷ db) a e = ground (arith, same j, select-update i p f same db a)

-- A row of a table with unique ids is what its id finds.
pub select_self :
    (a : Job) (db : Db) → Distinct (ids db) → In a db → select (with_id a.id) db ≡ some a
select_self a [] d m = absurd m
select_self a (j ∷ db) d (inl e) = rw e (ground (arith, string_eq.equals_iff j.id j.id))
select_self a (j ∷ db) d (inr m) =
    ground (arith, string_eq.equals_iff j.id a.id, select_self a db d.1 m, In-contains a db m)

-- Where one row alone can meet the test, and it does, one row is counted.
pub rowcount_one :
    (p : Job → Bool) (a : Job) (db : Db)
    → Distinct (ids db)
    → ((j : Job) → p j ≡ true → j.id ≡ a.id)
    → In a db
    → p a ≡ true
    → rowcount p db ≡ 1
rowcount_one p a [] d only m h = absurd m
rowcount_one p a (j ∷ db) d only (inl e) h = ground (
  arith,
  rowcount_none p db (λ b n. elim (Bool-cases (p b)) [
    | inl hit ↦ cc (
      ap (λ s. contains s (ids db)) (only b hit ∙ ap (λ (r : Job). r.id) e),
      In-contains b db n,
      d.0,
    )
    | inr miss ↦ miss
  ]),
)
rowcount_one p a (j ∷ db) d only (inr m) h = elim (Bool-cases (p j)) [
  | inl hit ↦ cc (ap (λ s. contains s (ids db)) (only j hit), In-contains a db m, d.0)
  | inr miss ↦ rw miss (omega (arith, rowcount_one p a db d.1 only m h))
]
