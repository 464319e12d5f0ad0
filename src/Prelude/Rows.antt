-- ===== src/Prelude/Rows.antt =====
-- Tables as lists of their rows: the SQL statements that the repositories
-- (fraudshield/core/repository.py) share, and what a SELECT finds after an INSERT or an UPDATE.
use mathlib.Core.Path.{◌≡◌, refl, sym, ap, ◌∙◌}
use mathlib.Core.Logic.{inl, inr}
use mathlib.Core.Bool.{Bool, true, false, ◌||◌}
use mathlib.Core.Option.{Option, none, some}
use mathlib.Core.List.{List, [], ◌∷◌, ◌++◌}
use native.Mathlib.Omega.{arith}
use boi.Prelude.Tests.{if◌then◌else◌, Bool-cases}
use boi.Prelude.Lists.{any, Among, All, All-append}

-- `SELECT * FROM t WHERE p LIMIT 1`
abbrev pub select {ℓ} : {A : Type ℓ} → (A → Bool) → List A → Option A
select p [] = none
select p (x ∷ xs) = if p x then some x else select p xs

abbrev pub update {ℓ} : {A : Type ℓ} → (A → Bool) → (A → A) → List A → List A
update p f [] = []
update p f (x ∷ xs) = (if p x then f x else x) ∷ update p f xs

-- `INSERT ... ON CONFLICT (key) DO UPDATE`, where `p` finds the key.
unfoldable pub upsert : {A : Type 0} → (A → Bool) → (A → A) → A → List A → List A
upsert p f new xs = if any p xs then update p f xs else xs ++ (new ∷ [])

module _ {A : Type 0} where
  some_inj : {a b : A} → some a ≡ some b → a ≡ b
  some_inj e = cc

  pub select_hit :
      (p : A → Bool) (xs : List A) (x : A) → select p xs ≡ some x → (p x ≡ true) × Among x xs
  select_hit p [] x e = cc
  select_hit p (y ∷ ys) x e = elim (Bool-cases (p y)) [
    | inl hit ↦ let same : x ≡ y = sym (some_inj (rw hit at e)) in (ap p same ∙ hit, inl same)
    | inr miss ↦ let (k, m) = select_hit p ys x (rw miss at e) in (k, inr m)
  ]

  pub select-none : (p : A → Bool) (xs : List A) → any p xs ≡ false → select p xs ≡ none
  select-none p [] h = refl
  select-none p (x ∷ xs) h = ground (arith, select-none p xs (ground arith))

  pub select-some :
      (p : A → Bool) (xs : List A) → any p xs ≡ true → (x : A) × (select p xs ≡ some x)
  select-some p [] h = cc
  select-some p (x ∷ xs) h = elim (Bool-cases (p x)) [
    | inl hit ↦ (x, rw hit refl)
    | inr miss ↦ let (y, e) = select-some p xs (ground arith) in (y, rw miss e)
  ]

  pub select-append :
      (p : A → Bool) (xs ys : List A) → any p xs ≡ false → select p (xs ++ ys) ≡ select p ys
  select-append p [] ys h = refl
  select-append p (x ∷ xs) ys h = ground (arith, select-append p xs ys (ground arith))

  select-append_found :
      (p : A → Bool) (xs ys : List A) → any p xs ≡ true → select p (xs ++ ys) ≡ select p xs
  select-append_found p [] ys h = cc
  select-append_found p (x ∷ xs) ys h = elim (Bool-cases (p x)) [
    | inl hit ↦ rw hit refl
    | inr miss ↦ rw miss (select-append_found p xs ys (ground arith))
  ]

  pub any-append : (p : A → Bool) (xs ys : List A) → any p (xs ++ ys) ≡ (any p xs || any p ys)
  any-append p [] ys = refl
  any-append p (x ∷ xs) ys = ground (arith, any-append p xs ys)

  -- An UPDATE that sets no row's key leaves what another key finds.
  pub select-update_other :
      (p q : A → Bool) (f : A → A) (xs : List A)
      → ((x : A) → q x ≡ true → (p x ≡ false) × (p (f x) ≡ false))
      → select p (update q f xs) ≡ select p xs
  select-update_other p q f [] h = refl
  select-update_other p q f (x ∷ xs) h = elim (Bool-cases (q x)) [
    | inl hit ↦ rw (hit, (h x hit).0, (h x hit).1) (select-update_other p q f xs h)
    | inr miss ↦ rw (miss, select-update_other p q f xs h) refl
  ]

  abbrev pub after : (A → A) → Option A → Option A
  after f none = none
  after f (some x) = some (f x)

  pub select-update_same :
      (q : A → Bool) (f : A → A) (xs : List A)
      → ((x : A) → q x ≡ true → q (f x) ≡ true)
      → select q (update q f xs) ≡ after f (select q xs)
  select-update_same q f [] h = refl
  select-update_same q f (x ∷ xs) h = elim (Bool-cases (q x)) [
    | inl hit ↦ rw (hit, h x hit) refl
    | inr miss ↦ rw (miss, miss) (select-update_same q f xs h)
  ]

  pub any-update :
      (p q : A → Bool) (f : A → A) (xs : List A)
      → ((x : A) → q x ≡ true → p (f x) ≡ p x)
      → any p (update q f xs) ≡ any p xs
  any-update p q f [] h = refl
  any-update p q f (x ∷ xs) h = elim (Bool-cases (q x)) [
    | inl hit ↦ rw (hit, h x hit, any-update p q f xs h) refl
    | inr miss ↦ rw (miss, any-update p q f xs h) refl
  ]

  -- After an upsert the key finds the new row, or the old one overwritten.
  abbrev pub or_new : (A → A) → A → Option A → Option A
  or_new f new none = some new
  or_new f new (some x) = some (f x)

  pub select-upsert_same :
      (p : A → Bool) (f : A → A) (new : A) (xs : List A)
      → p new ≡ true
      → ((x : A) → p x ≡ true → p (f x) ≡ true)
      → select p (upsert p f new xs) ≡ or_new f new (select p xs)
  unfolding upsert
  select-upsert_same p f new xs n h = elim (Bool-cases (any p xs)) [
    | inl there ↦
        let (x, e) = select-some p xs there in rw (there, select-update_same p f xs h, e) refl
    | inr absent ↦
        rw (absent, select-append p xs (new ∷ []) absent, select-none p xs absent, n) refl
  ]

  pub select-upsert_other :
      (p q : A → Bool) (f : A → A) (new : A) (xs : List A)
      → p new ≡ false
      → ((x : A) → q x ≡ true → (p x ≡ false) × (p (f x) ≡ false))
      → select p (upsert q f new xs) ≡ select p xs
  unfolding upsert
  select-upsert_other p q f new xs n h = elim (Bool-cases (any q xs)) [
    | inl there ↦ rw there (select-update_other p q f xs h)
    | inr absent ↦ rw absent (elim (Bool-cases (any p xs)) [
      | inl found ↦ select-append_found p xs (new ∷ []) found
      | inr unfound ↦ rw (select-append p xs (new ∷ []) unfound, n, select-none p xs unfound) refl
    ])
  ]

  -- An upsert keeps the keys that are there, and has its own.
  pub any-upsert_keeps :
      (p q : A → Bool) (f : A → A) (new : A) (xs : List A)
      → ((x : A) → q x ≡ true → p (f x) ≡ p x)
      → any p xs ≡ true
      → any p (upsert q f new xs) ≡ true
  unfolding upsert
  any-upsert_keeps p q f new xs h n = elim (Bool-cases (any q xs)) [
    | inl there ↦ rw there (any-update p q f xs h ∙ n)
    | inr absent ↦ rw (absent, any-append p xs (new ∷ []), n) refl
  ]

  pub any-upsert_hits :
      (p : A → Bool) (f : A → A) (new : A) (xs : List A)
      → ((x : A) → p x ≡ true → p (f x) ≡ p x)
      → p new ≡ true
      → any p (upsert p f new xs) ≡ true
  unfolding upsert
  any-upsert_hits p f new xs h n = elim (Bool-cases (any p xs)) [
    | inl there ↦ rw there (any-update p p f xs h ∙ there)
    | inr absent ↦ rw (absent, any-append p xs (new ∷ []), absent, n) refl
  ]

  -- What an UPDATE makes of a property of all rows.
  pub All-update {κ ι} :
      (P : A → Type κ) (Q : A → Type ι) (q : A → Bool) (f : A → A) (xs : List A)
      → ((x : A) → q x ≡ true → P x → Q (f x))
      → ((x : A) → q x ≡ false → P x → Q x)
      → All P xs
      → All Q (update q f xs)
  All-update P Q q f [] h k m = tt
  All-update P Q q f (x ∷ xs) h k m = elim (Bool-cases (q x)) [
    | inl hit ↦ rw hit (h x hit m.0, All-update P Q q f xs h k m.1)
    | inr miss ↦ rw miss (k x miss m.0, All-update P Q q f xs h k m.1)
  ]

  pub All-upsert {κ} :
      (P : A → Type κ) (q : A → Bool) (f : A → A) (new : A) (xs : List A)
      → ((x : A) → P x → P (f x))
      → P new
      → All P xs
      → All P (upsert q f new xs)
  unfolding upsert
  All-upsert P q f new xs h n k = elim (Bool-cases (any q xs)) [
    | inl there ↦ rw there (All-update P P q f xs (λ x hit. h x) (λ x miss p. p) k)
    | inr absent ↦ rw absent (All-append P xs (new ∷ []) k (n, tt))
  ]

  -- No two rows are the same in a key.
  abbrev pub Unique : (A → A → Bool) → List A → Type 0
  Unique same [] = Unit
  Unique same (x ∷ xs) = (any (same x) xs ≡ false) × Unique same xs

  pub Unique-append :
      (same : A → A → Bool) (new : A) (xs : List A)
      → All (λ x. same x new ≡ false) xs
      → Unique same xs
      → Unique same (xs ++ (new ∷ []))
  Unique-append same new [] h u = (refl, tt)
  Unique-append same new (x ∷ xs) h u =
      (any-append (same x) xs (new ∷ []) ∙ rw (u.0, h.0) refl, Unique-append same new xs h.1 u.1)

  any_ext : (p r : A → Bool) (xs : List A) → ((x : A) → p x ≡ r x) → any p xs ≡ any r xs
  any_ext p r [] e = refl
  any_ext p r (x ∷ xs) e = rw (e x, any_ext p r xs e) refl

  pub Unique-update :
      (same : A → A → Bool) (q : A → Bool) (f : A → A) (xs : List A)
      → ((x y : A) → same (f x) y ≡ same x y)
      → ((x y : A) → same x (f y) ≡ same x y)
      → Unique same xs
      → Unique same (update q f xs)
  Unique-update same q f [] h k u = tt
  Unique-update same q f (x ∷ xs) h k u =
      let apart : any (same x) (update q f xs) ≡ false =
        any-update (same x) q f xs (λ y hit. k x y) ∙ u.0 in
      elim (Bool-cases (q x)) [
        | inl hit ↦ rw hit (
          any_ext (same (f x)) (same x) (update q f xs) (h x) ∙ apart,
          Unique-update same q f xs h k u.1,
        )
        | inr miss ↦ rw miss (apart, Unique-update same q f xs h k u.1)
      ]

  -- Rows that a key does not find.
  pub none-found : (p : A → Bool) (xs : List A) → any p xs ≡ false → All (λ x. p x ≡ false) xs
  none-found p [] h = tt
  none-found p (x ∷ xs) h = (ground (arith, h), none-found p xs (ground (arith, h)))

  pub unselected : (p : A → Bool) (xs : List A) → select p xs ≡ none → any p xs ≡ false
  unselected p [] e = refl
  unselected p (x ∷ xs) e = elim (Bool-cases (p x)) [
    | inl hit ↦ cc (rw hit at e)
    | inr miss ↦ rw miss (unselected p xs (rw miss at e))
  ]
