-- ===== src/Jobs/Claim.antt =====
-- `claim`: which row it takes, and when it takes none.
use boi.Prelude.{
  ◌≡◌, refl, ◌⊎◌, inl, inr, Bool, true, false, ◌&&◌, Option, none, some, [], ◌∷◌, string_eq, nat_eq,
  arith, Bool-cases, Option-cases, and-true, subst, ap,
}
use boi.Jobs.{Job, Db, ahead, first_of}
use boi.Jobs.Table.{In}

not_ahead_trans : (a b c : Job) → ahead b a ≡ false → ahead c b ≡ false → ahead c a ≡ false
not_ahead_trans a b c h k = ground arith

not_ahead_refl : (a : Job) → ahead a a ≡ false
not_ahead_refl a = ground arith

ahead_asym : (a b : Job) → ahead a b ≡ true → ahead b a ≡ false
ahead_asym a b h = ground arith

module _ (p : Job → Bool) where
  -- `a` is a row of the table that meets the test, and none that does stands before it.
  pub record IsFirst (db : Db) (a : Job) : Type 0 where
    pub present : In a db
    pub meets : p a ≡ true
    pub least : (b : Job) → In b db → p b ≡ true → ahead b a ≡ false

  -- The same, where the search goes on from the best row so far.
  record IsBest (best : Job) (db : Db) (a : Job) : Type 0 where
    source : (a ≡ best) ⊎ (In a db × (p a ≡ true))
    beats : ahead best a ≡ false
    least : (b : Job) → In b db → p b ≡ true → ahead b a ≡ false

  step_hit :
      (best j : Job) (db : Db) (a : Job)
      → (p j && ahead j best) ≡ true
      → IsBest j db a
      → IsBest best (j ∷ db) a
  step_hit best j db a hit w =
      let (meets, before) = and-true (p j) (ahead j best) hit in
      record {
        source = elim w.source [ inl e ↦ inr (inl e, rw e meets) | inr (m, q) ↦ inr (inr m, q) ];
        beats = not_ahead_trans a j best w.beats (ahead_asym j best before);
        least = λ b m q. elim m [ inl e ↦ rw e w.beats | inr n ↦ w.least b n q ];
      }

  step_miss :
      (best j : Job) (db : Db) (a : Job)
      → (p j && ahead j best) ≡ false
      → IsBest best db a
      → IsBest best (j ∷ db) a
  step_miss best j db a miss w = record {
    source = elim w.source [ inl e ↦ inl e | inr (m, q) ↦ inr (inr m, q) ];
    beats = w.beats;
    least = λ b m q. elim m [
      | inl e ↦ not_ahead_trans a best b w.beats (not_ahead (rw e miss) q)
      | inr n ↦ w.least b n q
    ];
  }
    where
      not_ahead : {b : Job} → (p b && ahead b best) ≡ false → p b ≡ true → ahead b best ≡ false
      not_ahead {b} h q = rw q at h

  started : (j : Job) (db : Db) (a : Job) → p j ≡ true → IsBest j db a → IsFirst (j ∷ db) a
  started j db a hit w = record {
    present = elim w.source [ inl e ↦ inl e | inr (m, q) ↦ inr m ];
    meets = elim w.source [ inl e ↦ rw e hit | inr (m, q) ↦ q ];
    least = λ b m q. elim m [ inl e ↦ rw e w.beats | inr n ↦ w.least b n q ];
  }

  later : (j : Job) (db : Db) (a : Job) → p j ≡ false → IsFirst db a → IsFirst (j ∷ db) a
  later j db a miss w = record {
    present = inr w.present;
    meets = w.meets;
    least = λ b m q. elim m [ inl e ↦ cc (ap p e) | inr n ↦ w.least b n q ];
  }

  found : {o : Option Job} {a c : Job} → o ≡ some a → o ≡ some c → c ≡ a
  found e f = cc

  first_of-IsBest :
      (best : Job) (db : Db) → (a : Job) × (first_of p (some best) db ≡ some a) × IsBest best db a
  first_of-IsBest best [] = (
    best,
    refl,
    record { source = inl refl; beats = not_ahead_refl best; least = λ b m. absurd m },
  )
  first_of-IsBest best (j ∷ db) = elim (Bool-cases (p j && ahead j best)) [
    | inl hit ↦ let (a, e, w) = first_of-IsBest j db in (a, rw hit e, step_hit best j db a hit w)
    | inr miss ↦
        let (a, e, w) = first_of-IsBest best db in (a, rw miss e, step_miss best j db a miss w)
  ]

  -- The search from an empty hand.
  pub first_of-IsFirst : (db : Db) (a : Job) → first_of p none db ≡ some a → IsFirst db a
  first_of-IsFirst [] a e = cc
  first_of-IsFirst (j ∷ db) a e = elim (Bool-cases (p j)) [
    | inl hit ↦
        let (c, f, w) = first_of-IsBest j db in
        subst (IsFirst (j ∷ db)) (found (rw hit at e) f) (started j db c hit w)
    | inr miss ↦ later j db a miss (first_of-IsFirst db a (rw miss at e))
  ]

  pub first_of-none : (db : Db) (b : Job) → first_of p none db ≡ none → In b db → p b ≡ false
  first_of-none [] b e m = absurd m
  first_of-none (j ∷ db) b e m = elim (Bool-cases (p j)) [
    | inl hit ↦ let (c, f, w) = first_of-IsBest j db in ground (arith, rw hit at e, f)
    | inr miss ↦ elim m [
      | inl same ↦ rw same miss
      | inr rest ↦ first_of-none db b (rw miss at e) rest
    ]
  ]

-- A claim fails to find a row only where no row is eligible.
pub first_of-some :
    (p : Job → Bool) (db : Db) (b : Job)
    → In b db
    → p b ≡ true
    → (a : Job) × (first_of p none db ≡ some a)
first_of-some p db b m h = elim (Option-cases (first_of p none db)) [
  | inl e ↦ cc (first_of-none p db b e m)
  | inr found ↦ found
]
