-- ===== src/Scoring/Order.antt =====
-- The order of the report's evidence.
use mathlib.Core.List.{Perm}
use mathlib.Core.List.Perm
use boi.Prelude.Floats.{Floats}
use boi.Prelude.{ℕ, ◌≤◌, inl, inr, String, List, [], ◌∷◌, ◌++◌, nat_eq, arith, Bool-cases}
use boi.Scoring.Types.{Scored}
use boi.Scoring.Calculate.{Input, calculate, sort_scored, insert_scored, sorts_before}

insert_scored-perm : (a : Scored) (bs : List Scored) → Perm (insert_scored a bs) (a ∷ bs)
unfolding insert_scored
insert_scored-perm a [] = Perm.refl (a ∷ [])
insert_scored-perm a (b ∷ bs) = elim (Bool-cases (sorts_before b a)) [
  | inl later ↦ rw later (Perm.trans (Perm.cons b (insert_scored-perm a bs)) (Perm.swap a b bs))
  | inr here ↦ rw here (Perm.refl (a ∷ b ∷ bs))
]

pub sort_scored-perm : (xs : List Scored) → Perm (sort_scored xs) xs
unfolding sort_scored
sort_scored-perm [] = Perm.refl []
sort_scored-perm (a ∷ xs) =
    Perm.trans (insert_scored-perm a (sort_scored xs)) (Perm.cons a (sort_scored-perm xs))

-- Points never rise along the list.
abbrev pub Falls : List Scored → Type 0
Falls [] = Unit
Falls (a ∷ []) = Unit
Falls (a ∷ b ∷ xs) = (b.points ≤ a.points) × Falls (b ∷ xs)

insert_scored-Falls : (a : Scored) (bs : List Scored) → Falls bs → Falls (insert_scored a bs)
unfolding insert_scored
insert_scored-Falls a [] h = tt
insert_scored-Falls a (b ∷ []) h = ground arith
insert_scored-Falls a (b ∷ c ∷ bs) h = ground (arith, insert_scored-Falls a (c ∷ bs) h.1)

pub sort_scored-Falls : (xs : List Scored) → Falls (sort_scored xs)
unfolding sort_scored
sort_scored-Falls [] = tt
sort_scored-Falls (a ∷ xs) = insert_scored-Falls a (sort_scored xs) (sort_scored-Falls xs)

module _ (fs : Floats) (ext_id : String → ℕ → String) where
  -- The report's evidence is the static and the runtime rules that it lists, none left out and none
  -- twice, in an order in which points never rise.
  pub evidence_sorted :
      (i : Input fs)
      → let r = calculate fs ext_id i in
        Perm r.evidence (r.static_rules ++ r.runtime_rules) × Falls r.evidence
  unfolding calculate
  evidence_sorted i = (sort_scored-perm _, sort_scored-Falls _)
