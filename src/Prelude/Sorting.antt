-- ===== src/Prelude/Sorting.antt =====
-- A stable sort, as Python's `sort` and an ORDER BY need it, and the tests of a sorted list.
use mathlib.Core.Path.{◌≡◌}
use mathlib.Core.Logic.{◌↔◌, ◌⊎◌, inl, inr}
use mathlib.Core.Bool.{Bool}
use mathlib.Core.List.{List, [], ◌∷◌}
use boi.Prelude.Tests.{if◌then◌else◌, Bool-cases}
use boi.Prelude.Lists.{Among}

module _ {A : Type 0} (follows : A → A → Bool) where
  -- `a` goes behind the elements that it follows.
  unfoldable pub insert_by : A → List A → List A
  insert_by a [] = a ∷ []
  insert_by a (b ∷ bs) = if follows a b then b ∷ insert_by a bs else a ∷ b ∷ bs

  unfoldable pub sort_by : List A → List A
  sort_by [] = []
  sort_by (a ∷ xs) = insert_by a (sort_by xs)

  Among-insert_by : (x a : A) (bs : List A) → Among x (insert_by a bs) ↔ ((x ≡ a) ⊎ Among x bs)
  unfolding insert_by
  Among-insert_by x a [] = (λ m. m, λ m. m)
  Among-insert_by x a (b ∷ bs) = elim (Bool-cases (follows a b)) [
    | inr here ↦ rw here (λ m. m, λ m. m)
    | inl later ↦ rw later (
      λ m. elim m [
        | inl e ↦ inr (inl e)
        | inr n ↦ elim ((Among-insert_by x a bs).0 n) [ inl e ↦ inl e | inr k ↦ inr (inr k) ]
      ],
      λ m. elim m [
        | inl e ↦ inr ((Among-insert_by x a bs).1 (inl e))
        | inr (inl e) ↦ inl e
        | inr (inr k) ↦ inr ((Among-insert_by x a bs).1 (inr k))
      ],
    )
  ]

  -- Sorting keeps the elements.
  pub Among-sort_by : (x : A) (xs : List A) → Among x (sort_by xs) ↔ Among x xs
  unfolding sort_by
  Among-sort_by x [] = (λ m. m, λ m. m)
  Among-sort_by x (a ∷ xs) = (
    λ m. elim ((Among-insert_by x a (sort_by xs)).0 m) [
      | inl e ↦ inl e
      | inr k ↦ inr ((Among-sort_by x xs).0 k)
    ],
    λ m. elim m [
      | inl e ↦ (Among-insert_by x a (sort_by xs)).1 (inl e)
      | inr k ↦ (Among-insert_by x a (sort_by xs)).1 (inr ((Among-sort_by x xs).1 k))
    ],
  )
