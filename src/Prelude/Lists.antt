-- ===== src/Prelude/Lists.antt =====
-- Lists measured and cut by native numbers, and lists under Boolean tests.
use Prim.Native.Nat.{ℕ, zero, suc, ◌+◌, ◌≤◌}
use mathlib.Core.Path.{◌≡◌, refl, sym, ap, ◌∙◌}
use mathlib.Core.Bool.{Bool, true, false, ◌||◌}
use mathlib.Core.Logic.{◌↔◌, ◌⊎◌, inl, inr}
use mathlib.Core.List.{List, [], ◌∷◌, ◌++◌, map}
use native.Mathlib.Omega.{arith}
use boi.Prelude.Tests.{if◌then◌else◌, Bool-cases, true_not_false}

module _ {ℓ} {A : Type ℓ} where
  abbrev pub length : List A → ℕ
  length [] = 0
  length (x ∷ xs) = suc (length xs)

  abbrev pub take : ℕ → List A → List A
  take zero xs = []
  take (suc n) [] = []
  take (suc n) (x ∷ xs) = x ∷ take n xs

  pub length-append : (xs ys : List A) → length (xs ++ ys) ≡ length xs + length ys
  length-append [] ys = omega arith
  length-append (x ∷ xs) ys = omega (arith, length-append xs ys)

  pub length-take-le : (n : ℕ) (xs : List A) → length (take n xs) ≤ n
  length-take-le zero xs = omega arith
  length-take-le (suc n) [] = omega arith
  length-take-le (suc n) (x ∷ xs) = omega (arith, length-take-le n xs)

  -- `[x for x in xs if p(x)]`
  abbrev pub keep : (A → Bool) → List A → List A
  keep p [] = []
  keep p (x ∷ xs) = if p x then x ∷ keep p xs else keep p xs

  -- `any(p(x) for x in xs)`
  abbrev pub any : (A → Bool) → List A → Bool
  any p [] = false
  any p (x ∷ xs) = p x || any p xs

  -- Every element has the property.
  abbrev pub All {κ} : (A → Type κ) → List A → Type κ
  All P [] = Unit
  All P (x ∷ xs) = P x × All P xs

  pub All-append {κ} : (P : A → Type κ) (xs ys : List A) → All P xs → All P ys → All P (xs ++ ys)
  All-append P [] ys h k = k
  All-append P (x ∷ xs) ys h k = (h.0, All-append P xs ys h.1 k)

  pub All-mono {κ ι} :
      (P : A → Type κ) (Q : A → Type ι) (xs : List A) → ((x : A) → P x → Q x) → All P xs → All Q xs
  All-mono P Q [] f h = tt
  All-mono P Q (x ∷ xs) f h = (f x h.0, All-mono P Q xs f h.1)

module _ {A : Type 0} where
  -- The element stands in the list.
  abbrev pub Among : A → List A → Type 0
  Among a [] = ⊥
  Among a (x ∷ xs) = (a ≡ x) ⊎ Among a xs

  pub Among-append : (a : A) (xs ys : List A) → Among a (xs ++ ys) ↔ (Among a xs ⊎ Among a ys)
  Among-append a [] ys = (inr, λ m. elim m [ inl n ↦ absurd n | inr n ↦ n ])
  Among-append a (x ∷ xs) ys = (
    λ m. elim m [
      | inl e ↦ inl (inl e)
      | inr n ↦ elim ((Among-append a xs ys).0 n) [ inl k ↦ inl (inr k) | inr k ↦ inr k ]
    ],
    λ m. elim m [
      | inl (inl e) ↦ inl e
      | inl (inr n) ↦ inr ((Among-append a xs ys).1 (inl n))
      | inr n ↦ inr ((Among-append a xs ys).1 (inr n))
    ],
  )

  pub any-found :
      (p : A → Bool) (xs : List A) → any p xs ≡ true → (a : A) × Among a xs × (p a ≡ true)
  any-found p [] e = cc
  any-found p (x ∷ xs) e = elim (Bool-cases (p x)) [
    | inl hit ↦ (x, inl refl, hit)
    | inr miss ↦ let (a, m, h) = any-found p xs (ground arith) in (a, inr m, h)
  ]

  pub any_hit : (p : A → Bool) (a : A) (xs : List A) → Among a xs → p a ≡ true → any p xs ≡ true
  any_hit p a [] m h = absurd m
  any_hit p a (x ∷ xs) (inl e) h = rw (sym e, h) refl
  any_hit p a (x ∷ xs) (inr m) h = ground (arith, any_hit p a xs m h)

  pub Among-keep :
      (p : A → Bool) (a : A) (xs : List A) → Among a (keep p xs) ↔ (Among a xs × (p a ≡ true))
  Among-keep p a [] = (λ m. absurd m, λ m. absurd m.0)
  Among-keep p a (x ∷ xs) = elim (Bool-cases (p x)) [
    | inl hit ↦ rw hit (
      λ m. elim m [
        | inl e ↦ (inl e, ap p e ∙ hit)
        | inr n ↦ let (k, h) = (Among-keep p a xs).0 n in (inr k, h)
      ],
      λ (m, h). elim m [ inl e ↦ inl e | inr n ↦ inr ((Among-keep p a xs).1 (n, h)) ],
    )
    | inr miss ↦ rw miss (
      λ m. let (k, h) = (Among-keep p a xs).0 m in (inr k, h),
      λ (m, h). elim m [
        | inl e ↦ absurd (true_not_false (sym h ∙ ap p e ∙ miss))
        | inr n ↦ (Among-keep p a xs).1 (n, h)
      ],
    )
  ]

-- What stands in the image of a list is the image of an element.
pub Among-map :
    {A B : Type 0} (f : A → B) (b : B) (xs : List A)
    → Among b (map f xs)
    → (a : A) × Among a xs × (b ≡ f a)
Among-map f b [] m = absurd m
Among-map f b (x ∷ xs) (inl e) = (x, inl refl, e)
Among-map f b (x ∷ xs) (inr m) = let (a, n, e) = Among-map f b xs m in (a, inr n, e)

pub Among-image :
    {A B : Type 0} (f : A → B) (a : A) (xs : List A) → Among a xs → Among (f a) (map f xs)
Among-image f a (x ∷ xs) (inl e) = inl (ap f e)
Among-image f a (x ∷ xs) (inr m) = inr (Among-image f a xs m)
Among-image f a [] m = absurd m
