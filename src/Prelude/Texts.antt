-- ===== src/Prelude/Texts.antt =====
-- Equality as an interface, with its instances at numbers, texts and options; and Python's slice
-- `s[:n]` of a text.
use Prim.Native.Char.{code}
use Prim.Native.Nat.{ℕ, zero, suc, ◌-◌}
use Prim.Native.String.{String, len, slice}
use mathlib.Core.Path.{◌≡◌, refl}
use mathlib.Core.Logic.{◌↔◌}
use mathlib.Core.Bool.{Bool, true, false, ◌&&◌, ◌||◌}
use mathlib.Core.List.{List, [], ◌∷◌, ◌++◌}
use text.Mathlib.Text.{◌==◌ as str_eq}
use text.Mathlib.TextEquality.{eq_iff}
use native.Mathlib.Omega.{arith}
use boi.Prelude.Tests.{leb, nat_beq, nat_beq_iff, if◌then◌else◌}

pub record HasEquality {ℓ} (A : Type ℓ) : Type ℓ where
  pub equals : A → A → Bool
  pub equals_iff : (a b : A) → (equals a b ≡ true) ↔ (a ≡ b)

infix 50 ◌==◌
abbrev pub ◌==◌ {ℓ} : {A : Type ℓ} ⦃e : HasEquality A⦄ → A → A → Bool
◌==◌ ⦃e⦄ = e.equals

instance abbrev pub nat_eq : HasEquality ℕ
nat_eq = record { equals = nat_beq; equals_iff = nat_beq_iff }

instance abbrev pub string_eq : HasEquality String
string_eq = record { equals = str_eq; equals_iff = eq_iff }

pub equals_refl {ℓ} : {A : Type ℓ} ⦃e : HasEquality A⦄ (a : A) → (a == a) ≡ true
equals_refl ⦃e⦄ a = (e.equals_iff a a).1 refl

-- `s[:n]`
unfoldable pub take_chars : ℕ → String → String
take_chars zero s = String.[]
take_chars (suc n) String.[] = String.[]
take_chars (suc n) (String.◌∷◌ c s) = String.◌∷◌ c (take_chars n s)

-- `s.endswith(suffix)`
abbrev pub ends_with : String → String → Bool
ends_with s suffix =
    leb (len suffix) (len s) && str_eq (slice s (len s - len suffix) (len s)) suffix

-- The text without this character: `replace(":", "")`.
unfoldable pub without_char : ℕ → String → String
without_char n String.[] = String.[]
without_char n (String.◌∷◌ c s) =
    let rest = without_char n s in if nat_beq (code c) n then rest else String.◌∷◌ c rest

abbrev pub between : ℕ → ℕ → ℕ → Bool
between lo hi n = leb lo n && leb n hi

-- Whether the code of every character passes the test.
unfoldable pub every_code : (ℕ → Bool) → String → Bool
every_code p String.[] = true
every_code p (String.◌∷◌ c s) = p (code c) && every_code p s

-- `s.startswith(prefix)`
abbrev pub starts_with : String → String → Bool
starts_with s prefix = str_eq (take_chars (len prefix) s) prefix

-- `part in s`, for a part that is not empty.
unfoldable pub has_part : String → String → Bool
has_part part String.[] = false
has_part part (String.◌∷◌ c s) = starts_with (String.◌∷◌ c s) part || has_part part s

-- `x in xs`, for a list or the keys of a dict.
module _ {ℓ} {A : Type ℓ} ⦃e : HasEquality A⦄ where
  abbrev pub contains : A → List A → Bool
  contains a [] = false
  contains a (x ∷ xs) = a == x || contains a xs

  -- No element stands twice.
  abbrev pub Distinct : List A → Type 0
  Distinct [] = Unit
  Distinct (x ∷ xs) = (contains x xs ≡ false) × Distinct xs

  pub contains-append :
      (a : A) (xs ys : List A) → contains a (xs ++ ys) ≡ (contains a xs || contains a ys)
  contains-append a [] ys = refl
  contains-append a (x ∷ xs) ys = ground (arith, contains-append a xs ys)

  pub equals_sym : (a b : A) → (a == b) ≡ (b == a)
  equals_sym a b = ground (arith, e.equals_iff a b, e.equals_iff b a)

  -- A new element at the end keeps a list without repetitions.
  pub Distinct-append :
      (a : A) (xs : List A) → Distinct xs → contains a xs ≡ false → Distinct (xs ++ (a ∷ []))
  Distinct-append a [] d n = (refl, tt)
  Distinct-append a (x ∷ xs) d n = (
    ground (arith, contains-append x xs (a ∷ []), equals_sym a x, d.0),
    Distinct-append a xs d.1 (ground arith),
  )
