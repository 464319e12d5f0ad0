-- ===== src/Archive/Names.antt =====
-- The loop over the entries (fraudshield/deceptiscope/validator.py): what it lets through, and what
-- it adds up.
use boi.Prelude.{
  ℕ, ◌+◌, ◌≡◌, ◌↔◌, refl, sym, ap, ◌∙◌, String, true, false, ◌||◌, Option, none, some, List, [],
  ◌∷◌, map, ◌==◌, string_eq, contains, Distinct, All, arith, Bool-cases, true_not_false, inl, inr,
}
use boi.Archive.Validate.{
  Entry, Scan, grown, scan, unless, entry_error, is_invalid_name, leaves_archive, is_encrypted,
  is_symlink, ok, err,
}

pub record IsSafe (e : Entry) : Type 0 where
  pub valid_name : is_invalid_name e.filename ≡ false
  pub stays_inside : leaves_archive e.filename ≡ false
  pub plain : is_encrypted e ≡ false
  pub no_link : is_symlink e ≡ false

abbrev pub filenames : List Entry → List String
filenames = map (λ e. e.filename)

abbrev pub uncompressed : List Entry → ℕ
uncompressed [] = 0
uncompressed (e ∷ es) = e.file_size + uncompressed es

abbrev pub compressed : List Entry → ℕ
compressed [] = 0
compressed (e ∷ es) = e.compress_size + compressed es

-- The variables after the loop.
abbrev pub after : List Entry → Scan → Scan
after [] s = s
after (e ∷ es) s = after es (grown e s)

-- Safe entries whose names are new, each in its turn.
abbrev pub Clean : List String → List Entry → Type 0
Clean names [] = Unit
Clean names (e ∷ es) =
    (IsSafe e × (contains e.filename names ≡ false)) × Clean (e.filename ∷ names) es

entry_error-none :
    (names : List String) (e : Entry)
    → entry_error names e ≡ none
    → IsSafe e × (contains e.filename names ≡ false)
unfolding entry_error
entry_error-none names e h = (
  record {
    valid_name = ground arith;
    stays_inside = ground arith;
    plain = ground arith;
    no_link = ground arith;
  },
  ground arith,
)

entry_error-IsSafe :
    (names : List String) (e : Entry)
    → IsSafe e
    → contains e.filename names ≡ false
    → entry_error names e ≡ none
unfolding entry_error
entry_error-IsSafe names e s n = rw (s.valid_name, s.stays_inside, n, s.plain, s.no_link) refl

unless_ok :
    {A : Type 0} (o : Option boi.Archive.Validate.Error) (r : boi.Archive.Validate.Result A) (a : A)
    → unless o r ≡ ok a
    → (o ≡ none) × (r ≡ ok a)
unless_ok none r a h = (refl, h)
unless_ok (some e) r a h = cc

pub scan-Clean :
    (es : List Entry) (s t : Scan) → scan es s ≡ ok t → Clean s.names es × (t ≡ after es s)
unfolding scan
scan-Clean [] s t h = (tt, cc)
scan-Clean (e ∷ es) s t h =
    let (none_wrong, rest) = unless_ok (entry_error s.names e) (scan es (grown e s)) t h in
    let (clean, same) = scan-Clean es (grown e s) t rest in
    ((entry_error-none s.names e none_wrong, clean), same)

pub scan-after : (es : List Entry) (s : Scan) → Clean s.names es → scan es s ≡ ok (after es s)
unfolding scan
scan-after [] s c = refl
scan-after (e ∷ es) s c =
    ap (λ o. unless o (scan es (grown e s))) (entry_error-IsSafe s.names e c.0.0 c.0.1)
    ∙ scan-after es (grown e s) c.1

pub after_totals :
    (es : List Entry) (s : Scan)
    → ((after es s).total_uncompressed ≡ s.total_uncompressed + uncompressed es)
      × ((after es s).total_compressed ≡ s.total_compressed + compressed es)
after_totals [] s = omega arith
after_totals (e ∷ es) s = omega (arith, after_totals es (grown e s))

pub after_names :
    (es : List Entry) (s : Scan) (x : String)
    → contains x (after es s).names ≡ (contains x s.names || contains x (filenames es))
after_names [] s x = ground arith
after_names (e ∷ es) s x = ground (arith, after_names es (grown e s) x)

-- Names that are new each in its turn are the names of safe entries, none twice and none of them
-- among the names before.
pub Clean-iff :
    (names : List String) (es : List Entry)
    → Clean names es ↔ (
        All IsSafe es
        × Distinct (filenames es)
        × ((x : String) → contains x (filenames es) ≡ true → contains x names ≡ false))
Clean-iff names [] = (λ c. (tt, tt, λ x m. absurd (true_not_false (sym m))), λ c. tt)
Clean-iff names (e ∷ es) = (
  λ c.
      let (safe, distinct, apart) = (Clean-iff (e.filename ∷ names) es).0 c.1 in
      (
        (c.0.0, safe),
        (
          elim (Bool-cases (contains e.filename (filenames es))) [
            | inl twice ↦
                ground (arith, apart e.filename twice, string_eq.equals_iff e.filename e.filename)
            | inr once ↦ once
          ],
          distinct,
        ),
        λ x m. elim (Bool-cases (x == e.filename)) [
          | inl same ↦
              ap (λ y. contains y names) ((string_eq.equals_iff x e.filename).0 same) ∙ c.0.1
          | inr other ↦ ground (arith, apart x (ground arith))
        ],
      ),
  λ (safe, distinct, apart). (
    (safe.0, apart e.filename (ground (arith, string_eq.equals_iff e.filename e.filename))),
    (Clean-iff (e.filename ∷ names) es).1 (
      safe.1,
      distinct.1,
      λ x m. elim (Bool-cases (x == e.filename)) [
        | inl same ↦ cc (
          ap (λ y. contains y (filenames es)) ((string_eq.equals_iff x e.filename).0 same),
          m,
          distinct.0,
        )
        | inr other ↦ ground (arith, other, apart x (ground (arith, m)))
      ],
    ),
  ),
)
