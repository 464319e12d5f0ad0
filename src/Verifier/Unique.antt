-- ===== src/Verifier/Unique.antt =====
-- `_unique_strings` of fraudshield/deceptiscope/verifier.py: what it keeps.
use boi.Prelude.{
  inr, inl, ℕ, ◌≤◌, ◌<◌, ◌≡◌, refl, String, true, false, ◌&&◌, ◌||◌, not, List, [], ◌∷◌, ◌++◌, ◌==◌,
  string_eq, contains, contains-append, Distinct, Distinct-append, leb, length, length-append,
  arith, Bool-cases, if◌then◌else◌,
}
use boi.Verifier.Index.{unique_from, unique_strings}

-- What `result` is, once the loop has gone through `vs` from the texts that it held before.
record IsUnique (limit : ℕ) (seen vs result : List String) : Type 0 where
  distinct : Distinct result
  no_blank : contains "" result ≡ false
  short : length result ≤ limit
  keeps : (s : String) → contains s seen ≡ true → contains s result ≡ true
  only : (s : String) → contains s result ≡ true → (contains s seen || contains s vs) ≡ true
  whole :
      length result < limit
      → (s : String) → (s == "") ≡ false
      → contains s vs ≡ true
      → contains s result ≡ true

abbrev next : String → List String → List String
next v seen = if not (v == "") && not (contains v seen) then seen ++ (v ∷ []) else seen

module _ (v : String) (seen : List String) where
  next-Distinct : Distinct seen → Distinct (next v seen)
  next-Distinct d = elim (Bool-cases (not (v == "") && not (contains v seen))) [
    | inl new ↦ rw new (Distinct-append v seen d (ground arith))
    | inr old ↦ rw old d
  ]

  next_blank : contains "" seen ≡ false → contains "" (next v seen) ≡ false
  next_blank h = ground (
    arith,
    contains-append "" seen (v ∷ []),
    string_eq.equals_iff "" v,
    string_eq.equals_iff v "",
  )

  next_keeps : (s : String) → contains s seen ≡ true → contains s (next v seen) ≡ true
  next_keeps s h = ground (arith, contains-append s seen (v ∷ []))

  next_only : (s : String) → contains s (next v seen) ≡ true → (contains s seen || (s == v)) ≡ true
  next_only s h = ground (arith, contains-append s seen (v ∷ []))

  next_has : (v == "") ≡ false → contains v (next v seen) ≡ true
  next_has h = ground (arith, contains-append v seen (v ∷ []), string_eq.equals_iff v v)

  next_short : (limit : ℕ) → length seen < limit → length (next v seen) ≤ limit
  next_short limit h = ground (arith, length-append seen (v ∷ []))

unique_from-IsUnique :
    (limit : ℕ) (seen vs : List String)
    → Distinct seen
    → contains "" seen ≡ false
    → length seen < limit
    → IsUnique limit seen vs (unique_from limit seen vs)
unfolding unique_from
unique_from-IsUnique limit seen [] d n l = record {
  distinct = d;
  no_blank = n;
  short = omega (arith, l);
  keeps = λ s h. h;
  only = λ s h. ground arith;
  whole = λ h s e m. ground arith;
}
unique_from-IsUnique limit seen (v ∷ vs) d n l =
    elim (Bool-cases (leb limit (length (next v seen)))) [
      | inl full ↦ rw full (record {
        distinct = next-Distinct v seen d;
        no_blank = next_blank v seen n;
        short = next_short v seen limit l;
        keeps = next_keeps v seen;
        only = λ s h. ground (arith, next_only v seen s h);
        whole = λ h s e m. ground arith;
      })
      | inr open_end ↦
          let r =
            unique_from-IsUnique limit (next v seen) vs (next-Distinct v seen d)
              (next_blank v seen n) (ground arith) in
          rw open_end (record {
            distinct = r.distinct;
            no_blank = r.no_blank;
            short = r.short;
            keeps = λ s h. r.keeps s (next_keeps v seen s h);
            only = λ s h. elim (Bool-cases (contains s (next v seen))) [
              | inl early ↦ ground (arith, next_only v seen s early)
              | inr late ↦ ground (arith, r.only s h, late)
            ];
            whole = λ h s e m. elim (Bool-cases (s == v)) [
              | inl same ↦
                  let p = (string_eq.equals_iff s v).0 same in
                  r.keeps s (rw p (next_has v seen (rw p at e)))
              | inr other ↦ r.whole h s e (ground arith)
            ];
          })
    ]

-- `_unique_strings` keeps texts of the input only, none of them empty and none twice, at most
-- `limit`; and where it keeps fewer than that, it keeps every text that is not empty. (For a limit
-- that is not 0.)
pub unique_strings-Distinct :
    (values : List String) (limit : ℕ)
    → 1 ≤ limit
    → let result = unique_strings values limit in
      Distinct result
      × (contains "" result ≡ false)
      × (length result ≤ limit)
      × ((s : String) → contains s result ≡ true → contains s values ≡ true)
      × (length result < limit
          → (s : String) → (s == "") ≡ false
          → contains s values ≡ true
          → contains s result ≡ true)
unfolding unique_strings
unique_strings-Distinct values limit h =
    let r = unique_from-IsUnique limit [] values tt refl h in
    (r.distinct, r.no_blank, r.short, r.only, r.whole)
