-- ===== src/Lineage/Chains.antt =====
-- Which lineages there are, and which steps each has
-- (fraudshield/deceptiscope/lineage/correlator.py).
use boi.Prelude.{
  not, ◌&&◌, any, ◌==◌, string_eq, Bool-cases, ℕ, zero, suc, ◌+◌, ◌≤◌, ◌≡◌, refl, sym, ap, ◌∙◌,
  String, Bool, true, Option, none, some, List, [], ◌∷◌, map, length, keep, Option-cases, inl, inr,
  arith, leb,
}
use boi.Scoring.Rules.{is_cons}
use boi.Lineage.Markers.{matches_payload, Marker, Encoding}
use boi.Lineage.Evidence.{
  is_attributed, fields_to_check, first_match, find_marker_match, Item, is_some,
}
use boi.Lineage.Correlate.{
  Step, PayloadLineage, text_of, match_of, steps_from, step_of, lineage_of, Answer, with_steps,
  counter_after, correlate_all, correlate,
}

abbrev pub numbers_from : ℕ → ℕ → List ℕ
numbers_from n zero = []
numbers_from n (suc k) = n ∷ numbers_from (n + 1) k

module _ (enc : Encoding) (show_marker : ℕ → String) (target : Option String) where
  abbrev pub steps_of : List Item → Marker → List Step
  steps_of items marker = steps_from enc show_marker 1 target marker items

  -- The item passes the loop's guards.
  abbrev pub is_matched : Marker → Item → Bool
  is_matched marker ev = is_some enc (match_of enc show_marker target marker ev)

  -- The steps of a lineage are the items that pass the guards, each once and in the order of the
  -- evidence, numbered one after the other.
  pub steps_from-keep :
      (marker : Marker) (items : List Item) (index : ℕ)
      → (map (λ s. s.evidence_id) (steps_from enc show_marker index target marker items)
          ≡ map (λ ev. text_of ev.evidence_id) (keep (is_matched marker) items))
        × (map (λ s. s.step_index) (steps_from enc show_marker index target marker items)
            ≡ numbers_from index (length (keep (is_matched marker) items)))
  unfolding steps_from step_of
  steps_from-keep marker [] index = (refl, refl)
  steps_from-keep marker (ev ∷ evs) index =
      elim (Option-cases (match_of enc show_marker target marker ev)) [
        | inl missed ↦
            let (ids, places) = steps_from-keep marker evs (index + 0) in
            let same : index + 0 ≡ index = omega arith in
            rw missed
              (ids, places ∙ ap (λ i. numbers_from i (length (keep (is_matched marker) evs))) same)
        | inr (t, hit) ↦
            let (ids, places) = steps_from-keep marker evs (index + 1) in
            rw hit (ap (λ l. text_of ev.evidence_id ∷ l) ids, ap (λ l. index ∷ l) places)
      ]

  -- An item with an id, attributed to the target, one of whose texts has the marker in it.
  abbrev pub carries : Marker → Item → Bool
  carries marker ev =
      not (text_of ev.evidence_id == "")
      && is_attributed target ev
      && any (λ t. is_some enc (matches_payload enc marker t)) (fields_to_check ev)

  abbrev pub is_carried : List Item → Marker → Bool
  is_carried items marker = any (carries marker) items

  first_match-any :
      (marker : Marker) (ts : List String)
      → is_some enc (first_match enc marker ts)
        ≡ any (λ t. is_some enc (matches_payload enc marker t)) ts
  unfolding first_match
  first_match-any marker [] = refl
  first_match-any marker (t ∷ ts) = elim (Option-cases (matches_payload enc marker t)) [
    | inl missed ↦ rw missed (first_match-any marker ts)
    | inr (u, hit) ↦ rw hit refl
  ]

  is_matched-carries : (marker : Marker) (ev : Item) → is_matched marker ev ≡ carries marker ev
  unfolding match_of find_marker_match
  is_matched-carries marker ev = elim (Bool-cases (text_of ev.evidence_id == "")) [
    | inl empty ↦ rw empty refl
    | inr full ↦ elim (Bool-cases (is_attributed target ev)) [
      | inl ours ↦ rw (full, ours) (first_match-any marker (fields_to_check ev))
      | inr foreign ↦ rw (full, foreign) refl
    ]
  ]

  steps_from-carried :
      (marker : Marker) (items : List Item) (index : ℕ)
      → is_cons (steps_from enc show_marker index target marker items) ≡ is_carried items marker
  unfolding steps_from
  steps_from-carried marker [] index = refl
  steps_from-carried marker (ev ∷ evs) index =
      elim (Option-cases (match_of enc show_marker target marker ev)) [
        | inl missed ↦
            let no = sym (is_matched-carries marker ev) ∙ ap (is_some enc) missed in
            rw (missed, no) (steps_from-carried marker evs (index + 0))
        | inr (t, hit) ↦
            let carried = sym (is_matched-carries marker ev) ∙ ap (is_some enc) hit in
            rw (hit, carried) refl
      ]

  keep-carried :
      (items : List Item) (markers : List Marker)
      → keep (λ m. is_cons (steps_of items m)) markers ≡ keep (is_carried items) markers
  keep-carried items [] = refl
  keep-carried items (m ∷ ms) = rw (steps_from-carried m items 1, keep-carried items ms) refl

  -- What correlate_all ends in for these markers.
  abbrev Counted : List Item → List Marker → ℕ → Answer enc show_marker → Type 0
  Counted items markers counter (none, n) = ⊥
  Counted items markers counter (some ls, n) =
      (map (λ l. l.marker_id) ls
        ≡ map (λ m. m.marker_id) (keep (λ m. is_cons (steps_of items m)) markers))
      × (map (λ l. l.lineage_id) ls ≡ numbers_from counter (length ls))
      × (n ≡ counter + length ls)

  with_steps-Counted :
      (items : List Item) (marker : Marker) (markers : List Marker) (counter : ℕ)
      (steps : List Step) (rest : Answer enc show_marker)
      → steps_of items marker ≡ steps
      → counter ≤ 999
      → Counted items markers (counter_after enc show_marker steps counter) rest
      → Counted items
          (marker ∷ markers)
          counter
          (with_steps enc show_marker items marker steps rest counter)
  unfolding lineage_of
  with_steps-Counted items marker markers counter steps (none, n) e low c = absurd c
  with_steps-Counted items marker markers counter [] (some ls, n) e low c = rw e c
  with_steps-Counted items marker markers counter (s ∷ ss) (some ls, n) e low
        (ids, numbers, count) =
      let fine : leb counter 999 ≡ true = ground arith in
      rw (fine, e)
        (ap (λ l. marker.marker_id ∷ l) ids, ap (λ l. counter ∷ l) numbers, omega (arith, count))

  counter_after-le :
      (steps : List Step) (counter : ℕ) → counter_after enc show_marker steps counter ≤ counter + 1
  counter_after-le [] counter = omega arith
  counter_after-le (s ∷ ss) counter = omega arith

  correlate_all-Counted :
      (items : List Item) (markers : List Marker) (counter : ℕ)
      → counter + length markers ≤ 1000
      → Counted items markers counter (correlate_all enc show_marker target items markers counter)
  unfolding correlate_all
  correlate_all-Counted items [] counter h = (refl, refl, omega arith)
  correlate_all-Counted items (marker ∷ markers) counter h =
      with_steps-Counted items marker markers counter _ _ refl (omega (arith, h)) (
        correlate_all-Counted items markers _
          (omega (arith, h, counter_after-le (steps_of items marker) counter)))

  unmatched : (markers : List Marker) → keep (λ m. is_cons (steps_of [] m)) markers ≡ []
  unfolding steps_from
  unmatched [] = refl
  unmatched (m ∷ ms) = unmatched ms

  correlate-Counted :
      (items : List Item) (markers : List Marker) (counter : ℕ)
      → counter + length markers ≤ 1000
      → Counted items markers counter (correlate enc show_marker items markers target counter)
  unfolding correlate
  correlate-Counted [] markers counter h =
      (ap (map (λ m. m.marker_id)) (sym (unmatched markers)), refl, omega arith)
  correlate-Counted (ev ∷ evs) [] counter h = (refl, refl, omega arith)
  correlate-Counted (ev ∷ evs) (m ∷ ms) counter h =
      correlate_all-Counted (ev ∷ evs) (m ∷ ms) counter h

  -- Where the numbers up to 999 are enough, correlate ends: the lineages are those of the
  -- markers that some item carries, one for each and in the order of the markers: an item that has an
  -- id, that is attributed to the target, where there is one, and one of whose texts has the marker in
  -- it. The lineages are numbered one after the other, and the counter counts them.
  pub correlate_lineages :
      (items : List Item) (markers : List Marker) (counter : ℕ)
      → counter + length markers ≤ 1000
      → (ls : List PayloadLineage) × (correlate enc show_marker items markers target counter
          ≡ (some ls, counter + length ls))
        × (map (λ l. l.marker_id) ls ≡ map (λ m. m.marker_id) (keep (is_carried items) markers))
        × (map (λ l. l.lineage_id) ls ≡ numbers_from counter (length ls))
  correlate_lineages items markers counter h =
      listed (correlate enc show_marker items markers target counter)
        (correlate-Counted items markers counter h)
    where
      listed :
          (a : Answer enc show_marker)
          → Counted items markers counter a
          → (ls : List PayloadLineage) × (a ≡ (some ls, counter + length ls))
            × (map (λ l. l.marker_id) ls ≡ map (λ m. m.marker_id) (keep (is_carried items) markers))
            × (map (λ l. l.lineage_id) ls ≡ numbers_from counter (length ls))
      listed (none, n) c = absurd c
      listed (some ls, n) (ids, numbers, count) = (
        ls,
        ap (λ k. (some ls, k)) count,
        ids ∙ ap (map (λ m. m.marker_id)) (keep-carried items markers),
        numbers,
      )
