-- ===== src/Lineage/Complete.antt =====
-- What a complete exfiltration rests on (fraudshield/deceptiscope/lineage/correlator.py).
use boi.Prelude.{
  leb, ℕ, ◌≡◌, refl, sym, ap, ◌∙◌, subst, inl, inr, String, true, false, ◌&&◌, Option, none, some,
  List, [], ◌∷◌, map, ◌==◌, string_eq, Among, Distinct, contains, Bool-cases, or-false,
  true_not_false, if◌then◌else◌,
}
use boi.Scoring.Rules.{is_cons}
use boi.Lineage.Markers.{Marker, Encoding}
use boi.Lineage.Evidence.{Item, printed_id, is_trusted, body_matches}
use boi.Lineage.Observed.{IsObserved, IsProven, is_complete-IsProven}
use boi.Lineage.Correlate.{
  ingress, egress, Step, PayloadLineage, text_of, steps_from, is_complete, lineage_of, Answer,
  put_before, with_steps, correlate_all, correlate,
}

module _ (enc : Encoding) (show_marker : ℕ → String) (target : Option String) where
  -- Every lineage of the answer that is called complete is one of a marker that is proven.
  abbrev AllProven : List Item → List Marker → Answer enc show_marker → Type 0
  AllProven items markers (some ls, n) =
      (l : PayloadLineage)
      → Among l ls
      → l.is_complete_exfiltration ≡ true
      → (marker : Marker) × Among marker markers
        × (l.marker_value ≡ marker.value)
        × IsProven enc show_marker target items marker
  AllProven items markers (none, n) = Unit

  -- What is known of one lineage.
  abbrev Backed : List Item → List Marker → PayloadLineage → Type 0
  Backed items markers l =
      l.is_complete_exfiltration ≡ true
      → (marker : Marker) × Among marker markers
        × (l.marker_value ≡ marker.value)
        × IsProven enc show_marker target items marker

  put_before-AllProven :
      (items : List Item) (marker : Marker) (markers : List Marker) (l : PayloadLineage)
      (rest : Answer enc show_marker)
      → Backed items (marker ∷ markers) l
      → AllProven items markers rest
      → AllProven items (marker ∷ markers) (put_before enc show_marker l rest)
  put_before-AllProven items marker markers l (none, n) b h = tt
  put_before-AllProven items marker markers l (some ls, n) b h = λ k m c. elim m [
    | inl e ↦
        let (g, there, same, proof) = b (ap (λ x. x.is_complete_exfiltration) (sym e) ∙ c) in
        (g, there, ap (λ x. x.marker_value) e ∙ same, proof)
    | inr later ↦ let (g, there, same, proof) = h k later c in (g, inr there, same, proof)
  ]

  weaken :
      (items : List Item) (marker : Marker) (markers : List Marker) (rest : Answer enc show_marker)
      → AllProven items markers rest
      → AllProven items (marker ∷ markers) rest
  weaken items marker markers (none, n) h = tt
  weaken items marker markers (some ls, n) h =
      λ l m c. let (g, there, same, proof) = h l m c in (g, inr there, same, proof)

  with_steps-AllProven :
      (items : List Item) (marker : Marker) (markers : List Marker) (steps : List Step)
      (rest : Answer enc show_marker) (counter : ℕ)
      → steps_from enc show_marker 1 target marker items ≡ steps
      → AllProven items markers rest
      → AllProven items
          (marker ∷ markers)
          (with_steps enc show_marker items marker steps rest counter)
  unfolding lineage_of
  with_steps-AllProven items marker markers [] rest counter e h = weaken items marker markers rest h
  with_steps-AllProven items marker markers (s ∷ ss) rest counter e h =
      elim (Bool-cases (leb counter 999)) [
        | inr over ↦ rw over tt
        | inl fine ↦ rw fine (
            put_before-AllProven items marker markers _ rest
              (λ c. (
                marker,
                inl refl,
                refl,
                is_complete-IsProven enc show_marker target items marker
                    (ap (λ k. is_complete enc show_marker k items marker) e ∙ c),
              ))
              h)
      ]

  correlate_all-AllProven :
      (items : List Item) (markers : List Marker) (counter : ℕ)
      → AllProven items markers (correlate_all enc show_marker target items markers counter)
  unfolding correlate_all
  correlate_all-AllProven items [] counter = λ l m. absurd m
  correlate_all-AllProven items (marker ∷ markers) counter =
      with_steps-AllProven items marker markers _ _ counter refl
        (correlate_all-AllProven items markers _)

  twice :
      (xs : List Item) (x a : Item)
      → contains (printed_id enc x) (map (printed_id enc) xs) ≡ false
      → Among a xs
      → printed_id enc x ≡ printed_id enc a
      → ⊥
  twice [] x a h m e = absurd m
  twice (y ∷ ys) x a h (inl p) e = absurd (
      true_not_false
        (sym ((string_eq.equals_iff _ _).1 (e ∙ ap (printed_id enc) p)) ∙ (or-false _ _ h).0))
  twice (y ∷ ys) x a h (inr m) e = twice ys x a (or-false _ _ h).1 m e

  -- The items have different ids.
  one_item :
      (items : List Item) (a b : Item)
      → Distinct (map (printed_id enc) items)
      → Among a items
      → Among b items
      → printed_id enc a ≡ printed_id enc b
      → a ≡ b
  one_item [] a b d m n e = absurd m
  one_item (x ∷ xs) a b d (inl p) (inl q) e = p ∙ sym q
  one_item (x ∷ xs) a b d (inl p) (inr q) e =
      absurd (twice xs x b d.0 q (ap (printed_id enc) (sym p) ∙ e))
  one_item (x ∷ xs) a b d (inr p) (inl q) e =
      absurd (twice xs x a d.0 p (ap (printed_id enc) (sym q) ∙ sym e))
  one_item (x ∷ xs) a b d (inr p) (inr q) e = one_item xs a b d.1 p q e

  -- An item whose printed id is that of an item that has one.
  printed_as :
      (a : Item) → (text_of a.evidence_id == "") ≡ false → printed_id enc a ≡ text_of a.evidence_id
  printed_as a named = by_id a.evidence_id named
    where
      by_id :
          (o : Option String)
          → (text_of o == "") ≡ false
          → elim o [ none ↦ "None" | some i ↦ i ] ≡ text_of o
      by_id none h = absurd (true_not_false h)
      by_id (some i) h = refl

  -- The evidence of an exfiltration: an item that received the marker, and one that sent it, whose
  -- body, as trusted instrumentation captured it, carries the marker.
  pub record IsExfiltrated (items : List Item) (marker : Marker) : Type 0 where
    pub source : Item
    pub source_there : Among source items
    pub received : IsObserved enc show_marker target marker ingress source
    pub sink : Item
    pub sink_there : Among sink items
    pub sent : IsObserved enc show_marker target marker egress sink
    pub trusted : is_trusted enc sink ≡ true
    pub carried : body_matches enc marker sink ≡ true

  exfiltrated :
      (items : List Item) (marker : Marker)
      → Distinct (map (printed_id enc) items)
      → IsProven enc show_marker target items marker
      → IsExfiltrated items marker
  exfiltrated items marker distinct p =
      let same : p.body ≡ p.sink =
        one_item items p.body p.sink distinct p.body_there p.sink_there
          (p.captured.same_id ∙ sym (printed_as p.sink p.sent.has_id)) in
      record {
        source = p.source;
        source_there = p.source_there;
        received = p.received;
        sink = p.sink;
        sink_there = p.sink_there;
        sent = p.sent;
        trusted = ap (is_trusted enc) (sym same) ∙ p.captured.trusted;
        carried = ap (body_matches enc marker) (sym same) ∙ p.captured.carried;
      }

  -- A lineage is called a complete exfiltration only for evidence: where the items have different
  -- ids, one of the markers that were planted has the lineage's value, an item attributed to the
  -- target received it, and an item attributed to the target sent it, in a body that trusted
  -- instrumentation captured and that the marker, or an encoding of it, is a part of. A URL, a
  -- description or a line of a log is no such body.
  pub complete-IsExfiltrated :
      (items : List Item) (markers : List Marker) (counter n : ℕ) (ls : List PayloadLineage)
      (l : PayloadLineage)
      → Distinct (map (printed_id enc) items)
      → correlate enc show_marker items markers target counter ≡ (some ls, n)
      → Among l ls
      → l.is_complete_exfiltration ≡ true
      → (marker : Marker) × Among marker markers
        × (l.marker_value ≡ marker.value)
        × IsExfiltrated items marker
  unfolding correlate
  complete-IsExfiltrated items markers counter n ls l distinct e there c =
      let (marker, among, same, proof) =
        subst (AllProven items markers) e (answer items markers) l there c in
      (marker, among, same, exfiltrated items marker distinct proof)
    where
      answer :
          (xs : List Item) (ms : List Marker)
          → AllProven xs ms (
              if is_cons xs && is_cons ms
              then correlate_all enc show_marker target xs ms counter
              else (some [], counter))
      answer xs ms = elim (Bool-cases (is_cons xs && is_cons ms)) [
        | inl full ↦ rw full (correlate_all-AllProven xs ms counter)
        | inr empty ↦ rw empty (λ k m. absurd m)
      ]
