-- ===== src/Lineage/Observed.antt =====
-- What the steps of a lineage rest on (fraudshield/deceptiscope/lineage/correlator.py).
use boi.Prelude.{
  ℕ, ◌+◌, ◌≡◌, refl, sym, ap, subst, inl, inr, String, true, false, Option, none, some, List, [],
  ◌∷◌, ◌==◌, string_eq, Among, Among-append, Among-keep, any, any-found, keep, length, Bool-cases,
  and-true, true_not_false,
}
use boi.Lineage.Markers.{Marker, Encoding}
use boi.Lineage.Evidence.{
  Item, is_attributed, find_marker_match, is_verified_body_egress, printed_id, is_trusted,
  body_matches,
}
use boi.Lineage.Correlate.{
  Phase, ingress, transformation, internal_state, egress, Step, is_ingress, is_egress, text_of,
  phase_of, step_of, match_of, with_match, steps_from, is_complete,
}

module _ (enc : Encoding) (show_marker : ℕ → String) (target : Option String) where
  -- The item passed the loop's guards, with this transformation and in this phase.
  pub record IsObserved (marker : Marker) (p : Phase) (ev : Item) : Type 0 where
    pub has_id : (text_of ev.evidence_id == "") ≡ false
    pub attributed : is_attributed target ev ≡ true
    pub transform : String
    pub matched : find_marker_match enc ev marker ≡ some transform
    pub in_phase : phase_of enc show_marker ev transform ≡ p

  match_of-IsObserved :
      (marker : Marker) (ev : Item) (t : String)
      → match_of enc show_marker target marker ev ≡ some t
      → IsObserved marker (phase_of enc show_marker ev t) ev
  unfolding match_of
  match_of-IsObserved marker ev t e = elim (Bool-cases (text_of ev.evidence_id == "")) [
    | inl unnamed ↦ cc (rw unnamed at e)
    | inr named ↦ elim (Bool-cases (is_attributed target ev)) [
      | inr foreign ↦ cc (rw (named, foreign) at e)
      | inl mine ↦ record {
        has_id = named;
        attributed = mine;
        transform = t;
        matched = rw (named, mine) at e;
        in_phase = refl;
      }
    ]
  ]

  new_step :
      (index : ℕ) (marker : Marker) (ev : Item) (s : Step) (o : Option String)
      → match_of enc show_marker target marker ev ≡ o
      → Among s (with_match enc show_marker index marker ev o)
      → IsObserved marker s.phase ev × (s.evidence_id ≡ text_of ev.evidence_id)
  unfolding step_of
  new_step index marker ev s none e m = absurd m
  new_step index marker ev s (some t) e (inr m) = absurd m
  new_step index marker ev s (some t) e (inl same) = (
    subst (λ p. IsObserved marker p ev) (sym (ap (λ k. k.phase) same))
        (match_of-IsObserved marker ev t e),
    ap (λ k. k.evidence_id) same,
  )

  -- A step comes from an item.
  steps_from-Among :
      (marker : Marker) (items : List Item) (index : ℕ) (s : Step)
      → Among s (steps_from enc show_marker index target marker items)
      → (ev : Item) × Among ev items
        × IsObserved marker s.phase ev
        × (s.evidence_id ≡ text_of ev.evidence_id)
  unfolding steps_from step_of
  steps_from-Among marker [] index s m = absurd m
  steps_from-Among marker (ev ∷ evs) index s m =
      elim ((Among-append s
          (with_match enc show_marker index marker ev (match_of enc show_marker target marker ev))
          _).0
        m) [
          | inl new ↦
              let (seen, id) = new_step index marker ev s _ refl new in (ev, inl refl, seen, id)
          | inr later ↦
              let (g, there, h, id) =
                steps_from-Among marker evs
                  (index
                    + length (
                        with_match enc show_marker index marker ev
                          (match_of enc show_marker target marker ev)))
                  s later in
              (g, inr there, h, id)
        ]

  -- An item with this id whose body, as trusted instrumentation captured it, carries the marker.
  pub record IsBodyProof (marker : Marker) (i : String) (ev : Item) : Type 0 where
    pub same_id : printed_id enc ev ≡ i
    pub trusted : is_trusted enc ev ≡ true
    pub carried : body_matches enc marker ev ≡ true

  is_verified_body_egress-found :
      (i : String) (items : List Item) (marker : Marker)
      → is_verified_body_egress enc i items marker ≡ true
      → (ev : Item) × Among ev items × IsBodyProof marker i ev
  unfolding is_verified_body_egress
  is_verified_body_egress-found i [] marker h = absurd (true_not_false (sym h))
  is_verified_body_egress-found i (ev ∷ evs) marker h = elim (Bool-cases (printed_id enc ev == i)) [
    | inr other ↦ behind (is_verified_body_egress-found i evs marker (rw other at h))
    | inl same ↦ elim (Bool-cases (is_trusted enc ev)) [
      | inr untrusted ↦ absurd (true_not_false (sym (rw (same, untrusted) at h)))
      | inl trusted ↦ elim (Bool-cases (body_matches enc marker ev)) [
        | inl carried ↦ (
          ev,
          inl refl,
          record {
            same_id = (string_eq.equals_iff (printed_id enc ev) i).0 same;
            trusted = trusted;
            carried = carried;
          },
        )
        | inr empty ↦
            behind (is_verified_body_egress-found i evs marker (rw (same, trusted, empty) at h))
      ]
    ]
  ]
    where
      behind :
          (g : Item) × Among g evs × IsBodyProof marker i g
          → (g : Item) × Among g (ev ∷ evs) × IsBodyProof marker i g
      behind (g, there, proof) = (g, inr there, proof)

  is_egress-phase : (s : Step) → is_egress s ≡ true → s.phase ≡ egress
  is_egress-phase s h = phase_is s.phase h
    where
      phase_is : (p : Phase) → elim p [ egress ↦ true | _ ↦ false ] ≡ true → p ≡ egress
      phase_is egress h = refl
      phase_is ingress h = cc
      phase_is transformation h = cc
      phase_is internal_state h = cc

  is_ingress-phase : (s : Step) → is_ingress s ≡ true → s.phase ≡ ingress
  is_ingress-phase s h = phase_is s.phase h
    where
      phase_is : (p : Phase) → elim p [ ingress ↦ true | _ ↦ false ] ≡ true → p ≡ ingress
      phase_is ingress h = refl
      phase_is egress h = cc
      phase_is transformation h = cc
      phase_is internal_state h = cc

  -- The evidence of a complete exfiltration of the marker.
  pub record IsProven (items : List Item) (marker : Marker) : Type 0 where
    pub source : Item
    pub source_there : Among source items
    pub received : IsObserved marker ingress source
    pub sink : Item
    pub sink_there : Among sink items
    pub sent : IsObserved marker egress sink
    pub body : Item
    pub body_there : Among body items
    pub captured : IsBodyProof marker (text_of sink.evidence_id) body

  pub is_complete-IsProven :
      (items : List Item) (marker : Marker)
      → is_complete enc show_marker (steps_from enc show_marker 1 target marker items) items marker
        ≡ true
      → IsProven items marker
  unfolding is_complete
  is_complete-IsProven items marker h =
      let steps = steps_from enc show_marker 1 target marker items in
      let (came, went) = and-true (any is_ingress steps) _ h in
      let (s, s_there, s_in) = any-found is_ingress steps came in
      let (src, src_there, src_seen, _) = steps_from-Among marker items 1 s s_there in
      let (e, e_kept, e_proof) = any-found _ (keep is_egress steps) went in
      let (e_there, e_out) = (Among-keep is_egress e steps).0 e_kept in
      let (snk, snk_there, snk_seen, id) = steps_from-Among marker items 1 e e_there in
      let (b, b_there, proof) = is_verified_body_egress-found e.evidence_id items marker e_proof in
      record {
        source = src;
        source_there = src_there;
        received = subst (λ p. IsObserved marker p src) (is_ingress-phase s s_in) src_seen;
        sink = snk;
        sink_there = snk_there;
        sent = subst (λ p. IsObserved marker p snk) (is_egress-phase e e_out) snk_seen;
        body = b;
        body_there = b_there;
        captured = subst (λ i. IsBodyProof marker i b) id proof;
      }
