-- ===== src/Verifier/Evidence.antt =====
-- What the three tests `confirmation_allowed` of fraudshield/deceptiscope/verifier.py ask for, told
-- as the evidence that has to stand in the findings.
use boi.Prelude.Floats.{Floats}
use boi.Prelude.{
  ℕ, ◌≤◌, ◌≡◌, ◌↔◌, ◌⊎◌, inl, inr, refl, sym, ap, String, true, List, [], ◌∷◌, ◌++◌, ◌==◌,
  string_eq, nat_eq, arith, Bool-cases, Among, Among-append, Among-keep, any-found, any_hit,
  true_not_false, leb, leb→le, le→leb,
}
use boi.Scoring.Rules.{is_cons}
use boi.Verifier.Types.{Item, Findings, Texts}
use boi.Verifier.Index.{by_type, marker_precedes_network, earliest, has_static_accessibility_signal}
use boi.Verifier.Verdicts.{markers, network, payload_match, exfiltration_allowed}
use boi.Verifier.Verify.{behaviour, system_binding, accessibility_allowed}

-- An item of a type among the runtime evidence.
abbrev pub Observed : Findings → String → Item → Type 0
Observed f t item = Among item f.runtime_evidence × ((item.evidence_type == t) ≡ true)

Among-is_cons : {A : Type 0} (a : A) (xs : List A) → Among a xs → is_cons xs ≡ true
Among-is_cons a [] m = absurd m
Among-is_cons a (x ∷ xs) m = refl

is_cons-Among : {A : Type 0} (xs : List A) → is_cons xs ≡ true → (a : A) × Among a xs
is_cons-Among [] h = absurd (true_not_false (sym h))
is_cons-Among (x ∷ xs) h = (x, inl refl)

earliest_le :
    (t : ℕ) (items : List Item)
    → (earliest t items ≤ t) × ((m : Item) → Among m items → earliest t items ≤ m.timestamp_ms)
earliest_le t [] = (omega arith, λ m k. absurd k)
earliest_le t (i ∷ items) =
    let (a, b) = earliest_le t items in
    (omega (arith, a), λ m k. elim k [ inl e ↦ rw e (omega arith) | inr n ↦ omega (arith, b m n) ])

earliest-found :
    (x : Item) (items : List Item)
    → (m : Item) × ((m ≡ x) ⊎ Among m items) × (earliest x.timestamp_ms items ≡ m.timestamp_ms)
earliest-found x [] = (x, inl refl, refl)
earliest-found x (i ∷ items) =
    let (m, k, e) = earliest-found x items in
    elim (Bool-cases (leb i.timestamp_ms m.timestamp_ms)) [
      | inl le ↦ (i, inr (inl refl), rw e (ground arith))
      | inr gt ↦ (m, elim k [ inl p ↦ inl p | inr n ↦ inr (inr n) ], rw e (ground arith))
    ]

-- `_marker_precedes_network` holds exactly where some marker is not later than some network item.
pub marker_precedes_network_iff :
    (ms ns : List Item)
    → (marker_precedes_network ms ns ≡ true)
      ↔ ((m : Item) × (n : Item) × Among m ms × Among n ns × (m.timestamp_ms ≤ n.timestamp_ms))
unfolding marker_precedes_network
marker_precedes_network_iff [] ns = (λ h. cc, λ (m, n, a, b, c). absurd a)
marker_precedes_network_iff (x ∷ ms) ns = (
  λ h.
      let (n, k, t) = any-found _ ns h in
      let (m, l, e) = earliest-found x ms in
      (m, n, l, k, omega (arith, e, leb→le (earliest x.timestamp_ms ms) n.timestamp_ms t)),
  λ (m, n, a, b, c). any_hit _ n ns b (
      le→leb _ _ (elim a [
        | inl p ↦
            omega (arith, (earliest_le x.timestamp_ms ms).0, c, ap (λ (i : Item). i.timestamp_ms) p)
        | inr k ↦ omega (arith, (earliest_le x.timestamp_ms ms).1 m k, c)
      ])),
)

pub Observed-iff :
    (f : Findings) (t : String) (item : Item) → Among item (by_type t f) ↔ Observed f t item
Observed-iff f t item = Among-keep (λ i. i.evidence_type == t) item f.runtime_evidence

-- One of two types.
abbrev pub Either : Findings → String → String → Item → Type 0
Either f t u item = Observed f t item ⊎ Observed f u item

Either-iff :
    (f : Findings) (t u : String) (item : Item)
    → Among item (by_type t f ++ by_type u f) ↔ Either f t u item
Either-iff f t u item = (
  λ m. elim ((Among-append item (by_type t f) (by_type u f)).0 m) [
    | inl k ↦ inl ((Observed-iff f t item).0 k)
    | inr k ↦ inr ((Observed-iff f u item).0 k)
  ],
  λ m. (Among-append item (by_type t f) (by_type u f)).1 (elim m [
    | inl k ↦ inl ((Observed-iff f t item).1 k)
    | inr k ↦ inr ((Observed-iff f u item).1 k)
  ]),
)

module _ (fs : Floats) (ts : Texts) where
  -- Data exfiltration may be confirmed exactly where a synthetic marker was observed not later than
  -- some network or DNS destination, and one of these observations is correlated by its payload.
  pub exfiltration_allowed_iff :
      (f : Findings)
      → (exfiltration_allowed fs ts f ≡ true) ↔ (
          ((m : Item) × (n : Item) × Observed f "synthetic_marker_correlation" m
            × Either f "network_destination" "dns_destination" n
            × (m.timestamp_ms ≤ n.timestamp_ms))
          × ((p : Item) × (Observed f "synthetic_marker_correlation" p
                ⊎ Either f "network_destination" "dns_destination" p)
              × (payload_match fs ts p ≡ true)))
  unfolding exfiltration_allowed
  exfiltration_allowed_iff f =
      let ms = markers fs ts f in
      let ns = network fs ts f in
      (
        λ h.
            let (m, n, k, l, le) = (marker_precedes_network_iff ms ns).0 (ground arith) in
            let (p, q, t) = any-found (payload_match fs ts) (ms ++ ns) (ground arith) in
            (
              (
                m,
                n,
                (Observed-iff f "synthetic_marker_correlation" m).0 k,
                (Either-iff f "network_destination" "dns_destination" n).0 l,
                le,
              ),
              (
                p,
                elim ((Among-append p ms ns).0 q) [
                  | inl a ↦ inl ((Observed-iff f "synthetic_marker_correlation" p).0 a)
                  | inr b ↦ inr ((Either-iff f "network_destination" "dns_destination" p).0 b)
                ],
                t,
              ),
            ),
        λ ((m, n, k, l, le), (p, q, t)).
            let mm = (Observed-iff f "synthetic_marker_correlation" m).1 k in
            let nn = (Either-iff f "network_destination" "dns_destination" n).1 l in
            let pp = (Among-append p ms ns).1 (elim q [
              | inl a ↦ inl ((Observed-iff f "synthetic_marker_correlation" p).1 a)
              | inr b ↦ inr ((Either-iff f "network_destination" "dns_destination" p).1 b)
            ]) in
            rw
              (
                Among-is_cons m ms mm,
                Among-is_cons n ns nn,
                (marker_precedes_network_iff ms ns).1 (m, n, mm, nn, le),
                any_hit (payload_match fs ts) p (ms ++ ns) pp t,
              )
              refl,
      )

  -- Accessibility abuse may be confirmed exactly where a static signal shows the capability, and
  -- accessibility behaviour was observed whose trust level, as it is printed, is SYSTEM_OBSERVED or
  -- INSTRUMENTED, or whose metadata mention dumpsys.
  pub accessibility_allowed_iff :
      (f : Findings)
      → (accessibility_allowed fs ts f ≡ true) ↔ (
          (has_static_accessibility_signal f ≡ true)
          × ((b : Item) × Observed f "accessibility_behavior" b × (system_binding fs ts b ≡ true)))
  unfolding accessibility_allowed
  accessibility_allowed_iff f = (
    λ h.
        let (b, m, t) = any-found (system_binding fs ts) (behaviour fs ts f) (ground arith) in
        (ground arith, (b, (Observed-iff f "accessibility_behavior" b).0 m, t)),
    λ (s, (b, m, t)).
        let bm = (Observed-iff f "accessibility_behavior" b).1 m in
        rw
          (
            s,
            Among-is_cons b (behaviour fs ts f) bm,
            any_hit (system_binding fs ts) b (behaviour fs ts f) bm t,
          )
          refl,
  )
