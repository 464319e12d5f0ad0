-- ===== src/Audit/Chain.antt =====
-- The audit chain as a specification, which `verify_chain` decides and `append` keeps.
use boi.Prelude.{
  ℕ, ◌+◌, ◌≡◌, ◌∙◌, inl, inr, ◌↔◌, String, Bool, true, false, ◌&&◌, none, some, List, [], ◌∷◌, ◌==◌,
  string_eq, nat_eq, length, arith, Bool-cases, Option-cases,
}
use boi.Audit.{
  Event, Hmac, Log, Keys, key_for, stored_key_id, rebuilt, Verdict, checked, verify_from,
  verify_chain, selected,
}

-- `valid` of the report.
abbrev pub is_valid : Verdict → Bool
is_valid (checked b n first head) = b
is_valid _ = false

module _ (h : Hmac) where
  open h use {digest, dumps}

  -- From the hash and the number before them, the events are numbered without a gap, each names
  -- its predecessor's hash, and each is signed by the key that its key id stands for.
  abbrev pub IsLinked : Keys → String → ℕ → List Event → Type 0
  IsLinked ks previous n [] = Unit
  IsLinked ks previous n (e ∷ es) =
      ((key : String) × (key_for ks (stored_key_id e) ≡ some key)
        × (e.sequence_number ≡ n)
        × (e.previous_hash ≡ previous)
        × (e.event_hash ≡ digest key (dumps (rebuilt previous e))))
      × IsLinked ks e.event_hash (n + 1) es

  abbrev pub last_hash : String → List Event → String
  last_hash previous [] = previous
  last_hash previous (e ∷ es) = last_hash e.event_hash es

  -- The state counts the events and holds the last one's hash.
  pub record IsChain (ks : Keys) (log : Log) : Type 0 where
    pub linked : IsLinked ks "" 1 (selected h log)
    pub counted : log.sequence_number ≡ length (selected h log)
    pub headed : log.event_hash ≡ last_hash "" (selected h log)

  -- The test of one event under a key.
  abbrev passes : String → String → ℕ → Event → Bool
  passes key previous n e =
      (e.sequence_number == n)
      && (e.previous_hash == previous)
      && (e.event_hash == digest key (dumps (rebuilt previous e)))

  passes_iff :
      (key previous : String) (n : ℕ) (e : Event)
      → (passes key previous n e ≡ true) ↔ (
          (e.sequence_number ≡ n)
          × (e.previous_hash ≡ previous)
          × (e.event_hash ≡ digest key (dumps (rebuilt previous e))))
  passes_iff key previous n e = (
    λ t. ground (
      arith,
      string_eq.equals_iff e.previous_hash previous,
      string_eq.equals_iff e.event_hash (digest key (dumps (rebuilt previous e))),
    ),
    λ t. ground (
      arith,
      string_eq.equals_iff e.previous_hash previous,
      string_eq.equals_iff e.event_hash (digest key (dumps (rebuilt previous e))),
    ),
  )

  verify_from_sound :
      (ks : Keys) (target : ℕ) (head previous : String) (n verified : ℕ) (es : List Event)
      → is_valid (verify_from h ks target head previous n verified es) ≡ true
      → IsLinked ks previous n es × (target ≡ verified + length es) × (head ≡ last_hash previous es)
  unfolding verify_from
  verify_from_sound ks target head previous n verified [] v =
      (tt, ground arith, ground (arith, string_eq.equals_iff head previous))
  verify_from_sound ks target head previous n verified (e ∷ es) v =
      elim (Option-cases (key_for ks (stored_key_id e))) [
        | inl gone ↦ cc (rw (gone, verify_from) at v)
        | inr (key, k) ↦ elim (Bool-cases (passes key previous n e)) [
          | inr miss ↦ cc (rw (k, verify_from, miss) at v)
          | inl hit ↦
              let (l, c, t) =
                verify_from_sound ks target head e.event_hash (n + 1) (verified + 1) es
                  (rw (k, verify_from, hit) at v) in
              let (s, p, d) = (passes_iff key previous n e).0 hit in
              (((key, k, s, p, d), l), omega (arith, c), t)
        ]
      ]

  verify_from_complete :
      (ks : Keys) (target : ℕ) (head previous : String) (n verified : ℕ) (es : List Event)
      → IsLinked ks previous n es
      → target ≡ verified + length es
      → head ≡ last_hash previous es
      → verify_from h ks target head previous n verified es ≡ checked true target none head
  unfolding verify_from
  verify_from_complete ks target head previous n verified [] l c t =
      ground (arith, string_eq.equals_iff head previous)
  verify_from_complete ks target head previous n verified (e ∷ es) ((key, k, s, p, d), l) c t =
      let rest =
        verify_from_complete ks target head e.event_hash (n + 1) (verified + 1) es l (omega arith)
          t in
      rw (k, verify_from, (passes_iff key previous n e).1 (s, p, d)) rest

  -- What `verify_chain` accepts is a chain: the report says `valid` only where the events up to the
  -- state's number are numbered 1, 2, … without a gap, each names its predecessor's hash and is
  -- signed by the key of its key id, and the state counts them and holds the last hash. Every such
  -- log is accepted, with all its events counted and no first invalid number.
  pub verify_chain_iff :
      (ks : Keys) (log : Log)
      → (is_valid (verify_chain h ks log) ≡ true → IsChain ks log)
        × (IsChain ks log
            → verify_chain h ks log ≡ checked true log.sequence_number none log.event_hash)
  unfolding verify_chain
  verify_chain_iff ks log = (
    λ v.
        let (l, c, t) =
          verify_from_sound ks log.sequence_number log.event_hash "" 1 0 (selected h log) v in
        record { linked = l; counted = c ∙ (omega arith); headed = t },
    λ c.
        verify_from_complete ks log.sequence_number log.event_hash "" 1 0 (selected h log) c.linked
          (omega (arith, c.counted)) c.headed,
  )
