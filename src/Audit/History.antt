-- ===== src/Audit/History.antt =====
-- Logs that `append` writes: the chain that they form, and what verifies it, also after the key has
-- been rotated.
use boi.Prelude.{
  ℕ, suc, ◌+◌, ◌≤◌, ◌≡◌, refl, sym, ap, ◌∙◌, ◌≢◌, inl, inr, String, true, false, Option, none, some,
  List, [], ◌∷◌, ◌++◌, string_eq, nat_eq, keep, any, leb, length, length-append, arith, Bool-cases,
  equals_refl, subst, All,
}
use boi.Audit.{
  Event, Payload, Hmac, Log, empty_log, Keys, Entry, key_for, stored_key_id, rebuilt, checked,
  signed, written, append, verify_chain, selected, clashes,
}
use boi.Audit.Chain.{IsLinked, last_hash, IsChain, verify_chain_iff}

-- A key id that a row can keep apart from the events of old that name no key.
abbrev pub IsKeyId : String → Type 0
IsKeyId i = (i ≢ "") × (i ≢ "legacy")

module _ (h : Hmac) where
  open h use {digest, dumps}

  -- Every event of the table belongs to the chain.
  pub record IsWhole (ks : Keys) (log : Log) : Type 0 where
    pub linked : IsLinked h ks "" 1 log.events
    pub counted : log.sequence_number ≡ length log.events
    pub headed : log.event_hash ≡ last_hash h "" log.events

  keep-linked :
      (ks : Keys) (previous : String) (n bound : ℕ) (es : List Event)
      → IsLinked h ks previous n es
      → n + length es ≤ bound + 1
      → keep (λ e. leb e.sequence_number bound) es ≡ es
  keep-linked ks previous n bound [] l b = refl
  keep-linked ks previous n bound (e ∷ es) ((key, k, s, p, d), l) b =
      ground (arith, keep-linked ks e.event_hash (n + 1) bound es l)

  selected-IsWhole : (ks : Keys) (log : Log) → IsWhole ks log → selected h log ≡ log.events
  selected-IsWhole ks log w =
      keep-linked ks "" 1 log.sequence_number log.events w.linked (omega (arith, w.counted))

  pub IsWhole-IsChain : (ks : Keys) (log : Log) → IsWhole ks log → IsChain h ks log
  IsWhole-IsChain ks log w =
      let same = selected-IsWhole ks log w in
      record { linked = rw same w.linked; counted = rw same w.counted; headed = rw same w.headed }

  IsLinked-append :
      (ks : Keys) (previous : String) (n : ℕ) (es : List Event) (e : Event)
      → IsLinked h ks previous n es
      → IsLinked h ks (last_hash h previous es) (n + length es) (e ∷ [])
      → IsLinked h ks previous n (es ++ e ∷ [])
  IsLinked-append ks previous n [] e l m =
      let shift : n + 0 ≡ n = omega arith in subst (λ k. IsLinked h ks previous k (e ∷ [])) shift m
  IsLinked-append ks previous n (x ∷ es) e (x1, l) m =
      let shift : n + suc (length es) ≡ n + 1 + length es = omega arith in
      (
        x1,
        IsLinked-append ks x.event_hash (n + 1) es e l
            (subst (λ k. IsLinked h ks (last_hash h x.event_hash es) k (e ∷ [])) shift m),
      )

  last_hash-append :
      (previous : String) (es : List Event) (e : Event)
      → last_hash h previous (es ++ e ∷ []) ≡ e.event_hash
  last_hash-append previous [] e = refl
  last_hash-append previous (x ∷ es) e = last_hash-append x.event_hash es e

  -- The row reads back as the payload that was signed.
  rebuilt-written :
      (ks : Keys) (i : String) (at : ℕ) (n : Entry) (log : Log)
      → IsKeyId ks.key_id
      → rebuilt log.event_hash (written h ks (signed h ks i at n log)) ≡ signed h ks i at n log
  unfolding rebuilt written signed
  rebuilt-written ks i at n log (named, new) =
      ground (arith, string_eq.equals_iff ks.key_id "", string_eq.equals_iff ks.key_id "legacy")

  new_key :
      (ks : Keys) (p : Payload)
      → IsKeyId ks.key_id
      → key_for ks (stored_key_id (written h ks p)) ≡ some ks.key
  unfolding key_for written
  new_key ks p (named, new) =
      ground (arith, string_eq.equals_iff ks.key_id "", equals_refl ks.key_id)

  module _ (ks : Keys) (i : String) (at : ℕ) (n : Entry) (log : Log) where
    new_number : (written h ks (signed h ks i at n log)).sequence_number ≡ log.sequence_number + 1
    unfolding written signed
    new_number = refl

    new_previous : (written h ks (signed h ks i at n log)).previous_hash ≡ log.event_hash
    unfolding written signed
    new_previous = refl

    new_hash :
        IsKeyId ks.key_id
        → (written h ks (signed h ks i at n log)).event_hash
          ≡ digest ks.key (dumps (rebuilt log.event_hash (written h ks (signed h ks i at n log))))
    unfolding written
    new_hash named = ap (λ p. digest ks.key (dumps p)) (sym (rebuilt-written ks i at n log named))

  append-IsWhole :
      (ks : Keys) (i : String) (at : ℕ) (n : Entry) (log log' : Log) (e : Event)
      → IsKeyId ks.key_id
      → IsWhole ks log
      → append h ks i at n log ≡ some (e, log')
      → IsWhole ks log'
  unfolding append
  append-IsWhole ks i at n log log' e named w a = elim (Bool-cases (any (clashes new) log.events)) [
    | inl hit ↦ cc (rw (hit, append) at a)
    | inr free ↦ subst (IsWhole ks) (grown free) whole
  ]
    where
      new : Event
      new = written h ks (signed h ks i at n log)

      after : Log
      after = record {
        events = log.events ++ (new ∷ []);
        sequence_number = log.sequence_number + 1;
        event_hash = new.event_hash;
      }

      grown : any (clashes new) log.events ≡ false → after ≡ log'
      grown free = cc (rw (free, append) at a)

      whole : IsWhole ks after
      whole = record {
        linked = IsLinked-append ks "" 1 log.events new w.linked (
          (
            ks.key,
            new_key ks _ named,
            omega (arith, w.counted, new_number ks i at n log),
            new_previous ks i at n log ∙ w.headed,
            new_hash ks i at n log named ∙ ap (λ q. digest ks.key (dumps (rebuilt q new))) w.headed,
          ),
          tt,
        );
        counted = omega (arith, w.counted, length-append log.events (new ∷ []));
        headed = sym (last_hash-append "" log.events new);
      }

  -- A run of appends under one key, where a refused append leaves the log.
  unfoldable pub append_all : Keys → List (String × ℕ × Entry) → Log → Log
  append_all ks [] log = log
  append_all ks ((i, at, n) ∷ rest) log =
      append_all ks rest (elim (append h ks i at n log) [ none ↦ log | some (e, log') ↦ log' ])

  append_all-IsWhole :
      (ks : Keys) (es : List (String × ℕ × Entry)) (log : Log)
      → IsKeyId ks.key_id
      → IsWhole ks log
      → IsWhole ks (append_all ks es log)
  unfolding append_all
  append_all-IsWhole ks [] log named w = w
  append_all-IsWhole ks ((i, at, n) ∷ rest) log named w =
      append_all-IsWhole ks rest _ named (go (append h ks i at n log) refl)
    where
      go :
          (o : Option (Event × Log))
          → append h ks i at n log ≡ o
          → IsWhole ks (elim o [ none ↦ log | some (e, log') ↦ log' ])
      go none a = w
      go (some (e, log')) a = append-IsWhole ks i at n log log' e named w a

  -- Keys after a rotation that still resolve the key ids of the log to the keys that signed it.
  abbrev pub Resolves : Keys → Keys → List Event → Type 0
  Resolves ks ks' = All λ e. key_for ks' (stored_key_id e) ≡ key_for ks (stored_key_id e)

  IsLinked-Resolves :
      (ks ks' : Keys) (previous : String) (n : ℕ) (es : List Event)
      → Resolves ks ks' es
      → IsLinked h ks previous n es
      → IsLinked h ks' previous n es
  IsLinked-Resolves ks ks' previous n [] r l = tt
  IsLinked-Resolves ks ks' previous n (e ∷ es) r ((key, k, n1, p, d), l) =
      ((key, r.0 ∙ k, n1, p, d), IsLinked-Resolves ks ks' e.event_hash (n + 1) es r.1 l)

  -- A log that was written by appends, first under one key and then, after a rotation, under
  -- another, is accepted by `verify_chain` under the new keys, with every event counted, where the
  -- new keys still resolve the key ids of the old events and both key ids are neither empty nor
  -- the reserved `legacy`.
  pub appended_log_verifies :
      (ks ks' : Keys) (es es' : List (String × ℕ × Entry))
      → IsKeyId ks.key_id
      → IsKeyId ks'.key_id
      → Resolves ks ks' (append_all ks es empty_log).events
      → let log = append_all ks' es' (append_all ks es empty_log) in
        verify_chain h ks' log ≡ checked true (length log.events) none log.event_hash
  appended_log_verifies ks ks' es es' named named' r =
      let old =
        append_all-IsWhole ks es empty_log named
          (record { linked = tt; counted = refl; headed = refl }) in
      let moved : IsWhole ks' (append_all ks es empty_log) = record {
        linked = IsLinked-Resolves ks ks' "" 1 _ r old.linked;
        counted = old.counted;
        headed = old.headed;
      } in
      let w = append_all-IsWhole ks' es' _ named' moved in
      (verify_chain_iff h ks' _).1 (IsWhole-IsChain ks' _ w)
      ∙ ap (λ c. checked true c none (append_all ks' es' (append_all ks es empty_log)).event_hash)
          w.counted
