-- ===== src/Audit/Tamper.antt =====
-- What an accepted audit log cannot hide, and the one key id whose log is never accepted.
use boi.Prelude.{
  ◌==◌, equals_refl, subst, inl, inr, ℕ, ◌≡◌, sym, ap, ◌∙◌, ◌≢◌, String, false, some, List, [], ◌∷◌,
  string_eq, nat_eq, arith, Bool-cases,
}
use boi.Audit.{
  or_text, Event, Payload, Hmac, Log, empty_log, Keys, Entry, rebuilt, signed, written, append,
  verify_chain, key_for, stored_key_id,
}
use boi.Audit.Chain.{IsChain, is_valid, verify_chain_iff}

module _ (h : Hmac) where
  open h use {digest, dumps}

  -- The payloads that the log's hashes sign.
  abbrev pub payloads : String → List Event → List Payload
  payloads previous [] = []
  payloads previous (e ∷ es) = rebuilt previous e ∷ payloads e.event_hash es

  -- No two payloads, one of each list and in one place, have one digest under the keys with which the
  -- two logs are verified there.
  abbrev pub NoCollision : Keys → Keys → String → String → List Event → List Event → Type 0
  NoCollision ks ks' p q (x ∷ xs) (y ∷ ys) =
      ((k l : String)
        → key_for ks (stored_key_id x) ≡ some k
        → key_for ks' (stored_key_id y) ≡ some l
        → digest k (dumps (rebuilt p x)) ≡ digest l (dumps (rebuilt q y))
        → rebuilt p x ≡ rebuilt q y)
      × NoCollision ks ks' x.event_hash y.event_hash xs ys
  NoCollision ks ks' p q _ _ = Unit

  legacy_payload :
      (ks : Keys) (i : String) (at : ℕ) (n : Entry)
      → ks.key_id ≡ "legacy"
      → rebuilt "" (written h ks (signed h ks i at n empty_log)) ≢ signed h ks i at n empty_log
  unfolding rebuilt written signed
  legacy_payload ks i at n e same =
      let ids = ap (λ (p : Payload). p.audit_key_id) same in
      ground (arith, string_eq.equals_iff ks.key_id "", string_eq.equals_iff ks.key_id "legacy")

  legacy_key :
      (ks : Keys) (k : String)
      → ks.key_id ≡ "legacy"
      → key_for ks (or_text ks.key_id "legacy") ≡ some k
      → k ≡ ks.key
  unfolding key_for
  legacy_key ks k named found = elim (Bool-cases (ks.key_id == "")) [
    | inl empty ↦ absurd (apart (sym named ∙ (string_eq.equals_iff ks.key_id "").0 empty))
    | inr full ↦ cc (rw (full, equals_refl ks.key_id) at found)
  ]
    where
      apart : ◌≢◌ {A = String} "legacy" ""
      apart = ground (arith, string_eq.equals_iff "legacy" "")

  -- Under the key id `legacy`, which the settings allow, the first event that `append` writes is
  -- one that `verify_chain` refuses: `append` signs the key id, and the check leaves it out. (Where
  -- the two payloads do not have one digest under the current key.)
  pub legacy_key_id_refused :
      (ks : Keys) (i : String) (at : ℕ) (n : Entry) (e : Event) (log : Log)
      → ks.key_id ≡ "legacy"
      → append h ks i at n empty_log ≡ some (e, log)
      → (digest ks.key (dumps (signed h ks i at n empty_log)) ≡ digest ks.key (dumps (rebuilt "" e))
          → signed h ks i at n empty_log ≡ rebuilt "" e)
      → is_valid (verify_chain h ks log) ≡ false
  unfolding append signed written
  legacy_key_id_refused ks i at n e log named a f =
      elim (Bool-cases (is_valid (verify_chain h ks log))) [
        | inr refused ↦ refused
        | inl v ↦
            absurd (accepted (subst (IsChain h ks) (sym whole) ((verify_chain_iff h ks log).0 v)))
      ]
    where
      new : Event
      new = written h ks (signed h ks i at n empty_log)

      first : Log
      first = record { events = new ∷ []; sequence_number = 1; event_hash = new.event_hash }

      whole : first ≡ log
      whole = cc

      event : e ≡ new
      event = cc

      accepted : IsChain h ks first → ⊥
      accepted c =
          let ((key, known, _, _, d), _) = c.linked in
          let current : key ≡ ks.key = legacy_key ks key named known in
          legacy_payload ks i at n named (
            sym (
              f (
                d
                ∙ ap (λ k. digest k (dumps (rebuilt "" new))) current
                ∙ ap (λ r. digest ks.key (dumps (rebuilt "" r))) (sym event))
              ∙ ap (rebuilt "") event))
