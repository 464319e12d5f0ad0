-- ===== src/Payloads/Handed.antt =====
-- What PayloadRecoveryManager (fraudshield/deceptiscope/payloads/recovery_manager.py) hands on for
-- analysis in a run of calls.
use boi.Prelude.{
  ◌==◌, nat_eq, and-true, true_not_false, ltb, ◌++◌, ℕ, ◌+◌, ◌≤◌, ◌<◌, ◌≡◌, ◌⊎◌, refl, sym, ap, ◌∙◌,
  subst, String, Bool, true, false, Option, none, some, List, [], ◌∷◌, ◌++◌, ltb, leb, length,
  arith, Bool-cases, inl, inr,
}
use boi.Archive.Validate.{starts_bytes}
use boi.Payloads.Recovery.{
  dex, jar, unknown, is_dex, dex_magics, zip_magic, Bytes, PayloadType, analyzed, RecoveredPayload,
  PayloadRecoveryManager, Origin, File, missing, unreadable, contents, Answer, validate_magic,
  validated, by_magic, registered, grown, process_payload_bytes, file_recovered, or_failed,
  recover_from_file_path, is_valid_payload,
}

-- A call of one of the two methods.
pub data Call : Type 0 where
  process : Origin → Bytes → Call
  recover : Origin → File → Call

abbrev pub depth_of : Call → ℕ
depth_of (process o raw) = o.recursion_depth
depth_of (recover o file) = o.recursion_depth

abbrev pub HasBytes : Call → Bytes → Type 0
HasBytes (process o raw) b = raw ≡ b
HasBytes (recover o file) b = file ≡ contents b

-- A payload that is handed on, with the call that it answers.
abbrev pub Handed : Type 0
Handed = Call × RecoveredPayload × Bytes

unfoldable pub handed_by : Call → Answer → List Handed
handed_by c none = []
handed_by c (some (p, none)) = []
handed_by c (some (p, some b)) = (c, p, b) ∷ []

-- Numbers that rise, from above the first bound up to the second.
abbrev pub Ascends : ℕ → ℕ → List Handed → Type 0
Ascends lo hi [] = lo ≤ hi
Ascends lo hi ((c, p, b) ∷ hs) = (lo < p.payload_id) × Ascends p.payload_id hi hs

validated-none : (q p : RecoveredPayload) (b : Bytes) → validated q none ≡ some (p, some b) → ⊥
unfolding validated
validated-none q p b e = elim (Bool-cases (is_valid_payload q)) [
  | inl valid ↦ cc (rw valid at e)
  | inr refused ↦ cc (rw refused at e)
]

validated-some :
    (q p : RecoveredPayload) (a b : Bytes)
    → validated q (some a) ≡ some (p, some b)
    → (q ≡ p) × (a ≡ b)
unfolding validated
validated-some q p a b e = elim (Bool-cases (is_valid_payload q)) [
  | inl valid ↦ (cc (rw valid at e), cc (rw valid at e))
  | inr refused ↦ cc (rw refused at e)
]

-- At least eight bytes, of which the first four are those of a DEX file, "dex" and a line feed, or of a
-- ZIP archive, "PK", 3 and 4.
abbrev pub HasMagic : PayloadType → Bytes → Type 0
HasMagic dex b = (8 ≤ length b) × ((rest : Bytes) × (b ≡ 100 ∷ 101 ∷ 120 ∷ 10 ∷ rest))
HasMagic jar b = (8 ≤ length b) × ((rest : Bytes) × (b ≡ 80 ∷ 75 ∷ 3 ∷ 4 ∷ rest))
HasMagic unknown b = ⊥

-- What `starts_bytes` tests.
starts_with_bytes :
    (prefix b : Bytes) → starts_bytes prefix b ≡ true → (rest : Bytes) × (b ≡ prefix ++ rest)
starts_with_bytes [] b h = (b, refl)
starts_with_bytes (p ∷ ps) [] h = absurd (true_not_false (sym h))
starts_with_bytes (p ∷ ps) (c ∷ cs) h =
    let (same, later) = and-true (p == c) (starts_bytes ps cs) h in
    let (rest, e) = starts_with_bytes ps cs later in (rest, cc ((nat_eq.equals_iff p c).0 same, e))

longer_prefix : (ps qs b : Bytes) → starts_bytes ps b ≡ false → starts_bytes (ps ++ qs) b ≡ false
longer_prefix [] qs b h = absurd (true_not_false h)
longer_prefix (p ∷ ps) qs [] h = refl
longer_prefix (p ∷ ps) qs (c ∷ cs) h = ground (arith, longer_prefix ps qs cs)

-- A longer prefix, as each of the versions has, is no further condition.
dex_start : (b : Bytes) → is_dex b ≡ true → (rest : Bytes) × (b ≡ 100 ∷ 101 ∷ 120 ∷ 10 ∷ rest)
unfolding is_dex dex_magics
dex_start b h = starts_with_bytes start b (elim (Bool-cases (starts_bytes start b)) [
  | inl there ↦ there
  | inr other ↦
      let no = λ (qs : Bytes). longer_prefix start qs b other in
      absurd (
        true_not_false (
          sym h
          ∙ rw
              (
                other,
                no (48 ∷ 51 ∷ 53 ∷ 0 ∷ []),
                no (48 ∷ 51 ∷ 55 ∷ 0 ∷ []),
                no (48 ∷ 51 ∷ 56 ∷ 0 ∷ []),
                no (48 ∷ 51 ∷ 57 ∷ 0 ∷ []),
              )
              refl))
])
  where
    start : Bytes
    start = 100 ∷ 101 ∷ 120 ∷ 10 ∷ []

module _ (sha256_of : Bytes → String) (repr : Bytes → String) (validation_error : String) where
  unfoldable pub step : PayloadRecoveryManager → Call → Answer × PayloadRecoveryManager
  step m (process o raw) = process_payload_bytes sha256_of repr validation_error m o raw
  step m (recover o file) = recover_from_file_path sha256_of repr validation_error m o file

  unfoldable pub handed : PayloadRecoveryManager → List Call → List Handed
  handed m [] = []
  handed m (c ∷ cs) = handed_by c (step m c).0 ++ handed (step m c).1 cs

  -- What may be analysed: bytes at a depth below its limit, within the limit of the size and with the
  -- magic bytes of their type, under a descriptor that says so.
  pub record IsFit (depth max_depth max_size : ℕ) (p : RecoveredPayload) (b : Bytes) : Type 0 where
    pub status : p.analysis_status ≡ analyzed
    pub shallow : depth < max_depth
    pub small : length b ≤ max_size
    pub magic : HasMagic p.payload_type b
    pub size : p.size_bytes ≡ length b
    pub sum : p.sha256 ≡ sha256_of b

  -- The same of the bytes of a call.
  abbrev pub IsHandedOn : PayloadRecoveryManager → Handed → Type 0
  IsHandedOn m (c, p, b) =
      HasBytes c b × IsFit (depth_of c) m.max_recursion_depth m.max_payload_size p b

  -- The manager after a call: as it was, or with one payload more, below the limit.
  abbrev pub Moves : PayloadRecoveryManager → PayloadRecoveryManager → Type 0
  Moves m m' = (m' ≡ m) ⊎ ((m' ≡ grown m) × (m.recovered_count < m.max_payload_count))

  process-Moves :
      (m : PayloadRecoveryManager) (o : Origin) (raw : Bytes)
      → Moves m (process_payload_bytes sha256_of repr validation_error m o raw).1
  unfolding process_payload_bytes
  process-Moves m o raw = elim (Bool-cases (leb m.max_recursion_depth o.recursion_depth)) [
    | inl deep ↦ rw deep (inl refl)
    | inr fine ↦ elim (Bool-cases (leb m.max_payload_count m.recovered_count)) [
      | inl full ↦ rw (fine, full) (inl refl)
      | inr room ↦ rw (fine, room) (inr (refl, ground arith))
    ]
  ]

  or_failed-after :
      (o : Origin) (r : Answer × PayloadRecoveryManager)
      → (or_failed sha256_of repr validation_error o r).1 ≡ r.1
  unfolding or_failed
  or_failed-after o (none, m) = refl
  or_failed-after o (some a, m) = refl

  pub step-Moves : (m : PayloadRecoveryManager) (c : Call) → Moves m (step m c).1
  unfolding step recover_from_file_path
  step-Moves m (process o raw) = process-Moves m o raw
  step-Moves m (recover o missing) = inl refl
  step-Moves m (recover o (unreadable e)) = inl refl
  step-Moves m (recover o (contents raw)) =
      subst (Moves m) (sym (or_failed-after _ _)) (process-Moves m (file_recovered o) raw)

  -- What the answer of a call hands on.
  abbrev pub Gives : PayloadRecoveryManager → Call → Answer × PayloadRecoveryManager → Type 0
  Gives m c r =
      (p : RecoveredPayload) (b : Bytes)
      → r.0 ≡ some (p, some b)
      → (r.1 ≡ grown m) × (p.payload_id ≡ m.recovered_count + 1) × IsHandedOn m (c, p, b)

  valid_magic :
      (raw : Bytes) (t : PayloadType) (x : Option String)
      → validate_magic sha256_of repr validation_error raw ≡ (true, t, x)
      → HasMagic t raw
  unfolding validate_magic zip_magic
  valid_magic raw t x e = elim (Bool-cases (ltb (length raw) 8)) [
    | inl short ↦ absurd (true_not_false (sym (ap (λ v. v.0) (rw short at e))))
    | inr long ↦ elim (Bool-cases (is_dex raw)) [
      | inl of_dex ↦
          subst (λ k. HasMagic k raw) (ap (λ v. v.1) (rw (long, of_dex) at e))
            (ground arith, dex_start raw of_dex)
      | inr other ↦ elim (Bool-cases (starts_bytes (80 ∷ 75 ∷ 3 ∷ 4 ∷ []) raw)) [
        | inl of_zip ↦
            subst (λ k. HasMagic k raw) (ap (λ v. v.1) (rw (long, other, of_zip) at e))
              (ground arith, starts_with_bytes (80 ∷ 75 ∷ 3 ∷ 4 ∷ []) raw of_zip)
        | inr bad ↦ absurd (true_not_false (sym (ap (λ v. v.0) (rw (long, other, bad) at e))))
      ]
    ]
  ]

  by_magic-Gives :
      (m : PayloadRecoveryManager) (o : Origin) (raw : Bytes) (p : RecoveredPayload) (b : Bytes)
      → o.recursion_depth < m.max_recursion_depth
      → length raw ≤ m.max_payload_size
      → (v : Bool × PayloadType × Option String)
      → validate_magic sha256_of repr validation_error raw ≡ v
      → by_magic sha256_of repr validation_error (m.recovered_count + 1) o raw v ≡ some (p, some b)
      → (p.payload_id ≡ m.recovered_count + 1) × IsHandedOn m (process o raw, p, b)
  unfolding by_magic
  by_magic-Gives m o raw p b shallow small (false, t, x) magic e = absurd (validated-none _ p b e)
  by_magic-Gives m o raw p b shallow small (true, t, x) magic e =
      let (same, bytes) = validated-some _ p raw b e in
      (
        ap (λ (q : RecoveredPayload). q.payload_id) (sym same),
        (
          bytes,
          record {
            status = ap (λ (q : RecoveredPayload). q.analysis_status) (sym same);
            shallow = shallow;
            small = subst (λ z. length z ≤ m.max_payload_size) bytes small;
            magic =
                subst (λ k. HasMagic k b) (ap (λ (q : RecoveredPayload). q.payload_type) same)
                  (subst (HasMagic t) bytes (valid_magic raw t x magic));
            size = ap (λ (q : RecoveredPayload). q.size_bytes) (sym same) ∙ ap length bytes;
            sum = ap (λ (q : RecoveredPayload). q.sha256) (sym same) ∙ ap sha256_of bytes;
          },
        ),
      )

  registered-Gives :
      (m : PayloadRecoveryManager) (o : Origin) (raw : Bytes) (p : RecoveredPayload) (b : Bytes)
      → o.recursion_depth < m.max_recursion_depth
      → registered sha256_of repr validation_error (grown m) o raw ≡ some (p, some b)
      → (p.payload_id ≡ m.recovered_count + 1) × IsHandedOn m (process o raw, p, b)
  unfolding registered
  registered-Gives m o raw p b shallow e = elim (Bool-cases (ltb m.max_payload_size (length raw))) [
    | inl large ↦ absurd (validated-none _ p b (rw large at e))
    | inr small ↦ by_magic-Gives m o raw p b shallow (ground arith) _ refl (rw small at e)
  ]

  process-Gives :
      (m : PayloadRecoveryManager) (o : Origin) (raw : Bytes)
      → Gives m (process o raw) (process_payload_bytes sha256_of repr validation_error m o raw)
  unfolding process_payload_bytes
  process-Gives m o raw p b e = elim (Bool-cases (leb m.max_recursion_depth o.recursion_depth)) [
    | inl deep ↦ absurd (validated-none _ p b (rw deep at e))
    | inr fine ↦ elim (Bool-cases (leb m.max_payload_count m.recovered_count)) [
      | inl full ↦ absurd (validated-none _ p b (rw (fine, full) at e))
      | inr room ↦
          let given = registered-Gives m o raw p b (ground arith) (rw (fine, room) at e) in
          (rw (fine, room) refl, given.0, given.1)
    ]
  ]

  or_failed-Gives :
      (m : PayloadRecoveryManager) (o : Origin) (raw : Bytes) (r : Answer × PayloadRecoveryManager)
      → Gives m (process (file_recovered o) raw) r
      → Gives m
          (recover o (contents raw))
          (or_failed sha256_of repr validation_error (file_recovered o) r)
  unfolding or_failed
  or_failed-Gives m o raw (none, m') given p b e = absurd (validated-none _ p b e)
  or_failed-Gives m o raw (some a, m') given p b e =
      let (moved, number, (bytes, fit)) = given p b e in (moved, number, (ap contents bytes, fit))

  pub step-Gives : (m : PayloadRecoveryManager) (c : Call) → Gives m c (step m c)
  unfolding step recover_from_file_path
  step-Gives m (process o raw) = process-Gives m o raw
  step-Gives m (recover o missing) = λ p b e. absurd (validated-none _ p b e)
  step-Gives m (recover o (unreadable x)) = λ p b e. absurd (validated-none _ p b e)
  step-Gives m (recover o (contents raw)) =
      or_failed-Gives m o raw _ (process-Gives m (file_recovered o) raw)
