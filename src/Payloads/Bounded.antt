-- ===== src/Payloads/Bounded.antt =====
-- A run of calls of PayloadRecoveryManager (fraudshield/deceptiscope/payloads/recovery_manager.py): how
-- many payloads it hands on, and which.
use boi.Prelude.{
  ℕ, ◌+◌, ◌≤◌, refl, sym, subst, String, none, some, List, [], ◌∷◌, ◌++◌, length, arith, inl, inr,
  All,
}
use boi.Payloads.Recovery.{Bytes, PayloadRecoveryManager, Answer}
use boi.Payloads.Handed.{
  Call, Handed, Ascends, handed_by, step, handed, IsHandedOn, Moves, Gives, step-Moves, step-Gives,
}

module _ (sha256_of : Bytes → String) (repr : Bytes → String) (validation_error : String) where
  -- The claim of a run, by what each of its calls does.
  abbrev IsBounded : PayloadRecoveryManager → List Handed → Type 0
  IsBounded m hs =
      All (IsHandedOn sha256_of repr validation_error m) hs
      × Ascends m.recovered_count m.max_payload_count hs
      × (m.recovered_count + length hs ≤ m.max_payload_count)

  Ascends-lower :
      (lo lo' hi : ℕ) (hs : List Handed) → lo ≤ lo' → Ascends lo' hi hs → Ascends lo hi hs
  Ascends-lower lo lo' hi [] le h = omega arith
  Ascends-lower lo lo' hi ((c, p, b) ∷ hs) le (first, rest) = (omega arith, rest)

  skipped-IsBounded :
      (m m' : PayloadRecoveryManager) (hs : List Handed)
      → Moves sha256_of repr validation_error m m'
      → IsBounded m' hs
      → IsBounded m hs
  skipped-IsBounded m m' hs (inl same) h = subst (λ x. IsBounded x hs) same h
  skipped-IsBounded m m' hs (inr (moved, room)) h =
      let (all, up, few) = subst (λ x. IsBounded x hs) moved h in
      (all, Ascends-lower _ _ _ hs (omega arith) up, omega arith)

  given-IsBounded :
      (m : PayloadRecoveryManager) (c : Call) (r : Answer × PayloadRecoveryManager)
      (hs : List Handed)
      → Gives sha256_of repr validation_error m c r
      → Moves sha256_of repr validation_error m r.1
      → IsBounded r.1 hs
      → IsBounded m (handed_by c r.0 ++ hs)
  unfolding handed_by
  given-IsBounded m c (none, m') hs given moves h = skipped-IsBounded m m' hs moves h
  given-IsBounded m c (some (p, none), m') hs given moves h = skipped-IsBounded m m' hs moves h
  given-IsBounded m c (some (p, some b), m') hs given moves h =
      let (moved, number, fit) = given p b refl in
      let (all, up, few) = subst (λ x. IsBounded x hs) moved h in
      (
        (fit, all),
        (omega arith, subst (λ n. Ascends n m.max_payload_count hs) (sym number) up),
        omega arith,
      )

  Moves-room :
      (m m' : PayloadRecoveryManager)
      → Moves sha256_of repr validation_error m m'
      → m.recovered_count ≤ m.max_payload_count
      → m'.recovered_count ≤ m'.max_payload_count
  Moves-room m m' (inl same) room =
      subst (λ (x : PayloadRecoveryManager). x.recovered_count ≤ x.max_payload_count) (sym same)
        room
  Moves-room m m' (inr (moved, more)) room =
      subst (λ (x : PayloadRecoveryManager). x.recovered_count ≤ x.max_payload_count) (sym moved)
        (omega arith)

  -- A run of calls hands on few payloads, and fit ones. Where the manager is within its count, each
  -- payload that a later call hands on for analysis has the bytes of that call. The call's depth is
  -- below the limit of the recursion, the bytes are within the limit of the size, and they begin as a
  -- DEX file or a ZIP archive does, whichever type the descriptor names; the descriptor has their
  -- size and their SHA-256 and says that they are to be analysed. The ids rise from call to call, so
  -- that no two payloads share one, and with those before there are at most as many as the limit of
  -- the count.
  pub handed-IsBounded :
      (m : PayloadRecoveryManager) (calls : List Call)
      → m.recovered_count ≤ m.max_payload_count
      → All
          (IsHandedOn sha256_of repr validation_error m)
          (handed sha256_of repr validation_error m calls)
        × Ascends m.recovered_count m.max_payload_count
            (handed sha256_of repr validation_error m calls)
        × (m.recovered_count + length (handed sha256_of repr validation_error m calls)
            ≤ m.max_payload_count)
  unfolding handed
  handed-IsBounded m [] room = (tt, room, omega arith)
  handed-IsBounded m (c ∷ cs) room =
      let moves = step-Moves sha256_of repr validation_error m c in
      let later =
        handed-IsBounded (step sha256_of repr validation_error m c).1 cs
          (Moves-room _ _ moves room) in
      given-IsBounded m c (step sha256_of repr validation_error m c) _
        (step-Gives sha256_of repr validation_error m c) moves later
