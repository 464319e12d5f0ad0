-- ===== src/Analyses/Lifecycle.antt =====
-- The analyses over any history of calls (AnalysisRepository of fraudshield/core/repository.py).
use boi.Prelude.Floats.{Floats}
use boi.Prelude.Rows.{update, All-update, Unique, Unique-append, Unique-update, none-found}
use boi.Prelude.{
  ℕ, ◌≡◌, refl, ◌∙◌, String, Bool, Option, none, some, List, [], ◌∷◌, ◌==◌, string_eq, nat_eq,
  equals_sym, or-false, contains, not, ◌||◌, any, keep, length, All, All-append, All-mono,
  Bool-cases, inl, inr,
}
use boi.Analyses.Store.{
  Status, pending, running, completed, failed, Result, ok, err, ◌>>=◌, Analysis, Db, Upload,
  Outcome, with_id, get, and_get, new_row, create, started, mark_running, finished, update_one,
  complete, broken, fail,
}

module _ (fs : Floats) where
  pub data Call : Type 0 where
    creates : String → ℕ → Upload fs → Call
    starts : String → ℕ → Call
    completes : String → ℕ → Outcome fs → Call
    fails : String → ℕ → String → String → Call

  -- A call that raises leaves the table.
  abbrev pub table_after : Db fs → Result (Analysis fs × Db fs) → Db fs
  table_after db (ok (row, db')) = db'
  table_after db (err e) = db

  abbrev pub apply : Call → Db fs → Db fs
  apply (creates id now u) db = table_after db (create fs id now u db)
  apply (starts id now) db = mark_running fs id now db
  apply (completes id now o) db = table_after db (complete fs id now o db)
  apply (fails id now code message) db = table_after db (fail fs id now code message db)

  abbrev pub run : List Call → Db fs → Db fs
  run [] db = db
  run (c ∷ cs) db = run cs (apply c db)

  abbrev pub IsGiven : {A : Type 0} → Option A → Type 0
  IsGiven none = ⊥
  IsGiven (some a) = Unit

  -- What the status says of the other columns.
  abbrev pub Says : Status → Analysis fs → Type 0
  Says pending row =
      (row.started_at ≡ none)
      × (row.completed_at ≡ none)
      × (row.result ≡ none)
      × (row.error_code ≡ none)
  Says running row = IsGiven row.started_at
  Says completed row =
      IsGiven row.completed_at
      × IsGiven row.result
      × IsGiven row.overall_score
      × (row.error_code ≡ none)
      × (row.error_message ≡ none)
  Says failed row = IsGiven row.completed_at × IsGiven row.error_code × IsGiven row.error_message

  abbrev pub same_row : Analysis fs → Analysis fs → Bool
  same_row a b = with_id fs a.id b

  pub record IsValid (db : Db fs) : Type 0 where
    pub ids : Unique same_row db
    pub says : All (λ row. Says row.status row) db

  update-IsValid :
      (i : String) (f : Analysis fs → Analysis fs) (db : Db fs)
      → ((row : Analysis fs) → (f row).id ≡ row.id)
      → ((row : Analysis fs) → Says (f row).status (f row))
      → IsValid db
      → IsValid (update (with_id fs i) f db)
  update-IsValid i f db id says v = record {
    ids =
        Unique-update same_row (with_id fs i) f db (λ x y. rw (id x) refl) (λ x y. rw (id y) refl)
          v.ids;
    says = All-update _ _ (with_id fs i) f db (λ x hit h. says x) (λ x miss h. h) v.says;
  }

  -- The table that a method answers with, read back or not.
  read-IsValid :
      (i : String) (db db' : Db fs)
      → IsValid db
      → IsValid db'
      → IsValid (table_after db (and_get fs i db'))
  read-IsValid i db db' v w = read (get fs i db')
    where
      read : (r : Result (Analysis fs)) → IsValid (table_after db (r >>= λ row. ok (row, db')))
      read (ok row) = w
      read (err e) = v

  update_one-IsValid :
      (i : String) (f : Analysis fs → Analysis fs) (db : Db fs)
      → ((row : Analysis fs) → (f row).id ≡ row.id)
      → ((row : Analysis fs) → Says (f row).status (f row))
      → IsValid db
      → IsValid (table_after db (update_one fs i f db))
  unfolding update_one
  update_one-IsValid i f db id says v = elim (Bool-cases (length (keep (with_id fs i) db) == 1)) [
    | inl one ↦ rw one (read-IsValid i db _ v (update-IsValid i f db id says v))
    | inr other ↦ rw other v
  ]

  apply-IsValid : (c : Call) (db : Db fs) → IsValid db → IsValid (apply c db)
  unfolding create new_row mark_running started complete finished fail broken
  apply-IsValid (creates id now u) db v = elim (Bool-cases (any (with_id fs id) db || unknown)) [
    | inl refused ↦ rw refused v
    | inr fresh ↦ rw fresh (
        read-IsValid id db _ v (record {
          ids =
              Unique-append same_row (new_row fs id now u) db
                (All-mono _ _ db (λ x k. equals_sym id x.id ∙ k)
                  (none-found _ db (or-false _ unknown fresh).0))
                v.ids;
          says = All-append _ db _ v.says ((refl, refl, refl, refl), tt);
        }))
  ]
    where
      unknown : Bool
      unknown = not (contains u.data_origin ("uploaded" ∷ "synthetic" ∷ []))
  apply-IsValid (starts id now) db v =
      update-IsValid id (started fs now) db (λ row. refl) (λ row. tt) v
  apply-IsValid (completes id now o) db v =
      update_one-IsValid id (finished fs now o) db (λ row. refl) (λ row. (tt, tt, tt, refl, refl)) v
  apply-IsValid (fails id now code message) db v =
      update_one-IsValid id (broken fs now code message) db (λ row. refl) (λ row. (tt, tt, tt)) v

  -- Whatever calls of create, mark_running, complete and fail the table has seen, in any order and
  -- with any that raise among them: no id stands twice, a pending analysis has no times, no result
  -- and no error, a running one has been started, a completed one has its time, its result and its
  -- score and no error, and a failed one has its time and its error.
  pub run-IsValid : (calls : List Call) (db : Db fs) → IsValid db → IsValid (run calls db)
  run-IsValid [] db v = v
  run-IsValid (c ∷ cs) db v = run-IsValid cs (apply c db) (apply-IsValid c db v)
