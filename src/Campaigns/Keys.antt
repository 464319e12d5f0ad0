-- ===== src/Campaigns/Keys.antt =====
-- What the repository's writes keep of its tables: the foreign keys, the primary key of the members
-- and the pattern of the ids (FraudDNARepository of fraudshield/core/repository.py).
use boi.Campaigns.Types.{Fingerprint, CampaignId, camp, family, same_id, matches_pattern, Campaign}
use boi.Prelude.Rows.{upsert, any-append, any-upsert_keeps, any-upsert_hits, All-upsert}
use boi.Campaigns.Links.{same_id→≡, same_id_refl}
use boi.Campaigns.Store.{
  Stored, CampaignRow, Member, Store, Result, ok, err, ◌>>=◌, has_sha, with_id, is_member,
  overwritten, save_fingerprint, add_member, add_members, row_of, rewritten, save_campaign,
}
use boi.Prelude.{
  ℕ, ◌≡◌, refl, sym, ap, String, true, false, Option, List, [], ◌∷◌, ◌++◌, ◌==◌, string_eq, nat_eq,
  equals_sym, equals_refl, All, All-append, All-mono, any, Bool-cases, inl, inr, arith,
}

abbrev pub IsStored : List Stored → String → Type 0
IsStored stored sha = any (has_sha sha) stored ≡ true

abbrev pub IsFiled : List CampaignRow → CampaignId → Type 0
IsFiled campaigns cid = any (with_id cid) campaigns ≡ true

-- No member is listed twice.
abbrev pub Once : List Member → Type 0
Once [] = Unit
Once (m ∷ ms) = (any (is_member m.campaign_id m.apk_sha256) ms ≡ false) × Once ms

-- The foreign keys of the members name rows, no member stands twice, and each campaign's id has the
-- pattern.
pub record IsConsistent (s : Store) : Type 0 where
  pub stored : All (λ m. IsStored s.fingerprints m.apk_sha256) s.members
  pub filed : All (λ m. IsFiled s.campaigns m.campaign_id) s.members
  pub once : Once s.members
  pub valid_ids : All (λ row. matches_pattern row.campaign_id ≡ true) s.campaigns

abbrev pub OkWith : {A : Type 0} → (A → Type 0) → Result A → Type 0
OkWith P (ok a) = P a
OkWith P (err e) = ⊥

pub OkWith-bind :
    {A B : Type 0} (P : A → Type 0) (Q : B → Type 0) (f : A → Result B) (r : Result A)
    → ((a : A) → P a → OkWith Q (f a))
    → OkWith P r
    → OkWith Q (r >>= f)
OkWith-bind P Q f (ok a) h p = h a p
OkWith-bind P Q f (err e) h p = absurd p

same_id_sym : (a b : CampaignId) → same_id a b ≡ same_id b a
same_id_sym (camp a) (camp b) = equals_sym a b
same_id_sym (family a) (family b) = equals_sym a b
same_id_sym (camp a) (family b) = refl
same_id_sym (family a) (camp b) = refl

Once-append :
    (m : Member) (ms : List Member)
    → Once ms
    → any (is_member m.campaign_id m.apk_sha256) ms ≡ false
    → Once (ms ++ (m ∷ []))
Once-append m [] h n = (refl, tt)
Once-append m (k ∷ ms) h n = (
  ground (
    arith,
    any-append (is_member k.campaign_id k.apk_sha256) ms (m ∷ []),
    h.0,
    same_id_sym m.campaign_id k.campaign_id,
    equals_sym m.apk_sha256 k.apk_sha256,
  ),
  Once-append m ms h.1 (ground arith),
)

module _ (stored : List Stored) (cid : CampaignId) (now : ℕ) (P : Member → Type 0) where
  abbrev member : String → Member
  member sha = record { campaign_id = cid; apk_sha256 = sha; joined_at = now }

  abbrev Kept : List Member → Type 0
  Kept ms = All P ms × Once ms

  add_member-Kept :
      (sha : String) (ms : List Member)
      → IsStored stored sha
      → P (member sha)
      → Kept ms
      → OkWith Kept (add_member stored cid now sha ms)
  unfolding add_member
  add_member-Kept sha ms there p (h, k) = elim (Bool-cases (any (is_member cid sha) ms)) [
    | inl old ↦ rw old (h, k)
    | inr new ↦
        rw (new, there)
          (All-append P ms (member sha ∷ []) h (p, tt), Once-append (member sha) ms k new)
  ]

  pub add_members-Kept :
      (shas : List String) (ms : List Member)
      → All (IsStored stored) shas
      → All (λ sha. P (member sha)) shas
      → Kept ms
      → OkWith Kept (add_members stored cid now shas ms)
  unfolding add_members
  add_members-Kept [] ms there p k = k
  add_members-Kept (sha ∷ shas) ms there p k =
      OkWith-bind Kept Kept (add_members stored cid now shas) (add_member stored cid now sha ms)
        (λ ms' k'. add_members-Kept shas ms' there.1 p.1 k') (add_member-Kept sha ms there.0 p.0 k)

overwritten_key :
    (a : Option String) (now : ℕ) (fp : Fingerprint) (sha : String) (row : Stored)
    → has_sha fp.apk_sha256 row ≡ true
    → has_sha sha (overwritten a now fp row) ≡ has_sha sha row
unfolding overwritten
overwritten_key a now fp sha row h =
    ap (λ k. k == sha) (sym ((string_eq.equals_iff row.fingerprint.apk_sha256 fp.apk_sha256).0 h))

-- Saving a fingerprint keeps the hashes that are stored, and adds its own.
pub save_fingerprint-IsStored :
    (a : Option String) (now : ℕ) (fp : Fingerprint) (s : Store) (sha : String)
    → IsStored s.fingerprints sha
    → IsStored (save_fingerprint a now fp s).fingerprints sha
unfolding save_fingerprint
save_fingerprint-IsStored a now fp s sha h =
    any-upsert_keeps (has_sha sha) (has_sha fp.apk_sha256) (overwritten a now fp) _ s.fingerprints
      (overwritten_key a now fp sha) h

pub save_fingerprint_stores :
    (a : Option String) (now : ℕ) (fp : Fingerprint) (s : Store)
    → IsStored (save_fingerprint a now fp s).fingerprints fp.apk_sha256
unfolding save_fingerprint
save_fingerprint_stores a now fp s =
    any-upsert_hits (has_sha fp.apk_sha256) (overwritten a now fp) _ s.fingerprints
      (overwritten_key a now fp fp.apk_sha256) (equals_refl fp.apk_sha256)

pub save_fingerprint-IsConsistent :
    (a : Option String) (now : ℕ) (fp : Fingerprint) (s : Store)
    → IsConsistent s
    → IsConsistent (save_fingerprint a now fp s)
unfolding save_fingerprint
save_fingerprint-IsConsistent a now fp s c = record {
  stored =
      All-mono _ _ s.members (λ m h. save_fingerprint-IsStored a now fp s m.apk_sha256 h) c.stored;
  filed = c.filed;
  once = c.once;
  valid_ids = c.valid_ids;
}

rewritten_key :
    (now : ℕ) (c : Campaign) (cid : CampaignId) (row : CampaignRow)
    → with_id c.campaign_id row ≡ true
    → with_id cid (rewritten now c row) ≡ with_id cid row
unfolding rewritten
rewritten_key now c cid row h =
    ap (λ k. same_id k cid) (sym (same_id→≡ row.campaign_id c.campaign_id h))

All-both :
    {A : Type 0} (P Q : A → Type 0) (xs : List A) → All P xs → All Q xs → All (λ x. P x × Q x) xs
All-both P Q [] h k = tt
All-both P Q (x ∷ xs) h k = ((h.0, k.0), All-both P Q xs h.1 k.1)

-- A campaign whose members are stored and whose id has the pattern is saved, and the store stays
-- consistent.
pub save_campaign-IsConsistent :
    (now : ℕ) (c : Campaign) (s : Store)
    → IsConsistent s
    → matches_pattern c.campaign_id ≡ true
    → All (IsStored s.fingerprints) c.member_sha256s
    → OkWith IsConsistent (save_campaign now c s)
unfolding save_campaign rewritten
save_campaign-IsConsistent now c s k valid there =
    OkWith-bind (Kept s.fingerprints c.campaign_id now Right) IsConsistent _
      (add_members s.fingerprints c.campaign_id now c.member_sha256s s.members)
      (λ ms (h, once). record {
        stored = All-mono _ _ ms (λ m r. r.0) h;
        filed = All-mono _ _ ms (λ m r. r.1) h;
        once = once;
        valid_ids =
            All-upsert _ (with_id c.campaign_id) (rewritten now c) _ s.campaigns (λ row r. valid)
              valid k.valid_ids;
      })
      (add_members-Kept s.fingerprints c.campaign_id now Right c.member_sha256s s.members there
        (All-mono _ _ c.member_sha256s (λ sha h. (h, own)) there)
        (
          All-both _ _ s.members k.stored
              (All-mono _ _ s.members (λ m h. keeps m.campaign_id h) k.filed),
          k.once,
        ))
  where
    campaigns : List CampaignRow
    campaigns = upsert (with_id c.campaign_id) (rewritten now c) (row_of now c) s.campaigns

    Right : Member → Type 0
    Right m = IsStored s.fingerprints m.apk_sha256 × IsFiled campaigns m.campaign_id

    own : IsFiled campaigns c.campaign_id
    own =
        any-upsert_hits (with_id c.campaign_id) (rewritten now c) _ s.campaigns
          (rewritten_key now c c.campaign_id) (same_id_refl c.campaign_id)

    keeps : (cid : CampaignId) → IsFiled s.campaigns cid → IsFiled campaigns cid
    keeps cid h =
        any-upsert_keeps (with_id cid) (with_id c.campaign_id) (rewritten now c) _ s.campaigns
          (rewritten_key now c cid) h
