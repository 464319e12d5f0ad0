-- ===== src/Campaigns/Integrity.antt =====
-- CampaignCorrelator.correlate keeps the tables consistent
-- (fraudshield/deceptiscope/frauddna/campaigns.py), and when it raises.
use boi.Prelude.Floats.{Floats}
use boi.Prelude.Sorting.{Among-sort_by}
use boi.Prelude.{
  ℕ, ◌+◌, ◌≤◌, ◌≡◌, refl, sym, ap, ◌∙◌, subst, inl, inr, String, true, Option, none, some, List, [],
  ◌∷◌, ◌==◌, string_eq, equals_refl, Among, Among-keep, Among-map, All, All-append, any, any_hit,
  Bool-cases, contains, arith,
}
use boi.Campaigns.Types.{Fingerprint, CampaignId, camp, matches_pattern, Campaign, Related}
use boi.Prelude.Rows.{select, select_hit}
use boi.Campaigns.Store.{
  CampaignRow, Store, integrity, invalid_campaign, Result, ok, err, ◌>>=◌, from_row, has_sha,
  with_id, in_campaign, later_row, later_member, list_fingerprints, members_of, get_campaign,
  save_fingerprint, save_campaign, max_index, generate_next_campaign_id,
}
use boi.Campaigns.Correlate.{
  matches, is_close, joined, Answer, save_and_tell, told, join_campaign, new_campaign,
  open_campaign, assign, target_of, related_of, correlate,
}
use boi.Campaigns.Links.{get_campaign-id, pick_members-from, match_all-related}
use boi.Campaigns.Keys.{
  IsStored, IsConsistent, OkWith, save_fingerprint_stores, save_fingerprint-IsConsistent,
  save_campaign-IsConsistent,
}

-- What a call ends in: a consistent store, or the ValidationError of the id of a new campaign, where
-- there is a campaign with the number 999 or more.
abbrev pub Ends : (fs : Floats) → ℕ → Result (Answer fs) → Type 0
Ends fs highest (ok (c, related, s)) = IsConsistent s
Ends fs highest (err integrity) = ⊥
Ends fs highest (err invalid_campaign) = 999 ≤ highest

All-Among : {A : Type 0} (P : A → Type 0) (xs : List A) → ((x : A) → Among x xs → P x) → All P xs
All-Among P [] h = tt
All-Among P (x ∷ xs) h = (h x (inl refl), All-Among P xs (λ y m. h y (inr m)))

All_at : {A : Type 0} (P : A → Type 0) (x : A) (xs : List A) → All P xs → Among x xs → P x
All_at P x [] h m = absurd m
All_at P x (y ∷ ys) h (inl e) = subst P (sym e) h.0
All_at P x (y ∷ ys) h (inr m) = All_at P x ys h.1 m

-- The fingerprints that are listed are stored.
list_fingerprints-IsStored :
    (sha : String) (s : Store) (fp : Fingerprint)
    → Among fp (list_fingerprints (some sha) s)
    → IsStored s.fingerprints fp.apk_sha256
unfolding list_fingerprints
list_fingerprints-IsStored sha s fp m =
    let (row, n, e) = Among-map (λ r. r.fingerprint) fp _ m in
    let (k, _) = (Among-keep _ row s.fingerprints).0 ((Among-sort_by later_row row _).0 n) in
    any_hit (has_sha fp.apk_sha256) row s.fingerprints k
      (ap (λ f. f.apk_sha256 == fp.apk_sha256) (sym e) ∙ equals_refl fp.apk_sha256)

members_of-IsStored :
    (cid : CampaignId) (s : Store)
    → IsConsistent s
    → All (IsStored s.fingerprints) (members_of cid s)
unfolding members_of
members_of-IsStored cid s c = All-Among _ _ (λ x m.
    let (row, n, e) = Among-map (λ r. r.apk_sha256) x _ m in
    let (k, _) =
      (Among-keep (in_campaign cid) row s.members).0 ((Among-sort_by later_member row _).0 n) in
    subst (IsStored s.fingerprints) (sym e)
      (All_at (λ r. IsStored s.fingerprints r.apk_sha256) row s.members c.stored k))

-- The id of a campaign that is read has the pattern.
get_campaign-valid :
    (cid : CampaignId) (s : Store) (c : Campaign)
    → IsConsistent s
    → get_campaign cid s ≡ some c
    → matches_pattern c.campaign_id ≡ true
unfolding get_campaign
get_campaign-valid cid s c k e = read (select (with_id cid) s.campaigns) refl e
  where
    read :
        (o : Option CampaignRow)
        → select (with_id cid) s.campaigns ≡ o
        → from_row s o ≡ some c
        → matches_pattern c.campaign_id ≡ true
    read none found h = cc
    read (some row) found h =
        let same : row.campaign_id ≡ c.campaign_id = cc in
        ap matches_pattern (sym same)
        ∙ All_at (λ r. matches_pattern r.campaign_id ≡ true) row s.campaigns k.valid_ids
            (select_hit (with_id cid) s.campaigns row found).1

module _ (fs : Floats) (ratio : String → String → fs.Float) (tidy : String → String)
    (int16 : String → Option ℕ) (threshold : fs.Float) (s : Store) (sample : Fingerprint)
    (consistent : IsConsistent s) (saved : IsStored s.fingerprints sample.apk_sha256) where
  abbrev target : Option CampaignId
  target = target_of fs ratio tidy int16 threshold s sample

  abbrev related_samples : List (Related fs)
  related_samples = related_of fs ratio tidy int16 threshold s sample

  abbrev highest_index : ℕ
  highest_index = max_index s.campaigns

  related-IsStored : (r : Related fs) → Among r related_samples → IsStored s.fingerprints r.sha256
  unfolding related_of matches
  related-IsStored r m =
      elim (match_all-related fs threshold s ratio tidy int16 sample
        (list_fingerprints (some sample.apk_sha256) s) _ r ((Among-sort_by _ r _).0 m)) [
          | inl nothing ↦ absurd nothing
          | inr (fp, there, name, _) ↦
              subst (IsStored s.fingerprints) (sym name)
                (list_fingerprints-IsStored sample.apk_sha256 s fp there)
        ]

  saved-Ends :
      (now : ℕ) (c : Campaign) (related : List (Related fs))
      → matches_pattern c.campaign_id ≡ true
      → All (IsStored s.fingerprints) c.member_sha256s
      → Ends fs highest_index (save_and_tell fs now c related s)
  saved-Ends now c related valid there =
      ends (save_campaign now c s) (save_campaign-IsConsistent now c s consistent valid there)
    where
      ends :
          (r : Result Store)
          → OkWith IsConsistent r
          → Ends fs highest_index (r >>= λ s'. ok (some c, told fs c related, s'))
      ends (ok s') h = h
      ends (err e) h = absurd h

  joined-Ends :
      (now : ℕ) (t : CampaignId) (o : Option Campaign)
      → get_campaign t s ≡ o
      → Ends fs highest_index (join_campaign fs now sample o related_samples s)
  unfolding join_campaign joined
  joined-Ends now t none found = consistent
  joined-Ends now t (some c) found =
      let members : All (IsStored s.fingerprints) c.member_sha256s =
        subst (All (IsStored s.fingerprints)) (sym (get_campaign-id t s c found).1)
          (members_of-IsStored t s consistent) in
      saved-Ends now (joined sample c) related_samples (get_campaign-valid t s c consistent found)
        (elim (Bool-cases (contains sample.apk_sha256 c.member_sha256s)) [
          | inl there ↦ rw there members
          | inr new ↦ rw new (
              All-append (IsStored s.fingerprints) c.member_sha256s (sample.apk_sha256 ∷ []) members
                (saved, tt))
        ])

  opened-Ends :
      (show_id : CampaignId → String) (now : ℕ)
      → Ends fs highest_index (open_campaign fs show_id now sample related_samples s)
  unfolding open_campaign new_campaign generate_next_campaign_id
  opened-Ends show_id now = elim (Bool-cases (matches_pattern (camp (highest_index + 1)))) [
    | inr refused ↦ rw refused (ground arith)
    | inl fine ↦ rw fine (
        saved-Ends now (new_campaign fs show_id sample (camp (highest_index + 1)) related_samples)
          related_samples fine
          (All-Among _ _ (λ x m.
            elim (pick_members-from fs related_samples (sample.apk_sha256 ∷ []) x m) [
              | inl (inl e) ↦ subst (IsStored s.fingerprints) (sym e) saved
              | inl (inr k) ↦ absurd k
              | inr (r, there, _, e) ↦
                  subst (IsStored s.fingerprints) (sym e) (related-IsStored r there)
            ])))
  ]

  pub assign-Ends :
      (show_id : CampaignId → String) (now : ℕ) (o : Option CampaignId)
      → Ends fs highest_index (assign fs show_id now sample o related_samples s)
  unfolding assign
  assign-Ends show_id now (some t) = joined-Ends now t (get_campaign t s) refl
  assign-Ends show_id now none = elim (Bool-cases (any (is_close fs) related_samples)) [
    | inl near ↦ rw near (opened-Ends show_id now)
    | inr far ↦ rw far consistent
  ]

-- On a consistent store correlate ends in a consistent store: each member's sample and campaign are
-- stored, no member is listed twice, and each campaign's id has the pattern. It raises in one case
-- only, where the greatest number of a stored campaign is 999 or more, and never for a
-- foreign key.
pub correlate-IsConsistent :
    (fs : Floats) (show_id : CampaignId → String) (ratio : String → String → fs.Float)
    (tidy : String → String) (int16 : String → Option ℕ) (threshold : fs.Float)
    (analysis_id : Option String) (now later : ℕ) (sample : Fingerprint) (s : Store)
    → IsConsistent s
    → Ends fs
        (max_index s.campaigns)
        (correlate fs show_id ratio tidy int16 threshold analysis_id now later sample s)
unfolding correlate save_fingerprint
correlate-IsConsistent fs show_id ratio tidy int16 threshold analysis_id now later sample s c =
    let s' = save_fingerprint analysis_id now sample s in
    assign-Ends fs ratio tidy int16 threshold s' sample
      (save_fingerprint-IsConsistent analysis_id now sample s c)
      (save_fingerprint_stores analysis_id now sample s) show_id later _
