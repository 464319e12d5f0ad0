-- ===== src/Campaigns/Links.antt =====
-- What the loops of CampaignCorrelator.correlate find
-- (fraudshield/deceptiscope/frauddna/campaigns.py).
use boi.Prelude.Floats.{Floats}
use boi.Prelude.Sorting.{Among-sort_by}
use boi.Prelude.{
  subst, equals_refl, ℕ, ◌≡◌, refl, sym, ap, ◌∙◌, ◌⊎◌, inl, inr, String, Bool, true, false, ◌&&◌,
  ◌||◌, not, Option, none, some, List, [], ◌∷◌, ◌==◌, string_eq, nat_eq, arith, Among, Among-append,
  Among-keep, Among-map, Among-image, Bool-cases, and-true, contains,
}
use boi.Campaigns.Types.{
  Fingerprint, CampaignId, camp, family, same_id, Campaign, Similarity, Related,
}
use boi.Campaigns.Similarity.{compare}
use boi.Prelude.Rows.{select, select_hit}
use boi.Campaigns.Store.{
  Store, Member, CampaignRow, has_sha, later_row, list_fingerprints, in_campaign, with_id,
  later_member, members_of, get_campaign, campaign_of, from_row, campaign_from_row,
  get_campaign_for_sample,
}
use boi.Campaigns.Correlate.{
  is_related, is_hard_linked, id_of, next_target, Matches, match_step, match_all, is_close,
  pick_members,
}

pub same_id→≡ : (a b : CampaignId) → same_id a b ≡ true → a ≡ b
same_id→≡ (camp a) (camp b) h = ap camp ((nat_eq.equals_iff a b).0 h)
same_id→≡ (family a) (family b) h = ap family ((nat_eq.equals_iff a b).0 h)
same_id→≡ (camp a) (family b) h = cc
same_id→≡ (family a) (camp b) h = cc

pub same_id_refl : (a : CampaignId) → same_id a a ≡ true
same_id_refl (camp a) = equals_refl a
same_id_refl (family a) = equals_refl a

-- A campaign that is read has the id that was asked for, and the members of that id.
pub get_campaign-id :
    (cid : CampaignId) (s : Store) (c : Campaign)
    → get_campaign cid s ≡ some c
    → (c.campaign_id ≡ cid) × (c.member_sha256s ≡ members_of cid s)
unfolding get_campaign
get_campaign-id cid s c e = read (select (with_id cid) s.campaigns) refl e
  where
    read :
        (o : Option CampaignRow)
        → select (with_id cid) s.campaigns ≡ o
        → from_row s o ≡ some c
        → (c.campaign_id ≡ cid) × (c.member_sha256s ≡ members_of cid s)
    read none found h = cc
    read (some row) found h =
        let same : campaign_from_row s row ≡ c = cc in
        let id : row.campaign_id ≡ cid =
          same_id→≡ row.campaign_id cid (select_hit (with_id cid) s.campaigns row found).0 in
        (
          ap (λ k. k.campaign_id) (sym same) ∙ id,
          ap (λ k. k.member_sha256s) (sym same) ∙ ap (λ i. members_of i s) id,
        )

-- The campaign of a sample has it as a member.
pub get_campaign_for_sample-Among :
    (sha : String) (s : Store) (cid : CampaignId)
    → id_of (get_campaign_for_sample sha s) ≡ some cid
    → Among sha (members_of cid s)
unfolding get_campaign_for_sample members_of
get_campaign_for_sample-Among sha s cid e =
    in_row (select (λ m. m.apk_sha256 == sha) s.members) refl e
  where
    in_found :
        (m : Member) (o : Option Campaign)
        → get_campaign m.campaign_id s ≡ o
        → id_of o ≡ some cid
        → m.campaign_id ≡ cid
    in_found m none found h = cc
    in_found m (some c) found h =
        let id : c.campaign_id ≡ cid = cc in sym (get_campaign-id m.campaign_id s c found).0 ∙ id

    in_row :
        (o : Option Member)
        → select (λ m. m.apk_sha256 == sha) s.members ≡ o
        → id_of (campaign_of s o) ≡ some cid
        → Among sha (members_of cid s)
    in_row none found h = cc
    in_row (some m) found h =
        let (hit, there) = select_hit (λ m. m.apk_sha256 == sha) s.members m found in
        let id : m.campaign_id ≡ cid = in_found m (get_campaign m.campaign_id s) refl h in
        let name : m.apk_sha256 ≡ sha = (string_eq.equals_iff m.apk_sha256 sha).0 hit in
        subst (λ k. Among k (members_of cid s)) name
          (Among-image (λ x. x.apk_sha256) m _
            ((Among-sort_by later_member m _).1 (
              (Among-keep (in_campaign cid) m s.members).1
                (there, ap (λ k. same_id k cid) id ∙ same_id_refl cid))))

-- A stored fingerprint that the list has is one of another hash.
pub list_fingerprints-other :
    (sha : String) (s : Store) (fp : Fingerprint)
    → (sha == "") ≡ false
    → Among fp (list_fingerprints (some sha) s)
    → (fp.apk_sha256 == sha) ≡ false
unfolding list_fingerprints
list_fingerprints-other sha s fp named m =
    let (row, n, e) = Among-map (λ r. r.fingerprint) fp _ m in
    let (_, k) =
      (Among-keep (λ r. sha == "" || not (has_sha sha r)) row s.fingerprints).0
        ((Among-sort_by later_row row _).0 n) in
    ap (λ f. f.apk_sha256 == sha) e ∙ ground (arith, k, named)

module _ (fs : Floats) where
  open fs use {Float}

  -- The members that are picked are those before and close samples.
  pub pick_members-from :
      (rs : List (Related fs)) (members : List String) (x : String)
      → Among x (pick_members fs rs members)
      → Among x members ⊎ ((r : Related fs) × Among r rs × (is_close fs r ≡ true) × (x ≡ r.sha256))
  unfolding pick_members
  pick_members-from [] members x m = inl m
  pick_members-from (r ∷ rs) members x m = elim (pick_members-from rs _ x m) [
    | inr (q, there, close, e) ↦ inr (q, inr there, close, e)
    | inl n ↦ elim (Bool-cases (is_close fs r && not (contains r.sha256 members))) [
      | inr skip ↦ inl (rw skip at n)
      | inl pick ↦ elim ((Among-append x members (r.sha256 ∷ [])).0 (rw pick at n)) [
        | inl old ↦ inl old
        | inr (inl e) ↦ inr (r, inl refl, (and-true _ _ pick).0, e)
        | inr (inr k) ↦ absurd k
      ]
    ]
  ]

  -- The target is the one before, or that of a linked sample.
  next_target-from :
      (linked : Bool) (camp_id old : Option CampaignId) (t : CampaignId)
      → next_target linked camp_id old ≡ some t
      → (old ≡ some t) ⊎ ((linked ≡ true) × (camp_id ≡ some t))
  unfolding next_target
  next_target-from linked camp_id (some o) t e = inl e
  next_target-from true camp_id none t e = inr (refl, e)
  next_target-from false camp_id none t e = cc

  module _ (threshold : Float) (s : Store) where
    abbrev campaign_at : Fingerprint → Option CampaignId
    campaign_at fp = id_of (get_campaign_for_sample fp.apk_sha256 s)

    match_step-target :
        (fp : Fingerprint) (sim : Similarity fs) (m : Matches fs) (t : CampaignId)
        → (match_step fs threshold s fp sim m).target_campaign_id ≡ some t
        → (m.target_campaign_id ≡ some t)
          ⊎ ((is_hard_linked fs sim ≡ true) × (campaign_at fp ≡ some t))
    unfolding match_step
    match_step-target fp sim m t e = elim (Bool-cases (is_related fs threshold sim)) [
      | inl near ↦
          next_target-from (is_hard_linked fs sim) (campaign_at fp) m.target_campaign_id t
            (rw near at e)
      | inr far ↦ inl (rw far at e)
    ]

    match_step-related :
        (fp : Fingerprint) (sim : Similarity fs) (m : Matches fs) (r : Related fs)
        → Among r (match_step fs threshold s fp sim m).related_samples
        → Among r m.related_samples
          ⊎ ((r.sha256 ≡ fp.apk_sha256) × (r.similarity ≡ sim.overall_similarity))
    unfolding match_step
    match_step-related fp sim m r n = elim (Bool-cases (is_related fs threshold sim)) [
      | inr far ↦ inl (rw far at n)
      | inl near ↦ elim ((Among-append r m.related_samples _).0 (rw near at n)) [
        | inl old ↦ inl old
        | inr (inl e) ↦ inr (ap (λ k. k.sha256) e, ap (λ k. k.similarity) e)
        | inr (inr k) ↦ absurd k
      ]
    ]

    module _ (ratio : String → String → Float) (tidy : String → String) (int16 : String → Option ℕ)
        (sample : Fingerprint) where
      abbrev pub compared : Fingerprint → Similarity fs
      compared = compare fs ratio tidy int16 sample

      abbrev all_matches : List Fingerprint → Matches fs → Matches fs
      all_matches = match_all fs ratio tidy int16 threshold s sample

      -- The loop's target comes from a stored sample that is hard linked.
      pub match_all-target :
          (fps : List Fingerprint) (m : Matches fs) (t : CampaignId)
          → (all_matches fps m).target_campaign_id ≡ some t
          → (m.target_campaign_id ≡ some t)
            ⊎ ((fp : Fingerprint) × Among fp fps
                × (is_hard_linked fs (compared fp) ≡ true)
                × (campaign_at fp ≡ some t))
      unfolding match_all
      match_all-target [] m t e = inl e
      match_all-target (fp ∷ fps) m t e =
          elim (match_all-target fps (match_step fs threshold s fp (compared fp) m) t e) [
            | inr (g, there, h, h') ↦ inr (g, inr there, h, h')
            | inl k ↦ elim (match_step-target fp (compared fp) m t k) [
              | inl old ↦ inl old
              | inr (h, h') ↦ inr (fp, inl refl, h, h')
            ]
          ]

      -- A related sample is one of the corpus, with its similarity.
      pub match_all-related :
          (fps : List Fingerprint) (m : Matches fs) (r : Related fs)
          → Among r (all_matches fps m).related_samples
          → Among r m.related_samples
            ⊎ ((fp : Fingerprint) × Among fp fps
                × (r.sha256 ≡ fp.apk_sha256)
                × (r.similarity ≡ (compared fp).overall_similarity))
      unfolding match_all
      match_all-related [] m r n = inl n
      match_all-related (fp ∷ fps) m r n =
          elim (match_all-related fps (match_step fs threshold s fp (compared fp) m) r n) [
            | inr (g, there, h, h') ↦ inr (g, inr there, h, h')
            | inl k ↦ elim (match_step-related fp (compared fp) m r k) [
              | inl old ↦ inl old
              | inr (h, h') ↦ inr (fp, inl refl, h, h')
            ]
          ]
