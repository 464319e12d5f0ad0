-- ===== src/Campaigns/Anchors.antt =====
-- Why a sample is in a campaign (fraudshield/deceptiscope/frauddna/campaigns.py).
use boi.Prelude.Floats.{Floats, at_or_above, IsOrdered}
use boi.Prelude.Sorting.{Among-sort_by}
use boi.Prelude.{
  ℕ, ◌≡◌, refl, sym, ap, ◌∙◌, subst, ◌⊎◌, inl, inr, String, Bool, true, false, ◌||◌, Option, none,
  some, List, [], ◌∷◌, ◌==◌, string_eq, Among, Among-append, any, Bool-cases, contains, any-found,
  equals_sym,
}
use boi.Campaigns.Types.{Fingerprint, CampaignId, matches_pattern, Campaign, Related}
use boi.Campaigns.Similarity.{compare, shares_signer, shares_firebase, shares_payload}
use boi.Campaigns.Weights.{highest, close_samples_share_anchor}
use boi.Campaigns.Store.{
  Store, Result, ok, err, ◌>>=◌, list_fingerprints, members_of, get_campaign,
  get_campaign_for_sample, save_fingerprint, save_campaign, generate_next_campaign_id,
}
use boi.Campaigns.Correlate.{
  is_hard_linked, id_of, matches, is_close, pick_members, joined, Answer, save_and_tell, told,
  join_campaign, new_campaign, open_campaign, assign, or_current, target_of, related_of, correlate,
}
use boi.Campaigns.Links.{
  get_campaign-id, get_campaign_for_sample-Among, list_fingerprints-other, pick_members-from,
  match_all-target, match_all-related,
}

-- A signer, a Firebase project or a recovered payload that both samples have.
abbrev pub share_anchor : Fingerprint → Fingerprint → Bool
share_anchor fp1 fp2 = shares_signer fp1 fp2 || shares_firebase fp1 fp2 || shares_payload fp1 fp2

joined-from :
    (sample : Fingerprint) (c : Campaign) (x : String)
    → Among x (joined sample c).member_sha256s
    → Among x c.member_sha256s ⊎ (x ≡ sample.apk_sha256)
unfolding joined
joined-from sample c x m = elim (Bool-cases (contains sample.apk_sha256 c.member_sha256s)) [
  | inl there ↦ inl (rw there at m)
  | inr new ↦ elim ((Among-append x c.member_sha256s _).0 (rw new at m)) [
    | inl old ↦ inl old
    | inr (inl e) ↦ inr e
    | inr (inr k) ↦ absurd k
  ]
]

or_current-from :
    (a b : Option CampaignId) (t : CampaignId)
    → or_current a b ≡ some t
    → (a ≡ some t) ⊎ (b ≡ some t)
or_current-from (some u) b t e = inl e
or_current-from none b t e = inr e

module _ (fs : Floats) (ratio : String → String → fs.Float) (tidy : String → String)
    (int16 : String → Option ℕ) (threshold : fs.Float) (s : Store) (sample : Fingerprint) where
  open fs use {literal, less}

  abbrev pub corpus : List Fingerprint
  corpus = list_fingerprints (some sample.apk_sha256) s

  abbrev pub compared : Fingerprint → boi.Campaigns.Types.Similarity fs
  compared = compare fs ratio tidy int16 sample

  -- Why a text may stand among the members of a campaign: it did before; it is the sample, and a
  -- stored sample that is a member is hard linked to it; or it is the sample or a stored sample, and
  -- a stored sample, the same one, shares an anchor with the sample.
  pub IsJustified : CampaignId → String → Type 0
  IsJustified cid x =
      Among x (members_of cid s)
      ⊎ ((x ≡ sample.apk_sha256)
          × ((fp : Fingerprint) × Among fp corpus
              × (is_hard_linked fs (compared fp) ≡ true)
              × Among fp.apk_sha256 (members_of cid s)))
      ⊎ ((fp : Fingerprint) × Among fp corpus
          × (share_anchor sample fp ≡ true)
          × ((x ≡ sample.apk_sha256) ⊎ (x ≡ fp.apk_sha256)))

  -- Every member of the campaign that is answered is justified.
  abbrev pub AllJustified : Result (Answer fs) → Type 0
  AllJustified (ok (some c, related, s')) =
      (x : String) → Among x c.member_sha256s → IsJustified c.campaign_id x
  AllJustified (ok (none, related, s')) = Unit
  AllJustified (err e) = Unit

  saved-AllJustified :
      (now : ℕ) (c : Campaign) (related : List (Related fs))
      → ((x : String) → Among x c.member_sha256s → IsJustified c.campaign_id x)
      → AllJustified (save_and_tell fs now c related s)
  saved-AllJustified now c related h = saved (save_campaign now c s)
    where
      saved : (r : Result Store) → AllJustified (r >>= λ s'. ok (some c, told fs c related, s'))
      saved (ok s') = h
      saved (err e) = tt

  abbrev target : Option CampaignId
  target = target_of fs ratio tidy int16 threshold s sample

  abbrev related_samples : List (Related fs)
  related_samples = related_of fs ratio tidy int16 threshold s sample

  -- The target's members have the sample, or a sample that is hard linked to it.
  target-IsJustified : (t : CampaignId) → target ≡ some t → IsJustified t sample.apk_sha256
  unfolding target_of matches IsJustified
  target-IsJustified t e =
      elim (or_current-from _ (id_of (get_campaign_for_sample sample.apk_sha256 s)) t e) [
        | inr current ↦ inl (get_campaign_for_sample-Among sample.apk_sha256 s t current)
        | inl found ↦
            elim (match_all-target fs threshold s ratio tidy int16 sample corpus _ t found) [
              | inl nothing ↦ cc
              | inr (fp, there, linked, at) ↦ inr (
                  inl
                    (refl, (fp, there, linked, get_campaign_for_sample-Among fp.apk_sha256 s t at)))
            ]
      ]

  joined-AllJustified :
      (now : ℕ) (t : CampaignId) (related : List (Related fs)) (o : Option Campaign)
      → get_campaign t s ≡ o
      → IsJustified t sample.apk_sha256
      → AllJustified (join_campaign fs now sample o related s)
  unfolding join_campaign IsJustified joined
  joined-AllJustified now t related none found h = tt
  joined-AllJustified now t related (some c) found h =
      let (id, members) = get_campaign-id t s c found in
      saved-AllJustified now (joined sample c) related (λ x m.
        subst (λ k. IsJustified k x) (sym id)
          (elim (joined-from sample c x m) [
            | inl old ↦ inl (subst (Among x) members old)
            | inr e ↦ subst (IsJustified t) (sym e) h
          ]))

  module _ (ord : IsOrdered fs) (light : less (highest fs ord) (literal 45 2) ≡ true)
      (named : (sample.apk_sha256 == "") ≡ false) where
    -- A close related sample is a stored one that shares an anchor.
    close-anchored :
        (r : Related fs)
        → Among r related_samples
        → is_close fs r ≡ true
        → (fp : Fingerprint) × Among fp corpus
          × (share_anchor sample fp ≡ true)
          × (r.sha256 ≡ fp.apk_sha256)
    unfolding related_of matches is_close
    close-anchored r m close =
        elim (match_all-related fs threshold s ratio tidy int16 sample corpus _ r
          ((Among-sort_by _ r _).0 m)) [
            | inl nothing ↦ absurd nothing
            | inr (fp, there, name, near) ↦ (
              fp,
              there,
              close_samples_share_anchor fs ord ratio tidy int16 sample fp light
                  (equals_sym sample.apk_sha256 fp.apk_sha256
                    ∙ list_fingerprints-other sample.apk_sha256 s fp named there)
                  (ap (λ v. at_or_above fs v (literal 45 2)) (sym near) ∙ close),
              name,
            )
          ]

    opened-AllJustified :
        (show_id : CampaignId → String) (now : ℕ)
        → any (is_close fs) related_samples ≡ true
        → AllJustified (open_campaign fs show_id now sample related_samples s)
    unfolding open_campaign new_campaign IsJustified
    opened-AllJustified show_id now near = elim (Bool-cases (matches_pattern cid)) [
      | inr refused ↦ rw refused tt
      | inl fine ↦ rw fine (
          saved-AllJustified now (new_campaign fs show_id sample cid related_samples)
            related_samples member)
    ]
      where
        cid : CampaignId
        cid = generate_next_campaign_id s

        member :
            (x : String)
            → Among x (pick_members fs related_samples (sample.apk_sha256 ∷ []))
            → IsJustified cid x
        member x m = elim (pick_members-from fs related_samples (sample.apk_sha256 ∷ []) x m) [
          | inl (inl e) ↦
              let (r, there, close) = any-found (is_close fs) related_samples near in
              let (fp, stored, anchor, name) = close-anchored r there close in
              inr (inr (fp, stored, anchor, inl e))
          | inl (inr k) ↦ absurd k
          | inr (r, there, close, e) ↦
              let (fp, stored, anchor, name) = close-anchored r there close in
              inr (inr (fp, stored, anchor, inr (e ∙ name)))
        ]

    assign-AllJustified :
        (show_id : CampaignId → String) (now : ℕ) (o : Option CampaignId)
        → target ≡ o
        → AllJustified (assign fs show_id now sample o related_samples s)
    unfolding assign
    assign-AllJustified show_id now (some t) e =
        joined-AllJustified now t related_samples (get_campaign t s) refl (target-IsJustified t e)
    assign-AllJustified show_id now none e = elim (Bool-cases (any (is_close fs) related_samples)) [
      | inl near ↦ rw near (opened-AllJustified show_id now near)
      | inr far ↦ rw far tt
    ]

-- Whoever stands in the campaign that correlate answers has a reason to: it stood there before; or
-- it is the sample, and a stored sample of that campaign is hard linked to it by a signer, a Firebase
-- project, a payload or 85 percent of its DEX files; or it is a stored sample that shares a signer, a
-- Firebase project or a payload with the sample, or the sample for such a one. So a likeness of
-- names or icons alone puts nothing in a campaign: where the floats are ordered, the weights of DEX
-- files, behaviour and infrastructure add up to less than 0.45, and the sample's hash is not empty.
pub correlate-IsJustified :
    (fs : Floats) (ratio : String → String → fs.Float) (tidy : String → String)
    (int16 : String → Option ℕ) (threshold : fs.Float) (show_id : CampaignId → String)
    (ord : IsOrdered fs)
    → fs.less (highest fs ord) (fs.literal 45 2) ≡ true
    → (analysis_id : Option String) (now later : ℕ) (sample : Fingerprint)
    → (sample.apk_sha256 == "") ≡ false
    → (s s' : Store) (c : Campaign) (related : List (Related fs))
    → correlate fs show_id ratio tidy int16 threshold analysis_id now later sample s
      ≡ ok (some c, related, s')
    → (x : String) → Among x c.member_sha256s
    → IsJustified fs ratio tidy int16 threshold
        (save_fingerprint analysis_id now sample s)
        sample
        c.campaign_id
        x
unfolding correlate
correlate-IsJustified fs ratio tidy int16 threshold show_id ord light analysis_id now later sample
      named s s' c related e =
    let saved = save_fingerprint analysis_id now sample s in
    subst (AllJustified fs ratio tidy int16 threshold saved sample) e (
      assign-AllJustified fs ratio tidy int16 threshold saved sample ord light named show_id later _
        refl)
