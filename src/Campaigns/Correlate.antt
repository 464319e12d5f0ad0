-- ===== src/Campaigns/Correlate.antt =====
-- CampaignCorrelator.correlate (fraudshield/deceptiscope/frauddna/campaigns.py) over the
-- repository: one transaction, which is rolled back where it raises. `show_id` prints an id.
use Prim.Native.String.{◌++◌ as cat}
use boi.Prelude.Floats.{Floats, at_or_above}
use boi.Prelude.Sorting.{sort_by}
use boi.Prelude.{
  ℕ, String, Bool, false, ◌&&◌, ◌||◌, not, Option, none, some, List, [], ◌∷◌, ◌++◌, ◌==◌, string_eq,
  contains, any, map, if◌then◌else◌,
}
use boi.Scoring.Rules.{is_cons}
use boi.Security.Roles.{sorted_set}
use boi.Campaigns.Types.{Fingerprint, CampaignId, matches_pattern, Campaign, Similarity, Related}
use boi.Campaigns.Similarity.{compare}
use boi.Campaigns.Store.{
  Store, invalid_campaign, Result, ok, err, ◌>>=◌, save_fingerprint, list_fingerprints,
  save_campaign, get_campaign, get_campaign_for_sample, generate_next_campaign_id,
}

abbrev pub id_of : Option Campaign → Option CampaignId
id_of none = none
id_of (some c) = some c.campaign_id

-- `if is_hard_linked and camp_id and not target_campaign_id`
unfoldable pub next_target : Bool → Option CampaignId → Option CampaignId → Option CampaignId
next_target linked camp_id (some target) = some target
next_target linked camp_id none = if linked then camp_id else none

-- The campaign that the sample joins.
unfoldable pub joined : Fingerprint → Campaign → Campaign
joined sample c = record c {
  member_sha256s =
      if contains sample.apk_sha256 c.member_sha256s
      then c.member_sha256s
      else c.member_sha256s ++ (sample.apk_sha256 ∷ []);
  primary_signatures = sorted_set (c.primary_signatures ++ sample.behavior_signatures);
  shared_infrastructure = sorted_set (c.shared_infrastructure ++ sample.domains ++ sample.urls);
  shared_firebase_projects = sorted_set (c.shared_firebase_projects ++ sample.firebase_project_ids);
  shared_signer_fingerprints =
      sorted_set (c.shared_signer_fingerprints ++ sample.signer_fingerprints);
}

abbrev pub label_of : Fingerprint → String
label_of sample = if sample.app_label == "" then sample.package_name else sample.app_label

-- `if current_camp and not target_campaign_id`
abbrev pub or_current : Option CampaignId → Option CampaignId → Option CampaignId
or_current (some target) current = some target
or_current none current = current

module _ (fs : Floats) where
  open fs use {Float, literal, less}

  -- `sim.overall_similarity >= self.min_related_threshold or sim.match_reasons`
  unfoldable pub is_related : Float → Similarity fs → Bool
  is_related threshold sim =
      at_or_above fs sim.overall_similarity threshold || is_cons sim.match_reasons

  abbrev pub dex_linked : Option Float → Bool
  dex_linked none = false
  dex_linked (some d) = at_or_above fs d (literal 85 2)

  unfoldable pub is_hard_linked : Similarity fs → Bool
  is_hard_linked sim =
      sim.firebase_overlap
      || sim.signer_match
      || sim.payload_overlap
      || dex_linked sim.dex_similarity

  abbrev pub related_sample : Fingerprint → Similarity fs → Option CampaignId → Related fs
  related_sample fp sim camp_id = record {
    sha256 = fp.apk_sha256;
    similarity = sim.overall_similarity;
    reasons = sim.match_reasons;
    campaign_id = camp_id;
    app_label = fp.app_label;
    package_name = fp.package_name;
  }

  -- The variables of the loop over the corpus.
  pub record Matches : Type 0 where
    pub related_samples : List (Related fs)
    pub target_campaign_id : Option CampaignId

  -- The loop's body.
  unfoldable pub match_step : Float → Store → Fingerprint → Similarity fs → Matches → Matches
  match_step threshold s fp sim m =
      if is_related threshold sim
      then (let camp_id = id_of (get_campaign_for_sample fp.apk_sha256 s) in
          record {
            related_samples = m.related_samples ++ (related_sample fp sim camp_id ∷ []);
            target_campaign_id = next_target (is_hard_linked sim) camp_id m.target_campaign_id;
          })
      else m

  -- `sort(key=similarity, reverse=True)`, which is stable.
  abbrev pub less_similar : Related fs → Related fs → Bool
  less_similar a b = less a.similarity b.similarity

  -- `r.similarity >= 0.45`
  unfoldable pub is_close : Related fs → Bool
  is_close r = at_or_above fs r.similarity (literal 45 2)

  -- The loop that picks the members of a new campaign.
  unfoldable pub pick_members : List (Related fs) → List String → List String
  pick_members [] members = members
  pick_members (r ∷ rs) members = pick_members rs (
      if is_close r && not (contains r.sha256 members) then members ++ (r.sha256 ∷ []) else members)

  abbrev pub Answer : Type 0
  Answer = Option Campaign × List (Related fs) × Store

  -- The related samples that the campaign has as members are told its id.
  unfoldable pub told : Campaign → List (Related fs) → List (Related fs)
  told c = map (λ r.
      if contains r.sha256 c.member_sha256s
      then record r { campaign_id = some c.campaign_id }
      else r)

  abbrev pub save_and_tell : ℕ → Campaign → List (Related fs) → Store → Result Answer
  save_and_tell now c related s = save_campaign now c s >>= λ s'. ok (some c, told c related, s')

  unfoldable pub join_campaign :
      ℕ → Fingerprint → Option Campaign → List (Related fs) → Store → Result Answer
  join_campaign now sample none related s = ok (none, related, s)
  join_campaign now sample (some c) related s = save_and_tell now (joined sample c) related s

  module _ (ratio : String → String → Float) (tidy : String → String) (int16 : String → Option ℕ)
      (threshold : Float) where
    -- The loop over the corpus, from its variables.
    unfoldable pub match_all : Store → Fingerprint → List Fingerprint → Matches → Matches
    match_all s sample [] m = m
    match_all s sample (fp ∷ fps) m =
        match_all s sample fps (match_step threshold s fp (compare fs ratio tidy int16 sample fp) m)

    abbrev pub no_matches : Matches
    no_matches = record { related_samples = []; target_campaign_id = none }

    unfoldable pub matches : Store → Fingerprint → Matches
    matches s sample = match_all s sample (list_fingerprints (some sample.apk_sha256) s) no_matches

    unfoldable pub target_of : Store → Fingerprint → Option CampaignId
    target_of s sample =
        or_current (matches s sample).target_campaign_id
          (id_of (get_campaign_for_sample sample.apk_sha256 s))

    unfoldable pub related_of : Store → Fingerprint → List (Related fs)
    related_of s sample = sort_by less_similar (matches s sample).related_samples

  module _ (show_id : CampaignId → String) where
    unfoldable pub new_campaign : Fingerprint → CampaignId → List (Related fs) → Campaign
    new_campaign sample cid related = record {
      campaign_id = cid;
      name = cat "Banking Campaign " (cat (show_id cid) (cat " (" (cat (label_of sample) ")")));
      member_sha256s = pick_members related (sample.apk_sha256 ∷ []);
      primary_signatures = sample.behavior_signatures;
      shared_infrastructure = sample.domains ++ sample.urls;
      shared_firebase_projects = sample.firebase_project_ids;
      shared_signer_fingerprints = sample.signer_fingerprints;
      created_at = none;
    }

    unfoldable pub open_campaign : ℕ → Fingerprint → List (Related fs) → Store → Result Answer
    open_campaign now sample related s =
        let cid = generate_next_campaign_id s in
        if matches_pattern cid
        then save_and_tell now (new_campaign sample cid related) related s
        else err invalid_campaign

    -- From the target to the answer.
    unfoldable pub assign :
        ℕ → Fingerprint → Option CampaignId → List (Related fs) → Store → Result Answer
    assign now sample (some target) related s =
        join_campaign now sample (get_campaign target s) related s
    assign now sample none related s =
        if any is_close related then open_campaign now sample related s else ok (none, related, s)

    module _ (ratio : String → String → Float) (tidy : String → String) (int16 : String → Option ℕ)
        (threshold : Float) where
      -- `correlate`: the clock is read for the fingerprint and for the campaign.
      unfoldable pub correlate : Option String → ℕ → ℕ → Fingerprint → Store → Result Answer
      correlate analysis_id now later sample s =
          let s' = save_fingerprint analysis_id now sample s in
          assign later sample (target_of ratio tidy int16 threshold s' sample)
            (related_of ratio tidy int16 threshold s' sample) s'
