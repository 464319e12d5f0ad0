-- ===== src/Campaigns/Examples.antt =====
-- The theorems on Fraud DNA at two samples of one family.
use boi.Prelude.Floats.{minimum, maximum, at_or_above}
use boi.Prelude.Sorting.{sort_by, insert_by}
use boi.Campaigns.Icons.{in_unit, icon_similarity}
use boi.Campaigns.Similarity.{
  compare, two_samples, reasons_of, shares_signer, shares_firebase, shares_payload, overlap,
  intersection, to_set, union, jaccard, dex_similarity, dex_of, behavior_of, infra_of,
  package_similarity, weighted_score,
}
use boi.Prelude.Decimals.{decimal, decimal-IsOrdered}
use boi.Prelude.{
  arith, ℕ, ◌≡◌, refl, inl, inr, String, Option, none, some, List, [], ◌∷◌, ◌==◌, string_eq,
  if◌then◌else◌,
}
use boi.Campaigns.Types.{Fingerprint, CampaignId, camp, family}
use boi.Prelude.Rows.{upsert}
use boi.Campaigns.Store.{
  overwritten, list_fingerprints, get_campaign_for_sample, save_campaign, add_members, add_member,
  Stored, CampaignRow, Store, invalid_campaign, err, max_index, generate_next_campaign_id,
  save_fingerprint,
}
use boi.Campaigns.Correlate.{
  correlate, assign, target_of, matches, match_all, match_step, related_of, is_related,
  is_hard_linked, next_target, is_close, pick_members, open_campaign, new_campaign, told,
}
use boi.Campaigns.Refines.{Save, run_saves, run_spec, view, run_saves_refines}
use boi.Campaigns.Anchors.{IsJustified, correlate-IsJustified}
use boi.Campaigns.Keys.{IsConsistent}
use boi.Campaigns.Integrity.{Ends, correlate-IsConsistent}
use boi.Campaigns.Ids.{campaign_ids_run_out}

abbrev sample : String → String → Fingerprint
sample sha name = record {
  apk_sha256 = sha;
  app_identity = "identity";
  package_name = name;
  app_label = "Bank";
  signer_fingerprints = "signer" ∷ [];
  icon_phash = none;
  dex_fingerprints = "dex" ∷ [];
  dex_fuzzy_hash = none;
  behavior_signatures = "sms" ∷ [];
  permissions = [];
  banking_capabilities = [];
  domains = "c2.example" ∷ [];
  urls = [];
  ips = [];
  firebase_project_ids = "project" ∷ [];
  recovered_payload_hashes = [];
  metadata = "{}";
}

abbrev old : Fingerprint
old = sample "aa" "com.bank.one"

abbrev new : Fingerprint
new = sample "bb" "com.bank.two"

abbrev row : Stored
row = record { fingerprint = old; analysis_id = some "apk_1"; created_at = 1; updated_at = 1 }

abbrev campaign_row : ℕ → CampaignRow
campaign_row n = record {
  campaign_id = camp n;
  name = "Banking Campaign";
  primary_signatures = [];
  shared_infrastructure = [];
  shared_firebase_projects = [];
  shared_signer_fingerprints = [];
  created_at = 1;
  updated_at = 1;
}

abbrev store : Store
store = record { fingerprints = row ∷ []; campaigns = campaign_row 7 ∷ []; members = [] }

abbrev full_store : Store
full_store = record { fingerprints = row ∷ []; campaigns = campaign_row 999 ∷ []; members = [] }

abbrev ratio : String → String → ℕ
ratio a b = if a == b then 10000 else 9000

abbrev tidy : String → String
tidy s = s

abbrev int16 : String → Option ℕ
int16 s = none

abbrev show_id : CampaignId → String
show_id (camp n) = "CAMP"
show_id (family n) = "F"

abbrev saves : List Save
saves = (some "apk_1", 5, old) ∷ (none, 6, new) ∷ (none, 7, old) ∷ []

run_saves_refines_example : view (run_saves saves store) "aa" ≡ run_spec saves (view store) "aa"
run_saves_refines_example = run_saves_refines saves store "aa"

correlate-IsJustified_example :
    IsJustified decimal ratio tidy int16 2500 (save_fingerprint none 9 new store) new (camp 8) "aa"
unfolding correlate save_fingerprint upsert overwritten assign target_of matches match_all
    match_step list_fingerprints sort_by insert_by get_campaign_for_sample related_of compare
    two_samples reasons_of shares_signer shares_firebase shares_payload overlap intersection to_set
    union jaccard dex_similarity dex_of behavior_of infra_of package_similarity icon_similarity
    weighted_score in_unit minimum maximum at_or_above is_related is_hard_linked next_target
    is_close pick_members open_campaign new_campaign save_campaign add_members add_member
    generate_next_campaign_id max_index told
correlate-IsJustified_example =
    correlate-IsJustified decimal ratio tidy int16 2500 show_id decimal-IsOrdered refl none 9 10 new
      refl store _ _ _ refl "aa" (inr (inl refl))

store-IsConsistent : IsConsistent store
store-IsConsistent = record { stored = tt; filed = tt; once = tt; valid_ids = (refl, tt) }

correlate-IsConsistent_example :
    Ends decimal 7 (correlate decimal show_id ratio tidy int16 2500 none 9 10 new store)
unfolding max_index
correlate-IsConsistent_example =
    correlate-IsConsistent decimal show_id ratio tidy int16 2500 none 9 10 new store
      store-IsConsistent

campaign_ids_run_out_example :
    correlate decimal show_id ratio tidy int16 2500 none 9 10 new full_store ≡ err invalid_campaign
unfolding correlate save_fingerprint upsert overwritten assign target_of matches match_all
    match_step list_fingerprints sort_by insert_by get_campaign_for_sample related_of compare
    two_samples reasons_of shares_signer shares_firebase shares_payload overlap intersection to_set
    union jaccard dex_similarity dex_of behavior_of infra_of package_similarity icon_similarity
    weighted_score in_unit minimum maximum at_or_above is_related is_hard_linked next_target
    is_close pick_members open_campaign new_campaign save_campaign add_members add_member
    generate_next_campaign_id max_index told
campaign_ids_run_out_example =
    campaign_ids_run_out decimal show_id ratio tidy int16 2500 none 9 10 new full_store refl refl
      (omega arith)
