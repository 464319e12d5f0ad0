-- ===== src/Campaigns/Ids.antt =====
-- The ids of new campaigns (generate_next_campaign_id of fraudshield/core/repository.py), and what
-- happens when those with three digits are used up.
use boi.Prelude.Floats.{Floats}
use boi.Prelude.{
  ℕ, ◌+◌, ◌≤◌, ◌<◌, ◌≡◌, refl, String, true, false, Option, none, List, [], ◌∷◌, any, arith, max,
}
use boi.Campaigns.Types.{Fingerprint, CampaignId, camp, family, matches_pattern}
use boi.Campaigns.Store.{
  CampaignRow, Store, invalid_campaign, err, with_id, max_index, generate_next_campaign_id,
  save_fingerprint,
}
use boi.Campaigns.Correlate.{is_close, open_campaign, assign, target_of, related_of, correlate}

other_id :
    (n : ℕ) (cid : CampaignId) (rest : List CampaignRow)
    → elim cid [ camp m ↦ max m (max_index rest) | family m ↦ max_index rest ] < n
    → (boi.Campaigns.Types.same_id cid (camp n) ≡ false) × (max_index rest < n)
other_id n (camp m) rest h = (ground (arith, h), omega (arith, h))
other_id n (family m) rest h = (refl, h)

above_max_index :
    (n : ℕ) (rows : List CampaignRow) → max_index rows < n → any (with_id (camp n)) rows ≡ false
unfolding max_index
above_max_index n [] h = refl
above_max_index n (row ∷ rows) h =
    let (other, rest) = other_id n row.campaign_id rows h in
    rw (other, above_max_index n rows rest) refl

-- The id that is made for a new campaign is that of no campaign, so that saving it overwrites none.
pub next_campaign_id_fresh :
    (s : Store) → any (with_id (generate_next_campaign_id s)) s.campaigns ≡ false
unfolding generate_next_campaign_id
next_campaign_id_fresh s = above_max_index (max_index s.campaigns + 1) s.campaigns (omega arith)

-- Once a campaign has the number 999, a sample that would open a new campaign makes correlate raise,
-- as the id with four digits does not have the pattern of the model: the sample has close related
-- samples, and no target.
pub campaign_ids_run_out :
    (fs : Floats) (show_id : CampaignId → String) (ratio : String → String → fs.Float)
    (tidy : String → String) (int16 : String → Option ℕ) (threshold : fs.Float)
    (analysis_id : Option String) (now later : ℕ) (sample : Fingerprint) (s : Store)
    → target_of fs ratio tidy int16 threshold (save_fingerprint analysis_id now sample s) sample
      ≡ none
    → any (is_close fs) (
        related_of fs ratio tidy int16 threshold (save_fingerprint analysis_id now sample s) sample)
      ≡ true
    → 999 ≤ max_index s.campaigns
    → correlate fs show_id ratio tidy int16 threshold analysis_id now later sample s
      ≡ err invalid_campaign
unfolding correlate assign open_campaign generate_next_campaign_id save_fingerprint
campaign_ids_run_out fs show_id ratio tidy int16 threshold analysis_id now later sample s alone near
      h =
    let over : matches_pattern (camp (max_index s.campaigns + 1)) ≡ false = ground arith in
    rw (alone, near, over) refl
