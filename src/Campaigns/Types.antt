-- ===== src/Campaigns/Types.antt =====
-- The records of Fraud DNA (fraudshield/deceptiscope/frauddna/models.py).
use boi.Prelude.Floats.{Floats}
use boi.Prelude.{ℕ, String, Bool, false, Option, List, ◌==◌, nat_eq, leb}

-- A `FraudDNAFingerprint`; its metadata are the text that `dumps` writes.
pub record Fingerprint : Type 0 where
  pub apk_sha256 : String
  pub app_identity : String
  pub package_name : String
  pub app_label : String
  pub signer_fingerprints : List String
  pub icon_phash : Option String
  pub dex_fingerprints : List String
  pub dex_fuzzy_hash : Option String
  pub behavior_signatures : List String
  pub permissions : List String
  pub banking_capabilities : List String
  pub domains : List String
  pub urls : List String
  pub ips : List String
  pub firebase_project_ids : List String
  pub recovered_payload_hashes : List String
  pub metadata : String

-- The text "CAMP-" or "F-" with a number of three digits, or of more where it needs them.
pub data CampaignId : Type 0 where
  camp : ℕ → CampaignId
  family : ℕ → CampaignId

abbrev pub same_id : CampaignId → CampaignId → Bool
same_id (camp a) (camp b) = a == b
same_id (family a) (family b) = a == b
same_id _ _ = false

-- The field's pattern `^(CAMP-\d{3}|F-\d{3})$`.
abbrev pub matches_pattern : CampaignId → Bool
matches_pattern (camp n) = leb n 999
matches_pattern (family n) = leb n 999

-- A `Campaign`.
pub record Campaign : Type 0 where
  pub campaign_id : CampaignId
  pub name : String
  pub member_sha256s : List String
  pub primary_signatures : List String
  pub shared_infrastructure : List String
  pub shared_firebase_projects : List String
  pub shared_signer_fingerprints : List String
  pub created_at : Option ℕ

module _ (fs : Floats) where
  open fs use {Float}

  -- The reasons, each with the share that it prints as `int(share * 100)`.
  pub data Reason : Type 0 where
    identical_sample same_signer shared_infrastructure same_firebase same_payload : Reason
    package_share dex_share behavior_share icon_share : Float → Reason

  -- A `ComponentSimilarity`.
  pub record Similarity : Type 0 where
    pub signer_match : Bool
    pub package_similarity : Float
    pub dex_similarity : Option Float
    pub behavior_similarity : Float
    pub icon_similarity : Option Float
    pub infrastructure_overlap : Float
    pub firebase_overlap : Bool
    pub payload_overlap : Bool
    pub overall_similarity : Float
    pub match_reasons : List Reason

  -- A `RelatedSample`.
  pub record Related : Type 0 where
    pub sha256 : String
    pub similarity : Float
    pub reasons : List Reason
    pub campaign_id : Option CampaignId
    pub app_label : String
    pub package_name : String
