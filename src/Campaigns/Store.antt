-- ===== src/Campaigns/Store.antt =====
-- FraudDNARepository (fraudshield/core/repository.py): its three tables as lists of rows, each in
-- the order in which its rows were inserted. Times are microseconds. The column `analysis_id` is
-- taken to name a row of the table `analyses`.
use boi.Prelude.Sorting.{sort_by}
use boi.Prelude.{
  ℕ, ◌+◌, String, Bool, ◌&&◌, ◌||◌, not, Option, none, some, List, [], ◌∷◌, ◌++◌, ◌==◌, string_eq,
  max, ltb, any, keep, map, if◌then◌else◌,
}
use boi.Prelude.Rows.{select, upsert}
use boi.Campaigns.Types.{Fingerprint, CampaignId, camp, family, same_id, Campaign}

-- A row of `frauddna_fingerprints`.
pub record Stored : Type 0 where
  pub fingerprint : Fingerprint
  pub analysis_id : Option String
  pub created_at : ℕ
  pub updated_at : ℕ

-- A row of `campaigns`.
pub record CampaignRow : Type 0 where
  pub campaign_id : CampaignId
  pub name : String
  pub primary_signatures : List String
  pub shared_infrastructure : List String
  pub shared_firebase_projects : List String
  pub shared_signer_fingerprints : List String
  pub created_at : ℕ
  pub updated_at : ℕ

-- A row of `campaign_members`.
pub record Member : Type 0 where
  pub campaign_id : CampaignId
  pub apk_sha256 : String
  pub joined_at : ℕ

pub record Store : Type 0 where
  pub fingerprints : List Stored
  pub campaigns : List CampaignRow
  pub members : List Member

-- The IntegrityError of a foreign key, and the ValidationError of a campaign's id.
pub data Error : Type 0 where
  integrity invalid_campaign : Error

pub data Result (A : Type 0) : Type 0 where
  ok : A → Result A
  err : Error → Result A

infixl 5 ◌>>=◌
abbrev pub ◌>>=◌ : {A B : Type 0} → Result A → (A → Result B) → Result B
ok a >>= f = f a
err e >>= f = err e

abbrev pub has_sha : String → Stored → Bool
has_sha sha row = row.fingerprint.apk_sha256 == sha

abbrev pub coalesce {ℓ} : {A : Type ℓ} → Option A → Option A → Option A
coalesce none old = old
coalesce (some a) old = some a

-- What `ON CONFLICT (apk_sha256) DO UPDATE SET` leaves of a row.
unfoldable pub overwritten : Option String → ℕ → Fingerprint → Stored → Stored
overwritten analysis_id now fp row = record row {
  fingerprint = fp;
  analysis_id = coalesce analysis_id row.analysis_id;
  updated_at = now;
}

unfoldable pub save_fingerprint : Option String → ℕ → Fingerprint → Store → Store
save_fingerprint analysis_id now fp s = record s {
  fingerprints =
      upsert (has_sha fp.apk_sha256) (overwritten analysis_id now fp)
        (record { fingerprint = fp; analysis_id = analysis_id; created_at = now; updated_at = now })
        s.fingerprints;
}

abbrev pub fingerprint_of : Option Stored → Option Fingerprint
fingerprint_of none = none
fingerprint_of (some row) = some row.fingerprint

unfoldable pub get_fingerprint : String → Store → Option Fingerprint
get_fingerprint sha s = fingerprint_of (select (has_sha sha) s.fingerprints)

-- `ORDER BY created_at ASC`, rows of one instant in the order of their insertion.
abbrev pub later_row : Stored → Stored → Bool
later_row a b = ltb b.created_at a.created_at

-- `list_fingerprints`: an empty text excludes nothing.
unfoldable pub list_fingerprints : Option String → Store → List Fingerprint
list_fingerprints none s = map (λ row. row.fingerprint) (sort_by later_row s.fingerprints)
list_fingerprints (some sha) s =
    map (λ row. row.fingerprint)
      (sort_by later_row (keep (λ row. sha == "" || not (has_sha sha row)) s.fingerprints))

abbrev pub with_id : CampaignId → CampaignRow → Bool
with_id cid row = same_id row.campaign_id cid

abbrev pub in_campaign : CampaignId → Member → Bool
in_campaign cid m = same_id m.campaign_id cid

abbrev pub is_member : CampaignId → String → Member → Bool
is_member cid sha m = in_campaign cid m && m.apk_sha256 == sha

-- `INSERT INTO campaign_members ... ON CONFLICT DO NOTHING`, under the foreign key to the
-- fingerprints.
unfoldable pub add_member :
    List Stored → CampaignId → ℕ → String → List Member → Result (List Member)
add_member stored cid now sha ms =
    if any (is_member cid sha) ms
    then ok ms
    else if any (has_sha sha) stored
    then ok (ms ++ (record { campaign_id = cid; apk_sha256 = sha; joined_at = now } ∷ []))
    else err integrity

unfoldable pub add_members :
    List Stored → CampaignId → ℕ → List String → List Member → Result (List Member)
add_members stored cid now [] ms = ok ms
add_members stored cid now (sha ∷ shas) ms =
    add_member stored cid now sha ms >>= add_members stored cid now shas

abbrev pub or_now : Option ℕ → ℕ → ℕ
or_now none now = now
or_now (some t) now = t

abbrev pub row_of : ℕ → Campaign → CampaignRow
row_of now c = record {
  campaign_id = c.campaign_id;
  name = c.name;
  primary_signatures = c.primary_signatures;
  shared_infrastructure = c.shared_infrastructure;
  shared_firebase_projects = c.shared_firebase_projects;
  shared_signer_fingerprints = c.shared_signer_fingerprints;
  created_at = or_now c.created_at now;
  updated_at = now;
}

-- `ON CONFLICT (campaign_id) DO UPDATE SET`
unfoldable pub rewritten : ℕ → Campaign → CampaignRow → CampaignRow
rewritten now c row = record (row_of now c) { created_at = row.created_at }

unfoldable pub save_campaign : ℕ → Campaign → Store → Result Store
save_campaign now c s =
    add_members s.fingerprints c.campaign_id now c.member_sha256s s.members >>= λ members.
    ok (record s {
      campaigns = upsert (with_id c.campaign_id) (rewritten now c) (row_of now c) s.campaigns;
      members = members;
    })

-- `ORDER BY joined_at ASC`
abbrev pub later_member : Member → Member → Bool
later_member a b = ltb b.joined_at a.joined_at

unfoldable pub members_of : CampaignId → Store → List String
members_of cid s = map (λ m. m.apk_sha256) (sort_by later_member (keep (in_campaign cid) s.members))

-- `_campaign_from_row`
abbrev pub campaign_from_row : Store → CampaignRow → Campaign
campaign_from_row s row = record {
  campaign_id = row.campaign_id;
  name = row.name;
  member_sha256s = members_of row.campaign_id s;
  primary_signatures = row.primary_signatures;
  shared_infrastructure = row.shared_infrastructure;
  shared_firebase_projects = row.shared_firebase_projects;
  shared_signer_fingerprints = row.shared_signer_fingerprints;
  created_at = some row.created_at;
}

abbrev pub from_row : Store → Option CampaignRow → Option Campaign
from_row s none = none
from_row s (some row) = some (campaign_from_row s row)

unfoldable pub get_campaign : CampaignId → Store → Option Campaign
get_campaign cid s = from_row s (select (with_id cid) s.campaigns)

abbrev pub campaign_of : Store → Option Member → Option Campaign
campaign_of s none = none
campaign_of s (some m) = get_campaign m.campaign_id s

unfoldable pub get_campaign_for_sample : String → Store → Option Campaign
get_campaign_for_sample sha s = campaign_of s (select (λ m. m.apk_sha256 == sha) s.members)

-- `ORDER BY created_at DESC`
abbrev pub earlier_campaign : CampaignRow → CampaignRow → Bool
earlier_campaign a b = ltb a.created_at b.created_at

unfoldable pub list_campaigns : Store → List Campaign
list_campaigns s = map (campaign_from_row s) (sort_by earlier_campaign s.campaigns)

-- The loop over the ids "CAMP-...", with its maximum.
unfoldable pub max_index : List CampaignRow → ℕ
max_index [] = 0
max_index (row ∷ rows) = elim row.campaign_id [
  | camp n ↦ max n (max_index rows)
  | family n ↦ max_index rows
]

unfoldable pub generate_next_campaign_id : Store → CampaignId
generate_next_campaign_id s = camp (max_index s.campaigns + 1)
