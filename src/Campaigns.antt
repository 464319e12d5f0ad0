-- ===== src/Campaigns.antt =====
-- Fraud DNA: fingerprints of the samples, how alike two of them are, and the campaigns that samples
-- are put in (fraudshield/deceptiscope/frauddna/ and FraudDNARepository of
-- fraudshield/core/repository.py).
pub mod Types
pub mod Icons
pub mod Similarity
pub mod Store
pub mod Refines
pub mod Weights
pub mod Correlate
pub mod Links
pub mod Anchors
pub mod Keys
pub mod Examples
pub mod Ids
pub mod Integrity
