-- ===== src/Analyses.antt =====
-- The analyses (AnalysisRepository of fraudshield/core/repository.py), and the cleanup of synthetic
-- records with their indicators.
pub mod Store
pub mod Lifecycle
pub mod Latest
pub mod Cleanup
pub mod Examples
