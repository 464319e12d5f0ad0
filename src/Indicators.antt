-- ===== src/Indicators.antt =====
-- Indicators and their sightings (IndicatorRepository of fraudshield/core/repository.py).
pub mod Normalize
pub mod Store
pub mod Counts
pub mod Upsert
pub mod Merge
pub mod Examples
