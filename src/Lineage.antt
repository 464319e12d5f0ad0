-- ===== src/Lineage.antt =====
-- The lineage of synthetic markers (fraudshield/deceptiscope/lineage/): the markers, and the
-- evidence that carries them.
pub mod Markers
pub mod Evidence
pub mod Correlate
pub mod Observed
pub mod Complete
pub mod Chains
pub mod Manager
pub mod Examples
