-- ===== src/Verifier.antt =====
-- `HypothesisVerifier` of fraudshield/deceptiscope/verifier.py: what decides the status of a
-- hypothesis, from the evidence and not from the language model that proposed it.
pub mod Types
pub mod Index
pub mod Verdicts
pub mod Verify
pub mod Apply
pub mod Unique
pub mod Confirmation
pub mod Evidence
pub mod Hypotheses
mod Examples
