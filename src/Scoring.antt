-- ===== src/Scoring.antt =====
-- The deterministic risk model `apk-risk-2026.5` (fraudshield/deceptiscope/scoring.py): the types,
-- the static rules, the runtime rules, the evidence of external engines, and the calculation; and
-- what is proved of them.
pub mod Types
pub mod Rules
pub mod Static
pub mod Engines
pub mod Runtime
pub mod Calculate
pub mod Accounting
pub mod Bounds
pub mod Order
pub mod Caps
pub mod Trust
mod Examples
