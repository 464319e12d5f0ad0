-- ===== src/Payloads.antt =====
-- The payloads that a package loads while it runs, and what of them is analysed further
-- (fraudshield/deceptiscope/payloads/).
pub mod Recovery
pub mod Handed
pub mod Bounded
mod Examples
