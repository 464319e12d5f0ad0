-- ===== src/Delta.antt =====
-- The fraud delta: how far an app is from what is usual in its category
-- (fraudshield/deceptiscope/fraud_delta.py).
pub mod Calculate
pub mod Explained
pub mod Examples
