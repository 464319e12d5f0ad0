-- ===== src/Planner.antt =====
-- `ExperimentPlanner` of fraudshield/deceptiscope/experiments.py: which of the experiments that the
-- language model asks for are taken on.
pub mod Requests
pub mod Accepted
pub mod Accounts
pub mod Plan
pub mod Bounds
mod Examples
