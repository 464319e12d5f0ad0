-- ===== src/Archive.antt =====
-- The check of an uploaded package: `validate_apk_archive` of
-- fraudshield/deceptiscope/validator.py.
pub mod Validate
pub mod Names
pub mod Acceptance
mod Examples
