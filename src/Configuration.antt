-- ===== src/Configuration.antt =====
-- The settings of the service (fraudshield/core/config.py) and their validation.
pub mod Settings
pub mod Checks
pub mod Validate
pub mod Hardened
pub mod Keyring
mod Examples
