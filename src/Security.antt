-- ===== src/Security.antt =====
-- Authentication and authorisation (fraudshield/core/security.py): who a request comes from, which
-- permission it needs, and whether its sender's roles grant it.
pub mod Roles
pub mod Requests
pub mod Grants
pub mod Tokens
mod Examples
