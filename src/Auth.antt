-- ===== src/Auth.antt =====
-- apps/api-nest/src/auth: who calls, for which tenant, and with which role.
mod Tests
pub mod Settings
pub mod Roles
pub mod Token
pub mod Service
pub mod Guards
