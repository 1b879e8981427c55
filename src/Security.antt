-- ===== src/Security.antt =====
-- kernel/security: capabilities, roles and the audit log.
pub mod Capability
pub mod Rbac
pub mod Audit
