-- ===== src/Security.antt =====
-- kernel/security: the audit log, the limiter of failed logins, the entropy pool and the policy on
-- writable and executable mappings. The spinlocks make each operation atomic and are left out.
pub mod Audit
pub mod RateLimit
pub mod Policy
