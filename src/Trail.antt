-- ===== src/Trail.antt =====
-- The audit trail of the handlers of src/g_one/api.py.
pub mod Rules
pub mod Parts
pub mod Accounts
pub mod Services
