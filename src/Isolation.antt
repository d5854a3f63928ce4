-- ===== src/Isolation.antt =====
-- Tenant isolation of the handlers of src/g_one/api.py, one module for each group of handlers.
pub mod Rules
pub mod Accounts
pub mod Services
pub mod Network
