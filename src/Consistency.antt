-- ===== src/Consistency.antt =====
-- Invariants that every write keeps, under the handlers of src/g_one/api.py.
pub mod Writes
pub mod Accounts
pub mod Services
pub mod Network
