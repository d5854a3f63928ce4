-- ===== src/Migrations.antt =====
-- The migrations of src/g_one/alembic/versions, from the tables of the models to the current schema.
pub mod Tables
pub mod Alembic
pub mod Running
pub mod Foundation
pub mod Vpn
pub mod Accounts
pub mod Policy
pub mod Bootstrap
pub mod Distribution
pub mod Delivery
pub mod Versions
pub mod Schema
pub mod Outcome
pub mod Metadata
pub mod Compare
pub mod Roundtrip
pub mod Takeover
