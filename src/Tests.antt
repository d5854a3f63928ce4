-- ===== src/Tests.antt =====
-- Sample values, and the theorems applied to them.
pub mod Samples
mod Serving
mod Handlers
mod Scripts
mod Downloads
mod Migrations
mod Queries
