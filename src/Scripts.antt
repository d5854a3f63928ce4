-- ===== src/Scripts.antt =====
-- The scripts that set up and run a server.
pub mod EnvFile
pub mod Ensure
pub mod Machine
pub mod Database
pub mod Words
pub mod Sockets
pub mod HostPort
pub mod Docker
pub mod Manage
pub mod Configure
pub mod Setup
