-- ===== src/Api.antt =====
-- src/g_one/api.py: the handlers of the control plane.
pub mod Confidential
pub mod Visible
pub mod Replies
pub mod Queries
pub mod Support
pub mod Audit
pub mod Devices
pub mod Roles
pub mod Validation
pub mod Users
pub mod Tokens
pub mod Files
pub mod Deployments
pub mod Bodies
pub mod Download
pub mod Sessions
pub mod Vpn
pub mod Client
pub mod Selects
