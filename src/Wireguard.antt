-- ===== src/Wireguard.antt =====
-- src/g_one/wireguard.py: validation and rendering for the WireGuard data plane.
pub mod Curve
pub mod Ladder
pub mod Power
pub mod Routes
pub mod Config
pub mod Addresses
pub mod Enabled
