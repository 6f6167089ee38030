-- ===== src/SecretPlane.antt =====
-- app/secret_plane.py: secrets behind a vault, and leases of their use.
pub mod Data
pub mod Store
pub mod Material
pub mod Plane
pub mod Use
pub mod Later
pub mod Calls
pub mod Uses
pub mod Ended
pub mod Found
pub mod Logs
pub mod Verified
pub mod Issued
