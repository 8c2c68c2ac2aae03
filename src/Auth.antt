-- ===== src/Auth.antt =====
-- Who may use the service (api/src/auth/).
pub mod Cidr
pub mod Widths
pub mod Networks
pub mod Dotted
pub mod Records
pub mod Login
pub mod Authenticate
pub mod Csrf
pub mod Entitled
pub mod Admitted
pub mod Failures
pub mod Throttle
pub mod History
pub mod Sound
pub mod Sessions
pub mod Issued
pub mod Revoked
pub mod Mutations
mod Tests
