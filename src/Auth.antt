-- ===== src/Auth.antt =====
-- Sessions of the administrator and the guard in front of the routes: dayshield-core/src/auth.
-- The crates jsonwebtoken (`Jwt`) and axum (a `Request`, a `Reply`) are not part of the code.
pub mod Session
pub mod Paths
pub mod Extraction
pub mod Guard
mod Tests
