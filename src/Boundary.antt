-- ===== src/Boundary.antt =====
-- The boundary that an agent acts through: packages/boundary/src/sayfirst_boundary.
pub mod OutcomeLog
pub mod Freshness
pub mod Reader
pub mod GrantStore
