-- ===== src/Identity.antt =====
-- Accounts and sessions: backend/internal/domain/identity, service/identity, repository/identity.
pub mod Types
pub mod Sessions
pub mod Service
pub mod Genres
