-- ===== src/Writer.antt =====
-- The translator's workspace: backend/internal/domain/writer, service/writer, repository/writer, and the
-- scheduler of backend/internal/jobs.
pub mod Types
pub mod Rules
pub mod Store
pub mod Prune
pub mod Publish
pub mod Rerender
pub mod Studio
pub mod History
