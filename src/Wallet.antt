-- ===== src/Wallet.antt =====
-- The coin economy: backend/internal/domain/wallet, repository/wallet and service/wallet.
pub mod Types
pub mod Spend
pub mod Bundle
pub mod Store
pub mod Apply
pub mod Books
pub mod Once
pub mod Service
