-- ===== src/Wallet/Once.antt =====
-- A request takes effect once: a repeated key replays its receipt, a key that is used for something
-- else is refused, and a chapter is paid for once (I-COIN-02, I-COIN-07 in the documents).
pub mod Growth
pub mod Applied
pub mod Targets
pub mod Remembered
pub mod Replays
pub mod Unlocks
use web_novel.Common.{ℕ, ◌≡◌, Bool, true, Option, none, some, is_some}
use web_novel.Common.Text.{Text}
use web_novel.Wallet.Types.{Command}
use web_novel.Wallet.Store.{LedgerRow, Db, unlocked}
use web_novel.Wallet.Apply.Rows.{find_by_key}

-- Nothing that was written is taken back: a key finds the row that it found, a wallet stays, and an
-- unlocked chapter stays unlocked.
pub record Extends (db db' : Db) : Type 0 where
  pub keys :
      (u : ℕ) (key : Text) (row : LedgerRow)
      → find_by_key u key db ≡ some row
      → find_by_key u key db' ≡ some row
  pub wallets : (u : ℕ) → is_some (db.balances u) ≡ true → is_some (db'.balances u) ≡ true
  pub unlocks : (u c : ℕ) → unlocked u c db ≡ true → unlocked u c db' ≡ true

-- Two commands that ask one user's wallet for one operation under one key.
pub record SameRequest (cmd cmd' : Command) : Type 0 where
  pub same_user : cmd'.user_id ≡ cmd.user_id
  pub same_key : cmd'.idempotency_key ≡ cmd.idempotency_key
  pub same_kind : cmd'.op.kind ≡ cmd.op.kind
  pub same_ref_type : cmd'.op.ref_type ≡ cmd.op.ref_type
  pub same_ref_id : cmd'.op.ref_id ≡ cmd.op.ref_id
