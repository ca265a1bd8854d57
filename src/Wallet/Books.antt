-- ===== src/Wallet/Books.antt =====
-- What it means that the books balance: for every user the ledger rows add up to the wallet row,
-- and every ledger row states the running total that it leaves (domain/wallet/spend.go, Plan).
pub mod Plans
pub mod Writes
pub mod Totals
pub mod Keys
pub mod Histories
use web_novel.Common.{
  ℕ, ◌≡◌, Bool, true, false, Option, none, some, List, [], ◌∷◌, ◌==◌, if◌then◌else◌,
}
use web_novel.Common.Int.{ℤ, pos, ◌+ℤ◌}
use web_novel.Wallet.Types.{Balance, Command}
use web_novel.Wallet.Spend.Totals.{IsSound}
use web_novel.Wallet.Store.{LedgerRow, Db}
use web_novel.Wallet.Apply.{apply}

-- `sum(delta)` and `sum(bonus_delta)` over the rows of one user.
abbrev pub sum_delta : ℕ → List LedgerRow → ℤ
sum_delta u [] = pos 0
sum_delta u (row ∷ rows) =
    let rest = sum_delta u rows in if row.user_id == u then rest +ℤ row.delta else rest

abbrev pub sum_bonus : ℕ → List LedgerRow → ℤ
sum_bonus u [] = pos 0
sum_bonus u (row ∷ rows) =
    let rest = sum_bonus u rows in if row.user_id == u then rest +ℤ row.bonus_delta else rest

-- Every row states the totals that it leaves.
abbrev pub IsRunning : List LedgerRow → Type 0
IsRunning [] = Unit
IsRunning (row ∷ rows) =
    (row.balance_after ≡ sum_delta row.user_id rows +ℤ row.delta)
    × (row.bonus_balance_after ≡ sum_bonus row.user_id rows +ℤ row.bonus_delta)
    × IsRunning rows

-- One wallet against the rows of its user; a user with no wallet has none.
abbrev pub WalletMatches : ℕ → Option Balance → List LedgerRow → Type 0
WalletMatches u none rows = (sum_delta u rows ≡ pos 0) × (sum_bonus u rows ≡ pos 0)
WalletMatches u (some b) rows =
    IsSound b × (b.balance ≡ sum_delta u rows) × (b.bonus_balance ≡ sum_bonus u rows)

pub record IsReconciled (db : Db) : Type 0 where
  pub wallets : (u : ℕ) → WalletMatches u (db.balances u) db.ledger
  pub running : IsRunning db.ledger

-- Any commands at all, one after the other; the result of each is passed over.
unfoldable pub run : List Command → Db → Db
run [] db = db
run (cmd ∷ cmds) db = run cmds (apply cmd db).1
