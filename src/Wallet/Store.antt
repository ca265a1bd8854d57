-- ===== src/Wallet/Store.antt =====
-- The tables of the coin economy (entities/wallet.go, with the types, CHECKs and keys that
-- migrations/0001, 0005 and 0007 give their columns). A table with a key that the code looks rows
-- up by is a function; another is a list, newest row first. A write fails as PostgreSQL refuses it.
use web_novel.Common.{
  ℕ, suc, ◌^◌, Bool, false, Option, none, some, List, [], ◌∷◌, ◌==◌, ltb, leb, if◌then◌else◌, ◌&&◌,
  ◌||◌, not, any,
}
use web_novel.Common.Int.{ℤ, pos, pos_part, neg_part, ltb_ℤ}
use web_novel.Common.Text.{Text, text_eq}
use web_novel.Common.Result.{ok, err, ◌>>=◌}
use web_novel.Wallet.Types.{
  Time, not_found, unique_violation, check_violation, out_of_range, LedgerKind, other_kind, kind_eq,
  Balance, Outcome,
}

pub record LedgerRow : Type 0 where
  pub id : ℕ
  pub user_id : ℕ
  pub delta : ℤ
  pub bonus_delta : ℤ
  pub kind : LedgerKind
  pub ref_type : Option Text
  pub ref_id : Option ℕ
  pub balance_after : ℤ
  pub bonus_balance_after : ℤ
  pub reason : Option Text
  pub actor_user_id : Option ℕ
  pub idempotency_key : Option Text
  pub created_at : Time

pub data PurchaseStatus : Type 0 where
  purchase_pending purchase_succeeded purchase_failed purchase_refunded : PurchaseStatus

pub record PurchaseRow : Type 0 where
  pub id : ℕ
  pub user_id : ℕ
  pub pack_id : ℕ
  pub amount_satang : ℤ
  pub status : PurchaseStatus
  pub ledger_id : Option ℕ
  pub completed_at : Option Time

pub record UnlockRow : Type 0 where
  pub user_id : ℕ
  pub chapter_id : ℕ
  pub coins_spent : ℤ
  pub ledger_id : ℕ
  pub unlocked_at : Time

pub data EarningKind : Type 0 where
  earning_unlock earning_tip : EarningKind

pub record EarningRow : Type 0 where
  pub writer_id : ℕ
  pub chapter_id : ℕ
  pub unlock_ledger_id : ℕ
  pub gross_coins : ℤ
  pub net_coins : ℤ
  pub kind : EarningKind
  pub created_at : Time

pub data ChapterStatus : Type 0 where
  chapter_draft chapter_scheduled chapter_published : ChapterStatus

pub record ChapterRow : Type 0 where
  pub id : ℕ
  pub price_coins : ℤ
  pub status : ChapterStatus

pub record Db : Type 0 where
  pub balances : ℕ → Option Balance
  pub ledger : List LedgerRow
  pub next_ledger_id : ℕ
  pub unlocks : List UnlockRow
  pub earnings : List EarningRow
  pub purchases : ℕ → Option PurchaseRow
  pub chapters : ℕ → Option ChapterRow
  -- The time that a row gets where the code gives none.
  pub clock : Time

abbrev pub set_row {ℓ} : {R : Type ℓ} → ℕ → R → (ℕ → Option R) → ℕ → Option R
set_row k r table j = if j == k then some r else table j

-- An INT column, and a SMALLINT one.
unfoldable pub fits_int : ℤ → Bool
fits_int a = ltb (pos_part a) (2 ^ 31) && leb (neg_part a) (2 ^ 31)

unfoldable pub fits_smallint : ℤ → Bool
fits_smallint a = ltb (pos_part a) (2 ^ 15) && leb (neg_part a) (2 ^ 15)

abbrev pub empty_balance : ℕ → Time → Balance
empty_balance user now = record {
  user_id = user;
  balance = pos 0;
  bonus_balance = pos 0;
  bonus_expires_at = none;
  updated_at = now;
}

-- INSERT … ON CONFLICT DO NOTHING
unfoldable pub ensure_balance_row : ℕ → Db → Db
ensure_balance_row user db = elim (db.balances user) [
  | some b ↦ db
  | none ↦ record db { balances = set_row user (empty_balance user db.clock) db.balances }
]

unfoldable pub take_balance : ℕ → Db → Outcome Balance
take_balance user db = elim (db.balances user) [ some b ↦ ok b | none ↦ err not_found ]

abbrev pub has_key : ℕ → Text → LedgerRow → Bool
has_key user key row = elim row.idempotency_key [
  | none ↦ false
  | some k ↦ row.user_id == user && text_eq k key
]

-- UNIQUE (user_id, idempotency_key), where NULLs are distinct.
abbrev pub key_taken : LedgerRow → List LedgerRow → Bool
key_taken row rows = elim row.idempotency_key [
  | none ↦ false
  | some k ↦ any (has_key row.user_id k) rows
]

unfoldable pub create_ledger_row : LedgerRow → Db → Outcome (LedgerRow × Db)
create_ledger_row row db =
    if not (
      fits_int row.delta
      && fits_int row.bonus_delta
      && fits_int row.balance_after
      && fits_int row.bonus_balance_after)
    then err out_of_range
    else if kind_eq row.kind other_kind
    then err check_violation
    else if key_taken row db.ledger
    then err unique_violation
    else let stored = record row { id = db.next_ledger_id } in
      ok (stored, record db { ledger = stored ∷ db.ledger; next_ledger_id = suc db.next_ledger_id })

-- The wallet row of `user` with the columns that a plan's result sets.
abbrev pub updated : ℕ → Balance → Time → Balance
updated user b now = record {
  user_id = user;
  balance = b.balance;
  bonus_balance = b.bonus_balance;
  bonus_expires_at = b.bonus_expires_at;
  updated_at = now;
}

-- UPDATE wallet_balances … WHERE user_id = ?
unfoldable pub update_balance : ℕ → Balance → Time → Db → Outcome Db
update_balance user b now db =
    if not (fits_int b.balance && fits_int b.bonus_balance)
    then err out_of_range
    else if ltb_ℤ b.balance (pos 0) || ltb_ℤ b.bonus_balance (pos 0)
    then err check_violation
    else elim (db.balances user) [
      | none ↦ ok db
      | some old ↦ ok (record db { balances = set_row user (updated user b now) db.balances })
    ]

abbrev pub is_unlock_of : ℕ → ℕ → UnlockRow → Bool
is_unlock_of user chapter row = row.user_id == user && row.chapter_id == chapter

abbrev pub unlocked : ℕ → ℕ → Db → Bool
unlocked user chapter db = any (is_unlock_of user chapter) db.unlocks

-- PRIMARY KEY (user_id, chapter_id)
unfoldable pub create_unlock : UnlockRow → Db → Outcome Db
create_unlock row db =
    if not (fits_smallint row.coins_spent)
    then err out_of_range
    else if unlocked row.user_id row.chapter_id db
    then err unique_violation
    else ok (record db { unlocks = row ∷ db.unlocks })

unfoldable pub create_earning : EarningRow → Db → Outcome Db
create_earning row db =
    if fits_int row.gross_coins && fits_int row.net_coins
    then ok (record db { earnings = row ∷ db.earnings })
    else err out_of_range

-- An INSERT of several rows is one statement: a row that is refused refuses them all.
unfoldable pub create_unlocks : List UnlockRow → Db → Outcome Db
create_unlocks [] db = ok db
create_unlocks (row ∷ rows) db = create_unlock row db >>= create_unlocks rows

unfoldable pub create_earnings : List EarningRow → Db → Outcome Db
create_earnings [] db = ok db
create_earnings (row ∷ rows) db = create_earning row db >>= create_earnings rows
