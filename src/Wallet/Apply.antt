-- ===== src/Wallet/Apply.antt =====
-- The single coin write path (repository/wallet/apply.go). The transaction is a function from the
-- tables to a result and the new tables; an error leaves the tables as they were. The lock on the
-- wallet row makes the operations of one user one after the other, so a history is a sequence.
pub mod Rows
pub mod Checks
pub mod Children
use web_novel.Common.{
  ℕ, Bool, true, false, Option, none, some, List, [], ◌∷◌, ◌==◌, map, if◌then◌else◌, ◌&&◌, ◌||◌,
  not, find?, any, is_some,
}
use web_novel.Common.Int.{ℤ, pos, eqb_ℤ}
use web_novel.Common.Word.{add64, neg64, int16}
use web_novel.Common.Text.{Text, text_eq, is_empty}
use web_novel.Common.Result.{Result, ok, err, ◌>>=◌, ◌>>◌, fail_if}
use web_novel.Wallet.Types.{
  Time, Error, not_found, invalid_amount, already_unlocked, arc_already_owned, bundle_stale,
  purchase_not_pending, idempotency_conflict, unique_violation, LedgerKind, topup, spend_unlock,
  refund, bonus_grant, bonus_expire, adjust, tip, other_kind, kind_eq, Balance, LedgerEntry, Plan,
  ChildKind, child_none, child_chapter_unlock, child_purchase_complete, child_arc_bundle, child_tip,
  ChildItem, Command, Receipt, Outcome,
}
use web_novel.Wallet.Spend.{
  plan_spend, plan_spend_paid_only, plan_credit, plan_adjust, plan_bonus_expiry,
}
use web_novel.Wallet.Bundle.{sum64}
use web_novel.Wallet.Store.{
  LedgerRow, PurchaseRow, PurchaseStatus, purchase_pending, purchase_succeeded, purchase_failed,
  purchase_refunded, UnlockRow, EarningRow, earning_unlock, earning_tip, ChapterRow, ChapterStatus,
  chapter_draft, chapter_scheduled, chapter_published, Db, set_row, ensure_balance_row,
  take_balance, has_key, create_ledger_row, update_balance, unlocked, create_unlock, create_unlocks,
  create_earning, create_earnings,
}
use web_novel.Wallet.Apply.Rows.{
  nullable, deref, to_ledger_row, to_domain_ledger, same_ref, same_target, replay_receipt,
  find_by_key, find_replay, replay_by_key,
}
use web_novel.Wallet.Apply.Checks.{
  is_pending, is_published, is_current, distinct_items, all_current, any_owned, is_nil,
  check_child_preconditions, with_kind, plan_for,
}
use web_novel.Wallet.Apply.Children.{
  spent, on_unique, item_unlock, item_earnings, write_child, is_bundle, item_coins, check_allocated,
}

-- The write-off row, if the plan has one.
unfoldable pub write_expiry : Command → Option LedgerEntry → Db → Outcome (Option LedgerEntry × Db)
write_expiry cmd none db = ok (none, db)
write_expiry cmd (some e) db =
    create_ledger_row (to_ledger_row cmd e []) db >>= λ w. ok (some (to_domain_ledger w.0), w.1)

-- The balance, the check of the bundle, the child rows and the receipt.
unfoldable pub settle :
    Command → Plan → Option LedgerEntry → LedgerRow → Db → Outcome (Receipt × Db)
settle cmd plan expiry main db = update_balance cmd.user_id plan.result cmd.now db >>= λ db'.
    check_allocated cmd plan.entry
    >> (write_child cmd main.id plan.entry db' >>= λ db''. ok (
      record {
        ledger = to_domain_ledger main;
        expiry_ledger = expiry;
        balance = plan.result;
        replayed = false;
      },
      db'',
    ))

-- A duplicate key at the main row is answered by its replay, if there is one.
abbrev pub on_duplicate : Command → Db → Error → Outcome (Receipt × Db)
on_duplicate cmd db unique_violation = find_replay cmd db >>= λ replay. elim replay [
  | some r ↦ ok (r, db)
  | none ↦ err unique_violation
]
on_duplicate cmd db e = err e

unfoldable pub write_main : Command → Plan → Option LedgerEntry → Db → Outcome (Receipt × Db)
write_main cmd plan expiry db =
    elim (create_ledger_row (to_ledger_row cmd plan.entry cmd.idempotency_key) db) [
      | ok (main, db') ↦ settle cmd plan expiry main db'
      | err e ↦ on_duplicate cmd db e
    ]

-- What follows once the key is known to be new.
unfoldable pub apply_new : Command → Balance → Db → Outcome (Receipt × Db)
apply_new cmd current db =
    check_child_preconditions cmd db
    >> (plan_for current cmd >>= λ plan.
        write_expiry cmd plan.expiry db >>= λ w. write_main cmd plan w.0 w.1)

unfoldable pub replay_of : Command → Db → Outcome (Option Receipt)
replay_of cmd db = if is_empty cmd.idempotency_key then ok none else find_replay cmd db

unfoldable pub apply_locked : Command → Db → Outcome (Receipt × Db)
apply_locked cmd db = take_balance cmd.user_id db >>= λ current. replay_of cmd db >>= λ replay.
    elim replay [ some r ↦ ok (r, db) | none ↦ apply_new cmd current db ]

unfoldable pub apply : Command → Db → Outcome Receipt × Db
apply cmd db = elim (apply_locked cmd (ensure_balance_row cmd.user_id db)) [
  | ok (r, db') ↦ (ok r, db')
  | err e ↦ (err e, db)
]
