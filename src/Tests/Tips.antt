-- ===== src/Tests/Tips.antt =====
-- A reader with 50 coins tips 5 to the translator of a chapter.
use web_novel.Common.{◌≡◌, refl, none, some, false}
use web_novel.Common.Int.{pos, negsuc, -ℤ◌, ◌+ℤ◌, ◌-ℤ◌, ◌≤ℤ◌, ◌*ℤ◌}
use web_novel.Common.Word.{int64, int16, add64, sub64, mul64, neg64, div64, rem64}
use web_novel.Common.Text.{codes}
use web_novel.Common.Result.{ok}
use web_novel.Wallet.Types.{Receipt, plan_entry, tip}
use web_novel.Wallet.Spend.{new_balance, plan_spend_paid_only, plan_adjust}
use web_novel.Wallet.Bundle.{net_coins}
use web_novel.Wallet.Store.{
  Db, ensure_balance_row, take_balance, create_ledger_row, update_balance, create_earning, fits_int,
}
use web_novel.Wallet.Apply.Rows.{to_ledger_row, to_domain_ledger, find_replay}
use web_novel.Wallet.Apply.Checks.{check_child_preconditions, plan_for}
use web_novel.Wallet.Apply.Children.{write_child, check_allocated}
use web_novel.Wallet.Apply.{
  write_expiry, settle, write_main, apply_new, replay_of, apply_locked, apply,
}
use web_novel.Wallet.Service.{namespaced, validate_tip, tip_chapter_command, tip_chapter}
use web_novel.Wallet.Service.Tips.{tip_chapter_paid}
use web_novel.Tests.Histories.{granted}
use web_novel.Tests.Service.{settings, repo}

abbrev tip_receipt : Receipt
tip_receipt = record {
  ledger = record (plan_entry 7 (negsuc 4) (pos 0) tip (pos 45) (pos 0) (pos 20)) {
    id = 2;
    ref_type = codes "chapter_tip";
    ref_id = some 5;
    idempotency_key = codes "tip:k";
  };
  expiry_ledger = none;
  balance = new_balance 7 (pos 45) (pos 0) none (pos 20);
  replayed = false;
}

abbrev tipped : Db
tipped = (tip_chapter settings repo 7 5 (pos 5) (codes "k") (pos 20) granted).1

tip_succeeds :
    tip_chapter settings repo 7 5 (pos 5) (codes "k") (pos 20) granted ≡ (ok tip_receipt, tipped)
unfolding tip_chapter tip_chapter_command validate_tip namespaced net_coins add64 sub64 mul64 div64
    rem64 neg64 int64 int16 ◌+ℤ◌ -ℤ◌ ◌-ℤ◌ ◌*ℤ◌ apply apply_locked ensure_balance_row take_balance
    replay_of find_replay apply_new check_child_preconditions plan_for plan_spend_paid_only
    plan_adjust write_expiry write_main create_ledger_row settle update_balance write_child
    check_allocated create_earning to_ledger_row to_domain_ledger fits_int
tip_succeeds = refl

tip_chapter_paid_example :
    (pos 1 ≤ℤ pos 5)
    × (pos 5 ≤ℤ pos 1000)
    × (negsuc 4 ≡ -ℤ◌ (pos 5))
    × (pos 0 ≡ pos 0)
    × (tip_receipt.ledger.user_id ≡ 7)
tip_chapter_paid_example =
    tip_chapter_paid settings repo 7 5 (pos 5) (codes "k") (pos 20) granted tipped tip_receipt
      tip_succeeds refl
