-- ===== src/Tests/Histories.antt =====
-- A history on the tables of a platform with one chapter: a reader is granted 50 coins and unlocks
-- the chapter for 12.
use web_novel.Common.{
  ℕ, ◌≡◌, ◌≢◌, refl, none, some, [], ◌∷◌, arith, Option, true, false, inr, ◌==◌, if◌then◌else◌,
}
use web_novel.Common.Int.{ℤ, pos, negsuc, ◌+ℤ◌, ◌-ℤ◌, -ℤ◌}
use web_novel.Common.Word.{int64, int16, add64, sub64, neg64}
use web_novel.Common.Text.{Text}
use web_novel.Common.Result.{ok, err}
use web_novel.Wallet.Types.{
  Balance, Command, plan_entry, Operation, Receipt, ChildKind, ChildWrite, child_none,
  child_chapter_unlock, child_arc_bundle, LedgerKind, spend_unlock, adjust, idempotency_conflict,
}
use web_novel.Wallet.Spend.{new_balance, plan_spend, plan_adjust}
use web_novel.Wallet.Store.{
  Db, chapter_published, ensure_balance_row, take_balance, create_ledger_row, update_balance,
  create_unlock, create_earning, fits_int, fits_smallint,
}
use web_novel.Wallet.Apply.Rows.{to_ledger_row, to_domain_ledger, find_replay, same_target}
use web_novel.Wallet.Apply.Checks.{check_child_preconditions, plan_for}
use web_novel.Wallet.Apply.Children.{write_child, check_allocated}
use web_novel.Wallet.Apply.{
  write_expiry, settle, write_main, apply_new, replay_of, apply_locked, apply,
}
use web_novel.Wallet.Books.{IsReconciled, run}
use web_novel.Wallet.Books.Histories.{run-IsReconciled}
use web_novel.Wallet.Once.{SameRequest}
use web_novel.Wallet.Once.Replays.{apply_replays, apply_conflict}
use web_novel.Wallet.Once.Unlocks.{apply_unlock_once}

abbrev pub platform : Db
platform = record {
  balances = λ u. none;
  ledger = [];
  next_ledger_id = 1;
  unlocks = [];
  earnings = [];
  purchases = λ p. none;
  chapters = λ c.
      if c == 5
      then some (record { id = 5; price_coins = pos 12; status = chapter_published })
      else none;
  clock = pos 0;
}

abbrev nothing_written : ChildKind → ChildWrite
nothing_written kind = record {
  kind = kind;
  chapter_id = 5;
  purchase_id = 0;
  writer_id = 9;
  net_coins = pos 8;
  items = [];
}

abbrev asks : LedgerKind → ℤ → ℤ → Option ℕ → Operation
asks kind amount delta ref = record {
  kind = kind;
  amount = amount;
  coins = pos 0;
  bonus_coins = pos 0;
  bonus_ttl = pos 0;
  delta = delta;
  bonus_delta = pos 0;
  ref_type = 99 ∷ [];
  ref_id = ref;
}

abbrev command : Text → Operation → ChildWrite → Command
command key op child = record {
  user_id = 7;
  idempotency_key = key;
  now = pos 10;
  op = op;
  child = child;
  actor_user_id = none;
  reason = [];
}

-- 50 coins from an administrator, the unlock of chapter 5 under the key "k", and the unlock of
-- chapter 6 under the key of chapter 5.
abbrev pub grant : Command
grant = command [] (asks adjust (pos 0) (pos 50) none) (nothing_written child_none)

abbrev unlock : Command
unlock =
    command (107 ∷ []) (asks spend_unlock (pos 12) (pos 0) (some 5))
      (nothing_written child_chapter_unlock)

-- A bundle whose items include chapter 5.
abbrev bundle_again : Command
bundle_again =
    command [] (asks spend_unlock (pos 12) (pos 0) (some 5))
      (record (nothing_written child_arc_bundle) {
        items =
            record {
              chapter_id = 5;
              list_price = pos 12;
              coins = pos 12;
              writer_id = 9;
              net_coins = pos 8;
            }
            ∷ [];
      })

abbrev unlock_other : Command
unlock_other =
    command (107 ∷ []) (asks spend_unlock (pos 12) (pos 0) (some 6))
      (nothing_written child_chapter_unlock)

pub platform-IsReconciled : IsReconciled platform
platform-IsReconciled = record { wallets = λ u. (refl, refl); running = tt }

run-IsReconciled_example : IsReconciled (run (grant ∷ unlock ∷ unlock_other ∷ []) platform)
run-IsReconciled_example =
    run-IsReconciled (grant ∷ unlock ∷ unlock_other ∷ []) platform platform-IsReconciled

-- The tables after the grant, and what the unlock does to them.
abbrev pub granted : Db
granted = (apply grant platform).1

abbrev unlock_receipt : Receipt
unlock_receipt = record {
  ledger = record (plan_entry 7 (negsuc 11) (pos 0) spend_unlock (pos 38) (pos 0) (pos 10)) {
    id = 2;
    ref_type = 99 ∷ [];
    ref_id = some 5;
    idempotency_key = 107 ∷ [];
  };
  expiry_ledger = none;
  balance = new_balance 7 (pos 38) (pos 0) none (pos 10);
  replayed = false;
}

abbrev unlocked_db : Db
unlocked_db = (apply unlock granted).1

unlock_succeeds : apply unlock granted ≡ (ok unlock_receipt, unlocked_db)
unfolding apply apply_locked ensure_balance_row take_balance replay_of find_replay apply_new
    check_child_preconditions plan_for plan_spend plan_adjust write_expiry write_main
    create_ledger_row settle update_balance write_child check_allocated create_unlock create_earning
    to_ledger_row to_domain_ledger same_target fits_int fits_smallint add64 sub64 neg64 int64 int16
    ◌+ℤ◌ -ℤ◌ ◌-ℤ◌
unlock_succeeds = refl

-- The same request again, at another time.
abbrev unlock_retry : Command
unlock_retry = record unlock { now = pos 500 }

unlock_retry-SameRequest : SameRequest unlock unlock_retry
unlock_retry-SameRequest = record {
  same_user = refl;
  same_key = refl;
  same_kind = refl;
  same_ref_type = refl;
  same_ref_id = refl;
}

apply_replays_example :
    (b : Balance) × (apply unlock_retry (run (grant ∷ []) unlocked_db) ≡ (
      ok (record {
        ledger = unlock_receipt.ledger;
        expiry_ledger = none;
        balance = b;
        replayed = true;
      }),
      run (grant ∷ []) unlocked_db,
    ))
apply_replays_example =
    apply_replays unlock unlock_retry (grant ∷ []) granted unlocked_db unlock_receipt refl
      unlock_succeeds unlock_retry-SameRequest

other_chapter : unlock_other.op.ref_id ≢ unlock.op.ref_id
other_chapter e = ground arith

apply_conflict_example :
    apply unlock_other (run (grant ∷ []) unlocked_db)
    ≡ (err idempotency_conflict, run (grant ∷ []) unlocked_db)
apply_conflict_example =
    apply_conflict unlock unlock_other (grant ∷ []) granted unlocked_db unlock_receipt refl
      unlock_succeeds refl refl (inr (inr other_chapter))

apply_unlock_once_example :
    (apply bundle_again (run (grant ∷ []) unlocked_db)).1 ≡ run (grant ∷ []) unlocked_db
apply_unlock_once_example =
    apply_unlock_once unlock bundle_again 5 (grant ∷ []) granted unlocked_db unlock_receipt refl
      unlock_succeeds refl refl refl
