-- ===== src/Wallet/Apply/Children.antt =====
-- The rows written beside the ledger row (writeChild of repository/wallet/apply.go).
use web_novel.Common.{
  ℕ, Bool, true, false, none, some, List, [], ◌∷◌, ◌==◌, map, if◌then◌else◌, ◌&&◌, not,
}
use web_novel.Common.Int.{ℤ, pos, eqb_ℤ}
use web_novel.Common.Word.{add64, neg64, int16}
use web_novel.Common.Result.{Result, ok, err, ◌>>=◌, fail_if}
use web_novel.Wallet.Types.{
  Error, not_found, invalid_amount, already_unlocked, bundle_stale, purchase_not_pending,
  unique_violation, LedgerEntry, ChildKind, child_none, child_chapter_unlock,
  child_purchase_complete, child_arc_bundle, child_tip, ChildItem, Command, Outcome,
}
use web_novel.Wallet.Bundle.{sum64}
use web_novel.Wallet.Store.{
  purchase_succeeded, UnlockRow, EarningRow, EarningKind, earning_unlock, earning_tip, Db, set_row,
  create_unlock, create_unlocks, create_earning, create_earnings,
}
use web_novel.Wallet.Apply.Checks.{is_pending}

-- What the entry takes from the wallet.
abbrev pub spent : LedgerEntry → ℤ
spent entry = neg64 (add64 entry.delta entry.bonus_delta)

-- A constraint that fires although the precondition held.
abbrev pub on_unique {ℓ} : {A : Type ℓ} → Error → Result Error A → Result Error A
on_unique e (ok a) = ok a
on_unique e (err unique_violation) = err e
on_unique e (err e') = err e'

abbrev pub item_unlock : Command → ℕ → ChildItem → UnlockRow
item_unlock cmd ledger_id item = record {
  user_id = cmd.user_id;
  chapter_id = item.chapter_id;
  coins_spent = int16 item.coins;
  ledger_id = ledger_id;
  unlocked_at = cmd.now;
}

-- The rows of the items that credit somebody.
abbrev pub item_earnings : Command → ℕ → List ChildItem → List EarningRow
item_earnings cmd ledger_id [] = []
item_earnings cmd ledger_id (item ∷ items) =
    let rest = item_earnings cmd ledger_id items in
    if item.writer_id == 0
    then rest
    else record {
      writer_id = item.writer_id;
      chapter_id = item.chapter_id;
      unlock_ledger_id = ledger_id;
      gross_coins = item.coins;
      net_coins = item.net_coins;
      kind = earning_unlock;
      created_at = cmd.now;
    }
      ∷ rest

abbrev pub child_unlock : Command → ℕ → LedgerEntry → UnlockRow
child_unlock cmd ledger_id entry = record {
  user_id = cmd.user_id;
  chapter_id = cmd.child.chapter_id;
  coins_spent = int16 (spent entry);
  ledger_id = ledger_id;
  unlocked_at = cmd.now;
}

-- The earning of a single unlock or a tip. An unlock's literal leaves the kind to the column's
-- default, which is `unlock`.
abbrev pub child_earning : Command → ℕ → LedgerEntry → EarningKind → EarningRow
child_earning cmd ledger_id entry kind = record {
  writer_id = cmd.child.writer_id;
  chapter_id = cmd.child.chapter_id;
  unlock_ledger_id = ledger_id;
  gross_coins = spent entry;
  net_coins = cmd.child.net_coins;
  kind = kind;
  created_at = cmd.now;
}

unfoldable pub write_kind : ChildKind → Command → ℕ → LedgerEntry → Db → Outcome Db
write_kind child_chapter_unlock cmd ledger_id entry db =
    on_unique already_unlocked (create_unlock (child_unlock cmd ledger_id entry) db) >>= λ db'.
    if cmd.child.writer_id == 0
    then ok db'
    else create_earning (child_earning cmd ledger_id entry earning_unlock) db'
write_kind child_purchase_complete cmd ledger_id entry db =
    elim (db.purchases cmd.child.purchase_id) [
      | none ↦ err purchase_not_pending
      | some p ↦
          if is_pending p.status
          then ok (record db {
            purchases =
                set_row cmd.child.purchase_id
                  (record p {
                    status = purchase_succeeded;
                    ledger_id = some ledger_id;
                    completed_at = some cmd.now;
                  })
                  db.purchases;
          })
          else err purchase_not_pending
    ]
write_kind child_arc_bundle cmd ledger_id entry db =
    on_unique bundle_stale (create_unlocks (map (item_unlock cmd ledger_id) cmd.child.items) db)
    >>= create_earnings (item_earnings cmd ledger_id cmd.child.items)
write_kind child_tip cmd ledger_id entry db =
    if cmd.child.writer_id == 0
    then err not_found
    else create_earning (child_earning cmd ledger_id entry earning_tip) db
write_kind child_none cmd ledger_id entry db = ok db

unfoldable pub write_child : Command → ℕ → LedgerEntry → Db → Outcome Db
unfolding write_kind
write_child cmd ledger_id entry db = write_kind cmd.child.kind cmd ledger_id entry db

abbrev pub is_bundle : ChildKind → Bool
is_bundle child_arc_bundle = true
is_bundle _ = false

abbrev pub item_coins : List ChildItem → List ℤ
item_coins = map (λ (i : ChildItem). i.coins)

-- The items of a bundle add up to what the entry takes.
unfoldable pub check_allocated : Command → LedgerEntry → Outcome (Unit {0})
check_allocated cmd entry =
    fail_if
      (is_bundle cmd.child.kind
        && not (eqb_ℤ (sum64 (pos 0) (item_coins cmd.child.items)) (spent entry)))
      invalid_amount
