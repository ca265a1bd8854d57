-- ===== src/Wallet/Apply/Checks.antt =====
-- What a command must pass before anything is written (checkChildPreconditions, planFor of
-- repository/wallet/apply.go).
use web_novel.Common.{
  ℕ, Bool, true, false, Option, none, some, List, [], ◌∷◌, ◌==◌, if◌then◌else◌, ◌&&◌, ◌||◌, not,
  any,
}
use web_novel.Common.Int.{eqb_ℤ}
use web_novel.Common.Result.{ok, err, ◌>>=◌, ◌>>◌, fail_if}
use web_novel.Wallet.Types.{
  not_found, invalid_amount, already_unlocked, arc_already_owned, bundle_stale,
  purchase_not_pending, LedgerKind, topup, spend_unlock, refund, bonus_grant, bonus_expire, adjust,
  tip, other_kind, Balance, Plan, ChildKind, child_none, child_chapter_unlock,
  child_purchase_complete, child_arc_bundle, child_tip, ChildItem, Command, Outcome,
}
use web_novel.Wallet.Spend.{
  plan_spend, plan_spend_paid_only, plan_credit, plan_adjust, plan_bonus_expiry,
}
use web_novel.Wallet.Store.{
  PurchaseRow, PurchaseStatus, purchase_pending, ChapterStatus, chapter_published, Db, unlocked,
}

abbrev pub is_pending : PurchaseStatus → Bool
is_pending purchase_pending = true
is_pending _ = false

abbrev pub is_published : ChapterStatus → Bool
is_published chapter_published = true
is_published _ = false

-- The item's chapter is there, published, and at the price that was quoted.
abbrev pub is_current : Db → ChildItem → Bool
is_current db item = elim (db.chapters item.chapter_id) [
  | none ↦ false
  | some row ↦ is_published row.status && eqb_ℤ row.price_coins item.list_price
]

-- No two items name one chapter: `len(rows) == len(ids)` where every chapter is there.
abbrev pub distinct_items : List ChildItem → Bool
distinct_items [] = true
distinct_items (item ∷ items) =
    let rest = distinct_items items in
    not (any (λ (i : ChildItem). i.chapter_id == item.chapter_id) items) && rest

abbrev pub all_current : Db → List ChildItem → Bool
all_current db [] = true
all_current db (item ∷ items) = let rest = all_current db items in is_current db item && rest

abbrev pub any_owned : ℕ → Db → List ChildItem → Bool
any_owned user db [] = false
any_owned user db (item ∷ items) =
    let rest = any_owned user db items in unlocked user item.chapter_id db || rest

abbrev pub is_nil {ℓ} : {A : Type ℓ} → List A → Bool
is_nil [] = true
is_nil (x ∷ xs) = false

unfoldable pub check_purchase : Command → Option PurchaseRow → Outcome (Unit {0})
check_purchase cmd none = err not_found
check_purchase cmd (some p) =
    if not (p.user_id == cmd.user_id)
    then err not_found
    else if is_pending p.status
    then ok tt
    else err purchase_not_pending

unfoldable pub check_child : ChildKind → Command → Db → Outcome (Unit {0})
check_child child_chapter_unlock cmd db =
    fail_if (unlocked cmd.user_id cmd.child.chapter_id db) already_unlocked
check_child child_purchase_complete cmd db = check_purchase cmd (db.purchases cmd.child.purchase_id)
check_child child_arc_bundle cmd db =
    fail_if (is_nil cmd.child.items) arc_already_owned
    >> fail_if (any_owned cmd.user_id db cmd.child.items) bundle_stale
    >> fail_if (not (distinct_items cmd.child.items && all_current db cmd.child.items)) bundle_stale
check_child child_tip cmd db = ok tt
check_child child_none cmd db = ok tt

unfoldable pub check_child_preconditions : Command → Db → Outcome (Unit {0})
unfolding check_child check_purchase
check_child_preconditions cmd db = check_child cmd.child.kind cmd db

abbrev pub with_kind : LedgerKind → Plan → Plan
with_kind k plan = record plan { entry = record (plan.entry) { kind = k } }

unfoldable pub credit : LedgerKind → Balance → Command → Outcome Plan
credit kind bal cmd =
    plan_credit bal cmd.op.coins cmd.op.bonus_coins cmd.op.bonus_ttl cmd.now >>= λ plan.
    ok (with_kind kind plan)

unfoldable pub plan_kind : LedgerKind → Balance → Command → Outcome Plan
plan_kind spend_unlock bal cmd = plan_spend bal cmd.op.amount cmd.now
plan_kind tip bal cmd = plan_spend_paid_only bal cmd.op.amount cmd.now
plan_kind topup bal cmd = credit topup bal cmd
plan_kind bonus_grant bal cmd = credit bonus_grant bal cmd
plan_kind refund bal cmd = credit refund bal cmd
plan_kind adjust bal cmd = plan_adjust bal cmd.op.delta cmd.op.bonus_delta cmd.now
plan_kind bonus_expire bal cmd = elim (plan_bonus_expiry bal cmd.now) [
  | none ↦ err invalid_amount
  | some plan ↦ ok plan
]
plan_kind other_kind bal cmd = err invalid_amount

unfoldable pub plan_for : Balance → Command → Outcome Plan
unfolding plan_kind credit
plan_for bal cmd = plan_kind cmd.op.kind bal cmd
