-- ===== src/Wallet/Types.antt =====
-- The data of the coin economy (domain/wallet: wallet.go, command.go, errors.go, spend.go). An
-- instant is an integer of nanoseconds, a duration too. Identifiers are only compared, with 0 as
-- "nobody", so they are natural numbers. An amount is a Go `int`.
use web_novel.Common.{ℕ, ◌≡◌, ◌↔◌, Bool, true, Option, none, List, [], arith, ◌==◌}
use web_novel.Common.Int.{ℤ}
use web_novel.Common.Text.{Text}
use web_novel.Common.Result.{Result}

abbrev pub Time : Type 0
Time = ℤ

abbrev pub Duration : Type 0
Duration = ℤ

pub data Error : Type 0 where
  not_found invalid_amount insufficient_coins insufficient_paid_coins : Error
  tips_disabled cannot_tip_self already_unlocked chapter_not_for_sale : Error
  arc_not_for_sale arc_already_owned bundle_stale early_access_only : Error
  purchase_not_pending pack_not_found idempotency_conflict : Error
  -- What the database refuses: SQLSTATE 23505, a CHECK, a number too large for its column.
  unique_violation check_violation out_of_range : Error

-- `LedgerKind`; `other_kind` is any string that is none of the constants.
pub data LedgerKind : Type 0 where
  topup spend_unlock refund bonus_grant bonus_expire adjust tip other_kind : LedgerKind

abbrev pub kind_index : LedgerKind → ℕ
kind_index topup = 0
kind_index spend_unlock = 1
kind_index refund = 2
kind_index bonus_grant = 3
kind_index bonus_expire = 4
kind_index adjust = 5
kind_index tip = 6
kind_index other_kind = 7

abbrev pub kind_eq : LedgerKind → LedgerKind → Bool
kind_eq a b = kind_index a == kind_index b

pub record Balance : Type 0 where
  pub user_id : ℕ
  pub balance : ℤ
  pub bonus_balance : ℤ
  pub bonus_expires_at : Option Time
  pub updated_at : Time

pub record LedgerEntry : Type 0 where
  pub id : ℕ
  pub user_id : ℕ
  pub delta : ℤ
  pub bonus_delta : ℤ
  pub kind : LedgerKind
  pub ref_type : Text
  pub ref_id : Option ℕ
  pub balance_after : ℤ
  pub bonus_balance_after : ℤ
  pub reason : Text
  pub actor_user_id : Option ℕ
  pub idempotency_key : Text
  pub created_at : Time

-- The literal that every planner writes: the fields it does not name have their zero values.
abbrev pub plan_entry : ℕ → ℤ → ℤ → LedgerKind → ℤ → ℤ → Time → LedgerEntry
plan_entry user delta bonus_delta kind balance_after bonus_balance_after now = record {
  id = 0;
  user_id = user;
  delta = delta;
  bonus_delta = bonus_delta;
  kind = kind;
  ref_type = [];
  ref_id = none;
  balance_after = balance_after;
  bonus_balance_after = bonus_balance_after;
  reason = [];
  actor_user_id = none;
  idempotency_key = [];
  created_at = now;
}

pub record Plan : Type 0 where
  pub expiry : Option LedgerEntry
  pub entry : LedgerEntry
  pub result : Balance

pub record ChapterSale : Type 0 where
  pub chapter_id : ℕ
  pub novel_id : ℕ
  pub chapter_no : ℤ
  pub price_coins : ℤ
  pub translator_id : Option ℕ
  pub public_at : Option Time
  pub tips_enabled : Bool
  pub sell_by_arc : Bool

pub record ArcSale : Type 0 where
  pub arc_id : ℕ
  pub novel_id : ℕ
  pub arc_no : ℤ
  pub name : Text
  pub sell_by_arc : Bool
  pub chapters : List ChapterSale

pub data ChildKind : Type 0 where
  child_none child_chapter_unlock child_purchase_complete child_arc_bundle child_tip : ChildKind

pub record ChildItem : Type 0 where
  pub chapter_id : ℕ
  pub list_price : ℤ
  pub coins : ℤ
  pub writer_id : ℕ
  pub net_coins : ℤ

pub record ChildWrite : Type 0 where
  pub kind : ChildKind
  pub chapter_id : ℕ
  pub purchase_id : ℕ
  pub writer_id : ℕ
  pub net_coins : ℤ
  pub items : List ChildItem

pub record Operation : Type 0 where
  pub kind : LedgerKind
  pub amount : ℤ
  pub coins : ℤ
  pub bonus_coins : ℤ
  pub bonus_ttl : Duration
  pub delta : ℤ
  pub bonus_delta : ℤ
  pub ref_type : Text
  pub ref_id : Option ℕ

pub record Command : Type 0 where
  pub user_id : ℕ
  pub idempotency_key : Text
  pub now : Time
  pub op : Operation
  pub child : ChildWrite
  pub actor_user_id : Option ℕ
  pub reason : Text

pub record Receipt : Type 0 where
  pub ledger : LedgerEntry
  pub expiry_ledger : Option LedgerEntry
  pub balance : Balance
  pub replayed : Bool

abbrev pub Outcome : Type 0 → Type 0
Outcome A = Result Error A

pub kind_eq_iff : (a b : LedgerKind) → (kind_eq a b ≡ true) ↔ (a ≡ b)
kind_eq_iff a b = ground arith
