-- ===== src/Wallet/Once/Targets.antt =====
-- What a ledger row remembers of its command, and how `sameTarget` compares the two.
use web_novel.Common.{ℕ, ◌≡◌, ◌↔◌, refl, sym, ap, true, false, Option, none, some, [], ◌∷◌, arith}
use web_novel.Common.Result.{ok, >>=-eq-ok, ok-injective}
use web_novel.Common.Text.{Text, is_empty, text_eq, text_eq_iff}
use web_novel.Wallet.Types.{
  LedgerKind, kind_eq_iff, Command, Balance, Plan, spend_unlock, tip, topup, bonus_grant, refund,
  adjust, bonus_expire, other_kind,
}
use web_novel.Wallet.Spend.{
  plan_spend, plan_spend_paid_only, plan_credit, plan_adjust, plan_bonus_expiry,
}
use web_novel.Wallet.Store.{LedgerRow, Db, has_key}
use web_novel.Wallet.Apply.Rows.{to_ledger_row, same_target, same_ref, nullable, deref}
use web_novel.Wallet.Apply.Checks.{plan_for, plan_kind, credit}
use web_novel.Wallet.Books.Writes.{Stores}

credit-kind :
    (k : LedgerKind) (bal : Balance) (cmd : Command) {plan : Plan}
    → credit k bal cmd ≡ ok plan
    → plan.entry.kind ≡ k
unfolding credit
credit-kind k bal cmd {plan} h =
    let (p, planned, rest) =
      >>=-eq-ok (plan_credit bal cmd.op.coins cmd.op.bonus_coins cmd.op.bonus_ttl cmd.now) _ h in
    ap (λ (q : Plan). q.entry.kind) (sym (ok-injective rest))

-- The plan of a command has the command's kind.
plan_kind-kind :
    (k : LedgerKind) (bal : Balance) (cmd : Command) {plan : Plan}
    → plan_kind k bal cmd ≡ ok plan
    → plan.entry.kind ≡ k
unfolding plan_kind plan_spend plan_spend_paid_only plan_adjust plan_bonus_expiry
plan_kind-kind spend_unlock bal cmd h = ground arith
plan_kind-kind tip bal cmd h = ground arith
plan_kind-kind topup bal cmd h = credit-kind topup bal cmd h
plan_kind-kind bonus_grant bal cmd h = credit-kind bonus_grant bal cmd h
plan_kind-kind refund bal cmd h = credit-kind refund bal cmd h
plan_kind-kind adjust bal cmd h = ground arith
plan_kind-kind bonus_expire bal cmd h = ground arith
plan_kind-kind other_kind bal cmd h = absurd (cc)

text_eq_refl : (t : Text) → text_eq t t ≡ true
text_eq_refl t = (text_eq_iff t t).1 refl

pub deref-nullable : (t : Text) → deref (nullable t) ≡ t
deref-nullable [] = refl
deref-nullable (c ∷ t) = refl

same_ref_refl : (r : Option ℕ) → same_ref r r ≡ true
same_ref_refl none = refl
same_ref_refl (some a) = ground arith

-- What a ledger row remembers of the command that wrote it.
pub record RowOf (cmd : Command) (row : LedgerRow) : Type 0 where
  pub user : row.user_id ≡ cmd.user_id
  pub key : row.idempotency_key ≡ nullable cmd.idempotency_key
  pub kind : row.kind ≡ cmd.op.kind
  pub ref_type : row.ref_type ≡ nullable cmd.op.ref_type
  pub ref_id : row.ref_id ≡ cmd.op.ref_id

pub main_row-RowOf :
    (cmd : Command) (bal : Balance) (plan : Plan) (db db' : Db) (main : LedgerRow)
    → plan_for bal cmd ≡ ok plan
    → Stores (to_ledger_row cmd plan.entry cmd.idempotency_key) db main db'
    → RowOf cmd main
unfolding to_ledger_row plan_for
main_row-RowOf cmd bal plan db db' main planned s = rw s.is_row (record {
  user = refl;
  key = refl;
  kind = plan_kind-kind cmd.op.kind bal cmd planned;
  ref_type = refl;
  ref_id = refl;
})

pub row_has_key :
    (cmd : Command) (row : LedgerRow)
    → is_empty cmd.idempotency_key ≡ false
    → RowOf cmd row
    → has_key cmd.user_id cmd.idempotency_key row ≡ true
row_has_key cmd row keyed o = ground (arith, o.user, o.key, text_eq_refl cmd.idempotency_key)

same_ref_eq : (a b : Option ℕ) → same_ref a b ≡ true → a ≡ b
same_ref_eq none none h = refl
same_ref_eq none (some b) h = absurd (cc)
same_ref_eq (some a) none h = absurd (cc)
same_ref_eq (some a) (some b) h = ground arith

-- The target of a row, as `sameTarget` compares it.
pub record HasTarget (row : LedgerRow) (cmd : Command) : Type 0 where
  pub kind : row.kind ≡ cmd.op.kind
  pub ref_type : deref row.ref_type ≡ cmd.op.ref_type
  pub ref_id : row.ref_id ≡ cmd.op.ref_id

pub same_target-HasTarget :
    (row : LedgerRow) (cmd : Command) → (same_target row cmd ≡ true) ↔ HasTarget row cmd
unfolding same_target
same_target-HasTarget row cmd = (
  λ h. record {
    kind = (kind_eq_iff row.kind cmd.op.kind).0 (ground arith);
    ref_type = (text_eq_iff (deref row.ref_type) cmd.op.ref_type).0 (ground arith);
    ref_id = same_ref_eq row.ref_id cmd.op.ref_id (ground arith);
  },
  λ t. rw (t.kind, t.ref_type, t.ref_id, text_eq_refl, same_ref_refl) (ground arith),
)
