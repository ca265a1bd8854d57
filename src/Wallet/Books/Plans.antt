-- ===== src/Wallet/Books/Plans.antt =====
-- Whatever a command asks for, a plan for it is a step of the running total, as soon as its deltas
-- fit the columns of the ledger.
use web_novel.Common.{◌≡◌, sym, ap, subst, ◌∙◌, Option-cases, inl, inr, arith}
use web_novel.Common.Int.{ℤ}
use web_novel.Common.Word.{IsInt32, IsInt64}
use web_novel.Common.Result.{ok, >>=-eq-ok, ok-injective}
use web_novel.Wallet.Types.{
  LedgerKind, topup, spend_unlock, refund, bonus_grant, bonus_expire, adjust, tip, other_kind,
  Balance, Plan, Command,
}
use web_novel.Wallet.Spend.{plan_credit, plan_adjust, plan_bonus_expiry}
use web_novel.Wallet.Spend.Totals.{
  IsSound, Reconciles, plan_spend-Reconciles, plan_spend_paid_only-Reconciles,
  plan_credit-Reconciles, plan_adjust-Reconciles, plan_bonus_expiry-Reconciles,
}
use web_novel.Wallet.Apply.Checks.{with_kind, credit, plan_kind, plan_for}

wider : (a : ℤ) → IsInt32 a → IsInt64 a
wider a h = omega arith

credit_deltas :
    (bal : Balance) (cmd : Command) (p : Plan)
    → plan_credit bal cmd.op.coins cmd.op.bonus_coins cmd.op.bonus_ttl cmd.now ≡ ok p
    → (p.entry.delta ≡ cmd.op.coins) × (p.entry.bonus_delta ≡ cmd.op.bonus_coins)
unfolding plan_credit
credit_deltas bal cmd p h = ground arith

adjust_deltas :
    (bal : Balance) (cmd : Command) (p : Plan)
    → plan_adjust bal cmd.op.delta cmd.op.bonus_delta cmd.now ≡ ok p
    → (p.entry.delta ≡ cmd.op.delta) × (p.entry.bonus_delta ≡ cmd.op.bonus_delta)
unfolding plan_adjust
adjust_deltas bal cmd p h = ground arith

-- The kind of a row is no part of what it says of the money.
with_kind-Reconciles :
    (bal : Balance) (k : LedgerKind) (p : Plan) → Reconciles bal p → Reconciles bal (with_kind k p)
with_kind-Reconciles bal k p r = ground (arith, r)

credit-Reconciles :
    (bal : Balance) (k : LedgerKind) (cmd : Command) (p : Plan)
    → IsSound bal
    → credit k bal cmd ≡ ok p
    → IsInt32 p.entry.delta
    → IsInt32 p.entry.bonus_delta
    → Reconciles bal p
unfolding credit
credit-Reconciles bal k cmd p v e d b =
    let op = cmd.op in
    let (q, made, kinded) =
      >>=-eq-ok (plan_credit bal op.coins op.bonus_coins op.bonus_ttl cmd.now) _ e in
    let same : with_kind k q ≡ p = ok-injective kinded in
    let (f, g) = credit_deltas bal cmd q made in
    let f' : p.entry.delta ≡ op.coins = ap (λ (x : Plan). x.entry.delta) (sym same) ∙ f in
    let g' : p.entry.bonus_delta ≡ op.bonus_coins =
      ap (λ (x : Plan). x.entry.bonus_delta) (sym same) ∙ g in
    subst (Reconciles bal) same (
      with_kind-Reconciles bal k q (
        plan_credit-Reconciles bal op.coins op.bonus_coins op.bonus_ttl cmd.now v
          (subst IsInt32 f' d) (subst IsInt32 g' b) made))

plan_kind-Reconciles :
    (k : LedgerKind) (bal : Balance) (cmd : Command) (p : Plan)
    → IsSound bal
    → plan_kind k bal cmd ≡ ok p
    → IsInt32 p.entry.delta
    → IsInt32 p.entry.bonus_delta
    → Reconciles bal p
unfolding plan_kind
plan_kind-Reconciles spend_unlock bal cmd p v e d b =
    plan_spend-Reconciles bal cmd.op.amount cmd.now v e
plan_kind-Reconciles tip bal cmd p v e d b =
    plan_spend_paid_only-Reconciles bal cmd.op.amount cmd.now v e
plan_kind-Reconciles topup bal cmd p v e d b = credit-Reconciles bal topup cmd p v e d b
plan_kind-Reconciles bonus_grant bal cmd p v e d b = credit-Reconciles bal bonus_grant cmd p v e d b
plan_kind-Reconciles refund bal cmd p v e d b = credit-Reconciles bal refund cmd p v e d b
plan_kind-Reconciles adjust bal cmd p v e d b =
    let (f, g) = adjust_deltas bal cmd p e in
    plan_adjust-Reconciles bal cmd.op.delta cmd.op.bonus_delta cmd.now v
      (wider cmd.op.delta (rw f at d)) (wider cmd.op.bonus_delta (rw g at b)) e
plan_kind-Reconciles bonus_expire bal cmd p v e d b =
    elim (Option-cases (plan_bonus_expiry bal cmd.now)) [
      | inl nothing ↦ absurd (ground arith)
      | inr (q, made) ↦ plan_bonus_expiry-Reconciles bal cmd.now v (ground arith)
    ]
plan_kind-Reconciles other_kind bal cmd p v e d b = absurd (cc)

pub plan_for-Reconciles :
    (bal : Balance) (cmd : Command) (p : Plan)
    → IsSound bal
    → plan_for bal cmd ≡ ok p
    → IsInt32 p.entry.delta
    → IsInt32 p.entry.bonus_delta
    → Reconciles bal p
unfolding plan_for
plan_for-Reconciles bal cmd p = plan_kind-Reconciles cmd.op.kind bal cmd p
