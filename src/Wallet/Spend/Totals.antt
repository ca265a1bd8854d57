-- ===== src/Wallet/Spend/Totals.antt =====
-- What the rows of a plan say of the money: each is a step of a running total that starts at the
-- balance and ends at the result.
use web_novel.Common.{◌≡◌, ◌^◌, ◌<◌, Option, none, some, arith}
use web_novel.Common.Int.{ℤ, pos, pos_part, neg_part, ◌+ℤ◌, ◌≤ℤ◌}
use web_novel.Wallet.Spend.Parts.{
  spend_parts, paid_parts, credit_parts, adjust_parts, +ℤ_zero, +ℤ-neg64,
}
use web_novel.Common.Word.{IsInt32, IsInt64}
use web_novel.Common.Result.{ok}
use web_novel.Wallet.Types.{Time, Duration, Balance, LedgerEntry, Plan}
use web_novel.Wallet.Spend.{
  plan_spend, plan_spend_paid_only, plan_credit, plan_adjust, plan_bonus_expiry, effective_bonus,
  write_off, expired,
}

-- A balance that the table admits: both columns are INT and at least 0.
pub record IsSound (bal : Balance) : Type 0 where
  pub paid_nonneg : neg_part bal.balance ≡ 0
  pub paid_small : pos_part bal.balance < 2 ^ 31
  pub bonus_nonneg : neg_part bal.bonus_balance ≡ 0
  pub bonus_small : pos_part bal.bonus_balance < 2 ^ 31

-- What the write-off row, if there is one, adds to the bonus.
abbrev pub written_off : Option LedgerEntry → ℤ
written_off none = pos 0
written_off (some e) = e.bonus_delta

-- A write-off row moves no paid coins, and its totals follow from the balance.
abbrev pub FollowsFrom : Balance → Option LedgerEntry → Type 0
FollowsFrom bal none = Unit
FollowsFrom bal (some e) =
    (e.delta ≡ pos 0)
    × (e.balance_after ≡ bal.balance)
    × (e.bonus_balance_after ≡ bal.bonus_balance +ℤ e.bonus_delta)

pub record Reconciles (bal : Balance) (p : Plan) : Type 0 where
  pub paid : p.result.balance ≡ bal.balance +ℤ p.entry.delta
  pub bonus :
      p.result.bonus_balance ≡ bal.bonus_balance +ℤ written_off p.expiry +ℤ p.entry.bonus_delta
  pub paid_total : p.entry.balance_after ≡ p.result.balance
  pub bonus_total : p.entry.bonus_balance_after ≡ p.result.bonus_balance
  pub first_row : FollowsFrom bal p.expiry
  pub paid_left : pos 0 ≤ℤ p.result.balance
  pub bonus_left : pos 0 ≤ℤ p.result.bonus_balance

-- The write-off takes the bonus to what is usable.
pub write_off-effective_bonus :
    (bal : Balance) (now : Time)
    → IsSound bal
    → (bal.bonus_balance +ℤ written_off (write_off bal now) ≡ effective_bonus bal now)
      × FollowsFrom bal (write_off bal now)
      × (pos 0 ≤ℤ effective_bonus bal now)
      × (pos_part (effective_bonus bal now) < 2 ^ 31)
unfolding write_off effective_bonus expired
write_off-effective_bonus bal now v =
    ground
      (arith, +ℤ-neg64 bal.bonus_balance v.bonus_nonneg v.bonus_small, +ℤ_zero bal.bonus_balance)

-- A spend that is granted keeps the books: every row is a step of the running total.
pub plan_spend-Reconciles :
    (bal : Balance) (amount : ℤ) (now : Time) {p : Plan}
    → IsSound bal
    → plan_spend bal amount now ≡ ok p
    → Reconciles bal p
unfolding plan_spend effective_bonus
plan_spend-Reconciles bal amount now {p} v h = ground (
  arith,
  write_off-effective_bonus bal now v,
  spend_parts bal.balance (effective_bonus bal now) amount,
)

-- A tip that is granted keeps the books.
pub plan_spend_paid_only-Reconciles :
    (bal : Balance) (amount : ℤ) (now : Time) {p : Plan}
    → IsSound bal
    → plan_spend_paid_only bal amount now ≡ ok p
    → Reconciles bal p
unfolding plan_spend_paid_only effective_bonus
plan_spend_paid_only-Reconciles bal amount now {p} v h = ground (
  arith,
  write_off-effective_bonus bal now v,
  paid_parts bal.balance amount,
  +ℤ_zero (effective_bonus bal now),
)

-- A top-up that is granted keeps the books, where its coins fit their columns.
pub plan_credit-Reconciles :
    (bal : Balance) (coins bonus_coins : ℤ) (ttl : Duration) (now : Time) {p : Plan}
    → IsSound bal
    → IsInt32 coins
    → IsInt32 bonus_coins
    → plan_credit bal coins bonus_coins ttl now ≡ ok p
    → Reconciles bal p
unfolding plan_credit effective_bonus
plan_credit-Reconciles bal coins bonus_coins ttl now {p} v c b h = ground (
  arith,
  write_off-effective_bonus bal now v,
  credit_parts bal.balance coins,
  credit_parts (effective_bonus bal now) bonus_coins,
)

-- A correction that is granted keeps the books, whatever its size.
pub plan_adjust-Reconciles :
    (bal : Balance) (delta bonus_delta : ℤ) (now : Time) {p : Plan}
    → IsSound bal
    → IsInt64 delta
    → IsInt64 bonus_delta
    → plan_adjust bal delta bonus_delta now ≡ ok p
    → Reconciles bal p
unfolding plan_adjust
plan_adjust-Reconciles bal delta bonus_delta now {p} v d b h = ground (
  arith,
  adjust_parts bal.balance delta,
  adjust_parts bal.bonus_balance bonus_delta,
  +ℤ_zero bal.bonus_balance,
)

-- The nightly write-off keeps the books.
pub plan_bonus_expiry-Reconciles :
    (bal : Balance) (now : Time) {p : Plan}
    → IsSound bal
    → plan_bonus_expiry bal now ≡ some p
    → Reconciles bal p
unfolding plan_bonus_expiry
plan_bonus_expiry-Reconciles bal now {p} v h = ground (
  arith,
  +ℤ-neg64 bal.bonus_balance v.bonus_nonneg v.bonus_small,
  +ℤ_zero bal.bonus_balance,
  +ℤ_zero bal.balance,
)
