-- ===== src/Wallet/Spend/Grants.antt =====
-- When a planner grants an operation, and what it takes from which balance.
use web_novel.Common.{◌^◌, ◌<◌, ◌≡◌, ◌≢◌, ◌↔◌, true, none, some, arith}
use web_novel.Common.Int.{ℤ, pos, negsuc, pos_part, neg_part, int_laws, ◌-ℤ◌, ◌+ℤ◌, -ℤ◌, ◌≤ℤ◌, ◌<ℤ◌}
use web_novel.Common.Word.{IsInt64, int64, sub64, add64, add64_exact}
use web_novel.Common.Result.{ok, is_ok}
use web_novel.Wallet.Types.{Time, Duration, Balance, Plan}
use web_novel.Wallet.Spend.{
  plan_spend, plan_spend_paid_only, plan_credit, plan_bonus_expiry, effective_bonus, expired,
}
use web_novel.Wallet.Spend.Parts.{spend_parts, bonus_first_parts}
use web_novel.Wallet.Spend.Totals.{IsSound, write_off-effective_bonus}

-- The guard of a spend adds without wrapping.
usable_total :
    (bal : Balance) (now : Time)
    → IsSound bal
    → add64 (effective_bonus bal now) bal.balance ≡ effective_bonus bal now +ℤ bal.balance
usable_total bal now v =
    let e = write_off-effective_bonus bal now v in
    add64_exact (effective_bonus bal now) bal.balance (omega (arith, e.2, e.3, v))
      (omega (arith, e.2, v))

-- An unlock is granted exactly if its price is positive and the usable bonus and the paid coins
-- cover it together.
pub plan_spend_granted :
    (bal : Balance) (amount : ℤ) (now : Time)
    → IsSound bal
    → (is_ok (plan_spend bal amount now) ≡ true)
      ↔ (pos 0 <ℤ amount) × (amount ≤ℤ effective_bonus bal now +ℤ bal.balance)
unfolding plan_spend effective_bonus
plan_spend_granted bal amount now v = ground (arith, usable_total bal now v)

-- A granted unlock takes its price exactly, and paid coins only once no bonus is left.
pub plan_spend_bonus_first :
    (bal : Balance) (amount : ℤ) (now : Time) {p : Plan}
    → IsSound bal
    → IsInt64 amount
    → plan_spend bal amount now ≡ ok p
    → (p.entry.delta +ℤ p.entry.bonus_delta ≡ -ℤ◌ amount)
      × (p.entry.delta ≢ pos 0 → p.result.bonus_balance ≡ pos 0)
      × (p.entry.delta ≤ℤ pos 0)
      × (p.entry.bonus_delta ≤ℤ pos 0)
unfolding plan_spend effective_bonus
plan_spend_bonus_first bal amount now {p} v i h = ground (
  arith,
  write_off-effective_bonus bal now v,
  spend_parts bal.balance (effective_bonus bal now) amount,
  bonus_first_parts (effective_bonus bal now) amount,
)

taken :
    (balance amount : ℤ)
    → neg_part balance ≡ 0
    → pos_part balance < 2 ^ 31
    → pos 0 <ℤ amount
    → amount ≤ℤ balance
    → sub64 balance amount +ℤ amount ≡ balance
unfolding sub64 int64 ◌+ℤ◌ ◌-ℤ◌ -ℤ◌
taken (pos n) (pos k) nonneg small positive covered = ground arith
taken (pos n) (negsuc k) nonneg small positive covered = absurd (omega arith)
taken (negsuc n) amount nonneg small positive covered = absurd (omega arith)

-- A tip leaves the bonus to the reader: on a sound balance, a tip that is granted leaves exactly the
-- bonus that was usable, still usable, and takes exactly its amount from the paid coins; and an unlock
-- at that price would have been granted too.
pub plan_spend_paid_only_keeps_bonus :
    (bal : Balance) (amount : ℤ) (now : Time) {p : Plan}
    → IsSound bal
    → plan_spend_paid_only bal amount now ≡ ok p
    → (effective_bonus p.result now ≡ effective_bonus bal now)
      × (p.result.bonus_balance ≡ effective_bonus bal now)
      × (p.result.balance +ℤ amount ≡ bal.balance)
      × (is_ok (plan_spend bal amount now) ≡ true)
unfolding plan_spend_paid_only effective_bonus expired
plan_spend_paid_only_keeps_bonus bal amount now {p} v h =
    let granted : (pos 0 <ℤ amount) × (amount ≤ℤ bal.balance) = ground arith in
    let e = write_off-effective_bonus bal now v in
    let unlock =
      (plan_spend_granted bal amount now v).1 (granted.0, omega (int_laws, granted.1, e.2, v)) in
    let left = taken bal.balance amount v.paid_nonneg v.paid_small granted.0 granted.1 in
    (ground arith, ground arith, ground (arith, left), unlock)

-- The nightly write-off finds nothing exactly if the whole bonus is usable.
pub plan_bonus_expiry_idle :
    (bal : Balance) (now : Time)
    → (plan_bonus_expiry bal now ≡ none) ↔ (effective_bonus bal now ≡ bal.bonus_balance)
unfolding plan_bonus_expiry effective_bonus expired
plan_bonus_expiry_idle bal now = ground arith

-- A spend that comes before the nightly write-off ends where one that comes after it does, and
-- writes the row that the write-off would have written.
pub plan_spend-plan_bonus_expiry :
    (bal : Balance) (amount : ℤ) (now : Time) {e p : Plan}
    → IsSound bal
    → plan_bonus_expiry bal now ≡ some e
    → plan_spend bal amount now ≡ ok p
    → (p.expiry ≡ some e.entry) × (plan_spend e.result amount now ≡ ok (record p { expiry = none }))
unfolding plan_bonus_expiry plan_spend expired
plan_spend-plan_bonus_expiry bal amount now {e} {p} v h k = ground arith

-- With a duration that is not positive, a top-up grants no usable bonus at all to a wallet whose
-- bonus has lapsed: the new bonus keeps the deadline that has passed.
pub plan_credit_lapsed :
    (bal : Balance) (coins bonus_coins : ℤ) (ttl : Duration) (now : Time) {p : Plan}
    → expired bal now ≡ true
    → ttl ≤ℤ pos 0
    → plan_credit bal coins bonus_coins ttl now ≡ ok p
    → effective_bonus p.result now ≡ pos 0
unfolding plan_credit effective_bonus expired
plan_credit_lapsed bal coins bonus_coins ttl now h t k = ground arith

-- With a positive duration all the bonus after a top-up of bonus coins is usable.
pub plan_credit_usable :
    (bal : Balance) (coins bonus_coins : ℤ) (ttl : Duration) (now : Time) {p : Plan}
    → pos 0 <ℤ ttl
    → pos 0 <ℤ bonus_coins
    → plan_credit bal coins bonus_coins ttl now ≡ ok p
    → effective_bonus p.result now ≡ p.result.bonus_balance
unfolding plan_credit effective_bonus expired ◌+ℤ◌
plan_credit_usable bal coins bonus_coins ttl now t b k = ground arith
