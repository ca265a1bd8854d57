-- ===== src/Wallet/Spend.antt =====
-- The planners (domain/wallet/spend.go): pure functions from a balance to the rows that one coin
-- operation must write.
pub mod Parts
pub mod Totals
pub mod Grants
use web_novel.Common.{ℕ, Bool, true, false, Option, none, some, if◌then◌else◌, ◌&&◌, ◌||◌, not}
use web_novel.Common.Int.{ℤ, pos, ltb_ℤ, leb_ℤ, eqb_ℤ, ◌+ℤ◌}
use web_novel.Common.Word.{add64, sub64, neg64}
use web_novel.Common.Result.{ok, err}
use web_novel.Wallet.Types.{
  Time, Duration, Error, invalid_amount, insufficient_coins, insufficient_paid_coins, LedgerKind,
  topup, spend_unlock, bonus_expire, adjust, tip, Balance, LedgerEntry, plan_entry, Plan, Outcome,
}

abbrev pub min_ℤ : ℤ → ℤ → ℤ
min_ℤ a b = if ltb_ℤ b a then b else a

-- `!t.After(now)`
abbrev pub not_after : Time → Time → Bool
not_after t now = leb_ℤ t now

abbrev pub reached : Option Time → Time → Bool
reached none now = false
reached (some t) now = not_after t now

unfoldable pub expired : Balance → Time → Bool
expired bal now = reached bal.bonus_expires_at now

-- The bonus that is usable at `now`.
unfoldable pub effective_bonus : Balance → Time → ℤ
effective_bonus bal now = if reached bal.bonus_expires_at now then pos 0 else bal.bonus_balance

-- The row that writes off lapsed bonus, which three planners share.
unfoldable pub write_off : Balance → Time → Option LedgerEntry
unfolding expired
write_off bal now =
    if expired bal now && ltb_ℤ (pos 0) bal.bonus_balance
    then some (
        plan_entry bal.user_id (pos 0) (neg64 bal.bonus_balance) bonus_expire bal.balance (pos 0)
          now)
    else none

abbrev pub new_balance : ℕ → ℤ → ℤ → Option Time → Time → Balance
new_balance user paid bonus expires now = record {
  user_id = user;
  balance = paid;
  bonus_balance = bonus;
  bonus_expires_at = expires;
  updated_at = now;
}

unfoldable pub plan_spend : Balance → ℤ → Time → Outcome Plan
unfolding expired write_off
plan_spend bal amount now =
    let lapsed = expired bal now in
    let usable = if lapsed then pos 0 else bal.bonus_balance in
    let expires = if lapsed then none else bal.bonus_expires_at in
    let from_bonus = min_ℤ usable amount in
    let from_paid = sub64 amount from_bonus in
    let bonus_after = sub64 usable from_bonus in
    let balance_after = sub64 bal.balance from_paid in
    if leb_ℤ amount (pos 0)
    then err invalid_amount
    else if ltb_ℤ (add64 usable bal.balance) amount
    then err insufficient_coins
    else ok (record {
      expiry = write_off bal now;
      entry =
          plan_entry bal.user_id (neg64 from_paid) (neg64 from_bonus) spend_unlock balance_after
            bonus_after now;
      result =
          new_balance bal.user_id balance_after bonus_after
            (if eqb_ℤ bonus_after (pos 0) then none else expires) now;
    })

unfoldable pub plan_spend_paid_only : Balance → ℤ → Time → Outcome Plan
unfolding expired write_off
plan_spend_paid_only bal amount now =
    let lapsed = expired bal now in
    let bonus_after = if lapsed then pos 0 else bal.bonus_balance in
    let expires = if lapsed then none else bal.bonus_expires_at in
    let balance_after = sub64 bal.balance amount in
    if leb_ℤ amount (pos 0)
    then err invalid_amount
    else if ltb_ℤ bal.balance amount
    then err insufficient_paid_coins
    else ok (record {
      expiry = write_off bal now;
      entry = plan_entry bal.user_id (neg64 amount) (pos 0) tip balance_after bonus_after now;
      result = new_balance bal.user_id balance_after bonus_after expires now;
    })

-- The `switch` that decides when the bonus after a credit lapses.
unfoldable pub credit_expiry : Balance → ℤ → ℤ → Duration → Time → Option Time
credit_expiry bal bonus_after bonus_coins ttl now =
    if eqb_ℤ bonus_after (pos 0)
    then none
    else if ltb_ℤ (pos 0) bonus_coins && ltb_ℤ (pos 0) ttl
    then some (now +ℤ ttl)
    else bal.bonus_expires_at

unfoldable pub plan_credit : Balance → ℤ → ℤ → Duration → Time → Outcome Plan
unfolding expired write_off credit_expiry
plan_credit bal coins bonus_coins ttl now =
    let usable = if expired bal now then pos 0 else bal.bonus_balance in
    let balance_after = add64 bal.balance coins in
    let bonus_after = add64 usable bonus_coins in
    if ltb_ℤ coins (pos 0) || ltb_ℤ bonus_coins (pos 0) || leb_ℤ (add64 coins bonus_coins) (pos 0)
    then err invalid_amount
    else ok (record {
      expiry = write_off bal now;
      entry = plan_entry bal.user_id coins bonus_coins topup balance_after bonus_after now;
      result =
          new_balance bal.user_id balance_after bonus_after
            (credit_expiry bal bonus_after bonus_coins ttl now) now;
    })

unfoldable pub plan_adjust : Balance → ℤ → ℤ → Time → Outcome Plan
plan_adjust bal delta bonus_delta now =
    let balance_after = add64 bal.balance delta in
    let bonus_after = add64 bal.bonus_balance bonus_delta in
    if eqb_ℤ delta (pos 0) && eqb_ℤ bonus_delta (pos 0)
    then err invalid_amount
    else if ltb_ℤ balance_after (pos 0) || ltb_ℤ bonus_after (pos 0)
    then err insufficient_coins
    else ok (record {
      expiry = none;
      entry = plan_entry bal.user_id delta bonus_delta adjust balance_after bonus_after now;
      result =
          new_balance bal.user_id balance_after bonus_after
            (if eqb_ℤ bonus_after (pos 0) then none else bal.bonus_expires_at) now;
    })

-- `none` is the second result `false`: there is nothing to expire.
unfoldable pub plan_bonus_expiry : Balance → Time → Option Plan
unfolding expired
plan_bonus_expiry bal now =
    if not (expired bal now) || eqb_ℤ bal.bonus_balance (pos 0)
    then none
    else some (record {
      expiry = none;
      entry =
          plan_entry bal.user_id (pos 0) (neg64 bal.bonus_balance) bonus_expire bal.balance (pos 0)
            now;
      result = new_balance bal.user_id bal.balance (pos 0) none now;
    })
