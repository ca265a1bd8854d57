-- ===== src/Tests/Planners.antt =====
-- A wallet of 100 coins with 30 of bonus that lapse at 50, and the planners on it.
use web_novel.Common.{◌≡◌, ◌≢◌, refl, true, none, some, ◌↔◌, arith}
use web_novel.Common.Int.{ℤ, pos, negsuc, ◌+ℤ◌, ◌-ℤ◌, -ℤ◌, ◌<ℤ◌, ◌≤ℤ◌}
use web_novel.Common.Word.{int64, add64, sub64, neg64}
use web_novel.Common.Result.{ok, is_ok}
use web_novel.Wallet.Types.{Balance, Plan, plan_entry, spend_unlock, bonus_expire, topup, tip}
use web_novel.Wallet.Spend.{
  new_balance, effective_bonus, expired, plan_spend, plan_spend_paid_only, plan_credit,
  plan_bonus_expiry,
}
use web_novel.Wallet.Spend.Totals.{IsSound, Reconciles, plan_spend-Reconciles}
use web_novel.Wallet.Spend.Grants.{
  plan_spend_granted, plan_spend_bonus_first, plan_spend_paid_only_keeps_bonus,
  plan_bonus_expiry_idle, plan_spend-plan_bonus_expiry, plan_credit_lapsed, plan_credit_usable,
}

abbrev wallet : Balance
wallet = new_balance 7 (pos 100) (pos 30) (some (pos 50)) (pos 0)

wallet-IsSound : IsSound wallet
wallet-IsSound = omega arith

-- 40 coins at time 10: 30 of bonus, 10 paid.
abbrev bought : Plan
bought = record {
  expiry = none;
  entry = plan_entry 7 (negsuc 9) (negsuc 29) spend_unlock (pos 90) (pos 0) (pos 10);
  result = new_balance 7 (pos 90) (pos 0) none (pos 10);
}

wallet_buys : plan_spend wallet (pos 40) (pos 10) ≡ ok bought
unfolding plan_spend add64 sub64 neg64 int64 ◌+ℤ◌ -ℤ◌ ◌-ℤ◌
wallet_buys = refl

-- At time 60 the bonus has lapsed.
abbrev expiry : Plan
expiry = record {
  expiry = none;
  entry = plan_entry 7 (pos 0) (negsuc 29) bonus_expire (pos 100) (pos 0) (pos 60);
  result = new_balance 7 (pos 100) (pos 0) none (pos 60);
}

abbrev bought_late : Plan
bought_late = record {
  expiry = some (expiry.entry);
  entry = plan_entry 7 (negsuc 39) (pos 0) spend_unlock (pos 60) (pos 0) (pos 60);
  result = new_balance 7 (pos 60) (pos 0) none (pos 60);
}

wallet_expires : plan_bonus_expiry wallet (pos 60) ≡ some expiry
unfolding plan_bonus_expiry neg64 int64 -ℤ◌
wallet_expires = refl

wallet_buys_late : plan_spend wallet (pos 40) (pos 60) ≡ ok bought_late
unfolding plan_spend add64 sub64 neg64 int64 ◌+ℤ◌ -ℤ◌ ◌-ℤ◌
wallet_buys_late = refl

plan_spend-Reconciles_example : Reconciles wallet bought
plan_spend-Reconciles_example =
    plan_spend-Reconciles wallet (pos 40) (pos 10) wallet-IsSound wallet_buys

plan_spend_granted_example :
    (is_ok (plan_spend wallet (pos 131) (pos 10)) ≡ true)
    ↔ (pos 0 <ℤ pos 131) × (pos 131 ≤ℤ effective_bonus wallet (pos 10) +ℤ pos 100)
plan_spend_granted_example = plan_spend_granted wallet (pos 131) (pos 10) wallet-IsSound

plan_spend_bonus_first_example :
    (negsuc 9 +ℤ negsuc 29 ≡ -ℤ◌ (pos 40))
    × (negsuc 9 ≢ pos 0 → pos 0 ≡ pos 0)
    × (negsuc 9 ≤ℤ pos 0)
    × (negsuc 29 ≤ℤ pos 0)
plan_spend_bonus_first_example =
    plan_spend_bonus_first wallet (pos 40) (pos 10) wallet-IsSound (omega arith) wallet_buys

-- A tip of 25 coins at time 10.
abbrev tipped : Plan
tipped = record {
  expiry = none;
  entry = plan_entry 7 (negsuc 24) (pos 0) tip (pos 75) (pos 30) (pos 10);
  result = new_balance 7 (pos 75) (pos 30) (some (pos 50)) (pos 10);
}

wallet_tips : plan_spend_paid_only wallet (pos 25) (pos 10) ≡ ok tipped
unfolding plan_spend_paid_only add64 sub64 neg64 int64 ◌+ℤ◌ -ℤ◌ ◌-ℤ◌
wallet_tips = refl

plan_spend_paid_only_keeps_bonus_example :
    (effective_bonus (tipped.result) (pos 10) ≡ effective_bonus wallet (pos 10))
    × (pos 30 ≡ effective_bonus wallet (pos 10))
    × (pos 75 +ℤ pos 25 ≡ pos 100)
    × (is_ok (plan_spend wallet (pos 25) (pos 10)) ≡ true)
plan_spend_paid_only_keeps_bonus_example =
    plan_spend_paid_only_keeps_bonus wallet (pos 25) (pos 10) wallet-IsSound wallet_tips

plan_bonus_expiry_idle_example :
    (plan_bonus_expiry wallet (pos 10) ≡ none) ↔ (effective_bonus wallet (pos 10) ≡ pos 30)
plan_bonus_expiry_idle_example = plan_bonus_expiry_idle wallet (pos 10)

plan_spend-plan_bonus_expiry_example :
    (bought_late.expiry ≡ some (expiry.entry))
    × (plan_spend (expiry.result) (pos 40) (pos 60) ≡ ok (record bought_late { expiry = none }))
plan_spend-plan_bonus_expiry_example =
    plan_spend-plan_bonus_expiry wallet (pos 40) (pos 60) wallet-IsSound wallet_expires
      wallet_buys_late

-- 20 bonus coins at time 60, with no duration and with one of 100.
abbrev topped_up : (expires : ℤ) → Plan
topped_up expires = record {
  expiry = some (expiry.entry);
  entry = plan_entry 7 (pos 200) (pos 20) topup (pos 300) (pos 20) (pos 60);
  result = new_balance 7 (pos 300) (pos 20) (some expires) (pos 60);
}

wallet_tops_up_lapsed :
    plan_credit wallet (pos 200) (pos 20) (pos 0) (pos 60) ≡ ok (topped_up (pos 50))
unfolding plan_credit add64 neg64 int64 ◌+ℤ◌ -ℤ◌
wallet_tops_up_lapsed = refl

wallet_tops_up : plan_credit wallet (pos 200) (pos 20) (pos 100) (pos 60) ≡ ok (topped_up (pos 160))
unfolding plan_credit add64 neg64 int64 ◌+ℤ◌ -ℤ◌
wallet_tops_up = refl

plan_credit_lapsed_example : effective_bonus (topped_up (pos 50)).result (pos 60) ≡ pos 0
unfolding expired
plan_credit_lapsed_example =
    plan_credit_lapsed wallet (pos 200) (pos 20) (pos 0) (pos 60) refl (omega arith)
      wallet_tops_up_lapsed

plan_credit_usable_example : effective_bonus (topped_up (pos 160)).result (pos 60) ≡ pos 20
plan_credit_usable_example =
    plan_credit_usable wallet (pos 200) (pos 20) (pos 100) (pos 60) (omega arith) (omega arith)
      wallet_tops_up
