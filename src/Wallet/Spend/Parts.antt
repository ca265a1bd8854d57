-- ===== src/Wallet/Spend/Parts.antt =====
-- The arithmetic of the planners: where the guards pass, no operation of `int` wraps.
use web_novel.Common.{◌≡◌, ◌≢◌, ◌^◌, ◌<◌, false, arith}
use web_novel.Common.Int.{ℤ, pos, negsuc, ltb_ℤ, pos_part, neg_part, ◌+ℤ◌, ◌-ℤ◌, -ℤ◌, ◌≤ℤ◌, ◌<ℤ◌}
use web_novel.Common.Word.{add64, sub64, neg64, int64, IsInt32, IsInt64}
use web_novel.Wallet.Spend.{min_ℤ}

-- The parts of a debit of `amount` that `usable` bonus and `paid` coins cover.
pub spend_parts :
    (paid usable amount : ℤ)
    → pos 0 ≤ℤ paid
    → pos_part paid < 2 ^ 31
    → pos 0 ≤ℤ usable
    → pos_part usable < 2 ^ 31
    → pos 0 <ℤ amount
    → ltb_ℤ (add64 usable paid) amount ≡ false
    → let from_bonus = min_ℤ usable amount in
      let from_paid = sub64 amount from_bonus in
      (sub64 paid from_paid ≡ paid +ℤ neg64 from_paid)
      × (sub64 usable from_bonus ≡ usable +ℤ neg64 from_bonus)
      × (pos 0 ≤ℤ sub64 paid from_paid)
      × (pos 0 ≤ℤ sub64 usable from_bonus)
      × (neg64 from_paid +ℤ neg64 from_bonus ≡ -ℤ◌ amount)
      × (amount ≤ℤ usable +ℤ paid)
unfolding add64 sub64 neg64 int64 ◌+ℤ◌ ◌-ℤ◌ -ℤ◌
spend_parts (pos p) (pos u) (pos a) h1 h2 h3 h4 h5 h6 = ground arith
spend_parts (negsuc p) u a h1 h2 h3 h4 h5 h6 = absurd (omega arith)
spend_parts (pos p) (negsuc u) a h1 h2 h3 h4 h5 h6 = absurd (omega arith)
spend_parts (pos p) (pos u) (negsuc a) h1 h2 h3 h4 h5 h6 = absurd (omega arith)

-- A debit of paid coins alone, which they cover.
pub paid_parts :
    (paid amount : ℤ)
    → pos 0 ≤ℤ paid
    → pos_part paid < 2 ^ 31
    → pos 0 <ℤ amount
    → amount ≤ℤ paid
    → (sub64 paid amount ≡ paid +ℤ neg64 amount) × (pos 0 ≤ℤ sub64 paid amount)
unfolding sub64 neg64 int64 ◌+ℤ◌ ◌-ℤ◌ -ℤ◌
paid_parts (pos p) (pos a) h1 h2 h3 h4 = ground arith
paid_parts (negsuc p) a h1 h2 h3 h4 = absurd (omega arith)
paid_parts (pos p) (negsuc a) h1 h2 h3 h4 = absurd (omega arith)

pub credit_parts :
    (have more : ℤ)
    → pos 0 ≤ℤ have
    → pos_part have < 2 ^ 31
    → IsInt32 more
    → ltb_ℤ more (pos 0) ≡ false
    → (add64 have more ≡ have +ℤ more) × (pos 0 ≤ℤ add64 have more)
unfolding add64 int64 ◌+ℤ◌
credit_parts (pos p) (pos a) h1 h2 h3 h4 = ground arith
credit_parts (negsuc p) a h1 h2 h3 h4 = absurd (omega arith)
credit_parts (pos p) (negsuc a) h1 h2 h3 h4 = ground arith

-- A sum that wraps is negative, so the guard lets through only exact sums.
pub adjust_parts :
    (have more : ℤ)
    → neg_part have ≡ 0
    → pos_part have < 2 ^ 31
    → IsInt64 more
    → ltb_ℤ (add64 have more) (pos 0) ≡ false
    → (add64 have more ≡ have +ℤ more) × (pos 0 ≤ℤ add64 have more)
unfolding add64 int64 ◌+ℤ◌
adjust_parts (pos p) (pos a) h1 h2 h3 h4 = ground arith
adjust_parts (negsuc p) a h1 h2 h3 h4 = absurd (omega arith)
adjust_parts (pos p) (negsuc a) h1 h2 h3 h4 = ground arith

pub +ℤ_zero : (a : ℤ) → a +ℤ pos 0 ≡ a
unfolding ◌+ℤ◌
+ℤ_zero a = ground arith

pub zero_+ℤ : (a : ℤ) → pos 0 +ℤ a ≡ a
unfolding ◌+ℤ◌
zero_+ℤ a = ground arith

-- Writing a bonus off leaves none.
pub +ℤ-neg64 : (a : ℤ) → neg_part a ≡ 0 → pos_part a < 2 ^ 31 → a +ℤ neg64 a ≡ pos 0
unfolding ◌+ℤ◌ neg64 int64 -ℤ◌
+ℤ-neg64 (pos n) h k = ground arith
+ℤ-neg64 (negsuc n) h k = absurd (omega arith)

-- Paid coins are taken only once the bonus is used up.
pub bonus_first_parts :
    (usable amount : ℤ)
    → pos 0 ≤ℤ usable
    → pos_part usable < 2 ^ 31
    → IsInt64 amount
    → pos 0 <ℤ amount
    → let from_bonus = min_ℤ usable amount in
      let from_paid = sub64 amount from_bonus in
      (neg64 from_paid ≢ pos 0 → sub64 usable from_bonus ≡ pos 0)
      × (neg64 from_paid ≤ℤ pos 0)
      × (neg64 from_bonus ≤ℤ pos 0)
unfolding sub64 neg64 int64 ◌+ℤ◌ ◌-ℤ◌ -ℤ◌
bonus_first_parts (pos u) (pos a) h1 h2 h3 h4 = ground arith
bonus_first_parts (negsuc u) a h1 h2 h3 h4 = absurd (omega arith)
bonus_first_parts (pos u) (negsuc a) h1 h2 h3 h4 = absurd (omega arith)
