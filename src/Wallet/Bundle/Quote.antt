-- ===== src/Wallet/Bundle/Quote.antt =====
-- The quote of a bundle and the translator's net: what they add up to and which way they round.
use web_novel.Common.{
  ℕ, ◌+◌, ◌-◌, ◌*◌, ◌/◌, ◌^◌, ◌≤◌, ◌<◌, ◌≡◌, refl, ap, ◌∙◌, List, [], ◌∷◌, All, Bool-cases, inl,
  inr, if◌then◌else◌, arith,
}
use web_novel.Common.Int.{ℤ, pos, negsuc, pos_part, neg_part, ltb_ℤ, leb_ℤ}
use web_novel.Common.Word.{add64, div64}
use web_novel.Common.Result.{ok, err, >>=-eq-ok}
use native.Mathlib.Nat.{mul-le-mul_left}
use web_novel.Wallet.Types.{arc_not_for_sale}
use web_novel.Wallet.Bundle.{
  BundleQuote, clamp_percent, gross_from, quote_of, quote_bundle, net_coins,
}
use web_novel.Wallet.Bundle.Shares.{
  amount_sum, IsNonneg, Within, add_nonneg, mul64-pos, sub_small, allocate_proportional_exact,
}

-- The loop over the prices adds them up, and ends only if none is negative.
gross_from_exact :
    (acc : ℤ) (ps : List ℤ) {g : ℤ}
    → IsNonneg acc
    → pos_part acc + amount_sum ps < 2 ^ 63
    → gross_from acc ps ≡ ok g
    → All IsNonneg ps × (g ≡ pos (pos_part acc + amount_sum ps))
unfolding gross_from
gross_from_exact acc [] n h e = ground arith
gross_from_exact acc (p ∷ ps) n h e = elim (Bool-cases (ltb_ℤ p (pos 0))) [
  | inl below ↦ absurd (ground arith)
  | inr above ↦
      let m : IsNonneg p = ground arith in
      let added : add64 acc p ≡ pos (pos_part acc + pos_part p) =
        add_nonneg acc p n m (omega arith) in
      let (ms, g) =
        gross_from_exact (add64 acc p) ps (rw added refl) (rw added (omega arith)) (ground arith) in
      ((m, ms), g ∙ rw added (ap pos (omega arith)))
]

-- Clamped, the percentage lies between 0 and 100.
clamp_percent_bounds :
    (d : ℤ) → (neg_part (clamp_percent d) ≡ 0) × (pos_part (clamp_percent d) ≤ 100)
clamp_percent_bounds d = ground arith

-- The quote of positive prices, with the discount rounded down and the total split exactly.
quote_of_exact :
    (prices : List ℤ) (percent : ℤ)
    → All IsNonneg prices
    → amount_sum prices < 2 ^ 31
    → IsNonneg percent
    → pos_part percent ≤ 100
    → let q = quote_of prices percent (pos (amount_sum prices)) in
      (q.gross ≡ pos (amount_sum prices))
      × (amount_sum q.per_chapter ≡ pos_part q.total)
      × Within q.per_chapter prices
      × (pos_part q.total + pos_part q.discount ≡ amount_sum prices)
      × (pos_part q.discount * 100 ≤ amount_sum prices * pos_part percent)
      × (amount_sum prices * pos_part percent < pos_part q.discount * 100 + 100)
unfolding quote_of div64
quote_of_exact prices (negsuc d) n h m k = absurd (omega arith)
quote_of_exact prices (pos d) n h m k =
    let gross = amount_sum prices in
    let most : gross * d ≤ gross * 100 = mul-le-mul_left gross k in
    let cut : gross * d / 100 ≤ gross = omega arith in
    let (sum, within) =
      allocate_proportional_exact prices (pos (gross - gross * d / 100)) n h refl (omega arith) in
    rw (mul64-pos gross d h (omega arith), sub_small gross (gross * d / 100) cut (omega arith))
      (refl, sum, within, omega arith, omega arith, omega arith)

accepted :
    (prices : List ℤ) (percent : ℤ) (g : ℕ) {q : BundleQuote}
    → (if leb_ℤ (pos g) (pos 0) then err arc_not_for_sale else ok (quote_of prices percent (pos g)))
      ≡ ok q
    → (0 < g) × (q ≡ quote_of prices percent (pos g))
accepted prices percent g e = ground arith

-- A bundle that is quoted has no negative price. Its gross is the sum of the prices; the discount
-- is the percentage of it rounded down, and the total is what is left; the shares add up to the
-- total, and none exceeds the chapter's price.
pub quote_bundle_exact :
    (prices : List ℤ) (percent : ℤ) {q : BundleQuote}
    → amount_sum prices < 2 ^ 31
    → quote_bundle prices percent ≡ ok q
    → All IsNonneg prices
      × (q.gross ≡ pos (amount_sum prices))
      × (0 < amount_sum prices)
      × (amount_sum q.per_chapter ≡ pos_part q.total)
      × Within q.per_chapter prices
      × (pos_part q.total + pos_part q.discount ≡ amount_sum prices)
      × (pos_part q.discount * 100 ≤ amount_sum prices * pos_part (clamp_percent percent))
      × (amount_sum prices * pos_part (clamp_percent percent) < pos_part q.discount * 100 + 100)
unfolding quote_bundle
quote_bundle_exact [] percent h e = absurd (ground arith)
quote_bundle_exact (p ∷ ps) percent {q} h e =
    let (gross, ran, e') = >>=-eq-ok (gross_from (pos 0) (p ∷ ps)) _ e in
    let (nonneg, summed) = gross_from_exact (pos 0) (p ∷ ps) refl (omega arith) ran in
    let g : gross ≡ pos (amount_sum (p ∷ ps)) = summed ∙ ap pos (omega arith) in
    let (positive, same) =
      accepted (p ∷ ps) (clamp_percent percent) (amount_sum (p ∷ ps)) (rw g at e') in
    let (low, high) = clamp_percent_bounds percent in
    let all = quote_of_exact (p ∷ ps) (clamp_percent percent) nonneg h low high in
    rw same (nonneg, all.0, positive, all.1, all.2, all.3, all.4, all.5)

fee_le : (g f : ℕ) → f ≤ 100 → g * f / 100 ≤ g
fee_le g f k = let most : g * f ≤ g * 100 = mul-le-mul_left g k in omega arith

pieces : (g k c : ℕ) → k + c ≡ 100 → g * k + g * c ≡ g * 100
pieces g k c e = rw (← e) (omega arith)

-- The net in one formula, with the percentage clamped.
net_coins-eq :
    (g : ℕ) (fee_percent : ℤ)
    → g < 2 ^ 31
    → net_coins (pos g) fee_percent ≡ pos (g - g * pos_part (clamp_percent fee_percent) / 100)
unfolding net_coins div64
net_coins-eq g (negsuc f) h = ground arith
net_coins-eq g (pos f) h = ground (arith, mul64-pos g f h, sub_small g (g * f / 100), fee_le g f)

-- What the platform keeps of an unlock is its percentage of the gross rounded down, so the
-- translator gets at least the rest of the percentage and at most the gross.
pub net_coins_bounds :
    (gross fee_percent : ℤ)
    → IsNonneg gross
    → pos_part gross < 2 ^ 31
    → let net = net_coins gross fee_percent in
      IsNonneg net
      × (pos_part net ≤ pos_part gross)
      × (pos_part gross * (100 - pos_part (clamp_percent fee_percent)) ≤ pos_part net * 100)
      × (pos_part net * 100 < pos_part gross * (100 - pos_part (clamp_percent fee_percent)) + 100)
net_coins_bounds (negsuc g) fee_percent n h = absurd (omega arith)
net_coins_bounds (pos g) fee_percent n h =
    let c = pos_part (clamp_percent fee_percent) in
    let kept : g * (100 - c) + g * c ≡ g * 100 =
      pieces g (100 - c) c (omega (arith, (clamp_percent_bounds fee_percent).1)) in
    rw (net_coins-eq g fee_percent h) (refl, omega arith, omega arith, omega arith)
