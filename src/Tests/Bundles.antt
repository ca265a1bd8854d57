-- ===== src/Tests/Bundles.antt =====
-- A bundle of three chapters at 5, 5 and 7 coins.
use web_novel.Common.{◌+◌, ◌*◌, ◌-◌, ◌≡◌, ◌≤◌, ◌<◌, refl, List, [], ◌∷◌, All, arith}
use web_novel.Common.Int.{ℤ, ◌+ℤ◌, ◌*ℤ◌, ◌-ℤ◌, pos, pos_part}
use web_novel.Common.Word.{int64, add64, sub64, mul64, div64, rem64}
use web_novel.Common.Result.{ok}
use web_novel.Wallet.Bundle.{
  BundleQuote, clamp_percent, quote_bundle, quote_of, gross_from, sum64, floor_share, scan, give,
  hand_out, allocate_proportional, net_coins,
}
use web_novel.Wallet.Bundle.Shares.{amount_sum, IsNonneg, Within, allocate_proportional_exact}
use web_novel.Wallet.Bundle.Quote.{quote_bundle_exact, net_coins_bounds}

abbrev prices : List ℤ
prices = pos 5 ∷ pos 5 ∷ pos 7 ∷ []

abbrev quote : BundleQuote
quote = record {
  gross = pos 17;
  discount_percent = pos 15;
  discount = pos 2;
  total = pos 15;
  per_chapter = pos 5 ∷ pos 4 ∷ pos 6 ∷ [];
}

prices_quoted : quote_bundle prices (pos 15) ≡ ok quote
unfolding quote_bundle quote_of gross_from sum64 floor_share scan give hand_out
    allocate_proportional add64 sub64 mul64 div64 rem64 int64 ◌+ℤ◌ ◌*ℤ◌ ◌-ℤ◌
prices_quoted = refl

quote_bundle_exact_example :
    All IsNonneg prices
    × (pos 17 ≡ pos (amount_sum prices))
    × (0 < amount_sum prices)
    × (amount_sum (quote.per_chapter) ≡ 15)
    × Within (quote.per_chapter) prices
    × (15 + 2 ≡ amount_sum prices)
    × (2 * 100 ≤ amount_sum prices * pos_part (clamp_percent (pos 15)))
    × (amount_sum prices * pos_part (clamp_percent (pos 15)) < 2 * 100 + 100)
quote_bundle_exact_example = quote_bundle_exact prices (pos 15) (omega arith) prices_quoted

allocate_proportional_exact_example :
    (amount_sum (allocate_proportional prices (pos 15)) ≡ 15)
    × Within (allocate_proportional prices (pos 15)) prices
allocate_proportional_exact_example =
    allocate_proportional_exact prices (pos 15) (omega arith) (omega arith) refl (omega arith)

net_coins_bounds_example :
    let net = net_coins (pos 9) (pos 30) in
    IsNonneg net
    × (pos_part net ≤ 9)
    × (9 * (100 - pos_part (clamp_percent (pos 30))) ≤ pos_part net * 100)
    × (pos_part net * 100 < 9 * (100 - pos_part (clamp_percent (pos 30))) + 100)
net_coins_bounds_example = net_coins_bounds (pos 9) (pos 30) refl (omega arith)
