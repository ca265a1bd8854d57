-- ===== src/Wallet/Bundle.antt =====
-- Arc bundles and fees (domain/wallet/bundle.go and NetCoins of wallet.go): the price of a set of
-- chapters, and each chapter's share of it by largest remainder.
pub mod Rounds
pub mod Shares
pub mod Quote
use web_novel.Common.{
  ℕ, zero, suc, ◌+◌, Bool, true, false, Option, none, some, List, [], ◌∷◌, map, length,
  if◌then◌else◌, ◌&&◌,
}
use web_novel.Common.Int.{ℤ, pos, negsuc, pos_part, ltb_ℤ, leb_ℤ}
use web_novel.Common.Word.{add64, sub64, mul64, div64, rem64}
use web_novel.Common.Result.{ok, err, ◌>>=◌}
use web_novel.Wallet.Types.{invalid_amount, arc_already_owned, arc_not_for_sale, Outcome}

abbrev pub arc_bundle_discount_percent : ℤ
arc_bundle_discount_percent = pos 15

pub record BundleQuote : Type 0 where
  pub gross : ℤ
  pub discount_percent : ℤ
  pub discount : ℤ
  pub total : ℤ
  pub per_chapter : List ℤ

-- The slices `weights`, `out` and `remainders`, which have one length, as a list of rows.
pub record Share : Type 0 where
  pub weight : ℤ
  pub share : ℤ
  pub remainder : ℤ

-- `sum += w` over a slice, from `acc`.
unfoldable pub sum64 : ℤ → List ℤ → ℤ
sum64 acc [] = acc
sum64 acc (w ∷ ws) = sum64 (add64 acc w) ws

-- One round of the floor pass; `sum` is positive.
unfoldable pub floor_share : ℤ → ℤ → ℤ → Share
floor_share total sum w =
    let scaled = mul64 w total in
    record {
      weight = w;
      share = div64 scaled (pos_part sum);
      remainder = rem64 scaled (pos_part sum);
    }

-- The inner loop: the index of the largest remainder among the rows below their weight, from
-- index `i`, with `best` (`none` is -1) and `best_rem` so far.
unfoldable pub scan : ℕ → List Share → Option ℕ → ℤ → Option ℕ
scan i [] best best_rem = best
scan i (r ∷ rs) best best_rem =
    let better = ltb_ℤ r.share r.weight && ltb_ℤ best_rem r.remainder in
    scan (suc i) rs (if better then some i else best) (if better then r.remainder else best_rem)

-- `out[best]++; remainders[best] = -1`
unfoldable pub give : ℕ → List Share → List Share
give i [] = []
give zero (r ∷ rs) = record r { share = add64 r.share (pos 1); remainder = negsuc 0 } ∷ rs
give (suc i) (r ∷ rs) = r ∷ give i rs

-- The loop that hands out the leftover, one coin a round.
unfoldable pub hand_out : ℕ → List Share → List Share
hand_out zero rows = rows
hand_out (suc n) rows = elim (scan 0 rows none (negsuc 0)) [
  | none ↦ rows
  | some i ↦ hand_out n (give i rows)
]

abbrev pub shares : List Share → List ℤ
shares = map (λ (r : Share). r.share)

unfoldable pub allocate_proportional : List ℤ → ℤ → List ℤ
allocate_proportional weights total =
    let zeros = map (λ (w : ℤ). pos 0) weights in
    let sum = sum64 (pos 0) weights in
    let rows = map (floor_share total sum) weights in
    let leftover = sub64 total (sum64 (pos 0) (shares rows)) in
    if leb_ℤ total (pos 0)
    then zeros
    else if leb_ℤ sum (pos 0)
    then zeros
    else shares (hand_out (pos_part leftover) rows)

-- The loop over the prices: a negative one is an error, the others add up.
unfoldable pub gross_from : ℤ → List ℤ → Outcome ℤ
gross_from acc [] = ok acc
gross_from acc (p ∷ ps) =
    let rest = gross_from (add64 acc p) ps in if ltb_ℤ p (pos 0) then err invalid_amount else rest

abbrev pub clamp_percent : ℤ → ℤ
clamp_percent d =
    let d' = if ltb_ℤ d (pos 0) then pos 0 else d in if ltb_ℤ (pos 100) d' then pos 100 else d'

unfoldable pub quote_of : List ℤ → ℤ → ℤ → BundleQuote
quote_of prices percent gross =
    let discount = div64 (mul64 gross percent) 100 in
    let total = sub64 gross discount in
    record {
      gross = gross;
      discount_percent = percent;
      discount = discount;
      total = total;
      per_chapter = allocate_proportional prices total;
    }

unfoldable pub quote_bundle : List ℤ → ℤ → Outcome BundleQuote
quote_bundle [] discount_percent = err arc_already_owned
quote_bundle (p ∷ ps) discount_percent = gross_from (pos 0) (p ∷ ps) >>= λ gross.
    if leb_ℤ gross (pos 0)
    then err arc_not_for_sale
    else ok (quote_of (p ∷ ps) (clamp_percent discount_percent) gross)

-- `NetCoins`: what is left of `gross` once the platform's fee is off.
unfoldable pub net_coins : ℤ → ℤ → ℤ
net_coins gross fee_percent =
    if leb_ℤ fee_percent (pos 0)
    then gross
    else if leb_ℤ (pos 100) fee_percent
    then pos 0
    else sub64 gross (div64 (mul64 gross fee_percent) 100)
