-- ===== src/Wallet/Bundle/Shares.antt =====
-- The largest-remainder split of a total over the weights: the parts add up to the total, and no
-- part exceeds its weight.
use web_novel.Common.{
  ℕ, zero, suc, ◌+◌, ◌-◌, ◌*◌, ◌/◌, ◌%◌, ◌^◌, ◌≤◌, ◌<◌, ◌≡◌, refl, ap, subst, ◌∙◌, List, [], ◌∷◌,
  All, map, ap₂, arith, false,
}
use web_novel.Common.Int.{ℤ, pos, negsuc, pos_part, neg_part, leb_ℤ, ◌+ℤ◌, ◌-ℤ◌, ◌*ℤ◌, ◌≤ℤ◌}
use web_novel.Common.Word.{add64, sub64, mul64, div64, rem64, int64, int64_exact}
use native.Mathlib.Nat.{
  div-add-mod', mod-lt, mul-le-mul_left, le_of_mul-le-mul_right, lt_of_mul-lt-mul_right,
}
use web_novel.Wallet.Bundle.{Share, sum64, floor_share, hand_out, shares, allocate_proportional}
use web_novel.Wallet.Bundle.Rounds.{IsFair, share_sum, remainder_sum, weights_of, hand_out_total}

abbrev pub amount_sum : List ℤ → ℕ
amount_sum [] = 0
amount_sum (w ∷ ws) = pos_part w + amount_sum ws

abbrev pub IsNonneg : ℤ → Type 0
IsNonneg a = neg_part a ≡ 0

-- Part by part, from 0 to the weight; the lists have one length.
abbrev pub Within : List ℤ → List ℤ → Type 0
Within [] [] = Unit
Within [] (w ∷ ws) = ⊥
Within (x ∷ xs) [] = ⊥
Within (x ∷ xs) (w ∷ ws) = (pos 0 ≤ℤ x) × (x ≤ℤ w) × Within xs ws

mul_lt : (a b : ℕ) → a < 2 ^ 31 → b < 2 ^ 31 → a * b < 2 ^ 63
mul_lt a b h k = grind arith

-- A product of two small amounts does not wrap.
pub mul64-pos : (a b : ℕ) → a < 2 ^ 31 → b < 2 ^ 31 → mul64 (pos a) (pos b) ≡ pos (a * b)
unfolding mul64 ◌*ℤ◌
mul64-pos a b h k = ground (arith, int64_exact (pos (a * b)), mul_lt a b h k)

-- With `q * s + r` equal to `w * t` and `t` at most `s`, the quotient is at most `w`.
quotient_le : (q r w t s : ℕ) → 0 < s → t ≤ s → q * s + r ≡ w * t → (q ≤ w) × (0 < r → q < w)
quotient_le q r w t s p h e =
    let below : w * t ≤ w * s = mul-le-mul_left w h in
    (
      le_of_mul-le-mul_right {k = s} (omega arith) p,
      λ pr. lt_of_mul-lt-mul_right s {m = q} {n = w} (omega arith),
    )

pub add_nonneg :
    (a b : ℤ)
    → IsNonneg a
    → IsNonneg b
    → pos_part a + pos_part b < 2 ^ 63
    → add64 a b ≡ pos (pos_part a + pos_part b)
unfolding add64 int64 ◌+ℤ◌
add_nonneg (pos a) (pos b) h k m = ground arith
add_nonneg (negsuc a) b h k m = absurd (omega arith)
add_nonneg (pos a) (negsuc b) h k m = absurd (omega arith)

floor_part :
    (w t s : ℕ)
    → 0 < s
    → t ≤ s
    → (w * t / s ≤ w)
      × (w * t % s < s)
      × (0 < w * t % s → w * t / s < w)
      × (w * t / s * s + w * t % s ≡ w * t)
floor_part w t s p h =
    let e = div-add-mod' (w * t) s in
    let (le, lt) = quotient_le (w * t / s) (w * t % s) w t s p h e in (le, mod-lt (w * t) p, lt, e)

floor_share-IsFair :
    (s t : ℕ) (w : ℤ)
    → 0 < s
    → s < 2 ^ 31
    → t ≤ s
    → IsNonneg w
    → pos_part w < 2 ^ 31
    → IsFair s (floor_share (pos t) (pos s) w)
      × (pos_part (floor_share (pos t) (pos s) w).share * s
            + pos_part (floor_share (pos t) (pos s) w).remainder
          ≡ pos_part w * t)
unfolding floor_share div64 rem64
floor_share-IsFair s t (pos w) p h k n m =
    rw (mul64-pos w t m (omega arith)) (ground (arith, floor_part w t s p k))
floor_share-IsFair s t (negsuc w) p h k n m = absurd (omega arith)

floor_share-weight : (total sum w : ℤ) → (floor_share total sum w).weight ≡ w
unfolding floor_share
floor_share-weight total sum w = refl

-- The floor pass over all the weights.
floor_rows :
    (s t : ℕ) (ws : List ℤ)
    → 0 < s
    → s < 2 ^ 31
    → t ≤ s
    → All IsNonneg ws
    → amount_sum ws < 2 ^ 31
    → let rows = map (floor_share (pos t) (pos s)) ws in
      All (IsFair s) rows
      × (share_sum rows * s + remainder_sum rows ≡ amount_sum ws * t)
      × (weights_of rows ≡ ws)
floor_rows s t [] p h k n m = (tt, ground arith, refl)
floor_rows s t (w ∷ ws) p h k n m =
    let (fair, e) = floor_share-IsFair s t w p h k n.0 (omega arith) in
    let (fairs, es, names) = floor_rows s t ws p h k n.1 (omega arith) in
    ((fair, fairs), grind (arith, e, es), rw (floor_share-weight (pos t) (pos s) w, names))

-- A sum of amounts that stays in range does not wrap.
pub sum64-amount_sum :
    (acc : ℤ) (ws : List ℤ)
    → IsNonneg acc
    → All IsNonneg ws
    → pos_part acc + amount_sum ws < 2 ^ 63
    → sum64 acc ws ≡ pos (pos_part acc + amount_sum ws)
unfolding sum64
sum64-amount_sum acc [] a n h = of_nonneg acc a
  where
    of_nonneg : (a : ℤ) → IsNonneg a → a ≡ pos (pos_part a + 0)
    of_nonneg a h = ground arith
sum64-amount_sum acc (w ∷ ws) a n h = rw (add_nonneg acc w a n.0 (omega arith)) (
    sum64-amount_sum (pos (pos_part acc + pos_part w)) ws refl n.1 (omega arith)
    ∙ ap pos (omega arith))

shares_sum :
    (s : ℕ) (rows : List Share)
    → All (IsFair s) rows
    → All IsNonneg (shares rows)
      × (amount_sum (shares rows) ≡ share_sum rows)
      × (share_sum rows ≤ amount_sum (weights_of rows))
      × Within (shares rows) (weights_of rows)
shares_sum s [] h = (tt, refl, omega arith, tt)
shares_sum s (r ∷ rs) h = ground (arith, shares_sum s rs h.1, h.0)

zeros_split :
    (ws : List ℤ)
    → All IsNonneg ws
    → (amount_sum (map (λ (w : ℤ). pos 0) ws) ≡ 0) × Within (map (λ (w : ℤ). pos 0) ws) ws
zeros_split [] h = (refl, tt)
zeros_split (w ∷ ws) h = ground (arith, zeros_split ws h.1)

leftover_worth : (p r w t s : ℕ) → p * s + r ≡ w * t → w ≡ s → p ≤ t → (t - p) * s ≤ r
leftover_worth p r w t s f e h = worth (t - p) (f ∙ ap₂ (λ (x y : ℕ). x * y) e (omega arith))
  where
    worth : (k : ℕ) → p * s + r ≡ s * (k + p) → k * s ≤ r
    worth k g = omega arith

pub sub_small : (a b : ℕ) → b ≤ a → a < 2 ^ 63 → sub64 (pos a) (pos b) ≡ pos (a - b)
unfolding sub64 int64 ◌-ℤ◌
sub_small a b h k = ground arith

-- The leftover after the floor pass is handed out whole.
positive_split :
    (s t : ℕ) (ws : List ℤ)
    → 0 < s
    → s < 2 ^ 31
    → t ≤ s
    → All IsNonneg ws
    → amount_sum ws ≡ s
    → let rows = map (floor_share (pos t) (pos s)) ws in
      let out = shares (hand_out (pos_part (sub64 (pos t) (sum64 (pos 0) (shares rows)))) rows) in
      (amount_sum out ≡ t) × Within out ws
positive_split s t ws p h k n e =
    let rows = map (floor_share (pos t) (pos s)) ws in
    let (fair, f, names) = floor_rows s t ws p h k n (omega arith) in
    let (nonneg, m, below, _) = shares_sum s rows fair in
    let small : share_sum rows ≤ t = le_of_mul-le-mul_right {k = s} (grind (arith, f, e)) p in
    let paid : sum64 (pos 0) (shares rows) ≡ pos (share_sum rows) =
      sum64-amount_sum (pos 0) (shares rows) refl nonneg (omega arith) ∙ ap pos (omega arith) in
    let worth : (t - share_sum rows) * s ≤ remainder_sum rows =
      leftover_worth (share_sum rows) (remainder_sum rows) (amount_sum ws) t s f e small in
    let (fair', given, names') = hand_out_total s (t - share_sum rows) rows p fair worth in
    let (_, m', _, within) = shares_sum s (hand_out (t - share_sum rows) rows) fair' in
    rw (paid, sub_small t (share_sum rows) small (omega arith))
      (
        m' ∙ given ∙ omega arith,
        subst (Within (shares (hand_out (t - share_sum rows) rows))) (names' ∙ names) within,
      )

pos_not_le : (n : ℕ) → 0 < n → leb_ℤ (pos n) (pos 0) ≡ false
pos_not_le n h = ground arith

allocate_positive :
    (ws : List ℤ) (t s : ℕ)
    → 0 < t
    → 0 < s
    → sum64 (pos 0) ws ≡ pos s
    → let rows = map (floor_share (pos t) (pos s)) ws in
      allocate_proportional ws (pos t)
      ≡ shares (hand_out (pos_part (sub64 (pos t) (sum64 (pos 0) (shares rows)))) rows)
unfolding allocate_proportional
allocate_positive ws t s p q e = rw (e, pos_not_le t p, pos_not_le s q)

-- The parts of the split add up to the total, and each lies between 0 and its weight.
pub allocate_proportional_exact :
    (weights : List ℤ) (total : ℤ)
    → All IsNonneg weights
    → amount_sum weights < 2 ^ 31
    → IsNonneg total
    → pos_part total ≤ amount_sum weights
    → (amount_sum (allocate_proportional weights total) ≡ pos_part total)
      × Within (allocate_proportional weights total) weights
allocate_proportional_exact ws (negsuc t) n h z k = absurd (omega arith)
allocate_proportional_exact ws (pos zero) n h z k = unfold allocate_proportional in zeros_split ws n
allocate_proportional_exact ws (pos (suc t)) n h z k =
    let total = amount_sum ws in
    let added : sum64 (pos 0) ws ≡ pos total =
      sum64-amount_sum (pos 0) ws refl n (omega arith) ∙ ap pos (omega arith) in
    rw (allocate_positive ws (suc t) total (omega arith) (omega arith) added)
      (positive_split total (suc t) ws (omega arith) h k n refl)
