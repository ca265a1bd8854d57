-- ===== src/Wallet/Bundle/Rounds.antt =====
-- The rounds that hand out the leftover coins. A row is fair if its share is at most its weight
-- and a positive remainder leaves room for one coin more; every round keeps that.
use web_novel.Common.{
  ℕ, zero, suc, ◌+◌, ◌*◌, ◌^◌, ◌≤◌, ◌<◌, ◌≡◌, refl, ◌⊎◌, inl, inr, Bool-cases, true, false, Option,
  ◌∙◌, none, some, List, [], ◌∷◌, All, ◌&&◌, arith,
}
use web_novel.Common.Int.{ℤ, pos, negsuc, pos_part, neg_part, ltb_ℤ, ◌+ℤ◌}
use web_novel.Common.Word.{add64, int64}
use web_novel.Wallet.Bundle.{Share, scan, give, hand_out}

-- What holds of a row in every round, where the weights add up to `s`.
pub record IsFair (s : ℕ) (r : Share) : Type 0 where
  pub weight_nonneg : neg_part r.weight ≡ 0
  pub weight_small : pos_part r.weight < 2 ^ 31
  pub share_nonneg : neg_part r.share ≡ 0
  pub share_le : pos_part r.share ≤ pos_part r.weight
  pub remainder_lt : pos_part r.remainder < s
  pub room : 0 < pos_part r.remainder → pos_part r.share < pos_part r.weight

abbrev pub share_sum : List Share → ℕ
share_sum [] = 0
share_sum (r ∷ rs) = pos_part r.share + share_sum rs

abbrev pub remainder_sum : List Share → ℕ
remainder_sum [] = 0
remainder_sum (r ∷ rs) = pos_part r.remainder + remainder_sum rs

abbrev pub weights_of : List Share → List ℤ
weights_of [] = []
weights_of (r ∷ rs) = r.weight ∷ weights_of rs

-- Row `j` is below its weight.
abbrev IsOpen : ℕ → List Share → Type 0
IsOpen j [] = ⊥
IsOpen zero (r ∷ rs) = pos_part r.share < pos_part r.weight
IsOpen (suc j) (r ∷ rs) = IsOpen j rs

add64-one : (a : ℤ) → neg_part a ≡ 0 → pos_part a < 2 ^ 31 → add64 a (pos 1) ≡ pos (pos_part a + 1)
unfolding add64 int64 ◌+ℤ◌
add64-one (pos n) h k = ground arith
add64-one (negsuc n) h k = absurd (omega arith)

-- The scan stays at `best` only where no row beats it; else it finds an open row.
scan_finds :
    (s i : ℕ) (rows : List Share) (best : Option ℕ) (best_rem : ℤ)
    → All (IsFair s) rows
    → ((scan i rows best best_rem ≡ best) × (best_rem ≡ negsuc 0 → remainder_sum rows ≡ 0))
      ⊎ ((j : ℕ) × (scan i rows best best_rem ≡ some (i + j)) × IsOpen j rows)
unfolding scan
scan_finds s i [] best best_rem h = inl (refl, λ e. refl)
scan_finds s i (r ∷ rs) best best_rem h =
    elim (Bool-cases (ltb_ℤ r.share r.weight && ltb_ℤ best_rem r.remainder)) [
      | inl better ↦ rw better (found better (scan_finds s (suc i) rs (some i) r.remainder h.1))
      | inr worse ↦ rw worse (passed worse (scan_finds s (suc i) rs best best_rem h.1))
    ]
  where
    found :
        (ltb_ℤ r.share r.weight && ltb_ℤ best_rem r.remainder) ≡ true
        → ((scan (suc i) rs (some i) r.remainder ≡ some i)
            × (r.remainder ≡ negsuc 0 → remainder_sum rs ≡ 0))
          ⊎ ((j : ℕ) × (scan (suc i) rs (some i) r.remainder ≡ some (suc i + j)) × IsOpen j rs)
        → ((scan (suc i) rs (some i) r.remainder ≡ best)
            × (best_rem ≡ negsuc 0 → remainder_sum (r ∷ rs) ≡ 0))
          ⊎ ((j : ℕ) × (scan (suc i) rs (some i) r.remainder ≡ some (i + j)) × IsOpen j (r ∷ rs))
    found b (inl (e, z)) = inr (0, ground arith, ground (arith, h.0))
    found b (inr (j, e, o)) = inr (suc j, ground arith, o)

    passed :
        (ltb_ℤ r.share r.weight && ltb_ℤ best_rem r.remainder) ≡ false
        → ((scan (suc i) rs best best_rem ≡ best) × (best_rem ≡ negsuc 0 → remainder_sum rs ≡ 0))
          ⊎ ((j : ℕ) × (scan (suc i) rs best best_rem ≡ some (suc i + j)) × IsOpen j rs)
        → ((scan (suc i) rs best best_rem ≡ best)
            × (best_rem ≡ negsuc 0 → remainder_sum (r ∷ rs) ≡ 0))
          ⊎ ((j : ℕ) × (scan (suc i) rs best best_rem ≡ some (i + j)) × IsOpen j (r ∷ rs))
    passed b (inl (e, z)) = inl (e, λ m. ground (arith, z m, h.0))
    passed b (inr (j, e, o)) = inr (suc j, ground arith, o)

-- One coin to an open row: the shares grow by one, and less than `s` of the remainders is spent.
give_step :
    (s j : ℕ) (rows : List Share)
    → All (IsFair s) rows
    → IsOpen j rows
    → All (IsFair s) (give j rows)
      × (share_sum (give j rows) ≡ share_sum rows + 1)
      × (remainder_sum rows < remainder_sum (give j rows) + s)
      × (weights_of (give j rows) ≡ weights_of rows)
unfolding give
give_step s j [] h o = elim o [ ]
give_step s zero (r ∷ rs) h o =
    ground (arith, add64-one r.share h.0.share_nonneg (omega (arith, h.0)), h.0)
give_step s (suc j) (r ∷ rs) h o = ground (arith, give_step s j rs h.1 o)

hand_out-suc :
    (n j : ℕ) (rows : List Share)
    → scan 0 rows none (negsuc 0) ≡ some (0 + j)
    → hand_out (suc n) rows ≡ hand_out n (give j rows)
unfolding hand_out
hand_out-suc n j rows e = let z : 0 + j ≡ j = omega arith in rw (e, hand_out) (rw z)

-- With `n` coins left and remainders that are worth them, all `n` are handed out, and no row is
-- taken past its weight.
pub hand_out_total :
    (s n : ℕ) (rows : List Share)
    → 0 < s
    → All (IsFair s) rows
    → n * s ≤ remainder_sum rows
    → All (IsFair s) (hand_out n rows)
      × (share_sum (hand_out n rows) ≡ share_sum rows + n)
      × (weights_of (hand_out n rows) ≡ weights_of rows)
hand_out_total s zero rows p h w = unfold hand_out in (h, omega arith, refl)
hand_out_total s (suc n) rows p h w = elim (scan_finds s 0 rows none (negsuc 0) h) [
  | inl (e, z) ↦ absurd (grind (arith, z refl))
  | inr (j, e, o) ↦
      let (f, t, r, q) = give_step s j rows h o in
      let (f', t', q') = hand_out_total s n (give j rows) p f (grind arith) in
      rw (hand_out-suc n j rows e, All) (f', omega arith, q' ∙ q)
]
