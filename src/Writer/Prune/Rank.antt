-- ===== src/Writer/Prune/Rank.antt =====
-- Which autosaves are deleted: those with enough newer ones.
use web_novel.Common.{
  ℕ, zero, suc, ◌≡◌, refl, sym, ap, ap₂, subst, ◌∙◌, Bool-cases, true, false, inl, inr, List, [],
  ◌∷◌, ◌==◌, not, any, leb, arith,
}
use web_novel.Common.Int.{ℤ, eqb_ℤ, eqb_ℤ_iff}
use web_novel.Writer.Types.{DraftRow}
use web_novel.Writer.Rules.{newer, sort_drafts, drop_drafts, draft_ids, doomed}
use web_novel.Writer.Store.{has_id}
use web_novel.Writer.Prune.{count, sort_drafts-count}
use web_novel.Writer.Prune.Order.{
  same_draft, distinct_drafts, all_older, newest_first, after, after_not_back, both, other_id,
  sort_drafts-newest_first, sort_drafts-distinct_drafts, sort_drafts-any,
}

same_keys : (d x : DraftRow) → same_draft d x ≡ true → (x.id ≡ d.id) × (x.saved_at ≡ d.saved_at)
same_keys d x h =
    let (i, t) = both (x.id == d.id) (eqb_ℤ x.saved_at d.saved_at) h in
    (ground arith, (eqb_ℤ_iff x.saved_at d.saved_at).0 t)

-- Rows with the same key stand alike in the order.
same_order :
    (d x e : DraftRow) → same_draft d x ≡ true → (newer x e ≡ newer d e) × (newer e x ≡ newer e d)
same_order d x e h =
    let (i, t) = same_keys d x h in
    (
      ap₂ (λ (z : ℤ) (k : ℕ). after z k e.saved_at e.id) t i,
      ap₂ (λ (z : ℤ) (k : ℕ). after e.saved_at e.id z k) t i,
    )

none_newer :
    (d x : DraftRow) (xs : List DraftRow)
    → same_draft d x ≡ true
    → all_older x xs ≡ true
    → count (λ e. newer e d) xs ≡ 0
none_newer d x [] s h = refl
none_newer d x (e ∷ es) s h =
    let (first, others) = both (newer x e) (all_older x es) h in
    let back : newer e d ≡ false =
      after_not_back d.saved_at e.saved_at d.id e.id (sym (same_order d x e s).0 ∙ first) in
    let rest = none_newer d x es s others in rw (back, rest) refl

newer_than_found :
    (d x : DraftRow) (xs : List DraftRow)
    → all_older x xs ≡ true
    → any (same_draft d) xs ≡ true
    → newer x d ≡ true
newer_than_found d x [] h m = absurd (cc)
newer_than_found d x (e ∷ es) h m =
    let (first, others) = both (newer x e) (all_older x es) h in
    elim (Bool-cases (same_draft d e)) [
      | inl here ↦ sym (same_order d e x here).1 ∙ first
      | inr further ↦ newer_than_found d x es others (rw further at m)
    ]

found-has_id :
    (d : DraftRow) (xs : List DraftRow)
    → any (same_draft d) xs ≡ true
    → has_id d.id (draft_ids xs) ≡ true
found-has_id d [] m = absurd (cc)
found-has_id d (e ∷ es) m = ground (arith, found-has_id d es)

drop_drafts-has_id :
    (keep k : ℕ) (ds : List DraftRow)
    → has_id k (draft_ids ds) ≡ false
    → has_id k (draft_ids (drop_drafts keep ds)) ≡ false
drop_drafts-has_id zero k ds h = h
drop_drafts-has_id (suc keep) k [] h = refl
drop_drafts-has_id (suc keep) k (d ∷ ds) h =
    drop_drafts-has_id keep k ds (other_id k d.id (draft_ids ds) h).1

rank_first :
    (keep : ℕ) (d x : DraftRow) (xs : List DraftRow)
    → same_draft d x ≡ true
    → all_older x xs ≡ true
    → has_id x.id (draft_ids xs) ≡ false
    → has_id d.id (draft_ids (drop_drafts keep (x ∷ xs)))
      ≡ leb keep (count (λ e. newer e d) (x ∷ xs))
rank_first keep d x xs here older fresh =
    let (i, t) = same_keys d x here in
    let irreflexive : newer d d ≡ false = ground arith in
    let self : newer x d ≡ false = (same_order d x d here).0 ∙ irreflexive in
    let zero_newer = none_newer d x xs here older in
    let own : (x.id == d.id) ≡ true = ground arith in
    let gone : has_id d.id (draft_ids xs) ≡ false =
      subst (λ (k : ℕ). has_id k (draft_ids xs) ≡ false) i fresh in
    at keep self zero_newer own gone
  where
    at :
        (keep : ℕ)
        → newer x d ≡ false
        → count (λ e. newer e d) xs ≡ 0
        → (x.id == d.id) ≡ true
        → has_id d.id (draft_ids xs) ≡ false
        → has_id d.id (draft_ids (drop_drafts keep (x ∷ xs)))
          ≡ leb keep (count (λ e. newer e d) (x ∷ xs))
    at zero self none_left own gone = rw (own, self, none_left) refl
    at (suc k) self none_left own gone =
        let dropped = drop_drafts-has_id k d.id xs gone in
        rw (dropped, self, none_left) (ground arith)

rank_later :
    (keep : ℕ) (d x : DraftRow) (xs : List DraftRow)
    → newer x d ≡ true
    → has_id d.id (draft_ids xs) ≡ true
    → ((k : ℕ) → has_id d.id (draft_ids (drop_drafts k xs)) ≡ leb k (count (λ e. newer e d) xs))
    → has_id d.id (draft_ids (drop_drafts keep (x ∷ xs)))
      ≡ leb keep (count (λ e. newer e d) (x ∷ xs))
rank_later zero d x xs n inside rest = rw (n) (ground (arith, inside))
rank_later (suc k) d x xs n inside rest = let further = rest k in rw (n, further) (ground arith)

-- In a list that is sorted, the rows after the first `keep` are those with `keep` newer ones.
rank_sorted :
    (keep : ℕ) (d : DraftRow) (xs : List DraftRow)
    → newest_first xs ≡ true
    → distinct_drafts xs ≡ true
    → any (same_draft d) xs ≡ true
    → has_id d.id (draft_ids (drop_drafts keep xs)) ≡ leb keep (count (λ e. newer e d) xs)
rank_sorted keep d [] n u m = absurd (cc)
rank_sorted keep d (x ∷ xs) n u m =
    let (older, sorted) = both (all_older x xs) (newest_first xs) n in
    let (fresh, apart) = both (not (has_id x.id (draft_ids xs))) (distinct_drafts xs) u in
    elim (Bool-cases (same_draft d x)) [
      | inl here ↦ rank_first keep d x xs here older (ground arith)
      | inr further ↦
          let inside : any (same_draft d) xs ≡ true = rw further at m in
          let newer_x = newer_than_found d x xs older inside in
          rank_later keep d x xs newer_x (found-has_id d xs inside)
            (λ k. rank_sorted k d xs sorted apart inside)
    ]

-- The autosaves that are deleted are those of which at least `keep` are newer, where their identifiers
-- are different: neither the order in which they are read nor a shared instant matters.
pub doomed_lem :
    (keep : ℕ) (d : DraftRow) (revs : List DraftRow)
    → distinct_drafts revs ≡ true
    → any (same_draft d) revs ≡ true
    → has_id d.id (doomed keep revs) ≡ leb keep (count (λ e. newer e d) revs)
unfolding doomed
doomed_lem keep d revs u m =
    rank_sorted keep d (sort_drafts revs) (sort_drafts-newest_first revs u)
      (sort_drafts-distinct_drafts revs u) (sort_drafts-any (same_draft d) revs ∙ m)
    ∙ ap (leb keep) (sort_drafts-count (λ e. newer e d) revs)
