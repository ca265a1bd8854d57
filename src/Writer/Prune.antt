-- ===== src/Writer/Prune.antt =====
-- Pruning the autosaves of a chapter (PruneRevisions and pruneRevisions).
pub mod Order
pub mod Rank
use web_novel.Common.{
  ℕ, zero, suc, ◌+◌, ◌≤◌, ◌≡◌, refl, Bool, true, false, List, [], ◌∷◌, ◌==◌, if◌then◌else◌, not,
  arith,
}
use web_novel.Writer.Types.{DraftRow}
use web_novel.Writer.Rules.{insert_draft, sort_drafts, drop_drafts, draft_ids, doomed}
use web_novel.Writer.Store.{is_draft_of, keep_if, has_id, prune_revisions}

abbrev pub count : (DraftRow → Bool) → List DraftRow → ℕ
count p [] = 0
count p (d ∷ ds) = let rest = count p ds in if p d then rest + 1 else rest

keep_if-count :
    (p test : DraftRow → Bool) (ds : List DraftRow) → count p (keep_if test ds) ≤ count p ds
keep_if-count p test [] = omega arith
keep_if-count p test (d ∷ ds) = ground (arith, keep_if-count p test ds)

-- Counting twice tested rows.
both-count :
    (p test : DraftRow → Bool) (ds : List DraftRow)
    → count p (keep_if test ds) ≡ count test (keep_if p ds)
both-count p test [] = refl
both-count p test (d ∷ ds) = ground (arith, both-count p test ds)

insert_draft-count :
    (p : DraftRow → Bool) (d : DraftRow) (ds : List DraftRow)
    → count p (insert_draft d ds) ≡ count p (d ∷ ds)
unfolding insert_draft
insert_draft-count p d [] = refl
insert_draft-count p d (e ∷ ds) = ground (arith, insert_draft-count p d ds)

pub sort_drafts-count :
    (p : DraftRow → Bool) (ds : List DraftRow) → count p (sort_drafts ds) ≡ count p ds
unfolding sort_drafts
sort_drafts-count p [] = refl
sort_drafts-count p (d ∷ ds) =
    let moved = insert_draft-count p d (sort_drafts ds) in
    let rest = sort_drafts-count p ds in ground (arith, moved, rest)

abbrev pub outlives : List ℕ → DraftRow → Bool
outlives gone d = not (has_id d.id gone)

none_outlives :
    (ds : List DraftRow) (gone : List ℕ)
    → ((id : ℕ) → has_id id (draft_ids ds) ≡ true → has_id id gone ≡ true)
    → count (outlives gone) ds ≡ 0
none_outlives [] gone within = refl
none_outlives (d ∷ ds) gone within =
    let own : has_id d.id (draft_ids (d ∷ ds)) ≡ true = ground arith in
    let out : has_id d.id gone ≡ true = within d.id own in
    let rest = none_outlives ds gone (λ id h. within id (ground arith)) in rw (out) rest

-- Of a list whose rows after the first `keep` are gone, at most `keep` outlive.
few_outlive :
    (keep : ℕ) (ds : List DraftRow) (gone : List ℕ)
    → ((id : ℕ) → has_id id (draft_ids (drop_drafts keep ds)) ≡ true → has_id id gone ≡ true)
    → count (outlives gone) ds ≤ keep
few_outlive zero ds gone within =
    let none_left = none_outlives ds gone within in omega (arith, none_left)
few_outlive (suc keep) [] gone within = omega arith
few_outlive (suc keep) (d ∷ ds) gone within = ground (arith, few_outlive keep ds gone within)

pub prune_revisions-count :
    (chapter keep : ℕ) (drafts : List DraftRow)
    → 1 ≤ keep
    → count (is_draft_of chapter) (prune_revisions chapter keep drafts) ≤ keep
unfolding prune_revisions doomed
prune_revisions-count chapter keep drafts some_kept =
    let own = keep_if (is_draft_of chapter) drafts in
    let gone = draft_ids (drop_drafts keep (sort_drafts own)) in
    let few = few_outlive keep (sort_drafts own) gone (λ id h. h) in
    let moved = sort_drafts-count (outlives gone) own in
    let turned = both-count (is_draft_of chapter) (outlives gone) drafts in
    let asked : (keep == 0) ≡ false = ground arith in
    rw (count, prune_revisions, asked) (omega (arith, few, moved, turned))

-- Pruning a chapter's autosaves adds none to another.
pub prune_revisions-others :
    (other chapter keep : ℕ) (drafts : List DraftRow)
    → 1 ≤ keep
    → count (is_draft_of other) (prune_revisions chapter keep drafts)
      ≤ count (is_draft_of other) drafts
unfolding prune_revisions
prune_revisions-others other chapter keep drafts some_kept =
    let asked : (keep == 0) ≡ false = ground arith in
    let gone = doomed keep (keep_if (is_draft_of chapter) drafts) in
    rw (count, prune_revisions, asked) (keep_if-count (is_draft_of other) (outlives gone) drafts)
