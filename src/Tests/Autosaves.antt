-- ===== src/Tests/Autosaves.antt =====
-- Three autosaves, two of them of one instant.
use web_novel.Common.{◌≡◌, refl, List, [], ◌∷◌, leb, ℕ}
use web_novel.Common.Int.{pos}
use web_novel.Common.Text.{codes}
use web_novel.Writer.Types.{DraftRow}
use web_novel.Writer.Rules.{newer, doomed, sort_drafts, insert_draft}
use web_novel.Writer.Store.{has_id}
use web_novel.Writer.Prune.{count}
use web_novel.Writer.Prune.Rank.{doomed_lem}

abbrev autosave : ℕ → ℕ → DraftRow
autosave id saved = record {
  id = id;
  chapter_id = 2;
  author_id = 9;
  body_source = codes "a";
  saved_at = pos saved;
}

abbrev autosaves : List DraftRow
autosaves = autosave 4 20 ∷ autosave 6 20 ∷ autosave 5 30 ∷ []

oldest_doomed : doomed 2 autosaves ≡ 4 ∷ []
unfolding doomed sort_drafts insert_draft
oldest_doomed = refl

doomed_lem_example :
    has_id 4 (doomed 2 autosaves) ≡ leb 2 (count (λ e. newer e (autosave 4 20)) autosaves)
doomed_lem_example = doomed_lem 2 (autosave 4 20) autosaves refl refl
