-- ===== src/Writer/History.antt =====
-- What a workspace is asked for over time: requests of translators, changes of the glossary, and the
-- jobs. A request that fails leaves the tables as they were.
pub mod Effects
pub mod Outcomes
pub mod Requests
pub mod Drafts
pub mod Keys
pub mod Counts
pub mod Tally
pub mod Scheduler
pub mod Stamps
pub mod Sound
use web_novel.Common.{ℕ, ◌+◌, Bool, Option, none, List, [], ◌∷◌}
use web_novel.Common.Int.{ℤ}
use web_novel.Common.Result.{Result, ok, err}
use web_novel.Wallet.Types.{Time}
use web_novel.Glossary.{Term}
use web_novel.Writer.Types.{Outcome, Arc, Chapter, NovelRow, StudioDb}
use web_novel.Writer.Store.{is_novel, update_where}
use web_novel.Writer.Publish.{publish_scheduled}
use web_novel.Writer.Rerender.{glossary_rerender}
use web_novel.Writer.Studio.{
  add_chapter, save_chapter, publish_chapter, unpublish_chapter, PriceSettings, update_settings,
}

pub data StudioCall : Type 0 where
  adds : ℕ → List Arc → Chapter → Time → StudioCall
  saves : ℕ → ℕ → List Arc → Chapter → Time → StudioCall
  publishes : ℕ → ℕ → List Term → Option Time → Time → StudioCall
  unpublishes : ℕ → ℕ → Time → StudioCall
  configures : ℕ → ℕ → PriceSettings → StudioCall
  -- The trigger on the glossary's entries.
  bumps : ℕ → StudioCall
  -- The scheduler's job, and the one that renders again.
  ticks : Time → StudioCall
  rerenders : (ℕ → List Term) → ℤ → Time → StudioCall

abbrev pub bump : NovelRow → NovelRow
bump n = record n { glossary_rev = n.glossary_rev + 1 }

abbrev pub left_by : {A : Type 0} → StudioDb → Outcome (A × StudioDb) → StudioDb
left_by db (ok (a, db')) = db'
left_by db (err e) = db

abbrev pub left_by_publish : StudioDb → Outcome (Chapter × Bool × StudioDb) → StudioDb
left_by_publish db (ok (c, told, db')) = db'
left_by_publish db (err e) = db

abbrev pub left_by_settings : StudioDb → Outcome StudioDb → StudioDb
left_by_settings db (ok db') = db'
left_by_settings db (err e) = db

unfoldable pub serve : StudioCall → StudioDb → StudioDb
serve (adds user arcs c now) db = left_by db (add_chapter user arcs c now db)
serve (saves user id arcs c now) db = left_by db (save_chapter user id arcs c now db)
serve (publishes user id terms scheduled now) db =
    left_by_publish db (publish_chapter user id terms scheduled now db)
serve (unpublishes user id now) db = left_by db (unpublish_chapter user id now db)
serve (configures user novel n) db = left_by_settings db (update_settings user novel n db)
serve (bumps novel) db = record db { novels = update_where (is_novel novel) bump db.novels }
serve (ticks now) db = publish_scheduled now db
serve (rerenders terms batch now) db = glossary_rerender terms batch now db

unfoldable pub serve_all : List StudioCall → StudioDb → StudioDb
serve_all [] db = db
serve_all (c ∷ cs) db = serve_all cs (serve c db)

-- A workspace with novels and no chapter yet.
abbrev pub opened : List NovelRow → StudioDb
opened novels = record {
  novels = novels;
  chapters = [];
  bodies = [];
  drafts = [];
  refs = [];
  next_chapter_id = 1;
  next_draft_id = 1;
}
