-- ===== src/Writer/Publish.antt =====
-- Publishing (PublishChapter and UnpublishChapter of repository/writer/repository.go) and the two jobs of
-- jobs/jobs.go that publish and render by the clock. The terms are what `loadTerms` reads.
use web_novel.Common.{
  ℕ, ◌+◌, Bool, true, false, Option, none, some, List, [], ◌∷◌, ◌++◌, ◌==◌, if◌then◌else◌, ◌&&◌,
  not, find?,
}
use web_novel.Common.Int.{ℤ, ◌+ℤ◌, ◌*ℤ◌, leb_ℤ}
use web_novel.Common.Result.{ok, err, ◌>>=◌}
use web_novel.Wallet.Types.{Time}
use web_novel.Wallet.Store.{ChapterStatus, chapter_draft, chapter_scheduled, chapter_published}
use web_novel.Wallet.Apply.Checks.{is_published}
use web_novel.Glossary.{Term, Rendered, render}
use web_novel.Writer.Types.{failed, Outcome, NovelRow, ChapterRow, BodyRow, RefRow, StudioDb}
use web_novel.Writer.Rules.{public_at, hour}
use web_novel.Writer.Store.{is_novel, is_chapter, is_body, take_row, update_where, keep_if}

abbrev pub new_refs : ℕ → List ℕ → List RefRow
new_refs chapter [] = []
new_refs chapter (id ∷ ids) = record { chapter_id = chapter; entry_id = id } ∷ new_refs chapter ids

unfoldable pub replace_glossary_refs : ℕ → List ℕ → List RefRow → List RefRow
replace_glossary_refs chapter ids refs =
    new_refs chapter ids ++ keep_if (λ (r : RefRow). not (r.chapter_id == chapter)) refs

abbrev pub count_published : ℕ → List ChapterRow → ℕ
count_published novel [] = 0
count_published novel (c ∷ cs) =
    let rest = count_published novel cs in
    if c.novel_id == novel && is_published c.status then rest + 1 else rest

abbrev pub with_count : List ChapterRow → NovelRow → NovelRow
with_count chapters n = record n { chapters_count = count_published n.id chapters }

unfoldable pub refresh_chapter_count : ℕ → StudioDb → StudioDb
refresh_chapter_count novel db = record db {
  novels = update_where (is_novel novel) (with_count db.chapters) db.novels;
}

abbrev pub public_time : Option Time → ℤ → Option Time
public_time none hours = none
public_time (some t) hours = some (public_at t hours)

-- The columns that a publish request stamps.
abbrev pub stamp : ChapterStatus → Option Time → Option Time → ℤ → Time → ChapterRow → ChapterRow
stamp status published scheduled hours now row = record row {
  status = status;
  published_at = published;
  scheduled_at = scheduled;
  public_at = public_time published hours;
  updated_at = now;
}

abbrev pub render_body : Rendered → ℕ → Time → BodyRow → BodyRow
render_body rendered rev now b = record b {
  body_html = rendered.html;
  glossary_rev = rev;
  revision = b.revision + 1;
  rendered_at = now;
}

-- What the transaction writes, once the rows are read and the source is rendered.
unfoldable pub write_publish :
    ChapterRow
    → NovelRow
    → Rendered
    → ChapterStatus
    → Option Time
    → Option Time
    → Time
    → StudioDb
    → StudioDb
write_publish chapter novel rendered status published scheduled now db =
    refresh_chapter_count chapter.novel_id (record db {
      chapters =
          update_where (is_chapter chapter.id)
            (stamp status published scheduled novel.early_access_hours now) db.chapters;
      bodies =
          update_where (is_body chapter.id) (render_body rendered novel.glossary_rev now) db.bodies;
      refs = replace_glossary_refs chapter.id rendered.entry_ids db.refs;
    })

-- The transaction of `PublishChapter`. Rendering always gives a result (Glossary/Verbatim).
unfoldable pub publish_row :
    List Term → ℕ → ChapterStatus → Option Time → Option Time → Time → StudioDb → Outcome StudioDb
publish_row terms id status published scheduled now db =
    take_row (find? (is_chapter id) db.chapters) >>= λ chapter.
    take_row (find? (is_novel chapter.novel_id) db.novels) >>= λ novel.
    take_row (find? (is_body id) db.bodies) >>= λ body. elim (render body.body_source terms) [
      | none ↦ err failed
      | some rendered ↦ ok (write_publish chapter novel rendered status published scheduled now db)
    ]

abbrev pub unstamp : Time → ChapterRow → ChapterRow
unstamp now row = record row {
  status = chapter_draft;
  published_at = none;
  scheduled_at = none;
  public_at = none;
  updated_at = now;
}

-- The transaction of `UnpublishChapter`.
unfoldable pub unpublish_row : ℕ → Time → StudioDb → Outcome StudioDb
unpublish_row id now db = take_row (find? (is_chapter id) db.chapters) >>= λ chapter. ok (
    refresh_chapter_count chapter.novel_id
      (record db { chapters = update_where (is_chapter id) (unstamp now) db.chapters }))

abbrev pub is_scheduled : ChapterStatus → Bool
is_scheduled chapter_scheduled = true
is_scheduled _ = false

abbrev pub reached_by : Option Time → Time → Bool
reached_by none now = false
reached_by (some t) now = leb_ℤ t now

abbrev pub is_due : Time → ChapterRow → Bool
is_due now c = is_scheduled c.status && reached_by c.scheduled_at now

-- UPDATE chapters … FROM novels: a row with its novel. The window of a novel is never negative.
unfoldable pub flip_row : List NovelRow → Time → ChapterRow → ChapterRow
flip_row novels now c = elim (find? (is_novel c.novel_id) novels) [
  | none ↦ c
  | some n ↦ record c {
    status = chapter_published;
    published_at = some now;
    public_at = some (now +ℤ (n.early_access_hours *ℤ hour));
  }
]

-- `DISTINCT novel_id` only orders the refreshes: a count that is refreshed twice is the same.
abbrev pub due_novels : Time → List ChapterRow → List ℕ
due_novels now [] = []
due_novels now (c ∷ cs) =
    let rest = due_novels now cs in if is_due now c then c.novel_id ∷ rest else rest

abbrev pub refresh_counts : List ℕ → StudioDb → StudioDb
refresh_counts [] db = db
refresh_counts (n ∷ ns) db = refresh_counts ns (refresh_chapter_count n db)

-- `PublishScheduledJob`
unfoldable pub publish_scheduled : Time → StudioDb → StudioDb
publish_scheduled now db =
    refresh_counts (due_novels now db.chapters)
      (record db { chapters = update_where (is_due now) (flip_row db.novels now) db.chapters })
