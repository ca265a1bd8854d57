-- ===== src/Writer/Rerender.antt =====
-- The job that renders chapters again after a change of the glossary (GlossaryRerenderJob of jobs/jobs.go).
-- `terms` is what `loadTerms` reads of a novel. The query has no order: here it is that of the table.
pub mod Current
use web_novel.Common.{
  ℕ, zero, suc, ◌+◌, Bool, true, false, Option, none, some, List, [], ◌∷◌, ◌==◌, if◌then◌else◌,
  ◌&&◌, find?, any, ltb,
}
use web_novel.Common.Int.{ℤ, pos, pos_part, leb_ℤ}
use web_novel.Common.Text.{Text}
use web_novel.Wallet.Types.{Time}
use web_novel.Glossary.{Term, Rendered, render}
use web_novel.Writer.Types.{NovelRow, ChapterRow, BodyRow, StudioDb}
use web_novel.Writer.Store.{is_novel, is_chapter, is_body, update_where}

pub record StaleRow : Type 0 where
  pub chapter_id : ℕ
  pub novel_id : ℕ
  pub glossary_rev : ℕ
  pub body_source : Text

abbrev pub stale_row : BodyRow → ℕ → ℕ → StaleRow
stale_row b novel rev = record {
  chapter_id = b.chapter_id;
  novel_id = novel;
  glossary_rev = rev;
  body_source = b.body_source;
}

-- The revision of the novel that a chapter is of, with the novel.
abbrev pub novel_rev : ℕ → StudioDb → Option (ℕ × ℕ)
novel_rev chapter db = elim (find? (is_chapter chapter) db.chapters) [
  | none ↦ none
  | some c ↦ elim (find? (is_novel c.novel_id) db.novels) [
    | none ↦ none
    | some n ↦ some (n.id, n.glossary_rev)
  ]
]

-- The join of the bodies with their chapters and novels, where the revision has fallen behind.
unfoldable pub stale_rows : StudioDb → List BodyRow → List StaleRow
stale_rows db [] = []
stale_rows db (b ∷ bs) =
    let rest = stale_rows db bs in
    elim (novel_rev b.chapter_id db) [
      | none ↦ rest
      | some (novel, rev) ↦ if ltb b.glossary_rev rev then stale_row b novel rev ∷ rest else rest
    ]

abbrev pub first_rows : ℕ → List StaleRow → List StaleRow
first_rows zero rows = []
first_rows (suc n) [] = []
first_rows (suc n) (r ∷ rows) = r ∷ first_rows n rows

abbrev pub is_behind : StaleRow → BodyRow → Bool
is_behind row b = is_body row.chapter_id b && ltb b.glossary_rev row.glossary_rev

abbrev pub rerendered : Rendered → StaleRow → Time → BodyRow → BodyRow
rerendered r row now b = record b {
  body_html = r.html;
  glossary_rev = row.glossary_rev;
  rendered_at = now;
}

-- One row. Rendering always gives a result (Glossary/Verbatim).
unfoldable pub rerender_row : (ℕ → List Term) → Time → StaleRow → List BodyRow → List BodyRow
rerender_row terms now row bodies = elim (render row.body_source (terms row.novel_id)) [
  | none ↦ bodies
  | some r ↦ update_where (is_behind row) (rerendered r row now) bodies
]

unfoldable pub rerender_rows : (ℕ → List Term) → Time → List StaleRow → List BodyRow → List BodyRow
rerender_rows terms now [] bodies = bodies
rerender_rows terms now (row ∷ rows) bodies =
    rerender_rows terms now rows (rerender_row terms now row bodies)

abbrev pub effective_batch : ℤ → ℕ
effective_batch batch = if leb_ℤ batch (pos 0) then 200 else pos_part batch

-- The count of processed rows, which the job reports, is left out.
unfoldable pub glossary_rerender : (ℕ → List Term) → ℤ → Time → StudioDb → StudioDb
glossary_rerender terms batch now db = record db {
  bodies =
      rerender_rows terms now (first_rows (effective_batch batch) (stale_rows db db.bodies))
        db.bodies;
}
