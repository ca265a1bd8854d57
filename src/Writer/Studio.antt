-- ===== src/Writer/Studio.antt =====
-- The use cases of a translator (service/writer/service.go): the chapters and the settings that they
-- depend on. The arcs and the terms of a novel are what the repository reads for a request.
use web_novel.Common.{
  ℕ, Bool, true, false, Option, none, some, List, if◌then◌else◌, ◌&&◌, ◌||◌, not, find?,
}
use web_novel.Common.Int.{ℤ, pos, leb_ℤ, ltb_ℤ, eqb_ℤ}
use web_novel.Common.Result.{ok, ◌>>=◌, ◌>>◌, fail_if}
use web_novel.Wallet.Types.{Time}
use web_novel.Wallet.Store.{chapter_draft, fits_int}
use web_novel.Wallet.Apply.Checks.{is_published}
use web_novel.Glossary.{Term}
use web_novel.Writer.Types.{
  failed, forbidden, invalid_input, invalid_price, Outcome, Arc, Chapter, NovelRow, StudioDb,
}
use web_novel.Writer.Rules.{
  keep_revisions, max_early_access_hours, max_price_per_chapter, resolve_arc_id, publish_decision,
  word_count,
}
use web_novel.Writer.Store.{
  is_novel, take_row, update_where, owns_novel, owns_chapter, get_chapter, create_chapter,
  save_edit,
}
use web_novel.Writer.Publish.{publish_row, unpublish_row}

-- The price of a new chapter: the novel's where the request has none, and none below the free limit.
unfoldable pub default_price : NovelRow → ℤ → ℤ → ℤ
default_price novel chapter_no price =
    if leb_ℤ chapter_no novel.free_until_chapter
    then pos 0
    else if eqb_ℤ price (pos 0)
    then novel.price_per_chapter
    else price

unfoldable pub prepare_chapter : List Arc → NovelRow → Chapter → Chapter
prepare_chapter arcs novel c = record c {
  price_coins = default_price novel c.chapter_no c.price_coins;
  arc_id = resolve_arc_id arcs c.chapter_no;
  status = chapter_draft;
  word_count = word_count c.body_source;
}

-- `CreateChapter`
unfoldable pub add_chapter : ℕ → List Arc → Chapter → Time → StudioDb → Outcome (Chapter × StudioDb)
add_chapter user arcs c now db =
    fail_if (not (owns_novel user c.novel_id db)) forbidden
    >> fail_if (ltb_ℤ c.price_coins (pos 0)) invalid_price
    >> fail_if (leb_ℤ c.chapter_no (pos 0)) invalid_input
    >> (take_row (find? (is_novel c.novel_id) db.novels) >>= λ novel.
        create_chapter (prepare_chapter arcs novel c) now db)

-- The number and the arc of an edit.
unfoldable pub place_edit : List Arc → Chapter → Chapter → Chapter
place_edit arcs existing c =
    if not (eqb_ℤ c.chapter_no existing.chapter_no) && ltb_ℤ (pos 0) c.chapter_no
    then record c { arc_id = resolve_arc_id arcs c.chapter_no }
    else record c { chapter_no = existing.chapter_no; arc_id = existing.arc_id }

unfoldable pub edit_of : List Arc → ℕ → Chapter → Chapter → Chapter
edit_of arcs id existing c = place_edit arcs existing (record c {
  id = id;
  novel_id = existing.novel_id;
  status = existing.status;
  word_count = word_count c.body_source;
})

-- `SaveChapter`
unfoldable pub save_chapter :
    ℕ → ℕ → List Arc → Chapter → Time → StudioDb → Outcome (Chapter × StudioDb)
save_chapter user id arcs c now db =
    fail_if (not (owns_chapter user id db)) forbidden
    >> fail_if (ltb_ℤ c.price_coins (pos 0)) invalid_price
    >> (get_chapter id db >>= λ existing.
        save_edit (edit_of arcs id existing c) user keep_revisions now db)

-- `PublishChapter`: with the chapter, whether its followers are told.
unfoldable pub publish_chapter :
    ℕ → ℕ → List Term → Option Time → Time → StudioDb → Outcome (Chapter × Bool × StudioDb)
publish_chapter user id terms scheduled now db =
    let decision = publish_decision scheduled now in
    fail_if (not (owns_chapter user id db)) forbidden
    >> (publish_row terms id decision.0 decision.1 scheduled now db >>= λ db'.
        get_chapter id db' >>= λ chapter. ok (chapter, is_published decision.0, db'))

-- `UnpublishChapter`
unfoldable pub unpublish_chapter : ℕ → ℕ → Time → StudioDb → Outcome (Chapter × StudioDb)
unpublish_chapter user id now db =
    fail_if (not (owns_chapter user id db)) forbidden
    >> (unpublish_row id now db >>= λ db'. get_chapter id db' >>= λ chapter. ok (chapter, db'))

-- The settings of a request to `UpdateNovel` that chapters depend on; `none` leaves one alone.
pub record PriceSettings : Type 0 where
  pub price_per_chapter : Option ℤ
  pub free_until_chapter : Option ℤ
  pub early_access_hours : Option ℤ

abbrev pub outside : Option ℤ → ℤ → Bool
outside none limit = false
outside (some a) limit = ltb_ℤ a (pos 0) || ltb_ℤ limit a

abbrev pub below_zero : Option ℤ → Bool
below_zero none = false
below_zero (some a) = ltb_ℤ a (pos 0)

unfoldable pub validate_settings : PriceSettings → Outcome (Unit {0})
validate_settings n =
    fail_if (outside n.price_per_chapter max_price_per_chapter) invalid_price
    >> fail_if (below_zero n.free_until_chapter) invalid_input
    >> fail_if (outside n.early_access_hours max_early_access_hours) invalid_input

abbrev pub or_else : Option ℤ → ℤ → ℤ
or_else none old = old
or_else (some a) old = a

abbrev pub with_settings : PriceSettings → NovelRow → NovelRow
with_settings n row = record row {
  price_per_chapter = or_else n.price_per_chapter row.price_per_chapter;
  free_until_chapter = or_else n.free_until_chapter row.free_until_chapter;
  early_access_hours = or_else n.early_access_hours row.early_access_hours;
}

-- The column free_until_chapter is an INT; a setting that a request leaves out writes nothing.
abbrev pub fits_column : Option ℤ → Bool
fits_column none = true
fits_column (some n) = fits_int n

-- `UpdateNovel`, for these settings.
unfoldable pub update_settings : ℕ → ℕ → PriceSettings → StudioDb → Outcome StudioDb
update_settings user novel n db =
    fail_if (not (owns_novel user novel db)) forbidden
    >> validate_settings n
    >> fail_if (not (fits_column n.free_until_chapter)) failed
    >> ok (record db { novels = update_where (is_novel novel) (with_settings n) db.novels })
