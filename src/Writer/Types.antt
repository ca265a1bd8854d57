-- ===== src/Writer/Types.antt =====
-- The data of the workspace (domain/writer: writer.go, errors.go; the rows of entities/entities.go and
-- entities/writer.go). A novel's row has the columns that chapters depend on; the
-- time of a body's last update is left out.
use web_novel.Common.{ℕ, Option, List}
use web_novel.Common.Int.{ℤ}
use web_novel.Common.Text.{Text}
use web_novel.Common.Result.{Result}
use web_novel.Wallet.Types.{Time}
use web_novel.Wallet.Store.{ChapterStatus}

pub data Error : Type 0 where
  not_found forbidden invalid_input invalid_price chapter_no_taken : Error
  -- A check constraint or another failure of the database.
  failed : Error

abbrev pub Outcome : Type 0 → Type 0
Outcome A = Result Error A

pub record Arc : Type 0 where
  pub id : ℕ
  pub novel_id : ℕ
  pub arc_no : ℤ
  pub name : Text
  pub from_chapter_no : ℤ
  pub to_chapter_no : ℤ

pub record Chapter : Type 0 where
  pub id : ℕ
  pub novel_id : ℕ
  pub arc_id : Option ℕ
  pub chapter_no : ℤ
  pub title : Text
  pub body_source : Text
  pub body_html : Text
  pub price_coins : ℤ
  pub word_count : ℤ
  pub status : ChapterStatus
  pub scheduled_at : Option Time
  pub published_at : Option Time
  pub updated_at : Time

pub record NovelRow : Type 0 where
  pub id : ℕ
  pub primary_translator_id : Option ℕ
  pub price_per_chapter : ℤ
  pub free_until_chapter : ℤ
  pub early_access_hours : ℤ
  pub chapters_count : ℕ
  pub glossary_rev : ℕ

pub record ChapterRow : Type 0 where
  pub id : ℕ
  pub novel_id : ℕ
  pub arc_id : Option ℕ
  pub chapter_no : ℤ
  pub title : Text
  pub status : ChapterStatus
  pub price_coins : ℤ
  pub word_count : ℤ
  pub translator_id : Option ℕ
  pub published_at : Option Time
  pub scheduled_at : Option Time
  pub public_at : Option Time
  pub updated_at : Time

pub record BodyRow : Type 0 where
  pub chapter_id : ℕ
  pub body_html : Text
  pub body_source : Text
  pub revision : ℕ
  pub glossary_rev : ℕ
  pub rendered_at : Time

-- An autosave of `chapter_drafts`.
pub record DraftRow : Type 0 where
  pub id : ℕ
  pub chapter_id : ℕ
  pub author_id : ℕ
  pub body_source : Text
  pub saved_at : Time

-- `chapter_glossary_refs`
pub record RefRow : Type 0 where
  pub chapter_id : ℕ
  pub entry_id : ℕ

pub record StudioDb : Type 0 where
  pub novels : List NovelRow
  pub chapters : List ChapterRow
  pub bodies : List BodyRow
  pub drafts : List DraftRow
  pub refs : List RefRow
  pub next_chapter_id : ℕ
  pub next_draft_id : ℕ
