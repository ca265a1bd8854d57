-- ===== src/Tests/Rerender.antt =====
-- A published chapter with an unpublished edit, and a glossary that has moved on.
use web_novel.Common.{◌≡◌, ◌≤◌, refl, find?, length, some, none, List, [], ◌∷◌, ℕ, arith}
use web_novel.Common.Int.{pos}
use web_novel.Common.Text.{codes, text_eq}
use web_novel.Wallet.Store.{chapter_published}
use web_novel.Glossary.{
  Term, Rendered, render, render_loop, render_marker, cut_pair, cut_bar, is_space, trim_left,
  trim_right, split_marker, key_char, valid_key, find_term, escape_char, escape_html, span,
  note_missing, bind_term, insert_sorted, sort,
}
use web_novel.Writer.Types.{NovelRow, ChapterRow, BodyRow, StudioDb}
use web_novel.Writer.Store.{is_body}
use web_novel.Writer.Rerender.{stale_rows, glossary_rerender}
use web_novel.Writer.Rerender.Current.{glossary_rerender_shows}

abbrev body : BodyRow
body = record {
  chapter_id = 2;
  body_html = codes "old";
  body_source = codes "new {{k}}";
  revision = 2;
  glossary_rev = 4;
  rendered_at = pos 5;
}

abbrev row : ChapterRow
row = record {
  id = 2;
  novel_id = 1;
  arc_id = none;
  chapter_no = pos 1;
  title = [];
  status = chapter_published;
  price_coins = pos 0;
  word_count = pos 2;
  translator_id = some 9;
  published_at = some (pos 5);
  scheduled_at = none;
  public_at = some (pos 5);
  updated_at = pos 6;
}

abbrev novel : NovelRow
novel = record {
  id = 1;
  primary_translator_id = some 9;
  price_per_chapter = pos 0;
  free_until_chapter = pos 0;
  early_access_hours = pos 0;
  chapters_count = 1;
  glossary_rev = 5;
}

abbrev db : StudioDb
db = record {
  novels = novel ∷ [];
  chapters = row ∷ [];
  bodies = body ∷ [];
  drafts = [];
  refs = [];
  next_chapter_id = 3;
  next_draft_id = 1;
}

abbrev terms : ℕ → List Term
terms n = record { entry_id = 8; key = codes "k"; title_th = codes "K" } ∷ []

abbrev rendering : Rendered
rendering = record {
  html = codes "new <span data-k=\"k\">K</span>";
  entry_ids = 8 ∷ [];
  unknown = [];
}

source_rendered : render (codes "new {{k}}") (terms 1) ≡ some rendering
unfolding render render_loop render_marker cut_pair cut_bar is_space trim_left trim_right
    split_marker key_char valid_key find_term escape_char escape_html span note_missing bind_term
    insert_sorted sort text_eq
source_rendered = refl

room : length (stale_rows db (body ∷ [])) ≤ 200
unfolding stale_rows
room = omega arith

glossary_rerender_shows_example :
    find? (is_body 2) (glossary_rerender terms (pos 0) (pos 9) db).bodies
    ≡ some (record body { body_html = rendering.html; glossary_rev = 5; rendered_at = pos 9 })
glossary_rerender_shows_example =
    glossary_rerender_shows terms (pos 0) (pos 9) db 2 1 5 body rendering refl refl refl
      source_rendered room
