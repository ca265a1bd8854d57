-- ===== src/Tests/Studio.antt =====
-- Translator 9 with one novel: a free chapter that is published, and one that is scheduled.
use web_novel.Common.{◌≡◌, ◌≤◌, refl, true, false, some, none, List, [], ◌∷◌, ◌++◌, find?}
use web_novel.Common.Int.{ℤ, pos, ◌+ℤ◌, ◌*ℤ◌, leb_ℤ, ltb_ℤ}
use web_novel.Common.Word.{int16}
use web_novel.Common.Text.{codes, text_eq}
use web_novel.Common.Result.{ok}
use web_novel.Wallet.Store.{chapter_draft, chapter_scheduled, chapter_published, fits_int}
use web_novel.Wallet.Types.{Time}
use web_novel.Glossary.{
  Term, Rendered, render, render_loop, render_marker, cut_pair, cut_bar, is_space, trim_left,
  trim_right, split_marker, key_char, valid_key, find_term, escape_char, escape_html, span,
  note_missing, bind_term, insert_sorted, sort,
}
use web_novel.Reading.{AccessClaim, visible_full, see}
use web_novel.Writer.Types.{Arc, Chapter, NovelRow, ChapterRow, BodyRow, StudioDb}
use web_novel.Writer.Rules.{
  resolve_arc_id, publish_decision, public_at, insert_draft, sort_drafts, doomed, count_fields,
  keep_revisions,
}
use web_novel.Writer.Store.{
  is_novel, is_chapter, is_body, is_draft_of, owns_novel, owns_chapter, to_domain_chapter,
  get_chapter, insert_chapter, create_chapter, upsert_body, prune_revisions, write_save, save_edit,
}
use web_novel.Writer.Prune.{count}
use web_novel.Writer.Publish.{
  replace_glossary_refs, refresh_chapter_count, write_publish, publish_row, publish_scheduled,
  count_published, stamp,
}
use web_novel.Writer.Studio.{
  default_price, prepare_chapter, add_chapter, place_edit, edit_of, save_chapter, publish_chapter,
}
use web_novel.Writer.History.{StudioCall, adds, saves, publishes, serve, serve_all, opened}
use web_novel.Writer.History.Stamps.{week}
use web_novel.Writer.History.Outcomes.{availability, serve_all_opens}
use web_novel.Writer.History.Requests.{publish_chapter_shows, add_chapter_priced}
use web_novel.Writer.History.Drafts.{serve_all-count}
use web_novel.Writer.History.Tally.{serve_all-count_published}
use web_novel.Writer.History.Scheduler.{publish_scheduled-stamp}

abbrev novel : NovelRow
novel = record {
  id = 1;
  primary_translator_id = some 9;
  price_per_chapter = pos 5;
  free_until_chapter = pos 2;
  early_access_hours = pos 24;
  chapters_count = 0;
  glossary_rev = 4;
}

abbrev arcs : List Arc
arcs =
    record {
      id = 6;
      novel_id = 1;
      arc_no = pos 1;
      name = [];
      from_chapter_no = pos 1;
      to_chapter_no = pos 9;
    }
    ∷ []

abbrev terms : List Term
terms = record { entry_id = 8; key = codes "k"; title_th = codes "K" } ∷ []

abbrev draft : ℤ → ℤ → Chapter
draft number price = record {
  id = 0;
  novel_id = 1;
  arc_id = none;
  chapter_no = number;
  title = codes "t";
  body_source = codes "a {{k}}";
  body_html = [];
  price_coins = price;
  word_count = pos 0;
  status = chapter_draft;
  scheduled_at = none;
  published_at = none;
  updated_at = pos 0;
}

abbrev written : List StudioCall
written =
    adds 9 arcs (draft (pos 1) (pos 7)) (pos 10)
    ∷ adds 9 arcs (draft (pos 3) (pos 8)) (pos 11)
    ∷ saves 9 2 arcs (draft (pos 0) (pos 6)) (pos 12)
    ∷ publishes 9 2 terms (some (pos 1000)) (pos 13)
    ∷ []

abbrev calls : List StudioCall
calls = written ++ (publishes 9 1 terms none (pos 20) ∷ [])

abbrev row_1 : ChapterRow
row_1 = record {
  id = 1;
  novel_id = 1;
  arc_id = some 6;
  chapter_no = pos 1;
  title = codes "t";
  status = chapter_published;
  price_coins = pos 0;
  word_count = pos 2;
  translator_id = some 9;
  published_at = some (pos 20);
  scheduled_at = none;
  public_at = some (pos 86_400_000_000_020);
  updated_at = pos 20;
}

abbrev row_2 : ChapterRow
row_2 = record {
  id = 2;
  novel_id = 1;
  arc_id = some 6;
  chapter_no = pos 3;
  title = codes "t";
  status = chapter_scheduled;
  price_coins = pos 6;
  word_count = pos 2;
  translator_id = some 9;
  published_at = none;
  scheduled_at = some (pos 1000);
  public_at = none;
  updated_at = pos 13;
}

found_1 : find? (is_chapter 1) (serve_all calls (opened (novel ∷ []))).chapters ≡ some row_1
unfolding serve_all serve add_chapter save_chapter publish_chapter prepare_chapter default_price
    place_edit edit_of create_chapter insert_chapter get_chapter to_domain_chapter owns_novel
    owns_chapter upsert_body prune_revisions write_save save_edit doomed sort_drafts insert_draft
    count_fields resolve_arc_id publish_decision public_at replace_glossary_refs
    refresh_chapter_count write_publish publish_row ◌+ℤ◌ ◌*ℤ◌ int16 fits_int render render_loop
    render_marker cut_pair cut_bar is_space trim_left trim_right split_marker key_char valid_key
    find_term escape_char escape_html span note_missing bind_term insert_sorted sort text_eq
found_1 = refl

-- A reader who is not signed in.
abbrev claim : AccessClaim
claim = record {
  viewer = record { user_id = 0; roles = [] };
  subscribed = false;
  owns = false;
  is_translator = false;
}

serve_all_opens_example :
    (p : Time) × (row_1.published_at ≡ some p)
    × (leb_ℤ (p +ℤ week) (pos 604_800_000_000_020) ≡ true
        → see (availability row_1) claim (pos 604_800_000_000_020) ≡ visible_full)
serve_all_opens_example =
    serve_all_opens (novel ∷ []) calls 1 row_1 claim (pos 604_800_000_000_020) refl found_1 refl

abbrev counted_novel : NovelRow
counted_novel = record novel { chapters_count = 1 }

found_novel : find? (is_novel 1) (serve_all calls (opened (novel ∷ []))).novels ≡ some counted_novel
unfolding serve_all serve add_chapter save_chapter publish_chapter prepare_chapter default_price
    place_edit edit_of create_chapter insert_chapter get_chapter to_domain_chapter owns_novel
    owns_chapter upsert_body prune_revisions write_save save_edit doomed sort_drafts insert_draft
    count_fields resolve_arc_id publish_decision public_at replace_glossary_refs
    refresh_chapter_count write_publish publish_row ◌+ℤ◌ ◌*ℤ◌ int16 fits_int render render_loop
    render_marker cut_pair cut_bar is_space trim_left trim_right split_marker key_char valid_key
    find_term escape_char escape_html span note_missing bind_term insert_sorted sort text_eq
found_novel = refl

serve_all-count_published_example :
    1 ≡ count_published 1 (serve_all calls (opened (novel ∷ []))).chapters
serve_all-count_published_example =
    serve_all-count_published (novel ∷ []) calls 1 counted_novel refl found_novel

serve_all-count_example :
    count (is_draft_of 2) (serve_all calls (opened (novel ∷ []))).drafts ≤ keep_revisions
serve_all-count_example = serve_all-count (novel ∷ []) calls 2

abbrev studio : StudioDb
studio = serve_all written (opened (novel ∷ []))

found_2 : find? (is_chapter 2) studio.chapters ≡ some row_2
unfolding serve_all serve add_chapter save_chapter publish_chapter prepare_chapter default_price
    place_edit edit_of create_chapter insert_chapter get_chapter to_domain_chapter owns_novel
    owns_chapter upsert_body prune_revisions write_save save_edit doomed sort_drafts insert_draft
    count_fields resolve_arc_id publish_decision public_at replace_glossary_refs
    refresh_chapter_count write_publish publish_row ◌+ℤ◌ ◌*ℤ◌ int16 fits_int render render_loop
    render_marker cut_pair cut_bar is_space trim_left trim_right split_marker key_char valid_key
    find_term escape_char escape_html span note_missing bind_term insert_sorted sort text_eq
found_2 = refl

uncounted : find? (is_novel 1) studio.novels ≡ some novel
unfolding serve_all serve add_chapter save_chapter publish_chapter prepare_chapter default_price
    place_edit edit_of create_chapter insert_chapter get_chapter to_domain_chapter owns_novel
    owns_chapter upsert_body prune_revisions write_save save_edit doomed sort_drafts insert_draft
    count_fields resolve_arc_id publish_decision public_at replace_glossary_refs
    refresh_chapter_count write_publish publish_row ◌+ℤ◌ ◌*ℤ◌ int16 fits_int render render_loop
    render_marker cut_pair cut_bar is_space trim_left trim_right split_marker key_char valid_key
    find_term escape_char escape_html span note_missing bind_term insert_sorted sort text_eq
uncounted = refl

publish_scheduled-stamp_example :
    find? (is_chapter 2) (publish_scheduled (pos 1000) studio).chapters
    ≡ some (stamp chapter_published (some (pos 1000)) (some (pos 1000)) (pos 24) (pos 13) row_2)
publish_scheduled-stamp_example =
    publish_scheduled-stamp (pos 1000) studio 2 row_2 novel found_2 refl uncounted refl

abbrev shown : Chapter
shown = record {
  id = 1;
  novel_id = 1;
  arc_id = some 6;
  chapter_no = pos 1;
  title = codes "t";
  body_source = codes "a {{k}}";
  body_html = codes "a <span data-k=\"k\">K</span>";
  price_coins = pos 0;
  word_count = pos 2;
  status = chapter_published;
  scheduled_at = none;
  published_at = some (pos 20);
  updated_at = pos 20;
}

abbrev after : StudioDb
after = serve_all calls (opened (novel ∷ []))

request_served : publish_chapter 9 1 terms none (pos 20) studio ≡ ok (shown, true, after)
unfolding serve_all serve add_chapter save_chapter publish_chapter prepare_chapter default_price
    place_edit edit_of create_chapter insert_chapter get_chapter to_domain_chapter owns_novel
    owns_chapter upsert_body prune_revisions write_save save_edit doomed sort_drafts insert_draft
    count_fields resolve_arc_id publish_decision public_at replace_glossary_refs
    refresh_chapter_count write_publish publish_row ◌+ℤ◌ ◌*ℤ◌ int16 fits_int render render_loop
    render_marker cut_pair cut_bar is_space trim_left trim_right split_marker key_char valid_key
    find_term escape_char escape_html span note_missing bind_term insert_sorted sort text_eq
request_served = refl

publish_chapter_shows_example :
    (b : BodyRow) × (r : Rendered) × (find? (is_body 1) studio.bodies ≡ some b)
    × (render b.body_source terms ≡ some r)
    × (shown.body_html ≡ r.html)
    × (shown.body_source ≡ b.body_source)
    × ((shown.status, shown.published_at) ≡ publish_decision none (pos 20))
publish_chapter_shows_example =
    publish_chapter_shows 9 1 terms none (pos 20) studio after shown true request_served

abbrev free_chapter : Chapter
free_chapter = record (draft (pos 1) (pos 0)) {
  id = 1;
  arc_id = some 6;
  word_count = pos 2;
  updated_at = pos 10;
}

abbrev begun : StudioDb
begun = serve_all (adds 9 arcs (draft (pos 1) (pos 7)) (pos 10) ∷ []) (opened (novel ∷ []))

chapter_added :
    add_chapter 9 arcs (draft (pos 1) (pos 7)) (pos 10) (opened (novel ∷ []))
    ≡ ok (free_chapter, begun)
unfolding serve_all serve add_chapter save_chapter publish_chapter prepare_chapter default_price
    place_edit edit_of create_chapter insert_chapter get_chapter to_domain_chapter owns_novel
    owns_chapter upsert_body prune_revisions write_save save_edit doomed sort_drafts insert_draft
    count_fields resolve_arc_id publish_decision public_at replace_glossary_refs
    refresh_chapter_count write_publish publish_row ◌+ℤ◌ ◌*ℤ◌ int16 fits_int render render_loop
    render_marker cut_pair cut_bar is_space trim_left trim_right split_marker key_char valid_key
    find_term escape_char escape_html span note_missing bind_term insert_sorted sort text_eq
chapter_added = refl

add_chapter_priced_example :
    (n : NovelRow) × (find? (is_novel 1) (novel ∷ []) ≡ some n)
    × (free_chapter.status ≡ chapter_draft)
    × (free_chapter.novel_id ≡ 1)
    × (free_chapter.chapter_no ≡ pos 1)
    × (free_chapter.body_source ≡ codes "a {{k}}")
    × (leb_ℤ (pos 1) n.free_until_chapter ≡ true → free_chapter.price_coins ≡ pos 0)
    × (leb_ℤ (pos 1) n.free_until_chapter ≡ false
        → ltb_ℤ (pos 0) (pos 7) ≡ true
        → free_chapter.price_coins ≡ int16 (pos 7))
add_chapter_priced_example =
    add_chapter_priced 9 arcs (draft (pos 1) (pos 7)) (pos 10) (opened (novel ∷ [])) begun
      free_chapter chapter_added
