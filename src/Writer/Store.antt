-- ===== src/Writer/Store.antt =====
-- The chapters' tables (repository/writer/repository.go). A transaction is a function from the tables to
-- a result and the new tables; an error leaves the tables as they were.
use web_novel.Common.{
  ℕ, suc, Bool, false, Option, none, some, List, [], ◌∷◌, ◌==◌, if◌then◌else◌, ◌&&◌, ◌||◌, not,
  find?, any,
}
use web_novel.Common.Int.{ℤ, pos, ltb_ℤ, eqb_ℤ}
use web_novel.Common.Word.{int16}
use web_novel.Common.Text.{Text}
use web_novel.Common.Result.{ok, err, ◌>>=◌}
use web_novel.Wallet.Types.{Time}
use web_novel.Wallet.Store.{chapter_draft, fits_int}
use web_novel.Writer.Types.{
  not_found, chapter_no_taken, failed, Outcome, Chapter, NovelRow, ChapterRow, BodyRow, DraftRow,
  StudioDb,
}
use web_novel.Writer.Rules.{doomed}

abbrev pub is_novel : ℕ → NovelRow → Bool
is_novel id n = n.id == id

abbrev pub is_chapter : ℕ → ChapterRow → Bool
is_chapter id c = c.id == id

abbrev pub is_body : ℕ → BodyRow → Bool
is_body id b = b.chapter_id == id

-- `Take`, where no row is an error.
abbrev pub take_row : {A : Type 0} → Option A → Outcome A
take_row none = err not_found
take_row (some a) = ok a

-- UPDATE … WHERE the test holds
abbrev pub update_where : {A : Type 0} → (A → Bool) → (A → A) → List A → List A
update_where test change [] = []
update_where test change (a ∷ as') =
    let rest = update_where test change as' in (if test a then change a else a) ∷ rest

abbrev pub is_user : ℕ → Option ℕ → Bool
is_user user none = false
is_user user (some id) = id == user

unfoldable pub owns_novel : ℕ → ℕ → StudioDb → Bool
owns_novel user novel db =
    any (λ (n : NovelRow). n.id == novel && is_user user n.primary_translator_id) db.novels

-- The join of a chapter with its novel.
abbrev pub owned_by : ℕ → List NovelRow → ChapterRow → Bool
owned_by user novels c =
    any
      (λ (n : NovelRow).
        n.id == c.novel_id
        && (is_user user c.translator_id || is_user user n.primary_translator_id))
      novels

unfoldable pub owns_chapter : ℕ → ℕ → StudioDb → Bool
owns_chapter user id db =
    any (λ (c : ChapterRow). is_chapter id c && owned_by user db.novels c) db.chapters

-- `COALESCE` of what the left join finds.
abbrev pub source_of : Option BodyRow → Text
source_of none = []
source_of (some b) = b.body_source

abbrev pub html_of : Option BodyRow → Text
html_of none = []
html_of (some b) = b.body_html

unfoldable pub to_domain_chapter : ChapterRow → Option BodyRow → Chapter
to_domain_chapter row body = record {
  id = row.id;
  novel_id = row.novel_id;
  arc_id = row.arc_id;
  chapter_no = row.chapter_no;
  title = row.title;
  body_source = source_of body;
  body_html = html_of body;
  price_coins = row.price_coins;
  word_count = row.word_count;
  status = row.status;
  scheduled_at = row.scheduled_at;
  published_at = row.published_at;
  updated_at = row.updated_at;
}

unfoldable pub get_chapter : ℕ → StudioDb → Outcome Chapter
get_chapter id db = take_row (find? (is_chapter id) db.chapters) >>= λ row.
    ok (to_domain_chapter row (find? (is_body id) db.bodies))

-- The unique pair of a novel and a chapter number, seen from a row that is not the one with `id`.
abbrev pub number_taken : ℕ → ℕ → ℤ → List ChapterRow → Bool
number_taken id novel number =
    any (λ (c : ChapterRow). not (c.id == id) && c.novel_id == novel && eqb_ℤ c.chapter_no number)

abbrev pub draft_of : Chapter → Option ℕ → ℕ → Time → ChapterRow
draft_of c translator id now = record {
  id = id;
  novel_id = c.novel_id;
  arc_id = c.arc_id;
  chapter_no = c.chapter_no;
  title = c.title;
  status = chapter_draft;
  price_coins = int16 c.price_coins;
  word_count = c.word_count;
  translator_id = translator;
  published_at = none;
  scheduled_at = none;
  public_at = none;
  updated_at = now;
}

abbrev pub new_body : Chapter → ℕ → Time → BodyRow
new_body c id now = record {
  chapter_id = id;
  body_html = [];
  body_source = c.body_source;
  revision = 1;
  glossary_rev = 0;
  rendered_at = now;
}

-- The insertions of `CreateChapter`. A novel that is not there is an error of the driver.
unfoldable pub insert_chapter : Chapter → Time → StudioDb → Outcome StudioDb
insert_chapter c now db = elim (find? (is_novel c.novel_id) db.novels) [
  | none ↦ err failed
  | some novel ↦
      let id = db.next_chapter_id in
      if number_taken id c.novel_id c.chapter_no db.chapters
      then err chapter_no_taken
      else if ltb_ℤ (int16 c.price_coins) (pos 0) || not (fits_int c.chapter_no)
      then err failed
      else ok (record db {
        chapters = draft_of c novel.primary_translator_id id now ∷ db.chapters;
        bodies = new_body c id now ∷ db.bodies;
        next_chapter_id = suc id;
      })
]

-- The row that `CreateChapter` made is the newest.
unfoldable pub create_chapter : Chapter → Time → StudioDb → Outcome (Chapter × StudioDb)
create_chapter c now db =
    insert_chapter c now db >>= λ db'. get_chapter db.next_chapter_id db' >>= λ made. ok (made, db')

abbrev pub edit_row : Chapter → Time → ChapterRow → ChapterRow
edit_row c now row = record row {
  title = c.title;
  price_coins = int16 c.price_coins;
  word_count = c.word_count;
  arc_id = c.arc_id;
  chapter_no = c.chapter_no;
  updated_at = now;
}

-- INSERT … ON CONFLICT (chapter_id) DO UPDATE SET body_source
unfoldable pub upsert_body : Chapter → Time → List BodyRow → List BodyRow
upsert_body c now bodies =
    if any (is_body c.id) bodies
    then update_where (is_body c.id) (λ (b : BodyRow). record b { body_source = c.body_source })
        bodies
    else record (new_body c c.id now) { body_html = c.body_html } ∷ bodies

abbrev pub is_draft_of : ℕ → DraftRow → Bool
is_draft_of chapter d = d.chapter_id == chapter

abbrev pub keep_if : {A : Type 0} → (A → Bool) → List A → List A
keep_if test [] = []
keep_if test (a ∷ as') = let rest = keep_if test as' in if test a then a ∷ rest else rest

abbrev pub has_id : ℕ → List ℕ → Bool
has_id id = any (λ (k : ℕ). k == id)

unfoldable pub prune_revisions : ℕ → ℕ → List DraftRow → List DraftRow
prune_revisions chapter keep drafts =
    let gone = doomed keep (keep_if (is_draft_of chapter) drafts) in
    if keep == 0 then drafts else keep_if (λ (d : DraftRow). not (has_id d.id gone)) drafts

abbrev pub new_draft : Chapter → ℕ → ℕ → Time → DraftRow
new_draft c author id now = record {
  id = id;
  chapter_id = c.id;
  author_id = author;
  body_source = c.body_source;
  saved_at = now;
}

-- What the database refuses of an edit: a chapter that is not there, for the foreign key of its body, a
-- number that another chapter has, and a value out of its column's range.
abbrev pub breaks_constraint : Chapter → StudioDb → Bool
breaks_constraint c db =
    not (any (is_chapter c.id) db.chapters)
    || number_taken c.id c.novel_id c.chapter_no db.chapters
    || ltb_ℤ (int16 c.price_coins) (pos 0)
    || not (fits_int c.chapter_no)

-- The transaction of `SaveChapter`, which does not tell the causes of an error apart.
unfoldable pub write_save : Chapter → ℕ → ℕ → Time → StudioDb → Outcome StudioDb
write_save c author keep now db =
    if breaks_constraint c db
    then err failed
    else ok (record db {
      chapters = update_where (is_chapter c.id) (edit_row c now) db.chapters;
      bodies = upsert_body c now db.bodies;
      drafts = prune_revisions c.id keep (new_draft c author db.next_draft_id now ∷ db.drafts);
      next_draft_id = suc db.next_draft_id;
    })

-- `SaveChapter` of the repository.
unfoldable pub save_edit : Chapter → ℕ → ℕ → Time → StudioDb → Outcome (Chapter × StudioDb)
save_edit c author keep now db =
    write_save c author keep now db >>= λ db'. get_chapter c.id db' >>= λ saved. ok (saved, db')
