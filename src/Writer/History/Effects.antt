-- ===== src/Writer/History/Effects.antt =====
-- What the transactions of the workspace have done when they succeed.
use web_novel.Common.{
  ℕ, suc, ◌≡◌, refl, ap, subst, ◌∙◌, Bool, true, false, Option, none, some, List, ◌∷◌,
  if◌then◌else◌, ◌||◌, not, find?,
}
use web_novel.Common.Int.{pos, ltb_ℤ, leb_ℤ}
use web_novel.Common.Word.{int16}
use web_novel.Common.Result.{ok, err, ◌>>◌, >>=-eq-ok, fail_if, ok-injective}
use web_novel.Wallet.Types.{Time}
use web_novel.Wallet.Store.{ChapterStatus, fits_int}
use web_novel.Glossary.{Term, Rendered, render}
use web_novel.Writer.Types.{
  forbidden, invalid_price, invalid_input, chapter_no_taken, failed, Error, Arc, Outcome, Chapter,
  NovelRow, ChapterRow, BodyRow, StudioDb,
}
use web_novel.Writer.Store.{
  is_novel, is_chapter, is_body, take_row, update_where, number_taken, draft_of, new_body,
  insert_chapter, edit_row, new_draft, upsert_body, prune_revisions, write_save, breaks_constraint,
  get_chapter, create_chapter, save_edit, owns_novel, owns_chapter,
}
use web_novel.Writer.Rules.{
  publish_decision, keep_revisions, max_early_access_hours, max_price_per_chapter,
}
use web_novel.Writer.Studio.{
  fits_column, prepare_chapter, add_chapter, edit_of, save_chapter, publish_chapter,
  unpublish_chapter, PriceSettings, outside, below_zero, validate_settings, with_settings,
  update_settings,
}
use web_novel.Writer.Publish.{
  refresh_chapter_count, write_publish, publish_row, unpublish_row, unstamp,
}

-- A step without a value that has passed, and a check.
then_ok :
    {A : Type 0} (step : Outcome (Unit {0})) (next : Outcome A) (a : A)
    → (step >> next) ≡ ok a
    → (step ≡ ok tt) × (next ≡ ok a)
then_ok (err e) next a h = absurd (cc)
then_ok (ok done) next a h = (refl, h)

passed : (bad : Bool) (e : Error) → fail_if bad e ≡ ok tt → bad ≡ false
passed true e h = absurd (cc)
passed false e h = refl

pub taken : {A : Type 0} (o : Option A) (a : A) → take_row o ≡ ok a → o ≡ some a
taken none a h = absurd (cc)
taken (some b) a h = cc

guard_ok :
    {A : Type 0} (bad : Bool) (e : Error) (next : Outcome A) (a : A)
    → (if bad then err e else next) ≡ ok a
    → (bad ≡ false) × (next ≡ ok a)
guard_ok true e next a h = absurd (cc)
guard_ok false e next a h = (refl, h)

rendered_ok :
    (o : Option Rendered) (f : Rendered → StudioDb) (db' : StudioDb)
    → ◌≡◌ {A = Outcome StudioDb} (elim o [ none ↦ err failed | some r ↦ ok (f r) ]) (ok db')
    → (r : Rendered) × (o ≡ some r) × (f r ≡ db')
rendered_ok none f db' h = absurd (cc)
rendered_ok (some r) f db' h = (r, refl, cc)

inserted_ok :
    (o : Option NovelRow) (f : NovelRow → Outcome StudioDb) (db' : StudioDb)
    → ◌≡◌ {A = Outcome StudioDb} (elim o [ none ↦ err failed | some n ↦ f n ]) (ok db')
    → (n : NovelRow) × (o ≡ some n) × (f n ≡ ok db')
inserted_ok none f db' h = absurd (cc)
inserted_ok (some n) f db' h = (n, refl, h)

pub insert_chapter-eq-ok :
    (c : Chapter) (now : Time) (db db' : StudioDb)
    → insert_chapter c now db ≡ ok db'
    → (n : NovelRow) × (find? (is_novel c.novel_id) db.novels ≡ some n)
      × ((ltb_ℤ (int16 c.price_coins) (pos 0) || not (fits_int c.chapter_no)) ≡ false)
      × (record db {
        chapters = draft_of c n.primary_translator_id db.next_chapter_id now ∷ db.chapters;
        bodies = new_body c db.next_chapter_id now ∷ db.bodies;
        next_chapter_id = suc db.next_chapter_id;
      }
          ≡ db')
unfolding insert_chapter
insert_chapter-eq-ok c now db db' h =
    let (n, found, h1) = inserted_ok (find? (is_novel c.novel_id) db.novels) _ db' h in
    let (free, h2) =
      guard_ok (number_taken db.next_chapter_id c.novel_id c.chapter_no db.chapters)
        chapter_no_taken _ db' h1 in
    let (good, h3) =
      guard_ok (ltb_ℤ (int16 c.price_coins) (pos 0) || not (fits_int c.chapter_no)) failed _ db'
        h2 in
    (n, found, good, cc)

pub write_save-eq-ok :
    (c : Chapter) (author keep : ℕ) (now : Time) (db db' : StudioDb)
    → write_save c author keep now db ≡ ok db'
    → record db {
      chapters = update_where (is_chapter c.id) (edit_row c now) db.chapters;
      bodies = upsert_body c now db.bodies;
      drafts = prune_revisions c.id keep (new_draft c author db.next_draft_id now ∷ db.drafts);
      next_draft_id = suc db.next_draft_id;
    }
      ≡ db'
unfolding write_save
write_save-eq-ok c author keep now db db' h =
    let (good, h1) = guard_ok (breaks_constraint c db) failed _ db' h in ok-injective h1

pub unpublish_row-eq-ok :
    (id : ℕ) (now : Time) (db db' : StudioDb)
    → unpublish_row id now db ≡ ok db'
    → (c : ChapterRow) × (find? (is_chapter id) db.chapters ≡ some c)
      × (refresh_chapter_count c.novel_id
            (record db { chapters = update_where (is_chapter id) (unstamp now) db.chapters })
          ≡ db')
unfolding unpublish_row
unpublish_row-eq-ok id now db db' h =
    let (c, e, done) = >>=-eq-ok (take_row (find? (is_chapter id) db.chapters)) _ h in
    (c, taken (find? (is_chapter id) db.chapters) c e, cc)

pub publish_row-eq-ok :
    (terms : List Term) (id : ℕ) (status : ChapterStatus) (published scheduled : Option Time)
    (now : Time) (db db' : StudioDb)
    → publish_row terms id status published scheduled now db ≡ ok db'
    → (c : ChapterRow) × (n : NovelRow) × (b : BodyRow) × (r : Rendered) × (find?
          (is_chapter id)
          db.chapters
        ≡ some c)
      × (find? (is_novel c.novel_id) db.novels ≡ some n)
      × (find? (is_body id) db.bodies ≡ some b)
      × (render b.body_source terms ≡ some r)
      × (write_publish c n r status published scheduled now db ≡ db')
unfolding publish_row
publish_row-eq-ok terms id status published scheduled now db db' h =
    let (c, e, h1) = >>=-eq-ok (take_row (find? (is_chapter id) db.chapters)) _ h in
    let (n, e1, h2) = >>=-eq-ok (take_row (find? (is_novel c.novel_id) db.novels)) _ h1 in
    let (b, e2, h3) = >>=-eq-ok (take_row (find? (is_body id) db.bodies)) _ h2 in
    let (r, e3, h4) =
      rendered_ok (render b.body_source terms)
        (λ r. write_publish c n r status published scheduled now db) db' h3 in
    (
      c,
      n,
      b,
      r,
      taken (find? (is_chapter id) db.chapters) c e,
      taken (find? (is_novel c.novel_id) db.novels) n e1,
      taken (find? (is_body id) db.bodies) b e2,
      e3,
      h4,
    )

pub add_chapter-eq-ok :
    (user : ℕ) (arcs : List Arc) (c : Chapter) (now : Time) (db db' : StudioDb) (made : Chapter)
    → add_chapter user arcs c now db ≡ ok (made, db')
    → (n : NovelRow) × (ltb_ℤ c.price_coins (pos 0) ≡ false)
      × (find? (is_novel c.novel_id) db.novels ≡ some n)
      × (insert_chapter (prepare_chapter arcs n c) now db ≡ ok db')
      × (get_chapter db.next_chapter_id db' ≡ ok made)
unfolding add_chapter create_chapter
add_chapter-eq-ok user arcs c now db db' made h =
    let owned = fail_if (not (owns_novel user c.novel_id db)) forbidden in
    let priced = fail_if (ltb_ℤ c.price_coins (pos 0)) invalid_price in
    let numbered = fail_if (leb_ℤ c.chapter_no (pos 0)) invalid_input in
    let (checks, h1) = then_ok (owned >> priced >> numbered) _ (made, db') h in
    let (checks', number) = then_ok (owned >> priced) numbered tt checks in
    let (owner, price) = then_ok owned priced tt checks' in
    let (n, e, h2) = >>=-eq-ok (take_row (find? (is_novel c.novel_id) db.novels)) _ h1 in
    let (db1, e1, h3) = >>=-eq-ok (insert_chapter (prepare_chapter arcs n c) now db) _ h2 in
    let (made1, e2, h4) = >>=-eq-ok (get_chapter db.next_chapter_id db1) _ h3 in
    let same : db1 ≡ db' = ap (λ (x : Chapter × StudioDb). x.1) (ok-injective h4) in
    let same' : made1 ≡ made = ap (λ (x : Chapter × StudioDb). x.0) (ok-injective h4) in
    (
      n,
      passed (ltb_ℤ c.price_coins (pos 0)) invalid_price price,
      taken (find? (is_novel c.novel_id) db.novels) n e,
      e1 ∙ ap ok same,
      subst (λ (x : StudioDb). get_chapter db.next_chapter_id x ≡ ok made) same (e2 ∙ ap ok same'),
    )

pub save_chapter-eq-ok :
    (user id : ℕ) (arcs : List Arc) (c : Chapter) (now : Time) (db db' : StudioDb) (made : Chapter)
    → save_chapter user id arcs c now db ≡ ok (made, db')
    → (existing : Chapter) × (get_chapter id db ≡ ok existing)
      × (write_save (edit_of arcs id existing c) user keep_revisions now db ≡ ok db')
unfolding save_chapter save_edit
save_chapter-eq-ok user id arcs c now db db' made h =
    let owned = fail_if (not (owns_chapter user id db)) forbidden in
    let priced = fail_if (ltb_ℤ c.price_coins (pos 0)) invalid_price in
    let (checks, h1) = then_ok (owned >> priced) _ (made, db') h in
    let (existing, e, h2) = >>=-eq-ok (get_chapter id db) _ h1 in
    let (db1, e1, h3) =
      >>=-eq-ok (write_save (edit_of arcs id existing c) user keep_revisions now db) _ h2 in
    let (made1, e2, h4) = >>=-eq-ok (get_chapter (edit_of arcs id existing c).id db1) _ h3 in
    let same : db1 ≡ db' = ap (λ (x : Chapter × StudioDb). x.1) (ok-injective h4) in
    (existing, e, e1 ∙ ap ok same)

pub publish_chapter-eq-ok :
    (user id : ℕ) (terms : List Term) (scheduled : Option Time) (now : Time) (db db' : StudioDb)
    (made : Chapter) (told : Bool)
    → publish_chapter user id terms scheduled now db ≡ ok (made, told, db')
    → (publish_row terms id
          (publish_decision scheduled now).0
          (publish_decision scheduled now).1
          scheduled
          now
          db
        ≡ ok db')
      × (get_chapter id db' ≡ ok made)
unfolding publish_chapter
publish_chapter-eq-ok user id terms scheduled now db db' made told h =
    let decision = publish_decision scheduled now in
    let (owned, h1) =
      then_ok (fail_if (not (owns_chapter user id db)) forbidden) _ (made, told, db') h in
    let (db1, e1, h2) =
      >>=-eq-ok (publish_row terms id decision.0 decision.1 scheduled now db) _ h1 in
    let (made1, e2, h3) = >>=-eq-ok (get_chapter id db1) _ h2 in
    let same : db1 ≡ db' = ap (λ (x : Chapter × Bool × StudioDb). x.2) (ok-injective h3) in
    let same' : made1 ≡ made = ap (λ (x : Chapter × Bool × StudioDb). x.0) (ok-injective h3) in
    (e1 ∙ ap ok same, subst (λ (x : StudioDb). get_chapter id x ≡ ok made) same (e2 ∙ ap ok same'))

pub unpublish_chapter-eq-ok :
    (user id : ℕ) (now : Time) (db db' : StudioDb) (made : Chapter)
    → unpublish_chapter user id now db ≡ ok (made, db')
    → unpublish_row id now db ≡ ok db'
unfolding unpublish_chapter
unpublish_chapter-eq-ok user id now db db' made h =
    let (owned, h1) = then_ok (fail_if (not (owns_chapter user id db)) forbidden) _ (made, db') h in
    let (db1, e1, h2) = >>=-eq-ok (unpublish_row id now db) _ h1 in
    let (made1, e2, h3) = >>=-eq-ok (get_chapter id db1) _ h2 in
    e1 ∙ ap ok (ap (λ (x : Chapter × StudioDb). x.1) (ok-injective h3))

pub update_settings-eq-ok :
    (user novel : ℕ) (n : PriceSettings) (db db' : StudioDb)
    → update_settings user novel n db ≡ ok db'
    → (outside n.early_access_hours max_early_access_hours ≡ false)
      × (record db { novels = update_where (is_novel novel) (with_settings n) db.novels } ≡ db')
unfolding update_settings validate_settings
update_settings-eq-ok user novel n db db' h =
    let owned = fail_if (not (owns_novel user novel db)) forbidden in
    let priced = fail_if (outside n.price_per_chapter max_price_per_chapter) invalid_price in
    let free = fail_if (below_zero n.free_until_chapter) invalid_input in
    let early = fail_if (outside n.early_access_hours max_early_access_hours) invalid_input in
    let fits = fail_if (not (fits_column n.free_until_chapter)) failed in
    let (whole, h1) = then_ok (owned >> (priced >> free >> early) >> fits) _ db' h in
    let (checks, in_range) = then_ok (owned >> (priced >> free >> early)) fits tt whole in
    let (owner, rest) = then_ok owned (priced >> free >> early) tt checks in
    let (others, window) = then_ok (priced >> free) early tt rest in
    (
      passed (outside n.early_access_hours max_early_access_hours) invalid_input window,
      ok-injective h1,
    )
