-- ===== src/Writer/History/Requests.antt =====
-- The answers to a publish request and to a new chapter.
use web_novel.Common.{
  ℕ, suc, ◌≡◌, refl, sym, ap, subst, ◌∙◌, Bool, true, false, Option, some, List, ◌∷◌, ◌==◌, find?,
  arith,
}
use web_novel.Common.Int.{ℤ, pos, leb_ℤ, ltb_ℤ, eqb_ℤ}
use web_novel.Common.Word.{int16}
use web_novel.Common.Result.{ok}
use web_novel.Wallet.Types.{Time}
use web_novel.Wallet.Store.{chapter_draft}
use web_novel.Glossary.{Term, Rendered, render}
use web_novel.Writer.Types.{Arc, Chapter, NovelRow, BodyRow, StudioDb}
use web_novel.Writer.Rules.{publish_decision}
use web_novel.Writer.Store.{
  is_novel, is_chapter, is_body, get_chapter, to_domain_chapter, draft_of, new_body,
}
use web_novel.Writer.Publish.{stamp, render_body, write_publish}
use web_novel.Writer.Studio.{default_price, prepare_chapter, add_chapter, publish_chapter}
use web_novel.Writer.History.Effects.{
  insert_chapter-eq-ok, publish_row-eq-ok, add_chapter-eq-ok, publish_chapter-eq-ok,
}
use web_novel.Writer.History.Outcomes.{read_chapter, published_rows}

-- A publish request that succeeds shows the saved source, rendered with the novel's terms, and leaves
-- the source alone; the chapter's status and publication time are those of the decision, which goes
-- by the instant asked for and the clock.
pub publish_chapter_shows :
    (user id : ℕ) (terms : List Term) (scheduled : Option Time) (now : Time) (db db' : StudioDb)
    (made : Chapter) (told : Bool)
    → publish_chapter user id terms scheduled now db ≡ ok (made, told, db')
    → (b : BodyRow) × (r : Rendered) × (find? (is_body id) db.bodies ≡ some b)
      × (render b.body_source terms ≡ some r)
      × (made.body_html ≡ r.html)
      × (made.body_source ≡ b.body_source)
      × ((made.status, made.published_at) ≡ publish_decision scheduled now)
unfolding to_domain_chapter
publish_chapter_shows user id terms scheduled now db db' made told h =
    let decision = publish_decision scheduled now in
    let (written, read) = publish_chapter-eq-ok user id terms scheduled now db db' made told h in
    let (c, n, b, r, at, in_novel, body, done, same) =
      publish_row-eq-ok terms id decision.0 decision.1 scheduled now db db' written in
    let (row, row') = published_rows id c n b r decision.0 decision.1 scheduled now db at body in
    let db1 = write_publish c n r decision.0 decision.1 scheduled now db in
    let read1 : get_chapter id db1 ≡ ok made =
      subst (λ (x : StudioDb). get_chapter id x ≡ ok made) (sym same) read in
    let shown =
      read_chapter id db1 (stamp decision.0 decision.1 scheduled n.early_access_hours now c)
        (render_body r n.glossary_rev now b) made row row' read1 in
    (
      b,
      r,
      body,
      done,
      sym (ap (λ (x : Chapter). x.body_html) shown),
      sym (ap (λ (x : Chapter). x.body_source) shown),
      sym (ap (λ (x : Chapter). (x.status, x.published_at)) shown),
    )

free_price :
    (n : NovelRow) (number price : ℤ)
    → leb_ℤ number n.free_until_chapter ≡ true
    → default_price n number price ≡ pos 0
unfolding default_price
free_price n number price free = rw free refl

paid_price :
    (n : NovelRow) (number price : ℤ)
    → leb_ℤ number n.free_until_chapter ≡ false
    → ltb_ℤ (pos 0) price ≡ true
    → default_price n number price ≡ price
unfolding default_price
paid_price n number price later asked =
    let given : eqb_ℤ price (pos 0) ≡ false = ground arith in rw (default_price, later, given) refl

nothing_is_kept : int16 (pos 0) ≡ pos 0
unfolding int16
nothing_is_kept = refl

found_first :
    {A : Type 0} (p : A → Bool) (a : A) (rows : List A) → p a ≡ true → find? p (a ∷ rows) ≡ some a
found_first p a rows h = rw h refl

same_number : (id : ℕ) → (id == id) ≡ true
same_number id = ground arith

-- A chapter that is added is a draft in its novel with the number and the source of the request. It is
-- free where the novel's first chapters are; beyond them a price that is asked for is kept, as far as
-- its 16-bit column goes.
pub add_chapter_priced :
    (user : ℕ) (arcs : List Arc) (c : Chapter) (now : Time) (db db' : StudioDb) (made : Chapter)
    → add_chapter user arcs c now db ≡ ok (made, db')
    → (n : NovelRow) × (find? (is_novel c.novel_id) db.novels ≡ some n)
      × (made.status ≡ chapter_draft)
      × (made.novel_id ≡ c.novel_id)
      × (made.chapter_no ≡ c.chapter_no)
      × (made.body_source ≡ c.body_source)
      × (leb_ℤ c.chapter_no n.free_until_chapter ≡ true → made.price_coins ≡ pos 0)
      × (leb_ℤ c.chapter_no n.free_until_chapter ≡ false
          → ltb_ℤ (pos 0) c.price_coins ≡ true
          → made.price_coins ≡ int16 c.price_coins)
unfolding to_domain_chapter prepare_chapter
add_chapter_priced user arcs c now db db' made h =
    let (n, priced, in_novel, inserted, read) = add_chapter-eq-ok user arcs c now db db' made h in
    let ready = prepare_chapter arcs n c in
    let (n', again, good, same) = insert_chapter-eq-ok ready now db db' inserted in
    let id = db.next_chapter_id in
    let row = draft_of ready n'.primary_translator_id id now in
    let body = new_body ready id now in
    let db1 : StudioDb = record db {
      chapters = row ∷ db.chapters;
      bodies = body ∷ db.bodies;
      next_chapter_id = suc id;
    } in
    let found : find? (is_chapter id) db1.chapters ≡ some row =
      found_first (is_chapter id) row db.chapters (same_number id) in
    let found' : find? (is_body id) db1.bodies ≡ some body =
      found_first (is_body id) body db.bodies (same_number id) in
    let read1 : get_chapter id db1 ≡ ok made =
      subst (λ (x : StudioDb). get_chapter id x ≡ ok made) (sym same) read in
    let shown = read_chapter id db1 row body made found found' read1 in
    let price : made.price_coins ≡ int16 (default_price n c.chapter_no c.price_coins) =
      sym (ap (λ (x : Chapter). x.price_coins) shown) in
    (
      n,
      in_novel,
      sym (ap (λ (x : Chapter). x.status) shown),
      sym (ap (λ (x : Chapter). x.novel_id) shown),
      sym (ap (λ (x : Chapter). x.chapter_no) shown),
      sym (ap (λ (x : Chapter). x.body_source) shown),
      λ free. price ∙ ap int16 (free_price n c.chapter_no c.price_coins free) ∙ nothing_is_kept,
      λ later asked. price ∙ ap int16 (paid_price n c.chapter_no c.price_coins later asked),
    )
