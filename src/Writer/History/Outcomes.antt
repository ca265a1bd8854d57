-- ===== src/Writer/History/Outcomes.antt =====
-- What a translator and a reader get: the rendered chapter, its price, and when it opens.
use web_novel.Common.{
  ℕ, ◌≡◌, refl, ap, ◌∙◌, Bool, true, false, Option, none, some, List, [], ◌∷◌, if◌then◌else◌, find?,
  arith,
}
use web_novel.Common.Int.{◌+ℤ◌, leb_ℤ, ltb_ℤ}
use web_novel.Common.Result.{ok, ok-injective}
use web_novel.Wallet.Types.{Time}
use web_novel.Wallet.Store.{ChapterStatus, chapter_published, chapter_draft, chapter_scheduled}
use web_novel.Wallet.Apply.Checks.{is_published}
use web_novel.Glossary.{Rendered}
use web_novel.Reading.{Availability, AccessClaim, visible_full, see}
use web_novel.Writer.Types.{Chapter, NovelRow, ChapterRow, BodyRow, StudioDb}
use web_novel.Writer.Store.{is_chapter, is_body, update_where, get_chapter, to_domain_chapter}
use web_novel.Writer.Publish.{stamp, render_body, write_publish, refresh_chapter_count}
use web_novel.Writer.History.{StudioCall, serve_all, opened}
use web_novel.Writer.History.Stamps.{week, agrees, is_stamped, all_stamped, all_windows}
use web_novel.Writer.History.Sound.{serve_all-IsSound}

-- An update keeps a row where it is, if it does not move its key.
pub find-update_where :
    {A : Type 0} (p test : A → Bool) (change : A → A) (rows : List A) (row : A)
    → ((a : A) → p (change a) ≡ p a)
    → find? p rows ≡ some row
    → find? p (update_where test change rows) ≡ some (if test row then change row else row)
find-update_where p test change [] row keeps h = absurd (cc)
find-update_where p test change (a ∷ rows) row keeps h =
    ground (arith, keeps a, find-update_where p test change rows row keeps)

pub find_holds :
    {A : Type 0} (p : A → Bool) (rows : List A) (row : A) → find? p rows ≡ some row → p row ≡ true
find_holds p [] row h = absurd (cc)
find_holds p (a ∷ rows) row h = ground (arith, find_holds p rows row)

found_stamped :
    (p : ChapterRow → Bool) (cs : List ChapterRow) (c : ChapterRow)
    → all_stamped cs ≡ true
    → find? p cs ≡ some c
    → is_stamped c ≡ true
found_stamped p [] c a h = absurd (cc)
found_stamped p (d ∷ cs) c a h = ground (arith, found_stamped p cs c)

abbrev pub availability : ChapterRow → Availability
availability c = record {
  status = c.status;
  published_at = c.published_at;
  public_at = c.public_at;
}

public_late :
    (p q t : Time) → leb_ℤ q (p +ℤ week) ≡ true → leb_ℤ (p +ℤ week) t ≡ true → ltb_ℤ t q ≡ false
public_late p q t h k = ground arith

opens :
    (status : ChapterStatus) (published scheduled public : Option Time) (claim : AccessClaim)
    (t : Time)
    → is_published status ≡ true
    → agrees status published scheduled public ≡ true
    → (p : Time) × (published ≡ some p)
      × (leb_ℤ (p +ℤ week) t ≡ true
          → see (record { status = status; published_at = published; public_at = public }) claim t
            ≡ visible_full)
unfolding see
opens chapter_published (some p) scheduled (some q) claim t live h =
    let late : leb_ℤ q (p +ℤ week) ≡ true = ground arith in
    (p, refl, λ k. let past = public_late p q t late k in rw (see, past) refl)
opens chapter_published (some p) scheduled none claim t live h = absurd (cc)
opens chapter_published none scheduled public claim t live h = absurd (cc)
opens chapter_draft published scheduled public claim t live h = absurd (cc)
opens chapter_scheduled published scheduled public claim t live h = absurd (cc)

-- A published chapter is open to every reader a week after its publication: from a workspace without
-- chapters whose early-access windows are at most a week, after any history of requests, changes of
-- the settings and runs of the jobs.
pub serve_all_opens :
    (novels : List NovelRow) (calls : List StudioCall) (id : ℕ) (c : ChapterRow)
    (claim : AccessClaim) (t : Time)
    → all_windows novels ≡ true
    → find? (is_chapter id) (serve_all calls (opened novels)).chapters ≡ some c
    → is_published c.status ≡ true
    → (p : Time) × (c.published_at ≡ some p)
      × (leb_ℤ (p +ℤ week) t ≡ true → see (availability c) claim t ≡ visible_full)
serve_all_opens novels calls id c claim t w found live =
    let (stamped, windows) = serve_all-IsSound calls (opened novels) (refl, w) in
    opens c.status c.published_at c.scheduled_at c.public_at claim t live
      (found_stamped (is_chapter id) (serve_all calls (opened novels)).chapters c stamped found)

pub read_chapter :
    (id : ℕ) (db : StudioDb) (c : ChapterRow) (b : BodyRow) (made : Chapter)
    → find? (is_chapter id) db.chapters ≡ some c
    → find? (is_body id) db.bodies ≡ some b
    → get_chapter id db ≡ ok made
    → to_domain_chapter c (some b) ≡ made
unfolding get_chapter
read_chapter id db c b made e e' h = ok-injective (rw (get_chapter, e, e') at h)

-- What is read of a chapter that was published.
pub published_rows :
    (id : ℕ) (c : ChapterRow) (n : NovelRow) (b : BodyRow) (r : Rendered) (status : ChapterStatus)
    (published scheduled : Option Time) (now : Time) (db : StudioDb)
    → find? (is_chapter id) db.chapters ≡ some c
    → find? (is_body id) db.bodies ≡ some b
    → (let db' = write_publish c n r status published scheduled now db in
        (find? (is_chapter id) db'.chapters
          ≡ some (stamp status published scheduled n.early_access_hours now c))
        × (find? (is_body id) db'.bodies ≡ some (render_body r n.glossary_rev now b)))
unfolding write_publish refresh_chapter_count
published_rows id c n b r status published scheduled now db e e' =
    let at : c.id ≡ id = ground (arith, find_holds (is_chapter id) db.chapters c e) in
    let body_at : b.chapter_id ≡ id = ground (arith, find_holds (is_body id) db.bodies b e') in
    let here : is_chapter c.id c ≡ true = ground arith in
    let here' : is_body c.id b ≡ true = ground arith in
    let change = stamp status published scheduled n.early_access_hours now in
    let change' = render_body r n.glossary_rev now in
    (
      find-update_where (is_chapter id) (is_chapter c.id) change db.chapters c (λ a. refl) e
          ∙ ap (λ (x : Bool). some (if x then change c else c)) here,
      find-update_where (is_body id) (is_body c.id) change' db.bodies b (λ a. refl) e'
          ∙ ap (λ (x : Bool). some (if x then change' b else b)) here',
    )
