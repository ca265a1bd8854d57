-- ===== src/Reading/Answers.antt =====
-- What an owner is served, and what a reader is told of a draft.
use web_novel.Common.{
  ℕ, ◌≡◌, ◌≢◌, refl, Bool, Bool-cases, true, false, Option, none, some, inl, inr, ◌||◌, arith,
}
use web_novel.Common.Int.{pos, ◌<ℤ◌}
use web_novel.Common.Text.{Text}
use web_novel.Common.Result.{ok, err}
use web_novel.Wallet.Types.{Time}
use web_novel.Wallet.Apply.Checks.{is_published}
use web_novel.Reading.{
  not_found, translator, admin, Viewer, has_role, Chapter, not_locked, decide, is_translator_of,
  visible_hidden, visible_full, see, ReadingService, find_chapter, ask, look_up_unlocked,
  look_up_subscribed, view_of, serve_view, serve_visible, visibility_of, get_chapter,
}

-- An owner reads: a published chapter that costs coins is served with its body to a known user who
-- owns it, at any time, subscribed or not, where the queries that the request makes succeed.
pub get_chapter_owner :
    (s : ReadingService) (id : ℕ) (v : Viewer) (now : Time) (c : Chapter) (subscribed : Bool)
    (ids : Option ℕ × Option ℕ) (text : Text)
    → s.repo.chapters id ≡ ok (some c)
    → is_published c.status ≡ true
    → pos 0 <ℤ c.price_coins
    → v.user_id ≢ 0
    → ask s.entitlements v.user_id c.id ≡ ok true
    → look_up_subscribed s c v now ≡ ok subscribed
    → s.repo.neighbour_ids c.novel_id c.chapter_no ≡ ok ids
    → s.repo.body c.id ≡ ok text
    → get_chapter s id v now ≡ ok (view_of c false not_locked text ids)
unfolding get_chapter serve_visible serve_view
get_chapter_owner s id v now c subscribed ids text there published costs user owns asked found
      read =
    let finds : find_chapter s.repo id (has_role v translator || has_role v admin) ≡ ok c =
      unfold find_chapter in ground arith in
    let looked : look_up_unlocked s c v ≡ ok true = unfold look_up_unlocked in ground arith in
    let seen : visibility_of c v subscribed true now ≡ visible_full =
      unfold visibility_of in unfold see in ground arith in
    let open_body : decide c.price_coins v true (is_translator_of c v) ≡ false =
      unfold decide in ground arith in
    rw (get_chapter, finds, looked, asked, seen, serve_visible, open_body, serve_view, found, read)
      refl

-- A draft is not shown: to a viewer who neither translates it nor administers, a chapter that is
-- not published is answered as an identifier that no chapter has, where the lookups succeed.
pub get_chapter_hides_drafts :
    (s : ReadingService) (id none_such : ℕ) (v : Viewer) (now : Time) (c : Chapter)
    (unlocked subscribed : Bool)
    → s.repo.chapters id ≡ ok (some c)
    → s.repo.chapters none_such ≡ ok none
    → is_published c.status ≡ false
    → is_translator_of c v ≡ false
    → has_role v admin ≡ false
    → look_up_unlocked s c v ≡ ok unlocked
    → look_up_subscribed s c v now ≡ ok subscribed
    → get_chapter s id v now ≡ get_chapter s none_such v now
unfolding get_chapter serve_visible
get_chapter_hides_drafts s id none_such v now c unlocked subscribed there missing draft other reads
      looked asked =
    let absent : find_chapter s.repo none_such (has_role v translator || has_role v admin)
        ≡ err not_found =
      unfold find_chapter in ground arith in
    let seen : visibility_of c v subscribed unlocked now ≡ visible_hidden =
      unfold visibility_of in unfold see in ground arith in
    elim (Bool-cases (has_role v translator)) [
      | inl translates ↦
          let finds : find_chapter s.repo id (has_role v translator || has_role v admin) ≡ ok c =
            unfold find_chapter in ground arith in
          rw (get_chapter, absent, finds, looked, asked, seen, serve_visible) refl
      | inr plain ↦
          let finds : find_chapter s.repo id (has_role v translator || has_role v admin)
              ≡ err not_found =
            unfold find_chapter in ground arith in
          rw (get_chapter, absent, finds) refl
    ]
