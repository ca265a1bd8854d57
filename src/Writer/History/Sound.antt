-- ===== src/Writer/History/Sound.antt =====
-- Every request keeps the times of the chapters in agreement with their status.
use web_novel.Common.{
  ℕ, ◌≡◌, refl, subst, Bool, true, false, Option, none, some, List, [], ◌∷◌, arith,
}
use web_novel.Common.Int.{ℤ, pos}
use web_novel.Common.Result.{ok, err}
use web_novel.Wallet.Types.{Time}
use web_novel.Glossary.{Term}
use web_novel.Writer.Types.{Outcome, Arc, Chapter, StudioDb}
use web_novel.Writer.Rules.{publish_decision, keep_revisions}
use web_novel.Writer.Store.{
  is_novel, is_chapter, update_where, insert_chapter, edit_row, write_save,
}
use web_novel.Writer.Publish.{
  stamp, with_count, refresh_chapter_count, write_publish, publish_row, unpublish_row, unstamp,
  is_due, flip_row, due_novels, refresh_counts, publish_scheduled,
}
use web_novel.Writer.Studio.{
  prepare_chapter, add_chapter, edit_of, save_chapter, publish_chapter, unpublish_chapter,
  PriceSettings, outside, or_else, with_settings, update_settings,
}
use web_novel.Writer.Rerender.{glossary_rerender}
use web_novel.Writer.History.{
  StudioCall, adds, saves, publishes, unpublishes, configures, bumps, ticks, rerenders, bump,
  left_by, left_by_publish, left_by_settings, serve, serve_all,
}
use web_novel.Writer.History.Effects.{
  insert_chapter-eq-ok, write_save-eq-ok, unpublish_row-eq-ok, publish_row-eq-ok, add_chapter-eq-ok,
  save_chapter-eq-ok, publish_chapter-eq-ok, unpublish_chapter-eq-ok, update_settings-eq-ok,
}
use web_novel.Writer.History.Stamps.{
  is_window, all_stamped, all_windows, stamp-is_stamped, found_window, update_where-all_stamped,
  update_where-all_windows, flip_row-is_stamped,
}

abbrev pub IsSound : StudioDb → Type 0
IsSound db = (all_stamped db.chapters ≡ true) × (all_windows db.novels ≡ true)

insert_chapter-IsSound :
    (c : Chapter) (now : Time) (db db' : StudioDb)
    → IsSound db
    → insert_chapter c now db ≡ ok db'
    → IsSound db'
insert_chapter-IsSound c now db db' s h =
    let (n, found, good, same) = insert_chapter-eq-ok c now db db' h in subst IsSound same s

write_save-IsSound :
    (c : Chapter) (author keep : ℕ) (now : Time) (db db' : StudioDb)
    → IsSound db
    → write_save c author keep now db ≡ ok db'
    → IsSound db'
write_save-IsSound c author keep now db db' s h =
    subst IsSound (write_save-eq-ok c author keep now db db' h) (
      update_where-all_stamped (is_chapter c.id) (edit_row c now) db.chapters (λ row t k. k) s.0,
      s.1,
    )

refresh-IsSound :
    (novel : ℕ) (db : StudioDb) → IsSound db → IsSound (refresh_chapter_count novel db)
unfolding refresh_chapter_count
refresh-IsSound novel db s = (
  s.0,
  update_where-all_windows (is_novel novel) (with_count db.chapters) db.novels (λ n w. w) s.1,
)

refresh_all-IsSound : (ns : List ℕ) (db : StudioDb) → IsSound db → IsSound (refresh_counts ns db)
refresh_all-IsSound [] db s = s
refresh_all-IsSound (n ∷ ns) db s =
    refresh_all-IsSound ns (refresh_chapter_count n db) (refresh-IsSound n db s)

tick-IsSound : (now : Time) (db : StudioDb) → IsSound db → IsSound (publish_scheduled now db)
unfolding publish_scheduled
tick-IsSound now db s =
    let flipped = update_where (is_due now) (flip_row db.novels now) db.chapters in
    let kept : all_stamped flipped ≡ true =
      update_where-all_stamped (is_due now) (flip_row db.novels now) db.chapters
        (λ c d t. flip_row-is_stamped db.novels now c s.1 t) s.0 in
    refresh_all-IsSound (due_novels now db.chapters) (record db { chapters = flipped }) (kept, s.1)

unpublish_row-IsSound :
    (id : ℕ) (now : Time) (db db' : StudioDb)
    → IsSound db
    → unpublish_row id now db ≡ ok db'
    → IsSound db'
unpublish_row-IsSound id now db db' s h =
    let (c, found, same) = unpublish_row-eq-ok id now db db' h in
    let kept =
      update_where-all_stamped (is_chapter id) (unstamp now) db.chapters (λ c t k. refl) s.0 in
    subst IsSound same (
      refresh-IsSound c.novel_id
        (record db { chapters = update_where (is_chapter id) (unstamp now) db.chapters })
        (kept, s.1))

publish_row-IsSound :
    (terms : List Term) (id : ℕ) (scheduled : Option Time) (now : Time) (db db' : StudioDb)
    → IsSound db
    → publish_row terms id
        (publish_decision scheduled now).0
        (publish_decision scheduled now).1
        scheduled
        now
        db
      ≡ ok db'
    → IsSound db'
unfolding write_publish refresh_chapter_count
publish_row-IsSound terms id scheduled now db db' s h =
    let decision = publish_decision scheduled now in
    let (c, n, b, r, at, in_novel, body, done, same) =
      publish_row-eq-ok terms id decision.0 decision.1 scheduled now db db' h in
    let w = found_window (is_novel c.novel_id) db.novels n s.1 in_novel in
    let stamped =
      update_where (is_chapter c.id)
        (stamp decision.0 decision.1 scheduled n.early_access_hours now) db.chapters in
    let kept : all_stamped stamped ≡ true =
      update_where-all_stamped (is_chapter c.id)
        (stamp decision.0 decision.1 scheduled n.early_access_hours now) db.chapters
        (λ row t k. stamp-is_stamped scheduled now n.early_access_hours row w) s.0 in
    subst IsSound same (
      kept,
      update_where-all_windows (is_novel c.novel_id) (with_count stamped) db.novels (λ m v. v) s.1,
    )

add_chapter-IsSound :
    (user : ℕ) (arcs : List Arc) (c : Chapter) (now : Time) (db : StudioDb)
    → IsSound db
    → IsSound (left_by db (add_chapter user arcs c now db))
add_chapter-IsSound user arcs c now db s = split (add_chapter user arcs c now db) refl
  where
    split :
        (out : Outcome (Chapter × StudioDb))
        → add_chapter user arcs c now db ≡ out
        → IsSound (left_by db out)
    split (err e) h = s
    split (ok (made, db')) h =
        let (n, priced, in_novel, inserted, read) =
          add_chapter-eq-ok user arcs c now db db' made h in
        insert_chapter-IsSound (prepare_chapter arcs n c) now db db' s inserted

save_chapter-IsSound :
    (user id : ℕ) (arcs : List Arc) (c : Chapter) (now : Time) (db : StudioDb)
    → IsSound db
    → IsSound (left_by db (save_chapter user id arcs c now db))
save_chapter-IsSound user id arcs c now db s = split (save_chapter user id arcs c now db) refl
  where
    split :
        (out : Outcome (Chapter × StudioDb))
        → save_chapter user id arcs c now db ≡ out
        → IsSound (left_by db out)
    split (err e) h = s
    split (ok (made, db')) h =
        let (existing, read, written) = save_chapter-eq-ok user id arcs c now db db' made h in
        write_save-IsSound (edit_of arcs id existing c) user keep_revisions now db db' s written

publish_chapter-IsSound :
    (user id : ℕ) (terms : List Term) (scheduled : Option Time) (now : Time) (db : StudioDb)
    → IsSound db
    → IsSound (left_by_publish db (publish_chapter user id terms scheduled now db))
publish_chapter-IsSound user id terms scheduled now db s =
    split (publish_chapter user id terms scheduled now db) refl
  where
    split :
        (out : Outcome (Chapter × Bool × StudioDb))
        → publish_chapter user id terms scheduled now db ≡ out
        → IsSound (left_by_publish db out)
    split (err e) h = s
    split (ok (made, told, db')) h =
        publish_row-IsSound terms id scheduled now db db' s
          (publish_chapter-eq-ok user id terms scheduled now db db' made told h).0

unpublish_chapter-IsSound :
    (user id : ℕ) (now : Time) (db : StudioDb)
    → IsSound db
    → IsSound (left_by db (unpublish_chapter user id now db))
unpublish_chapter-IsSound user id now db s = split (unpublish_chapter user id now db) refl
  where
    split :
        (out : Outcome (Chapter × StudioDb))
        → unpublish_chapter user id now db ≡ out
        → IsSound (left_by db out)
    split (err e) h = s
    split (ok (made, db')) h =
        unpublish_row-IsSound id now db db' s (unpublish_chapter-eq-ok user id now db db' made h)

window_or_else :
    (o : Option ℤ) (old : ℤ)
    → outside o (pos 168) ≡ false
    → is_window old ≡ true
    → is_window (or_else o old) ≡ true
window_or_else none old fits w = w
window_or_else (some a) old fits w = ground arith

update_settings-IsSound :
    (user novel : ℕ) (n : PriceSettings) (db : StudioDb)
    → IsSound db
    → IsSound (left_by_settings db (update_settings user novel n db))
update_settings-IsSound user novel n db s = split (update_settings user novel n db) refl
  where
    split :
        (out : Outcome StudioDb)
        → update_settings user novel n db ≡ out
        → IsSound (left_by_settings db out)
    split (err e) h = s
    split (ok db') h =
        let (fits, same) = update_settings-eq-ok user novel n db db' h in
        subst IsSound same (
          s.0,
          update_where-all_windows (is_novel novel) (with_settings n) db.novels
              (λ row w. window_or_else n.early_access_hours row.early_access_hours fits w) s.1,
        )

pub serve-IsSound : (call : StudioCall) (db : StudioDb) → IsSound db → IsSound (serve call db)
unfolding serve glossary_rerender
serve-IsSound (adds user arcs c now) db s = add_chapter-IsSound user arcs c now db s
serve-IsSound (saves user id arcs c now) db s = save_chapter-IsSound user id arcs c now db s
serve-IsSound (publishes user id terms scheduled now) db s =
    publish_chapter-IsSound user id terms scheduled now db s
serve-IsSound (unpublishes user id now) db s = unpublish_chapter-IsSound user id now db s
serve-IsSound (configures user novel n) db s = update_settings-IsSound user novel n db s
serve-IsSound (bumps novel) db s =
    (s.0, update_where-all_windows (is_novel novel) bump db.novels (λ n w. w) s.1)
serve-IsSound (ticks now) db s = tick-IsSound now db s
serve-IsSound (rerenders terms batch now) db s = s

pub serve_all-IsSound :
    (calls : List StudioCall) (db : StudioDb) → IsSound db → IsSound (serve_all calls db)
unfolding serve_all
serve_all-IsSound [] db s = s
serve_all-IsSound (c ∷ cs) db s = serve_all-IsSound cs (serve c db) (serve-IsSound c db s)
