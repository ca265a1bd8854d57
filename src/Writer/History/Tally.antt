-- ===== src/Writer/History/Tally.antt =====
-- Every request keeps the counts of the novels.
use web_novel.Common.{
  ℕ, ◌≡◌, refl, sym, ap, subst, ◌∙◌, Bool, Bool-cases, true, Option, some, inl, inr, List, [], ◌∷◌,
  ◌==◌, ◌&&◌, find?, arith,
}
use web_novel.Common.Result.{ok, err}
use web_novel.Wallet.Types.{Time}
use web_novel.Wallet.Store.{ChapterStatus}
use web_novel.Glossary.{Term}
use web_novel.Writer.Types.{Outcome, Arc, Chapter, NovelRow, ChapterRow, StudioDb}
use web_novel.Writer.Rules.{publish_decision, keep_revisions}
use web_novel.Writer.Store.{is_novel, is_chapter, update_where, edit_row, write_save}
use web_novel.Writer.Publish.{
  count_published, refresh_chapter_count, stamp, unstamp, write_publish, publish_row, unpublish_row,
  is_due, flip_row, due_novels, refresh_counts, publish_scheduled,
}
use web_novel.Writer.Studio.{
  prepare_chapter, add_chapter, edit_of, save_chapter, publish_chapter, unpublish_chapter,
  PriceSettings, with_settings, update_settings,
}
use web_novel.Writer.Rerender.{glossary_rerender}
use web_novel.Writer.History.{
  StudioCall, adds, saves, publishes, unpublishes, configures, bumps, ticks, rerenders, bump,
  left_by, left_by_publish, left_by_settings, serve, serve_all, opened,
}
use web_novel.Writer.History.Effects.{
  write_save-eq-ok, unpublish_row-eq-ok, publish_row-eq-ok, add_chapter-eq-ok, save_chapter-eq-ok,
  publish_chapter-eq-ok, unpublish_chapter-eq-ok, update_settings-eq-ok,
}
use web_novel.Writer.History.Outcomes.{find_holds}
use web_novel.Writer.History.Keys.{found-all_of_novel, distinct_chapters, ids_below}
use web_novel.Writer.History.Counts.{
  counted_but, refresh-counted_but, update_where-counted_but, update_where-count_published,
  stamped-count_published, flip_row-id, flipped-count_published, refresh_all-counted,
  refresh_all-chapters, IsCounted, insert_chapter-IsCounted, changed-IsCounted,
}

write_save-IsCounted :
    (c : Chapter) (author keep : ℕ) (now : Time) (db db' : StudioDb)
    → IsCounted db
    → write_save c author keep now db ≡ ok db'
    → IsCounted db'
write_save-IsCounted c author keep now db db' s h =
    subst IsCounted (write_save-eq-ok c author keep now db db' h) (
      changed-IsCounted [] (is_chapter c.id) (edit_row c now) db (λ row. refl)
        (λ k e.
          update_where-count_published k (is_chapter c.id) (edit_row c now) db.chapters
            (λ row. (refl, refl)))
        s)

-- Other bodies and references, and the count of the chapter's novel refreshed.
stamped-IsCounted :
    (id : ℕ) (c : ChapterRow) (change : ChapterRow → ChapterRow) (db : StudioDb)
    → IsCounted db
    → find? (is_chapter id) db.chapters ≡ some c
    → ((row : ChapterRow) → (change row).id ≡ row.id)
    → ((row : ChapterRow) → (change row).novel_id ≡ row.novel_id)
    → IsCounted (
        refresh_chapter_count c.novel_id
          (record db { chapters = update_where (is_chapter id) change db.chapters }))
unfolding refresh_chapter_count
stamped-IsCounted id c change db s at keeps keeps_novel =
    let own = found-all_of_novel id db.chapters c s.1 at in
    let (counts, apart, below) =
      changed-IsCounted (c.novel_id ∷ []) (is_chapter id) change db keeps
        (λ k e.
          stamped-count_published k id c.novel_id change db.chapters keeps_novel own (ground arith))
        s in
    (
      refresh-counted_but c.novel_id [] (update_where (is_chapter id) change db.chapters) db.novels
          counts,
      apart,
      below,
    )

unpublish_row-IsCounted :
    (id : ℕ) (now : Time) (db db' : StudioDb)
    → IsCounted db
    → unpublish_row id now db ≡ ok db'
    → IsCounted db'
unpublish_row-IsCounted id now db db' s h =
    let (c, at, same) = unpublish_row-eq-ok id now db db' h in
    subst IsCounted same (stamped-IsCounted id c (unstamp now) db s at (λ row. refl) (λ row. refl))

publish_row-IsCounted :
    (terms : List Term) (id : ℕ) (status : ChapterStatus) (published scheduled : Option Time)
    (now : Time) (db db' : StudioDb)
    → IsCounted db
    → publish_row terms id status published scheduled now db ≡ ok db'
    → IsCounted db'
unfolding write_publish refresh_chapter_count
publish_row-IsCounted terms id status published scheduled now db db' s h =
    let (c, n, b, r, at, in_novel, body, done, same) =
      publish_row-eq-ok terms id status published scheduled now db db' h in
    let here : c.id ≡ id = ground (arith, find_holds (is_chapter id) db.chapters c at) in
    let at' : find? (is_chapter c.id) db.chapters ≡ some c =
      subst (λ (x : ℕ). find? (is_chapter x) db.chapters ≡ some c) (sym here) at in
    let (counts, apart, below) =
      stamped-IsCounted c.id c (stamp status published scheduled n.early_access_hours now) db s at'
        (λ row. refl) (λ row. refl) in
    subst IsCounted same (counts, apart, below)

tick-IsCounted : (now : Time) (db : StudioDb) → IsCounted db → IsCounted (publish_scheduled now db)
unfolding publish_scheduled
tick-IsCounted now db s =
    let due = due_novels now db.chapters in
    let flipped = update_where (is_due now) (flip_row db.novels now) db.chapters in
    let (counts, apart, below) =
      changed-IsCounted due (is_due now) (flip_row db.novels now) db (flip_row-id db.novels now)
        (λ k e. flipped-count_published k db.novels now db.chapters e) s in
    let db1 : StudioDb = record db { chapters = flipped } in
    let (kept, next) = refresh_all-chapters due db1 in
    (
      refresh_all-counted due db1 counts,
      subst (λ (cs : List ChapterRow). distinct_chapters cs ≡ true) (sym kept) apart,
      subst (λ (k : ℕ). ids_below k (refresh_counts due db1).chapters ≡ true) (sym next)
          (subst (λ (cs : List ChapterRow). ids_below db.next_chapter_id cs ≡ true) (sym kept)
            below),
    )

add_chapter-IsCounted :
    (user : ℕ) (arcs : List Arc) (c : Chapter) (now : Time) (db : StudioDb)
    → IsCounted db
    → IsCounted (left_by db (add_chapter user arcs c now db))
add_chapter-IsCounted user arcs c now db s = split (add_chapter user arcs c now db) refl
  where
    split :
        (out : Outcome (Chapter × StudioDb))
        → add_chapter user arcs c now db ≡ out
        → IsCounted (left_by db out)
    split (err e) h = s
    split (ok (made, db')) h =
        let (n, priced, in_novel, inserted, read) =
          add_chapter-eq-ok user arcs c now db db' made h in
        insert_chapter-IsCounted (prepare_chapter arcs n c) now db db' s inserted

save_chapter-IsCounted :
    (user id : ℕ) (arcs : List Arc) (c : Chapter) (now : Time) (db : StudioDb)
    → IsCounted db
    → IsCounted (left_by db (save_chapter user id arcs c now db))
save_chapter-IsCounted user id arcs c now db s = split (save_chapter user id arcs c now db) refl
  where
    split :
        (out : Outcome (Chapter × StudioDb))
        → save_chapter user id arcs c now db ≡ out
        → IsCounted (left_by db out)
    split (err e) h = s
    split (ok (made, db')) h =
        let (existing, read, written) = save_chapter-eq-ok user id arcs c now db db' made h in
        write_save-IsCounted (edit_of arcs id existing c) user keep_revisions now db db' s written

publish_chapter-IsCounted :
    (user id : ℕ) (terms : List Term) (scheduled : Option Time) (now : Time) (db : StudioDb)
    → IsCounted db
    → IsCounted (left_by_publish db (publish_chapter user id terms scheduled now db))
publish_chapter-IsCounted user id terms scheduled now db s =
    split (publish_chapter user id terms scheduled now db) refl
  where
    split :
        (out : Outcome (Chapter × Bool × StudioDb))
        → publish_chapter user id terms scheduled now db ≡ out
        → IsCounted (left_by_publish db out)
    split (err e) h = s
    split (ok (made, told, db')) h =
        publish_row-IsCounted terms id (publish_decision scheduled now).0
          (publish_decision scheduled now).1 scheduled now db db' s
          (publish_chapter-eq-ok user id terms scheduled now db db' made told h).0

unpublish_chapter-IsCounted :
    (user id : ℕ) (now : Time) (db : StudioDb)
    → IsCounted db
    → IsCounted (left_by db (unpublish_chapter user id now db))
unpublish_chapter-IsCounted user id now db s = split (unpublish_chapter user id now db) refl
  where
    split :
        (out : Outcome (Chapter × StudioDb))
        → unpublish_chapter user id now db ≡ out
        → IsCounted (left_by db out)
    split (err e) h = s
    split (ok (made, db')) h =
        unpublish_row-IsCounted id now db db' s (unpublish_chapter-eq-ok user id now db db' made h)

update_settings-IsCounted :
    (user novel : ℕ) (n : PriceSettings) (db : StudioDb)
    → IsCounted db
    → IsCounted (left_by_settings db (update_settings user novel n db))
update_settings-IsCounted user novel n db s = split (update_settings user novel n db) refl
  where
    split :
        (out : Outcome StudioDb)
        → update_settings user novel n db ≡ out
        → IsCounted (left_by_settings db out)
    split (err e) h = s
    split (ok db') h = subst IsCounted (update_settings-eq-ok user novel n db db' h).1 (
      update_where-counted_but [] db.chapters (is_novel novel) (with_settings n) db.novels
          (λ row. (refl, refl)) s.0,
      s.1,
      s.2,
    )

serve-IsCounted : (call : StudioCall) (db : StudioDb) → IsCounted db → IsCounted (serve call db)
unfolding serve glossary_rerender
serve-IsCounted (adds user arcs c now) db s = add_chapter-IsCounted user arcs c now db s
serve-IsCounted (saves user id arcs c now) db s = save_chapter-IsCounted user id arcs c now db s
serve-IsCounted (publishes user id terms scheduled now) db s =
    publish_chapter-IsCounted user id terms scheduled now db s
serve-IsCounted (unpublishes user id now) db s = unpublish_chapter-IsCounted user id now db s
serve-IsCounted (configures user novel n) db s = update_settings-IsCounted user novel n db s
serve-IsCounted (bumps novel) db s = (
  update_where-counted_but [] db.chapters (is_novel novel) bump db.novels (λ row. (refl, refl)) s.0,
  s.1,
  s.2,
)
serve-IsCounted (ticks now) db s = tick-IsCounted now db s
serve-IsCounted (rerenders terms batch now) db s = s

calls-IsCounted :
    (calls : List StudioCall) (db : StudioDb) → IsCounted db → IsCounted (serve_all calls db)
unfolding serve_all
calls-IsCounted [] db s = s
calls-IsCounted (c ∷ cs) db s = calls-IsCounted cs (serve c db) (serve-IsCounted c db s)

-- Novels that have no chapter.
abbrev pub none_counted : List NovelRow → Bool
none_counted [] = true
none_counted (n ∷ ns) = let rest = none_counted ns in n.chapters_count == 0 && rest

opened-counted : (ns : List NovelRow) → none_counted ns ≡ true → counted_but [] [] ns ≡ true
opened-counted [] h = refl
opened-counted (n ∷ ns) h = ground (arith, opened-counted ns)

found_count :
    (id : ℕ) (cs : List ChapterRow) (ns : List NovelRow) (n : NovelRow)
    → counted_but [] cs ns ≡ true
    → find? (is_novel id) ns ≡ some n
    → n.chapters_count ≡ count_published id cs
found_count id cs [] n h e = absurd (cc)
found_count id cs (m ∷ ns) n h e = elim (Bool-cases (m.id == id)) [
  | inl here ↦
      let same : m.id ≡ id = ground arith in
      let row : m ≡ n = ground arith in
      let own : m.chapters_count ≡ count_published m.id cs = ground arith in
      ap (λ (x : NovelRow). x.chapters_count) (sym row)
      ∙ own
      ∙ ap (λ (x : ℕ). count_published x cs) same
  | inr further ↦ found_count id cs ns n (ground arith) (ground arith)
]

-- The number of chapters that a novel shows is the number of its published chapters: from a workspace
-- without chapters, after any history of requests, changes of the glossary and runs of the jobs.
pub serve_all-count_published :
    (novels : List NovelRow) (calls : List StudioCall) (id : ℕ) (n : NovelRow)
    → none_counted novels ≡ true
    → find? (is_novel id) (serve_all calls (opened novels)).novels ≡ some n
    → n.chapters_count ≡ count_published id (serve_all calls (opened novels)).chapters
serve_all-count_published novels calls id n new e =
    let s = calls-IsCounted calls (opened novels) (opened-counted novels new, refl, refl) in
    found_count id (serve_all calls (opened novels)).chapters
      (serve_all calls (opened novels)).novels n s.0 e
