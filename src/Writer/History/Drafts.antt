-- ===== src/Writer/History/Drafts.antt =====
-- The autosaves of a chapter stay within their number.
use web_novel.Common.{
  ℕ, ◌≤◌, ◌≡◌, refl, sym, ap, subst, Bool, Bool-cases, Option, inl, inr, List, [], ◌∷◌, ◌==◌, arith,
}
use web_novel.Common.Result.{ok, err}
use web_novel.Wallet.Types.{Time}
use web_novel.Glossary.{Term}
use web_novel.Writer.Types.{Outcome, Arc, Chapter, NovelRow, StudioDb}
use web_novel.Writer.Rules.{keep_revisions, publish_decision}
use web_novel.Writer.Store.{is_draft_of, prune_revisions, new_draft, write_save}
use web_novel.Writer.Publish.{
  write_publish, refresh_chapter_count, due_novels, refresh_counts, publish_scheduled,
}
use web_novel.Writer.Studio.{
  edit_of, prepare_chapter, add_chapter, save_chapter, publish_chapter, unpublish_chapter,
  PriceSettings, update_settings,
}
use web_novel.Writer.Prune.{count, prune_revisions-count, prune_revisions-others}
use web_novel.Writer.Rerender.{glossary_rerender}
use web_novel.Writer.History.{
  StudioCall, adds, saves, publishes, unpublishes, configures, bumps, ticks, rerenders, left_by,
  left_by_publish, left_by_settings, serve, serve_all, opened,
}
use web_novel.Writer.History.Effects.{
  insert_chapter-eq-ok, write_save-eq-ok, unpublish_row-eq-ok, publish_row-eq-ok, add_chapter-eq-ok,
  save_chapter-eq-ok, publish_chapter-eq-ok, unpublish_chapter-eq-ok, update_settings-eq-ok,
}

InNumber : StudioDb → Type 0
InNumber db = (id : ℕ) → count (is_draft_of id) db.drafts ≤ keep_revisions

-- An outcome that leaves the autosaves as they are.
same_drafts : (db db' : StudioDb) → InNumber db → db'.drafts ≡ db.drafts → InNumber db'
unfolding InNumber
same_drafts db db' s e id = rw e (s id)

write_save-InNumber :
    (c : Chapter) (author : ℕ) (now : Time) (db db' : StudioDb)
    → InNumber db
    → write_save c author keep_revisions now db ≡ ok db'
    → InNumber db'
unfolding InNumber
write_save-InNumber c author now db db' s h id =
    let added = new_draft c author db.next_draft_id now ∷ db.drafts in
    let written : db'.drafts ≡ prune_revisions c.id 20 added =
      sym
        (ap (λ (x : StudioDb). x.drafts) (write_save-eq-ok c author keep_revisions now db db' h)) in
    let old = s id in
    rw written (elim (Bool-cases (c.id == id)) [
      | inl own ↦
          let same : c.id ≡ id = ground arith in
          subst (λ (x : ℕ). count (is_draft_of x) (prune_revisions c.id 20 added) ≤ 20) same
            (prune_revisions-count c.id 20 added (omega arith))
      | inr other ↦
          let fewer = prune_revisions-others id c.id 20 added (omega arith) in
          let not_own : count (is_draft_of id) added ≡ count (is_draft_of id) db.drafts =
            rw other refl in
          omega (arith, fewer, not_own, old)
    ])

save_chapter-InNumber :
    (user id : ℕ) (arcs : List Arc) (c : Chapter) (now : Time) (db : StudioDb)
    → InNumber db
    → InNumber (left_by db (save_chapter user id arcs c now db))
save_chapter-InNumber user id arcs c now db s = split (save_chapter user id arcs c now db) refl
  where
    split :
        (out : Outcome (Chapter × StudioDb))
        → save_chapter user id arcs c now db ≡ out
        → InNumber (left_by db out)
    split (err e) h = s
    split (ok (made, db')) h =
        let (existing, read, written) = save_chapter-eq-ok user id arcs c now db db' made h in
        write_save-InNumber (edit_of arcs id existing c) user now db db' s written

add_chapter-drafts :
    (user : ℕ) (arcs : List Arc) (c : Chapter) (now : Time) (db : StudioDb)
    → (left_by db (add_chapter user arcs c now db)).drafts ≡ db.drafts
add_chapter-drafts user arcs c now db = split (add_chapter user arcs c now db) refl
  where
    split :
        (out : Outcome (Chapter × StudioDb))
        → add_chapter user arcs c now db ≡ out
        → (left_by db out).drafts ≡ db.drafts
    split (err e) h = refl
    split (ok (made, db')) h =
        let (n, priced, in_novel, inserted, read) =
          add_chapter-eq-ok user arcs c now db db' made h in
        let (n', again, good, same) =
          insert_chapter-eq-ok (prepare_chapter arcs n c) now db db' inserted in
        sym (ap (λ (x : StudioDb). x.drafts) same)

publish_chapter-drafts :
    (user id : ℕ) (terms : List Term) (scheduled : Option Time) (now : Time) (db : StudioDb)
    → (left_by_publish db (publish_chapter user id terms scheduled now db)).drafts ≡ db.drafts
unfolding write_publish refresh_chapter_count
publish_chapter-drafts user id terms scheduled now db =
    split (publish_chapter user id terms scheduled now db) refl
  where
    split :
        (out : Outcome (Chapter × Bool × StudioDb))
        → publish_chapter user id terms scheduled now db ≡ out
        → (left_by_publish db out).drafts ≡ db.drafts
    split (err e) h = refl
    split (ok (made, told, db')) h =
        let decision = publish_decision scheduled now in
        let (written, read) =
          publish_chapter-eq-ok user id terms scheduled now db db' made told h in
        let (c, n, b, r, at, in_novel, body, done, same) =
          publish_row-eq-ok terms id decision.0 decision.1 scheduled now db db' written in
        sym (ap (λ (x : StudioDb). x.drafts) same)

unpublish_chapter-drafts :
    (user id : ℕ) (now : Time) (db : StudioDb)
    → (left_by db (unpublish_chapter user id now db)).drafts ≡ db.drafts
unfolding refresh_chapter_count
unpublish_chapter-drafts user id now db = split (unpublish_chapter user id now db) refl
  where
    split :
        (out : Outcome (Chapter × StudioDb))
        → unpublish_chapter user id now db ≡ out
        → (left_by db out).drafts ≡ db.drafts
    split (err e) h = refl
    split (ok (made, db')) h =
        let (c, found, same) =
          unpublish_row-eq-ok id now db db' (unpublish_chapter-eq-ok user id now db db' made h) in
        sym (ap (λ (x : StudioDb). x.drafts) same)

update_settings-drafts :
    (user novel : ℕ) (n : PriceSettings) (db : StudioDb)
    → (left_by_settings db (update_settings user novel n db)).drafts ≡ db.drafts
update_settings-drafts user novel n db = split (update_settings user novel n db) refl
  where
    split :
        (out : Outcome StudioDb)
        → update_settings user novel n db ≡ out
        → (left_by_settings db out).drafts ≡ db.drafts
    split (err e) h = refl
    split (ok db') h =
        sym (ap (λ (x : StudioDb). x.drafts) (update_settings-eq-ok user novel n db db' h).1)

refresh_counts-drafts : (ns : List ℕ) (db : StudioDb) → (refresh_counts ns db).drafts ≡ db.drafts
unfolding refresh_chapter_count
refresh_counts-drafts [] db = refl
refresh_counts-drafts (n ∷ ns) db = refresh_counts-drafts ns (refresh_chapter_count n db)

serve-InNumber : (call : StudioCall) (db : StudioDb) → InNumber db → InNumber (serve call db)
unfolding serve publish_scheduled glossary_rerender
serve-InNumber (adds user arcs c now) db s =
    same_drafts db (left_by db (add_chapter user arcs c now db)) s
      (add_chapter-drafts user arcs c now db)
serve-InNumber (saves user id arcs c now) db s = save_chapter-InNumber user id arcs c now db s
serve-InNumber (publishes user id terms scheduled now) db s =
    same_drafts db (left_by_publish db (publish_chapter user id terms scheduled now db)) s
      (publish_chapter-drafts user id terms scheduled now db)
serve-InNumber (unpublishes user id now) db s =
    same_drafts db (left_by db (unpublish_chapter user id now db)) s
      (unpublish_chapter-drafts user id now db)
serve-InNumber (configures user novel n) db s =
    same_drafts db (left_by_settings db (update_settings user novel n db)) s
      (update_settings-drafts user novel n db)
serve-InNumber (rerenders terms batch now) db s =
    same_drafts db (glossary_rerender terms batch now db) s refl
serve-InNumber (bumps novel) db s = same_drafts db (serve (bumps novel) db) s refl
serve-InNumber (ticks now) db s =
    same_drafts db (publish_scheduled now db) s
      (refresh_counts-drafts (due_novels now db.chapters) _)

calls-InNumber :
    (calls : List StudioCall) (db : StudioDb) → InNumber db → InNumber (serve_all calls db)
unfolding serve_all
calls-InNumber [] db s = s
calls-InNumber (c ∷ cs) db s = calls-InNumber cs (serve c db) (serve-InNumber c db s)

-- A chapter never has more than 20 autosaves: from a workspace without chapters, after any history.
pub serve_all-count :
    (novels : List NovelRow) (calls : List StudioCall) (id : ℕ)
    → count (is_draft_of id) (serve_all calls (opened novels)).drafts ≤ keep_revisions
unfolding InNumber
serve_all-count novels calls id = calls-InNumber calls (opened novels) (λ k. omega arith) id
