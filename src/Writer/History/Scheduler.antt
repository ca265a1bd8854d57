-- ===== src/Writer/History/Scheduler.antt =====
-- The scheduler publishes as a translator does.
use web_novel.Common.{
  ℕ, ◌≡◌, refl, sym, ap, subst, ◌∙◌, Bool, Bool-cases, true, some, inl, inr, List, ◌==◌,
  if◌then◌else◌, find?, arith,
}
use web_novel.Common.Int.{ℤ, pos, negsuc, ◌+ℤ◌, ◌*ℤ◌, leb_ℤ, +ℤ_parts, eq_of_parts}
use web_novel.Wallet.Types.{Time}
use web_novel.Wallet.Store.{chapter_published}
use web_novel.Writer.Types.{NovelRow, ChapterRow, StudioDb}
use web_novel.Writer.Rules.{hour, public_at}
use web_novel.Writer.Store.{is_novel, is_chapter, update_where}
use web_novel.Writer.Publish.{stamp, is_due, flip_row, due_novels, publish_scheduled}
use web_novel.Writer.History.Stamps.{is_window}
use web_novel.Writer.History.Outcomes.{find-update_where}
use web_novel.Writer.History.Counts.{flip_row-id, refresh_all-chapters}

add_zero : (p : ℤ) → p +ℤ (pos 0 *ℤ hour) ≡ p
unfolding ◌*ℤ◌
add_zero p = let a = +ℤ_parts p (pos 0) in eq_of_parts (p +ℤ pos 0) p (omega (arith, a))

-- The interval of the query is the window of `PublicAt`.
interval : (p h : ℤ) → is_window h ≡ true → p +ℤ (h *ℤ hour) ≡ public_at p h
unfolding public_at
interval p (negsuc n) w = absurd (ground arith)
interval p (pos n) w = elim (Bool-cases (leb_ℤ (pos n) (pos 0))) [
  | inl nothing ↦
      let zero_hours : n ≡ 0 = ground arith in
      rw nothing (subst (λ (x : ℕ). p +ℤ (pos x *ℤ hour) ≡ p) (sym zero_hours) (add_zero p))
  | inr something ↦ rw something refl
]

flipped :
    (novels : List NovelRow) (now : Time) (c : ChapterRow) (n : NovelRow)
    → find? (is_novel c.novel_id) novels ≡ some n
    → is_window n.early_access_hours ≡ true
    → flip_row novels now c
      ≡ stamp chapter_published (some now) c.scheduled_at n.early_access_hours c.updated_at c
unfolding flip_row
flipped novels now c n e w =
    let same = interval now n.early_access_hours w in rw (flip_row, e) (rw same refl)

-- A chapter whose scheduled time has come is published by the next run of the scheduler, and stamped
-- as a request of its translator at that instant would stamp it, the novel's early-access window
-- included, but for the time of its last update.
pub publish_scheduled-stamp :
    (now : Time) (db : StudioDb) (id : ℕ) (c : ChapterRow) (n : NovelRow)
    → find? (is_chapter id) db.chapters ≡ some c
    → is_due now c ≡ true
    → find? (is_novel c.novel_id) db.novels ≡ some n
    → is_window n.early_access_hours ≡ true
    → find? (is_chapter id) (publish_scheduled now db).chapters
      ≡ some (stamp chapter_published (some now) c.scheduled_at n.early_access_hours c.updated_at c)
unfolding publish_scheduled
publish_scheduled-stamp now db id c n at due in_novel w =
    let change = flip_row db.novels now in
    let db1 : StudioDb = record db { chapters = update_where (is_due now) change db.chapters } in
    let found =
      find-update_where (is_chapter id) (is_due now) change db.chapters c
        (λ a. ap (λ (x : ℕ). x == id) (flip_row-id db.novels now a)) at in
    let kept = (refresh_all-chapters (due_novels now db.chapters) db1).0 in
    ap (find? (is_chapter id)) kept
    ∙ found
    ∙ ap (λ (x : Bool). some (if x then change c else c)) due
    ∙ ap some (flipped db.novels now c n in_novel w)
