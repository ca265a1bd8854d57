-- ===== src/Writer/History/Stamps.antt =====
-- The times of a chapter agree with its status, through every history.
use web_novel.Common.{
  ℕ, ◌*◌, ◌≤◌, ◌≡◌, refl, Bool, Bool-cases, true, false, Option, Option-cases, none, some, inl, inr,
  List, [], ◌∷◌, ◌&&◌, find?, arith,
}
use web_novel.Common.Int.{ℤ, pos, negsuc, ◌+ℤ◌, ◌*ℤ◌, leb_ℤ, ltb_ℤ, +ℤ_parts}
use web_novel.Wallet.Types.{Time}
use web_novel.Wallet.Store.{ChapterStatus, chapter_draft, chapter_scheduled, chapter_published}
use web_novel.Writer.Types.{NovelRow, ChapterRow}
use web_novel.Writer.Rules.{hour, public_at, publish_decision}
use web_novel.Writer.Store.{update_where, is_novel}
use web_novel.Writer.Publish.{stamp, flip_row}

-- An early-access window: none, up to a week.
abbrev pub is_window : ℤ → Bool
is_window h = leb_ℤ (pos 0) h && leb_ℤ h (pos 168)

abbrev pub week : ℤ
week = pos 604_800_000_000_000

-- A published chapter has both instants, at most a week apart.
abbrev pub agrees : ChapterStatus → Option Time → Option Time → Option Time → Bool
agrees chapter_draft none none none = true
agrees chapter_scheduled none (some t) none = true
agrees chapter_published (some p) scheduled (some q) = leb_ℤ p q && leb_ℤ q (p +ℤ week)
agrees _ _ _ _ = false

-- The times agree with the status.
abbrev pub is_stamped : ChapterRow → Bool
is_stamped c = agrees c.status c.published_at c.scheduled_at c.public_at

abbrev pub all_stamped : List ChapterRow → Bool
all_stamped [] = true
all_stamped (c ∷ cs) = let rest = all_stamped cs in is_stamped c && rest

abbrev pub all_windows : List NovelRow → Bool
all_windows [] = true
all_windows (n ∷ ns) = let rest = all_windows ns in is_window n.early_access_hours && rest

later_by :
    (p : ℤ) (m : ℕ)
    → m ≤ 604_800_000_000_000
    → (leb_ℤ p (p +ℤ pos m) && leb_ℤ (p +ℤ pos m) (p +ℤ week)) ≡ true
later_by p m h = let a = +ℤ_parts p (pos m) in let b = +ℤ_parts p week in ground (arith, a, b)

hours : (n : ℕ) → pos n *ℤ hour ≡ pos (n * 3_600_000_000_000)
unfolding ◌*ℤ◌
hours n = ground arith

window_add :
    (p h : ℤ)
    → is_window h ≡ true
    → (leb_ℤ p (p +ℤ (h *ℤ hour)) && leb_ℤ (p +ℤ (h *ℤ hour)) (p +ℤ week)) ≡ true
window_add p (pos n) w = rw (hours n) (later_by p (n * 3_600_000_000_000) (ground arith))
window_add p (negsuc n) w = absurd (ground arith)

window_public_at :
    (p h : ℤ)
    → is_window h ≡ true
    → (leb_ℤ p (public_at p h) && leb_ℤ (public_at p h) (p +ℤ week)) ≡ true
unfolding public_at
window_public_at p h w = elim (Bool-cases (leb_ℤ h (pos 0))) [
  | inl none_given ↦ let a = +ℤ_parts p week in rw none_given (ground (arith, a))
  | inr some_given ↦ rw some_given (window_add p h w)
]

-- What a publish request stamps agrees.
pub stamp-is_stamped :
    (scheduled : Option Time) (now : Time) (h : ℤ) (c : ChapterRow)
    → is_window h ≡ true
    → is_stamped (
        stamp
          (publish_decision scheduled now).0
          (publish_decision scheduled now).1
          scheduled
          h
          now
          c)
      ≡ true
unfolding publish_decision
stamp-is_stamped none now h c w = window_public_at now h w
stamp-is_stamped (some t) now h c w = elim (Bool-cases (ltb_ℤ now t)) [
  | inl future ↦ rw future refl
  | inr past ↦ rw past (window_public_at now h w)
]

pub found_window :
    (p : NovelRow → Bool) (ns : List NovelRow) (n : NovelRow)
    → all_windows ns ≡ true
    → find? p ns ≡ some n
    → is_window n.early_access_hours ≡ true
found_window p [] n w e = absurd (cc)
found_window p (m ∷ ms) n w e = ground (arith, found_window p ms n)

-- A change that keeps rows stamped where its test holds.
pub update_where-all_stamped :
    (test : ChapterRow → Bool) (change : ChapterRow → ChapterRow) (cs : List ChapterRow)
    → ((c : ChapterRow) → test c ≡ true → is_stamped c ≡ true → is_stamped (change c) ≡ true)
    → all_stamped cs ≡ true
    → all_stamped (update_where test change cs) ≡ true
update_where-all_stamped test change [] keeps h = refl
update_where-all_stamped test change (c ∷ cs) keeps h =
    ground (arith, keeps c, update_where-all_stamped test change cs keeps)

pub update_where-all_windows :
    (test : NovelRow → Bool) (change : NovelRow → NovelRow) (ns : List NovelRow)
    → ((n : NovelRow)
        → is_window n.early_access_hours ≡ true
        → is_window (change n).early_access_hours ≡ true)
    → all_windows ns ≡ true
    → all_windows (update_where test change ns) ≡ true
update_where-all_windows test change [] keeps h = refl
update_where-all_windows test change (n ∷ ns) keeps h =
    ground (arith, keeps n, update_where-all_windows test change ns keeps)

-- A row that the scheduler flips.
pub flip_row-is_stamped :
    (novels : List NovelRow) (now : Time) (c : ChapterRow)
    → all_windows novels ≡ true
    → is_stamped c ≡ true
    → is_stamped (flip_row novels now c) ≡ true
unfolding flip_row
flip_row-is_stamped novels now c w h = elim (Option-cases (find? (is_novel c.novel_id) novels)) [
  | inl nothing ↦ rw (flip_row, nothing) h
  | inr (n, e) ↦
      rw (flip_row, e)
        (window_add now n.early_access_hours (found_window (is_novel c.novel_id) novels n w e))
]
