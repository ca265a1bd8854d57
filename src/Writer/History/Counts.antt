-- ===== src/Writer/History/Counts.antt =====
-- A novel's count of chapters is the number of its published chapters.
use web_novel.Common.{
  ℕ, ◌≡◌, refl, subst, Bool, Bool-cases, true, false, Option-cases, inl, inr, List, [], ◌∷◌, ◌==◌,
  ◌&&◌, ◌||◌, find?, arith,
}
use web_novel.Common.Result.{ok}
use web_novel.Wallet.Types.{Time}
use web_novel.Wallet.Apply.Checks.{is_published}
use web_novel.Writer.Types.{Chapter, NovelRow, ChapterRow, StudioDb}
use web_novel.Writer.Store.{is_novel, is_chapter, update_where, has_id, draft_of, insert_chapter}
use web_novel.Writer.Publish.{
  count_published, with_count, refresh_chapter_count, is_due, flip_row, due_novels, refresh_counts,
}
use web_novel.Writer.History.Keys.{
  all_of_novel, distinct_chapters, ids_below, ids_below-fresh, ids_below-suc,
  update_where-ids_below, update_where-distinct_chapters,
}
use web_novel.Writer.History.Effects.{insert_chapter-eq-ok}

-- The counts are right but for the novels that are listed.
abbrev pub counted_but : List ℕ → List ChapterRow → List NovelRow → Bool
counted_but ms cs [] = true
counted_but ms cs (n ∷ ns) =
    let rest = counted_but ms cs ns in
    (n.chapters_count == count_published n.id cs || has_id n.id ms) && rest

pub refresh-counted_but :
    (m : ℕ) (ms : List ℕ) (cs : List ChapterRow) (ns : List NovelRow)
    → counted_but (m ∷ ms) cs ns ≡ true
    → counted_but ms cs (update_where (is_novel m) (with_count cs) ns) ≡ true
refresh-counted_but m ms cs [] h = refl
refresh-counted_but m ms cs (n ∷ ns) h = ground (arith, refresh-counted_but m ms cs ns)

-- Other chapters, whose count may differ for the listed novels only.
pub moved-counted_but :
    (ms : List ℕ) (cs cs' : List ChapterRow) (ns : List NovelRow)
    → ((k : ℕ) → has_id k ms ≡ false → count_published k cs' ≡ count_published k cs)
    → counted_but [] cs ns ≡ true
    → counted_but ms cs' ns ≡ true
moved-counted_but ms cs cs' [] same h = refl
moved-counted_but ms cs cs' (n ∷ ns) same h =
    ground (arith, same n.id, moved-counted_but ms cs cs' ns same)

-- A change of novels that keeps their identifiers and counts.
pub update_where-counted_but :
    (ms : List ℕ) (cs : List ChapterRow) (test : NovelRow → Bool) (change : NovelRow → NovelRow)
    (ns : List NovelRow)
    → ((n : NovelRow) → ((change n).id ≡ n.id) × ((change n).chapters_count ≡ n.chapters_count))
    → counted_but ms cs ns ≡ true
    → counted_but ms cs (update_where test change ns) ≡ true
update_where-counted_but ms cs test change [] keeps h = refl
update_where-counted_but ms cs test change (n ∷ ns) keeps h =
    let (a, b) = keeps n in
    let rest = update_where-counted_but ms cs test change ns keeps in
    elim (Bool-cases (test n)) [
      | inl here ↦ rw (here, a, b) (ground (arith, rest))
      | inr other ↦ rw other (ground (arith, rest))
    ]

-- A change of chapters that keeps novel and status.
pub update_where-count_published :
    (k : ℕ) (test : ChapterRow → Bool) (change : ChapterRow → ChapterRow) (cs : List ChapterRow)
    → ((c : ChapterRow) → ((change c).novel_id ≡ c.novel_id) × ((change c).status ≡ c.status))
    → count_published k (update_where test change cs) ≡ count_published k cs
update_where-count_published k test change [] keeps = refl
update_where-count_published k test change (c ∷ cs) keeps =
    let (a, b) = keeps c in
    let rest = update_where-count_published k test change cs keeps in
    elim (Bool-cases (test c)) [
      | inl here ↦ rw (here, a, b, rest) refl
      | inr other ↦ rw (other, rest) refl
    ]

-- A change of one chapter that keeps its novel, seen from another novel.
pub stamped-count_published :
    (k id novel : ℕ) (change : ChapterRow → ChapterRow) (cs : List ChapterRow)
    → ((c : ChapterRow) → (change c).novel_id ≡ c.novel_id)
    → all_of_novel id novel cs ≡ true
    → (novel == k) ≡ false
    → count_published k (update_where (is_chapter id) change cs) ≡ count_published k cs
stamped-count_published k id novel change [] keeps own other = refl
stamped-count_published k id novel change (c ∷ cs) keeps own other =
    ground (arith, keeps c, stamped-count_published k id novel change cs keeps)

flip_row-novel :
    (novels : List NovelRow) (now : Time) (c : ChapterRow)
    → (flip_row novels now c).novel_id ≡ c.novel_id
unfolding flip_row
flip_row-novel novels now c = elim (Option-cases (find? (is_novel c.novel_id) novels)) [
  | inl nothing ↦ rw (flip_row, nothing) refl
  | inr (n, e) ↦ rw (flip_row, e) refl
]

pub flip_row-id :
    (novels : List NovelRow) (now : Time) (c : ChapterRow) → (flip_row novels now c).id ≡ c.id
unfolding flip_row
flip_row-id novels now c = elim (Option-cases (find? (is_novel c.novel_id) novels)) [
  | inl nothing ↦ rw (flip_row, nothing) refl
  | inr (n, e) ↦ rw (flip_row, e) refl
]

pub flipped-count_published :
    (k : ℕ) (novels : List NovelRow) (now : Time) (cs : List ChapterRow)
    → has_id k (due_novels now cs) ≡ false
    → count_published k (update_where (is_due now) (flip_row novels now) cs) ≡ count_published k cs
flipped-count_published k novels now [] h = refl
flipped-count_published k novels now (c ∷ cs) h =
    let same = flip_row-novel novels now c in
    elim (Bool-cases (is_due now c)) [
      | inl due ↦
          let elsewhere : has_id k (c.novel_id ∷ due_novels now cs) ≡ false =
            rw (due_novels, due) at h in
          let other : (c.novel_id == k) ≡ false = ground arith in
          let rest = flipped-count_published k novels now cs (ground arith) in
          rw (due, same, other) rest
      | inr later ↦
          let rest = flipped-count_published k novels now cs (ground arith) in rw (later, rest) refl
    ]

pub refresh_all-counted :
    (ms : List ℕ) (db : StudioDb)
    → counted_but ms db.chapters db.novels ≡ true
    → counted_but [] (refresh_counts ms db).chapters (refresh_counts ms db).novels ≡ true
unfolding refresh_chapter_count
refresh_all-counted [] db h = h
refresh_all-counted (m ∷ ms) db h =
    refresh_all-counted ms (refresh_chapter_count m db)
      (refresh-counted_but m ms db.chapters db.novels h)

draft_count :
    (k : ℕ) (row : ChapterRow) (cs : List ChapterRow)
    → is_published row.status ≡ false
    → count_published k (row ∷ cs) ≡ count_published k cs
draft_count k row cs e = ground arith

pub refresh_all-chapters :
    (ms : List ℕ) (db : StudioDb)
    → ((refresh_counts ms db).chapters ≡ db.chapters)
      × ((refresh_counts ms db).next_chapter_id ≡ db.next_chapter_id)
unfolding refresh_chapter_count
refresh_all-chapters [] db = (refl, refl)
refresh_all-chapters (m ∷ ms) db = refresh_all-chapters ms (refresh_chapter_count m db)

-- The counts are right, and the chapters are told apart.
abbrev pub IsCounted : StudioDb → Type 0
IsCounted db =
    (counted_but [] db.chapters db.novels ≡ true)
    × (distinct_chapters db.chapters ≡ true)
    × (ids_below db.next_chapter_id db.chapters ≡ true)

pub insert_chapter-IsCounted :
    (c : Chapter) (now : Time) (db db' : StudioDb)
    → IsCounted db
    → insert_chapter c now db ≡ ok db'
    → IsCounted db'
insert_chapter-IsCounted c now db db' s h =
    let (n, found, good, same) = insert_chapter-eq-ok c now db db' h in
    let row = draft_of c n.primary_translator_id db.next_chapter_id now in
    let counts =
      moved-counted_but [] db.chapters (row ∷ db.chapters) db.novels
        (λ k e. draft_count k row db.chapters refl) s.0 in
    let fresh = ids_below-fresh db.next_chapter_id db.chapters s.2 in
    let apart : distinct_chapters (row ∷ db.chapters) ≡ true = rw (fresh, s.1) refl in
    let below = ids_below-suc db.next_chapter_id db.chapters s.2 in
    subst IsCounted same (counts, apart, ground (arith, below))

-- A change of chapters that keeps their identifiers, with the counts refreshed where they move.
pub changed-IsCounted :
    (ms : List ℕ) (test : ChapterRow → Bool) (change : ChapterRow → ChapterRow) (db : StudioDb)
    → ((c : ChapterRow) → (change c).id ≡ c.id)
    → ((k : ℕ)
        → has_id k ms ≡ false
        → count_published k (update_where test change db.chapters) ≡ count_published k db.chapters)
    → IsCounted db
    → (counted_but ms (update_where test change db.chapters) db.novels ≡ true)
      × (distinct_chapters (update_where test change db.chapters) ≡ true)
      × (ids_below db.next_chapter_id (update_where test change db.chapters) ≡ true)
changed-IsCounted ms test change db keeps same s = (
  moved-counted_but ms db.chapters (update_where test change db.chapters) db.novels same s.0,
  update_where-distinct_chapters test change db.chapters keeps s.1,
  update_where-ids_below db.next_chapter_id test change db.chapters keeps s.2,
)
