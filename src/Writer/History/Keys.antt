-- ===== src/Writer/History/Keys.antt =====
-- The identifiers of the chapters are all different.
use web_novel.Common.{
  ℕ, suc, ◌≡◌, refl, subst, Bool, Bool-cases, true, false, some, inl, inr, List, [], ◌∷◌, ◌==◌,
  ◌&&◌, ◌||◌, not, find?, any, ltb, arith,
}
use web_novel.Writer.Types.{ChapterRow}
use web_novel.Writer.Store.{is_chapter, update_where}

abbrev pub distinct_chapters : List ChapterRow → Bool
distinct_chapters [] = true
distinct_chapters (c ∷ cs) =
    let rest = distinct_chapters cs in not (any (is_chapter c.id) cs) && rest

abbrev pub ids_below : ℕ → List ChapterRow → Bool
ids_below n [] = true
ids_below n (c ∷ cs) = let rest = ids_below n cs in ltb c.id n && rest

pub ids_below-fresh :
    (n : ℕ) (cs : List ChapterRow) → ids_below n cs ≡ true → any (is_chapter n) cs ≡ false
ids_below-fresh n [] h = refl
ids_below-fresh n (c ∷ cs) h = ground (arith, ids_below-fresh n cs)

pub ids_below-suc :
    (n : ℕ) (cs : List ChapterRow) → ids_below n cs ≡ true → ids_below (suc n) cs ≡ true
ids_below-suc n [] h = refl
ids_below-suc n (c ∷ cs) h = ground (arith, ids_below-suc n cs)

pub update_where-ids_below :
    (n : ℕ) (test : ChapterRow → Bool) (change : ChapterRow → ChapterRow) (cs : List ChapterRow)
    → ((c : ChapterRow) → (change c).id ≡ c.id)
    → ids_below n cs ≡ true
    → ids_below n (update_where test change cs) ≡ true
update_where-ids_below n test change [] keeps h = refl
update_where-ids_below n test change (c ∷ cs) keeps h =
    ground (arith, keeps c, update_where-ids_below n test change cs keeps)

update_where-any :
    (id : ℕ) (test : ChapterRow → Bool) (change : ChapterRow → ChapterRow) (cs : List ChapterRow)
    → ((c : ChapterRow) → (change c).id ≡ c.id)
    → any (is_chapter id) (update_where test change cs) ≡ any (is_chapter id) cs
update_where-any id test change [] keeps = refl
update_where-any id test change (c ∷ cs) keeps =
    ground (arith, keeps c, update_where-any id test change cs keeps)

pub update_where-distinct_chapters :
    (test : ChapterRow → Bool) (change : ChapterRow → ChapterRow) (cs : List ChapterRow)
    → ((c : ChapterRow) → (change c).id ≡ c.id)
    → distinct_chapters cs ≡ true
    → distinct_chapters (update_where test change cs) ≡ true
update_where-distinct_chapters test change [] keeps h = refl
update_where-distinct_chapters test change (c ∷ cs) keeps h = ground (
  arith,
  keeps c,
  update_where-any c.id test change cs keeps,
  update_where-distinct_chapters test change cs keeps,
)

-- Every row with the identifier is of the novel.
abbrev pub all_of_novel : ℕ → ℕ → List ChapterRow → Bool
all_of_novel id novel [] = true
all_of_novel id novel (c ∷ cs) =
    let rest = all_of_novel id novel cs in (not (c.id == id) || c.novel_id == novel) && rest

absent-all_of_novel :
    (id novel : ℕ) (cs : List ChapterRow)
    → any (is_chapter id) cs ≡ false
    → all_of_novel id novel cs ≡ true
absent-all_of_novel id novel [] h = refl
absent-all_of_novel id novel (c ∷ cs) h = ground (arith, absent-all_of_novel id novel cs)

pub found-all_of_novel :
    (id : ℕ) (cs : List ChapterRow) (row : ChapterRow)
    → distinct_chapters cs ≡ true
    → find? (is_chapter id) cs ≡ some row
    → all_of_novel id row.novel_id cs ≡ true
found-all_of_novel id [] row d e = absurd (cc)
found-all_of_novel id (c ∷ cs) row d e = elim (Bool-cases (c.id == id)) [
  | inl here ↦
      let same : c.id ≡ id = ground arith in
      let row_is : c ≡ row = ground arith in
      let own : (c.novel_id == row.novel_id) ≡ true = rw row_is (ground arith) in
      let alone : any (is_chapter id) cs ≡ false =
        subst (λ (x : ℕ). any (is_chapter x) cs ≡ false) same (ground arith) in
      let rest = absent-all_of_novel id row.novel_id cs alone in ground arith
  | inr further ↦
      let rest = found-all_of_novel id cs row (ground arith) (ground arith) in ground arith
]
