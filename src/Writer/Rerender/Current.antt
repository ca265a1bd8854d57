-- ===== src/Writer/Rerender/Current.antt =====
-- A run of the job brings a chapter up to date.
use web_novel.Common.{
  ℕ, zero, suc, ◌≤◌, ◌≡◌, refl, sym, ap, subst, ◌∙◌, Bool, Bool-cases, true, false, Option,
  Option-cases, some, inl, inr, List, [], ◌∷◌, ◌==◌, if◌then◌else◌, ◌&&◌, ◌||◌, not, find?, ltb,
  length, arith,
}
use web_novel.Common.Int.{ℤ}
use web_novel.Wallet.Types.{Time}
use web_novel.Glossary.{Term, Rendered, render}
use web_novel.Writer.Types.{BodyRow, StudioDb}
use web_novel.Writer.Store.{is_body}
use web_novel.Writer.Rerender.{
  StaleRow, stale_row, novel_rev, stale_rows, first_rows, is_behind, rerendered, rerender_row,
  rerender_rows, effective_batch, glossary_rerender,
}
use web_novel.Writer.History.Outcomes.{find-update_where, find_holds}

-- The rows of a chapter all have the revision.
abbrev rows_agree : ℕ → ℕ → List StaleRow → Bool
rows_agree id rev [] = true
rows_agree id rev (r ∷ rows) =
    let rest = rows_agree id rev rows in (not (r.chapter_id == id) || r.glossary_rev == rev) && rest

abbrev is_row : ℕ → StaleRow → Bool
is_row id r = r.chapter_id == id

-- A row that does not move a body leaves it where it is.
unmoved :
    (terms : ℕ → List Term) (now : Time) (id : ℕ) (row : StaleRow) (bodies : List BodyRow)
    (b : BodyRow)
    → find? (is_body id) bodies ≡ some b
    → is_behind row b ≡ false
    → find? (is_body id) (rerender_row terms now row bodies) ≡ some b
unfolding rerender_row
unmoved terms now id row bodies b e still =
    elim (Option-cases (render row.body_source (terms row.novel_id))) [
      | inl nothing ↦ rw (rerender_row, nothing) e
      | inr (r, done) ↦
          rw (rerender_row, done)
            (find-update_where (is_body id) (is_behind row) (rerendered r row now) bodies b
                (λ a. refl) e
              ∙ ap (λ (x : Bool). some (if x then rerendered r row now b else b)) still)
    ]

not_behind :
    (id rev : ℕ) (row : StaleRow) (b : BodyRow)
    → b.chapter_id ≡ id
    → b.glossary_rev ≡ rev
    → (not (row.chapter_id == id) || row.glossary_rev == rev) ≡ true
    → is_behind row b ≡ false
not_behind id rev row b at now_rev agrees = ground arith

settled :
    (terms : ℕ → List Term) (now : Time) (id rev : ℕ) (rows : List StaleRow) (bodies : List BodyRow)
    (b : BodyRow)
    → find? (is_body id) bodies ≡ some b
    → b.glossary_rev ≡ rev
    → rows_agree id rev rows ≡ true
    → find? (is_body id) (rerender_rows terms now rows bodies) ≡ some b
unfolding rerender_rows
settled terms now id rev [] bodies b e at_rev agree = e
settled terms now id rev (row ∷ rows) bodies b e at_rev agree =
    let at : b.chapter_id ≡ id = ground (arith, find_holds (is_body id) bodies b e) in
    let still = not_behind id rev row b at at_rev (ground arith) in
    settled terms now id rev rows (rerender_row terms now row bodies) b
      (unmoved terms now id row bodies b e still) at_rev (ground arith)

moved_row :
    (terms : ℕ → List Term) (now : Time) (id : ℕ) (row : StaleRow) (bodies : List BodyRow)
    (b : BodyRow) (r : Rendered)
    → find? (is_body id) bodies ≡ some b
    → render row.body_source (terms row.novel_id) ≡ some r
    → is_behind row b ≡ true
    → find? (is_body id) (rerender_row terms now row bodies) ≡ some (rerendered r row now b)
unfolding rerender_row
moved_row terms now id row bodies b r e done behind =
    rw (rerender_row, done)
      (find-update_where (is_body id) (is_behind row) (rerendered r row now) bodies b (λ a. refl) e
        ∙ ap (λ (x : Bool). some (if x then rerendered r row now b else b)) behind)

brought_up :
    (terms : ℕ → List Term) (now : Time) (id : ℕ) (rows : List StaleRow) (row : StaleRow)
    (bodies : List BodyRow) (b : BodyRow) (r : Rendered)
    → find? (is_body id) bodies ≡ some b
    → find? (is_row id) rows ≡ some row
    → ltb b.glossary_rev row.glossary_rev ≡ true
    → render row.body_source (terms row.novel_id) ≡ some r
    → rows_agree id row.glossary_rev rows ≡ true
    → find? (is_body id) (rerender_rows terms now rows bodies) ≡ some (rerendered r row now b)
unfolding rerender_rows
brought_up terms now id [] row bodies b r e first old done agree = absurd (cc)
brought_up terms now id (head ∷ rows) row bodies b r e first old done agree =
    let at : b.chapter_id ≡ id = ground (arith, find_holds (is_body id) bodies b e) in
    elim (Bool-cases (head.chapter_id == id)) [
      | inl here ↦
          let same : head ≡ row = ground arith in
          let own : row.chapter_id ≡ id =
            subst (λ (x : StaleRow). x.chapter_id ≡ id) same (ground arith) in
          let behind : is_behind row b ≡ true = ground arith in
          let moved = moved_row terms now id row bodies b r e done behind in
          rw same (
            settled terms now id row.glossary_rev rows (rerender_row terms now row bodies)
              (rerendered r row now b) moved refl (ground arith))
      | inr other ↦
          let still : is_behind head b ≡ false = ground arith in
          brought_up terms now id rows row (rerender_row terms now head bodies) b r
            (unmoved terms now id head bodies b e still) (ground arith) old done (ground arith)
    ]

one_rev :
    (m m' rev rev' : ℕ) → ◌≡◌ {A = Option (ℕ × ℕ)} (some (m', rev')) (some (m, rev)) → rev' ≡ rev
one_rev m m' rev rev' e = cc

-- A chapter has one revision.
same_rev :
    (db : StudioDb) (k id m m' rev rev' : ℕ)
    → novel_rev id db ≡ some (m, rev)
    → novel_rev k db ≡ some (m', rev')
    → (not (k == id) || rev' == rev) ≡ true
same_rev db k id m m' rev rev' e e' = elim (Bool-cases (k == id)) [
  | inr other ↦ rw other refl
  | inl same ↦
      let here : k ≡ id = ground arith in
      let both_are : some (m', rev') ≡ some (m, rev) =
        sym e' ∙ ap (λ (x : ℕ). novel_rev x db) here ∙ e in
      let one : rev' ≡ rev = one_rev m m' rev rev' both_are in rw same (ground (arith, one))
]

stale_rows-agree :
    (db : StudioDb) (bs : List BodyRow) (id m rev : ℕ)
    → novel_rev id db ≡ some (m, rev)
    → rows_agree id rev (stale_rows db bs) ≡ true
unfolding stale_rows
stale_rows-agree db [] id m rev e = refl
stale_rows-agree db (b ∷ bs) id m rev e =
    let rest = stale_rows-agree db bs id m rev e in
    elim (Option-cases (novel_rev b.chapter_id db)) [
      | inl nothing ↦ rw (rows_agree, stale_rows, nothing) rest
      | inr ((m', rev'), e') ↦ elim (Bool-cases (ltb b.glossary_rev rev')) [
        | inr fresh ↦ rw (rows_agree, stale_rows, e', fresh) rest
        | inl behind ↦
            rw (rows_agree, stale_rows, e', behind)
              (ground (arith, rest, same_rev db b.chapter_id id m m' rev rev' e e'))
      ]
    ]

first_stale :
    (db : StudioDb) (bs : List BodyRow) (id m rev : ℕ) (b : BodyRow)
    → find? (is_body id) bs ≡ some b
    → novel_rev id db ≡ some (m, rev)
    → ltb b.glossary_rev rev ≡ true
    → find? (is_row id) (stale_rows db bs) ≡ some (stale_row b m rev)
unfolding stale_rows
first_stale db [] id m rev b e at old = absurd (cc)
first_stale db (head ∷ bs) id m rev b e at old = elim (Bool-cases (head.chapter_id == id)) [
  | inl here ↦
      let same : head ≡ b = ground arith in
      let own : head.chapter_id ≡ id = ground arith in
      let at' : novel_rev head.chapter_id db ≡ some (m, rev) =
        ap (λ (k : ℕ). novel_rev k db) own ∙ at in
      let old' : ltb head.glossary_rev rev ≡ true =
        ap (λ (x : BodyRow). ltb x.glossary_rev rev) same ∙ old in
      rw (find?, stale_rows, at', old')
        (rw here (ap (λ (x : BodyRow). some (stale_row x m rev)) same))
  | inr other ↦
      let rest = first_stale db bs id m rev b (rw other at e) at old in
      elim (Option-cases (novel_rev head.chapter_id db)) [
        | inl nothing ↦ rw (find?, stale_rows, nothing) rest
        | inr ((m', rev'), e') ↦ elim (Bool-cases (ltb head.glossary_rev rev')) [
          | inr fresh ↦ rw (find?, stale_rows, e', fresh) rest
          | inl behind ↦ rw (find?, stale_rows, e', behind) (rw other rest)
        ]
      ]
]

first_rows-all : (n : ℕ) (rows : List StaleRow) → length rows ≤ n → first_rows n rows ≡ rows
first_rows-all zero [] h = refl
first_rows-all zero (r ∷ rows) h = absurd (omega (arith, h))
first_rows-all (suc n) [] h = refl
first_rows-all (suc n) (r ∷ rows) h =
    ap (λ rest. r ∷ rest) (first_rows-all n rows (omega (arith, h)))

-- A chapter whose rendering has fallen behind its novel's glossary is up to date after one run that
-- has room for all such chapters: readers are shown its source as it stands, unpublished edits
-- included, rendered with the novel's terms, and it carries the novel's revision.
pub glossary_rerender_shows :
    (terms : ℕ → List Term) (batch : ℤ) (now : Time) (db : StudioDb) (id m rev : ℕ) (b : BodyRow)
    (r : Rendered)
    → find? (is_body id) db.bodies ≡ some b
    → novel_rev id db ≡ some (m, rev)
    → ltb b.glossary_rev rev ≡ true
    → render b.body_source (terms m) ≡ some r
    → length (stale_rows db db.bodies) ≤ effective_batch batch
    → find? (is_body id) (glossary_rerender terms batch now db).bodies
      ≡ some (record b { body_html = r.html; glossary_rev = rev; rendered_at = now })
unfolding glossary_rerender
glossary_rerender_shows terms batch now db id m rev b r e at old done room =
    let rows = stale_rows db db.bodies in
    let all_rows = first_rows-all (effective_batch batch) rows room in
    let up =
      brought_up terms now id rows (stale_row b m rev) db.bodies b r e
        (first_stale db db.bodies id m rev b e at old) old done
        (stale_rows-agree db db.bodies id m rev at) in
    ap (λ (x : List StaleRow). find? (is_body id) (rerender_rows terms now x db.bodies)) all_rows
    ∙ up
