-- ===== src/Writer/Prune/Order.antt =====
-- Sorting autosaves: newest first, the identifier breaking ties.
use web_novel.Common.{
  ℕ, ◌+◌, ◌<◌, ◌⊎◌, ◌≡◌, refl, ◌∙◌, Bool, Bool-cases, true, false, inl, inr, List, [], ◌∷◌, ◌==◌,
  ◌&&◌, ◌||◌, not, any, ltb, arith,
}
use web_novel.Common.Int.{ℤ, pos_part, neg_part, ltb_ℤ, eqb_ℤ}
use web_novel.Writer.Types.{DraftRow}
use web_novel.Writer.Rules.{newer, insert_draft, sort_drafts, draft_ids}
use web_novel.Writer.Store.{has_id}

-- The saved instant and the identifier are what the order goes by.
abbrev pub same_draft : DraftRow → DraftRow → Bool
same_draft d e = e.id == d.id && eqb_ℤ e.saved_at d.saved_at

abbrev pub distinct_drafts : List DraftRow → Bool
distinct_drafts [] = true
distinct_drafts (d ∷ ds) = let rest = distinct_drafts ds in not (has_id d.id (draft_ids ds)) && rest

-- Each row is newer than those after it.
abbrev pub all_older : DraftRow → List DraftRow → Bool
all_older d [] = true
all_older d (e ∷ es) = let rest = all_older d es in newer d e && rest

abbrev pub newest_first : List DraftRow → Bool
newest_first [] = true
newest_first (d ∷ ds) = let rest = newest_first ds in all_older d ds && rest

insert_draft-has_id :
    (k : ℕ) (d : DraftRow) (ds : List DraftRow)
    → has_id k (draft_ids (insert_draft d ds)) ≡ has_id k (draft_ids (d ∷ ds))
unfolding insert_draft
insert_draft-has_id k d [] = refl
insert_draft-has_id k d (e ∷ es) = ground (arith, insert_draft-has_id k d es)

sort_drafts-has_id :
    (k : ℕ) (ds : List DraftRow) → has_id k (draft_ids (sort_drafts ds)) ≡ has_id k (draft_ids ds)
unfolding sort_drafts
sort_drafts-has_id k [] = refl
sort_drafts-has_id k (d ∷ ds) =
    let moved = insert_draft-has_id k d (sort_drafts ds) in
    let rest = sort_drafts-has_id k ds in ground (arith, moved, rest)

-- The facts of the order, on instants and identifiers.
abbrev pub after : ℤ → ℕ → ℤ → ℕ → Bool
after x i y j = ltb_ℤ y x || (eqb_ℤ y x && ltb j i)

after_cases :
    (x y : ℤ) (i j : ℕ)
    → after x i y j ≡ true
    → (pos_part y + neg_part x < pos_part x + neg_part y)
      ⊎ ((pos_part y + neg_part x ≡ pos_part x + neg_part y) × (j < i))
after_cases x y i j h = elim (Bool-cases (ltb_ℤ y x)) [
  | inl less ↦ inl (ground arith)
  | inr not_less ↦ inr (ground arith)
]

before_after :
    (x y : ℤ) (i j : ℕ) → pos_part y + neg_part x < pos_part x + neg_part y → after x i y j ≡ true
before_after x y i j h = let less : ltb_ℤ y x ≡ true = ground arith in rw less refl

tied_after :
    (x y : ℤ) (i j : ℕ)
    → pos_part y + neg_part x ≡ pos_part x + neg_part y
    → j < i
    → after x i y j ≡ true
tied_after x y i j h k = ground arith

after_trans :
    (x y z : ℤ) (i j k : ℕ) → after x i y j ≡ true → after y j z k ≡ true → after x i z k ≡ true
after_trans x y z i j k h g = elim (after_cases x y i j h) [
  | inl less ↦ elim (after_cases y z j k g) [
    | inl less' ↦ before_after x z i k (omega (arith, less, less'))
    | inr (tie, low) ↦ before_after x z i k (omega (arith, less, tie))
  ]
  | inr (tie, low) ↦ elim (after_cases y z j k g) [
    | inl less' ↦ before_after x z i k (omega (arith, tie, less'))
    | inr (tie', low') ↦ tied_after x z i k (omega (arith, tie, tie')) (omega (arith, low, low'))
  ]
]

after_total : (x y : ℤ) (i j : ℕ) → (i == j) ≡ false → after x i y j ≡ false → after y j x i ≡ true
after_total x y i j h g = ground arith

pub after_not_back : (x y : ℤ) (i j : ℕ) → after x i y j ≡ true → after y j x i ≡ false
after_not_back x y i j h = ground arith

pub both : (a b : Bool) → (a && b) ≡ true → (a ≡ true) × (b ≡ true)
both true true h = (refl, refl)
both true false h = absurd (cc)
both false b h = absurd (cc)

newer_trans : (a b d : DraftRow) → newer a b ≡ true → newer b d ≡ true → newer a d ≡ true
newer_trans a b d h g = after_trans a.saved_at b.saved_at d.saved_at a.id b.id d.id h g

older_still :
    (a b : DraftRow) (ds : List DraftRow)
    → newer a b ≡ true
    → all_older b ds ≡ true
    → all_older a ds ≡ true
older_still a b [] n h = refl
older_still a b (d ∷ ds) n h =
    let (first, others) = both (newer b d) (all_older b ds) h in
    let here = newer_trans a b d n first in
    let rest = older_still a b ds n others in rw (here, rest) refl

insert_draft-older :
    (a d : DraftRow) (ds : List DraftRow)
    → newer a d ≡ true
    → all_older a ds ≡ true
    → all_older a (insert_draft d ds) ≡ true
unfolding insert_draft
insert_draft-older a d [] n h = rw n refl
insert_draft-older a d (e ∷ es) n h =
    let (first, others) = both (newer a e) (all_older a es) h in
    elim (Bool-cases (newer d e)) [
      | inl before ↦ rw (before, n, first, others) refl
      | inr later ↦ let rest = insert_draft-older a d es n others in rw (later, first, rest) refl
    ]

pub other_id :
    (k i : ℕ) (ids : List ℕ)
    → has_id k (i ∷ ids) ≡ false
    → ((k == i) ≡ false) × (has_id k ids ≡ false)
other_id k i ids h = (ground arith, ground arith)

insert_draft-newest_first :
    (d : DraftRow) (ds : List DraftRow)
    → has_id d.id (draft_ids ds) ≡ false
    → newest_first ds ≡ true
    → newest_first (insert_draft d ds) ≡ true
unfolding insert_draft
insert_draft-newest_first d [] fresh h = refl
insert_draft-newest_first d (e ∷ es) fresh h =
    let (older, sorted) = both (all_older e es) (newest_first es) h in
    let (differ, fresh') = other_id d.id e.id (draft_ids es) fresh in
    elim (Bool-cases (newer d e)) [
      | inl before ↦
          let still = older_still d e es before older in
          rw (before, still, older, sorted) (rw before refl)
      | inr later ↦
          let turned : newer e d ≡ true =
            after_total d.saved_at e.saved_at d.id e.id differ later in
          let older' = insert_draft-older e d es turned older in
          let rest = insert_draft-newest_first d es fresh' sorted in rw (later, older', rest) refl
    ]

pub sort_drafts-newest_first :
    (ds : List DraftRow) → distinct_drafts ds ≡ true → newest_first (sort_drafts ds) ≡ true
unfolding sort_drafts
sort_drafts-newest_first [] h = refl
sort_drafts-newest_first (d ∷ ds) h =
    let (fresh, others) = both (not (has_id d.id (draft_ids ds))) (distinct_drafts ds) h in
    let same = sort_drafts-has_id d.id ds in
    let fresh' : has_id d.id (draft_ids ds) ≡ false = ground arith in
    insert_draft-newest_first d (sort_drafts ds) (same ∙ fresh')
      (sort_drafts-newest_first ds others)

insert_draft-distinct_drafts :
    (d : DraftRow) (ds : List DraftRow)
    → has_id d.id (draft_ids ds) ≡ false
    → distinct_drafts ds ≡ true
    → distinct_drafts (insert_draft d ds) ≡ true
unfolding insert_draft
insert_draft-distinct_drafts d [] fresh h = refl
insert_draft-distinct_drafts d (e ∷ es) fresh h =
    let moved = insert_draft-has_id e.id d es in
    ground (arith, moved, insert_draft-distinct_drafts d es)

pub sort_drafts-distinct_drafts :
    (ds : List DraftRow) → distinct_drafts ds ≡ true → distinct_drafts (sort_drafts ds) ≡ true
unfolding sort_drafts
sort_drafts-distinct_drafts [] h = refl
sort_drafts-distinct_drafts (d ∷ ds) h =
    let (fresh, others) = both (not (has_id d.id (draft_ids ds))) (distinct_drafts ds) h in
    let same = sort_drafts-has_id d.id ds in
    let fresh' : has_id d.id (draft_ids ds) ≡ false = ground arith in
    insert_draft-distinct_drafts d (sort_drafts ds) (same ∙ fresh')
      (sort_drafts-distinct_drafts ds others)

insert_draft-any :
    (p : DraftRow → Bool) (d : DraftRow) (ds : List DraftRow)
    → any p (insert_draft d ds) ≡ any p (d ∷ ds)
unfolding insert_draft
insert_draft-any p d [] = refl
insert_draft-any p d (e ∷ es) = ground (arith, insert_draft-any p d es)

pub sort_drafts-any : (p : DraftRow → Bool) (ds : List DraftRow) → any p (sort_drafts ds) ≡ any p ds
unfolding sort_drafts
sort_drafts-any p [] = refl
sort_drafts-any p (d ∷ ds) =
    let moved = insert_draft-any p d (sort_drafts ds) in
    let rest = sort_drafts-any p ds in ground (arith, moved, rest)
