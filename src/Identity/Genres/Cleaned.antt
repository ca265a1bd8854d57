-- ===== src/Identity/Genres/Cleaned.antt =====
-- What the cleaning of the list in SetGenrePrefs keeps of it.
use web_novel.Common.{
  ◌≡◌, refl, ap, ◌∙◌, Bool, Bool-cases, true, false, Option, none, some, inl, inr, List, [], ◌∷◌,
  if◌then◌else◌, ◌&&◌, ◌||◌, not, arith,
}
use web_novel.Common.Int.{ℤ, pos, leb_ℤ, eqb_ℤ, eqb_ℤ_iff}
use web_novel.Identity.Genres.{
  GenrePref, seen_genre, with_weight, clean, has_genre, distinct_genres,
}

skipped :
    (p : GenrePref) (id : ℤ) (seen : List ℤ) (k known sign others : Bool)
    → (k ≡ true → (leb_ℤ p.genre_id (pos 0) ≡ sign) × (seen_genre p.genre_id seen ≡ known))
    → (leb_ℤ p.genre_id (pos 0) || seen_genre p.genre_id seen) ≡ true
    → (not sign && not known && others) ≡ (not sign && not known && (if k then true else others))
skipped p id seen false known sign others h skip = refl
skipped p id seen true known sign others h skip =
    let (a, b) = h refl in let gone : (sign || known) ≡ true = rw (← a, ← b) skip in ground arith

kept :
    (p : GenrePref) (id : ℤ) (seen : List ℤ) (k known sign others : Bool)
    → (k ≡ true → (leb_ℤ p.genre_id (pos 0) ≡ sign) × (seen_genre p.genre_id seen ≡ known))
    → (leb_ℤ p.genre_id (pos 0) || seen_genre p.genre_id seen) ≡ false
    → (if k then true else (not sign && not (if k then true else known) && others))
      ≡ (not sign && not known && (if k then true else others))
kept p id seen false known sign others h fresh = refl
kept p id seen true known sign others h fresh =
    let (a, b) = h refl in let stays : (sign || known) ≡ false = rw (← a, ← b) fresh in ground arith

same_genre :
    (a b : ℤ) (seen : List ℤ)
    → eqb_ℤ a b ≡ true
    → (leb_ℤ a (pos 0) ≡ leb_ℤ b (pos 0)) × (seen_genre a seen ≡ seen_genre b seen)
same_genre a b seen e =
    let same = (eqb_ℤ_iff a b).0 e in
    (ap (λ (x : ℤ). leb_ℤ x (pos 0)) same, ap (λ (x : ℤ). seen_genre x seen) same)

kept_genres :
    (seen : List ℤ) (ps : List GenrePref) (id : ℤ)
    → has_genre id (clean seen ps)
      ≡ (not (leb_ℤ id (pos 0)) && not (seen_genre id seen) && has_genre id ps)
unfolding clean with_weight
kept_genres seen [] id = ground arith
kept_genres seen (p ∷ ps) id =
    let same = same_genre p.genre_id id seen in
    elim (Bool-cases (leb_ℤ p.genre_id (pos 0) || seen_genre p.genre_id seen)) [
      | inl skip ↦
          rw (has_genre, clean, skip)
            (kept_genres seen ps id
              ∙ skipped p id seen (eqb_ℤ p.genre_id id) (seen_genre id seen) (leb_ℤ id (pos 0))
                  (has_genre id ps) same skip)
      | inr fresh ↦
          rw (has_genre, clean, fresh)
            (ap (λ (b : Bool). if eqb_ℤ p.genre_id id then true else b)
                (kept_genres (p.genre_id ∷ seen) ps id)
              ∙ kept p id seen (eqb_ℤ p.genre_id id) (seen_genre id seen) (leb_ℤ id (pos 0))
                  (has_genre id ps) same fresh)
    ]

self_key : (id : ℤ) (seen : List ℤ) → seen_genre id (id ∷ seen) ≡ true
self_key id seen = rw ((eqb_ℤ_iff id id).1 refl) refl

seen_gone :
    (id : ℤ) (seen : List ℤ) (ps : List GenrePref) → has_genre id (clean (id ∷ seen) ps) ≡ false
seen_gone id seen ps =
    let known = self_key id seen in kept_genres (id ∷ seen) ps id ∙ rw known (ground arith)

pub cleaned : (seen : List ℤ) (ps : List GenrePref) → distinct_genres (clean seen ps) ≡ true
unfolding clean with_weight
cleaned seen [] = refl
cleaned seen (p ∷ ps) = elim (Bool-cases (leb_ℤ p.genre_id (pos 0) || seen_genre p.genre_id seen)) [
  | inl skip ↦ rw (distinct_genres, clean, skip) (cleaned seen ps)
  | inr fresh ↦
      let rest = cleaned (p.genre_id ∷ seen) ps in
      let gone = seen_gone p.genre_id seen ps in
      rw (distinct_genres, clean, fresh) (rw (gone, rest) refl)
]

-- The first weight of a genre, through a function.
abbrev pub weight_of : (ℤ → ℤ) → ℤ → List GenrePref → Option ℤ
weight_of f id [] = none
weight_of f id (p ∷ ps) =
    let rest = weight_of f id ps in if eqb_ℤ p.genre_id id then some (f p.weight) else rest

abbrev pub at_least_one : ℤ → ℤ
at_least_one w = if leb_ℤ w (pos 0) then pos 1 else w

pub cleaned-weight_of :
    (f : ℤ → ℤ) (seen : List ℤ) (ps : List GenrePref) (id : ℤ)
    → weight_of f id (clean seen ps) ≡ (
        if leb_ℤ id (pos 0) || seen_genre id seen
        then none
        else weight_of (λ w. f (at_least_one w)) id ps)
unfolding clean with_weight
cleaned-weight_of f seen [] id = ground arith
cleaned-weight_of f seen (p ∷ ps) id =
    let same = same_genre p.genre_id id seen in
    elim (Bool-cases (leb_ℤ p.genre_id (pos 0) || seen_genre p.genre_id seen)) [
      | inl skip ↦
          rw (clean, skip)
            (cleaned-weight_of f seen ps id
              ∙ skipped_weight p id seen (eqb_ℤ p.genre_id id) (leb_ℤ id (pos 0))
                  (seen_genre id seen) (some (f (at_least_one p.weight)))
                  (weight_of (λ w. f (at_least_one w)) id ps) same skip)
      | inr fresh ↦
          rw (clean, fresh)
            (ap
                (λ (o : Option ℤ).
                  if eqb_ℤ p.genre_id id then some (f (at_least_one p.weight)) else o)
                (cleaned-weight_of f (p.genre_id ∷ seen) ps id)
              ∙ kept_weight p id seen (eqb_ℤ p.genre_id id) (leb_ℤ id (pos 0)) (seen_genre id seen)
                  (some (f (at_least_one p.weight))) (weight_of (λ w. f (at_least_one w)) id ps)
                  same fresh)
    ]
  where
    skipped_weight :
        (p : GenrePref) (id : ℤ) (seen : List ℤ) (k sign known : Bool) (here others : Option ℤ)
        → (k ≡ true → (leb_ℤ p.genre_id (pos 0) ≡ sign) × (seen_genre p.genre_id seen ≡ known))
        → (leb_ℤ p.genre_id (pos 0) || seen_genre p.genre_id seen) ≡ true
        → (if sign || known then none else others)
          ≡ (if sign || known then none else (if k then here else others))
    skipped_weight p id seen false sign known here others h skip = refl
    skipped_weight p id seen true sign known here others h skip =
        let (a, b) = h refl in
        let gone : (sign || known) ≡ true = rw (← a, ← b) skip in rw (gone) refl

    kept_weight :
        (p : GenrePref) (id : ℤ) (seen : List ℤ) (k sign known : Bool) (here others : Option ℤ)
        → (k ≡ true → (leb_ℤ p.genre_id (pos 0) ≡ sign) × (seen_genre p.genre_id seen ≡ known))
        → (leb_ℤ p.genre_id (pos 0) || seen_genre p.genre_id seen) ≡ false
        → (if k then here else (if sign || (if k then true else known) then none else others))
          ≡ (if sign || known then none else (if k then here else others))
    kept_weight p id seen false sign known here others h fresh = refl
    kept_weight p id seen true sign known here others h fresh =
        let (a, b) = h refl in
        let stays : (sign || known) ≡ false = rw (← a, ← b) fresh in rw (stays) refl
