-- ===== src/Identity/Genres.antt =====
-- A reader's taste weights: SetGenrePrefs (service/identity/service.go), and ReplaceGenrePrefs and
-- ListGenrePrefs of the table (repository/identity/repository.go).
pub mod Cleaned
pub mod Stored
use web_novel.Common.{
  ℕ, Bool, true, false, List, [], ◌∷◌, ◌++◌, ◌==◌, if◌then◌else◌, ◌&&◌, ◌||◌, not, any,
}
use web_novel.Common.Int.{ℤ, pos, leb_ℤ, ltb_ℤ, eqb_ℤ}
use web_novel.Common.Word.{int16}
use web_novel.Common.Result.{ok, err}
use web_novel.Identity.Types.{Outcome, failed}

pub record GenrePref : Type 0 where
  pub genre_id : ℤ
  pub weight : ℤ

-- The map `seen`, as the list of its keys.
abbrev pub seen_genre : ℤ → List ℤ → Bool
seen_genre id = any (λ (k : ℤ). eqb_ℤ k id)

-- A weight that is not positive becomes 1.
unfoldable pub with_weight : GenrePref → GenrePref
with_weight p = record p { weight = if leb_ℤ p.weight (pos 0) then pos 1 else p.weight }

-- The loop.
unfoldable pub clean : List ℤ → List GenrePref → List GenrePref
clean seen [] = []
clean seen (p ∷ ps) =
    let skip = clean seen ps in
    let rest = clean (p.genre_id ∷ seen) ps in
    if leb_ℤ p.genre_id (pos 0) || seen_genre p.genre_id seen then skip else with_weight p ∷ rest

abbrev pub clean_genres : List GenrePref → List GenrePref
clean_genres prefs = clean [] prefs

abbrev pub has_genre : ℤ → List GenrePref → Bool
has_genre id = any (λ (p : GenrePref). eqb_ℤ p.genre_id id)

abbrev pub distinct_genres : List GenrePref → Bool
distinct_genres [] = true
distinct_genres (p ∷ ps) = let rest = distinct_genres ps in not (has_genre p.genre_id ps) && rest

-- A row of `user_genre_prefs`, and the table with the users and the genres that its columns reference.
pub record GenrePrefRow : Type 0 where
  pub user_id : ℕ
  pub genre_id : ℤ
  pub weight : ℤ

pub record PrefDb : Type 0 where
  pub users : ℕ → Bool
  pub genres : ℤ → Bool
  pub rows : List GenrePrefRow

unfoldable pub drop_user : ℕ → List GenrePrefRow → List GenrePrefRow
drop_user user [] = []
drop_user user (row ∷ rows) =
    let rest = drop_user user rows in if row.user_id == user then rest else row ∷ rest

-- The weight is narrowed to the column's type.
unfoldable pub to_rows : ℕ → List GenrePref → List GenrePrefRow
to_rows user [] = []
to_rows user (p ∷ ps) =
    record { user_id = user; genre_id = p.genre_id; weight = int16 p.weight } ∷ to_rows user ps

abbrev pub all_known : (ℤ → Bool) → List GenrePref → Bool
all_known genres [] = true
all_known genres (p ∷ ps) = let rest = all_known genres ps in genres p.genre_id && rest

-- `ReplaceGenrePrefs`: the foreign keys and the primary key of the insert roll back the deletion.
unfoldable pub replace_genre_prefs : ℕ → List GenrePref → PrefDb → Outcome (Unit {0}) × PrefDb
replace_genre_prefs user [] db = (ok tt, record db { rows = drop_user user db.rows })
replace_genre_prefs user (p ∷ ps) db =
    if db.users user && all_known db.genres (p ∷ ps) && distinct_genres (p ∷ ps)
    then (ok tt, record db { rows = to_rows user (p ∷ ps) ++ drop_user user db.rows })
    else (err failed, db)

-- `SetGenrePrefs`
unfoldable pub set_genre_prefs : ℕ → List GenrePref → PrefDb → Outcome (Unit {0}) × PrefDb
set_genre_prefs user prefs db = replace_genre_prefs user (clean_genres prefs) db

-- ORDER BY genre_id
unfoldable pub insert_pref : GenrePref → List GenrePref → List GenrePref
insert_pref p [] = p ∷ []
insert_pref p (q ∷ qs) =
    let rest = insert_pref p qs in if ltb_ℤ q.genre_id p.genre_id then q ∷ rest else p ∷ q ∷ qs

unfoldable pub prefs_of : ℕ → List GenrePrefRow → List GenrePref
prefs_of user [] = []
prefs_of user (row ∷ rows) =
    let rest = prefs_of user rows in
    if row.user_id == user
    then record { genre_id = row.genre_id; weight = row.weight } ∷ rest
    else rest

unfoldable pub sort_prefs : List GenrePref → List GenrePref
sort_prefs [] = []
sort_prefs (p ∷ ps) = insert_pref p (sort_prefs ps)

unfoldable pub list_genre_prefs : ℕ → PrefDb → List GenrePref
list_genre_prefs user db = sort_prefs (prefs_of user db.rows)
