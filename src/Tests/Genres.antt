-- ===== src/Tests/Genres.antt =====
-- A request with a repeated genre, an identifier of 0, a weight of 0 and a weight that the column's
-- type does not hold.
use web_novel.Common.{◌≡◌, refl, List, [], ◌∷◌, ◌==◌, ◌||◌}
use web_novel.Common.Int.{ℤ, pos, negsuc, leb_ℤ}
use web_novel.Common.Word.{int16}
use web_novel.Identity.Genres.{
  GenrePref, PrefDb, clean_genres, clean, with_weight, drop_user, to_rows, replace_genre_prefs,
  set_genre_prefs, insert_pref, prefs_of, sort_prefs, list_genre_prefs,
}

abbrev pref : ℤ → ℤ → GenrePref
pref id weight = record { genre_id = id; weight = weight }

abbrev prefs : List GenrePref
prefs =
    pref (pos 5) (pos 32_768)
    ∷ pref (pos 3) (pos 0)
    ∷ pref (pos 0) (pos 2)
    ∷ pref (pos 3) (pos 9)
    ∷ pref (pos 4) (pos 2)
    ∷ []

prefs_cleaned :
    clean_genres prefs
    ≡ pref (pos 5) (pos 32_768) ∷ pref (pos 3) (pos 1) ∷ pref (pos 4) (pos 2) ∷ []
unfolding clean with_weight
prefs_cleaned = refl

-- Reader 7 had genre 9, reader 8 has genre 3.
abbrev tables : PrefDb
tables = record {
  users = λ u. u == 7 || u == 8;
  genres = λ g. leb_ℤ g (pos 9);
  rows =
      record { user_id = 7; genre_id = pos 9; weight = pos 1 }
      ∷ record { user_id = 8; genre_id = pos 3; weight = pos 6 }
      ∷ [];
}

abbrev after : PrefDb
after = (set_genre_prefs 7 prefs tables).1

prefs_listed :
    list_genre_prefs 7 after
    ≡ pref (pos 3) (pos 1) ∷ pref (pos 4) (pos 2) ∷ pref (pos 5) (negsuc 32_767) ∷ []
unfolding set_genre_prefs replace_genre_prefs clean with_weight to_rows drop_user int16
    list_genre_prefs prefs_of sort_prefs insert_pref
prefs_listed = refl
