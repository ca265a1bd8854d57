-- ===== src/Identity/Genres/Stored.antt =====
-- What SetGenrePrefs leaves in the table, as ListGenrePrefs reads it.
use web_novel.Common.{List, [], ◌∷◌}
use web_novel.Common.Int.{ℤ}
use web_novel.Common.Word.{int16}
use web_novel.Identity.Genres.{GenrePref}
use web_novel.Identity.Genres.Cleaned.{at_least_one}

-- What a kept weight is in the table.
abbrev pub stored_weight : ℤ → ℤ
stored_weight w = int16 (at_least_one w)

narrowed : List GenrePref → List GenrePref
narrowed [] = []
narrowed (p ∷ ps) = record p { weight = int16 p.weight } ∷ narrowed ps
