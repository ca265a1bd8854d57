-- ===== src/Tests/Glossary.antt =====
-- A glossary of two terms.
use web_novel.Common.{ℕ, any, ◌≡◌, refl, some, List, [], ◌∷◌, true}
use web_novel.Common.Text.{Text, codes, text_eq}
use web_novel.Glossary.{
  Term, Rendered, render, render_loop, render_marker, cut_pair, cut_bar, is_space, trim_left,
  trim_right, split_marker, key_char, valid_key, find_term, escape_char, escape_html, span,
  note_missing, bind_term, insert_sorted, sort, has_text,
}
use web_novel.Glossary.Verbatim.{render_total, render_verbatim}
use web_novel.Glossary.Bound.{IsIncreasing, distinct_texts}
use web_novel.Glossary.Report.{has_id, names_entry, misses_key, all_markers, markers, render_report}

abbrev terms : List Term
terms =
    record { entry_id = 8; key = codes "hero"; title_th = codes "Lin" }
    ∷ record { entry_id = 3; key = codes "sect"; title_th = codes "Sky" }
    ∷ []

abbrev source : Text
source = codes "{{hero}} {{ sect | the <b> }}{{x y}}{{foe}}{{hero|L}}{{foe|F}}{{"

abbrev report : Rendered
report = record {
  html =
      codes
        "<span data-k=\"hero\">Lin</span> <span data-k=\"sect\">the &lt;b&gt;</span>{{x y}}{{foe}}<span data-k=\"hero\">L</span>{{foe|F}}{{";
  entry_ids = 3 ∷ 8 ∷ [];
  unknown = codes "foe" ∷ [];
}

source_rendered : render source terms ≡ some report
unfolding render render_loop render_marker cut_pair cut_bar is_space trim_left trim_right
    split_marker key_char valid_key find_term escape_char escape_html span note_missing bind_term
    insert_sorted sort text_eq
source_rendered = refl

abbrev plain : Text
plain = codes "no {{foe}} & {{ here"

abbrev plain_report : Rendered
plain_report = record { html = plain; entry_ids = []; unknown = codes "foe" ∷ [] }

plain_rendered : render plain terms ≡ some plain_report
unfolding render render_loop render_marker cut_pair cut_bar is_space trim_left trim_right
    split_marker key_char valid_key find_term escape_char escape_html span note_missing bind_term
    insert_sorted sort text_eq
plain_rendered = refl

render_total_example : (r : Rendered) × (render source terms ≡ some r)
render_total_example = render_total source terms

render_verbatim_example : plain_report.html ≡ plain
render_verbatim_example = render_verbatim plain terms plain_report plain_rendered refl

source_markers :
    all_markers source
    ≡ codes "hero"
      ∷ codes " sect | the <b> "
      ∷ codes "x y"
      ∷ codes "foe"
      ∷ codes "hero|L"
      ∷ codes "foe|F"
      ∷ []
unfolding markers cut_pair
source_markers = refl

render_report_example :
    ((id : ℕ) → has_id id (report.entry_ids) ≡ any (names_entry terms id) (all_markers source))
    × ((key : Text)
        → has_text key (report.unknown) ≡ any (misses_key terms key) (all_markers source))
    × IsIncreasing (report.entry_ids)
    × (distinct_texts (report.unknown) ≡ true)
render_report_example = render_report source terms report source_rendered
