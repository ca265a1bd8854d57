-- ===== src/Glossary/Verbatim.antt =====
-- The loop ends, and what it does not bind it leaves as it is.
use mathlib.Core.List.{append_assoc}
use web_novel.Common.{
  ℕ, zero, suc, ◌<◌, ◌≡◌, refl, sym, ap, ◌∙◌, Bool-cases, true, Option-cases, some, inl, inr, List,
  [], ◌∷◌, ◌++◌, ◌==◌, ◌&&◌, any, length, arith,
}
use web_novel.Common.Text.{Text}
use web_novel.Glossary.{
  Term, Rendered, brace_open, brace_close, cut_pair, split_marker, valid_key, find_term, Progress,
  write, marker_text, note_missing, bind_term, render_marker, render_loop, insert_sorted, sort,
  nothing_yet, rendered, render,
}

-- The pair is where the text was cut.
pub cut_pair-eq-some :
    (c : ℕ) (t before after : Text)
    → cut_pair c t ≡ some (before, after)
    → (t ≡ before ++ (c ∷ c ∷ after)) × (length after < length t)
unfolding cut_pair
cut_pair-eq-some c [] before after h = absurd (cc)
cut_pair-eq-some c (x ∷ []) before after h = absurd (cc)
cut_pair-eq-some c (x ∷ y ∷ t) before after h = elim (Bool-cases (x == c && y == c)) [
  | inl here ↦ ground arith
  | inr further ↦ elim (Option-cases (cut_pair c (y ∷ t))) [
    | inl nothing ↦ absurd (ground arith)
    | inr ((b, a), e) ↦
        let (whole, less) = cut_pair-eq-some c (y ∷ t) b a e in
        let same_b : x ∷ b ≡ before = ground arith in
        let same_a : a ≡ after = ground arith in
        (rw (← same_b, ← same_a, whole) refl, ground (arith, less))
  ]
]

render_loop-total :
    (fuel : ℕ) (terms : List Term) (source : Text) (st : Progress)
    → length source < fuel
    → (out : Progress) × (render_loop fuel terms source st ≡ some out)
unfolding render_loop
render_loop-total zero terms source st h = absurd (omega arith)
render_loop-total (suc fuel) terms source st h = elim (Option-cases (cut_pair brace_open source)) [
  | inl nothing ↦ (write source st, rw (render_loop, nothing) refl)
  | inr ((before, after), e) ↦ elim (Option-cases (cut_pair brace_close after)) [
    | inl open_end ↦ (
      write (brace_open ∷ brace_open ∷ after) (write before st),
      rw (render_loop, e, open_end) refl,
    )
    | inr ((marker, rest), e') ↦
        let (whole, less) = cut_pair-eq-some brace_open source before after e in
        let (whole', less') = cut_pair-eq-some brace_close after marker rest e' in
        let (out, done) =
          render_loop-total fuel terms rest (render_marker terms marker (write before st))
            (omega (arith, less, less', h)) in
        (out, rw (render_loop, e, e') done)
  ]
]

-- Rendering always ends with a result: the fuel is enough for every source and every glossary.
pub render_total :
    (source : Text) (terms : List Term) → (r : Rendered) × (render source terms ≡ some r)
unfolding render
render_total source terms =
    let (out, done) =
      render_loop-total (suc (length source)) terms source nothing_yet (omega arith) in
    (rendered out, rw (render, done) refl)

cons_not_nil : {n : ℕ} {ns : List ℕ} → n ∷ ns ≡ [] → ⊥
cons_not_nil e = cc

note_missing-kept :
    (key : Text) (st : Progress)
    → ((note_missing key st).written ≡ st.written) × ((note_missing key st).bound ≡ st.bound)
unfolding note_missing
note_missing-kept key st = ground arith

bind_term-bound :
    (term : Term) (key display : Text) (st : Progress)
    → (bind_term term key display st).bound ≡ []
    → ⊥
unfolding bind_term
bind_term-bound term key display st h =
    elim (Bool-cases (any (λ (i : ℕ). i == term.entry_id) st.bound)) [
      | inl there ↦
          let nothing : st.bound ≡ [] = ground arith in
          let gone : any (λ (i : ℕ). i == term.entry_id) [] ≡ true = rw nothing at there in
          absurd (cc)
      | inr new ↦ absurd (ground arith)
    ]

-- A marker that binds nothing is written as it was.
render_marker-verbatim :
    (terms : List Term) (marker : Text) (st : Progress)
    → (render_marker terms marker st).bound ≡ []
    → (st.bound ≡ []) × ((render_marker terms marker st).written ≡ st.written ++ marker_text marker)
unfolding render_marker
render_marker-verbatim terms marker st h = elim (Bool-cases (valid_key (split_marker marker).0)) [
  | inr broken ↦ let h' = rw (render_marker, broken) at h in (h', rw (render_marker, broken) refl)
  | inl valid ↦ elim (Option-cases (find_term (split_marker marker).0 terms)) [
    | inl unknown ↦
        let h' = rw (render_marker, valid, unknown) at h in
        let (same, kept) =
          note_missing-kept (split_marker marker).0 (write (marker_text marker) st) in
        (sym kept ∙ h', rw (render_marker, valid, unknown) same)
    | inr (term, e) ↦
        let h' = rw (render_marker, valid, e) at h in
        absurd (bind_term-bound term (split_marker marker).0 (split_marker marker).1 st h')
  ]
]

regroup :
    (w before marker rest : Text)
    → ((w ++ before) ++ marker_text marker) ++ rest
      ≡ w ++ (before ++ (brace_open ∷ brace_open ∷ (marker ++ (brace_close ∷ brace_close ∷ rest))))
regroup w before marker rest = simp (append_assoc)

render_loop-verbatim :
    (fuel : ℕ) (terms : List Term) (source : Text) (st out : Progress)
    → render_loop fuel terms source st ≡ some out
    → out.bound ≡ []
    → (st.bound ≡ []) × (out.written ≡ st.written ++ source)
unfolding render_loop
render_loop-verbatim zero terms source st out h none_bound = absurd (cc)
render_loop-verbatim (suc fuel) terms source st out h none_bound =
    elim (Option-cases (cut_pair brace_open source)) [
      | inl nothing ↦
          let h' = rw (render_loop, nothing) at h in
          let same : write source st ≡ out = cc in
          (
            ap (λ (x : Progress). x.bound) same ∙ none_bound,
            ap (λ (x : Progress). x.written) (sym same),
          )
      | inr ((before, after), e) ↦
          let (whole, less) = cut_pair-eq-some brace_open source before after e in
          elim (Option-cases (cut_pair brace_close after)) [
            | inl open_end ↦
                let h' = rw (render_loop, e, open_end) at h in
                let same : write (brace_open ∷ brace_open ∷ after) (write before st) ≡ out = cc in
                (
                  ap (λ (x : Progress). x.bound) same ∙ none_bound,
                  ap (λ (x : Progress). x.written) (sym same)
                      ∙ append_assoc st.written before (brace_open ∷ brace_open ∷ after)
                      ∙ ap (λ t. st.written ++ t) (sym whole),
                )
            | inr ((marker, rest), e') ↦
                let h' = rw (render_loop, e, e') at h in
                let (whole', less') = cut_pair-eq-some brace_close after marker rest e' in
                let (mid_bound, mid) =
                  render_loop-verbatim fuel terms rest
                    (render_marker terms marker (write before st)) out h' none_bound in
                let (st_bound, marked) =
                  render_marker-verbatim terms marker (write before st) mid_bound in
                (
                  st_bound,
                  mid
                      ∙ ap (λ t. t ++ rest) marked
                      ∙ regroup st.written before marker rest
                      ∙ ap (λ t. st.written ++ t)
                          (sym (whole ∙ ap (λ t. before ++ (brace_open ∷ brace_open ∷ t)) whole')),
                )
          ]
    ]

insert_sorted_not_nil : (n : ℕ) (ns : List ℕ) → insert_sorted n ns ≡ [] → ⊥
unfolding insert_sorted
insert_sorted_not_nil n [] e = cc
insert_sorted_not_nil n (m ∷ ms) e = ground arith

sort-nil : (ns : List ℕ) → sort ns ≡ [] → ns ≡ []
unfolding sort
sort-nil [] e = refl
sort-nil (n ∷ ns) e = absurd (insert_sorted_not_nil n (sort ns) e)

-- A rendering that binds no entry gives the source back, character for character: markers that are
-- unknown, malformed or not terminated are left as the writer typed them.
pub render_verbatim :
    (source : Text) (terms : List Term) (r : Rendered)
    → render source terms ≡ some r
    → r.entry_ids ≡ []
    → r.html ≡ source
unfolding render
render_verbatim source terms r h no_entries =
    elim (Option-cases (render_loop (suc (length source)) terms source nothing_yet)) [
      | inl nothing ↦ absurd (ground arith)
      | inr (out, e) ↦
          let h' = rw (render, e) at h in
          let same : rendered out ≡ r = cc in
          let unbound : out.bound ≡ [] =
            sort-nil out.bound (ap (λ (x : Rendered). x.entry_ids) same ∙ no_entries) in
          let (b, w) =
            render_loop-verbatim (suc (length source)) terms source nothing_yet out e unbound in
          ap (λ (x : Rendered). x.html) (sym same) ∙ w
    ]
