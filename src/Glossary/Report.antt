-- ===== src/Glossary/Report.antt =====
-- The report of a rendering against the source's markers: which entries are bound, and which keys
-- are unknown.
use web_novel.Common.{
  ℕ, zero, suc, ◌≡◌, refl, sym, ap, subst, ◌∙◌, Bool, Bool-cases, true, false, Option-cases, none,
  some, is_some, inl, inr, List, [], ◌∷◌, ◌++◌, ◌==◌, if◌then◌else◌, ◌&&◌, ◌||◌, not, any, ltb,
  length, arith,
}
use web_novel.Common.Text.{Text, text_eq, text_eq_iff}
use web_novel.Glossary.{
  Term, Rendered, brace_open, brace_close, cut_pair, split_marker, valid_key, find_term, Progress,
  write, marker_text, has_text, note_missing, bind_term, render_marker, render_loop, insert_sorted,
  sort, nothing_yet, rendered, render,
}
use web_novel.Glossary.Bound.{IsIncreasing, distinct_texts, report_in_order}

-- The markers of a source, in order: what stands between a pair of opening braces and the next
-- pair of closing braces.
unfoldable pub markers : ℕ → Text → List Text
markers zero source = []
markers (suc fuel) source = elim (cut_pair brace_open source) [
  | none ↦ []
  | some (before, after) ↦ elim (cut_pair brace_close after) [
    | none ↦ []
    | some (marker, rest) ↦ marker ∷ markers fuel rest
  ]
]

abbrev pub all_markers : Text → List Text
all_markers source = markers (suc (length source)) source

-- Does a marker name a term of the entry?
unfoldable pub names_entry : List Term → ℕ → Text → Bool
names_entry terms id marker =
    valid_key (split_marker marker).0 && elim (find_term (split_marker marker).0 terms) [
      | none ↦ false
      | some term ↦ term.entry_id == id
    ]

-- Does a marker have this key, one that a writer may use and that no term has?
unfoldable pub misses_key : List Term → Text → Text → Bool
misses_key terms key marker =
    valid_key (split_marker marker).0
    && not (is_some (find_term (split_marker marker).0 terms))
    && text_eq (split_marker marker).0 key

abbrev pub has_id : ℕ → List ℕ → Bool
has_id id = any (λ (i : ℕ). i == id)

known_id :
    (k id : ℕ) (ids : List ℕ) → has_id k ids ≡ true → (k == id || has_id id ids) ≡ has_id id ids
known_id k id ids h = elim (Bool-cases (k == id)) [
  | inr other ↦ rw other refl
  | inl here ↦
      let same : k ≡ id = ground arith in
      let there : has_id id ids ≡ true = subst (λ (n : ℕ). has_id n ids ≡ true) same h in
      rw (there) (ground arith)
]

bind_term-has_id :
    (term : Term) (key display : Text) (st : Progress) (id : ℕ)
    → has_id id (bind_term term key display st).bound ≡ (term.entry_id == id || has_id id st.bound)
unfolding bind_term
bind_term-has_id term key display st id = elim (Bool-cases (has_id term.entry_id st.bound)) [
  | inl there ↦ rw (bind_term, there) (sym (known_id term.entry_id id st.bound there))
  | inr new ↦ rw (bind_term, new) (ground arith)
]

note_missing-bound : (key : Text) (st : Progress) → (note_missing key st).bound ≡ st.bound
unfolding note_missing
note_missing-bound key st = ground arith

has_text-push :
    (key new : Text) (ks : List Text)
    → has_text key (ks ++ (new ∷ [])) ≡ (text_eq new key || has_text key ks)
has_text-push key new [] = ground arith
has_text-push key new (k ∷ ks) = rw (has_text-push key new ks) (ground arith)

known_text :
    (k key : Text) (ks : List Text)
    → has_text k ks ≡ true
    → (text_eq k key || has_text key ks) ≡ has_text key ks
known_text k key ks h = elim (Bool-cases (text_eq k key)) [
  | inr other ↦ rw other refl
  | inl here ↦
      let same : k ≡ key = (text_eq_iff k key).0 here in
      let there : has_text key ks ≡ true = subst (λ (t : Text). has_text t ks ≡ true) same h in
      rw (there) (ground arith)
]

note_missing-has_text :
    (k key : Text) (st : Progress)
    → has_text key (note_missing k st).missing ≡ (text_eq k key || has_text key st.missing)
unfolding note_missing
note_missing-has_text k key st = elim (Bool-cases (has_text k st.missing)) [
  | inl there ↦ rw (note_missing, there) (sym (known_text k key st.missing there))
  | inr new ↦ rw (note_missing, new) (has_text-push key k st.missing)
]

bind_term-missing :
    (term : Term) (key display : Text) (st : Progress)
    → (bind_term term key display st).missing ≡ st.missing
unfolding bind_term
bind_term-missing term key display st = ground arith

-- What one marker adds to the report.
render_marker-has_id :
    (terms : List Term) (marker : Text) (st : Progress) (id : ℕ)
    → has_id id (render_marker terms marker st).bound
      ≡ (names_entry terms id marker || has_id id st.bound)
unfolding render_marker names_entry
render_marker-has_id terms marker st id = elim (Bool-cases (valid_key (split_marker marker).0)) [
  | inr broken ↦ rw (render_marker, names_entry, broken) refl
  | inl valid ↦ elim (Option-cases (find_term (split_marker marker).0 terms)) [
    | inl unknown ↦
        rw (render_marker, names_entry, valid, unknown)
          (ap (has_id id)
            (note_missing-bound (split_marker marker).0 (write (marker_text marker) st)))
    | inr (term, e) ↦
        rw (render_marker, names_entry, valid, e)
          (bind_term-has_id term (split_marker marker).0 (split_marker marker).1 st id)
  ]
]

render_marker-has_text :
    (terms : List Term) (marker : Text) (st : Progress) (key : Text)
    → has_text key (render_marker terms marker st).missing
      ≡ (misses_key terms key marker || has_text key st.missing)
unfolding render_marker misses_key
render_marker-has_text terms marker st key = elim (Bool-cases (valid_key (split_marker marker).0)) [
  | inr broken ↦ rw (render_marker, misses_key, broken) refl
  | inl valid ↦ elim (Option-cases (find_term (split_marker marker).0 terms)) [
    | inl unknown ↦
        rw (render_marker, misses_key, valid, unknown)
          (note_missing-has_text (split_marker marker).0 key (write (marker_text marker) st))
    | inr (term, e) ↦
        rw (render_marker, misses_key, valid, e)
          (ap (has_text key)
            (bind_term-missing term (split_marker marker).0 (split_marker marker).1 st))
  ]
]

or_swap : (a b c : Bool) → (a || (b || c)) ≡ ((if b then true else a) || c)
or_swap a b c = ground arith

-- What the loop adds to the report.
render_loop-report :
    (fuel : ℕ) (terms : List Term) (source : Text) (st out : Progress) (id : ℕ) (key : Text)
    → render_loop fuel terms source st ≡ some out
    → (has_id id out.bound
        ≡ (any (names_entry terms id) (markers fuel source) || has_id id st.bound))
      × (has_text key out.missing
          ≡ (any (misses_key terms key) (markers fuel source) || has_text key st.missing))
unfolding render_loop markers
render_loop-report zero terms source st out id key h = absurd (cc)
render_loop-report (suc fuel) terms source st out id key h =
    elim (Option-cases (cut_pair brace_open source)) [
      | inl nothing ↦
          let h' = rw (render_loop, nothing) at h in
          let same : write source st ≡ out = cc in rw (markers, nothing, ← same) (refl, refl)
      | inr ((before, after), e) ↦ elim (Option-cases (cut_pair brace_close after)) [
        | inl open_end ↦
            let h' = rw (render_loop, e, open_end) at h in
            let same : write (brace_open ∷ brace_open ∷ after) (write before st) ≡ out = cc in
            rw (markers, e, open_end, ← same) (refl, refl)
        | inr ((marker, rest), e') ↦
            let h' = rw (render_loop, e, e') at h in
            let st' = write before st in
            let (ids, keys) =
              render_loop-report fuel terms rest (render_marker terms marker st') out id key h' in
            rw (markers, e, e')
              (
                ids
                    ∙ ap (λ b. any (names_entry terms id) (markers fuel rest) || b)
                        (render_marker-has_id terms marker st' id)
                    ∙ or_swap (any (names_entry terms id) (markers fuel rest))
                        (names_entry terms id marker) (has_id id st.bound),
                keys
                    ∙ ap (λ b. any (misses_key terms key) (markers fuel rest) || b)
                        (render_marker-has_text terms marker st' key)
                    ∙ or_swap (any (misses_key terms key) (markers fuel rest))
                        (misses_key terms key marker) (has_text key st.missing),
              )
      ]
    ]

insert_sorted-has_id :
    (n id : ℕ) (ns : List ℕ) → has_id id (insert_sorted n ns) ≡ has_id id (n ∷ ns)
unfolding insert_sorted
insert_sorted-has_id n id [] = refl
insert_sorted-has_id n id (m ∷ ms) = elim (Bool-cases (ltb n m)) [
  | inl less ↦ rw (insert_sorted, less) refl
  | inr not_less ↦
      let rest = insert_sorted-has_id n id ms in rw (insert_sorted, not_less) (ground arith)
]

sort-has_id : (id : ℕ) (ns : List ℕ) → has_id id (sort ns) ≡ has_id id ns
unfolding sort
sort-has_id id [] = refl
sort-has_id id (n ∷ ns) =
    insert_sorted-has_id n id (sort ns) ∙ ap (λ b. if n == id then true else b) (sort-has_id id ns)

-- The report of a rendering is exact: an entry is reported exactly if some marker of the source
-- names a term of it, and a key is reported as unknown exactly if some marker has it, a writer may
-- use it and no term has it. The entries are in increasing order, and neither list repeats itself.
pub render_report :
    (source : Text) (terms : List Term) (r : Rendered)
    → render source terms ≡ some r
    → ((id : ℕ) → has_id id r.entry_ids ≡ any (names_entry terms id) (all_markers source))
      × ((key : Text) → has_text key r.unknown ≡ any (misses_key terms key) (all_markers source))
      × IsIncreasing r.entry_ids
      × (distinct_texts r.unknown ≡ true)
unfolding render
render_report source terms r h =
    elim (Option-cases (render_loop (suc (length source)) terms source nothing_yet)) [
      | inl nothing ↦ absurd (ground arith)
      | inr (out, e) ↦
          let h' = rw (render, e) at h in
          let same : rendered out ≡ r = cc in
          let report = λ (id : ℕ) (key : Text).
            render_loop-report (suc (length source)) terms source nothing_yet out id key e in
          let (order, distinct) = report_in_order source terms r h in
          (
            λ id.
                ap (λ (x : Rendered). has_id id x.entry_ids) (sym same)
                ∙ sort-has_id id out.bound
                ∙ (report id []).0
                ∙ or_false (any (names_entry terms id) (all_markers source)),
            λ key.
                ap (λ (x : Rendered). has_text key x.unknown) (sym same)
                ∙ (report 0 key).1
                ∙ or_false (any (misses_key terms key) (all_markers source)),
            order,
            distinct,
          )
    ]
  where
    or_false : (b : Bool) → (b || false) ≡ b
    or_false b = ground arith
