-- ===== src/Glossary/Bound.antt =====
-- The order of a rendering's report.
use web_novel.Common.{
  ℕ, zero, suc, ◌<◌, ◌≡◌, ◌≢◌, refl, subst, Bool, Bool-cases, true, false, Option-cases, some, inl,
  inr, List, [], ◌∷◌, ◌++◌, ◌==◌, ◌&&◌, not, any, ltb, length, All, arith,
}
use web_novel.Common.Text.{Text, text_eq, text_eq_iff}
use web_novel.Glossary.{
  Term, Rendered, brace_open, brace_close, cut_pair, split_marker, valid_key, find_term, Progress,
  write, marker_text, has_text, note_missing, bind_term, render_marker, render_loop, insert_sorted,
  sort, nothing_yet, rendered, render,
}

abbrev pub IsIncreasing : List ℕ → Type 0
IsIncreasing [] = Unit
IsIncreasing (n ∷ ns) = All (λ m. n < m) ns × IsIncreasing ns

abbrev pub distinct_ids : List ℕ → Bool
distinct_ids [] = true
distinct_ids (n ∷ ns) = let rest = distinct_ids ns in not (any (λ m. m == n) ns) && rest

abbrev pub distinct_texts : List Text → Bool
distinct_texts [] = true
distinct_texts (k ∷ ks) = let rest = distinct_texts ks in not (has_text k ks) && rest

record IsReport (st : Progress) : Type 0 where
  ids : distinct_ids st.bound ≡ true
  keys : distinct_texts st.missing ≡ true

has_text-snoc :
    (k key : Text) (ks : List Text)
    → has_text k ks ≡ false
    → text_eq key k ≡ false
    → has_text k (ks ++ (key ∷ [])) ≡ false
has_text-snoc k key [] h e = rw e refl
has_text-snoc k key (x ∷ ks) h e = ground (arith, has_text-snoc k key ks)

distinct_texts-snoc :
    (ks : List Text) (key : Text)
    → distinct_texts ks ≡ true
    → has_text key ks ≡ false
    → distinct_texts (ks ++ (key ∷ [])) ≡ true
distinct_texts-snoc [] key d h = refl
distinct_texts-snoc (k ∷ ks) key d h =
    let other : text_eq key k ≡ false = ground (arith, text_eq_iff key k, text_eq_iff k key) in
    ground (arith, distinct_texts-snoc ks key, has_text-snoc k key ks)

note_missing-IsReport : (key : Text) (st : Progress) → IsReport st → IsReport (note_missing key st)
unfolding note_missing
note_missing-IsReport key st r = elim (Bool-cases (has_text key st.missing)) [
  | inl there ↦ rw (note_missing, there) r
  | inr new ↦
      rw (note_missing, new)
        (record { ids = r.ids; keys = distinct_texts-snoc st.missing key r.keys new })
]

bind_term-IsReport :
    (term : Term) (key display : Text) (st : Progress)
    → IsReport st
    → IsReport (bind_term term key display st)
unfolding bind_term
bind_term-IsReport term key display st r =
    elim (Bool-cases (any (λ (i : ℕ). i == term.entry_id) st.bound)) [
      | inl there ↦ rw (bind_term, there) (record { ids = r.ids; keys = r.keys })
      | inr new ↦ rw (bind_term, new) (record { ids = rw new r.ids; keys = r.keys })
    ]

render_marker-IsReport :
    (terms : List Term) (marker : Text) (st : Progress)
    → IsReport st
    → IsReport (render_marker terms marker st)
unfolding render_marker
render_marker-IsReport terms marker st r = elim (Bool-cases (valid_key (split_marker marker).0)) [
  | inr broken ↦ rw (render_marker, broken) (record { ids = r.ids; keys = r.keys })
  | inl valid ↦ elim (Option-cases (find_term (split_marker marker).0 terms)) [
    | inl unknown ↦
        rw (render_marker, valid, unknown)
          (note_missing-IsReport (split_marker marker).0 (write (marker_text marker) st)
            (record { ids = r.ids; keys = r.keys }))
    | inr (term, e) ↦
        rw (render_marker, valid, e)
          (bind_term-IsReport term (split_marker marker).0 (split_marker marker).1 st r)
  ]
]

render_loop-IsReport :
    (fuel : ℕ) (terms : List Term) (source : Text) (st out : Progress)
    → render_loop fuel terms source st ≡ some out
    → IsReport st
    → IsReport out
unfolding render_loop
render_loop-IsReport zero terms source st out h r = absurd (cc)
render_loop-IsReport (suc fuel) terms source st out h r =
    let still : (t : Text) → IsReport (write t st) = λ t. record { ids = r.ids; keys = r.keys } in
    elim (Option-cases (cut_pair brace_open source)) [
      | inl nothing ↦
          let h' = rw (render_loop, nothing) at h in
          let same : write source st ≡ out = cc in subst IsReport same (still source)
      | inr ((before, after), e) ↦ elim (Option-cases (cut_pair brace_close after)) [
        | inl open_end ↦
            let h' = rw (render_loop, e, open_end) at h in
            let same : write (brace_open ∷ brace_open ∷ after) (write before st) ≡ out = cc in
            subst IsReport same (record { ids = r.ids; keys = r.keys })
        | inr ((marker, rest), e') ↦
            let h' = rw (render_loop, e, e') at h in
            render_loop-IsReport fuel terms rest (render_marker terms marker (write before st)) out
              h' (render_marker-IsReport terms marker (write before st) (still before))
      ]
    ]

insert_sorted-All {ℓ} :
    (P : ℕ → Type ℓ) (n : ℕ) (ns : List ℕ) → P n → All P ns → All P (insert_sorted n ns)
unfolding insert_sorted
insert_sorted-All P n [] p a = (p, tt)
insert_sorted-All P n (m ∷ ms) p a = elim (Bool-cases (ltb n m)) [
  | inl less ↦ rw (insert_sorted, less) (p, a)
  | inr not_less ↦ rw (insert_sorted, not_less) (a.0, insert_sorted-All P n ms p a.1)
]

sort-All {ℓ} : (P : ℕ → Type ℓ) (ns : List ℕ) → All P ns → All P (sort ns)
unfolding sort
sort-All P [] a = tt
sort-All P (n ∷ ns) a = insert_sorted-All P n (sort ns) a.0 (sort-All P ns a.1)

above_every : (n m : ℕ) (ms : List ℕ) → n < m → All (λ k. m < k) ms → All (λ k. n < k) ms
above_every n m [] h a = tt
above_every n m (k ∷ ms) h a = (omega (arith, a.0), above_every n m ms h a.1)

insert_sorted-IsIncreasing :
    (n : ℕ) (ns : List ℕ)
    → All (λ m. m ≢ n) ns
    → IsIncreasing ns
    → IsIncreasing (insert_sorted n ns)
unfolding insert_sorted
insert_sorted-IsIncreasing n [] d s = (tt, tt)
insert_sorted-IsIncreasing n (m ∷ ms) d s = elim (Bool-cases (ltb n m)) [
  | inl less ↦
      let h : n < m = ground arith in rw (insert_sorted, less) ((h, above_every n m ms h s.0), s)
  | inr not_less ↦
      let h : m < n = ground (arith, d.0) in
      rw (insert_sorted, not_less)
        (insert_sorted-All (λ k. m < k) n ms h s.0, insert_sorted-IsIncreasing n ms d.1 s.1)
]

none_equal : (n : ℕ) (ns : List ℕ) → any (λ m. m == n) ns ≡ false → All (λ m. m ≢ n) ns
none_equal n [] h = tt
none_equal n (m ∷ ns) h = (λ e. ground arith, none_equal n ns (ground arith))

sort-IsIncreasing : (ns : List ℕ) → distinct_ids ns ≡ true → IsIncreasing (sort ns)
unfolding sort
sort-IsIncreasing [] d = tt
sort-IsIncreasing (n ∷ ns) d =
    insert_sorted-IsIncreasing n (sort ns)
      (sort-All (λ m. m ≢ n) ns (none_equal n ns (ground arith)))
      (sort-IsIncreasing ns (ground arith))

-- The entries of a report are in increasing order, and its unknown keys do not repeat.
pub report_in_order :
    (source : Text) (terms : List Term) (r : Rendered)
    → render source terms ≡ some r
    → IsIncreasing r.entry_ids × (distinct_texts r.unknown ≡ true)
unfolding render
report_in_order source terms r h =
    elim (Option-cases (render_loop (suc (length source)) terms source nothing_yet)) [
      | inl nothing ↦ absurd (ground arith)
      | inr (out, e) ↦
          let h' = rw (render, e) at h in
          let same : rendered out ≡ r = cc in
          let report =
            render_loop-IsReport (suc (length source)) terms source nothing_yet out e
              (record { ids = refl; keys = refl }) in
          rw (← same) (sort-IsIncreasing out.bound report.ids, report.keys)
    ]
