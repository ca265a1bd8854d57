-- ===== src/Glossary.antt =====
-- Rendering a chapter's source (glossaryrender/render.go): `{{key}}` and `{{key|display}}` markers
-- become spans. Text is a list of code points; every character that the renderer looks for is ASCII.
pub mod Verbatim
pub mod Bound
pub mod Report
use web_novel.Common.{
  ℕ, zero, suc, Bool, true, false, Option, none, some, List, [], ◌∷◌, ◌++◌, ◌==◌, if◌then◌else◌,
  ◌&&◌, ◌||◌, not, any, ltb, leb, length,
}
use web_novel.Common.Text.{Text, codes, text_eq, is_empty}

pub record Term : Type 0 where
  pub entry_id : ℕ
  pub key : Text
  pub title_th : Text

pub record Rendered : Type 0 where
  pub html : Text
  pub entry_ids : List ℕ
  pub unknown : List Text

abbrev pub brace_open : ℕ
brace_open = 123

abbrev pub brace_close : ℕ
brace_close = 125

abbrev pub bar : ℕ
bar = 124

-- `strings.Index` of two equal characters: what stands before the first pair, and after it.
unfoldable pub cut_pair : ℕ → Text → Option (Text × Text)
cut_pair c [] = none
cut_pair c (x ∷ []) = none
cut_pair c (x ∷ y ∷ t) =
    let further = cut_pair c (y ∷ t) in
    if x == c && y == c
    then some ([], t)
    else elim further [ none ↦ none | some (before, after) ↦ some (x ∷ before, after) ]

-- `strings.Cut` at a bar.
unfoldable pub cut_bar : Text → Text × Text
cut_bar [] = ([], [])
cut_bar (x ∷ t) = let rest = cut_bar t in if x == bar then ([], t) else (x ∷ rest.0, rest.1)

-- `unicode.IsSpace`
unfoldable pub is_space : ℕ → Bool
is_space c =
    (leb 9 c && leb c 13)
    || c == 32
    || c == 133
    || c == 160
    || c == 5760
    || (leb 8192 c && leb c 8202)
    || c == 8232
    || c == 8233
    || c == 8239
    || c == 8287
    || c == 12288

unfoldable pub trim_left : Text → Text
trim_left [] = []
trim_left (c ∷ t) = let rest = trim_left t in if is_space c then rest else c ∷ t

-- Without the spaces at the end: a text of spaces is empty.
unfoldable pub trim_right : Text → Text
trim_right [] = []
trim_right (c ∷ t) = let rest = trim_right t in if is_space c && is_empty rest then [] else c ∷ rest

abbrev pub trim_space : Text → Text
trim_space t = trim_right (trim_left t)

unfoldable pub split_marker : Text → Text × Text
split_marker marker = let parts = cut_bar marker in (trim_space parts.0, trim_space parts.1)

unfoldable pub key_char : ℕ → Bool
key_char c =
    (leb 97 c && leb c 122)
    || (leb 65 c && leb c 90)
    || (leb 48 c && leb c 57)
    || c == 95
    || c == 45

abbrev pub all_key_chars : Text → Bool
all_key_chars [] = true
all_key_chars (c ∷ t) = let rest = all_key_chars t in key_char c && rest

unfoldable pub valid_key : Text → Bool
valid_key key = not (is_empty key) && all_key_chars key

-- `byKey`: of the terms with one key the last.
unfoldable pub find_term : Text → List Term → Option Term
find_term key [] = none
find_term key (t ∷ ts) = elim (find_term key ts) [
  | some later ↦ some later
  | none ↦ if text_eq t.key key then some t else none
]

-- `html.EscapeString`
unfoldable pub escape_char : ℕ → Text
escape_char c =
    if c == 38
    then codes "&amp;"
    else if c == 39
    then codes "&#39;"
    else if c == 60
    then codes "&lt;"
    else if c == 62
    then codes "&gt;"
    else if c == 34
    then codes "&#34;"
    else c ∷ []

unfoldable pub escape_html : Text → Text
escape_html [] = []
escape_html (c ∷ t) = escape_char c ++ escape_html t

unfoldable pub span : Text → Text → Text
span key display =
    codes "<span data-k=\""
    ++ escape_html key
    ++ codes "\">"
    ++ escape_html display
    ++ codes "</span>"

-- The loop's state: what is written, the entries that are bound, the keys that are unknown.
pub record Progress : Type 0 where
  pub written : Text
  pub bound : List ℕ
  pub missing : List Text

abbrev pub write : Text → Progress → Progress
write t st = record st { written = st.written ++ t }

abbrev pub marker_text : Text → Text
marker_text marker = brace_open ∷ brace_open ∷ (marker ++ (brace_close ∷ brace_close ∷ []))

abbrev pub has_text : Text → List Text → Bool
has_text key = any (λ (k : Text). text_eq k key)

unfoldable pub note_missing : Text → Progress → Progress
note_missing key st =
    if has_text key st.missing then st else record st { missing = st.missing ++ (key ∷ []) }

unfoldable pub bind_term : Term → Text → Text → Progress → Progress
bind_term term key display st =
    let next = write (span key (if is_empty display then term.title_th else display)) st in
    if any (λ (i : ℕ). i == term.entry_id) st.bound
    then next
    else record next { bound = term.entry_id ∷ st.bound }

-- One marker.
unfoldable pub render_marker : List Term → Text → Progress → Progress
render_marker terms marker st =
    let parts = split_marker marker in
    if not (valid_key parts.0)
    then write (marker_text marker) st
    else elim (find_term parts.0 terms) [
      | none ↦ note_missing parts.0 (write (marker_text marker) st)
      | some term ↦ bind_term term parts.0 parts.1 st
    ]

-- The loop over the source. `none` means that the fuel is out.
unfoldable pub render_loop : ℕ → List Term → Text → Progress → Option Progress
render_loop zero terms source st = none
render_loop (suc fuel) terms source st = elim (cut_pair brace_open source) [
  | none ↦ some (write source st)
  | some (before, after) ↦ elim (cut_pair brace_close after) [
    | none ↦ some (write (brace_open ∷ brace_open ∷ after) (write before st))
    | some (marker, rest) ↦
        render_loop fuel terms rest (render_marker terms marker (write before st))
  ]
]

-- `slices.Sort` of distinct numbers.
unfoldable pub insert_sorted : ℕ → List ℕ → List ℕ
insert_sorted n [] = n ∷ []
insert_sorted n (m ∷ ms) = let rest = insert_sorted n ms in if ltb n m then n ∷ m ∷ ms else m ∷ rest

unfoldable pub sort : List ℕ → List ℕ
sort [] = []
sort (n ∷ ns) = insert_sorted n (sort ns)

abbrev pub nothing_yet : Progress
nothing_yet = record { written = []; bound = []; missing = [] }

abbrev pub rendered : Progress → Rendered
rendered st = record { html = st.written; entry_ids = sort st.bound; unknown = st.missing }

unfoldable pub render : Text → List Term → Option Rendered
render source terms = elim (render_loop (suc (length source)) terms source nothing_yet) [
  | none ↦ none
  | some st ↦ some (rendered st)
]
