-- ===== src/Writer/Rules.antt =====
-- The pure rules of publishing (domain/writer/rules.go; wordCount of service/writer/service.go).
use web_novel.Common.{
  ℕ, zero, suc, Bool, true, false, Option, none, some, List, [], ◌∷◌, if◌then◌else◌, ◌&&◌, ◌||◌,
  ltb,
}
use web_novel.Common.Int.{ℤ, pos, ◌+ℤ◌, ◌*ℤ◌, leb_ℤ, ltb_ℤ, eqb_ℤ}
use web_novel.Common.Text.{Text}
use web_novel.Wallet.Types.{Time}
use web_novel.Wallet.Store.{ChapterStatus, chapter_scheduled, chapter_published}
use web_novel.Glossary.{is_space}
use web_novel.Writer.Types.{Arc, DraftRow}

-- `KeepRevisions`
abbrev pub keep_revisions : ℕ
keep_revisions = 20

-- `MaxEarlyAccessHours` and `MaxPricePerChapter`
abbrev pub max_early_access_hours : ℤ
max_early_access_hours = pos 168

abbrev pub max_price_per_chapter : ℤ
max_price_per_chapter = pos 999

unfoldable pub resolve_arc_id : List Arc → ℤ → Option ℕ
resolve_arc_id [] chapter_no = none
resolve_arc_id (arc ∷ arcs) chapter_no =
    let rest = resolve_arc_id arcs chapter_no in
    if leb_ℤ arc.from_chapter_no chapter_no && leb_ℤ chapter_no arc.to_chapter_no
    then some arc.id
    else rest

unfoldable pub publish_decision : Option Time → Time → ChapterStatus × Option Time
publish_decision none now = (chapter_published, some now)
publish_decision (some t) now =
    if ltb_ℤ now t then (chapter_scheduled, none) else (chapter_published, some now)

-- `time.Hour`
abbrev pub hour : ℤ
hour = pos 3_600_000_000_000

unfoldable pub public_at : Time → ℤ → Time
public_at published hours = if leb_ℤ hours (pos 0) then published else published +ℤ (hours *ℤ hour)

-- Newest first, with the identifier breaking ties.
abbrev pub newer : DraftRow → DraftRow → Bool
newer a b = ltb_ℤ b.saved_at a.saved_at || (eqb_ℤ b.saved_at a.saved_at && ltb b.id a.id)

unfoldable pub insert_draft : DraftRow → List DraftRow → List DraftRow
insert_draft d [] = d ∷ []
insert_draft d (e ∷ es) = let rest = insert_draft d es in if newer d e then d ∷ e ∷ es else e ∷ rest

unfoldable pub sort_drafts : List DraftRow → List DraftRow
sort_drafts [] = []
sort_drafts (d ∷ ds) = insert_draft d (sort_drafts ds)

abbrev pub drop_drafts : ℕ → List DraftRow → List DraftRow
drop_drafts zero ds = ds
drop_drafts (suc keep) [] = []
drop_drafts (suc keep) (d ∷ ds) = drop_drafts keep ds

abbrev pub draft_ids : List DraftRow → List ℕ
draft_ids [] = []
draft_ids (d ∷ ds) = d.id ∷ draft_ids ds

-- `PruneRevisions`: what is to be deleted. With no more than `keep` of them there is nothing.
unfoldable pub doomed : ℕ → List DraftRow → List ℕ
doomed keep revs = draft_ids (drop_drafts keep (sort_drafts revs))

-- `len(strings.Fields(source))`: the runs of characters that are not spaces.
unfoldable pub count_fields : Bool → Text → ℕ
count_fields inside [] = 0
count_fields inside (c ∷ t) =
    let after_space = count_fields false t in
    let after_char = count_fields true t in
    if is_space c then after_space else if inside then after_char else suc after_char

abbrev pub word_count : Text → ℤ
word_count source = pos (count_fields false source)
