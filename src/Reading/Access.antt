-- ===== src/Reading/Access.antt =====
-- Who is served the body of a chapter.
use web_novel.Common.{
  ℕ, ◌≡◌, ◌≢◌, refl, sym, ap, ◌∙◌, Bool, Bool-cases, true, false, ◌⊎◌, inl, inr, ◌||◌, arith,
}
use web_novel.Common.Int.{pos, leb_ℤ, ◌≤ℤ◌}
use web_novel.Common.Result.{ok, >>=-eq-ok, ok-injective}
use web_novel.Wallet.Types.{Time}
use web_novel.Wallet.Apply.Checks.{is_published}
use web_novel.Reading.{
  translator, admin, Viewer, has_role, Chapter, ChapterView, LockedReason, not_locked, paywall,
  early_access, decide, is_translator_of, Visibility, visible_hidden, visible_teaser, visible_full,
  see, is_after, ReadingService, find_chapter, ask, look_up_unlocked, look_up_subscribed,
  serve_view, serve_visible, visibility_of, get_chapter,
}

-- A view that is not locked is of the chapter, and nothing stood in its way.
serve_view_open :
    (s : ReadingService) (c : Chapter) (reason : LockedReason) {view : ChapterView}
    → serve_view s c reason ≡ ok view
    → view.locked ≡ false
    → (reason ≡ not_locked) × (view.chapter ≡ c)
unfolding serve_view
serve_view_open s c not_locked {view} h open_view =
    let (ids, found, rest) = >>=-eq-ok (s.repo.neighbour_ids c.novel_id c.chapter_no) _ h in
    let (body, read, made) = >>=-eq-ok (s.repo.body c.id) _ rest in
    (refl, ap (λ (x : ChapterView). x.chapter) (sym (ok-injective made)))
serve_view_open s c paywall {view} h open_view =
    let (ids, found, made) = >>=-eq-ok (s.repo.neighbour_ids c.novel_id c.chapter_no) _ h in
    absurd (ground (arith, ap (λ (x : ChapterView). x.locked) (ok-injective made)))
serve_view_open s c early_access {view} h open_view =
    let (ids, found, made) = >>=-eq-ok (s.repo.neighbour_ids c.novel_id c.chapter_no) _ h in
    absurd (ground (arith, ap (λ (x : ChapterView). x.locked) (ok-injective made)))

-- The claim by which a viewer may read a chapter that costs coins.
abbrev pub HasPaid : ReadingService → Chapter → Viewer → Type 0
HasPaid s c v =
    (c.price_coins ≤ℤ pos 0)
    ⊎ ((v.user_id ≢ 0)
        × ((ask s.entitlements v.user_id c.id ≡ ok true)
            ⊎ ((is_translator_of c v ≡ true) ⊎ (has_role v admin ≡ true))))

decide_open :
    (s : ReadingService) (c : Chapter) (v : Viewer) (unlocked : Bool)
    → look_up_unlocked s c v ≡ ok unlocked
    → decide c.price_coins v unlocked (is_translator_of c v) ≡ false
    → HasPaid s c v
unfolding decide look_up_unlocked
decide_open s c v unlocked looked h = elim (Bool-cases (leb_ℤ c.price_coins (pos 0))) [
  | inl free ↦ inl (ground arith)
  | inr costs ↦
      let user : v.user_id ≢ 0 = λ e. ground arith in
      elim (Bool-cases unlocked) [
        | inl bought ↦ inr (user, inl (ground arith))
        | inr not_bought ↦ elim (Bool-cases (is_translator_of c v)) [
          | inl own ↦ inr (user, inr (inl own))
          | inr other ↦ inr (user, inr (inr (ground arith)))
        ]
      ]
]

-- The claim by which a viewer sees more of a chapter than its listing.
abbrev pub MaySee : ReadingService → Chapter → Viewer → Time → Type 0
MaySee s c v now =
    (is_translator_of c v ≡ true)
    ⊎ ((has_role v admin ≡ true)
        ⊎ ((is_published c.status ≡ true)
            × ((is_after c.public_at_time now ≡ false)
                ⊎ ((v.user_id ≢ 0)
                    × ((ask s.subscriptions v.user_id c.novel_id ≡ ok true)
                        ⊎ (ask s.entitlements v.user_id c.id ≡ ok true))))))

look_up_unlocked-true :
    (s : ReadingService) (c : Chapter) (v : Viewer)
    → look_up_unlocked s c v ≡ ok true
    → (v.user_id ≢ 0) × (ask s.entitlements v.user_id c.id ≡ ok true)
unfolding look_up_unlocked
look_up_unlocked-true s c v h = ground arith

look_up_subscribed-true :
    (s : ReadingService) (c : Chapter) (v : Viewer) (now : Time)
    → look_up_subscribed s c v now ≡ ok true
    → (v.user_id ≢ 0) × (ask s.subscriptions v.user_id c.novel_id ≡ ok true)
unfolding look_up_subscribed
look_up_subscribed-true s c v now h = ground arith

seen_published :
    (s : ReadingService) (c : Chapter) (v : Viewer) (now : Time) (subscribed unlocked : Bool)
    → is_translator_of c v ≡ false
    → has_role v admin ≡ false
    → visibility_of c v subscribed unlocked now ≡ visible_full
    → is_published c.status ≡ true
unfolding visibility_of see
seen_published s c v now subscribed unlocked other reads h = ground arith

visibility_full :
    (s : ReadingService) (c : Chapter) (v : Viewer) (now : Time) (subscribed unlocked : Bool)
    → look_up_unlocked s c v ≡ ok unlocked
    → look_up_subscribed s c v now ≡ ok subscribed
    → visibility_of c v subscribed unlocked now ≡ visible_full
    → MaySee s c v now
unfolding visibility_of see look_up_unlocked look_up_subscribed
visibility_full s c v now subscribed unlocked looked asked h =
    elim (Bool-cases (is_translator_of c v)) [
      | inl own ↦ inl own
      | inr other ↦ elim (Bool-cases (has_role v admin)) [
        | inl administers ↦ inr (inl administers)
        | inr reads ↦
            let published : is_published c.status ≡ true =
              seen_published s c v now subscribed unlocked other reads h in
            elim (Bool-cases (is_after c.public_at_time now)) [
              | inr due ↦ inr (inr (published, inl due))
              | inl early ↦ elim (Bool-cases subscribed) [
                | inl member ↦ inr (
                    inr (
                      published,
                      inr (
                          let (u, m) = look_up_subscribed-true s c v now (asked ∙ ap ok member) in
                          (u, inl m)),
                    ))
                | inr none_such ↦ inr (
                    inr (
                      published,
                      inr (
                          let (u, m) =
                            look_up_unlocked-true s c v (looked ∙ ap ok (ground arith)) in
                          (u, inr m)),
                    ))
              ]
            ]
      ]
    ]

-- Nobody reads what they have no claim to: a chapter that is served unlocked is free, or the viewer
-- is a known user who owns it, translates it or administers; and it is published and public, or the
-- viewer translates it or administers, or it is published and in its early window and the viewer is
-- a known user who is subscribed to the novel or owns the chapter.
pub get_chapter_entitled :
    (s : ReadingService) (id : ℕ) (v : Viewer) (now : Time) {view : ChapterView}
    → get_chapter s id v now ≡ ok view
    → view.locked ≡ false
    → HasPaid s view.chapter v × MaySee s view.chapter v now
unfolding get_chapter serve_visible
get_chapter_entitled s id v now {view} h open_view =
    let (c, found, h1) =
      >>=-eq-ok (find_chapter s.repo id (has_role v translator || has_role v admin)) _ h in
    let (unlocked, looked, h2) = >>=-eq-ok (look_up_unlocked s c v) _ h1 in
    let (subscribed, asked, h3) = >>=-eq-ok (look_up_subscribed s c v now) _ h2 in
    served c unlocked subscribed looked asked (visibility_of c v subscribed unlocked now) refl h3
  where
    served :
        (c : Chapter) (unlocked subscribed : Bool)
        → look_up_unlocked s c v ≡ ok unlocked
        → look_up_subscribed s c v now ≡ ok subscribed
        → (seen : Visibility) → visibility_of c v subscribed unlocked now ≡ seen
        → serve_visible seen s c v unlocked (is_translator_of c v) ≡ ok view
        → HasPaid s view.chapter v × MaySee s view.chapter v now
    served c unlocked subscribed looked asked visible_hidden e k = absurd (cc)
    served c unlocked subscribed looked asked visible_teaser e k =
        absurd (ground (arith, (serve_view_open s c early_access k open_view).0))
    served c unlocked subscribed looked asked visible_full e k =
        let (reason, same) = serve_view_open s c _ k open_view in
        rw same (
          decide_open s c v unlocked looked (ground (arith, reason)),
          visibility_full s c v now subscribed unlocked looked asked e,
        )
