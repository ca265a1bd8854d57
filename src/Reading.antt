-- ===== src/Reading.antt =====
-- Serving a chapter (domain/reading: reading.go, entitlement.go, visibility.go; GetChapter of
-- service/reading/service.go and repository/reading/repository.go). The tables of another context
-- are reached through the ports: an entitlement and a subscription lookup, each of which may be nil.
pub mod Access
pub mod Answers
use web_novel.Common.{
  ℕ, Bool, true, false, Option, none, some, List, [], ◌∷◌, ◌==◌, if◌then◌else◌, ◌&&◌, ◌||◌, not,
  any,
}
use web_novel.Common.Int.{ℤ, pos, leb_ℤ, ltb_ℤ}
use web_novel.Common.Text.{Text}
use web_novel.Common.Result.{Result, ok, err, ◌>>=◌}
use web_novel.Wallet.Types.{Time}
use web_novel.Wallet.Store.{ChapterStatus}
use web_novel.Wallet.Apply.Checks.{is_published}

pub data Error : Type 0 where
  not_found invalid_progress : Error
  -- A query that fails.
  query_failed : Error

pub data Role : Type 0 where
  reader translator admin other_role : Role

abbrev pub role_index : Role → ℕ
role_index reader = 0
role_index translator = 1
role_index admin = 2
role_index other_role = 3

pub record Viewer : Type 0 where
  pub user_id : ℕ
  pub roles : List Role

abbrev pub is_anonymous : Viewer → Bool
is_anonymous v = v.user_id == 0

abbrev pub has_role : Viewer → Role → Bool
has_role v r = any (λ (x : Role). role_index x == role_index r) v.roles

pub record Chapter : Type 0 where
  pub id : ℕ
  pub novel_id : ℕ
  pub novel_slug : Text
  pub novel_title_th : Text
  pub arc_id : Option ℕ
  pub arc_no : ℤ
  pub arc_name : Text
  pub chapter_no : ℤ
  pub title : Text
  pub price_coins : ℤ
  pub word_count : ℤ
  pub status : ChapterStatus
  pub translator_id : Option ℕ
  pub published_at : Text
  pub published_at_time : Option Time
  pub public_at_time : Option Time
  pub tips_enabled : Bool

pub data LockedReason : Type 0 where
  not_locked paywall early_access : LockedReason

pub record ChapterView : Type 0 where
  pub chapter : Chapter
  pub locked : Bool
  pub locked_reason : LockedReason
  pub body_html : Text
  pub prev_id : Option ℕ
  pub next_id : Option ℕ

-- `Decide`: whether the body is withheld for want of payment.
unfoldable pub decide : ℤ → Viewer → Bool → Bool → Bool
decide price v unlocked is_translator =
    if leb_ℤ price (pos 0)
    then false
    else if is_anonymous v
    then true
    else if unlocked || is_translator || has_role v admin
    then false
    else true

unfoldable pub is_translator_of : Chapter → Viewer → Bool
is_translator_of c v = elim (c.translator_id) [
  | none ↦ false
  | some t ↦ not (is_anonymous v) && t == v.user_id
]

pub data Visibility : Type 0 where
  visible_hidden visible_teaser visible_full : Visibility

pub record Availability : Type 0 where
  pub status : ChapterStatus
  pub published_at : Option Time
  pub public_at : Option Time

pub record AccessClaim : Type 0 where
  pub viewer : Viewer
  pub subscribed : Bool
  pub owns : Bool
  pub is_translator : Bool

-- `t.After(now)` where there is an instant.
abbrev pub is_after : Option Time → Time → Bool
is_after none now = false
is_after (some t) now = ltb_ℤ now t

unfoldable pub see : Availability → AccessClaim → Time → Visibility
see a ac now =
    let privileged = ac.is_translator || has_role ac.viewer admin in
    if not (is_published a.status)
    then (if privileged then visible_full else visible_hidden)
    else if not (is_after a.public_at now)
    then visible_full
    else if privileged || ac.subscribed || ac.owns
    then visible_full
    else visible_teaser

abbrev pub Answer : Type 0 → Type 0
Answer A = Result Error A

-- The query of a chapter with what is joined to it, and the two other queries; each may fail.
pub record Repository : Type 0 where
  pub chapters : ℕ → Answer (Option Chapter)
  pub neighbour_ids : ℕ → ℤ → Answer (Option ℕ × Option ℕ)
  pub body : ℕ → Answer Text

-- The service's fields, but for the clock, which is an argument.
pub record ReadingService : Type 0 where
  pub repo : Repository
  pub entitlements : Option (ℕ → ℕ → Answer Bool)
  pub subscriptions : Option (ℕ → ℕ → Answer Bool)

unfoldable pub find_chapter : Repository → ℕ → Bool → Answer Chapter
find_chapter repo id include_unpublished = repo.chapters id >>= λ found. elim found [
  | none ↦ err not_found
  | some c ↦ if include_unpublished || is_published c.status then ok c else err not_found
]

-- A port that is nil answers no.
abbrev pub ask : Option (ℕ → ℕ → Answer Bool) → ℕ → ℕ → Answer Bool
ask none user id = ok false
ask (some port) user id = port user id

unfoldable pub look_up_unlocked : ReadingService → Chapter → Viewer → Answer Bool
look_up_unlocked s c v =
    if ltb_ℤ (pos 0) c.price_coins && not (is_anonymous v)
    then ask s.entitlements v.user_id c.id
    else ok false

unfoldable pub look_up_subscribed : ReadingService → Chapter → Viewer → Time → Answer Bool
look_up_subscribed s c v now =
    if is_after c.public_at_time now && not (is_anonymous v)
    then ask s.subscriptions v.user_id c.novel_id
    else ok false

abbrev pub view_of : Chapter → Bool → LockedReason → Text → Option ℕ × Option ℕ → ChapterView
view_of c locked reason body ids = record {
  chapter = c;
  locked = locked;
  locked_reason = reason;
  body_html = body;
  prev_id = ids.0;
  next_id = ids.1;
}

-- The view, once it is known whether and why the body is withheld.
unfoldable pub serve_view : ReadingService → Chapter → LockedReason → Answer ChapterView
serve_view s c not_locked = s.repo.neighbour_ids c.novel_id c.chapter_no >>= λ ids.
    s.repo.body c.id >>= λ body. ok (view_of c false not_locked body ids)
serve_view s c reason =
    s.repo.neighbour_ids c.novel_id c.chapter_no >>= λ ids. ok (view_of c true reason [] ids)

unfoldable pub serve_visible :
    Visibility → ReadingService → Chapter → Viewer → Bool → Bool → Answer ChapterView
serve_visible visible_hidden s c v unlocked is_translator = err not_found
serve_visible visible_teaser s c v unlocked is_translator = serve_view s c early_access
serve_visible visible_full s c v unlocked is_translator =
    serve_view s c (if decide c.price_coins v unlocked is_translator then paywall else not_locked)

unfoldable pub visibility_of : Chapter → Viewer → Bool → Bool → Time → Visibility
visibility_of c v subscribed unlocked now =
    see
      (record {
        status = c.status;
        published_at = c.published_at_time;
        public_at = c.public_at_time;
      })
      (record {
        viewer = v;
        subscribed = subscribed;
        owns = unlocked;
        is_translator = is_translator_of c v;
      })
      now

unfoldable pub get_chapter : ReadingService → ℕ → Viewer → Time → Answer ChapterView
get_chapter s id v now = find_chapter s.repo id (has_role v translator || has_role v admin) >>= λ c.
    look_up_unlocked s c v >>= λ unlocked. look_up_subscribed s c v now >>= λ subscribed.
    serve_visible (visibility_of c v subscribed unlocked now) s c v unlocked (is_translator_of c v)
