-- ===== src/Tests/Reading.antt =====
-- A chapter of 12 coins that is open to subscribers only, and a draft.
use web_novel.Common.{
  ◌≡◌, ◌≢◌, refl, none, some, [], ◌∷◌, arith, true, false, ◌==◌, if◌then◌else◌, ℕ,
}
use web_novel.Common.Int.{pos}
use web_novel.Common.Text.{codes}
use web_novel.Common.Result.{ok}
use web_novel.Wallet.Store.{ChapterStatus, chapter_draft, chapter_published}
use web_novel.Reading.{
  Viewer, translator, Chapter, ChapterView, Repository, ReadingService, not_locked, view_of,
  get_chapter, find_chapter, look_up_unlocked, look_up_subscribed, visibility_of, see, decide,
  serve_visible, serve_view, is_translator_of,
}
use web_novel.Reading.Access.{HasPaid, MaySee, get_chapter_entitled}
use web_novel.Reading.Answers.{get_chapter_owner, get_chapter_hides_drafts}

abbrev chapter : ℕ → ChapterStatus → Chapter
chapter id status = record {
  id = id;
  novel_id = 3;
  novel_slug = [];
  novel_title_th = [];
  arc_id = none;
  arc_no = pos 0;
  arc_name = [];
  chapter_no = pos 1;
  title = [];
  price_coins = pos 12;
  word_count = pos 900;
  status = status;
  translator_id = some 9;
  published_at = [];
  published_at_time = some (pos 10);
  public_at_time = some (pos 100);
  tips_enabled = true;
}

abbrev repo : Repository
repo = record {
  chapters = λ i.
      if i == 5
      then ok (some (chapter 5 chapter_published))
      else if i == 6
      then ok (some (chapter 6 chapter_draft))
      else ok none;
  neighbour_ids = λ novel no. ok (none, some 6);
  body = λ i. ok (codes "text");
}

-- Reader 7 owns every chapter and subscribes to nothing.
abbrev service : ReadingService
service = record {
  repo = repo;
  entitlements = some (λ user c. ok (user == 7));
  subscriptions = none;
}

abbrev owner : Viewer
owner = record { user_id = 7; roles = [] }

abbrev translators_peer : Viewer
translators_peer = record { user_id = 8; roles = translator ∷ [] }

abbrev served : ChapterView
served = view_of (chapter 5 chapter_published) false not_locked (codes "text") (none, some 6)

owner_is_served : get_chapter service 5 owner (pos 50) ≡ ok served
unfolding get_chapter find_chapter look_up_unlocked look_up_subscribed visibility_of see decide
    serve_visible serve_view is_translator_of
owner_is_served = refl

get_chapter_entitled_example :
    HasPaid service (chapter 5 chapter_published) owner
    × MaySee service (chapter 5 chapter_published) owner (pos 50)
get_chapter_entitled_example = get_chapter_entitled service 5 owner (pos 50) owner_is_served refl

nobody : owner.user_id ≢ 0
nobody e = ground arith

no_subscription : look_up_subscribed service (chapter 5 chapter_published) owner (pos 50) ≡ ok false
unfolding look_up_subscribed
no_subscription = refl

get_chapter_owner_example : get_chapter service 5 owner (pos 50) ≡ ok served
get_chapter_owner_example =
    get_chapter_owner service 5 owner (pos 50) (chapter 5 chapter_published) false (none, some 6)
      (codes "text") refl refl (omega arith) nobody refl no_subscription refl refl

other_translator : is_translator_of (chapter 6 chapter_draft) translators_peer ≡ false
unfolding is_translator_of
other_translator = refl

peer_owns_nothing : look_up_unlocked service (chapter 6 chapter_draft) translators_peer ≡ ok false
unfolding look_up_unlocked
peer_owns_nothing = refl

peer_has_no_subscription :
    look_up_subscribed service (chapter 6 chapter_draft) translators_peer (pos 50) ≡ ok false
unfolding look_up_subscribed
peer_has_no_subscription = refl

get_chapter_hides_drafts_example :
    get_chapter service 6 translators_peer (pos 50)
    ≡ get_chapter service 99 translators_peer (pos 50)
get_chapter_hides_drafts_example =
    get_chapter_hides_drafts service 6 99 translators_peer (pos 50) (chapter 6 chapter_draft) false
      false refl refl refl other_translator refl peer_owns_nothing peer_has_no_subscription
