-- ===== src/Wallet/Service/Bundles.antt =====
-- The quote and the purchase of an arc (QuoteArcBundle, UnlockArc of service/wallet/service.go).
use web_novel.Common.{
  ℕ, Bool, false, none, some, List, [], ◌∷◌, map, if◌then◌else◌, ◌&&◌, ◌||◌, not,
}
use web_novel.Common.Int.{ℤ, pos}
use web_novel.Common.Text.{Text, codes}
use web_novel.Common.Result.{ok, err, ◌>>=◌, ◌>>◌, fail_if}
use web_novel.Wallet.Types.{
  Time, arc_not_for_sale, spend_unlock, ChapterSale, ArcSale, child_arc_bundle, ChildItem, Command,
  Receipt, Outcome,
}
use web_novel.Wallet.Bundle.{BundleQuote, quote_bundle, arc_bundle_discount_percent}
use web_novel.Wallet.Store.{Db, unlocked}
use web_novel.Wallet.Apply.Rows.{replay_by_key}
use web_novel.Wallet.Service.{
  Settings, Repository, namespaced, is_public, credited, credited_coins, child_write, spending,
  command, submit,
}

pub record ArcQuote : Type 0 where
  pub arc_id : ℕ
  pub novel_id : ℕ
  pub arc_no : ℤ
  pub name : Text
  pub quote : BundleQuote
  pub chapters : List ChapterSale
  pub items : List ChildItem

unfoldable pub has_early_chapters : List ChapterSale → Time → Bool
has_early_chapters [] now = false
has_early_chapters (c ∷ cs) now =
    let rest = has_early_chapters cs now in not (is_public c now) || rest

-- The chapters that the reader still needs and may buy now.
unfoldable pub wanted : ℕ → Bool → Time → Db → List ChapterSale → List ChapterSale
wanted user subscribed now db [] = []
wanted user subscribed now db (c ∷ cs) =
    let rest = wanted user subscribed now db cs in
    if unlocked user c.chapter_id db
    then rest
    else if not (is_public c now) && not subscribed
    then rest
    else c ∷ rest

abbrev pub prices : List ChapterSale → List ℤ
prices = map (λ (c : ChapterSale). c.price_coins)

-- The items pair the chapters with their shares.
unfoldable pub quote_items : ℤ → ℕ → List ChapterSale → List ℤ → List ChildItem
quote_items fee user (c ∷ cs) (share ∷ rest) =
    record {
      chapter_id = c.chapter_id;
      list_price = c.price_coins;
      coins = share;
      writer_id = credited user c;
      net_coins = credited_coins fee user c share;
    }
    ∷ quote_items fee user cs rest
quote_items fee user [] rest = []
quote_items fee user (c ∷ cs) [] = []

-- A reader's subscription is asked for only where the arc has chapters in their early window.
unfoldable pub early_subscribed : Repository → ℕ → ArcSale → Time → Outcome Bool
early_subscribed repo user arc now =
    if has_early_chapters arc.chapters now then repo.is_subscribed user arc.novel_id else ok false

unfoldable pub quote_arc_bundle : Settings → Repository → ℕ → ℕ → Time → Db → Outcome ArcQuote
quote_arc_bundle s repo user arc_id now db = repo.arc_chapters_for_sale arc_id >>= λ arc.
    fail_if (not arc.sell_by_arc) arc_not_for_sale
    >> (early_subscribed repo user arc now >>= λ subscribed.
        let buys = wanted user subscribed now db arc.chapters in
        quote_bundle (prices buys) arc_bundle_discount_percent >>= λ quote. ok (record {
          arc_id = arc.arc_id;
          novel_id = arc.novel_id;
          arc_no = arc.arc_no;
          name = arc.name;
          quote = quote;
          chapters = buys;
          items = quote_items s.fee_percent user buys quote.per_chapter;
        }))

unfoldable pub unlock_arc_command :
    Settings → Repository → ℕ → ℕ → Text → Time → Db → Outcome Command
unlock_arc_command s repo user arc_id key now db =
    quote_arc_bundle s repo user arc_id now db >>= λ q. ok (
      command user key now (spending spend_unlock (q.quote.total) (codes "arc_bundle") arc_id)
        (child_write child_arc_bundle 0 0 0 (pos 0) q.items))

unfoldable pub unlock_arc : Settings → Repository → ℕ → ℕ → Text → Time → Db → Outcome Receipt × Db
unlock_arc s repo user arc_id client_key now db =
    let key = namespaced (codes "arc_unlock") client_key in
    elim (replay_by_key user key db) [
      | err e ↦ (err e, db)
      | ok (some replay) ↦ (ok replay, db)
      | ok none ↦ submit (unlock_arc_command s repo user arc_id key now db) db
    ]
