-- ===== src/Wallet/Service/Quotes.antt =====
-- What a reader is quoted for an arc.
use web_novel.Common.{
  ℕ, ◌^◌, ◌<◌, ◌≡◌, refl, sym, ap, subst, ◌∙◌, Bool, Bool-cases, true, false, ◌⊎◌, inl, inr, List,
  [], ◌∷◌, map, not, arith, All,
}
use web_novel.Common.Int.{ℤ, pos_part}
use web_novel.Common.Result.{ok, err, >>=-eq-ok, ok-injective, fail_if}
use web_novel.Wallet.Types.{Time, Outcome, ChapterSale, ArcSale, ChildItem, arc_not_for_sale}
use web_novel.Wallet.Store.{Db, unlocked}
use web_novel.Wallet.Apply.Children.{item_coins}
use web_novel.Wallet.Bundle.{BundleQuote, quote_bundle, arc_bundle_discount_percent}
use web_novel.Wallet.Bundle.Shares.{Within, amount_sum}
use web_novel.Wallet.Bundle.Quote.{quote_bundle_exact}
use web_novel.Wallet.Service.{Settings, Repository, is_public}
use web_novel.Wallet.Service.Bundles.{
  ArcQuote, has_early_chapters, early_subscribed, wanted, prices, quote_items, quote_arc_bundle,
}

-- A chapter that the reader does not own, and that is public or open to subscribers like the reader.
abbrev pub MayBuy : ℕ → Bool → Time → Db → ChapterSale → Type 0
MayBuy user subscribed now db c =
    (unlocked user c.chapter_id db ≡ false) × ((is_public c now ≡ true) ⊎ (subscribed ≡ true))

wanted-MayBuy :
    (user : ℕ) (subscribed : Bool) (now : Time) (db : Db) (cs : List ChapterSale)
    → All (MayBuy user subscribed now db) (wanted user subscribed now db cs)
unfolding wanted
wanted-MayBuy user subscribed now db [] = tt
wanted-MayBuy user true now db (c ∷ cs) =
    let rest = wanted-MayBuy user true now db cs in
    elim (Bool-cases (unlocked user c.chapter_id db)) [
      | inl owned ↦ rw owned rest
      | inr free ↦ elim (Bool-cases (is_public c now)) [
        | inl public ↦ rw (free, public) ((free, inl public), rest)
        | inr early ↦ rw (free, early) ((free, inr refl), rest)
      ]
    ]
wanted-MayBuy user false now db (c ∷ cs) =
    let rest = wanted-MayBuy user false now db cs in
    elim (Bool-cases (unlocked user c.chapter_id db)) [
      | inl owned ↦ rw owned rest
      | inr free ↦ elim (Bool-cases (is_public c now)) [
        | inl public ↦ rw (free, public) ((free, inl public), rest)
        | inr early ↦ rw (free, early) rest
      ]
    ]

items_of :
    (fee : ℤ) (user : ℕ) (cs : List ChapterSale) (shares : List ℤ)
    → Within shares (prices cs)
    → (item_coins (quote_items fee user cs shares) ≡ shares)
      × (map (λ (i : ChildItem). i.chapter_id) (quote_items fee user cs shares)
          ≡ map (λ (c : ChapterSale). c.chapter_id) cs)
unfolding quote_items
items_of fee user [] [] w = (refl, refl)
items_of fee user [] (x ∷ xs) w = absurd w
items_of fee user (c ∷ cs) [] w = absurd w
items_of fee user (c ∷ cs) (x ∷ xs) w =
    let (coins, ids) = items_of fee user cs xs w.2 in
    (ap (λ l. x ∷ l) coins, ap (λ l. c.chapter_id ∷ l) ids)

MayBuy-subscribed :
    (user : ℕ) (asked subscribed : Bool) (now : Time) (db : Db) (cs : List ChapterSale)
    → (asked ≡ true → subscribed ≡ true)
    → All (MayBuy user asked now db) cs
    → All (MayBuy user subscribed now db) cs
MayBuy-subscribed user asked subscribed now db [] grants all = tt
MayBuy-subscribed user asked subscribed now db (c ∷ cs) grants all =
    ((all.0.0, weaken all.0.1), MayBuy-subscribed user asked subscribed now db cs grants all.1)
  where
    weaken :
        (is_public c now ≡ true) ⊎ (asked ≡ true) → (is_public c now ≡ true) ⊎ (subscribed ≡ true)
    weaken (inl public) = inl public
    weaken (inr early) = inr (grants early)

-- The answer that the reader is subscribed.
abbrev pub is_granted : Outcome Bool → Bool
is_granted (ok b) = b
is_granted (err e) = false

early_subscribed-is_granted :
    (repo : Repository) (user : ℕ) (arc : ArcSale) (now : Time) (asked : Bool)
    → early_subscribed repo user arc now ≡ ok asked
    → asked ≡ true
    → is_granted (repo.is_subscribed user arc.novel_id) ≡ true
unfolding early_subscribed
early_subscribed-is_granted repo user arc now asked h yes_asked =
    elim (Bool-cases (has_early_chapters arc.chapters now)) [
      | inl early ↦
          let same : repo.is_subscribed user arc.novel_id ≡ ok asked =
            rw (early_subscribed, early) at h in
          rw (same) yes_asked
      | inr none_early ↦ absurd (ground arith)
    ]

-- The quote holds what its reader may be sold, to the coin.
abbrev pub IsFair : Repository → ℕ → Time → Db → ArcQuote → Type 0
IsFair repo user now db q =
    All (MayBuy user (is_granted (repo.is_subscribed user q.novel_id)) now db) q.chapters
    × (map (λ (i : ChildItem). i.chapter_id) q.items
        ≡ map (λ (c : ChapterSale). c.chapter_id) q.chapters)
    × (item_coins q.items ≡ q.quote.per_chapter)
    × (amount_sum (item_coins q.items) ≡ pos_part q.quote.total)

bundle_fair :
    (fee : ℤ) (user : ℕ) (buys : List ChapterSale) (bq : BundleQuote)
    → amount_sum (prices buys) < 2 ^ 31
    → quote_bundle (prices buys) arc_bundle_discount_percent ≡ ok bq
    → (map (λ (i : ChildItem). i.chapter_id) (quote_items fee user buys bq.per_chapter)
        ≡ map (λ (c : ChapterSale). c.chapter_id) buys)
      × (item_coins (quote_items fee user buys bq.per_chapter) ≡ bq.per_chapter)
      × (amount_sum (item_coins (quote_items fee user buys bq.per_chapter)) ≡ pos_part bq.total)
bundle_fair fee user buys bq small quoted =
    let (nonneg, gross, positive, sum, within, r1, r2, r3) =
      quote_bundle_exact (prices buys) arc_bundle_discount_percent {q = bq} small quoted in
    let (coins, ids) = items_of fee user buys bq.per_chapter within in
    (ids, coins, ap amount_sum coins ∙ sum)

-- A quote of an arc is what its reader may be sold, to the coin. Where the list prices add up to
-- less than 2 ^ 31, every chapter of the quote is one that the reader does not own and that is
-- public at the time or, where the reader is subscribed to the novel, in its early window; the
-- items are the chapters in order, at the shares of the quote; and the shares add up to its total.
pub quote_arc_bundle-IsFair :
    (s : Settings) (repo : Repository) (user arc_id : ℕ) (now : Time) (db : Db) {q : ArcQuote}
    → amount_sum (prices q.chapters) < 2 ^ 31
    → quote_arc_bundle s repo user arc_id now db ≡ ok q
    → IsFair repo user now db q
unfolding quote_arc_bundle
quote_arc_bundle-IsFair s repo user arc_id now db {q} small h =
    let (arc, sold, h1) = >>=-eq-ok (repo.arc_chapters_for_sale arc_id) _ h in
    let (t, by_arc, h2) = >>=-eq-ok (fail_if (not arc.sell_by_arc) arc_not_for_sale) _ h1 in
    let (asked, answered, h3') = >>=-eq-ok (early_subscribed repo user arc now) _ h2 in
    let buys = wanted user asked now db arc.chapters in
    let (bq, quoted, h3) =
      >>=-eq-ok (quote_bundle (prices buys) arc_bundle_discount_percent) _ h3' in
    let same = ok-injective h3 in
    let bought : q.chapters ≡ buys = ap (λ (x : ArcQuote). x.chapters) (sym same) in
    let fair =
      bundle_fair s.fee_percent user buys bq
        (subst (λ (l : List ChapterSale). amount_sum (prices l) < 2 ^ 31) bought small) quoted in
    subst (IsFair repo user now db) same (
      MayBuy-subscribed user asked (is_granted (repo.is_subscribed user arc.novel_id)) now db buys
          (early_subscribed-is_granted repo user arc now asked answered)
          (wanted-MayBuy user asked now db arc.chapters),
      fair.0,
      fair.1,
      fair.2,
    )
