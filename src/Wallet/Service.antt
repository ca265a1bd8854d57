-- ===== src/Wallet/Service.antt =====
-- The use cases of the coin economy (service/wallet/service.go): what is checked before a command
-- is built, and the command. The reads of the repository that the write path does not change are a
-- record of operations; the clock is an argument.
pub mod Keys
pub mod Bundles
pub mod Arcs
pub mod Quotes
pub mod Sales
pub mod Tips
use web_novel.Common.{
  ℕ, Bool, true, false, Option, none, some, List, [], ◌∷◌, ◌++◌, map, ◌==◌, if◌then◌else◌, ◌&&◌,
  ◌||◌, not, any,
}
use web_novel.Common.Int.{ℤ, pos, leb_ℤ, ltb_ℤ}
use web_novel.Common.Text.{Text, codes, is_empty}
use web_novel.Common.Result.{Result, ok, err, ◌>>=◌, ◌>>◌, fail_if}
use web_novel.Wallet.Types.{
  Time, Duration, not_found, invalid_amount, tips_disabled, cannot_tip_self, chapter_not_for_sale,
  arc_not_for_sale, early_access_only, LedgerKind, topup, spend_unlock, adjust, tip, ChapterSale,
  ArcSale, ChildKind, child_none, child_chapter_unlock, child_purchase_complete, child_arc_bundle,
  child_tip, ChildItem, ChildWrite, Operation, Command, Receipt, Outcome,
}
use web_novel.Wallet.Spend.{not_after}
use web_novel.Wallet.Bundle.{BundleQuote, quote_bundle, net_coins, arc_bundle_discount_percent}
use web_novel.Wallet.Store.{PurchaseRow, Db, unlocked}
use web_novel.Wallet.Apply.Rows.{replay_by_key}
use web_novel.Wallet.Apply.{apply}

pub record Pack : Type 0 where
  pub id : ℕ
  pub coins : ℤ
  pub bonus_coins : ℤ
  pub price_satang : ℤ
  pub currency : Text
  pub is_best_value : Bool
  pub sort_no : ℤ

-- The reads of the repository's port that the use cases below make of other tables.
pub record Repository : Type 0 where
  pub chapter_for_sale : ℕ → Outcome ChapterSale
  pub arc_chapters_for_sale : ℕ → Outcome ArcSale
  pub is_subscribed : ℕ → ℕ → Outcome Bool
  pub get_pack : ℕ → Outcome Pack

-- The fields of the service that are settings.
pub record Settings : Type 0 where
  pub bonus_ttl : Duration
  pub fee_percent : ℤ

abbrev pub colon : ℕ
colon = 58

unfoldable pub namespaced : Text → Text → Text
namespaced op key = if is_empty key then [] else op ++ (colon ∷ key)

unfoldable pub is_public : ChapterSale → Time → Bool
is_public sale now = elim (sale.public_at) [ none ↦ true | some t ↦ not_after t now ]

unfoldable pub validate_tip : ℤ → Outcome (Unit {0})
validate_tip coins = fail_if (ltb_ℤ coins (pos 1) || ltb_ℤ (pos 1000) coins) invalid_amount

-- The translator whom a sale credits: nobody where the reader is the translator.
abbrev pub credited : ℕ → ChapterSale → ℕ
credited user sale = elim (sale.translator_id) [ none ↦ 0 | some t ↦ if t == user then 0 else t ]

abbrev pub credited_coins : ℤ → ℕ → ChapterSale → ℤ → ℤ
credited_coins fee user sale coins = elim (sale.translator_id) [
  | none ↦ pos 0
  | some t ↦ if t == user then pos 0 else net_coins coins fee
]

abbrev pub child_write : ChildKind → ℕ → ℕ → ℕ → ℤ → List ChildItem → ChildWrite
child_write kind chapter purchase writer net items = record {
  kind = kind;
  chapter_id = chapter;
  purchase_id = purchase;
  writer_id = writer;
  net_coins = net;
  items = items;
}

abbrev pub unlock_child : Settings → ℕ → ChapterSale → ℤ → ChildWrite
unlock_child s user sale coins =
    child_write child_chapter_unlock sale.chapter_id 0 (credited user sale)
      (credited_coins s.fee_percent user sale coins) []

-- An operation that spends, whose other fields have their zero values.
abbrev pub spending : LedgerKind → ℤ → Text → ℕ → Operation
spending kind amount ref_type ref = record {
  kind = kind;
  amount = amount;
  coins = pos 0;
  bonus_coins = pos 0;
  bonus_ttl = pos 0;
  delta = pos 0;
  bonus_delta = pos 0;
  ref_type = ref_type;
  ref_id = some ref;
}

abbrev pub command : ℕ → Text → Time → Operation → ChildWrite → Command
command user key now op child = record {
  user_id = user;
  idempotency_key = key;
  now = now;
  op = op;
  child = child;
  actor_user_id = none;
  reason = [];
}

-- A command that is built from reads, or an error before the transaction.
abbrev pub submit : Outcome Command → Db → Outcome Receipt × Db
submit (ok cmd) db = apply cmd db
submit (err e) db = (err e, db)

unfoldable pub assert_buyable : Repository → ℕ → ChapterSale → Time → Outcome (Unit {0})
assert_buyable repo user sale now =
    if is_public sale now
    then ok tt
    else repo.is_subscribed user sale.novel_id >>= λ subscribed.
        fail_if (not subscribed) early_access_only

unfoldable pub unlock_chapter_command :
    Settings → Repository → ℕ → ℕ → Text → Time → Outcome Command
unlock_chapter_command s repo user chapter key now = repo.chapter_for_sale chapter >>= λ sale.
    fail_if (leb_ℤ sale.price_coins (pos 0)) chapter_not_for_sale
    >> (assert_buyable repo user sale now
        >> ok (
            command user (namespaced (codes "unlock") key) now
              (spending spend_unlock sale.price_coins (codes "chapter_unlock") chapter)
              (unlock_child s user sale sale.price_coins)))

unfoldable pub unlock_chapter :
    Settings → Repository → ℕ → ℕ → Text → Time → Db → Outcome Receipt × Db
unlock_chapter s repo user chapter key now =
    submit (unlock_chapter_command s repo user chapter key now)

unfoldable pub tip_chapter_command :
    Settings → Repository → ℕ → ℕ → ℤ → Text → Time → Outcome Command
tip_chapter_command s repo user chapter coins key now =
    validate_tip coins
    >> (repo.chapter_for_sale chapter >>= λ sale.
        fail_if (not sale.tips_enabled) tips_disabled >> elim (sale.translator_id) [
          | none ↦ err not_found
          | some t ↦
              if t == user
              then err cannot_tip_self
              else ok (
                  command user (namespaced (codes "tip") key) now
                    (spending tip coins (codes "chapter_tip") chapter)
                    (child_write child_tip chapter 0 t (net_coins coins s.fee_percent) []))
        ])

unfoldable pub tip_chapter :
    Settings → Repository → ℕ → ℕ → ℤ → Text → Time → Db → Outcome Receipt × Db
tip_chapter s repo user chapter coins key now =
    submit (tip_chapter_command s repo user chapter coins key now)

unfoldable pub adjust_wallet : ℕ → ℤ → ℤ → Text → ℕ → Text → Time → Db → Outcome Receipt × Db
adjust_wallet target delta bonus_delta reason actor key now db =
    apply
      (record {
        user_id = target;
        idempotency_key = namespaced (codes "adjust") key;
        now = now;
        op = record {
          kind = adjust;
          amount = pos 0;
          coins = pos 0;
          bonus_coins = pos 0;
          bonus_ttl = pos 0;
          delta = delta;
          bonus_delta = bonus_delta;
          ref_type = codes "admin_adjust";
          ref_id = none;
        };
        child = child_write child_none 0 0 0 (pos 0) [];
        actor_user_id = some actor;
        reason = reason;
      })
      db

unfoldable pub complete_purchase_command :
    Settings → Repository → ℕ → ℕ → Text → Time → Db → Outcome Command
complete_purchase_command s repo user purchase_id key now db = elim (db.purchases purchase_id) [
  | none ↦ err not_found
  | some p ↦
      if not (p.user_id == user)
      then err not_found
      else repo.get_pack p.pack_id >>= λ pack. ok (
          command user (namespaced (codes "topup") key) now
            (record {
              kind = topup;
              amount = pos 0;
              coins = pack.coins;
              bonus_coins = pack.bonus_coins;
              bonus_ttl = s.bonus_ttl;
              delta = pos 0;
              bonus_delta = pos 0;
              ref_type = codes "purchase";
              ref_id = some p.id;
            })
            (child_write child_purchase_complete 0 p.id 0 (pos 0) []))
]

unfoldable pub complete_purchase :
    Settings → Repository → ℕ → ℕ → Text → Time → Db → Outcome Receipt × Db
complete_purchase s repo user purchase_id key now db =
    submit (complete_purchase_command s repo user purchase_id key now db) db
