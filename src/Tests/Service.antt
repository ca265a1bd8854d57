-- ===== src/Tests/Service.antt =====
-- An arc of two chapters at 12 and 8 coins, which a reader with 50 coins buys for 17.
use web_novel.Common.{
  ℕ, ◌≡◌, refl, ◌⊎◌, none, some, [], ◌∷◌, ◌^◌, ◌<◌, arith, true, false, ◌==◌, if◌then◌else◌,
}
use web_novel.Common.Int.{ℤ, pos, negsuc, ◌+ℤ◌, ◌-ℤ◌, -ℤ◌, ◌*ℤ◌, ◌<ℤ◌}
use web_novel.Common.Word.{int64, int16, add64, sub64, mul64, neg64, div64, rem64}
use web_novel.Common.Text.{codes}
use web_novel.Common.Result.{ok, err}
use web_novel.Wallet.Types.{
  ChapterSale, ArcSale, ChildItem, Receipt, Balance, plan_entry, spend_unlock, not_found,
}
use web_novel.Wallet.Spend.{new_balance, plan_spend, plan_adjust}
use web_novel.Wallet.Bundle.{
  quote_bundle, quote_of, gross_from, allocate_proportional, sum64, floor_share, scan, give,
  hand_out, net_coins,
}
use web_novel.Wallet.Bundle.Shares.{amount_sum}
use web_novel.Wallet.Store.{
  Db, unlocked, ChapterRow, chapter_published, ensure_balance_row, take_balance, create_ledger_row,
  update_balance, create_unlock, create_earning, create_unlocks, create_earnings, fits_int,
  fits_smallint,
}
use web_novel.Wallet.Apply.Rows.{
  to_ledger_row, to_domain_ledger, find_replay, same_target, replay_by_key,
}
use web_novel.Wallet.Apply.Checks.{check_child_preconditions, plan_for}
use web_novel.Wallet.Apply.Children.{write_child, check_allocated}
use web_novel.Wallet.Apply.{
  write_expiry, settle, write_main, apply_new, replay_of, apply_locked, apply,
}
use web_novel.Wallet.Books.{IsReconciled, run}
use web_novel.Wallet.Books.Histories.{apply-IsReconciled}
use web_novel.Wallet.Service.{
  Settings, Repository, namespaced, is_public, assert_buyable, unlock_chapter_command,
  unlock_chapter,
}
use web_novel.Wallet.Service.Bundles.{
  ArcQuote, has_early_chapters, early_subscribed, wanted, quote_items, quote_arc_bundle,
  unlock_arc_command, unlock_arc,
}
use web_novel.Wallet.Service.Keys.{namespaced-injective}
use web_novel.Wallet.Service.Arcs.{unlock_arc_replays}
use web_novel.Wallet.Service.Quotes.{IsFair, quote_arc_bundle-IsFair}
use web_novel.Wallet.Service.Sales.{unlock_chapter_paid}
use web_novel.Tests.Histories.{platform, granted, grant, platform-IsReconciled}

abbrev pub settings : Settings
settings = record { bonus_ttl = pos 0; fee_percent = pos 30 }

abbrev sale : ℕ → ℤ → ChapterSale
sale chapter price = record {
  chapter_id = chapter;
  novel_id = 3;
  chapter_no = pos 1;
  price_coins = price;
  translator_id = some 9;
  public_at = none;
  tips_enabled = true;
  sell_by_arc = true;
}

abbrev arc : ArcSale
arc = record {
  arc_id = 1;
  novel_id = 3;
  arc_no = pos 1;
  name = [];
  sell_by_arc = true;
  chapters = sale 5 (pos 12) ∷ sale 6 (pos 8) ∷ [];
}

abbrev pub repo : Repository
repo = record {
  chapter_for_sale = λ c. if c == 5 then ok (sale 5 (pos 12)) else err not_found;
  arc_chapters_for_sale = λ a. if a == 1 then ok arc else err not_found;
  is_subscribed = λ u n. ok false;
  get_pack = λ p. err not_found;
}

abbrev row : ℕ → ℤ → ChapterRow
row chapter price = record { id = chapter; price_coins = price; status = chapter_published }

abbrev tables : Db
tables = record granted {
  chapters =
      λ c. if c == 5 then some (row 5 (pos 12)) else if c == 6 then some (row 6 (pos 8)) else none;
}

abbrev item : ℕ → ℤ → ℤ → ℤ → ChildItem
item chapter price coins net = record {
  chapter_id = chapter;
  list_price = price;
  coins = coins;
  writer_id = 9;
  net_coins = net;
}

abbrev arc_quote : ArcQuote
arc_quote = record {
  arc_id = 1;
  novel_id = 3;
  arc_no = pos 1;
  name = [];
  quote = record {
    gross = pos 20;
    discount_percent = pos 15;
    discount = pos 3;
    total = pos 17;
    per_chapter = pos 10 ∷ pos 7 ∷ [];
  };
  chapters = sale 5 (pos 12) ∷ sale 6 (pos 8) ∷ [];
  items = item 5 (pos 12) (pos 10) (pos 7) ∷ item 6 (pos 8) (pos 7) (pos 5) ∷ [];
}

arc_is_quoted : quote_arc_bundle settings repo 7 1 (pos 20) tables ≡ ok arc_quote
unfolding quote_arc_bundle early_subscribed has_early_chapters wanted is_public quote_bundle
    quote_of gross_from allocate_proportional sum64 floor_share scan give hand_out net_coins
    quote_items add64 sub64 mul64 div64 rem64 int64 ◌+ℤ◌ -ℤ◌ ◌-ℤ◌ ◌*ℤ◌ run apply apply_locked
    take_balance ensure_balance_row replay_of apply_new check_child_preconditions plan_for
    plan_adjust write_expiry write_main create_ledger_row fits_int to_ledger_row settle
    update_balance check_allocated write_child
arc_is_quoted = refl

prices_are_small : amount_sum (pos 12 ∷ pos 8 ∷ []) < 2 ^ 31
prices_are_small = omega arith

quote_arc_bundle-IsFair_example : IsFair repo 7 (pos 20) tables arc_quote
quote_arc_bundle-IsFair_example =
    quote_arc_bundle-IsFair settings repo 7 1 (pos 20) tables prices_are_small arc_is_quoted

abbrev arc_receipt : Receipt
arc_receipt = record {
  ledger = record (plan_entry 7 (negsuc 16) (pos 0) spend_unlock (pos 33) (pos 0) (pos 20)) {
    id = 2;
    ref_type = codes "arc_bundle";
    ref_id = some 1;
    idempotency_key = codes "arc_unlock:k";
  };
  expiry_ledger = none;
  balance = new_balance 7 (pos 33) (pos 0) none (pos 20);
  replayed = false;
}

abbrev after : Db
after = (unlock_arc settings repo 7 1 (codes "k") (pos 20) tables).1

arc_is_sold : unlock_arc settings repo 7 1 (codes "k") (pos 20) tables ≡ (ok arc_receipt, after)
unfolding unlock_arc unlock_arc_command namespaced replay_by_key quote_arc_bundle early_subscribed
    has_early_chapters wanted is_public quote_bundle quote_of gross_from allocate_proportional sum64
    floor_share scan give hand_out net_coins quote_items add64 sub64 mul64 div64 rem64 neg64 int64
    int16 ◌+ℤ◌ -ℤ◌ ◌-ℤ◌ ◌*ℤ◌ apply apply_locked ensure_balance_row take_balance replay_of
    find_replay apply_new check_child_preconditions plan_for plan_spend write_expiry write_main
    create_ledger_row settle update_balance write_child check_allocated create_unlock create_earning
    create_unlocks create_earnings to_ledger_row to_domain_ledger same_target fits_int fits_smallint
    plan_adjust
arc_is_sold = refl

-- The same key for arc 2, which does not exist, is answered with the receipt of arc 1.
unlock_arc_replays_example :
    (b : Balance) × (unlock_arc settings repo 7 2 (codes "k") (pos 90) (run (grant ∷ []) after) ≡ (
      ok (record {
        ledger = arc_receipt.ledger;
        expiry_ledger = none;
        balance = b;
        replayed = true;
      }),
      run (grant ∷ []) after,
    ))
unlock_arc_replays_example =
    unlock_arc_replays settings settings repo repo 7 1 2 (codes "k") (pos 20) (pos 90) (grant ∷ [])
      tables after arc_receipt refl arc_is_sold

namespaced-injective_example : (codes "tip" ≡ codes "tip") × (codes "k" ≡ codes "k")
namespaced-injective_example =
    namespaced-injective (codes "tip") (codes "tip") (codes "k") (codes "k") refl refl refl refl

abbrev sale_receipt : Receipt
sale_receipt = record {
  ledger = record (plan_entry 7 (negsuc 11) (pos 0) spend_unlock (pos 38) (pos 0) (pos 20)) {
    id = 2;
    ref_type = codes "chapter_unlock";
    ref_id = some 5;
    idempotency_key = codes "unlock:k";
  };
  expiry_ledger = none;
  balance = new_balance 7 (pos 38) (pos 0) none (pos 20);
  replayed = false;
}

abbrev sold_db : Db
sold_db = (unlock_chapter settings repo 7 5 (codes "k") (pos 20) granted).1

chapter_is_sold :
    unlock_chapter settings repo 7 5 (codes "k") (pos 20) granted ≡ (ok sale_receipt, sold_db)
unfolding unlock_chapter unlock_chapter_command assert_buyable namespaced is_public net_coins add64
    sub64 mul64 div64 rem64 neg64 int64 int16 ◌+ℤ◌ -ℤ◌ ◌-ℤ◌ ◌*ℤ◌ apply apply_locked
    ensure_balance_row take_balance replay_of find_replay apply_new check_child_preconditions
    plan_for plan_spend write_expiry write_main create_ledger_row settle update_balance write_child
    check_allocated create_unlock create_earning to_ledger_row to_domain_ledger same_target fits_int
    fits_smallint plan_adjust
chapter_is_sold = refl

granted-IsReconciled : IsReconciled granted
granted-IsReconciled = apply-IsReconciled grant platform platform-IsReconciled

unlock_chapter_paid_example :
    (listed : ChapterSale) × (repo.chapter_for_sale 5 ≡ ok listed)
    × (pos 0 <ℤ listed.price_coins)
    × ((is_public listed (pos 20) ≡ true) ⊎ (repo.is_subscribed 7 listed.novel_id ≡ ok true))
    × ((sale_receipt.ledger).user_id ≡ 7)
    × (negsuc 11 +ℤ pos 0 ≡ -ℤ◌ listed.price_coins)
    × (unlocked 7 listed.chapter_id granted ≡ false)
    × (unlocked 7 listed.chapter_id sold_db ≡ true)
unlock_chapter_paid_example =
    unlock_chapter_paid settings repo 7 5 (codes "k") (pos 20) granted sold_db sale_receipt
      granted-IsReconciled chapter_is_sold refl
