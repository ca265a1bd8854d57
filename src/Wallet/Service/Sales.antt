-- ===== src/Wallet/Service/Sales.antt =====
-- What the unlock of a single chapter takes, and from whom.
use web_novel.Common.{
  ℕ, ◌^◌, ◌<◌, ◌≡◌, sym, ap, subst, ◌∙◌, Bool-cases, true, false, not, ◌⊎◌, inl, inr, arith,
}
use web_novel.Common.Int.{ℤ, pos, ◌+ℤ◌, -ℤ◌, ◌<ℤ◌, ◌≤ℤ◌, leb_ℤ, negsuc, pos_part, neg_part}
use web_novel.Common.Word.{IsInt64}
use web_novel.Common.Text.{Text}
use web_novel.Common.Result.{ok, is_ok, Result-cases, ◌>>=◌, >>=-eq-ok, fail_if}
use web_novel.Wallet.Types.{
  Time, Command, Receipt, Balance, Plan, LedgerEntry, LedgerKind, ChildKind, ChapterSale,
  spend_unlock, child_chapter_unlock, chapter_not_for_sale, early_access_only,
}
use web_novel.Wallet.Spend.{plan_spend, effective_bonus}
use web_novel.Wallet.Spend.Totals.{IsSound, write_off-effective_bonus}
use web_novel.Wallet.Spend.Grants.{plan_spend_granted, plan_spend_bonus_first}
use web_novel.Wallet.Store.{Db, unlocked, ensure_balance_row}
use web_novel.Wallet.Apply.Rows.{to_ledger_row, to_domain_ledger}
use web_novel.Wallet.Apply.Checks.{plan_kind, plan_for}
use web_novel.Wallet.Apply.{apply}
use web_novel.Wallet.Books.{WalletMatches, IsReconciled}
use web_novel.Wallet.Books.Histories.{ensure_balance_row-IsReconciled}
use web_novel.Wallet.Once.Applied.{Applied, replays, applies, apply_locked-Succeeded, apply-eq-ok}
use web_novel.Wallet.Once.Remembered.{replay_of-replayed}
use web_novel.Wallet.Once.Unlocks.{child_pays_for, pays_for, unlock_there, not_unlocked}
use web_novel.Wallet.Service.{
  Settings, Repository, is_public, assert_buyable, unlock_chapter_command, unlock_chapter,
}

-- What the reads say of a sale, and the command that is built from it.
record IsSale (repo : Repository) (user chapter : ℕ) (now : Time) (sale : ChapterSale)
    (cmd : Command) : Type 0 where
  listed : repo.chapter_for_sale chapter ≡ ok sale
  priced : pos 0 <ℤ sale.price_coins
  buyable : (is_public sale now ≡ true) ⊎ (repo.is_subscribed user sale.novel_id ≡ ok true)
  payer : cmd.user_id ≡ user
  amount : cmd.op.amount ≡ sale.price_coins
  kind : cmd.op.kind ≡ spend_unlock
  child : cmd.child.kind ≡ child_chapter_unlock
  target : cmd.child.chapter_id ≡ sale.chapter_id

assert_buyable-eq-ok :
    (repo : Repository) (user : ℕ) (sale : ChapterSale) (now : Time) {t : Unit {0}}
    → assert_buyable repo user sale now ≡ ok t
    → (is_public sale now ≡ true) ⊎ (repo.is_subscribed user sale.novel_id ≡ ok true)
unfolding assert_buyable
assert_buyable-eq-ok repo user sale now {t} h = elim (Bool-cases (is_public sale now)) [
  | inl public ↦ inl public
  | inr early ↦
      let asked : (repo.is_subscribed user sale.novel_id >>= λ subscribed.
      fail_if (not subscribed) early_access_only)
          ≡ ok t =
        ground arith in
      let (subscribed, answer, checked) =
        >>=-eq-ok (repo.is_subscribed user sale.novel_id) _ asked in
      elim (Bool-cases subscribed) [
        | inl granted ↦ inr (answer ∙ ap ok granted)
        | inr refused ↦ absurd (ground arith)
      ]
]

unlock_chapter_command-IsSale :
    (s : Settings) (repo : Repository) (user chapter : ℕ) (key : Text) (now : Time) {cmd : Command}
    → unlock_chapter_command s repo user chapter key now ≡ ok cmd
    → (sale : ChapterSale) × IsSale repo user chapter now sale cmd
unfolding unlock_chapter_command
unlock_chapter_command-IsSale s repo user chapter key now {cmd} h =
    let (sale, listed, h1) = >>=-eq-ok (repo.chapter_for_sale chapter) _ h in
    let (t, priced, h2) =
      >>=-eq-ok (fail_if (leb_ℤ sale.price_coins (pos 0)) chapter_not_for_sale) _ h1 in
    let (t2, buyable, h3) = >>=-eq-ok (assert_buyable repo user sale now) _ h2 in
    (
      sale,
      record {
        listed = listed;
        priced = ground arith;
        buyable = assert_buyable-eq-ok repo user sale now buyable;
        payer = ground arith;
        amount = ground arith;
        kind = ground arith;
        child = ground arith;
        target = ground arith;
      },
    )

covered_word :
    (amount usable paid : ℤ)
    → pos 0 <ℤ amount
    → pos 0 ≤ℤ usable
    → pos_part usable < 2 ^ 31
    → neg_part paid ≡ 0
    → pos_part paid < 2 ^ 31
    → amount ≤ℤ usable +ℤ paid
    → IsInt64 amount
unfolding ◌+ℤ◌
covered_word (pos a) (pos u) (pos p) positive nonneg small whole few covered = ground arith
covered_word (negsuc a) u p positive nonneg small whole few covered = absurd (omega arith)
covered_word (pos a) (negsuc u) p positive nonneg small whole few covered = absurd (omega arith)
covered_word (pos a) (pos u) (negsuc p) positive nonneg small whole few covered =
    absurd (omega arith)

-- A price that is granted is a word.
granted_price-IsInt64 :
    (bal : Balance) (amount : ℤ) (now : Time) {p : Plan}
    → IsSound bal
    → plan_spend bal amount now ≡ ok p
    → IsInt64 amount
granted_price-IsInt64 bal amount now {p} v h =
    let granted : is_ok (plan_spend bal amount now) ≡ true = ground arith in
    let (positive, covered) = (plan_spend_granted bal amount now v).0 granted in
    let (kept, follows, nonneg, small) = write_off-effective_bonus bal now v in
    covered_word amount (effective_bonus bal now) bal.balance positive nonneg small v.paid_nonneg
      v.paid_small covered

-- What an applied unlock took, and what it found and left.
sold :
    (repo : Repository) (user chapter : ℕ) (now : Time) (sale : ChapterSale) (cmd : Command)
    (db db' : Db) (r : Receipt)
    → IsSale repo user chapter now sale cmd
    → IsReconciled db
    → Applied cmd db r db'
    → (r.ledger.user_id ≡ user) × (r.ledger.delta +ℤ r.ledger.bonus_delta ≡ -ℤ◌ sale.price_coins)
unfolding plan_for plan_kind to_ledger_row to_domain_ledger
sold repo user chapter now sale cmd db db' r t b a =
    let sound : IsSound a.current =
      (subst (λ o. WalletMatches cmd.user_id o db.ledger) a.wallet (b.wallets cmd.user_id)).0 in
    let planned : plan_spend a.current sale.price_coins cmd.now ≡ ok a.plan =
      subst (λ (n : ℤ). plan_spend a.current n cmd.now ≡ ok a.plan) t.amount
        (subst (λ (k : LedgerKind). plan_kind k a.current cmd ≡ ok a.plan) t.kind a.planned) in
    let word = granted_price-IsInt64 a.current sale.price_coins cmd.now sound planned in
    let (exact, first, paid, bonus) =
      plan_spend_bonus_first a.current sale.price_coins cmd.now sound word planned in
    let shown = rw a.stored.is_row at a.same_entry in
    (
      ap (λ (e : LedgerEntry). e.user_id) shown ∙ t.payer,
      ap (λ (e : LedgerEntry). e.delta +ℤ e.bonus_delta) shown ∙ exact,
    )

sale-pays_for :
    (repo : Repository) (user chapter : ℕ) (now : Time) (sale : ChapterSale) (cmd : Command)
    → IsSale repo user chapter now sale cmd
    → pays_for sale.chapter_id cmd ≡ true
sale-pays_for repo user chapter now sale cmd t =
    subst (λ (k : ChildKind). child_pays_for sale.chapter_id k cmd.child ≡ true) (sym t.child)
      (rw (t.target) (ground arith))

ensure_balance_row-unlocked :
    (u user chapter : ℕ) (db : Db)
    → unlocked user chapter (ensure_balance_row u db) ≡ unlocked user chapter db
unfolding ensure_balance_row
ensure_balance_row-unlocked u user chapter db = ground arith

-- An unlock charges the reader the price of a chapter that may be bought and is not owned yet: from
-- tables whose books balance, an unlock that succeeds and is not a replay is of a chapter that is
-- listed at a positive price and is public, or whose novel the reader is subscribed to; its ledger
-- row takes exactly that price from the reader, in bonus and paid coins together; and the reader did
-- not have the listed chapter unlocked before, and has it unlocked after.
pub unlock_chapter_paid :
    (s : Settings) (repo : Repository) (user chapter : ℕ) (key : Text) (now : Time) (db db' : Db)
    (r : Receipt)
    → IsReconciled db
    → unlock_chapter s repo user chapter key now db ≡ (ok r, db')
    → r.replayed ≡ false
    → (sale : ChapterSale) × (repo.chapter_for_sale chapter ≡ ok sale)
      × (pos 0 <ℤ sale.price_coins)
      × ((is_public sale now ≡ true) ⊎ (repo.is_subscribed user sale.novel_id ≡ ok true))
      × (r.ledger.user_id ≡ user)
      × (r.ledger.delta +ℤ r.ledger.bonus_delta ≡ -ℤ◌ sale.price_coins)
      × (unlocked user sale.chapter_id db ≡ false)
      × (unlocked user sale.chapter_id db' ≡ true)
unfolding unlock_chapter
unlock_chapter_paid s repo user chapter key now db db' r b h new =
    elim (Result-cases (unlock_chapter_command s repo user chapter key now)) [
      | inr (e, failed) ↦ absurd (ground arith)
      | inl (cmd, built) ↦
          let k : apply cmd db ≡ (ok r, db') = rw (unlock_chapter, built) at h in
          let (sale, t) = unlock_chapter_command-IsSale s repo user chapter key now built in
          let start = ensure_balance_row cmd.user_id db in
          elim (apply_locked-Succeeded cmd start (apply-eq-ok cmd db k)) [
            | replays e same ↦ absurd (ground (arith, replay_of-replayed cmd start e))
            | applies e a ↦
                let (payer, price) =
                  sold repo user chapter now sale cmd start db' r t
                    (ensure_balance_row-IsReconciled cmd.user_id db b) a in
                let pays = sale-pays_for repo user chapter now sale cmd t in
                let after = unlock_there cmd sale.chapter_id start db' pays a in
                let before = not_unlocked cmd sale.chapter_id start db' pays a in
                (
                  sale,
                  t.listed,
                  t.priced,
                  t.buyable,
                  payer,
                  price,
                  sym (ensure_balance_row-unlocked cmd.user_id user sale.chapter_id db)
                      ∙ subst (λ (u : ℕ). unlocked u sale.chapter_id start ≡ false) t.payer before,
                  subst (λ (u : ℕ). unlocked u sale.chapter_id db' ≡ true) t.payer after,
                )
          ]
    ]
