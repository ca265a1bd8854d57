-- ===== src/Wallet/Service/Tips.antt =====
-- What a tip takes.
use web_novel.Common.{ℕ, ◌≡◌, refl, ap, subst, ◌∙◌, false, not, arith}
use web_novel.Common.Int.{ℤ, pos, -ℤ◌, ◌≤ℤ◌, int_laws, part_zero}
use web_novel.Common.Word.{neg64, neg64_exact}
use web_novel.Common.Text.{Text}
use web_novel.Common.Result.{ok, err, >>=-eq-ok, fail_if}
use web_novel.Wallet.Types.{
  Time, Command, Receipt, Outcome, Balance, Plan, LedgerEntry, LedgerKind, tip, tips_disabled,
}
use web_novel.Wallet.Spend.{plan_spend_paid_only}
use web_novel.Wallet.Store.{Db, ensure_balance_row}
use web_novel.Wallet.Apply.Rows.{to_ledger_row, to_domain_ledger}
use web_novel.Wallet.Apply.Checks.{plan_kind, plan_for}
use web_novel.Wallet.Once.Applied.{Applied, replays, applies, apply_locked-Succeeded, apply-eq-ok}
use web_novel.Wallet.Once.Remembered.{replay_of-replayed}
use web_novel.Wallet.Service.{
  Settings, Repository, submit, validate_tip, tip_chapter_command, tip_chapter,
}

-- A tip's command is the reader's tip of that amount, within the limits.
record IsTip (user : ℕ) (coins : ℤ) (cmd : Command) : Type 0 where
  least : pos 1 ≤ℤ coins
  most : coins ≤ℤ pos 1000
  payer : cmd.user_id ≡ user
  amount : cmd.op.amount ≡ coins
  kind : cmd.op.kind ≡ tip

validate_tip_range :
    (coins : ℤ) {t : Unit {0}} → validate_tip coins ≡ ok t → (pos 1 ≤ℤ coins) × (coins ≤ℤ pos 1000)
unfolding validate_tip
validate_tip_range coins h = ground arith

tip_chapter_command-IsTip :
    (s : Settings) (repo : Repository) (user chapter : ℕ) (coins : ℤ) (key : Text) (now : Time)
    {cmd : Command}
    → tip_chapter_command s repo user chapter coins key now ≡ ok cmd
    → IsTip user coins cmd
unfolding tip_chapter_command
tip_chapter_command-IsTip s repo user chapter coins key now {cmd} h =
    let (t, valid, h1) = >>=-eq-ok (validate_tip coins) _ h in
    let (sale, found, h2) = >>=-eq-ok (repo.chapter_for_sale chapter) _ h1 in
    let (t2, enabled, h3) = >>=-eq-ok (fail_if (not sale.tips_enabled) tips_disabled) _ h2 in
    let (least, most) = validate_tip_range coins valid in
    record {
      least = least;
      most = most;
      payer = ground arith;
      amount = ground arith;
      kind = ground arith;
    }

planned_entry :
    (bal : Balance) (coins : ℤ) (now : Time) {plan : Plan}
    → plan_spend_paid_only bal coins now ≡ ok plan
    → (plan.entry.delta ≡ neg64 coins) × (plan.entry.bonus_delta ≡ pos 0)
unfolding plan_spend_paid_only
planned_entry bal coins now h = ground arith

small_neg64 : (coins : ℤ) → pos 1 ≤ℤ coins → coins ≤ℤ pos 1000 → neg64 coins ≡ -ℤ◌ coins
small_neg64 coins least most =
    neg64_exact coins (omega (int_laws, part_zero coins)) (omega (int_laws, part_zero coins))

-- What an applied tip shows on its receipt.
tip_receipt_shown :
    (user : ℕ) (coins : ℤ) (cmd : Command) (db db' : Db) (r : Receipt)
    → IsTip user coins cmd
    → Applied cmd db r db'
    → (r.ledger.delta ≡ -ℤ◌ coins) × (r.ledger.bonus_delta ≡ pos 0) × (r.ledger.user_id ≡ user)
unfolding plan_for plan_kind to_ledger_row to_domain_ledger
tip_receipt_shown user coins cmd db db' r t a =
    let planned : plan_spend_paid_only a.current coins cmd.now ≡ ok a.plan =
      subst (λ (n : ℤ). plan_spend_paid_only a.current n cmd.now ≡ ok a.plan) t.amount
        (subst (λ (k : LedgerKind). plan_kind k a.current cmd ≡ ok a.plan) t.kind a.planned) in
    let (delta, bonus) = planned_entry a.current coins cmd.now planned in
    let shown = rw a.stored.is_row at a.same_entry in
    (
      ap (λ (e : LedgerEntry). e.delta) shown ∙ delta ∙ small_neg64 coins t.least t.most,
      ap (λ (e : LedgerEntry). e.bonus_delta) shown ∙ bonus,
      ap (λ (e : LedgerEntry). e.user_id) shown ∙ t.payer,
    )

-- A tip takes purchased coins only, and exactly what was asked: a tip that is applied, not
-- replayed, is of 1 to 1000 coins, and its ledger row takes that many paid coins and no bonus from
-- the wallet of the reader who tips.
pub tip_chapter_paid :
    (s : Settings) (repo : Repository) (user chapter : ℕ) (coins : ℤ) (key : Text) (now : Time)
    (db db' : Db) (r : Receipt)
    → tip_chapter s repo user chapter coins key now db ≡ (ok r, db')
    → r.replayed ≡ false
    → (pos 1 ≤ℤ coins)
      × (coins ≤ℤ pos 1000)
      × (r.ledger.delta ≡ -ℤ◌ coins)
      × (r.ledger.bonus_delta ≡ pos 0)
      × (r.ledger.user_id ≡ user)
unfolding tip_chapter
tip_chapter_paid s repo user chapter coins key now db db' r h new =
    made (tip_chapter_command s repo user chapter coins key now) refl h
  where
    made :
        (out : Outcome Command)
        → tip_chapter_command s repo user chapter coins key now ≡ out
        → submit out db ≡ (ok r, db')
        → (pos 1 ≤ℤ coins)
          × (coins ≤ℤ pos 1000)
          × (r.ledger.delta ≡ -ℤ◌ coins)
          × (r.ledger.bonus_delta ≡ pos 0)
          × (r.ledger.user_id ≡ user)
    made (err e) built k = absurd (ground arith)
    made (ok cmd) built k =
        let t = tip_chapter_command-IsTip s repo user chapter coins key now built in
        let start = ensure_balance_row cmd.user_id db in
        elim (apply_locked-Succeeded cmd start (apply-eq-ok cmd db k)) [
          | replays e same ↦ absurd (ground (arith, replay_of-replayed cmd start e))
          | applies e a ↦
              let (delta, bonus, payer) = tip_receipt_shown user coins cmd start db' r t a in
              (t.least, t.most, delta, bonus, payer)
        ]
