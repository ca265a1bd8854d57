-- ===== src/Wallet/Books/Histories.antt =====
-- The books balance after every operation of the write path, so after every history of commands.
use web_novel.Common.{
  ℕ, ◌≡◌, refl, sym, ap, subst, ◌∙◌, false, Option, none, some, Option-cases, inl, inr, List, [],
  ◌∷◌, arith,
}
use web_novel.Common.Int.{ℤ, ◌+ℤ◌}
use web_novel.Common.Word.{IsInt32}
use web_novel.Common.Result.{ok, err, >>=-eq-ok, ok-injective}
use web_novel.Wallet.Types.{Time, LedgerEntry, Command, Receipt, Outcome, Balance, Plan}
use web_novel.Wallet.Spend.Totals.{IsSound, Reconciles, written_off}
use web_novel.Wallet.Store.{
  LedgerRow, Db, ensure_balance_row, empty_balance, take_balance, key_taken, create_ledger_row,
}
use web_novel.Wallet.Apply.Rows.{to_ledger_row}
use web_novel.Wallet.Apply.Checks.{check_child_preconditions, plan_for}
use web_novel.Wallet.Apply.{write_expiry, settle, apply_new, replay_of, apply_locked, apply}
use web_novel.Wallet.Books.{WalletMatches, IsReconciled, run}
use web_novel.Wallet.Books.Plans.{plan_for-Reconciles}
use web_novel.Wallet.Books.Writes.{create_ledger_row-Stores, write_main_steps}
use web_novel.Wallet.Books.Totals.{
  Stands, books_at, opening_books, row_deltas, push_row, write_expiry-Stands, settle-IsReconciled,
  dec_eq, set_row_self, set_row_ne,
}
use web_novel.Wallet.Books.Keys.{replay_of-fresh, write_expiry-keeps_keys}

-- A plan whose main row was stored keeps the books.
stored_plan :
    (cmd : Command) (plan : Plan) (current : Balance) (db mid : Db) (main : LedgerRow)
    → IsSound current
    → plan_for current cmd ≡ ok plan
    → create_ledger_row (to_ledger_row cmd plan.entry cmd.idempotency_key) db ≡ ok (main, mid)
    → Reconciles current plan
stored_plan cmd plan current db mid main v planned made =
    let (_, delta, bonus, _, _) = row_deltas cmd plan.entry cmd.idempotency_key in
    let row = to_ledger_row cmd plan.entry cmd.idempotency_key in
    let stores = create_ledger_row-Stores row db made in
    plan_for-Reconciles current cmd plan v planned (subst IsInt32 delta stores.delta_fits)
      (subst IsInt32 bonus stores.bonus_delta_fits)

-- From the tables as the write-off left them, the main row and the settlement balance the books.
main_balances :
    (cmd : Command) (plan : Plan) (o : Option LedgerEntry) (current : Balance) (db mid db' : Db)
    (main : LedgerRow) {r : Receipt}
    → Reconciles current plan
    → Stands cmd.user_id current.balance (current.bonus_balance +ℤ written_off plan.expiry) db
    → db.balances cmd.user_id ≡ some current
    → create_ledger_row (to_ledger_row cmd plan.entry cmd.idempotency_key) db ≡ ok (main, mid)
    → settle cmd plan o main mid ≡ ok (r, db')
    → IsReconciled db'
main_balances cmd plan o current db mid db' main keeps s e made settled =
    let row = to_ledger_row cmd plan.entry cmd.idempotency_key in
    let (user, delta, bonus, paid_after, bonus_after) =
      row_deltas cmd plan.entry cmd.idempotency_key in
    let stores = create_ledger_row-Stores row db made in
    let paid : current.balance +ℤ row.delta ≡ plan.result.balance =
      ap (λ (x : ℤ). current.balance +ℤ x) delta ∙ sym keeps.paid in
    let left : current.bonus_balance +ℤ written_off plan.expiry +ℤ row.bonus_delta
        ≡ plan.result.bonus_balance =
      ap (λ (x : ℤ). current.bonus_balance +ℤ written_off plan.expiry +ℤ x) bonus
      ∙ sym keeps.bonus in
    settle-IsReconciled cmd plan o main current mid
      (books_at cmd.user_id paid left refl (
        push_row cmd.user_id current.balance (current.bonus_balance +ℤ written_off plan.expiry) row
          main db mid s stores user (paid_after ∙ keeps.paid_total ∙ sym paid)
          (bonus_after ∙ keeps.bonus_total ∙ sym left)))
      (ap (λ (t : ℕ → Option Balance). t cmd.user_id) stores.wallets_kept ∙ e) keeps.paid_left
      keeps.bonus_left settled

-- A new operation on a wallet balances the books.
apply_new-IsReconciled :
    (cmd : Command) (current : Balance) (db : Db) {r : Receipt} {db' : Db}
    → IsReconciled db
    → db.balances cmd.user_id ≡ some current
    → replay_of cmd db ≡ ok none
    → apply_new cmd current db ≡ ok (r, db')
    → IsReconciled db'
unfolding apply_new
apply_new-IsReconciled cmd current db {r} {db'} b e new h =
    let (_, checked, h1) = >>=-eq-ok (check_child_preconditions cmd db) _ h in
    let (plan, planned, h2) = >>=-eq-ok (plan_for current cmd) _ h1 in
    let (w, expired, h3) = >>=-eq-ok (write_expiry cmd plan.expiry db) _ h2 in
    let row = to_ledger_row cmd plan.entry cmd.idempotency_key in
    let fresh : key_taken row w.1.ledger ≡ false =
      write_expiry-keeps_keys cmd plan.expiry row db {o = w.0} {db' = w.1} expired
        (replay_of-fresh cmd plan.entry db new) in
    let (main, mid, made, settled) = write_main_steps cmd plan w.0 w.1 fresh h3 in
    let (start, sound) = opening_books cmd.user_id current db b e in
    let keeps = stored_plan cmd plan current w.1 mid main sound planned made in
    let (stands, kept) =
      write_expiry-Stands cmd current plan.expiry db {o = w.0} {db' = w.1} start keeps.first_row
        expired in
    main_balances cmd plan w.0 current w.1 mid db' main keeps stands
      (ap (λ (t : ℕ → Option Balance). t cmd.user_id) kept ∙ e) made settled

empty_balance-IsSound : {u : ℕ} (now : Time) → IsSound (empty_balance u now)
empty_balance-IsSound now = omega arith

pub take_balance-eq-ok :
    (u : ℕ) (db : Db) {b : Balance} → take_balance u db ≡ ok b → db.balances u ≡ some b
unfolding take_balance
take_balance-eq-ok u db h = ground arith

-- An empty wallet row changes no sum.
pub ensure_balance_row-IsReconciled :
    (u : ℕ) (db : Db) → IsReconciled db → IsReconciled (ensure_balance_row u db)
unfolding ensure_balance_row
ensure_balance_row-IsReconciled u db b = elim (Option-cases (db.balances u)) [
  | inr (old, e) ↦ rw (e, ensure_balance_row) b
  | inl e ↦
      let (paid, bonus) = subst (λ o. WalletMatches u o db.ledger) e (b.wallets u) in
      rw (e, ensure_balance_row)
        (record {
          wallets = λ v. elim (dec_eq v u) [
            | inl self ↦
                rw (self, set_row_self u (empty_balance u db.clock) db.balances)
                  (empty_balance-IsSound db.clock, sym paid, sym bonus)
            | inr other ↦
                rw (set_row_ne u v (empty_balance u db.clock) db.balances other) (b.wallets v)
          ];
          running = b.running;
        })
]

apply_locked-IsReconciled :
    (cmd : Command) (db : Db) {r : Receipt} {db' : Db}
    → IsReconciled db
    → apply_locked cmd db ≡ ok (r, db')
    → IsReconciled db'
unfolding apply_locked
apply_locked-IsReconciled cmd db {r} {db'} b h =
    let (current, taken, h') = >>=-eq-ok (take_balance cmd.user_id db) _ h in
    let (replay, looked, h'') = >>=-eq-ok (replay_of cmd db) _ h' in
    next current replay (take_balance-eq-ok cmd.user_id db taken) looked h''
  where
    next :
        (current : Balance) (replay : Option Receipt)
        → db.balances cmd.user_id ≡ some current
        → replay_of cmd db ≡ ok replay
        → (elim replay [ some r0 ↦ ok (r0, db) | none ↦ apply_new cmd current db ]) ≡ ok (r, db')
        → IsReconciled db'
    next current none e new k = apply_new-IsReconciled cmd current db b e new k
    next current (some r0) e old k =
        subst IsReconciled (ap (λ (x : Receipt × Db). x.1) (ok-injective k)) b

-- No command, whatever it asks for and whether it succeeds or not, unbalances the books.
pub apply-IsReconciled : (cmd : Command) (db : Db) → IsReconciled db → IsReconciled (apply cmd db).1
unfolding apply
apply-IsReconciled cmd db b = split (apply_locked cmd (ensure_balance_row cmd.user_id db)) refl
  where
    split :
        (out : Outcome (Receipt × Db))
        → apply_locked cmd (ensure_balance_row cmd.user_id db) ≡ out
        → let after : Outcome Receipt × Db = elim out [
          | ok (r, db') ↦ (ok r, db')
          | err e ↦ (err e, db)
        ] in
          IsReconciled after.1
    split (ok (r, db')) e =
        apply_locked-IsReconciled cmd (ensure_balance_row cmd.user_id db)
          (ensure_balance_row-IsReconciled cmd.user_id db b) e
    split (err x) e = b

-- From tables whose books balance, the books balance after any history of commands: for every user
-- the ledger adds up to a wallet that is not negative, and each row states the totals that it
-- leaves.
pub run-IsReconciled :
    (cmds : List Command) (db : Db) → IsReconciled db → IsReconciled (run cmds db)
unfolding run
run-IsReconciled [] db b = b
run-IsReconciled (cmd ∷ cmds) db b =
    run-IsReconciled cmds (apply cmd db).1 (apply-IsReconciled cmd db b)
