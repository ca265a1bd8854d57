-- ===== src/Wallet/Books/Totals.antt =====
-- The running totals inside one transaction: after the write-off row, the main row and the update.
use web_novel.Common.{
  ℕ, ◌≡◌, ◌≢◌, refl, sym, ap, subst, ◌∙◌, Option, none, some, inl, inr, ◌⊎◌, List, [], ◌∷◌, ==_refl,
  arith,
}
use web_novel.Common.Int.{ℤ, pos, ◌+ℤ◌, ◌≤ℤ◌}
use web_novel.Common.Word.{IsInt32}
use web_novel.Common.Result.{ok, >>=-eq-ok, ok-injective}
use web_novel.Wallet.Types.{Balance, LedgerEntry, Plan, Command, Receipt}
use web_novel.Wallet.Spend.Parts.{+ℤ_zero}
use web_novel.Wallet.Spend.Totals.{IsSound, FollowsFrom, written_off}
use web_novel.Wallet.Store.{LedgerRow, Db, set_row, create_ledger_row, updated}
use web_novel.Common.Text.{Text}
use web_novel.Wallet.Apply.Rows.{to_ledger_row}
use web_novel.Wallet.Apply.{write_expiry, settle}
use web_novel.Wallet.Books.{sum_delta, sum_bonus, IsRunning, WalletMatches, IsReconciled}
use web_novel.Wallet.Books.Writes.{
  Stores, create_ledger_row-Stores, write_child-LeavesBooks, update_balance-Updates, settle_steps,
}

-- The wallet's user has `paid` and `bonus` on the ledger, and every other user what the wallet says.
pub record Stands (u : ℕ) (paid bonus : ℤ) (db : Db) : Type 0 where
  pub is_running : IsRunning db.ledger
  pub paid_sum : sum_delta u db.ledger ≡ paid
  pub bonus_sum : sum_bonus u db.ledger ≡ bonus
  pub others : (v : ℕ) → v ≢ u → WalletMatches v (db.balances v) db.ledger

-- A row of another user changes no sum.
others_keep :
    (u v : ℕ) (row : LedgerRow) (rows : List LedgerRow) (b : Option Balance)
    → row.user_id ≡ u
    → v ≢ u
    → WalletMatches v b rows
    → WalletMatches v b (row ∷ rows)
others_keep u v row rows none e n h = ground arith
others_keep u v row rows (some b) e n h = ground arith

-- A row that states the totals it leaves moves the sums of its user by its deltas.
pub push_row :
    (u : ℕ) (paid bonus : ℤ) (row stored : LedgerRow) (db db' : Db)
    → Stands u paid bonus db
    → Stores row db stored db'
    → row.user_id ≡ u
    → row.balance_after ≡ paid +ℤ row.delta
    → row.bonus_balance_after ≡ bonus +ℤ row.bonus_delta
    → Stands u (paid +ℤ row.delta) (bonus +ℤ row.bonus_delta) db'
push_row u paid bonus row stored db db' s w e p b = record {
  is_running =
      rw w.on_top (subst (λ r. IsRunning (r ∷ db.ledger)) (sym w.is_row) (ground (arith, s)));
  paid_sum = rw (w.on_top, w.is_row) (ground (arith, s.paid_sum));
  bonus_sum = rw (w.on_top, w.is_row) (ground (arith, s.bonus_sum));
  others = λ v n.
      rw (w.on_top, w.wallets_kept)
        (others_keep u v stored db.ledger (db.balances v)
          (ap (λ (r : LedgerRow). r.user_id) w.is_row ∙ e) n (s.others v n));
}

pub opening_books :
    (u : ℕ) (current : Balance) (db : Db)
    → IsReconciled db
    → db.balances u ≡ some current
    → Stands u current.balance current.bonus_balance db × IsSound current
opening_books u current db r e =
    let m = subst (λ o. WalletMatches u o db.ledger) e (r.wallets u) in
    (
      record {
        is_running = r.running;
        paid_sum = sym m.1;
        bonus_sum = sym m.2;
        others = λ v n. r.wallets v;
      },
      m.0,
    )

pub books_at :
    (u : ℕ) {p p' b b' : ℤ} {db db' : Db}
    → p ≡ p'
    → b ≡ b'
    → db ≡ db'
    → Stands u p b db
    → Stands u p' b' db'
books_at u e f g s = rw (← e, ← f, ← g) s

pub row_deltas :
    (cmd : Command) (e : LedgerEntry) (key : Text)
    → let row = to_ledger_row cmd e key in
      (row.user_id ≡ cmd.user_id)
      × (row.delta ≡ e.delta)
      × (row.bonus_delta ≡ e.bonus_delta)
      × (row.balance_after ≡ e.balance_after)
      × (row.bonus_balance_after ≡ e.bonus_balance_after)
unfolding to_ledger_row
row_deltas cmd e key = (refl, refl, refl, refl, refl)

-- The write-off row, if there is one, takes the bonus down and leaves the paid coins.
pub write_expiry-Stands :
    (cmd : Command) (bal : Balance) (e : Option LedgerEntry) (db : Db) {o : Option LedgerEntry}
    {db' : Db}
    → Stands cmd.user_id bal.balance bal.bonus_balance db
    → FollowsFrom bal e
    → write_expiry cmd e db ≡ ok (o, db')
    → Stands cmd.user_id bal.balance (bal.bonus_balance +ℤ written_off e) db'
      × (db'.balances ≡ db.balances)
unfolding write_expiry
write_expiry-Stands cmd bal none db {o} {db'} s f h =
    let same : db ≡ db' = ap (λ (w : Option LedgerEntry × Db). w.1) (ok-injective h) in
    rw (+ℤ_zero bal.bonus_balance) (rw (← same) (s, refl))
write_expiry-Stands cmd bal (some e) db {o} {db'} s f h =
    let row = to_ledger_row cmd e [] in
    let (w, made, rest) = >>=-eq-ok (create_ledger_row row db) _ h in
    let (user, delta, bonus, paid_after, bonus_after) = row_deltas cmd e [] in
    let stores = create_ledger_row-Stores row db {stored = w.0} {db' = w.1} made in
    let same : w.1 ≡ db' = ap (λ (x : Option LedgerEntry × Db). x.1) (ok-injective rest) in
    let still : bal.balance +ℤ row.delta ≡ bal.balance = rw (delta, f.0) (+ℤ_zero bal.balance) in
    (
      books_at cmd.user_id still (ap (λ (x : ℤ). bal.bonus_balance +ℤ x) bonus) same (
          push_row cmd.user_id bal.balance bal.bonus_balance row w.0 db w.1 s stores user
            (paid_after ∙ f.1 ∙ sym still)
            (bonus_after ∙ f.2 ∙ ap (λ (x : ℤ). bal.bonus_balance +ℤ x) (sym bonus))),
      rw (← same) stores.wallets_kept,
    )

pub dec_eq : (v u : ℕ) → (v ≡ u) ⊎ (v ≢ u)
dec_eq v u = ground arith

pub set_row_self : (u : ℕ) (b : Balance) (table : ℕ → Option Balance) → set_row u b table u ≡ some b
set_row_self u b table = rw (==_refl u)

pub set_row_ne :
    (u v : ℕ) (b : Balance) (table : ℕ → Option Balance) → v ≢ u → set_row u b table v ≡ table v
set_row_ne u v b table n = ground arith

-- The update of the wallet row closes the books again.
pub settle-IsReconciled :
    (cmd : Command) (plan : Plan) (o : Option LedgerEntry) (main : LedgerRow) (current : Balance)
    (db : Db) {r : Receipt} {db' : Db}
    → Stands cmd.user_id plan.result.balance plan.result.bonus_balance db
    → db.balances cmd.user_id ≡ some current
    → pos 0 ≤ℤ plan.result.balance
    → pos 0 ≤ℤ plan.result.bonus_balance
    → settle cmd plan o main db ≡ ok (r, db')
    → IsReconciled db'
settle-IsReconciled cmd plan o main current db {r} {db'} s e p b h =
    let u = cmd.user_id in
    let (mid, updates, wrote, _, _, _) = settle_steps cmd plan o main db h in
    let (kept, row) = update_balance-Updates u plan.result current cmd.now db e updates in
    let leaves = write_child-LeavesBooks cmd main.id plan.entry mid wrote in
    let same_ledger = leaves.same_ledger ∙ kept.ledger_kept in
    let same_wallets = leaves.same_wallets ∙ row in
    let sound : IsSound (updated u plan.result cmd.now) =
      closed plan.result p b kept.paid_fits kept.bonus_fits in
    record {
      wallets = λ v.
          rw (same_ledger, same_wallets)
            (elim (dec_eq v u) [
              | inl self ↦
                  rw (self, set_row_self u (updated u plan.result cmd.now) db.balances)
                    (sound, sym s.paid_sum, sym s.bonus_sum)
              | inr other ↦
                  rw (set_row_ne u v (updated u plan.result cmd.now) db.balances other)
                    (s.others v other)
            ]);
      running = rw same_ledger s.is_running;
    }
  where
    closed :
        (b : Balance)
        → pos 0 ≤ℤ b.balance
        → pos 0 ≤ℤ b.bonus_balance
        → IsInt32 b.balance
        → IsInt32 b.bonus_balance
        → IsSound (updated cmd.user_id b cmd.now)
    closed b h k m n = ground arith
