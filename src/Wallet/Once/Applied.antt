-- ===== src/Wallet/Once/Applied.antt =====
-- What a command that succeeds has done, and what no command undoes.
use web_novel.Common.{
  ℕ, ◌≡◌, refl, sym, ap, subst, ◌∙◌, true, false, Option, none, some, List, [], ◌∷◌, is_some, arith,
}
use web_novel.Common.Result.{ok, err, is_ok, >>=-eq-ok, ok-injective}
use web_novel.Wallet.Types.{Command, Receipt, Outcome, Balance, Plan}
use web_novel.Wallet.Store.{LedgerRow, Db, key_taken, ensure_balance_row, take_balance}
use web_novel.Wallet.Apply.Rows.{to_ledger_row, to_domain_ledger}
use web_novel.Wallet.Apply.Checks.{check_child_preconditions, plan_for}
use web_novel.Wallet.Apply.Children.{write_child}
use web_novel.Wallet.Apply.{write_expiry, apply_new, replay_of, apply_locked, apply}
use web_novel.Wallet.Books.{run}
use web_novel.Wallet.Books.Histories.{take_balance-eq-ok}
use web_novel.Wallet.Books.Writes.{Stores, create_ledger_row-Stores, write_main_steps, settle_steps}
use web_novel.Wallet.Books.Keys.{replay_of-fresh, write_expiry-keeps_keys}
use web_novel.Wallet.Once.{Extends}
use web_novel.Wallet.Once.Growth.{
  Extends-refl, Extends-trans, create_ledger_row-Extends, update_balance-Extends,
  write_kind-Extends, write_expiry-Extends,
}

-- The trace of an operation that was applied, not replayed: its main row, and its child rows.
pub record Applied (cmd : Command) (db : Db) (r : Receipt) (db' : Db) : Type 0 where
  pub plan : Plan
  pub current : Balance
  pub main : LedgerRow
  pub before : Db
  pub after : Db
  pub settled : Db
  pub wallet : db.balances cmd.user_id ≡ some current
  pub checked : is_ok (check_child_preconditions cmd db) ≡ true
  pub planned : plan_for current cmd ≡ ok plan
  pub stored : Stores (to_ledger_row cmd plan.entry cmd.idempotency_key) before main after
  pub wrote : write_child cmd main.id plan.entry settled ≡ ok db'
  pub same_entry : r.ledger ≡ to_domain_ledger main
  pub is_new : r.replayed ≡ false
  pub from_start : Extends db after
  pub to_child : Extends after settled
  pub over_child : Extends settled db'

pub apply_new-Applied :
    (cmd : Command) (current : Balance) (db : Db) {r : Receipt} {db' : Db}
    → db.balances cmd.user_id ≡ some current
    → replay_of cmd db ≡ ok none
    → apply_new cmd current db ≡ ok (r, db')
    → Applied cmd db r db'
unfolding apply_new write_child
apply_new-Applied cmd current db {r} {db'} wallet new h =
    let (t, checked, h1) = >>=-eq-ok (check_child_preconditions cmd db) _ h in
    let (plan, planned, h2) = >>=-eq-ok (plan_for current cmd) _ h1 in
    let (w, expired, h3) = >>=-eq-ok (write_expiry cmd plan.expiry db) _ h2 in
    let row = to_ledger_row cmd plan.entry cmd.idempotency_key in
    let fresh : key_taken row w.1.ledger ≡ false =
      write_expiry-keeps_keys cmd plan.expiry row db {o = w.0} {db' = w.1} expired
        (replay_of-fresh cmd plan.entry db new) in
    let (main, mid, made, settles) = write_main_steps cmd plan w.0 w.1 fresh h3 in
    let (last, updates, wrote, allocated, entry, is_new) =
      settle_steps cmd plan w.0 main mid settles in
    let stores = create_ledger_row-Stores row w.1 made in
    record {
      plan = plan;
      current = current;
      main = main;
      before = w.1;
      after = mid;
      settled = last;
      wallet = wallet;
      checked = rw checked;
      planned = planned;
      stored = stores;
      wrote = wrote;
      same_entry = entry;
      is_new = is_new;
      from_start =
          Extends-trans db w.1 mid
            (write_expiry-Extends cmd plan.expiry db {o = w.0} {db' = w.1} expired)
            (create_ledger_row-Extends row main w.1 mid stores);
      to_child = update_balance-Extends cmd.user_id plan.result cmd.now mid updates;
      over_child = write_kind-Extends cmd.child.kind cmd main.id plan.entry last {db' = db'} wrote;
    }

pub ensure_balance_row-Extends : (u : ℕ) (db : Db) → Extends db (ensure_balance_row u db)
unfolding ensure_balance_row
ensure_balance_row-Extends u db = record {
  keys = λ v key row h. ground arith;
  wallets = λ v h. ground arith;
  unlocks = λ v c h. ground arith;
}

pub ensure_balance_row-there :
    (u : ℕ) (db : Db) → is_some ((ensure_balance_row u db).balances u) ≡ true
unfolding ensure_balance_row
ensure_balance_row-there u db = ground arith

-- A command that succeeds under the lock is a replay that writes nothing, or is applied.
pub data Succeeded (cmd : Command) (db : Db) (r : Receipt) (db' : Db) : Type 0 where
  replays : replay_of cmd db ≡ ok (some r) → db' ≡ db → Succeeded cmd db r db'
  applies : replay_of cmd db ≡ ok none → Applied cmd db r db' → Succeeded cmd db r db'

pub apply_locked-Succeeded :
    (cmd : Command) (db : Db) {r : Receipt} {db' : Db}
    → apply_locked cmd db ≡ ok (r, db')
    → Succeeded cmd db r db'
unfolding apply_locked
apply_locked-Succeeded cmd db {r} {db'} h =
    let (current, taken, h') = >>=-eq-ok (take_balance cmd.user_id db) _ h in
    let (replay, looked, h'') = >>=-eq-ok (replay_of cmd db) _ h' in
    next current replay (take_balance-eq-ok cmd.user_id db taken) looked h''
  where
    next :
        (current : Balance) (replay : Option Receipt)
        → db.balances cmd.user_id ≡ some current
        → replay_of cmd db ≡ ok replay
        → (elim replay [ some r0 ↦ ok (r0, db) | none ↦ apply_new cmd current db ]) ≡ ok (r, db')
        → Succeeded cmd db r db'
    next current none b e k = applies e (apply_new-Applied cmd current db b e k)
    next current (some r0) b e k =
        let same = ok-injective k in
        replays (e ∙ ap ok (ap some (ap (λ (x : Receipt × Db). x.0) same)))
          (ap (λ (x : Receipt × Db). x.1) (sym same))

pub Applied-Extends :
    (cmd : Command) (db db' : Db) {r : Receipt} → Applied cmd db r db' → Extends db db'
Applied-Extends cmd db db' a =
    Extends-trans db a.after db' a.from_start
      (Extends-trans a.after a.settled db' a.to_child a.over_child)

apply_locked-Extends :
    (cmd : Command) (db : Db) {r : Receipt} {db' : Db}
    → apply_locked cmd db ≡ ok (r, db')
    → Extends db db'
apply_locked-Extends cmd db {r} {db'} h = elim (apply_locked-Succeeded cmd db h) [
  | replays e same ↦ subst (Extends db) (sym same) (Extends-refl db)
  | applies e a ↦ Applied-Extends cmd db db' a
]

-- The transaction that `apply` commits.
pub apply-eq-ok :
    (cmd : Command) (db : Db) {r : Receipt} {db' : Db}
    → apply cmd db ≡ (ok r, db')
    → apply_locked cmd (ensure_balance_row cmd.user_id db) ≡ ok (r, db')
unfolding apply
apply-eq-ok cmd db {r} {db'} h = split (apply_locked cmd (ensure_balance_row cmd.user_id db)) h
  where
    split :
        (out : Outcome (Receipt × Db))
        → (let after : Outcome Receipt × Db = elim out [
          | ok (r1, db1) ↦ (ok r1, db1)
          | err e ↦ (err e, db)
        ] in
            after ≡ (ok r, db'))
        → out ≡ ok (r, db')
    split (ok (r1, db1)) e = ground arith
    split (err x) e = absurd (ground arith)

pub apply-Extends : (cmd : Command) (db : Db) → Extends db (apply cmd db).1
unfolding apply
apply-Extends cmd db = split (apply_locked cmd (ensure_balance_row cmd.user_id db)) refl
  where
    split :
        (out : Outcome (Receipt × Db))
        → apply_locked cmd (ensure_balance_row cmd.user_id db) ≡ out
        → let after : Outcome Receipt × Db = elim out [
          | ok (r, db') ↦ (ok r, db')
          | err e ↦ (err e, db)
        ] in
          Extends db after.1
    split (ok (r, db')) e =
        Extends-trans db (ensure_balance_row cmd.user_id db) db'
          (ensure_balance_row-Extends cmd.user_id db)
          (apply_locked-Extends cmd (ensure_balance_row cmd.user_id db) e)
    split (err x) e = Extends-refl db

pub run-Extends : (cmds : List Command) (db : Db) → Extends db (run cmds db)
unfolding run
run-Extends [] db = Extends-refl db
run-Extends (cmd ∷ cmds) db =
    Extends-trans db (apply cmd db).1 (run cmds (apply cmd db).1) (apply-Extends cmd db)
      (run-Extends cmds (apply cmd db).1)
