-- ===== src/Wallet/Books/Writes.antt =====
-- What each write of the transaction does to the ledger and to the wallets.
use web_novel.Common.{
  ℕ, ◌≡◌, ◌≢◌, refl, sym, ap, ◌∙◌, Option, some, List, [], ◌∷◌, map, ◌==◌, if◌then◌else◌, true,
  false, arith,
}
use web_novel.Common.Int.{ℤ}
use web_novel.Common.Word.{IsInt32}
use web_novel.Common.Result.{ok, err, is_ok, >>=-eq-ok, ok-injective}
use web_novel.Wallet.Types.{
  Plan, Receipt, Balance, LedgerEntry, Command, ChildKind, child_none, child_chapter_unlock,
  child_purchase_complete, child_arc_bundle, child_tip, Time, Error, Outcome, unique_violation,
}
use web_novel.Wallet.Store.{
  LedgerRow, earning_tip, earning_unlock, UnlockRow, EarningRow, Db, fits_int, set_row,
  create_ledger_row, update_balance, updated, create_unlock, create_unlocks, create_earning,
  create_earnings, key_taken,
}
use web_novel.Wallet.Apply.Rows.{to_ledger_row, to_domain_ledger}
use web_novel.Wallet.Apply.{settle, write_main, on_duplicate}
use web_novel.Wallet.Apply.Children.{
  check_allocated, write_kind, write_child, on_unique, child_unlock, child_earning, item_unlock,
  item_earnings,
}

fits_int-IsInt32 : (a : ℤ) → fits_int a ≡ true → IsInt32 a
unfolding fits_int
fits_int-IsInt32 a h = ground arith

-- A ledger row that is stored goes on top, and its amounts fit their columns.
pub record Stores (row : LedgerRow) (db : Db) (stored : LedgerRow) (db' : Db) : Type 0 where
  pub on_top : db'.ledger ≡ stored ∷ db.ledger
  pub wallets_kept : db'.balances ≡ db.balances
  pub unlocks_kept : db'.unlocks ≡ db.unlocks
  pub is_row : stored ≡ record row { id = db.next_ledger_id }
  pub delta_fits : IsInt32 row.delta
  pub bonus_delta_fits : IsInt32 row.bonus_delta
  pub new_key : key_taken row db.ledger ≡ false

pub create_ledger_row-Stores :
    (row : LedgerRow) (db : Db) {stored : LedgerRow} {db' : Db}
    → create_ledger_row row db ≡ ok (stored, db')
    → Stores row db stored db'
unfolding create_ledger_row
create_ledger_row-Stores row db e =
    ground (arith, fits_int-IsInt32 row.delta, fits_int-IsInt32 row.bonus_delta)

-- The child rows leave the ledger and the wallets alone.
pub record LeavesBooks (db db' : Db) : Type 0 where
  pub same_ledger : db'.ledger ≡ db.ledger
  pub same_wallets : db'.balances ≡ db.balances

LeavesBooks-trans : (a b c : Db) → LeavesBooks a b → LeavesBooks b c → LeavesBooks a c
LeavesBooks-trans a b c h k = record {
  same_ledger = k.same_ledger ∙ h.same_ledger;
  same_wallets = k.same_wallets ∙ h.same_wallets;
}

LeavesBooks-refl : (a : Db) → LeavesBooks a a
LeavesBooks-refl a = record { same_ledger = refl; same_wallets = refl }

create_unlock-LeavesBooks :
    (row : UnlockRow) (db : Db) {db' : Db} → create_unlock row db ≡ ok db' → LeavesBooks db db'
unfolding create_unlock
create_unlock-LeavesBooks row db e = ground arith

create_earning-LeavesBooks :
    (row : EarningRow) (db : Db) {db' : Db} → create_earning row db ≡ ok db' → LeavesBooks db db'
unfolding create_earning
create_earning-LeavesBooks row db e = ground arith

create_unlocks-LeavesBooks :
    (rows : List UnlockRow) (db : Db) {db' : Db}
    → create_unlocks rows db ≡ ok db'
    → LeavesBooks db db'
unfolding create_unlocks
create_unlocks-LeavesBooks [] db e = ground arith
create_unlocks-LeavesBooks (row ∷ rows) db {db'} e =
    let (mid, first, rest) = >>=-eq-ok (create_unlock row db) _ e in
    LeavesBooks-trans db mid db' (create_unlock-LeavesBooks row db first)
      (create_unlocks-LeavesBooks rows mid rest)

create_earnings-LeavesBooks :
    (rows : List EarningRow) (db : Db) {db' : Db}
    → create_earnings rows db ≡ ok db'
    → LeavesBooks db db'
unfolding create_earnings
create_earnings-LeavesBooks [] db e = ground arith
create_earnings-LeavesBooks (row ∷ rows) db {db'} e =
    let (mid, first, rest) = >>=-eq-ok (create_earning row db) _ e in
    LeavesBooks-trans db mid db' (create_earning-LeavesBooks row db first)
      (create_earnings-LeavesBooks rows mid rest)

pub on_unique-eq-ok :
    {A : Type 0} (e : Error) (m : Outcome A) {a : A} → on_unique e m ≡ ok a → m ≡ ok a
on_unique-eq-ok e (ok a) h = h
on_unique-eq-ok e (err unique_violation) h = absurd (cc)
on_unique-eq-ok e (err _) h = absurd (cc)

write_kind-LeavesBooks :
    (k : ChildKind) (cmd : Command) (id : ℕ) (entry : LedgerEntry) (db : Db) {db' : Db}
    → write_kind k cmd id entry db ≡ ok db'
    → LeavesBooks db db'
unfolding write_kind
write_kind-LeavesBooks child_none cmd id entry db e = ground arith
write_kind-LeavesBooks child_tip cmd id entry db {db'} e =
    ground
      (arith, create_earning-LeavesBooks (child_earning cmd id entry earning_tip) db {db' = db'})
write_kind-LeavesBooks child_purchase_complete cmd id entry db e = ground arith
write_kind-LeavesBooks child_chapter_unlock cmd id entry db {db'} e =
    let (mid, first, rest) = >>=-eq-ok _ _ e in
    LeavesBooks-trans db mid db'
      (create_unlock-LeavesBooks (child_unlock cmd id entry) db (on_unique-eq-ok _ _ first))
      (credited mid rest)
  where
    credited :
        (mid : Db) {out : Db}
        → (if cmd.child.writer_id == 0
            then ok mid
            else create_earning (child_earning cmd id entry earning_unlock) mid)
          ≡ ok out
        → LeavesBooks mid out
    credited mid {out} h = ground (
      arith,
      create_earning-LeavesBooks (child_earning cmd id entry earning_unlock) mid {db' = out},
    )
write_kind-LeavesBooks child_arc_bundle cmd id entry db {db'} e =
    let (mid, first, rest) = >>=-eq-ok _ _ e in
    LeavesBooks-trans db mid db'
      (create_unlocks-LeavesBooks (map (item_unlock cmd id) cmd.child.items) db
        (on_unique-eq-ok _ _ first))
      (create_earnings-LeavesBooks (item_earnings cmd id cmd.child.items) mid rest)

pub write_child-LeavesBooks :
    (cmd : Command) (id : ℕ) (entry : LedgerEntry) (db : Db) {db' : Db}
    → write_child cmd id entry db ≡ ok db'
    → LeavesBooks db db'
unfolding write_child
write_child-LeavesBooks cmd id entry db e = write_kind-LeavesBooks cmd.child.kind cmd id entry db e

-- A wallet row that is updated holds the result, which is in range and not negative.
pub record Updates (u : ℕ) (b : Balance) (now : Time) (db db' : Db) : Type 0 where
  pub ledger_kept : db'.ledger ≡ db.ledger
  pub paid_fits : IsInt32 b.balance
  pub bonus_fits : IsInt32 b.bonus_balance
  pub unlocks_left : db'.unlocks ≡ db.unlocks

pub update_balance-Updates :
    (u : ℕ) (b old : Balance) (now : Time) (db : Db) {db' : Db}
    → db.balances u ≡ some old
    → update_balance u b now db ≡ ok db'
    → Updates u b now db db' × (db'.balances ≡ set_row u (updated u b now) db.balances)
unfolding update_balance
update_balance-Updates u b old now db h e =
    ground (arith, fits_int-IsInt32 b.balance, fits_int-IsInt32 b.bonus_balance)

-- A key that is new is no reason to refuse the row.
no_duplicate :
    (row : LedgerRow) (db : Db)
    → key_taken row db.ledger ≡ false
    → create_ledger_row row db ≢ err unique_violation
unfolding create_ledger_row
no_duplicate row db h e = ground arith

-- With a new key the main row is stored, and the rest is the settlement.
pub write_main_steps :
    (cmd : Command) (plan : Plan) (o : Option LedgerEntry) (db : Db) {r : Receipt} {db' : Db}
    → key_taken (to_ledger_row cmd plan.entry cmd.idempotency_key) db.ledger ≡ false
    → write_main cmd plan o db ≡ ok (r, db')
    → (main : LedgerRow) × (mid : Db) × (create_ledger_row
          (to_ledger_row cmd plan.entry cmd.idempotency_key)
          db
        ≡ ok (main, mid))
      × (settle cmd plan o main mid ≡ ok (r, db'))
unfolding write_main
write_main_steps cmd plan o db {r} {db'} fresh h =
    split (create_ledger_row (to_ledger_row cmd plan.entry cmd.idempotency_key) db) refl h
  where
    split :
        (made : Outcome (LedgerRow × Db))
        → create_ledger_row (to_ledger_row cmd plan.entry cmd.idempotency_key) db ≡ made
        → (elim made [
          | ok (main, mid) ↦ settle cmd plan o main mid
          | err e ↦ on_duplicate cmd db e
        ])
          ≡ ok (r, db')
        → (main : LedgerRow) × (mid : Db) × (create_ledger_row
              (to_ledger_row cmd plan.entry cmd.idempotency_key)
              db
            ≡ ok (main, mid))
          × (settle cmd plan o main mid ≡ ok (r, db'))
    split (ok (main, mid)) e k = (main, mid, e, k)
    split (err unique_violation) e k = absurd (no_duplicate _ db fresh e)
    split (err _) e k = absurd (cc)

-- What a settlement that succeeds has done.
pub settle_steps :
    (cmd : Command) (plan : Plan) (o : Option LedgerEntry) (main : LedgerRow) (db : Db)
    {r : Receipt} {db' : Db}
    → settle cmd plan o main db ≡ ok (r, db')
    → (mid : Db) × (update_balance cmd.user_id plan.result cmd.now db ≡ ok mid)
      × (write_child cmd main.id plan.entry mid ≡ ok db')
      × (is_ok (check_allocated cmd plan.entry) ≡ true)
      × (r.ledger ≡ to_domain_ledger main)
      × (r.replayed ≡ false)
unfolding settle
settle_steps cmd plan o main db {r} {db'} h =
    let u = cmd.user_id in
    let (mid, updates, h') = >>=-eq-ok (update_balance u plan.result cmd.now db) _ h in
    let (t, allocated, h'') = >>=-eq-ok (check_allocated cmd plan.entry) _ h' in
    let (last, wrote, h''') = >>=-eq-ok (write_child cmd main.id plan.entry mid) _ h'' in
    let same = ok-injective h''' in
    (
      mid,
      updates,
      wrote ∙ ap ok (ap (λ (x : Receipt × Db). x.1) same),
      rw allocated,
      ap (λ (x : Receipt × Db). x.0.ledger) (sym same),
      ap (λ (x : Receipt × Db). x.0.replayed) (sym same),
    )
