-- ===== src/Wallet/Once/Growth.antt =====
-- Every operation of the write path extends the tables.
use web_novel.Common.{
  ℕ, ◌≡◌, ap, subst, Bool, Bool-cases, true, false, Option, none, some, Option-cases, inl, inr, ◌⊎◌,
  List, [], ◌∷◌, map, ◌==◌, if◌then◌else◌, find?, any, arith,
}
use web_novel.Common.Int.{ℤ}
use web_novel.Common.Result.{ok, >>=-eq-ok, ok-injective}
use web_novel.Common.Text.{Text, text_eq_iff}
use web_novel.Wallet.Types.{
  LedgerEntry, Command, Balance, ChildItem, ChildKind, child_none, child_chapter_unlock,
  child_purchase_complete, child_arc_bundle, child_tip,
}
use web_novel.Wallet.Store.{
  LedgerRow, Db, UnlockRow, EarningRow, earning_unlock, earning_tip, has_key, key_taken, unlocked,
  create_ledger_row, update_balance, create_unlock, create_unlocks, create_earning, create_earnings,
}
use web_novel.Wallet.Apply.Rows.{to_ledger_row}
use web_novel.Wallet.Apply.Children.{
  write_kind, child_unlock, child_earning, item_unlock, item_earnings,
}
use web_novel.Wallet.Apply.{write_expiry}
use web_novel.Wallet.Books.Writes.{Stores, create_ledger_row-Stores, on_unique-eq-ok}
use web_novel.Wallet.Once.{Extends}

pub Extends-refl : (a : Db) → Extends a a
Extends-refl a = record { keys = λ u k row h. h; wallets = λ u h. h; unlocks = λ u c h. h }

pub Extends-trans : (a b c : Db) → Extends a b → Extends b c → Extends a c
Extends-trans a b c h k = record {
  keys = λ u key row e. k.keys u key row (h.keys u key row e);
  wallets = λ u e. k.wallets u (h.wallets u e);
  unlocks = λ u ch e. k.unlocks u ch (h.unlocks u ch e);
}

find?-any {ℓ} :
    {A : Type ℓ} (p : A → Bool) (xs : List A) {x : A} → find? p xs ≡ some x → any p xs ≡ true
find?-any p [] h = absurd (cc)
find?-any p (x ∷ xs) {x = y} h = ground (arith, find?-any p xs {x = y})

pub has_key_fields :
    (u : ℕ) (key : Text) (row : LedgerRow)
    → has_key u key row ≡ true
    → (row.user_id ≡ u) × (row.idempotency_key ≡ some key)
has_key_fields u key row h = elim (Option-cases row.idempotency_key) [
  | inl no_key ↦ absurd (ground arith)
  | inr (k, e) ↦ ground (arith, text_eq_iff k key)
]

-- A key that finds a row is taken.
found_key_taken :
    (row : LedgerRow) (u : ℕ) (key : Text) (rows : List LedgerRow) {r : LedgerRow}
    → find? (has_key u key) rows ≡ some r
    → has_key u key row ≡ true
    → key_taken row rows ≡ true
found_key_taken row u key rows found has =
    let (user, k) = has_key_fields u key row has in
    rw (k, user) (find?-any (has_key u key) rows found)

-- A row that is stored has another key than the rows that are found.
pub create_ledger_row-Extends :
    (row stored : LedgerRow) (db db' : Db) → Stores row db stored db' → Extends db db'
create_ledger_row-Extends row stored db db' s = record {
  keys = λ u key r e. rw s.on_top (skip u key r e (Bool-cases (has_key u key stored)));
  wallets = λ u e. rw s.wallets_kept e;
  unlocks = λ u c e. rw s.unlocks_kept e;
}
  where
    skip :
        (u : ℕ) (key : Text) (r : LedgerRow)
        → find? (has_key u key) db.ledger ≡ some r
        → (has_key u key stored ≡ true) ⊎ (has_key u key stored ≡ false)
        → find? (has_key u key) (stored ∷ db.ledger) ≡ some r
    skip u key r e (inr other) = rw other e
    skip u key r e (inl same) =
        let same' : has_key u key row ≡ true =
          subst (λ (x : LedgerRow). has_key u key x ≡ true) s.is_row same in
        absurd (ground (arith, found_key_taken row u key db.ledger e same', s.new_key))

pub update_balance-Extends :
    (u : ℕ) (b : Balance) (now : ℤ) (db : Db) {db' : Db}
    → update_balance u b now db ≡ ok db'
    → Extends db db'
unfolding update_balance
update_balance-Extends u b now db {db'} e = record {
  keys = λ u key r h. ground arith;
  wallets = λ v h. ground arith;
  unlocks = λ u c h. ground arith;
}

create_unlock-Extends :
    (row : UnlockRow) (db : Db) {db' : Db}
    → create_unlock row db ≡ ok db'
    → Extends db db' × (unlocked row.user_id row.chapter_id db' ≡ true)
unfolding create_unlock
create_unlock-Extends row db {db'} e = (
  record {
    keys = λ u key r h. ground arith;
    wallets = λ v h. ground arith;
    unlocks = λ u c h. ground arith;
  },
  ground arith,
)

create_earning-Extends :
    (row : EarningRow) (db : Db) {db' : Db} → create_earning row db ≡ ok db' → Extends db db'
unfolding create_earning
create_earning-Extends row db {db'} e = record {
  keys = λ u key r h. ground arith;
  wallets = λ v h. ground arith;
  unlocks = λ u c h. ground arith;
}

create_unlocks-Extends :
    (rows : List UnlockRow) (db : Db) {db' : Db} → create_unlocks rows db ≡ ok db' → Extends db db'
unfolding create_unlocks
create_unlocks-Extends [] db e = subst (Extends db) (ok-injective e) (Extends-refl db)
create_unlocks-Extends (row ∷ rows) db {db'} e =
    let (mid, first, rest) = >>=-eq-ok (create_unlock row db) _ e in
    Extends-trans db mid db' (create_unlock-Extends row db first).0
      (create_unlocks-Extends rows mid rest)

-- The rows of a bundle unlock the chapters of its items.
pub item_unlocks-unlocked :
    (cmd : Command) (id chapter : ℕ) (items : List ChildItem) (db : Db) {db' : Db}
    → create_unlocks (map (item_unlock cmd id) items) db ≡ ok db'
    → any (λ (i : ChildItem). i.chapter_id == chapter) items ≡ true
    → unlocked cmd.user_id chapter db' ≡ true
unfolding create_unlocks
item_unlocks-unlocked cmd id chapter [] db e named = absurd (cc)
item_unlocks-unlocked cmd id chapter (item ∷ items) db {db'} e named =
    let row = item_unlock cmd id item in
    let (mid, first, rest) = >>=-eq-ok (create_unlock row db) _ e in
    elim (Bool-cases (item.chapter_id == chapter)) [
      | inl here ↦
          let (grows, there) = create_unlock-Extends row db {db' = mid} first in
          let same : item.chapter_id ≡ chapter = ground arith in
          subst (λ (c : ℕ). unlocked cmd.user_id c db' ≡ true) same
            ((create_unlocks-Extends (map (item_unlock cmd id) items) mid {db' = db'} rest).unlocks
              cmd.user_id item.chapter_id there)
      | inr other ↦
          item_unlocks-unlocked cmd id chapter items mid {db' = db'} rest (rw other at named)
    ]

pub create_earnings-Extends :
    (rows : List EarningRow) (db : Db) {db' : Db}
    → create_earnings rows db ≡ ok db'
    → Extends db db'
unfolding create_earnings
create_earnings-Extends [] db e = subst (Extends db) (ok-injective e) (Extends-refl db)
create_earnings-Extends (row ∷ rows) db {db'} e =
    let (mid, first, rest) = >>=-eq-ok (create_earning row db) _ e in
    Extends-trans db mid db' (create_earning-Extends row db first)
      (create_earnings-Extends rows mid rest)

credited-Extends :
    (cmd : Command) (id : ℕ) (entry : LedgerEntry) (mid : Db) {out : Db}
    → (if cmd.child.writer_id == 0
        then ok mid
        else create_earning (child_earning cmd id entry earning_unlock) mid)
      ≡ ok out
    → Extends mid out
credited-Extends cmd id entry mid {out} h = elim (Bool-cases (cmd.child.writer_id == 0)) [
  | inl none_to_credit ↦ subst (Extends mid) (ground arith) (Extends-refl mid)
  | inr writer ↦
      create_earning-Extends (child_earning cmd id entry earning_unlock) mid {db' = out}
        (ground arith)
]

-- A chapter unlock that is written unlocks the chapter.
pub write_unlock-Extends :
    (cmd : Command) (id : ℕ) (entry : LedgerEntry) (db : Db) {db' : Db}
    → write_kind child_chapter_unlock cmd id entry db ≡ ok db'
    → Extends db db' × (unlocked cmd.user_id cmd.child.chapter_id db' ≡ true)
unfolding write_kind
write_unlock-Extends cmd id entry db {db'} e =
    let (mid, first, rest) = >>=-eq-ok _ _ e in
    let (grows, there) =
      create_unlock-Extends (child_unlock cmd id entry) db {db' = mid}
        (on_unique-eq-ok _ _ first) in
    let more = credited-Extends cmd id entry mid {out = db'} rest in
    (Extends-trans db mid db' grows more, more.unlocks cmd.user_id cmd.child.chapter_id there)

same_tables-Extends :
    (db db' : Db)
    → db'.ledger ≡ db.ledger
    → db'.balances ≡ db.balances
    → db'.unlocks ≡ db.unlocks
    → Extends db db'
same_tables-Extends db db' l b k = record {
  keys = λ u key r h. rw l h;
  wallets = λ u h. rw b h;
  unlocks = λ u c h. rw k h;
}

pub write_kind-Extends :
    (k : ChildKind) (cmd : Command) (id : ℕ) (entry : LedgerEntry) (db : Db) {db' : Db}
    → write_kind k cmd id entry db ≡ ok db'
    → Extends db db'
unfolding write_kind
write_kind-Extends child_none cmd id entry db e =
    subst (Extends db) (ok-injective e) (Extends-refl db)
write_kind-Extends child_tip cmd id entry db {db'} e =
    create_earning-Extends (child_earning cmd id entry earning_tip) db {db' = db'} (ground arith)
write_kind-Extends child_purchase_complete cmd id entry db {db'} e =
    same_tables-Extends db db' (ground arith) (ground arith) (ground arith)
write_kind-Extends child_chapter_unlock cmd id entry db {db'} e =
    (write_unlock-Extends cmd id entry db {db' = db'} e).0
write_kind-Extends child_arc_bundle cmd id entry db {db'} e =
    let (mid, first, rest) = >>=-eq-ok _ _ e in
    Extends-trans db mid db'
      (create_unlocks-Extends (map (item_unlock cmd id) cmd.child.items) db
        (on_unique-eq-ok _ _ first))
      (create_earnings-Extends (item_earnings cmd id cmd.child.items) mid rest)

pub write_expiry-Extends :
    (cmd : Command) (e : Option LedgerEntry) (db : Db) {o : Option LedgerEntry} {db' : Db}
    → write_expiry cmd e db ≡ ok (o, db')
    → Extends db db'
unfolding write_expiry
write_expiry-Extends cmd none db h =
    subst (Extends db) (ap (λ (x : Option LedgerEntry × Db). x.1) (ok-injective h))
      (Extends-refl db)
write_expiry-Extends cmd (some e) db {o} {db'} h =
    let row = to_ledger_row cmd e [] in
    let (w, made, rest) = >>=-eq-ok (create_ledger_row row db) _ h in
    subst (Extends db) (ap (λ (x : Option LedgerEntry × Db). x.1) (ok-injective rest))
      (create_ledger_row-Extends row w.0 db w.1 (create_ledger_row-Stores row db made))
