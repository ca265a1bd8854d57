-- ===== src/Wallet/Books/Keys.antt =====
-- Idempotency keys: what the replay check says of the ledger's unique key.
use web_novel.Common.{
  ◌≡◌, refl, ap, Bool, Bool-cases, false, Option, none, some, Option-cases, inl, inr, List, [], ◌∷◌,
  find?, any, arith,
}
use web_novel.Common.Result.{ok, >>=-eq-ok, ok-injective}
use web_novel.Common.Text.{is_empty}
use web_novel.Wallet.Types.{LedgerEntry, Command}
use web_novel.Wallet.Store.{LedgerRow, Db, has_key, key_taken, create_ledger_row}
use web_novel.Wallet.Apply.Rows.{to_ledger_row, find_by_key, find_replay}
use web_novel.Wallet.Apply.{write_expiry, replay_of}
use web_novel.Wallet.Books.Writes.{create_ledger_row-Stores}

find?-none {ℓ} : {A : Type ℓ} (p : A → Bool) (xs : List A) → find? p xs ≡ none → any p xs ≡ false
find?-none p [] h = refl
find?-none p (x ∷ xs) h = ground (arith, find?-none p xs)

-- A key that finds no row is a key that the table does not hold.
new_key_fresh :
    (cmd : Command) (entry : LedgerEntry) (db : Db)
    → find_by_key cmd.user_id cmd.idempotency_key db ≡ none
    → key_taken (to_ledger_row cmd entry cmd.idempotency_key) db.ledger ≡ false
unfolding to_ledger_row
new_key_fresh cmd entry db h =
    ground (arith, find?-none (has_key cmd.user_id cmd.idempotency_key) db.ledger h)

-- What the replay check finds, by the row that has the key.
find_replay-none :
    (cmd : Command) (db : Db)
    → find_replay cmd db ≡ ok none
    → find_by_key cmd.user_id cmd.idempotency_key db ≡ none
unfolding find_replay
find_replay-none cmd db h = elim (Option-cases (find_by_key cmd.user_id cmd.idempotency_key db)) [
  | inl nothing ↦ nothing
  | inr (row, e) ↦ absurd (ground arith)
]

-- Past the replay check no row of the ledger stands in the way of the main row.
pub replay_of-fresh :
    (cmd : Command) (entry : LedgerEntry) (db : Db)
    → replay_of cmd db ≡ ok none
    → key_taken (to_ledger_row cmd entry cmd.idempotency_key) db.ledger ≡ false
unfolding replay_of to_ledger_row
replay_of-fresh cmd entry db h = elim (Bool-cases (is_empty cmd.idempotency_key)) [
  | inl no_key ↦ rw no_key
  | inr key ↦ new_key_fresh cmd entry db (find_replay-none cmd db (ground arith))
]

-- The write-off row has no key, so it takes none.
pub write_expiry-keeps_keys :
    (cmd : Command) (e : Option LedgerEntry) (row : LedgerRow) (db : Db) {o : Option LedgerEntry}
    {db' : Db}
    → write_expiry cmd e db ≡ ok (o, db')
    → key_taken row db.ledger ≡ false
    → key_taken row db'.ledger ≡ false
unfolding write_expiry
write_expiry-keeps_keys cmd none row db h k = ground arith
write_expiry-keeps_keys cmd (some e) row db {o} {db'} h k =
    let (w, made, rest) = >>=-eq-ok (create_ledger_row (to_ledger_row cmd e []) db) _ h in
    let stores =
      create_ledger_row-Stores (to_ledger_row cmd e []) db {stored = w.0} {db' = w.1} made in
    let same : w.1 ≡ db' = ap (λ (x : Option LedgerEntry × Db). x.1) (ok-injective rest) in
    rw (← same, stores.on_top, stores.is_row) (unfold to_ledger_row in ground arith)
