-- ===== src/Wallet/Once/Replays.antt =====
-- A repeated key replays its receipt; a key that is used for something else is refused.
use web_novel.Common.{
  ℕ, ◌≡◌, ◌≢◌, inl, inr, ◌⊎◌, refl, sym, ◌∙◌, Bool-cases, true, false, none, some, Option-cases,
  List, if◌then◌else◌, is_some, arith,
}
use web_novel.Common.Result.{ok, err}
use web_novel.Common.Text.{is_empty}
use web_novel.Wallet.Types.{Command, Receipt, Balance, idempotency_conflict}
use web_novel.Wallet.Store.{LedgerRow, Db, ensure_balance_row, take_balance}
use web_novel.Wallet.Apply.Rows.{find_by_key, find_replay, replay_receipt, same_target}
use web_novel.Wallet.Apply.{replay_of, apply_locked, apply}
use web_novel.Wallet.Books.{run}
use web_novel.Wallet.Once.{SameRequest}
use web_novel.Wallet.Once.Targets.{HasTarget, same_target-HasTarget}
use web_novel.Wallet.Once.Remembered.{apply-Remembered, run-Remembered}

pub ensure_balance_row-idle :
    (u : ℕ) (db : Db) → is_some (db.balances u) ≡ true → ensure_balance_row u db ≡ db
unfolding ensure_balance_row
ensure_balance_row-idle u db h = ground arith

pub take_balance-there :
    (u : ℕ) (db : Db) → is_some (db.balances u) ≡ true → (b : Balance) × (take_balance u db ≡ ok b)
unfolding take_balance
take_balance-there u db h = elim (Option-cases (db.balances u)) [
  | inl nothing ↦ absurd (ground arith)
  | inr (b, e) ↦ (b, ground arith)
]

answered_locked :
    (cmd : Command) (row : LedgerRow) (b : Balance) (db : Db)
    → is_empty cmd.idempotency_key ≡ false
    → take_balance cmd.user_id db ≡ ok b
    → find_by_key cmd.user_id cmd.idempotency_key db ≡ some row
    → apply_locked cmd db
      ≡ (if same_target row cmd then ok (replay_receipt row b, db) else err idempotency_conflict)
unfolding apply_locked same_target replay_of find_replay
answered_locked cmd row b db keyed taken found = elim (Bool-cases (same_target row cmd)) [
  | inl same ↦ rw (apply_locked, replay_of, find_replay, taken, keyed, found, same, taken) refl
  | inr other ↦ rw (apply_locked, replay_of, find_replay, taken, keyed, found, other) refl
]

-- The answer to a command whose wallet is there and whose key finds a row.
answered :
    (cmd : Command) (row : LedgerRow) (b : Balance) (db : Db)
    → is_empty cmd.idempotency_key ≡ false
    → is_some (db.balances cmd.user_id) ≡ true
    → take_balance cmd.user_id db ≡ ok b
    → find_by_key cmd.user_id cmd.idempotency_key db ≡ some row
    → apply cmd db ≡ (
        if same_target row cmd
        then (ok (replay_receipt row b), db)
        else (err idempotency_conflict, db))
unfolding apply
answered cmd row b db keyed wallet taken found = elim (Bool-cases (same_target row cmd)) [
  | inl same ↦
      rw
        (
          apply,
          ensure_balance_row-idle cmd.user_id db wallet,
          answered_locked cmd row b db keyed taken found,
          same,
        )
        refl
  | inr other ↦
      rw
        (
          apply,
          ensure_balance_row-idle cmd.user_id db wallet,
          answered_locked cmd row b db keyed taken found,
          other,
        )
        refl
]

-- A command with a key takes effect once: after it has succeeded, and after any commands that come
-- later, every command of the same user, key and target gets a receipt that is marked as a replay
-- and shows the first receipt's ledger row, and leaves the tables exactly as they are.
pub apply_replays :
    (cmd cmd' : Command) (rest : List Command) (db db' : Db) (r : Receipt)
    → is_empty cmd.idempotency_key ≡ false
    → apply cmd db ≡ (ok r, db')
    → SameRequest cmd cmd'
    → (b : Balance) × (apply cmd' (run rest db') ≡ (
      ok (record { ledger = r.ledger; expiry_ledger = none; balance = b; replayed = true }),
      run rest db',
    ))
apply_replays cmd cmd' rest db db' r keyed h s =
    let m = run-Remembered cmd rest db' r (apply-Remembered cmd db db' r keyed h) in
    let now = run rest db' in
    let wallet : is_some (now.balances cmd'.user_id) ≡ true = rw s.same_user m.wallet in
    let keyed' : is_empty cmd'.idempotency_key ≡ false = rw s.same_key keyed in
    let found : find_by_key cmd'.user_id cmd'.idempotency_key now ≡ some m.row =
      rw (s.same_user, s.same_key) m.found in
    let (b, taken) = take_balance-there cmd'.user_id now wallet in
    let target : HasTarget m.row cmd' = record {
      kind = m.target.kind ∙ sym s.same_kind;
      ref_type = m.target.ref_type ∙ sym s.same_ref_type;
      ref_id = m.target.ref_id ∙ sym s.same_ref_id;
    } in
    (
      b,
      answered cmd' m.row b now keyed' wallet taken found
          ∙ rw ((same_target-HasTarget m.row cmd').1 target, m.shown) refl,
    )

-- A key stands for one target: after a command with a key has succeeded, and after any commands
-- that come later, every command of the same user and key that has another kind, reference type or
-- reference is refused with the idempotency conflict and leaves the tables exactly as they are.
pub apply_conflict :
    (cmd cmd' : Command) (rest : List Command) (db db' : Db) (r : Receipt)
    → is_empty cmd.idempotency_key ≡ false
    → apply cmd db ≡ (ok r, db')
    → cmd'.user_id ≡ cmd.user_id
    → cmd'.idempotency_key ≡ cmd.idempotency_key
    → (cmd'.op.kind ≢ cmd.op.kind)
      ⊎ ((cmd'.op.ref_type ≢ cmd.op.ref_type) ⊎ (cmd'.op.ref_id ≢ cmd.op.ref_id))
    → apply cmd' (run rest db') ≡ (err idempotency_conflict, run rest db')
apply_conflict cmd cmd' rest db db' r keyed h same_user same_key other =
    let m = run-Remembered cmd rest db' r (apply-Remembered cmd db db' r keyed h) in
    let now = run rest db' in
    let wallet : is_some (now.balances cmd'.user_id) ≡ true = rw same_user m.wallet in
    let keyed' : is_empty cmd'.idempotency_key ≡ false = rw same_key keyed in
    let found : find_by_key cmd'.user_id cmd'.idempotency_key now ≡ some m.row =
      rw (same_user, same_key) m.found in
    let (b, taken) = take_balance-there cmd'.user_id now wallet in
    answered cmd' m.row b now keyed' wallet taken found
    ∙ elim (Bool-cases (same_target m.row cmd')) [
      | inr differs ↦ rw differs refl
      | inl same ↦ absurd (elsewhere m.target ((same_target-HasTarget m.row cmd').0 same) other)
    ]
  where
    elsewhere :
        {row : LedgerRow}
        → HasTarget row cmd
        → HasTarget row cmd'
        → (cmd'.op.kind ≢ cmd.op.kind)
          ⊎ ((cmd'.op.ref_type ≢ cmd.op.ref_type) ⊎ (cmd'.op.ref_id ≢ cmd.op.ref_id))
        → ⊥
    elsewhere t t' (inl kind) = kind (sym t'.kind ∙ t.kind)
    elsewhere t t' (inr (inl ref_type)) = ref_type (sym t'.ref_type ∙ t.ref_type)
    elsewhere t t' (inr (inr ref_id)) = ref_id (sym t'.ref_id ∙ t.ref_id)
