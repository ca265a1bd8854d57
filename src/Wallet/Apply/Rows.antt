-- ===== src/Wallet/Apply/Rows.antt =====
-- Ledger rows and replays (toLedgerRow, toDomainLedger, sameTarget, findReplay, ReplayByKey of
-- repository/wallet/apply.go and repository.go).
use web_novel.Common.{
  ℕ, Bool, true, false, Option, none, some, [], ◌==◌, if◌then◌else◌, ◌&&◌, find?,
}
use web_novel.Common.Text.{Text, text_eq, is_empty}
use web_novel.Common.Result.{ok, err, ◌>>=◌}
use web_novel.Wallet.Types.{
  idempotency_conflict, kind_eq, Balance, LedgerEntry, Command, Receipt, Outcome,
}
use web_novel.Wallet.Store.{LedgerRow, Db, take_balance, has_key}

abbrev pub nullable : Text → Option Text
nullable t = if is_empty t then none else some t

abbrev pub deref : Option Text → Text
deref none = []
deref (some t) = t

unfoldable pub to_ledger_row : Command → LedgerEntry → Text → LedgerRow
to_ledger_row cmd entry key = record {
  id = 0;
  user_id = cmd.user_id;
  delta = entry.delta;
  bonus_delta = entry.bonus_delta;
  kind = entry.kind;
  ref_type = nullable cmd.op.ref_type;
  ref_id = cmd.op.ref_id;
  balance_after = entry.balance_after;
  bonus_balance_after = entry.bonus_balance_after;
  reason = nullable cmd.reason;
  actor_user_id = cmd.actor_user_id;
  idempotency_key = nullable key;
  created_at = cmd.now;
}

unfoldable pub to_domain_ledger : LedgerRow → LedgerEntry
to_domain_ledger row = record {
  id = row.id;
  user_id = row.user_id;
  delta = row.delta;
  bonus_delta = row.bonus_delta;
  kind = row.kind;
  ref_type = deref row.ref_type;
  ref_id = row.ref_id;
  balance_after = row.balance_after;
  bonus_balance_after = row.bonus_balance_after;
  reason = deref row.reason;
  actor_user_id = row.actor_user_id;
  idempotency_key = deref row.idempotency_key;
  created_at = row.created_at;
}

-- Both absent, or both there and equal.
abbrev pub same_ref : Option ℕ → Option ℕ → Bool
same_ref none none = true
same_ref none (some b) = false
same_ref (some a) none = false
same_ref (some a) (some b) = a == b

unfoldable pub same_target : LedgerRow → Command → Bool
same_target existing cmd =
    kind_eq existing.kind cmd.op.kind
    && text_eq (deref existing.ref_type) cmd.op.ref_type
    && same_ref existing.ref_id cmd.op.ref_id

abbrev pub replay_receipt : LedgerRow → Balance → Receipt
replay_receipt row b = record {
  ledger = to_domain_ledger row;
  expiry_ledger = none;
  balance = b;
  replayed = true;
}

abbrev pub find_by_key : ℕ → Text → Db → Option LedgerRow
find_by_key user key db = find? (has_key user key) db.ledger

unfoldable pub find_replay : Command → Db → Outcome (Option Receipt)
find_replay cmd db = elim (find_by_key cmd.user_id cmd.idempotency_key db) [
  | none ↦ ok none
  | some row ↦
      if same_target row cmd
      then (take_balance cmd.user_id db >>= λ b. ok (some (replay_receipt row b)))
      else err idempotency_conflict
]

-- `ReplayByKey`: the receipt of a key that was applied, whatever it was applied to.
unfoldable pub replay_by_key : ℕ → Text → Db → Outcome (Option Receipt)
replay_by_key user key db = if is_empty key then ok none else elim (find_by_key user key db) [
  | none ↦ ok none
  | some row ↦ take_balance user db >>= λ b. ok (some (replay_receipt row b))
]
