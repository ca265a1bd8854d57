-- ===== src/Wallet/Once/Remembered.antt =====
-- What the tables remember of a command that has succeeded.
use web_novel.Common.{
  ◌≡◌, inl, inr, refl, sym, ap, subst, ◌∙◌, Bool-cases, true, false, Option, some, Option-cases,
  List, is_some, arith,
}
use web_novel.Common.Result.{ok, ◌>>=◌, >>=-eq-ok}
use web_novel.Common.Text.{is_empty}
use web_novel.Wallet.Types.{Command, Receipt, Outcome}
use web_novel.Wallet.Store.{LedgerRow, Db, ensure_balance_row, take_balance}
use web_novel.Wallet.Apply.Rows.{
  to_domain_ledger, find_by_key, find_replay, replay_receipt, same_target, deref,
}
use web_novel.Wallet.Apply.{replay_of, apply}
use web_novel.Wallet.Books.{run}
use web_novel.Wallet.Once.Applied.{
  Applied, replays, applies, apply_locked-Succeeded, apply-eq-ok, run-Extends, Applied-Extends,
  ensure_balance_row-there,
}
use web_novel.Wallet.Once.Targets.{
  HasTarget, same_target-HasTarget, row_has_key, main_row-RowOf, deref-nullable,
}

-- After a command with a key has succeeded, its key finds the row that its receipt shows.
pub record Remembered (cmd : Command) (r : Receipt) (db : Db) : Type 0 where
  pub row : LedgerRow
  pub found : find_by_key cmd.user_id cmd.idempotency_key db ≡ some row
  pub target : HasTarget row cmd
  pub shown : r.ledger ≡ to_domain_ledger row
  pub wallet : is_some (db.balances cmd.user_id) ≡ true

-- A replay is marked as one.
pub replay_of-replayed :
    (cmd : Command) (db : Db) {r : Receipt} → replay_of cmd db ≡ ok (some r) → r.replayed ≡ true
unfolding replay_of find_replay take_balance
replay_of-replayed cmd db h = ground arith

main_row-Remembered :
    (cmd : Command) (db db' : Db) (r : Receipt)
    → is_empty cmd.idempotency_key ≡ false
    → is_some (db'.balances cmd.user_id) ≡ true
    → Applied cmd db r db'
    → Remembered cmd r db'
main_row-Remembered cmd db db' r keyed wallet a =
    let o = main_row-RowOf cmd a.current a.plan a.before a.after a.main a.planned a.stored in
    let has = row_has_key cmd a.main keyed o in
    let top : find_by_key cmd.user_id cmd.idempotency_key a.after ≡ some a.main =
      rw (a.stored.on_top, has) refl in
    record {
      row = a.main;
      found = a.over_child.keys _ _ _ (a.to_child.keys _ _ _ top);
      target = record {
        kind = o.kind;
        ref_type = ap deref o.ref_type ∙ deref-nullable cmd.op.ref_type;
        ref_id = o.ref_id;
      };
      shown = a.same_entry;
      wallet = wallet;
    }

receipt-injective :
    {a b : Receipt} → ◌≡◌ {A = Outcome (Option Receipt)} (ok (some a)) (ok (some b)) → a ≡ b
receipt-injective h = ground arith

replayed-Remembered :
    (cmd : Command) (db : Db) (r : Receipt)
    → is_empty cmd.idempotency_key ≡ false
    → is_some (db.balances cmd.user_id) ≡ true
    → replay_of cmd db ≡ ok (some r)
    → Remembered cmd r db
unfolding replay_of find_replay
replayed-Remembered cmd db r keyed wallet h =
    elim (Option-cases (find_by_key cmd.user_id cmd.idempotency_key db)) [
      | inl nothing ↦ absurd (ground arith)
      | inr (row, e) ↦ elim (Bool-cases (same_target row cmd)) [
        | inr other ↦ absurd (ground arith)
        | inl same ↦
            let h' : (take_balance cmd.user_id db >>= λ b. ok (some (replay_receipt row b)))
                ≡ ok (some r) =
              ground arith in
            let (b, taken, made) = >>=-eq-ok (take_balance cmd.user_id db) _ h' in
            record {
              row = row;
              found = e;
              target = (same_target-HasTarget row cmd).0 same;
              shown = ap (λ (x : Receipt). x.ledger) (sym (receipt-injective made));
              wallet = wallet;
            }
      ]
    ]

pub apply-Remembered :
    (cmd : Command) (db db' : Db) (r : Receipt)
    → is_empty cmd.idempotency_key ≡ false
    → apply cmd db ≡ (ok r, db')
    → Remembered cmd r db'
apply-Remembered cmd db db' r keyed h =
    let start = ensure_balance_row cmd.user_id db in
    let there = ensure_balance_row-there cmd.user_id db in
    elim (apply_locked-Succeeded cmd start (apply-eq-ok cmd db h)) [
      | replays e same ↦
          subst (Remembered cmd r) (sym same) (replayed-Remembered cmd start r keyed there e)
      | applies e a ↦
          main_row-Remembered cmd start db' r keyed
            ((Applied-Extends cmd start db' a).wallets cmd.user_id there) a
    ]

pub run-Remembered :
    (cmd : Command) (rest : List Command) (db : Db) (r : Receipt)
    → Remembered cmd r db
    → Remembered cmd r (run rest db)
run-Remembered cmd rest db r m = record {
  row = m.row;
  found = (run-Extends rest db).keys _ _ _ m.found;
  target = m.target;
  shown = m.shown;
  wallet = (run-Extends rest db).wallets _ m.wallet;
}
