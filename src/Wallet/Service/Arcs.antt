-- ===== src/Wallet/Service/Arcs.antt =====
-- A bundle is answered once per key, and it holds only what the reader may buy.
use web_novel.Common.{
  ℕ, ◌≡◌, refl, sym, ap, subst, ◌∙◌, true, false, Option, none, some, Option-cases, inl, inr, List,
  [], ◌∷◌, is_some, arith,
}
use web_novel.Common.Result.{ok, err, >>=-eq-ok, ok-injective}
use web_novel.Common.Text.{Text, codes, is_empty}
use web_novel.Wallet.Types.{Time, Command, Receipt, Outcome, Balance}
use web_novel.Wallet.Store.{LedgerRow, Db, take_balance}
use web_novel.Wallet.Apply.Rows.{to_domain_ledger, find_by_key, replay_by_key}
use web_novel.Wallet.Books.{run}
use web_novel.Wallet.Once.Applied.{run-Extends}
use web_novel.Wallet.Once.Remembered.{apply-Remembered}
use web_novel.Wallet.Once.Replays.{take_balance-there}
use web_novel.Wallet.Service.{Settings, Repository, namespaced, submit}
use web_novel.Wallet.Service.Bundles.{unlock_arc, unlock_arc_command, quote_arc_bundle}

-- A key of a user finds the row that a receipt shows.
record Finds (user : ℕ) (key : Text) (r : Receipt) (db : Db) : Type 0 where
  row : LedgerRow
  found : find_by_key user key db ≡ some row
  shown : r.ledger ≡ to_domain_ledger row
  wallet : is_some (db.balances user) ≡ true

namespaced_nonempty : (op key : Text) → is_empty key ≡ false → is_empty (namespaced op key) ≡ false
unfolding namespaced
namespaced_nonempty [] key h = rw h refl
namespaced_nonempty (c ∷ op) key h = rw h refl

replay_by_key-answers :
    (user : ℕ) (key : Text) (r : Receipt) (db : Db)
    → is_empty key ≡ false
    → Finds user key r db
    → (b : Balance) × (replay_by_key user key db
        ≡ ok (
            some
              (record { ledger = r.ledger; expiry_ledger = none; balance = b; replayed = true })))
unfolding replay_by_key
replay_by_key-answers user key r db keyed f =
    let (b, taken) = take_balance-there user db f.wallet in
    (b, rw (keyed, f.found, taken, f.shown) refl)

replay_by_key-Finds :
    (user : ℕ) (key : Text) (r : Receipt) (db : Db)
    → is_empty key ≡ false
    → replay_by_key user key db ≡ ok (some r)
    → Finds user key r db
unfolding replay_by_key take_balance
replay_by_key-Finds user key r db keyed h = elim (Option-cases (find_by_key user key db)) [
  | inl nothing ↦ absurd (ground arith)
  | inr (row, e) ↦ record { row = row; found = e; shown = ground arith; wallet = ground arith }
]

-- The command of a bundle is the reader's, under the key.
unlock_arc_command-key :
    (s : Settings) (repo : Repository) (user arc : ℕ) (key : Text) (now : Time) (db : Db)
    {cmd : Command}
    → unlock_arc_command s repo user arc key now db ≡ ok cmd
    → (cmd.user_id ≡ user) × (cmd.idempotency_key ≡ key)
unfolding unlock_arc_command
unlock_arc_command-key s repo user arc key now db h =
    let (q, quoted, rest) = >>=-eq-ok (quote_arc_bundle s repo user arc now db) _ h in
    let same = ok-injective rest in
    (ap (λ (c : Command). c.user_id) (sym same), ap (λ (c : Command). c.idempotency_key) (sym same))

submitted-Finds :
    (user : ℕ) (key : Text) (made : Outcome Command) (db db' : Db) (r : Receipt)
    → is_empty key ≡ false
    → ((cmd : Command) → made ≡ ok cmd → (cmd.user_id ≡ user) × (cmd.idempotency_key ≡ key))
    → submit made db ≡ (ok r, db')
    → Finds user key r db'
submitted-Finds user key (err e) db db' r keyed same h = absurd (ground arith)
submitted-Finds user key (ok cmd) db db' r keyed same h =
    let (u, k) = same cmd refl in
    let m = apply-Remembered cmd db db' r (rw k keyed) h in
    record {
      row = m.row;
      found = rw (← u, ← k) m.found;
      shown = m.shown;
      wallet = rw (← u) m.wallet;
    }

unlock_arc-Finds :
    (s : Settings) (repo : Repository) (user arc : ℕ) (key : Text) (now : Time) (db db' : Db)
    (r : Receipt)
    → is_empty key ≡ false
    → unlock_arc s repo user arc key now db ≡ (ok r, db')
    → Finds user (namespaced (codes "arc_unlock") key) r db'
unfolding unlock_arc
unlock_arc-Finds s repo user arc key now db db' r keyed h =
    split (replay_by_key user full db) refl h
  where
    full : Text
    full = namespaced (codes "arc_unlock") key

    split :
        (looked : Outcome (Option Receipt))
        → replay_by_key user (namespaced (codes "arc_unlock") key) db ≡ looked
        → (let out : Outcome Receipt × Db = elim looked [
          | err e ↦ (err e, db)
          | ok (some replay) ↦ (ok replay, db)
          | ok none ↦
              submit
                (unlock_arc_command s repo user arc (namespaced (codes "arc_unlock") key) now db)
                db
        ] in
            out ≡ (ok r, db'))
        → Finds user (namespaced (codes "arc_unlock") key) r db'
    split (err x) e k = absurd (ground arith)
    split (ok (some replay)) e k =
        let same : replay ≡ r = ground arith in
        let here : db ≡ db' = ap (λ (x : Outcome Receipt × Db). x.1) k in
        subst (Finds user (namespaced (codes "arc_unlock") key) r) here (
          replay_by_key-Finds user (namespaced (codes "arc_unlock") key) r db
            (namespaced_nonempty (codes "arc_unlock") key keyed) (e ∙ ap (λ x. ok (some x)) same))
    split (ok none) e k =
        submitted-Finds user (namespaced (codes "arc_unlock") key)
          (unlock_arc_command s repo user arc (namespaced (codes "arc_unlock") key) now db) db db' r
          (namespaced_nonempty (codes "arc_unlock") key keyed)
          (λ cmd.
            unlock_arc_command-key s repo user arc (namespaced (codes "arc_unlock") key) now db)
          k

-- A bundle is bought once per key: after a purchase of an arc with a key has succeeded, and after
-- any commands that come later, every purchase of the same user under the same key, of whatever arc,
-- at whatever time and prices, gets a receipt that is marked as a replay and shows the first
-- receipt's ledger row, and leaves the tables exactly as they are.
pub unlock_arc_replays :
    (s s' : Settings) (repo repo' : Repository) (user arc arc' : ℕ) (key : Text) (now now' : Time)
    (rest : List Command) (db db' : Db) (r : Receipt)
    → is_empty key ≡ false
    → unlock_arc s repo user arc key now db ≡ (ok r, db')
    → (b : Balance) × (unlock_arc s' repo' user arc' key now' (run rest db') ≡ (
      ok (record { ledger = r.ledger; expiry_ledger = none; balance = b; replayed = true }),
      run rest db',
    ))
unfolding unlock_arc
unlock_arc_replays s s' repo repo' user arc arc' key now now' rest db db' r keyed h =
    let f = unlock_arc-Finds s repo user arc key now db db' r keyed h in
    let grows = run-Extends rest db' in
    let later : Finds user (namespaced (codes "arc_unlock") key) r (run rest db') = record {
      row = f.row;
      found = grows.keys _ _ _ f.found;
      shown = f.shown;
      wallet = grows.wallets _ f.wallet;
    } in
    let (b, answers) =
      replay_by_key-answers user (namespaced (codes "arc_unlock") key) r (run rest db')
        (namespaced_nonempty (codes "arc_unlock") key keyed) later in
    (b, rw (unlock_arc, answers) refl)
