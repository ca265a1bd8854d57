-- ===== src/Wallet/Once/Unlocks.antt =====
-- The commands that pay for a chapter, by itself or in a bundle (repository/wallet/apply.go).
use web_novel.Common.{
  ℕ, ◌≡◌, refl, subst, Bool, Bool-cases, true, false, is_some, inl, inr, List, [], ◌∷◌, ◌==◌, any,
  arith,
}
use web_novel.Common.Result.{ok, err, is_ok, >>=-eq-ok}
use web_novel.Wallet.Types.{
  Command, Receipt, Outcome, LedgerEntry, ChildItem, ChildWrite, ChildKind, child_none,
  child_chapter_unlock, child_purchase_complete, child_arc_bundle, child_tip,
}
use web_novel.Wallet.Store.{Db, unlocked, ensure_balance_row}
use web_novel.Wallet.Apply.Checks.{any_owned, check_child, check_child_preconditions}
use web_novel.Wallet.Apply.Children.{item_earnings, write_kind, write_child}
use web_novel.Wallet.Apply.{apply_locked, apply}
use web_novel.Wallet.Books.{run}
use web_novel.Wallet.Books.Writes.{on_unique-eq-ok}
use web_novel.Wallet.Once.Growth.{
  write_unlock-Extends, item_unlocks-unlocked, create_earnings-Extends,
}
use web_novel.Wallet.Once.Applied.{
  Applied, Applied-Extends, replays, applies, apply_locked-Succeeded, apply-eq-ok, run-Extends,
  ensure_balance_row-there,
}
use web_novel.Wallet.Once.Remembered.{replay_of-replayed}
use web_novel.Wallet.Once.Replays.{ensure_balance_row-idle}

-- Does a child write pay for a chapter: by itself, or among the items of a bundle?
abbrev pub child_pays_for : ℕ → ChildKind → ChildWrite → Bool
child_pays_for chapter child_chapter_unlock child = child.chapter_id == chapter
child_pays_for chapter child_arc_bundle child =
    any (λ (i : ChildItem). i.chapter_id == chapter) child.items
child_pays_for chapter _ child = false

abbrev pub pays_for : ℕ → Command → Bool
pays_for chapter cmd = child_pays_for chapter cmd.child.kind cmd.child

-- A child that pays for a chapter leaves it unlocked.
write_kind-unlocked :
    (k : ChildKind) (cmd : Command) (id chapter : ℕ) (entry : LedgerEntry) (db db' : Db)
    → child_pays_for chapter k cmd.child ≡ true
    → write_kind k cmd id entry db ≡ ok db'
    → unlocked cmd.user_id chapter db' ≡ true
unfolding write_kind
write_kind-unlocked child_chapter_unlock cmd id chapter entry db db' pays e =
    let same : cmd.child.chapter_id ≡ chapter = ground arith in
    subst (λ (c : ℕ). unlocked cmd.user_id c db' ≡ true) same
      (write_unlock-Extends cmd id entry db {db' = db'} e).1
write_kind-unlocked child_arc_bundle cmd id chapter entry db db' pays e =
    let (mid, first, rest) = >>=-eq-ok _ _ e in
    (create_earnings-Extends (item_earnings cmd id cmd.child.items) mid {db' = db'} rest).unlocks
      cmd.user_id chapter
      (item_unlocks-unlocked cmd id chapter cmd.child.items db {db' = mid}
        (on_unique-eq-ok _ _ first) pays)
write_kind-unlocked child_none cmd id chapter entry db db' pays e = absurd (cc)
write_kind-unlocked child_tip cmd id chapter entry db db' pays e = absurd (cc)
write_kind-unlocked child_purchase_complete cmd id chapter entry db db' pays e = absurd (cc)

owned_item :
    (user chapter : ℕ) (db : Db) (items : List ChildItem)
    → unlocked user chapter db ≡ true
    → any (λ (i : ChildItem). i.chapter_id == chapter) items ≡ true
    → any_owned user db items ≡ true
owned_item user chapter db [] u pays = absurd (cc)
owned_item user chapter db (item ∷ items) u pays = elim (Bool-cases (item.chapter_id == chapter)) [
  | inl here ↦ let same : item.chapter_id ≡ chapter = ground arith in rw (same, u) refl
  | inr other ↦ let rest = owned_item user chapter db items u (rw other at pays) in ground arith
]

-- A child that pays for a chapter that is unlocked is refused.
refused :
    (k : ChildKind) (cmd : Command) (chapter : ℕ) (db : Db)
    → child_pays_for chapter k cmd.child ≡ true
    → unlocked cmd.user_id chapter db ≡ true
    → is_ok (check_child k cmd db) ≡ false
unfolding check_child
refused child_chapter_unlock cmd chapter db pays u =
    let same : cmd.child.chapter_id ≡ chapter = ground arith in rw (check_child, same, u) refl
refused child_arc_bundle cmd chapter db pays u =
    let owned = owned_item cmd.user_id chapter db cmd.child.items u pays in ground arith
refused child_none cmd chapter db pays u = absurd (cc)
refused child_tip cmd chapter db pays u = absurd (cc)
refused child_purchase_complete cmd chapter db pays u = absurd (cc)

pub unlock_there :
    (cmd : Command) (chapter : ℕ) (db db' : Db) {r : Receipt}
    → pays_for chapter cmd ≡ true
    → Applied cmd db r db'
    → unlocked cmd.user_id chapter db' ≡ true
unfolding write_child
unlock_there cmd chapter db db' k a =
    write_kind-unlocked cmd.child.kind cmd a.main.id chapter a.plan.entry a.settled db' k a.wrote

no_second_unlock :
    (cmd : Command) (chapter : ℕ) (db db' : Db) {r : Receipt}
    → pays_for chapter cmd ≡ true
    → unlocked cmd.user_id chapter db ≡ true
    → Applied cmd db r db'
    → ⊥
unfolding check_child_preconditions
no_second_unlock cmd chapter db db' k u a =
    absurd (ground (arith, a.checked, refused cmd.child.kind cmd chapter db k u))

pub not_unlocked :
    (cmd : Command) (chapter : ℕ) (db db' : Db) {r : Receipt}
    → pays_for chapter cmd ≡ true
    → Applied cmd db r db'
    → unlocked cmd.user_id chapter db ≡ false
not_unlocked cmd chapter db db' k a = elim (Bool-cases (unlocked cmd.user_id chapter db)) [
  | inl u ↦ absurd (no_second_unlock cmd chapter db db' k u a)
  | inr none_yet ↦ none_yet
]

-- What the first unlock leaves: its wallet and the unlock.
first_unlock :
    (cmd : Command) (chapter : ℕ) (db db' : Db) (r : Receipt)
    → pays_for chapter cmd ≡ true
    → apply cmd db ≡ (ok r, db')
    → r.replayed ≡ false
    → (is_some (db'.balances cmd.user_id) ≡ true) × (unlocked cmd.user_id chapter db' ≡ true)
first_unlock cmd chapter db db' r k h new =
    let start = ensure_balance_row cmd.user_id db in
    elim (apply_locked-Succeeded cmd start (apply-eq-ok cmd db h)) [
      | replays e same ↦ absurd (ground (arith, replay_of-replayed cmd start e))
      | applies e a ↦ (
        (Applied-Extends cmd start db' a).wallets cmd.user_id
            (ensure_balance_row-there cmd.user_id db),
        unlock_there cmd chapter start db' k a,
      )
    ]

-- A chapter is paid for once: after a command that was applied and that paid for a chapter, by itself
-- or in a bundle, and after any commands that come later, every command of the same user that pays
-- for the same chapter, by itself or in a bundle, whatever its key, its price and its answer, leaves
-- the tables exactly as they are.
pub apply_unlock_once :
    (cmd cmd' : Command) (chapter : ℕ) (rest : List Command) (db db' : Db) (r : Receipt)
    → pays_for chapter cmd ≡ true
    → apply cmd db ≡ (ok r, db')
    → r.replayed ≡ false
    → pays_for chapter cmd' ≡ true
    → cmd'.user_id ≡ cmd.user_id
    → (apply cmd' (run rest db')).1 ≡ run rest db'
unfolding apply
apply_unlock_once cmd cmd' chapter rest db db' r k h new k' same_user =
    let (wallet, there) = first_unlock cmd chapter db db' r k h new in
    let now = run rest db' in
    let wallet' : is_some (now.balances cmd'.user_id) ≡ true =
      rw same_user ((run-Extends rest db').wallets _ wallet) in
    let there' : unlocked cmd'.user_id chapter now ≡ true =
      rw same_user ((run-Extends rest db').unlocks _ _ there) in
    rw (apply, ensure_balance_row-idle cmd'.user_id now wallet')
      (again now there' (apply_locked cmd' now) refl)
  where
    again :
        (now : Db)
        → unlocked cmd'.user_id chapter now ≡ true
        → (out : Outcome (Receipt × Db)) → apply_locked cmd' now ≡ out
        → let after : Outcome Receipt × Db = elim out [
          | ok (r1, db1) ↦ (ok r1, db1)
          | err e ↦ (err e, now)
        ] in
          after.1 ≡ now
    again now u (err e) o = refl
    again now u (ok (r1, db1)) o = elim (apply_locked-Succeeded cmd' now o) [
      | replays e same ↦ same
      | applies e a ↦ absurd (no_second_unlock cmd' chapter now db1 k' u a)
    ]
