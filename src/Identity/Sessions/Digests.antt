-- ===== src/Identity/Sessions/Digests.antt =====
-- The digests of the table stay different.
use web_novel.Common.{
  ℕ, ◌≡◌, refl, Bool, Bool-cases, true, false, Option-cases, some, inl, inr, List, [], ◌∷◌, ◌==◌,
  ◌&&◌, not, find?, any, arith,
}
use web_novel.Common.Int.{ltb_ℤ}
use web_novel.Common.Text.{Text, text_eq, text_eq_iff}
use web_novel.Common.Result.{ok, err}
use web_novel.Wallet.Types.{Time}
use web_novel.Identity.Types.{Outcome, Session, TokenRow, SessionDb}
use web_novel.Identity.Sessions.{
  has_hash, is_live, in_family, insert_token, new_row, create, revoke_where, revoke_family,
  replace_row, succeed_row, rotate_found, rotate, revoke_family_by_token, revoke_all_for_user,
  drop_expired, forget_missing, delete_expired, StoreCall, calls_create, calls_rotate, calls_logout,
  calls_revoke_all, calls_sweep, call, call_all,
}
use web_novel.Identity.Sessions.Families.{
  hash_test, live_in, replace_row-live_in, insert_token-eq-ok,
}

-- The digests of the table are all different.
abbrev pub distinct_hashes : List TokenRow → Bool
distinct_hashes [] = true
distinct_hashes (row ∷ rows) =
    let rest = distinct_hashes rows in not (any (has_hash row.token_hash) rows) && rest

no_live_hash :
    (h : Text) (rows : List TokenRow)
    → any (has_hash h) rows ≡ false
    → live_in (hash_test h) rows ≡ false
no_live_hash h [] e = refl
no_live_hash h (row ∷ rows) e = ground (arith, no_live_hash h rows)

replaced_head :
    (h : Text) (successor : ℕ) (now : Time) (r row : TokenRow) (rows : List TokenRow)
    → r ≡ row
    → live_in (hash_test h) (replace_row row.id successor now rows) ≡ false
    → live_in (hash_test h) (replace_row row.id successor now (r ∷ rows)) ≡ false
replaced_head h successor now r row rows same left = ground arith

pub found_has_hash :
    (h : Text) (rows : List TokenRow) (row : TokenRow)
    → find? (has_hash h) rows ≡ some row
    → text_eq row.token_hash h ≡ true
found_has_hash h [] row e = absurd (cc)
found_has_hash h (r ∷ rows) row e = ground (arith, found_has_hash h rows row)

-- Replacing the row of a digest leaves no live row with it.
pub replaced_hash :
    (h : Text) (successor : ℕ) (now : Time) (rows : List TokenRow) (row : TokenRow)
    → distinct_hashes rows ≡ true
    → find? (has_hash h) rows ≡ some row
    → live_in (hash_test h) (replace_row row.id successor now rows) ≡ false
replaced_hash h successor now [] row d e = refl
replaced_hash h successor now (r ∷ rows) row d e = elim (Bool-cases (has_hash h r)) [
  | inl here ↦
      let same : r ≡ row = ground arith in
      let hash_is : r.token_hash ≡ h = (text_eq_iff r.token_hash h).0 here in
      let rest : any (has_hash h) rows ≡ false = rw (← hash_is) (ground arith) in
      let left =
        replace_row-live_in (hash_test h) row.id successor now rows (no_live_hash h rows rest) in
      replaced_head h successor now r row rows same left
  | inr further ↦ ground (arith, replaced_hash h successor now rows row)
]

abbrev pub SameHashes : List TokenRow → List TokenRow → Type 0
SameHashes rows rows' =
    (distinct_hashes rows ≡ true → distinct_hashes rows' ≡ true)
    × ((h : Text) → any (has_hash h) rows ≡ false → any (has_hash h) rows' ≡ false)

revoke_where-SameHashes :
    (test : TokenRow → Bool) (now : Time) (rows : List TokenRow)
    → SameHashes rows (revoke_where test now rows)
revoke_where-SameHashes test now [] = (λ d. d, λ h e. e)
revoke_where-SameHashes test now (row ∷ rows) =
    let (d, a) = revoke_where-SameHashes test now rows in
    (λ e. ground (arith, d, a row.token_hash), λ h e. ground (arith, a h))

replace_row-SameHashes :
    (id successor : ℕ) (now : Time) (rows : List TokenRow)
    → SameHashes rows (replace_row id successor now rows)
replace_row-SameHashes id successor now [] = (λ d. d, λ h e. e)
replace_row-SameHashes id successor now (row ∷ rows) =
    let (d, a) = replace_row-SameHashes id successor now rows in
    (λ e. ground (arith, d, a row.token_hash), λ h e. ground (arith, a h))

drop_expired-SameHashes :
    (before : Time) (rows : List TokenRow) → SameHashes rows (drop_expired before rows)
drop_expired-SameHashes before [] = (λ d. d, λ h e. e)
drop_expired-SameHashes before (row ∷ rows) =
    let (d, a) = drop_expired-SameHashes before rows in
    (λ e. ground (arith, d, a row.token_hash), λ h e. ground (arith, a h))

forget_missing-SameHashes : (kept rows : List TokenRow) → SameHashes rows (forget_missing kept rows)
forget_missing-SameHashes kept [] = (λ d. d, λ h e. e)
forget_missing-SameHashes kept (row ∷ rows) =
    let (d, a) = forget_missing-SameHashes kept rows in
    (λ e. ground (arith, d, a row.token_hash), λ h e. ground (arith, a h))

abbrev pub IsKeyed : SessionDb → Type 0
IsKeyed db = distinct_hashes db.tokens ≡ true

pub insert_token-IsKeyed :
    (row stored : TokenRow) (db db' : SessionDb)
    → IsKeyed db
    → insert_token row db ≡ ok (stored, db')
    → IsKeyed db'
insert_token-IsKeyed row stored db db' k made =
    let (is_row, on_top, fresh) = insert_token-eq-ok row stored db db' made in
    rw (on_top, is_row) (rw (fresh, k) refl)

create-IsKeyed :
    (session : Session) (hash : Text) (db : SessionDb)
    → IsKeyed db
    → IsKeyed (create session hash db).1
unfolding create
create-IsKeyed session hash db k =
    split (insert_token (new_row session.user_id session.family_id hash session) db) refl
  where
    split :
        (out : Outcome (TokenRow × SessionDb))
        → insert_token (new_row session.user_id session.family_id hash session) db ≡ out
        → IsKeyed (create session hash db).1
    split (ok (row, db')) e =
        rw (distinct_hashes, e)
          (insert_token-IsKeyed (new_row session.user_id session.family_id hash session) row db db'
            k e)
    split (err x) e = rw (distinct_hashes, e) k

succeed_row-IsKeyed :
    (current : TokenRow) (next : Session) (hash : Text) (now : Time) (db : SessionDb)
    → IsKeyed db
    → IsKeyed (succeed_row current next hash now db).1
unfolding succeed_row
succeed_row-IsKeyed current next hash now db k =
    split (insert_token (new_row current.user_id current.family_id hash next) db) refl
  where
    split :
        (out : Outcome (TokenRow × SessionDb))
        → insert_token (new_row current.user_id current.family_id hash next) db ≡ out
        → IsKeyed (succeed_row current next hash now db).1
    split (ok (row, db')) e =
        rw (distinct_hashes, e)
          ((replace_row-SameHashes current.id row.id now db'.tokens).0 (
            insert_token-IsKeyed (new_row current.user_id current.family_id hash next) row db db' k
              e))
    split (err x) e = rw (distinct_hashes, e) k

rotate_found-IsKeyed :
    (current : TokenRow) (next : Session) (hash : Text) (now : Time) (db : SessionDb)
    → IsKeyed db
    → IsKeyed (rotate_found current next hash now db).1
unfolding rotate_found revoke_family
rotate_found-IsKeyed current next hash now db k = elim (Bool-cases (is_live current)) [
  | inr dead ↦ rw dead ((revoke_where-SameHashes (in_family current.family_id) now db.tokens).0 k)
  | inl live ↦ elim (Bool-cases (ltb_ℤ now current.expires_at)) [
    | inr late ↦ rw (live, late) k
    | inl due ↦ rw (live, due) (succeed_row-IsKeyed current next hash now db k)
  ]
]

call-IsKeyed : (c : StoreCall) (db : SessionDb) → IsKeyed db → IsKeyed (call c db)
unfolding call rotate revoke_family_by_token revoke_family revoke_all_for_user delete_expired
call-IsKeyed (calls_create session hash) db k = create-IsKeyed session hash db k
call-IsKeyed (calls_revoke_all user now) db k =
    (revoke_where-SameHashes (λ (row : TokenRow). row.user_id == user) now db.tokens).0 k
call-IsKeyed (calls_sweep before) db k =
    (forget_missing-SameHashes (drop_expired before db.tokens) (drop_expired before db.tokens)).0
      ((drop_expired-SameHashes before db.tokens).0 k)
call-IsKeyed (calls_logout hash now) db k = elim (Option-cases (find? (has_hash hash) db.tokens)) [
  | inl nothing ↦ rw (distinct_hashes, nothing) k
  | inr (row, e) ↦
      rw (distinct_hashes, e)
        ((revoke_where-SameHashes (in_family row.family_id) now db.tokens).0 k)
]
call-IsKeyed (calls_rotate hash next next_hash now) db k =
    elim (Option-cases (find? (has_hash hash) db.tokens)) [
      | inl nothing ↦ rw (distinct_hashes, nothing) k
      | inr (row, e) ↦ rw (distinct_hashes, e) (rotate_found-IsKeyed row next next_hash now db k)
    ]

pub call_all-IsKeyed :
    (cs : List StoreCall) (db : SessionDb) → IsKeyed db → IsKeyed (call_all cs db)
unfolding call_all
call_all-IsKeyed [] db k = k
call_all-IsKeyed (c ∷ cs) db k = call_all-IsKeyed cs (call c db) (call-IsKeyed c db k)
