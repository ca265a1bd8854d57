-- ===== src/Identity/Sessions/Families.antt =====
-- What revocation leaves behind: tests on a row's family and digest that no live row meets.
use web_novel.Common.{
  ℕ, ◌≡◌, refl, Bool, Bool-cases, true, false, Option-cases, some, inl, inr, List, [], ◌∷◌, ◌==◌,
  ◌&&◌, ◌||◌, find?, any, All, arith,
}
use web_novel.Common.Int.{ltb_ℤ}
use web_novel.Common.Text.{Text, text_eq}
use web_novel.Common.Result.{ok, err}
use web_novel.Wallet.Types.{Time}
use web_novel.Identity.Types.{Outcome, Session, TokenRow, SessionDb}
use web_novel.Identity.Sessions.{
  has_hash, is_live, in_family, insert_token, new_row, create, revoke_where, revoke_family,
  replace_row, succeed_row, rotate_found, rotate, revoke_family_by_token, revoke_all_for_user,
  drop_expired, forget_missing, delete_expired, StoreCall, calls_create, calls_rotate, calls_logout,
  calls_revoke_all, calls_sweep, call, call_all,
}

-- A test on a row's family and digest.
abbrev pub RowTest : Type 0
RowTest = Text → Text → Bool

abbrev pub family_test : Text → RowTest
family_test f family hash = text_eq family f

abbrev pub hash_test : Text → RowTest
hash_test h family hash = text_eq hash h

-- Does a live row meet the test?
abbrev pub live_in : RowTest → List TokenRow → Bool
live_in t [] = false
live_in t (row ∷ rows) =
    let rest = live_in t rows in (t row.family_id row.token_hash && is_live row) || rest

pub revoke_where-live_in :
    (t : RowTest) (test : TokenRow → Bool) (now : Time) (rows : List TokenRow)
    → live_in t rows ≡ false
    → live_in t (revoke_where test now rows) ≡ false
revoke_where-live_in t test now [] h = refl
revoke_where-live_in t test now (row ∷ rows) h =
    ground (arith, revoke_where-live_in t test now rows)

pub replace_row-live_in :
    (t : RowTest) (id successor : ℕ) (now : Time) (rows : List TokenRow)
    → live_in t rows ≡ false
    → live_in t (replace_row id successor now rows) ≡ false
replace_row-live_in t id successor now [] h = refl
replace_row-live_in t id successor now (row ∷ rows) h =
    ground (arith, replace_row-live_in t id successor now rows)

drop_expired-live_in :
    (t : RowTest) (before : Time) (rows : List TokenRow)
    → live_in t rows ≡ false
    → live_in t (drop_expired before rows) ≡ false
drop_expired-live_in t before [] h = refl
drop_expired-live_in t before (row ∷ rows) h = ground (arith, drop_expired-live_in t before rows)

forget_missing-live_in :
    (t : RowTest) (kept rows : List TokenRow)
    → live_in t rows ≡ false
    → live_in t (forget_missing kept rows) ≡ false
forget_missing-live_in t kept [] h = refl
forget_missing-live_in t kept (row ∷ rows) h = ground (arith, forget_missing-live_in t kept rows)

pub revoke_family-ends :
    (f : Text) (now : Time) (rows : List TokenRow)
    → live_in (family_test f) (revoke_where (in_family f) now rows) ≡ false
revoke_family-ends f now [] = refl
revoke_family-ends f now (row ∷ rows) = ground (arith, revoke_family-ends f now rows)

-- A row that is found is not live where no live row meets the test that it meets.
pub found_dead :
    (t : RowTest) (p : TokenRow → Bool) (rows : List TokenRow) (row : TokenRow)
    → live_in t rows ≡ false
    → find? p rows ≡ some row
    → t row.family_id row.token_hash ≡ true
    → is_live row ≡ false
found_dead t p [] row h e k = absurd (cc)
found_dead t p (r ∷ rows) row h e k = ground (arith, found_dead t p rows row)

-- A call that adds no row that meets the test, where the rows that it succeeds do not meet it.
abbrev pub Avoids : RowTest → StoreCall → Type 0
Avoids t (calls_create session hash) = t session.family_id hash ≡ false
Avoids t (calls_rotate hash next next_hash now) =
    (family old : Text) → t family old ≡ false → t family next_hash ≡ false
Avoids t _ = Unit

-- What inserting a row does.
pub insert_token-eq-ok :
    (row stored : TokenRow) (db db' : SessionDb)
    → insert_token row db ≡ ok (stored, db')
    → (stored ≡ record row { id = db.next_id })
      × (db'.tokens ≡ stored ∷ db.tokens)
      × (any (has_hash row.token_hash) db.tokens ≡ false)
unfolding insert_token
insert_token-eq-ok row stored db db' h = ground arith

-- A row that does not meet the test leaves the rows that do as they were.
inserted-live_in :
    (t : RowTest) (row : TokenRow) (stored : TokenRow) (db db' : SessionDb)
    → t row.family_id row.token_hash ≡ false
    → live_in t db.tokens ≡ false
    → insert_token row db ≡ ok (stored, db')
    → live_in t db'.tokens ≡ false
inserted-live_in t row stored db db' new h made =
    let (is_row, on_top, fresh) = insert_token-eq-ok row stored db db' made in
    rw (on_top, is_row) (rw (new, h) refl)

create-live_in :
    (t : RowTest) (session : Session) (hash : Text) (db : SessionDb)
    → t session.family_id hash ≡ false
    → live_in t db.tokens ≡ false
    → live_in t (create session hash db).1.tokens ≡ false
unfolding create
create-live_in t session hash db new h =
    split (insert_token (new_row session.user_id session.family_id hash session) db) refl
  where
    split :
        (out : Outcome (TokenRow × SessionDb))
        → insert_token (new_row session.user_id session.family_id hash session) db ≡ out
        → live_in t (create session hash db).1.tokens ≡ false
    split (ok (row, db')) e =
        rw (live_in, e)
          (inserted-live_in t (new_row session.user_id session.family_id hash session) row db db'
            new h e)
    split (err x) e = rw (live_in, e) h

succeed_row-live_in :
    (t : RowTest) (current : TokenRow) (next : Session) (hash : Text) (now : Time) (db : SessionDb)
    → t current.family_id hash ≡ false
    → live_in t db.tokens ≡ false
    → live_in t (succeed_row current next hash now db).1.tokens ≡ false
unfolding succeed_row
succeed_row-live_in t current next hash now db new h =
    split (insert_token (new_row current.user_id current.family_id hash next) db) refl
  where
    split :
        (out : Outcome (TokenRow × SessionDb))
        → insert_token (new_row current.user_id current.family_id hash next) db ≡ out
        → live_in t (succeed_row current next hash now db).1.tokens ≡ false
    split (ok (row, db')) e =
        rw (live_in, e)
          (replace_row-live_in t current.id row.id now db'.tokens (
            inserted-live_in t (new_row current.user_id current.family_id hash next) row db db' new
              h e))
    split (err x) e = rw (live_in, e) h

rotate_found-live_in :
    (t : RowTest) (current : TokenRow) (next : Session) (hash : Text) (now : Time) (db : SessionDb)
    → (is_live current ≡ true → t current.family_id current.token_hash ≡ false)
    → (t current.family_id current.token_hash ≡ false → t current.family_id hash ≡ false)
    → live_in t db.tokens ≡ false
    → live_in t (rotate_found current next hash now db).1.tokens ≡ false
unfolding rotate_found revoke_family
rotate_found-live_in t current next hash now db spent new h = elim (Bool-cases (is_live current)) [
  | inr dead ↦ rw dead (revoke_where-live_in t (in_family current.family_id) now db.tokens h)
  | inl live ↦ elim (Bool-cases (ltb_ℤ now current.expires_at)) [
    | inr late ↦ rw (live, late) h
    | inl due ↦ rw (live, due) (succeed_row-live_in t current next hash now db (new (spent live)) h)
  ]
]

live_found :
    (t : RowTest) (p : TokenRow → Bool) (rows : List TokenRow) (row : TokenRow)
    → live_in t rows ≡ false
    → find? p rows ≡ some row
    → is_live row ≡ true
    → t row.family_id row.token_hash ≡ false
live_found t p rows row h e live = elim (Bool-cases (t row.family_id row.token_hash)) [
  | inr other ↦ other
  | inl meets ↦ absurd (ground (arith, found_dead t p rows row h e meets))
]

-- No call of the store revives what no live row meets.
call-live_in :
    (t : RowTest) (c : StoreCall) (db : SessionDb)
    → Avoids t c
    → live_in t db.tokens ≡ false
    → live_in t (call c db).tokens ≡ false
unfolding call rotate revoke_family_by_token revoke_family revoke_all_for_user delete_expired
call-live_in t (calls_create session hash) db a h = create-live_in t session hash db a h
call-live_in t (calls_revoke_all user now) db a h =
    revoke_where-live_in t (λ (row : TokenRow). row.user_id == user) now db.tokens h
call-live_in t (calls_sweep before) db a h =
    forget_missing-live_in t (drop_expired before db.tokens) (drop_expired before db.tokens)
      (drop_expired-live_in t before db.tokens h)
call-live_in t (calls_logout hash now) db a h =
    elim (Option-cases (find? (has_hash hash) db.tokens)) [
      | inl nothing ↦ rw (live_in, nothing) h
      | inr (row, e) ↦
          rw (live_in, e) (revoke_where-live_in t (in_family row.family_id) now db.tokens h)
    ]
call-live_in t (calls_rotate hash next next_hash now) db a h =
    elim (Option-cases (find? (has_hash hash) db.tokens)) [
      | inl nothing ↦ rw (live_in, nothing) h
      | inr (row, e) ↦
          rw (live_in, e)
            (rotate_found-live_in t row next next_hash now db
              (live_found t (has_hash hash) db.tokens row h e) (a row.family_id row.token_hash) h)
    ]

pub call_all-live_in :
    (t : RowTest) (cs : List StoreCall) (db : SessionDb)
    → All (Avoids t) cs
    → live_in t db.tokens ≡ false
    → live_in t (call_all cs db).tokens ≡ false
unfolding call_all
call_all-live_in t [] db a h = h
call_all-live_in t (c ∷ cs) db a h =
    call_all-live_in t cs (call c db) a.1 (call-live_in t c db a.0 h)
