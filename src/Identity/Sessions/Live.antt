-- ===== src/Identity/Sessions/Live.antt =====
-- A family has at most one live token.
use web_novel.Common.{
  ℕ, ◌+◌, ◌≤◌, ◌≡◌, refl, subst, Bool, Bool-cases, true, false, Option-cases, some, inl, inr, List,
  [], ◌∷◌, ◌==◌, if◌then◌else◌, ◌&&◌, find?, any, arith,
}
use web_novel.Common.Int.{ltb_ℤ}
use web_novel.Common.Text.{Text, text_eq, text_eq_iff}
use web_novel.Common.Result.{ok, err}
use web_novel.Wallet.Types.{Time}
use web_novel.Identity.Types.{Outcome, Session, TokenRow, SessionDb}
use web_novel.Identity.Sessions.{
  has_hash, is_live, in_family, insert_token, new_row, create, revoke_where, revoke_family,
  replace_row, succeed_row, rotate_found, rotate, revoke_family_by_token, revoke_all_for_user,
  drop_expired, forget_missing, delete_expired, StoreCall, calls_create, calls_rotate, calls_logout,
  calls_revoke_all, calls_sweep, call, call_all,
}
use web_novel.Identity.Sessions.Families.{insert_token-eq-ok}
use web_novel.Identity.Sessions.Spent.{empty_sessions}

-- The live tokens of a family.
abbrev pub count_live : Text → List TokenRow → ℕ
count_live f [] = 0
count_live f (row ∷ rows) =
    let rest = count_live f rows in if in_family f row && is_live row then rest + 1 else rest

revoke_where-count_live :
    (f : Text) (test : TokenRow → Bool) (now : Time) (rows : List TokenRow)
    → count_live f (revoke_where test now rows) ≤ count_live f rows
revoke_where-count_live f test now [] = omega arith
revoke_where-count_live f test now (row ∷ rows) =
    ground (arith, revoke_where-count_live f test now rows)

replace_row-count_live :
    (f : Text) (id successor : ℕ) (now : Time) (rows : List TokenRow)
    → count_live f (replace_row id successor now rows) ≤ count_live f rows
replace_row-count_live f id successor now [] = omega arith
replace_row-count_live f id successor now (row ∷ rows) =
    ground (arith, replace_row-count_live f id successor now rows)

drop_expired-count_live :
    (f : Text) (before : Time) (rows : List TokenRow)
    → count_live f (drop_expired before rows) ≤ count_live f rows
drop_expired-count_live f before [] = omega arith
drop_expired-count_live f before (row ∷ rows) =
    ground (arith, drop_expired-count_live f before rows)

forget_missing-count_live :
    (f : Text) (kept rows : List TokenRow)
    → count_live f (forget_missing kept rows) ≤ count_live f rows
forget_missing-count_live f kept [] = omega arith
forget_missing-count_live f kept (row ∷ rows) =
    ground (arith, forget_missing-count_live f kept rows)

-- Replacing a live row takes one live token from its family.
replaced-count_live :
    (p : TokenRow → Bool) (successor : ℕ) (now : Time) (rows : List TokenRow) (row : TokenRow)
    → find? p rows ≡ some row
    → is_live row ≡ true
    → count_live row.family_id (replace_row row.id successor now rows) + 1
      ≤ count_live row.family_id rows
replaced-count_live p successor now [] row e live = absurd (cc)
replaced-count_live p successor now (r ∷ rows) row e live = elim (Bool-cases (p r)) [
  | inl here ↦
      let same : r ≡ row = ground arith in
      let own : text_eq row.family_id row.family_id ≡ true =
        (text_eq_iff row.family_id row.family_id).1 refl in
      let rest = replace_row-count_live row.family_id row.id successor now rows in
      rw same (ground arith)
  | inr further ↦ ground (arith, replaced-count_live p successor now rows row)
]

AtMostOne : SessionDb → Type 0
AtMostOne db = (f : Text) → count_live f db.tokens ≤ 1

no_family :
    (f : Text) (rows : List TokenRow) → any (in_family f) rows ≡ false → count_live f rows ≡ 0
no_family f [] e = refl
no_family f (row ∷ rows) e = ground (arith, no_family f rows)

-- A session is opened in a family that the table does not have: its identifier is random.
abbrev pub StartsFresh : StoreCall → SessionDb → Type 0
StartsFresh (calls_create session hash) db = any (in_family session.family_id) db.tokens ≡ false
StartsFresh _ db = Unit

abbrev pub AllFresh : List StoreCall → SessionDb → Type 0
AllFresh [] db = Unit
AllFresh (c ∷ cs) db = StartsFresh c db × AllFresh cs (call c db)

insert_token-count_live :
    (f : Text) (row stored : TokenRow) (db db' : SessionDb)
    → insert_token row db ≡ ok (stored, db')
    → count_live f db'.tokens ≤ count_live f db.tokens + 1
      × (text_eq row.family_id f ≡ false → count_live f db'.tokens ≡ count_live f db.tokens)
insert_token-count_live f row stored db db' made =
    let (is_row, on_top, fresh) = insert_token-eq-ok row stored db db' made in
    rw (on_top, is_row) (ground arith, λ other. rw other refl)

replace_cons-count_live :
    (f : Text) (id successor : ℕ) (now : Time) (row : TokenRow) (rows : List TokenRow)
    → count_live f (replace_row id successor now (row ∷ rows))
      ≤ count_live f (replace_row id successor now rows) + 1
replace_cons-count_live f id successor now row rows = ground arith

succeed_row-AtMostOne :
    (p : TokenRow → Bool) (current : TokenRow) (next : Session) (hash : Text) (now : Time)
    (db : SessionDb)
    → AtMostOne db
    → find? p db.tokens ≡ some current
    → is_live current ≡ true
    → AtMostOne (succeed_row current next hash now db).1
unfolding succeed_row AtMostOne
succeed_row-AtMostOne p current next hash now db one found live f =
    split (insert_token (new_row current.user_id current.family_id hash next) db) refl
  where
    row : TokenRow
    row = new_row current.user_id current.family_id hash next

    split :
        (out : Outcome (TokenRow × SessionDb))
        → insert_token (new_row current.user_id current.family_id hash next) db ≡ out
        → count_live f (succeed_row current next hash now db).1.tokens ≤ 1
    split (err x) e = rw (count_live, e) (one f)
    split (ok (made, db1)) e =
        let (is_row, on_top, fresh) =
          insert_token-eq-ok (new_row current.user_id current.family_id hash next) made db db1 e in
        let (most, other) =
          insert_token-count_live f (new_row current.user_id current.family_id hash next) made db
            db1 e in
        rw (count_live, e)
          (elim (Bool-cases (text_eq current.family_id f)) [
            | inl same ↦
                let is_f : current.family_id ≡ f = (text_eq_iff current.family_id f).0 same in
                let less = replaced-count_live p made.id now db.tokens current found live in
                let less' : count_live f (replace_row current.id made.id now db.tokens) + 1
                    ≤ count_live f db.tokens =
                  subst
                    (λ (x : Text).
                      count_live x (replace_row current.id made.id now db.tokens) + 1
                      ≤ count_live x db.tokens)
                    is_f less in
                let top = replace_cons-count_live f current.id made.id now made db.tokens in
                let all = one f in rw on_top (omega (arith, less', top, all))
            | inr differs ↦
                let all = one f in
                let kept = other differs in
                let less = replace_row-count_live f current.id made.id now db1.tokens in
                omega (arith, all, kept, less)
          ])

create-AtMostOne :
    (session : Session) (hash : Text) (db : SessionDb)
    → any (in_family session.family_id) db.tokens ≡ false
    → AtMostOne db
    → AtMostOne (create session hash db).1
unfolding create AtMostOne
create-AtMostOne session hash db new one f =
    split (insert_token (new_row session.user_id session.family_id hash session) db) refl
  where
    split :
        (out : Outcome (TokenRow × SessionDb))
        → insert_token (new_row session.user_id session.family_id hash session) db ≡ out
        → count_live f (create session hash db).1.tokens ≤ 1
    split (err x) e = rw (count_live, e) (one f)
    split (ok (made, db1)) e =
        let (most, other) =
          insert_token-count_live f (new_row session.user_id session.family_id hash session) made db
            db1 e in
        rw (count_live, e)
          (elim (Bool-cases (text_eq session.family_id f)) [
            | inl same ↦
                let is_f : session.family_id ≡ f = (text_eq_iff session.family_id f).0 same in
                let none_yet : count_live f db.tokens ≡ 0 =
                  no_family f db.tokens
                    (subst (λ (x : Text). any (in_family x) db.tokens ≡ false) is_f new) in
                omega (arith, most, none_yet)
            | inr differs ↦ let all = one f in let kept = other differs in omega (arith, all, kept)
          ])

rotate_found-AtMostOne :
    (p : TokenRow → Bool) (current : TokenRow) (next : Session) (hash : Text) (now : Time)
    (db : SessionDb)
    → AtMostOne db
    → find? p db.tokens ≡ some current
    → AtMostOne (rotate_found current next hash now db).1
unfolding rotate_found revoke_family AtMostOne
rotate_found-AtMostOne p current next hash now db one found f =
    elim (Bool-cases (is_live current)) [
      | inr dead ↦
          let all = one f in
          let less = revoke_where-count_live f (in_family current.family_id) now db.tokens in
          rw (count_live, dead) (omega (arith, all, less))
      | inl live ↦ elim (Bool-cases (ltb_ℤ now current.expires_at)) [
        | inr late ↦ rw (count_live, live, late) (one f)
        | inl due ↦
            rw (count_live, live, due)
              (succeed_row-AtMostOne p current next hash now db one found live f)
      ]
    ]

call-AtMostOne :
    (c : StoreCall) (db : SessionDb) → StartsFresh c db → AtMostOne db → AtMostOne (call c db)
unfolding call rotate revoke_family_by_token revoke_family revoke_all_for_user delete_expired
    AtMostOne
call-AtMostOne (calls_create session hash) db new one f = create-AtMostOne session hash db new one f
call-AtMostOne (calls_revoke_all user now) db new one f =
    let all = one f in
    let less = revoke_where-count_live f (λ (row : TokenRow). row.user_id == user) now db.tokens in
    omega (arith, all, less)
call-AtMostOne (calls_sweep before) db new one f =
    let all = one f in
    let kept = drop_expired before db.tokens in
    let less = drop_expired-count_live f before db.tokens in
    let less' = forget_missing-count_live f kept kept in omega (arith, all, less, less')
call-AtMostOne (calls_logout hash now) db new one f =
    let all = one f in
    elim (Option-cases (find? (has_hash hash) db.tokens)) [
      | inl nothing ↦ rw (count_live, nothing) all
      | inr (row, e) ↦
          let less = revoke_where-count_live f (in_family row.family_id) now db.tokens in
          rw (count_live, e) (omega (arith, all, less))
    ]
call-AtMostOne (calls_rotate hash next next_hash now) db new one f =
    elim (Option-cases (find? (has_hash hash) db.tokens)) [
      | inl nothing ↦ rw (count_live, nothing) (one f)
      | inr (row, e) ↦
          rw (count_live, e)
            (rotate_found-AtMostOne (has_hash hash) row next next_hash now db one e f)
    ]

calls-AtMostOne :
    (cs : List StoreCall) (db : SessionDb)
    → AllFresh cs db
    → AtMostOne db
    → AtMostOne (call_all cs db)
unfolding call_all
calls-AtMostOne [] db new one = one
calls-AtMostOne (c ∷ cs) db new one =
    calls-AtMostOne cs (call c db) new.1 (call-AtMostOne c db new.0 one)

-- A family has at most one live token: from the empty table, after any calls of the store in which
-- every session that is opened starts a family that the table does not have.
pub call_all-count_live :
    (cs : List StoreCall) (f : Text)
    → AllFresh cs empty_sessions
    → count_live f (call_all cs empty_sessions).tokens ≤ 1
unfolding AtMostOne
call_all-count_live cs f new = calls-AtMostOne cs empty_sessions new (λ g. omega arith) f
