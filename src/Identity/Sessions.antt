-- ===== src/Identity/Sessions.antt =====
-- The refresh-token store (repository/identity/sessions.go). Each operation is a transaction: a
-- function from the table to a result and the new table. A family is a UUID, so it is never empty.
pub mod Families
pub mod Spent
pub mod Digests
pub mod Keys
pub mod Live
use web_novel.Common.{
  ℕ, suc, ◌+◌, Bool, true, false, Option, none, some, List, [], ◌∷◌, map, ◌==◌, if◌then◌else◌, ◌&&◌,
  not, find?, any, is_some,
}
use web_novel.Common.Int.{ltb_ℤ}
use web_novel.Common.Text.{Text, text_eq}
use web_novel.Common.Result.{Result, ok, err, ◌>>=◌}
use web_novel.Wallet.Types.{Time}
use web_novel.Wallet.Apply.Rows.{nullable, deref}
use web_novel.Identity.Types.{
  invalid_refresh_token, token_reused, unique_violation, Error, Outcome, Session, TokenRow,
  SessionDb,
}

abbrev pub has_hash : Text → TokenRow → Bool
has_hash hash row = text_eq row.token_hash hash

abbrev pub is_live : TokenRow → Bool
is_live row = not (is_some row.revoked_at)

abbrev pub in_family : Text → TokenRow → Bool
in_family family row = text_eq row.family_id family

unfoldable pub to_domain_session : TokenRow → Session
to_domain_session row = record {
  id = row.id;
  user_id = row.user_id;
  family_id = row.family_id;
  user_agent = deref row.user_agent;
  expires_at = row.expires_at;
  revoked_at = row.revoked_at;
}

-- INSERT, with the unique digest.
unfoldable pub insert_token : TokenRow → SessionDb → Outcome (TokenRow × SessionDb)
insert_token row db =
    let stored = record row { id = db.next_id } in
    if any (has_hash row.token_hash) db.tokens
    then err unique_violation
    else ok (stored, record { tokens = stored ∷ db.tokens; next_id = suc db.next_id })

abbrev pub new_row : ℕ → Text → Text → Session → TokenRow
new_row user family hash session = record {
  id = 0;
  user_id = user;
  family_id = family;
  token_hash = hash;
  user_agent = nullable session.user_agent;
  expires_at = session.expires_at;
  revoked_at = none;
  replaced_by = none;
}

unfoldable pub create : Session → Text → SessionDb → Outcome Session × SessionDb
create session hash db =
    elim (insert_token (new_row session.user_id session.family_id hash session) db) [
      | ok (row, db') ↦ (ok (to_domain_session row), db')
      | err e ↦ (err e, db)
    ]

-- UPDATE … SET revoked_at = now WHERE the test holds AND revoked_at IS NULL
abbrev pub revoke_where : (TokenRow → Bool) → Time → List TokenRow → List TokenRow
revoke_where test now [] = []
revoke_where test now (row ∷ rows) =
    let rest = revoke_where test now rows in
    (if test row && is_live row then record row { revoked_at = some now } else row) ∷ rest

abbrev pub with_tokens : SessionDb → List TokenRow → SessionDb
with_tokens db tokens = record db { tokens = tokens }

unfoldable pub revoke_family : Text → Time → SessionDb → SessionDb
revoke_family family now db = with_tokens db (revoke_where (in_family family) now db.tokens)

-- UPDATE … SET revoked_at, replaced_by WHERE id = …
abbrev pub replace_row : ℕ → ℕ → Time → List TokenRow → List TokenRow
replace_row id successor now [] = []
replace_row id successor now (row ∷ rows) =
    let rest = replace_row id successor now rows in
    (if row.id == id
      then record row { revoked_at = some now; replaced_by = some successor }
      else row)
    ∷ rest

-- The successor of a live token, inside the transaction.
unfoldable pub succeed_row :
    TokenRow → Session → Text → Time → SessionDb → Outcome Session × SessionDb
succeed_row current next next_hash now db =
    elim (insert_token (new_row current.user_id current.family_id next_hash next) db) [
      | err e ↦ (err e, db)
      | ok (made, db') ↦ (
        ok (to_domain_session made),
        with_tokens db' (replace_row current.id made.id now db'.tokens),
      )
    ]

unfoldable pub rotate_found :
    TokenRow → Session → Text → Time → SessionDb → Outcome Session × SessionDb
rotate_found current next next_hash now db =
    if not (is_live current)
    then (err token_reused, revoke_family current.family_id now db)
    else if not (ltb_ℤ now current.expires_at)
    then (err invalid_refresh_token, db)
    else succeed_row current next next_hash now db

-- `Rotate`: an error rolls the transaction back, but the revocation of a family whose token is
-- presented again is committed by itself.
unfoldable pub rotate : Text → Session → Text → Time → SessionDb → Outcome Session × SessionDb
rotate hash next next_hash now db = elim (find? (has_hash hash) db.tokens) [
  | none ↦ (err invalid_refresh_token, db)
  | some current ↦ rotate_found current next next_hash now db
]

unfoldable pub revoke_family_by_token : Text → Time → SessionDb → SessionDb
revoke_family_by_token hash now db = elim (find? (has_hash hash) db.tokens) [
  | none ↦ db
  | some current ↦ revoke_family current.family_id now db
]

unfoldable pub revoke_all_for_user : ℕ → Time → SessionDb → SessionDb
revoke_all_for_user user now db =
    with_tokens db (revoke_where (λ (row : TokenRow). row.user_id == user) now db.tokens)

abbrev pub drop_expired : Time → List TokenRow → List TokenRow
drop_expired before [] = []
drop_expired before (row ∷ rows) =
    let rest = drop_expired before rows in if ltb_ℤ row.expires_at before then rest else row ∷ rest

-- The column `replaced_by` is ON DELETE SET NULL.
abbrev pub surviving : List TokenRow → Option ℕ → Option ℕ
surviving kept none = none
surviving kept (some id) = if any (λ (k : TokenRow). k.id == id) kept then some id else none

abbrev pub forget_missing : List TokenRow → List TokenRow → List TokenRow
forget_missing kept [] = []
forget_missing kept (row ∷ rows) =
    record row { replaced_by = surviving kept row.replaced_by } ∷ forget_missing kept rows

unfoldable pub delete_expired : Time → SessionDb → SessionDb
delete_expired before db =
    let kept = drop_expired before db.tokens in with_tokens db (forget_missing kept kept)

-- The operations of the store, as other code calls them.
pub data StoreCall : Type 0 where
  calls_create : Session → Text → StoreCall
  calls_rotate : Text → Session → Text → Time → StoreCall
  calls_logout : Text → Time → StoreCall
  calls_revoke_all : ℕ → Time → StoreCall
  calls_sweep : Time → StoreCall

unfoldable pub call : StoreCall → SessionDb → SessionDb
call (calls_create session hash) db = (create session hash db).1
call (calls_rotate hash next next_hash now) db = (rotate hash next next_hash now db).1
call (calls_logout hash now) db = revoke_family_by_token hash now db
call (calls_revoke_all user now) db = revoke_all_for_user user now db
call (calls_sweep before) db = delete_expired before db

unfoldable pub call_all : List StoreCall → SessionDb → SessionDb
call_all [] db = db
call_all (c ∷ cs) db = call_all cs (call c db)
