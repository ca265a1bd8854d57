-- ===== src/Tests/Sessions.antt =====
-- The sessions of user 7: two families, whose digests are texts of one letter.
use web_novel.Common.{
  ℕ, ◌≡◌, ◌≤◌, ◌==◌, refl, some, none, List, [], ◌∷◌, All, true, false, if◌then◌else◌, find?,
}
use web_novel.Common.Int.{pos, ◌+ℤ◌, ltb_ℤ}
use web_novel.Common.Text.{Text, codes, text_eq}
use web_novel.Common.Result.{ok, err, is_ok}
use web_novel.Identity.Types.{
  not_found, token_reused, active, User, Session, TokenPair, TokenRow, SessionDb, is_active,
}
use web_novel.Identity.Sessions.{
  to_domain_session, insert_token, create, revoke_family, succeed_row, rotate_found, rotate,
  revoke_family_by_token, revoke_all_for_user, delete_expired, StoreCall, calls_create,
  calls_rotate, call, call_all, has_hash, is_live,
}
use web_novel.Identity.Sessions.Spent.{empty_sessions, StartsOther, rotate_reused_ends, logout_ends}
use web_novel.Identity.Sessions.Keys.{StoresOther}
use web_novel.Identity.Sessions.Live.{count_live, AllFresh, call_all-count_live}
use web_novel.Identity.Service.{Ports, refresh, renew, decode_token, effective_ttl, new_session}
use web_novel.Identity.Service.Renewals.{refresh_once, refresh_active}

abbrev session : Text → Session
session family = new_session 7 family [] (pos 100)

-- Family f: token a, exchanged for b; family g: token x.
abbrev history : List StoreCall
history =
    calls_create (session (codes "f")) (codes "a")
    ∷ calls_rotate (codes "a") (session []) (codes "b") (pos 10)
    ∷ calls_create (session (codes "g")) (codes "x")
    ∷ []

abbrev db : SessionDb
db = call_all history empty_sessions

abbrev row_a : TokenRow
row_a = record {
  id = 1;
  user_id = 7;
  family_id = codes "f";
  token_hash = codes "a";
  user_agent = none;
  expires_at = pos 100;
  revoked_at = some (pos 10);
  replaced_by = some 2;
}

abbrev row_b : TokenRow
row_b = record {
  id = 2;
  user_id = 7;
  family_id = codes "f";
  token_hash = codes "b";
  user_agent = none;
  expires_at = pos 100;
  revoked_at = none;
  replaced_by = none;
}

abbrev revoked_at : ℕ → TokenRow → TokenRow
revoked_at now row = record row { revoked_at = some (pos now) }

-- What the store is asked for later.
abbrev later : List StoreCall
later =
    calls_create (session (codes "h")) (codes "y")
    ∷ calls_rotate (codes "x") (session []) (codes "z") (pos 30)
    ∷ []

-- The tables after token a has been presented again.
abbrev ended : SessionDb
ended = (rotate (codes "a") (session []) (codes "c") (pos 20) db).1

reused : rotate (codes "a") (session []) (codes "c") (pos 20) db ≡ (err token_reused, ended)
unfolding call_all call create rotate rotate_found succeed_row insert_token to_domain_session
    revoke_family revoke_family_by_token delete_expired revoke_all_for_user text_eq ◌+ℤ◌
reused = refl

found_a : find? (has_hash (codes "a")) db.tokens ≡ some row_a
unfolding call_all call create rotate rotate_found succeed_row insert_token to_domain_session
    revoke_family revoke_family_by_token delete_expired revoke_all_for_user text_eq ◌+ℤ◌
found_a = refl

later_b : find? (has_hash (codes "b")) (call_all later ended).tokens ≡ some (revoked_at 20 row_b)
unfolding call_all call create rotate rotate_found succeed_row insert_token to_domain_session
    revoke_family revoke_family_by_token delete_expired revoke_all_for_user text_eq ◌+ℤ◌
later_b = refl

later_starts_others : All (StartsOther (codes "f")) later
unfolding text_eq
later_starts_others = (refl, (tt, tt))

rotate_reused_ends_example :
    (rotate (codes "b") (session []) (codes "d") (pos 40) (call_all later ended)).0
    ≡ err token_reused
rotate_reused_ends_example =
    rotate_reused_ends (codes "a") (codes "c") (session []) (pos 20) row_a db ended later
      (codes "b") (codes "d") (session []) (pos 40) (revoked_at 20 row_b) reused found_a
      later_starts_others later_b refl

found_b : find? (has_hash (codes "b")) db.tokens ≡ some row_b
unfolding call_all call create rotate rotate_found succeed_row insert_token to_domain_session
    revoke_family revoke_family_by_token delete_expired revoke_all_for_user text_eq ◌+ℤ◌
found_b = refl

logged_out_b :
    find?
      (has_hash (codes "b"))
      (call_all later (revoke_family_by_token (codes "b") (pos 20) db)).tokens
    ≡ some (revoked_at 20 row_b)
unfolding call_all call create rotate rotate_found succeed_row insert_token to_domain_session
    revoke_family revoke_family_by_token delete_expired revoke_all_for_user text_eq ◌+ℤ◌
logged_out_b = refl

logout_ends_example :
    (rotate
      (codes "b")
      (session [])
      (codes "d")
      (pos 40)
      (call_all later (revoke_family_by_token (codes "b") (pos 20) db))).0
    ≡ err token_reused
logout_ends_example =
    logout_ends (codes "b") (pos 20) row_b db later (codes "b") (codes "d") (session []) (pos 40)
      (revoked_at 20 row_b) found_b later_starts_others logged_out_b refl

history_fresh : AllFresh history empty_sessions
unfolding call_all call create rotate rotate_found succeed_row insert_token to_domain_session
    revoke_family revoke_family_by_token delete_expired revoke_all_for_user text_eq ◌+ℤ◌
history_fresh = (refl, (tt, (refl, tt)))

call_all-count_live_example : count_live (codes "f") db.tokens ≤ 1
call_all-count_live_example = call_all-count_live history (codes "f") history_fresh

-- A client's token is its digest here, and the encoding is the identity.
abbrev user : User
user = record {
  id = 7;
  username = codes "u";
  email = [];
  display_name = [];
  avatar_url = [];
  roles = [];
  status = active;
  created_at = pos 0;
}

abbrev ports : Ports
ports = record {
  get_user_by_email = λ email. err not_found;
  get_user_by_id = λ id. if id == 7 then ok user else err not_found;
  verify = λ password hash. text_eq password hash;
  issue = λ u now. ok (codes "jwt", now);
  base64_decode = λ t. some t;
  base64_encode = λ t. t;
  sha256 = λ t. t;
  refresh_ttl = pos 50;
}

abbrev pair : TokenPair
pair = record {
  access_token = codes "jwt";
  refresh_token = codes "c";
  expires_at = pos 20;
  user = user;
}

abbrev renewed_db : SessionDb
renewed_db = (refresh ports (codes "b") [] (codes "c") (pos 20) (call_all history empty_sessions)).1

b_decoded : decode_token ports (codes "b") ≡ some (codes "b")
unfolding decode_token
b_decoded = refl

renewed :
    refresh ports (codes "b") [] (codes "c") (pos 20) (call_all history empty_sessions)
    ≡ (ok pair, renewed_db)
unfolding call_all call create rotate rotate_found succeed_row insert_token to_domain_session
    revoke_family revoke_family_by_token delete_expired revoke_all_for_user text_eq ◌+ℤ◌ refresh
    renew decode_token effective_ttl
renewed = refl

differs : text_eq (codes "c") (codes "b") ≡ false
unfolding text_eq
differs = refl

later_stores_others : All (StoresOther (codes "b")) later
unfolding text_eq
later_stores_others = (refl, (refl, tt))

refresh_once_example :
    is_ok (refresh ports (codes "b") [] (codes "d") (pos 40) (call_all later renewed_db)).0 ≡ false
refresh_once_example =
    refresh_once ports history later (codes "b") [] [] (codes "c") (codes "d") (codes "b") (pos 20)
      (pos 40) renewed_db pair b_decoded renewed differs later_stores_others

refresh_active_example :
    (presented : Text) × (row : TokenRow) × (decode_token ports (codes "b") ≡ some presented)
    × (find? (has_hash (ports.sha256 presented)) (call_all history empty_sessions).tokens
        ≡ some row)
    × (is_live row ≡ true)
    × (ltb_ℤ (pos 20) row.expires_at ≡ true)
    × (ports.get_user_by_id row.user_id ≡ ok pair.user)
    × (is_active (pair.user).status ≡ true)
    × (pair.refresh_token ≡ ports.base64_encode (codes "c"))
refresh_active_example =
    refresh_active ports (codes "b") [] (codes "c") (pos 20) (call_all history empty_sessions)
      renewed_db pair renewed
