-- ===== src/Identity/Service/Renewals.antt =====
-- Renewals of a session by its refresh token (Refresh of service/identity/service.go).
use web_novel.Common.{
  ◌≡◌, refl, ap, ap₂, subst, Bool-cases, true, false, Option-cases, some, find?, ◌&&◌, inl, inr,
  List, [], All, arith,
}
use web_novel.Common.Int.{◌+ℤ◌, ltb_ℤ}
use web_novel.Common.Text.{Text, text_eq}
use web_novel.Common.Result.{ok, err, is_ok, ◌>>=◌, >>=-eq-ok, ok-injective, Result-cases}
use web_novel.Wallet.Types.{Time}
use web_novel.Identity.Types.{Outcome, is_active, Session, TokenPair, TokenRow, SessionDb}
use web_novel.Identity.Sessions.{
  rotate, rotate_found, succeed_row, insert_token, to_domain_session, new_row, has_hash, is_live,
  StoreCall, call_all,
}
use web_novel.Identity.Sessions.Families.{insert_token-eq-ok}
use web_novel.Identity.Sessions.Spent.{empty_sessions}
use web_novel.Identity.Sessions.Keys.{StoresOther, rotate_once}
use web_novel.Identity.Service.{
  Ports, decode_token, effective_ttl, new_session, token_pair, renew, refresh,
}

bind_fails :
    {A B : Type 0} (m : Outcome A) (f : A → Outcome B) → is_ok m ≡ false → is_ok (m >>= f) ≡ false
bind_fails (ok a) f h = absurd (cc)
bind_fails (err e) f h = refl

-- A renewal that succeeds has exchanged the token.
refresh_rotates :
    (p : Ports) (token agent raw presented : Text) (now : Time) (db db' : SessionDb)
    (pair : TokenPair)
    → decode_token p token ≡ some presented
    → refresh p token agent raw now db ≡ (ok pair, db')
    → (s : Session) × (rotate
          (p.sha256 presented)
          (new_session 0 [] agent (now +ℤ effective_ttl p.refresh_ttl))
          (p.sha256 raw)
          now
          db
        ≡ (ok s, db'))
      × (renew p raw now s ≡ ok pair)
unfolding refresh
refresh_rotates p token agent raw presented now db db' pair decoded h =
    let next = new_session 0 [] agent (now +ℤ effective_ttl p.refresh_ttl) in
    let opened : (let made = rotate (p.sha256 presented) next (p.sha256 raw) now db in
        let out : Outcome TokenPair × SessionDb = (made.0 >>= renew p raw now, made.1) in
        out ≡ (ok pair, db')) =
      rw (refresh, decoded) at h in
    let first = ap (λ (x : Outcome TokenPair × SessionDb). x.0) opened in
    let second = ap (λ (x : Outcome TokenPair × SessionDb). x.1) opened in
    let (s, made, renewed) =
      >>=-eq-ok (rotate (p.sha256 presented) next (p.sha256 raw) now db).0 (renew p raw now)
        first in
    (s, ap₂ (λ (a : Outcome Session) (b : SessionDb). (a, b)) made second, renewed)

-- A refresh token is exchanged once: after any calls of the store from its empty table and a
-- renewal that succeeds, every later renewal with the same token fails, whatever calls come in
-- between, as long as no other token that is stored has the same digest.
pub refresh_once :
    (p : Ports) (before later : List StoreCall) (token agent agent' raw raw' presented : Text)
    (now now' : Time) (db' : SessionDb) (pair : TokenPair)
    → decode_token p token ≡ some presented
    → refresh p token agent raw now (call_all before empty_sessions) ≡ (ok pair, db')
    → text_eq (p.sha256 raw) (p.sha256 presented) ≡ false
    → All (StoresOther (p.sha256 presented)) later
    → is_ok (refresh p token agent' raw' now' (call_all later db')).0 ≡ false
unfolding refresh
refresh_once p before later token agent agent' raw raw' presented now now' db' pair decoded h new
      others =
    let (s, made, renewed) =
      refresh_rotates p token agent raw presented now (call_all before empty_sessions) db' pair
        decoded h in
    let next = new_session 0 [] agent (now +ℤ effective_ttl p.refresh_ttl) in
    let next' = new_session 0 [] agent' (now' +ℤ effective_ttl p.refresh_ttl) in
    let refused =
      rotate_once before later (p.sha256 presented) (p.sha256 raw) (p.sha256 raw') next next' s now
        now' db' made new others in
    rw (refresh, decoded)
      (bind_fails (rotate (p.sha256 presented) next' (p.sha256 raw') now' (call_all later db')).0
        (renew p raw' now') refused)

-- A renewal reads the account of the session.
renew_account :
    (p : Ports) (raw : Text) (now : Time) (s : Session) (pair : TokenPair)
    → renew p raw now s ≡ ok pair
    → (p.get_user_by_id s.user_id ≡ ok pair.user)
      × (is_active pair.user.status ≡ true)
      × (pair.refresh_token ≡ p.base64_encode raw)
unfolding renew
renew_account p raw now s pair h =
    let (user, found, h1) = >>=-eq-ok (p.get_user_by_id s.user_id) _ h in
    elim (Bool-cases (is_active user.status)) [
      | inr away ↦ absurd (ground arith)
      | inl here ↦
          let h2 : (p.issue user now >>= λ access. ok (token_pair p user raw access)) ≡ ok pair =
            ground arith in
          let (access, issued, made) = >>=-eq-ok (p.issue user now) _ h2 in
          subst
            (λ (x : TokenPair).
              (p.get_user_by_id s.user_id ≡ ok x.user)
              × (is_active x.user.status ≡ true)
              × (x.refresh_token ≡ p.base64_encode raw))
            (ok-injective made) (found, here, refl)
    ]

-- The successor of a row belongs to the row's user.
succeed_row-user :
    (row : TokenRow) (next s : Session) (hash : Text) (now : Time) (db db' : SessionDb)
    → succeed_row row next hash now db ≡ (ok s, db')
    → s.user_id ≡ row.user_id
unfolding succeed_row to_domain_session
succeed_row-user row next s hash now db db' h =
    elim (Result-cases (insert_token (new_row row.user_id row.family_id hash next) db)) [
      | inr (e, failed) ↦ absurd (ground arith)
      | inl ((made, db1), inserted) ↦
          let (is_row, on_top, fresh) =
            insert_token-eq-ok (new_row row.user_id row.family_id hash next) made db db1 inserted in
          let same : ok (to_domain_session made) ≡ ok s =
            ap (λ (x : Outcome Session × SessionDb). x.0) (rw (succeed_row, inserted) at h) in
          subst (λ (x : Session). x.user_id ≡ row.user_id) (ok-injective same)
            (ap (λ (x : TokenRow). x.user_id) is_row)
    ]

-- A rotation that succeeds is of a live row of the table that has not expired.
rotate_row :
    (hash next_hash : Text) (next s : Session) (now : Time) (db db' : SessionDb)
    → rotate hash next next_hash now db ≡ (ok s, db')
    → (row : TokenRow) × (find? (has_hash hash) db.tokens ≡ some row)
      × (is_live row ≡ true)
      × (ltb_ℤ now row.expires_at ≡ true)
      × (s.user_id ≡ row.user_id)
unfolding rotate rotate_found
rotate_row hash next_hash next s now db db' h =
    elim (Option-cases (find? (has_hash hash) db.tokens)) [
      | inl missing ↦ absurd (ground arith)
      | inr (row, found) ↦ elim (Bool-cases (is_live row && ltb_ℤ now row.expires_at)) [
        | inr dead ↦ absurd (ground arith)
        | inl good ↦
            let live : is_live row ≡ true = ground arith in
            let fresh : ltb_ℤ now row.expires_at ≡ true = ground arith in
            let succeeded : succeed_row row next next_hash now db ≡ (ok s, db') = ground arith in
            (row, found, live, fresh, succeed_row-user row next s next_hash now db db' succeeded)
      ]
    ]

-- A renewal that succeeds has found the row of the token's digest in the table, live and not
-- expired; the new pair shows the account of that row's user, which is active, and its refresh token
-- is the encoding of the new random bytes.
pub refresh_active :
    (p : Ports) (token agent raw : Text) (now : Time) (db db' : SessionDb) (pair : TokenPair)
    → refresh p token agent raw now db ≡ (ok pair, db')
    → (presented : Text) × (row : TokenRow) × (decode_token p token ≡ some presented)
      × (find? (has_hash (p.sha256 presented)) db.tokens ≡ some row)
      × (is_live row ≡ true)
      × (ltb_ℤ now row.expires_at ≡ true)
      × (p.get_user_by_id row.user_id ≡ ok pair.user)
      × (is_active pair.user.status ≡ true)
      × (pair.refresh_token ≡ p.base64_encode raw)
unfolding refresh
refresh_active p token agent raw now db db' pair h = elim (Option-cases (decode_token p token)) [
  | inl broken ↦ absurd (ground arith)
  | inr (presented, decoded) ↦
      let (s, made, renewed) =
        refresh_rotates p token agent raw presented now db db' pair decoded h in
      let (row, found, live, fresh, same) =
        rotate_row (p.sha256 presented) (p.sha256 raw) _ s now db db' made in
      let (read, active, token_of) = renew_account p raw now s pair renewed in
      let account : p.get_user_by_id row.user_id ≡ ok pair.user = rw (← same) read in
      (presented, row, decoded, found, live, fresh, account, active, token_of)
]
