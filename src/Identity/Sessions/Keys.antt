-- ===== src/Identity/Sessions/Keys.antt =====
-- A token that is succeeded is spent for good.
use web_novel.Common.{
  ◌≡◌, refl, ap, subst, Bool-cases, false, Option-cases, some, inl, inr, List, [], ◌∷◌, find?, All,
  arith,
}
use web_novel.Common.Int.{ltb_ℤ}
use web_novel.Common.Text.{Text, text_eq}
use web_novel.Common.Result.{ok, err, is_ok}
use web_novel.Wallet.Types.{Time}
use web_novel.Identity.Types.{Outcome, Session, TokenRow, SessionDb}
use web_novel.Identity.Sessions.{
  to_domain_session, has_hash, is_live, insert_token, new_row, with_tokens, replace_row,
  succeed_row, rotate_found, rotate, StoreCall, calls_create, calls_rotate, calls_logout,
  calls_revoke_all, calls_sweep, call_all,
}
use web_novel.Identity.Sessions.Families.{
  hash_test, live_in, found_dead, Avoids, insert_token-eq-ok, call_all-live_in,
}
use web_novel.Identity.Sessions.Spent.{empty_sessions}
use web_novel.Identity.Sessions.Digests.{
  found_has_hash, replaced_hash, IsKeyed, insert_token-IsKeyed, call_all-IsKeyed,
}

-- A call that stores another digest.
abbrev pub StoresOther : Text → StoreCall → Type 0
StoresOther h (calls_create session hash) = text_eq hash h ≡ false
StoresOther h (calls_rotate hash next next_hash now) = text_eq next_hash h ≡ false
StoresOther h _ = Unit

StoresOther-Avoids :
    (h : Text) (cs : List StoreCall) → All (StoresOther h) cs → All (Avoids (hash_test h)) cs
StoresOther-Avoids h [] a = tt
StoresOther-Avoids h (calls_create session hash ∷ cs) a = (a.0, StoresOther-Avoids h cs a.1)
StoresOther-Avoids h (calls_rotate hash next next_hash now ∷ cs) a =
    (λ family old e. a.0, StoresOther-Avoids h cs a.1)
StoresOther-Avoids h (calls_logout hash now ∷ cs) a = (tt, StoresOther-Avoids h cs a.1)
StoresOther-Avoids h (calls_revoke_all user now ∷ cs) a = (tt, StoresOther-Avoids h cs a.1)
StoresOther-Avoids h (calls_sweep before ∷ cs) a = (tt, StoresOther-Avoids h cs a.1)

-- The rows after a token has been succeeded.
succeeded_hash :
    (h : Text) (row : TokenRow) (next : Session) (hash : Text) (now : Time) (db db' : SessionDb)
    (s : Session)
    → text_eq hash h ≡ false
    → IsKeyed db
    → find? (has_hash h) db.tokens ≡ some row
    → succeed_row row next hash now db ≡ (ok s, db')
    → live_in (hash_test h) db'.tokens ≡ false
unfolding succeed_row
succeeded_hash h row next hash now db db' s new k found made =
    split (insert_token (new_row row.user_id row.family_id hash next) db) refl made
  where
    split :
        (out : Outcome (TokenRow × SessionDb))
        → insert_token (new_row row.user_id row.family_id hash next) db ≡ out
        → (let done : Outcome Session × SessionDb = elim out [
          | err e ↦ (err e, db)
          | ok (made1, db1) ↦ (
            ok (to_domain_session made1),
            with_tokens db1 (replace_row row.id made1.id now db1.tokens),
          )
        ] in
            done ≡ (ok s, db'))
        → live_in (hash_test h) db'.tokens ≡ false
    split (err x) e m = absurd (ground arith)
    split (ok (made1, db1)) e m =
        let keyed =
          insert_token-IsKeyed (new_row row.user_id row.family_id hash next) made1 db db1 k e in
        let same : with_tokens db1 (replace_row row.id made1.id now db1.tokens) ≡ db' =
          ap (λ (x : Outcome Session × SessionDb). x.1) m in
        let (is_row, on_top, fresh) =
          insert_token-eq-ok (new_row row.user_id row.family_id hash next) made1 db db1 e in
        let still : find? (has_hash h) db1.tokens ≡ some row =
          rw (on_top, is_row) (rw (new) found) in
        subst (λ (x : SessionDb). live_in (hash_test h) x.tokens ≡ false) same
          (replaced_hash h made1.id now db1.tokens row keyed still)

rotated_hash :
    (h hash : Text) (next : Session) (now : Time) (db db' : SessionDb) (s : Session)
    → text_eq hash h ≡ false
    → IsKeyed db
    → rotate h next hash now db ≡ (ok s, db')
    → live_in (hash_test h) db'.tokens ≡ false
unfolding rotate rotate_found
rotated_hash h hash next now db db' s new k made =
    elim (Option-cases (find? (has_hash h) db.tokens)) [
      | inl nothing ↦ absurd (ground arith)
      | inr (row, e) ↦ elim (Bool-cases (is_live row)) [
        | inr dead ↦ absurd (ground arith)
        | inl live ↦ elim (Bool-cases (ltb_ℤ now row.expires_at)) [
          | inr late ↦ absurd (ground arith)
          | inl due ↦
              let m : succeed_row row next hash now db ≡ (ok s, db') = ground arith in
              succeeded_hash h row next hash now db db' s new k e m
        ]
      ]
    ]

spent_refused :
    (h hash : Text) (next : Session) (now : Time) (db : SessionDb)
    → live_in (hash_test h) db.tokens ≡ false
    → is_ok (rotate h next hash now db).0 ≡ false
unfolding rotate rotate_found
spent_refused h hash next now db dead = elim (Option-cases (find? (has_hash h) db.tokens)) [
  | inl nothing ↦ rw (rotate, nothing) refl
  | inr (row, e) ↦
      let spent =
        found_dead (hash_test h) (has_hash h) db.tokens row dead e
          (found_has_hash h db.tokens row e) in
      rw (rotate, e) (rw (rotate_found, spent) refl)
]

-- A refresh token is exchanged once: from the empty table, after any calls of the store and an
-- exchange of the token that succeeds, no later exchange of it succeeds, whatever calls come in
-- between, as long as no other token that is stored has its digest.
pub rotate_once :
    (before later : List StoreCall) (h hash hash' : Text) (next next' s : Session) (now now' : Time)
    (db' : SessionDb)
    → rotate h next hash now (call_all before empty_sessions) ≡ (ok s, db')
    → text_eq hash h ≡ false
    → All (StoresOther h) later
    → is_ok (rotate h next' hash' now' (call_all later db')).0 ≡ false
rotate_once before later h hash hash' next next' s now now' db' made new others =
    let db = call_all before empty_sessions in
    spent_refused h hash' next' now' (call_all later db') (
      call_all-live_in (hash_test h) later db' (StoresOther-Avoids h later others) (
        rotated_hash h hash next now db db' s new (call_all-IsKeyed before empty_sessions refl)
          made))
