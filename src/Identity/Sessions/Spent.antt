-- ===== src/Identity/Sessions/Spent.antt =====
-- A refresh token is used once, and a stolen one ends its family.
use web_novel.Common.{
  ◌≡◌, ◌≢◌, refl, sym, ap, subst, ◌∙◌, Bool-cases, true, false, Option-cases, some, inl, inr, List,
  [], ◌∷◌, find?, any, All, arith,
}
use web_novel.Common.Int.{ltb_ℤ}
use web_novel.Common.Text.{Text, text_eq, text_eq_iff}
use web_novel.Common.Result.{err}
use web_novel.Wallet.Types.{Time}
use web_novel.Identity.Types.{token_reused, Outcome, Session, TokenRow, SessionDb}
use web_novel.Identity.Sessions.{
  has_hash, is_live, insert_token, revoke_family, succeed_row, rotate_found, rotate,
  revoke_family_by_token, StoreCall, calls_create, calls_rotate, calls_logout, calls_revoke_all,
  calls_sweep, call_all,
}
use web_novel.Identity.Sessions.Families.{
  family_test, live_in, revoke_family-ends, found_dead, Avoids, call_all-live_in,
}

abbrev pub empty_sessions : SessionDb
empty_sessions = record { tokens = []; next_id = 1 }

-- A call that starts no session of the family.
abbrev pub StartsOther : Text → StoreCall → Type 0
StartsOther f (calls_create session hash) = text_eq session.family_id f ≡ false
StartsOther f _ = Unit

StartsOther-Avoids :
    (f : Text) (cs : List StoreCall) → All (StartsOther f) cs → All (Avoids (family_test f)) cs
StartsOther-Avoids f [] a = tt
StartsOther-Avoids f (calls_create session hash ∷ cs) a = (a.0, StartsOther-Avoids f cs a.1)
StartsOther-Avoids f (calls_rotate hash next next_hash now ∷ cs) a =
    (λ family old h. h, StartsOther-Avoids f cs a.1)
StartsOther-Avoids f (calls_logout hash now ∷ cs) a = (tt, StartsOther-Avoids f cs a.1)
StartsOther-Avoids f (calls_revoke_all user now ∷ cs) a = (tt, StartsOther-Avoids f cs a.1)
StartsOther-Avoids f (calls_sweep before ∷ cs) a = (tt, StartsOther-Avoids f cs a.1)

-- In a family with no live token every token is refused.
dead_family :
    (f hash next_hash : Text) (next : Session) (now : Time) (row : TokenRow) (db : SessionDb)
    → live_in (family_test f) db.tokens ≡ false
    → find? (has_hash hash) db.tokens ≡ some row
    → row.family_id ≡ f
    → (rotate hash next next_hash now db).0 ≡ err token_reused
unfolding rotate rotate_found
dead_family f hash next_hash next now row db dead found same =
    let member : text_eq row.family_id f ≡ true = (text_eq_iff row.family_id f).1 same in
    let spent : is_live row ≡ false =
      found_dead (family_test f) (has_hash hash) db.tokens row dead found member in
    rw (rotate, found) (rw (rotate_found, spent) refl)

-- A live token is never reported as reused.
succeed_row-not_reused :
    (row : TokenRow) (next : Session) (next_hash : Text) (now : Time) (db : SessionDb)
    → (succeed_row row next next_hash now db).0 ≢ err token_reused
unfolding succeed_row insert_token
succeed_row-not_reused row next next_hash now db e =
    elim (Bool-cases (any (has_hash next_hash) db.tokens)) [
      | inl taken ↦ ground arith
      | inr fresh ↦ ground arith
    ]

reused_row :
    (row : TokenRow) (next : Session) (next_hash : Text) (now : Time) (db db' : SessionDb)
    → rotate_found row next next_hash now db ≡ (err token_reused, db')
    → live_in (family_test row.family_id) db'.tokens ≡ false
unfolding rotate_found revoke_family
reused_row row next next_hash now db db' h = elim (Bool-cases (is_live row)) [
  | inr dead ↦
      let same : revoke_family row.family_id now db ≡ db' = ground arith in
      subst (λ (x : SessionDb). live_in (family_test row.family_id) x.tokens ≡ false) same
        (revoke_family-ends row.family_id now db.tokens)
  | inl live ↦ elim (Bool-cases (ltb_ℤ now row.expires_at)) [
    | inr late ↦ absurd (ground arith)
    | inl due ↦
        let e : succeed_row row next next_hash now db ≡ (err token_reused, db') = ground arith in
        absurd (
          succeed_row-not_reused row next next_hash now db
            (ap (λ (x : Outcome Session × SessionDb). x.0) e))
  ]
]

logged_out :
    (hash : Text) (now : Time) (first : TokenRow) (db : SessionDb)
    → find? (has_hash hash) db.tokens ≡ some first
    → live_in (family_test first.family_id) (revoke_family_by_token hash now db).tokens ≡ false
unfolding revoke_family_by_token revoke_family
logged_out hash now first db e = rw (live_in, e) (revoke_family-ends first.family_id now db.tokens)

found_same : {a b : TokenRow} → some a ≡ some b → a ≡ b
found_same e = cc

-- A token that is reported as reused is in the table, and its family has no live token left.
reused_family :
    (hash next_hash : Text) (next : Session) (now : Time) (db db' : SessionDb)
    → rotate hash next next_hash now db ≡ (err token_reused, db')
    → (row : TokenRow) × (find? (has_hash hash) db.tokens ≡ some row)
      × (live_in (family_test row.family_id) db'.tokens ≡ false)
unfolding rotate
reused_family hash next_hash next now db db' h =
    elim (Option-cases (find? (has_hash hash) db.tokens)) [
      | inl nothing ↦ absurd (ground arith)
      | inr (row, e) ↦ (row, e, reused_row row next next_hash now db db' (ground arith))
    ]

-- After a token has been presented again, its family is over: whatever the store is asked for
-- later, sessions of other families started included, every token of that family that is
-- presented is refused as reused.
pub rotate_reused_ends :
    (hash next_hash : Text) (next : Session) (now : Time) (first : TokenRow) (db db' : SessionDb)
    (later : List StoreCall) (hash' next_hash' : Text) (next' : Session) (now' : Time)
    (row : TokenRow)
    → rotate hash next next_hash now db ≡ (err token_reused, db')
    → find? (has_hash hash) db.tokens ≡ some first
    → All (StartsOther first.family_id) later
    → find? (has_hash hash') (call_all later db').tokens ≡ some row
    → row.family_id ≡ first.family_id
    → (rotate hash' next' next_hash' now' (call_all later db')).0 ≡ err token_reused
rotate_reused_ends hash next_hash next now first db db' later hash' next_hash' next' now' row h
      there others found member =
    let (again, e, dead) = reused_family hash next_hash next now db db' h in
    let same : again.family_id ≡ first.family_id =
      ap (λ (r : TokenRow). r.family_id) (found_same (sym e ∙ there)) in
    let dead' : live_in (family_test first.family_id) db'.tokens ≡ false =
      subst (λ (x : Text). live_in (family_test x) db'.tokens ≡ false) same dead in
    dead_family first.family_id hash' next_hash' next' now' row (call_all later db')
      (call_all-live_in (family_test first.family_id) later db'
        (StartsOther-Avoids first.family_id later others) dead')
      found member

-- Logging out ends the family of the token that is presented: whatever the store is asked for
-- later, sessions of other families started included, every token of that family that is
-- presented is refused as reused.
pub logout_ends :
    (hash : Text) (now : Time) (first : TokenRow) (db : SessionDb) (later : List StoreCall)
    (hash' next_hash' : Text) (next' : Session) (now' : Time) (row : TokenRow)
    → find? (has_hash hash) db.tokens ≡ some first
    → All (StartsOther first.family_id) later
    → find? (has_hash hash') (call_all later (revoke_family_by_token hash now db)).tokens ≡ some row
    → row.family_id ≡ first.family_id
    → (rotate hash' next' next_hash' now' (call_all later (revoke_family_by_token hash now db))).0
      ≡ err token_reused
logout_ends hash now first db later hash' next_hash' next' now' row there others found member =
    dead_family first.family_id hash' next_hash' next' now' row
      (call_all later (revoke_family_by_token hash now db))
      (call_all-live_in (family_test first.family_id) later (revoke_family_by_token hash now db)
        (StartsOther-Avoids first.family_id later others) (logged_out hash now first db there))
      found member
