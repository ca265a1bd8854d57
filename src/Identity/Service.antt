-- ===== src/Identity/Service.antt =====
-- Signing in and renewing a session (service/identity/service.go). Hashing, signing, base64 and
-- random bytes are library code: the service's ports and arguments. Reading random bytes does not fail.
pub mod Renewals
use web_novel.Common.{
  ℕ, Bool, true, false, Option, none, some, List, [], ◌∷◌, ◌==◌, if◌then◌else◌, ◌||◌, not, any,
}
use web_novel.Common.Int.{ℤ, pos, leb_ℤ, ◌+ℤ◌}
use web_novel.Common.Text.{Text, is_empty}
use web_novel.Common.Result.{Result, ok, err, ◌>>=◌}
use web_novel.Wallet.Types.{Time, Duration}
use web_novel.Identity.Types.{
  not_found, invalid_credentials, user_suspended, invalid_refresh_token, failed, Error, Outcome,
  UserStatus, User, is_active, Session, TokenPair, TokenRow, SessionDb,
}
use web_novel.Identity.Sessions.{create, rotate, revoke_family_by_token}

-- The user repository, the hasher, the issuer and the libraries that the service calls.
pub record Ports : Type 0 where
  pub get_user_by_email : Text → Outcome (User × Text)
  pub get_user_by_id : ℕ → Outcome User
  pub verify : Text → Text → Bool
  pub issue : User → Time → Outcome (Text × Time)
  pub base64_decode : Text → Option Text
  pub base64_encode : Text → Text
  pub sha256 : Text → Text
  pub refresh_ttl : Duration

-- `New` replaces a time to live that is not positive by 30 days.
unfoldable pub effective_ttl : Duration → Duration
effective_ttl ttl = if leb_ℤ ttl (pos 0) then pos 2_592_000_000_000_000 else ttl

unfoldable pub decode_token : Ports → Text → Option Text
decode_token p token = if is_empty token then none else p.base64_decode token

abbrev pub new_session : ℕ → Text → Text → Time → Session
new_session user family agent expires = record {
  id = 0;
  user_id = user;
  family_id = family;
  user_agent = agent;
  expires_at = expires;
  revoked_at = none;
}

abbrev pub token_pair : Ports → User → Text → Text × Time → TokenPair
token_pair p user raw access = record {
  access_token = access.0;
  refresh_token = p.base64_encode raw;
  expires_at = access.1;
  user = user;
}

-- `raw` and `family` are the random bytes and the random identifier.
unfoldable pub open_session :
    Ports → User → Text → Text → Text → Time → SessionDb → Outcome TokenPair × SessionDb
open_session p user agent raw family now db = elim (p.issue user now) [
  | err e ↦ (err e, db)
  | ok access ↦
      let made =
        create (new_session user.id family agent (now +ℤ effective_ttl p.refresh_ttl))
          (p.sha256 raw) db in
      (made.0 >>= λ session. ok (token_pair p user raw access), made.1)
]

unfoldable pub check_login : Ports → Text → Text → Outcome User
check_login p email password = elim (p.get_user_by_email email) [
  | err not_found ↦ err invalid_credentials
  | err e ↦ err e
  | ok (user, hash) ↦
      if not (p.verify password hash)
      then err invalid_credentials
      else if not (is_active user.status)
      then err user_suspended
      else ok user
]

unfoldable pub login :
    Ports → Text → Text → Text → Text → Text → Time → SessionDb → Outcome TokenPair × SessionDb
login p email password agent raw family now db = elim (check_login p email password) [
  | err e ↦ (err e, db)
  | ok user ↦ open_session p user agent raw family now db
]

-- What follows a rotation that succeeded.
unfoldable pub renew : Ports → Text → Time → Session → Outcome TokenPair
renew p raw now session = p.get_user_by_id session.user_id >>= λ user.
    if not (is_active user.status)
    then err user_suspended
    else p.issue user now >>= λ access. ok (token_pair p user raw access)

unfoldable pub refresh :
    Ports → Text → Text → Text → Time → SessionDb → Outcome TokenPair × SessionDb
refresh p token agent raw now db = elim (decode_token p token) [
  | none ↦ (err invalid_refresh_token, db)
  | some presented ↦
      let made =
        rotate (p.sha256 presented) (new_session 0 [] agent (now +ℤ effective_ttl p.refresh_ttl))
          (p.sha256 raw) now db in
      (made.0 >>= renew p raw now, made.1)
]

unfoldable pub logout : Ports → Text → Time → SessionDb → SessionDb
logout p token now db = elim (decode_token p token) [
  | none ↦ db
  | some presented ↦ revoke_family_by_token (p.sha256 presented) now db
]
