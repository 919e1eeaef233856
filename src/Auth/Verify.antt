-- ===== src/Auth/Verify.antt =====
-- verify_auth_code of auth/service.py: what a code of a challenge does.
use travel_web_api.Auth.Codes.{code_purpose}
use travel_web_api.Db.Grants.{QuotaGrant}
use travel_web_api.Db.Inserts.{insert_identity, insert_session, insert_redemption, insert_grant}
use travel_web_api.Db.Monad.{Db, ok, Tx, App, transaction, pure, modify, ◌>>=◌, ◌>>◌}
use travel_web_api.Db.Statuses.{email_auth, is_active_user, is_email_auth, is_login, is_sent}
use travel_web_api.Db.Users.{Uuid, Time, UserIdentity, EmailOtpChallenge}
use travel_web_api.Invitations.{invitation_is_usable}
use travel_web_api.Prelude.{
  leb, if◌then◌else◌, string_eq, nat_eq, ◌==◌, ◌=?◌, is_some, find, update_where, ◌+◌, String, Bool,
  not, ◌&&◌, ◌||◌, Option, none, some,
}
use travel_web_api.Profile.Names.{NewUser, create_user_with_default_display_name}
use travel_web_api.Python.{Python, days}
use travel_web_api.Security.{Settings, secret_matches, hash}

-- `outcome` of AuthVerification and of ClosureResult.
pub data Outcome : Type 0 where
  otp_invalid otp_used otp_expired otp_attempts_exceeded : Outcome
  registration_required auth_required login_required invitation_invalid : Outcome
  active_trip_in_progress verified : Outcome

pub record AuthVerification : Type 0 where
  pub outcome : Outcome
  pub session_token : Option String

abbrev pub refused : Outcome → AuthVerification
refused o = record { outcome = o; session_token = none }

-- The arguments, and what the function draws: the time, ids, the token and the default names.
pub record VerifyCall : Type 0 where
  pub challenge_id : String
  pub code : String
  pub now : Time
  pub session_id : Uuid
  pub raw_token : String
  pub user : NewUser
  pub identity_id : Uuid
  pub redemption_id : Uuid
  pub grant_id : Uuid

abbrev pub put_challenge : EmailOtpChallenge → Db → Db
put_challenge c db = record db {
  challenges = update_where (λ x. x.id == c.id) (λ _. c) db.challenges;
}

-- `challenge.attempt_count += 1`
abbrev pub missed : EmailOtpChallenge → EmailOtpChallenge
missed c = record c { attempt_count = c.attempt_count + 1 }

abbrev pub missed_outcome : EmailOtpChallenge → Outcome
missed_outcome c =
    if leb c.max_attempts (c.attempt_count + 1) then otp_attempts_exceeded else otp_invalid

unfoldable pub new_session : Python → Settings → Uuid → Uuid → String → Time → Tx String
new_session py settings session_id user raw_token now = do
  insert_session (record {
    id = session_id;
    user_id = user;
    token_hash = hash py settings raw_token "session";
    created_at = now;
    last_seen_at = now;
    expires_at = now + days settings.session_days;
    revoked_at = none;
    revoke_reason = none;
  })
  pure raw_token

abbrev pub verified_with : String → AuthVerification
verified_with token = record { outcome = verified; session_token = some token }

abbrev pub is_email_identity : String → UserIdentity → Bool
is_email_identity email i = i.provider == "email_otp" && i.provider_subject == email

unfoldable pub touch_identity : Uuid → Time → Tx Unit
touch_identity id now = modify λ db. record db {
  identities =
      update_where (λ i. i.id == id) (λ i. record i { last_login_at = some now }) db.identities;
}

unfoldable pub login_with : Python → Settings → VerifyCall → UserIdentity → Tx AuthVerification
login_with py settings c i db = elim (find (λ u. u.id == i.user_id) db.users) [
  | none ↦ ok (refused auth_required, db)
  | some u ↦
      if is_active_user u.status
      then (do
        touch_identity i.id c.now
        token ← new_session py settings c.session_id u.id c.raw_token c.now
        pure (verified_with token))
          db
      else ok (refused auth_required, db)
]

unfoldable pub redeem : Uuid → Time → Tx Unit
redeem id now = modify λ db. record db {
  invitations =
      update_where (λ i. i.id == id) (λ i. record i { redeemed_at = some now; updated_at = now })
        db.invitations;
}

abbrev pub registration_grant : Settings → VerifyCall → Uuid → QuotaGrant
registration_grant settings c user = record {
  id = c.grant_id;
  user_id = user;
  period_type = "BETA_LIFETIME";
  period_key = "v0.1-beta";
  units = settings.beta_quota_limit;
  reason = "INITIAL_REGISTRATION";
  idempotency_key = "initial-registration";
  created_at = c.now;
}

abbrev pub email_identity : VerifyCall → Uuid → String → UserIdentity
email_identity c user email = record {
  id = c.identity_id;
  user_id = user;
  provider = "email_otp";
  provider_subject = email;
  verified_email = some email;
  created_at = c.now;
  last_login_at = some c.now;
}

unfoldable pub register_with : Python → Settings → VerifyCall → String → Uuid → Tx AuthVerification
register_with py settings c email invitation_id = do
  u ← create_user_with_default_display_name py settings c.user
  insert_identity (email_identity c u.id email)
  redeem invitation_id c.now
  insert_redemption (record {
    id = c.redemption_id;
    invitation_id = invitation_id;
    user_id = u.id;
    redeemed_at = c.now;
  })
  insert_grant (registration_grant settings c u.id)
  token ← new_session py settings c.session_id u.id c.raw_token c.now
  pure (verified_with token)

unfoldable pub register_checked :
    Python → Settings → VerifyCall → EmailOtpChallenge → Tx AuthVerification
register_checked py settings c ch db = elim (find (λ i. ch.invitation_id =? i.id) db.invitations) [
  | none ↦ ok (refused invitation_invalid, db)
  | some i ↦
      if invitation_is_usable i c.now
      then register_with py settings c ch.email i.id db
      else ok (refused invitation_invalid, db)
]

-- The branch of a right code, after the challenge is consumed.
unfoldable pub decide : Python → Settings → VerifyCall → EmailOtpChallenge → Tx AuthVerification
decide py settings c ch db = elim (find (is_email_identity ch.email) db.identities) [
  | none ↦
      if is_login ch.mode
      then ok (refused registration_required, db)
      else register_checked py settings c ch db
  | some i ↦
      if is_login ch.mode then login_with py settings c i db else ok (refused login_required, db)
]

unfoldable pub verify_challenge :
    Python → Settings → VerifyCall → EmailOtpChallenge → Tx AuthVerification
verify_challenge py settings c ch db =
    if not (is_email_auth ch.purpose) || not (is_sent ch.delivery_status)
    then ok (refused otp_invalid, db)
    else if is_some ch.consumed_at
    then ok (refused otp_used, db)
    else if leb ch.expires_at c.now
    then ok (refused otp_expired, db)
    else if leb ch.max_attempts ch.attempt_count
    then ok (refused otp_attempts_exceeded, db)
    else if not (
        secret_matches py c.code ch.code_hash (code_purpose ch.public_id email_auth)
          settings.secret_hash_pepper)
    then ok (refused (missed_outcome ch), put_challenge (missed ch) db)
    else decide py settings c ch (put_challenge (record ch { consumed_at = some c.now }) db)

unfoldable pub verify_body : Python → Settings → VerifyCall → Tx AuthVerification
verify_body py settings c db = elim (find (λ x. x.public_id == c.challenge_id) db.challenges) [
  | none ↦ ok (refused otp_invalid, db)
  | some ch ↦ verify_challenge py settings c ch db
]

unfoldable pub verify_auth_code : Python → Settings → VerifyCall → App AuthVerification
verify_auth_code py settings c = transaction (verify_body py settings c)
