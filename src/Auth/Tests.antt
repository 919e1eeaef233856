-- ===== src/Auth/Tests.antt =====
-- Runs of auth/service.sample_py on the sample database, at which its theorems apply.
use travel_web_api.Auth.Codes.{
  enforce_send_limits, SendCall, new_challenge, invitation_for, auth_code_body, send_auth_code,
}
use travel_web_api.Auth.Registration.{register_with_quota}
use travel_web_api.Auth.SendBounds.{is_in_last_seconds, is_challenge_of, send_auth_code-bounded}
use travel_web_api.Auth.SessionLife.{
  revoke_cookie_session_refused, fresh_session, new_session_accepted,
}
use travel_web_api.Auth.Sessions.{
  revoke_cookie_session, AuthContext, auth_required_error, get_current_auth,
}
use travel_web_api.Auth.SingleUse.{
  verify_auth_code_once, WithinAttempts, verify_all, verify_all-WithinAttempts,
}
use travel_web_api.Auth.Verify.{
  otp_used, AuthVerification, refused, VerifyCall, new_session, verified_with, touch_identity,
  login_with, redeem, register_with, decide, verify_challenge, verify_body, verify_auth_code,
}
use travel_web_api.Db.Grants.{Invitation}
use travel_web_api.Db.Inserts.{
  insert_user, insert_identity, insert_challenge, insert_session, insert_redemption, insert_grant,
}
use travel_web_api.Db.Monad.{Db, ok, err, settled, transaction}
use travel_web_api.Db.Statuses.{Mode, Purpose, Delivery}
use travel_web_api.Db.Users.{UserIdentity, EmailOtpChallenge}
use travel_web_api.Invitations.{new_invitation}
use travel_web_api.Prelude.{
  string_eq, nat_eq, ◌==◌, count_where, ◌≤◌, ◌≡◌, refl, true, ◌&&◌, none, some, [], ◌∷◌, arith,
}
use travel_web_api.Prelude.Int.{pos, ◌+ℤ◌}
use travel_web_api.Profile.Names.{NewUser, try_names, create_user_with_default_display_name}
use travel_web_api.Quota.Snapshot.{quota_snapshot}
use travel_web_api.Samples.{sample_py, guest, sample_db, sample_settings}
use travel_web_api.Security.{hash_secret, hash}

abbrev ask_code : SendCall
ask_code = record {
  email = "guest@example.org";
  mode = Mode.login;
  invitation_code = none;
  client_ip = "10.0.0.1";
  now = 1_000;
  raw_code = "123456";
  id = 71;
  public_id = "otp_1";
  delivered = true;
}

abbrev new_guest : NewUser
new_guest = record {
  id = 2;
  public_id = "usr_2";
  now = 2_000;
  draws = λ n. record { presentation = "user_a"; uniqueness_key = "user_a" };
  times = λ n. 2_000;
}

abbrev answer : VerifyCall
answer = record {
  challenge_id = "otp_1";
  code = "123456";
  now = 2_000;
  session_id = 81;
  raw_token = "token-1";
  user = new_guest;
  identity_id = 82;
  redemption_id = 83;
  grant_id = 84;
}

abbrev guest_identity : UserIdentity
guest_identity = record {
  id = 61;
  user_id = 1;
  provider = "email_otp";
  provider_subject = "guest@example.org";
  verified_email = some "guest@example.org";
  created_at = 0;
  last_login_at = none;
}

abbrev sent_challenge : EmailOtpChallenge
sent_challenge =
    record (new_challenge sample_py sample_settings ask_code Mode.login Purpose.email_auth none
      none) { delivery_status = Delivery.sent }

abbrev invited : Invitation
invited =
    new_invitation sample_py sample_settings (record {
      id = 91;
      raw_secret = "inv_1";
      source_label = "friends";
      expires_at = none;
      now = 0;
    })

abbrev asked : Db
asked = record sample_db {
  identities = guest_identity ∷ [];
  invitations = invited ∷ [];
  challenges = sent_challenge ∷ [];
}

taken : (transaction (auth_code_body sample_py sample_settings ask_code) sample_db).0 ≡ ok tt
unfolding auth_code_body enforce_send_limits invitation_for insert_challenge
taken = refl

send_auth_code-bounded_example :
    let after = (send_auth_code sample_py sample_settings ask_code sample_db).1.challenges in
    let recent = is_in_last_seconds sample_settings.otp_rate_window_seconds 1_000 in
    (1 ≤ count_where (is_challenge_of sample_py sample_settings ask_code) after)
    × (count_where (λ x. x.email == "guest@example.org" && recent x) after ≤ 5)
    × (count_where
          (λ x.
            x.client_ip_hash == hash sample_py sample_settings "10.0.0.1" "client-ip" && recent x)
          after
        ≤ 20)
    × (count_where recent after ≤ 1_000)
send_auth_code-bounded_example =
    send_auth_code-bounded sample_py sample_settings ask_code sample_db taken

revoke_cookie_session_refused_example :
    let db' = revoke_cookie_session sample_py sample_settings (some "token-1") 5 asked in
    get_current_auth sample_py sample_settings (some "token-1") 9 db'
    ≡ (err auth_required_error, db')
revoke_cookie_session_refused_example =
    revoke_cookie_session_refused sample_py sample_settings "token-1" 5 9 asked

abbrev logged_in : Db
logged_in = record asked {
  sessions = fresh_session sample_py sample_settings 81 1 "token-1" 2_000 ∷ [];
}

opened :
    new_session sample_py sample_settings 81 1 "token-1" 2_000 asked ≡ ok ("token-1", logged_in)
unfolding new_session insert_session hash_secret
opened = refl

new_session_accepted_example :
    (ctx : AuthContext) × ((get_current_auth sample_py sample_settings
        (some "token-1")
        3_000
        logged_in).0
      ≡ ok ctx)
    × (ctx.user ≡ guest)
    × (ctx.session.id ≡ 81)
new_session_accepted_example =
    new_session_accepted sample_py sample_settings 81 guest "token-1" 2_000 3_000 asked logged_in
      opened refl refl refl (omega arith)

abbrev welcome : AuthVerification
welcome = verified_with "token-1"

entered : (verify_auth_code sample_py sample_settings answer asked).0 ≡ ok welcome
unfolding verify_auth_code verify_body verify_challenge decide login_with touch_identity new_session
    insert_session hash_secret
entered = refl

verify_auth_code_once_example :
    let db' = (verify_auth_code sample_py sample_settings answer asked).1 in
    verify_auth_code sample_py sample_settings answer db' ≡ (ok (refused otp_used), db')
verify_auth_code_once_example =
    verify_auth_code_once sample_py sample_settings answer answer asked welcome "token-1" (refl, tt)
      entered refl refl

verify_all-WithinAttempts_example :
    WithinAttempts (verify_all sample_py sample_settings (answer ∷ answer ∷ []) asked)
verify_all-WithinAttempts_example =
    verify_all-WithinAttempts sample_py sample_settings (answer ∷ answer ∷ []) asked
      (omega arith, tt)

abbrev registered_db : Db
registered_db =
    (settled asked (register_with sample_py sample_settings answer "new@example.org" 91 asked)).1

joined :
    register_with sample_py sample_settings answer "new@example.org" 91 asked
    ≡ ok (welcome, registered_db)
unfolding register_with create_user_with_default_display_name try_names insert_user insert_identity
    redeem insert_redemption insert_grant new_session insert_session hash_secret
joined = refl

register_with_quota_example :
    let before = quota_snapshot 2 asked in
    let after = quota_snapshot 2 registered_db in
    (after.limit ≡ before.limit +ℤ pos 3)
    × (after.reserved_units ≡ before.reserved_units)
    × (after.consumed_units ≡ before.consumed_units)
    × (welcome.session_token ≡ some "token-1")
register_with_quota_example =
    register_with_quota sample_py sample_settings answer "new@example.org" 91 asked registered_db
      welcome joined
