-- ===== src/Auth/Codes.antt =====
-- _enforce_send_limits, send_auth_code and send_closure_code of auth/service.py. The mail service
-- is not the program's: whether it delivered is an argument. `at > now - d` is written `now < at + d`,
-- and `at >= now - d` is written `now <= at + d`.
use travel_web_api.Db.Inserts.{insert_challenge}
use travel_web_api.Db.Monad.{
  Db, Error, api_error, Result, ok, err, Tx, App, transaction, ◌>>=◌, ◌>>◌,
}
use travel_web_api.Db.Statuses.{
  Mode, Purpose, email_auth, account_closure, Delivery, purpose_eq, is_register,
  is_pending_delivery,
}
use travel_web_api.Db.Users.{Uuid, Time, Digest, EmailOtpChallenge}
use travel_web_api.Invitations.{invitation_is_usable, find_invitation}
use travel_web_api.Prelude.{
  ltb, leb, if◌then◌else◌, string_eq, nat_eq, ◌==◌, ◌<>◌, or_empty, update_where, count_where, ◌+◌,
  max, String, Bool, true, false, not, ◌&&◌, ◌||◌, Option, none, some, List, [], ◌∷◌,
}
use travel_web_api.Python.{Python, seconds}
use travel_web_api.Security.{Settings, hash}

abbrev pub rate_limited : Error
rate_limited = api_error (record {
  status_code = 429;
  code = "OTP_RATE_LIMITED";
  message = "请求过于频繁，请稍后再试。";
  retryable = true;
  details = [];
})

-- `select(func.max(EmailOtpChallenge.sent_at)).where(…)`
abbrev pub latest : (EmailOtpChallenge → Bool) → List EmailOtpChallenge → Option Time
latest p [] = none
latest p (c ∷ cs) =
    let rest = latest p cs in
    if p c then some (elim rest [ none ↦ c.sent_at | some at ↦ max c.sent_at at ]) else rest

abbrev pub is_recent : Settings → Time → Option Time → Bool
is_recent settings now none = false
is_recent settings now (some at) = ltb now (at + seconds settings.otp_resend_seconds)

abbrev pub in_window : Settings → Time → EmailOtpChallenge → Bool
in_window settings now c = leb now (c.sent_at + seconds settings.otp_rate_window_seconds)

abbrev pub over_limits : Settings → String → Digest → Time → List EmailOtpChallenge → Bool
over_limits settings email ip_hash now cs =
    leb settings.otp_per_email_limit
      (count_where (λ c. c.email == email && in_window settings now c) cs)
    || leb settings.otp_per_ip_limit
        (count_where (λ c. c.client_ip_hash == ip_hash && in_window settings now c) cs)
    || leb settings.otp_global_limit (count_where (λ c. in_window settings now c) cs)

-- The source takes no lock here: another request may insert between this count and the insertion
-- that follows it. A call of the model is one that is not interrupted.
unfoldable pub enforce_send_limits : Settings → String → Digest → Purpose → Time → Tx Unit
enforce_send_limits settings email ip_hash purpose now db =
    let recent = latest (λ c. c.email == email && purpose_eq c.purpose purpose) db.challenges in
    if is_recent settings now recent || over_limits settings email ip_hash now db.challenges
    then err rate_limited
    else ok (tt, db)

-- The arguments of the two functions, and what they draw: the time, the code and the ids.
pub record SendCall : Type 0 where
  pub email : String
  pub mode : Mode
  pub invitation_code : Option String
  pub client_ip : String
  pub now : Time
  pub raw_code : String
  pub id : Uuid
  pub public_id : String
  pub delivered : Bool

abbrev pub purpose_text : Purpose → String
purpose_text email_auth = "EMAIL_AUTH"
purpose_text account_closure = "ACCOUNT_CLOSURE"

abbrev pub code_purpose : String → Purpose → String
code_purpose public_id purpose = "otp:" <> public_id <> ":" <> purpose_text purpose

abbrev pub new_challenge :
    Python → Settings → SendCall → Mode → Purpose → Option Uuid → Option Uuid → EmailOtpChallenge
new_challenge py settings c mode purpose invitation_id user_id = record {
  id = c.id;
  public_id = c.public_id;
  email = c.email;
  mode = mode;
  purpose = purpose;
  invitation_id = invitation_id;
  user_id = user_id;
  code_hash = hash py settings c.raw_code (code_purpose c.public_id purpose);
  client_ip_hash = hash py settings c.client_ip "client-ip";
  attempt_count = 0;
  max_attempts = settings.otp_max_attempts;
  delivery_status = Delivery.pending;
  sent_at = c.now;
  expires_at = c.now + seconds settings.otp_expiry_seconds;
  consumed_at = none;
}

abbrev pub invitation_invalid_error : Error
invitation_invalid_error = api_error (record {
  status_code = 422;
  code = "INVITATION_INVALID";
  message = "邀请码无效或已失效。";
  retryable = false;
  details = [];
})

-- The invitation of a registration; a login needs none.
unfoldable pub invitation_for : Python → Settings → SendCall → Tx (Option Uuid)
invitation_for py settings c db =
    if not (is_register c.mode)
    then ok (none, db)
    else elim (find_invitation py settings (or_empty c.invitation_code) db) [
      | none ↦ err invitation_invalid_error
      | some i ↦
          if invitation_is_usable i c.now then ok (some i.id, db) else err invitation_invalid_error
    ]

unfoldable pub auth_code_body : Python → Settings → SendCall → Tx Unit
auth_code_body py settings c = do
  enforce_send_limits settings c.email (hash py settings c.client_ip "client-ip") email_auth c.now
  invitation_id ← invitation_for py settings c
  insert_challenge (new_challenge py settings c c.mode email_auth invitation_id none)

unfoldable pub closure_code_body : Python → Settings → Uuid → SendCall → Tx Unit
closure_code_body py settings user c = do
  enforce_send_limits settings c.email (hash py settings c.client_ip "client-ip") account_closure
      c.now
  insert_challenge (new_challenge py settings c Mode.closure account_closure none (some user))

abbrev pub delivery_unavailable : Error
delivery_unavailable = api_error (record {
  status_code = 503;
  code = "EMAIL_DELIVERY_UNAVAILABLE";
  message = "验证码暂时无法发送，请稍后再试。";
  retryable = true;
  details = [];
})

-- The transaction after the mail: FAILED, or SENT if the challenge is still PENDING.
unfoldable pub after_mail : SendCall → App String
after_mail c db =
    if c.delivered
    then (
      ok c.public_id,
      record db {
        challenges =
            update_where (λ x. x.public_id == c.public_id && is_pending_delivery x.delivery_status)
              (λ x. record x { delivery_status = Delivery.sent }) db.challenges;
      },
    )
    else (
      err delivery_unavailable,
      record db {
        challenges =
            update_where (λ x. x.public_id == c.public_id)
              (λ x. record x { delivery_status = Delivery.failed }) db.challenges;
      },
    )

-- A refused request sends no mail.
abbrev pub then_mail : SendCall → Result (Unit {0}) × Db → Result String × Db
then_mail c (ok u, db) = after_mail c db
then_mail c (err e, db) = (err e, db)

unfoldable pub send_auth_code : Python → Settings → SendCall → App String
send_auth_code py settings c db = then_mail c (transaction (auth_code_body py settings c) db)

unfoldable pub send_closure_code : Python → Settings → Uuid → SendCall → App String
send_closure_code py settings user c db =
    then_mail c (transaction (closure_code_body py settings user c) db)
