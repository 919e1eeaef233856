-- ===== src/Auth/Sessions.antt =====
-- revoke_cookie_session and revoke_user_sessions of auth/service.py, and get_current_auth of
-- auth/dependencies.py.
use travel_web_api.Db.Monad.{Db, Error, api_error, ok, err, Tx, App, transaction}
use travel_web_api.Db.Statuses.{is_active_user}
use travel_web_api.Db.Users.{Uuid, Time, AppUser, UserSession}
use travel_web_api.Prelude.{
  leb, if◌then◌else◌, string_eq, nat_eq, ◌==◌, is_none, is_some, find, update_where, count_where, ℕ,
  ◌+◌, String, false, not, ◌&&◌, Option, none, some, [],
}
use travel_web_api.Python.{Python, seconds}
use travel_web_api.Security.{Settings, hash}

abbrev pub revoked : Time → String → UserSession → UserSession
revoked now reason s = record s { revoked_at = some now; revoke_reason = some reason }

-- A missing or empty cookie changes nothing.
unfoldable pub revoke_cookie_session : Python → Settings → Option String → Time → Db → Db
revoke_cookie_session py settings none now db = db
revoke_cookie_session py settings (some raw_token) now db =
    if raw_token == "" then db else record db {
      sessions =
          update_where
            (λ s. s.token_hash == hash py settings raw_token "session" && is_none s.revoked_at)
            (revoked now "USER_LOGOUT") db.sessions;
    }

-- The number of sessions that it revoked.
unfoldable pub revoke_user_sessions : Uuid → String → Time → Tx ℕ
revoke_user_sessions user reason now db =
    let live = λ (s : UserSession). s.user_id == user && is_none s.revoked_at in
    ok (
      count_where live db.sessions,
      record db { sessions = update_where live (revoked now reason) db.sessions },
    )

pub record AuthContext : Type 0 where
  pub user : AppUser
  pub session : UserSession

abbrev pub unauthorized : String → String → Error
unauthorized code message =
    api_error (record {
      status_code = 401;
      code = code;
      message = message;
      retryable = false;
      details = [];
    })

abbrev pub auth_required_error : Error
auth_required_error = unauthorized "AUTH_REQUIRED" "请先登录。"

-- The write of `last_seen_at`; `at <= now - d` is written `at + d <= now`.
unfoldable pub touch_session : Settings → Time → AppUser → UserSession → Tx AuthContext
touch_session settings now u s db =
    let s' = record s { last_seen_at = now } in
    if leb (s.last_seen_at + seconds settings.session_last_seen_write_seconds) now
    then ok (
      record { user = u; session = s' },
      record db { sessions = update_where (λ x. x.id == s.id) (λ _. s') db.sessions },
    )
    else ok (record { user = u; session = s }, db)

unfoldable pub check_session : Settings → Time → AppUser → UserSession → Tx AuthContext
check_session settings now u s db =
    if is_some s.revoked_at
    then err auth_required_error
    else if leb s.expires_at now
    then err (unauthorized "SESSION_EXPIRED" "登录状态已过期。")
    else if not (is_active_user u.status)
    then err auth_required_error
    else touch_session settings now u s db

-- The session with that hash, joined with its user.
unfoldable pub auth_body : Python → Settings → Option String → Time → Tx AuthContext
auth_body py settings none now db = err auth_required_error
auth_body py settings (some raw_token) now db =
    if raw_token == ""
    then err auth_required_error
    else elim (find (λ s. s.token_hash == hash py settings raw_token "session") db.sessions) [
      | none ↦ err auth_required_error
      | some s ↦ elim (find (λ u. u.id == s.user_id) db.users) [
        | none ↦ err auth_required_error
        | some u ↦ check_session settings now u s db
      ]
    ]

unfoldable pub get_current_auth : Python → Settings → Option String → Time → App AuthContext
get_current_auth py settings raw_token now = transaction (auth_body py settings raw_token now)
