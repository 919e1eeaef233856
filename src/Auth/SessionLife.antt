-- ===== src/Auth/SessionLife.antt =====
-- The life of a session: its token is accepted until it expires, and not after it was revoked.
use travel_web_api.Auth.Sessions.{
  revoked, revoke_cookie_session, AuthContext, auth_required_error, touch_session, check_session,
  auth_body, get_current_auth,
}
use travel_web_api.Auth.Verify.{new_session}
use travel_web_api.Db.Inserts.{insert_session}
use travel_web_api.Db.Monad.{Db, ok, err, settled, >>=-eq-ok}
use travel_web_api.Db.Statuses.{is_active_user}
use travel_web_api.Db.Users.{Uuid, Time, Digest, AppUser, UserSession}
use travel_web_api.Prelude.{
  leb, string_eq, nat_eq, ◌==◌, is_none, is_some, Bool-cases, Option-cases, find, update_where, ◌+◌,
  ◌<◌, String, ◌≡◌, refl, sym, ap, ◌∙◌, inl, inr, true, false, ◌&&◌, Option, none, some, List, [],
  ◌∷◌, arith,
}
use travel_web_api.Python.{Python, seconds, days}
use travel_web_api.Rows.{some_eq}
use travel_web_api.Security.{Settings, hash}

check_session_revoked :
    (settings : Settings) (now : Time) (u : AppUser) (s : UserSession) (db : Db)
    → is_some s.revoked_at ≡ true
    → check_session settings now u s db ≡ err auth_required_error
unfolding check_session
check_session_revoked settings now u s db h = rw h refl

some_of : (o : Option Time) → is_none o ≡ false → is_some o ≡ true
some_of none h = cc h
some_of (some at) h = refl

-- The sessions with one hash, after those of that hash were revoked.
revoked_all :
    (t : Digest) (now : Time) (reason : String) (xs : List UserSession) {s : UserSession}
    → find
        (λ x. x.token_hash == t)
        (update_where (λ x. x.token_hash == t && is_none x.revoked_at) (revoked now reason) xs)
      ≡ some s
    → is_some s.revoked_at ≡ true
revoked_all t now reason [] h = cc
revoked_all t now reason (x ∷ xs) {s = s} h = elim (Bool-cases (x.token_hash == t)) [
  | inl own ↦ elim (Bool-cases (is_none x.revoked_at)) [
    | inl live ↦
        let first : revoked now reason x ≡ s = some_eq (rw (own, live, own) at h) in
        ap (λ (y : UserSession). is_some y.revoked_at) (sym first)
    | inr gone ↦
        let first : x ≡ s = some_eq (rw (own, gone, own) at h) in
        ap (λ (y : UserSession). is_some y.revoked_at) (sym first) ∙ some_of x.revoked_at gone
  ]
  | inr other ↦
      let rest : find (λ y. y.token_hash == t)
            (update_where (λ y. y.token_hash == t && is_none y.revoked_at) (revoked now reason) xs)
          ≡ some s =
        rw (other, other) at h in
      revoked_all t now reason xs {s = s} rest
]

auth_body_none :
    (py : Python) (settings : Settings) (raw : String) (now : Time) (db : Db)
    → ((s : UserSession)
        → find (λ x. x.token_hash == hash py settings raw "session") db.sessions ≡ some s
        → is_some s.revoked_at ≡ true)
    → auth_body py settings (some raw) now db ≡ err auth_required_error
unfolding auth_body
auth_body_none py settings raw now db over = elim (Bool-cases (raw == "")) [
  | inl empty ↦ rw empty refl
  | inr given ↦
      elim (Option-cases
        (find (λ (x : UserSession). x.token_hash == hash py settings raw "session") db.sessions)) [
          | inl missing ↦ rw (given, missing) refl
          | inr (s, is_found) ↦
              elim (Option-cases (find (λ (u : AppUser). u.id == s.user_id) db.users)) [
                | inl nobody ↦ rw (given, is_found, nobody) refl
                | inr (u, is_user) ↦
                    rw (given, is_found, is_user)
                      (check_session_revoked settings now u s db (over s is_found))
              ]
        ]
]

auth_body_empty :
    (py : Python) (settings : Settings) (raw : String) (now : Time) (db : Db)
    → (raw == "") ≡ true
    → auth_body py settings (some raw) now db ≡ err auth_required_error
unfolding auth_body
auth_body_empty py settings raw now db empty = rw empty refl

revoke_cookie_session-sessions :
    (py : Python) (settings : Settings) (raw : String) (now : Time) (db : Db)
    → (raw == "") ≡ false
    → (revoke_cookie_session py settings (some raw) now db).sessions
      ≡ update_where
          (λ x. x.token_hash == hash py settings raw "session" && is_none x.revoked_at)
          (revoked now "USER_LOGOUT")
          db.sessions
unfolding revoke_cookie_session
revoke_cookie_session-sessions py settings raw now db given = rw given refl

auth_body_revoked :
    (py : Python) (settings : Settings) (raw : String) (now later : Time) (db : Db)
    → auth_body py settings (some raw) later (revoke_cookie_session py settings (some raw) now db)
      ≡ err auth_required_error
auth_body_revoked py settings raw now later db =
    let db' = revoke_cookie_session py settings (some raw) now db in
    elim (Bool-cases (raw == "")) [
      | inl empty ↦ auth_body_empty py settings raw later db' empty
      | inr given ↦ auth_body_none py settings raw later db' (λ s h.
          revoked_all (hash py settings raw "session") now "USER_LOGOUT" db.sessions (
            ap (find (λ (x : UserSession). x.token_hash == hash py settings raw "session"))
              (sym (revoke_cookie_session-sessions py settings raw now db given))
            ∙ h))
    ]

-- After a logout with a cookie, a request with the same cookie is refused with AUTH_REQUIRED at any
-- time, whatever the database held, and changes nothing.
pub revoke_cookie_session_refused :
    (py : Python) (settings : Settings) (raw : String) (now later : Time) (db : Db)
    → let db' = revoke_cookie_session py settings (some raw) now db in
      get_current_auth py settings (some raw) later db' ≡ (err auth_required_error, db')
unfolding get_current_auth
revoke_cookie_session_refused py settings raw now later db =
    let db' = revoke_cookie_session py settings (some raw) now db in
    ap (settled db') (auth_body_revoked py settings raw now later db)

abbrev pub fresh_session : Python → Settings → Uuid → Uuid → String → Time → UserSession
fresh_session py settings session_id user raw now = record {
  id = session_id;
  user_id = user;
  token_hash = hash py settings raw "session";
  created_at = now;
  last_seen_at = now;
  expires_at = now + days settings.session_days;
  revoked_at = none;
  revoke_reason = none;
}

insert_session-eq-ok :
    (s : UserSession) (db : Db) {u : Unit {0}} {db' : Db}
    → insert_session s db ≡ ok (u, db')
    → db' ≡ record db { sessions = s ∷ db.sessions }
unfolding insert_session
insert_session-eq-ok s db e = ground arith

new_session-eq-ok :
    (py : Python) (settings : Settings) (session_id user : Uuid) (raw : String) (now : Time)
    (db : Db) {r : String} {db' : Db}
    → new_session py settings session_id user raw now db ≡ ok (r, db')
    → db' ≡ record db { sessions = fresh_session py settings session_id user raw now ∷ db.sessions }
unfolding new_session
new_session-eq-ok py settings session_id user raw now db e =
    let s = fresh_session py settings session_id user raw now in
    let (_, db1, e1, k1) = >>=-eq-ok (insert_session s) _ db e in
    let same = insert_session-eq-ok s db e1 in cc

touch_session-ok :
    (settings : Settings) (now : Time) (u : AppUser) (s : UserSession) (db : Db)
    → (ctx : AuthContext) × (db' : Db) × (touch_session settings now u s db ≡ ok (ctx, db'))
      × (ctx.user ≡ u)
      × (ctx.session.id ≡ s.id)
unfolding touch_session
touch_session-ok settings now u s db =
    let s' = record s { last_seen_at = now } in
    elim (Bool-cases
      (leb (s.last_seen_at + seconds settings.session_last_seen_write_seconds) now)) [
        | inl old ↦ (
          record { user = u; session = s' },
          record db { sessions = update_where (λ x. x.id == s.id) (λ _. s') db.sessions },
          rw old refl,
          refl,
          refl,
        )
        | inr seen ↦ (record { user = u; session = s }, db, rw seen refl, refl, refl)
      ]

auth_body_found :
    (py : Python) (settings : Settings) (raw : String) (now : Time) (u : AppUser) (s : UserSession)
    (db : Db)
    → (raw == "") ≡ false
    → find (λ x. x.token_hash == hash py settings raw "session") db.sessions ≡ some s
    → find (λ x. x.id == s.user_id) db.users ≡ some u
    → s.revoked_at ≡ none
    → leb s.expires_at now ≡ false
    → is_active_user u.status ≡ true
    → auth_body py settings (some raw) now db ≡ touch_session settings now u s db
unfolding auth_body check_session
auth_body_found py settings raw now u s db given is_found is_user valid unexpired lives =
    rw (given, is_found, is_user, valid, unexpired, lives) refl

-- A session that was just made for an active user is accepted with its token, and with the same
-- user, at every time before `session_days` have passed.
pub new_session_accepted :
    (py : Python) (settings : Settings) (session_id : Uuid) (u : AppUser) (raw : String)
    (now later : Time) (db db' : Db)
    → new_session py settings session_id u.id raw now db ≡ ok (raw, db')
    → find (λ x. x.id == u.id) db.users ≡ some u
    → is_active_user u.status ≡ true
    → (raw == "") ≡ false
    → later < now + days settings.session_days
    → (ctx : AuthContext) × ((get_current_auth py settings (some raw) later db').0 ≡ ok ctx)
      × (ctx.user ≡ u)
      × (ctx.session.id ≡ session_id)
unfolding get_current_auth
new_session_accepted py settings session_id u raw now later db db' made is_user lives given early =
    let s = fresh_session py settings session_id u.id raw now in
    let same = new_session-eq-ok py settings session_id u.id raw now db made in
    let (ctx, db2, touched, is_u, is_s) = touch_session-ok settings later u s db' in
    let is_found : find (λ (x : UserSession). x.token_hash == hash py settings raw "session")
          db'.sessions
        ≡ some s =
      ap
        (λ (d : Db).
          find (λ (x : UserSession). x.token_hash == hash py settings raw "session") d.sessions)
        same
      ∙ ground arith in
    let is_user' : find (λ (x : AppUser). x.id == u.id) db'.users ≡ some u =
      ap (λ (d : Db). find (λ (x : AppUser). x.id == u.id) d.users) same ∙ is_user in
    let unexpired : leb s.expires_at later ≡ false = ground arith in
    let answered =
      auth_body_found py settings raw later u s db' given is_found is_user' refl unexpired lives in
    (ctx, ap (λ r. (settled db' r).0) (answered ∙ touched), is_u, is_s)
