-- ===== src/Admin/Disabling.antt =====
-- A user that is disabled is signed out everywhere.
use travel_web_api.Admin.Context.{Outside, AdminContext}
use travel_web_api.Admin.Idempotency.{admin_actor_scope_hash, is_claim_of}
use travel_web_api.Admin.Outcomes.{under_claim-new}
use travel_web_api.Admin.Protection.{user_key, Changed, mutate_claimed-Changed, mutated-id}
use travel_web_api.Admin.Users.{
  under_claim, UserMutation, mutation_claim, mutated, mutate_claimed, mutate_user,
}
use travel_web_api.Auth.Sessions.{
  AuthContext, touch_session, check_session, auth_body, get_current_auth,
}
use travel_web_api.Db.Monad.{Db, ok, transaction-eq-ok}
use travel_web_api.Db.Statuses.{is_active_user}
use travel_web_api.Db.Users.{Uuid, Time, AppUser, UserSession}
use travel_web_api.Json.{JsonObject}
use travel_web_api.Prelude.{
  string_eq, nat_eq, ◌==◌, Bool-cases, Option-cases, find, String, ◌≡◌, sym, ap, ◌∙◌, subst, ◌≢◌,
  inl, inr, true, false, Option, none, some, arith,
}
use travel_web_api.Python.{Python}
use travel_web_api.Rows.{
  some_eq, find_holds, has_key, Distinct, set_row, find_key, find-set_row_self,
}
use travel_web_api.Security.{Settings, hash}

-- Whom a request is accepted for.
pub record AcceptedFor (u : AppUser) (db : Db) : Type 0 where
  pub id : Uuid
  pub is_user : find (has_key user_key id) db.users ≡ some u
  pub lives : is_active_user u.status ≡ true

touch_session-user :
    (settings : Settings) (now : Time) (u : AppUser) (s : UserSession) (db : Db) {c : AuthContext}
    {db' : Db}
    → touch_session settings now u s db ≡ ok (c, db')
    → c.user ≡ u
unfolding touch_session
touch_session-user settings now u s db h = ground arith

check_session-user :
    (settings : Settings) (now : Time) (u : AppUser) (s : UserSession) (db : Db) {c : AuthContext}
    {db' : Db}
    → check_session settings now u s db ≡ ok (c, db')
    → (is_active_user u.status ≡ true) × (c.user ≡ u)
unfolding check_session
check_session-user settings now u s db {c} {db'} h =
    let went : touch_session settings now u s db ≡ ok (c, db') = ground arith in
    (ground arith, touch_session-user settings now u s db went)

auth_body-AcceptedFor :
    (py : Python) (settings : Settings) (token : Option String) (now : Time) (db : Db)
    {c : AuthContext} {db' : Db}
    → auth_body py settings token now db ≡ ok (c, db')
    → AcceptedFor c.user db
unfolding auth_body
auth_body-AcceptedFor py settings none now db h = cc h
auth_body-AcceptedFor py settings (some raw) now db {c} {db'} h = elim (Bool-cases (raw == "")) [
  | inl empty ↦ absurd (ground arith)
  | inr given ↦
      elim (Option-cases
        (find (λ (x : UserSession). x.token_hash == hash py settings raw "session") db.sessions)) [
          | inl missing ↦ absurd (ground arith)
          | inr (s, is_session) ↦ elim (Option-cases (find (has_key user_key s.user_id) db.users)) [
            | inl nobody ↦ absurd (ground arith)
            | inr (u, is_user) ↦
                let went : check_session settings now u s db ≡ ok (c, db') = ground arith in
                let (lives, same) = check_session-user settings now u s db went in
                subst (λ v. AcceptedFor v db) (sym same)
                  (record { id = s.user_id; is_user = is_user; lives = lives })
          ]
        ]
]

get_current_auth-AcceptedFor :
    (py : Python) (settings : Settings) (token : Option String) (now : Time) (db : Db)
    {c : AuthContext}
    → (get_current_auth py settings token now db).0 ≡ ok c
    → AcceptedFor c.user db
unfolding get_current_auth
get_current_auth-AcceptedFor py settings token now db h =
    auth_body-AcceptedFor py settings token now db
      (transaction-eq-ok (auth_body py settings token now) db h)

mutated-disabled :
    (now : Time) (u : AppUser) {v : AppUser}
    → mutated "DISABLE_USER" now u ≡ some v
    → is_active_user v.status ≡ false
unfolding mutated
mutated-disabled now u h = ground arith

Changed-disabled :
    (ctx : AdminContext) (settings : Settings) (m : UserMutation) {db db' : Db} {u : AppUser}
    {v : AppUser}
    → Distinct user_key db.users
    → m.action ≡ "DISABLE_USER"
    → find (λ x. x.public_id == m.target_public_id) db.users ≡ some u
    → Changed ctx settings m db db'
    → AcceptedFor v db'
    → v.id ≢ u.id
Changed-disabled ctx settings m {db} {db'} {u} {v} distinct disables is_u ch accepted same =
    let target_u : ch.target ≡ u = some_eq (sym ch.is_target ∙ is_u) in
    let id_kept = mutated-id m.action m.now ch.target ch.is_after in
    let own = find_key user_key _ db.users distinct ch.is_target in
    let put : find (has_key user_key ch.target.id) db'.users ≡ some ch.after =
      ap (find (has_key user_key ch.target.id))
        (ch.same_users ∙ ap (λ k. set_row user_key k ch.after db.users) id_kept)
      ∙ find-set_row_self user_key ch.target.id ch.after db.users id_kept own in
    let key_v : v.id ≡ accepted.id =
      ground (arith, find_holds (has_key user_key accepted.id) db'.users accepted.is_user) in
    let keys : accepted.id ≡ ch.target.id =
      sym key_v ∙ same ∙ ap (λ (x : AppUser). x.id) (sym target_u) in
    let found : find (has_key user_key ch.target.id) db'.users ≡ some v =
      subst (λ k. find (has_key user_key k) db'.users ≡ some v) keys accepted.is_user in
    let after_v : ch.after ≡ v = some_eq (sym put ∙ found) in
    let off =
      mutated-disabled m.now ch.target
        (subst (λ a. mutated a m.now ch.target ≡ some ch.after) disables ch.is_after) in
    let both = sym off ∙ ap (λ (x : AppUser). is_active_user x.status) after_v ∙ accepted.lives in
    cc

-- After a call of mutate_user with a new key that disables a user and returns, no request is
-- accepted for that user, with any token at any time.
pub mutate_user-disabled :
    (o : Outside) (py : Python) (settings : Settings) (ctx : AdminContext) (m : UserMutation)
    (db : Db) (u : AppUser) (r : JsonObject) (token : Option String) (later : Time)
    (c : AuthContext)
    → Distinct user_key db.users
    → m.action ≡ "DISABLE_USER"
    → find (λ x. x.public_id == m.target_public_id) db.users ≡ some u
    → find
        (is_claim_of
          (admin_actor_scope_hash py settings (o.uuid_text ctx.auth.user.id))
          m.idempotency_key)
        db.claims
      ≡ none
    → (mutate_user o py settings ctx m db).0 ≡ ok r
    → (get_current_auth py settings token later (mutate_user o py settings ctx m db).1).0 ≡ ok c
    → c.user.id ≢ u.id
unfolding mutate_user
mutate_user-disabled o py settings ctx m db u r token later c distinct disables is_u new done
      accepted =
    let body =
      under_claim o py settings (mutation_claim o ctx m) (mutate_claimed o py settings ctx m) in
    let returned = transaction-eq-ok body db done in
    let (w, cs, ran) =
      under_claim-new o py settings (mutation_claim o ctx m) (mutate_claimed o py settings ctx m) db
        new returned in
    let ch = mutate_claimed-Changed o py settings ctx m w (record db { claims = cs }) ran in
    Changed-disabled ctx settings m distinct disables is_u ch
      (get_current_auth-AcceptedFor py settings token later _ accepted)
