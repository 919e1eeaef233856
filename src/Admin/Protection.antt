-- ===== src/Admin/Protection.antt =====
-- Who may change whom: what a user change leaves alone, and what disabling a user ends.
use travel_web_api.Admin.Context.{Outside, AdminContext, is_owner}
use travel_web_api.Admin.Idempotency.{AdminIdempotencyClaim}
use travel_web_api.Admin.Outcomes.{
  Untouched, Untouched-eq, recorded, replayed, performed, under_claim-Ran,
}
use travel_web_api.Admin.Users.{
  find_user_by_public_id, assert_target_allowed, under_claim, UserMutation, mutation_claim,
  is_role_change, mutated, mutation_response, mutation_audit, write_mutation, finish_mutation,
  mutate_target, mutate_claimed, mutate_user,
}
use travel_web_api.Db.Monad.{Db, ok, transaction-keeps}
use travel_web_api.Db.Statuses.{is_admin}
use travel_web_api.Db.Users.{Uuid, Time, AppUser}
use travel_web_api.Json.{JsonObject}
use travel_web_api.Prelude.{
  if◌then◌else◌, string_eq, nat_eq, ◌==◌, ◌=?◌, Option-cases, find, String, ◌≡◌, refl, sym, ap, ◌∙◌,
  ◌≢◌, ◌⊎◌, inl, inr, Bool, true, false, ◌&&◌, ◌||◌, some, arith,
}
use travel_web_api.Python.{Python}
use travel_web_api.Rows.{some_eq, has_key, Distinct, find_key, find-set_row_ne}
use travel_web_api.Security.{Settings}

abbrev pub user_key : AppUser → Uuid
user_key u = u.id

-- What a change that returned wrote to the users and the sessions.
pub record Changed (ctx : AdminContext) (settings : Settings) (m : UserMutation) (db db' : Db)
    : Type 0 where
  pub target : AppUser
  pub after : AppUser
  pub is_target : find (λ u. u.public_id == m.target_public_id) db.users ≡ some target
  pub is_allowed :
      assert_target_allowed ctx settings target
        (is_role_change m.action)
        (m.action == "DISABLE_USER")
      ≡ ok tt
  pub is_after : mutated m.action m.now target ≡ some after
  pub same_users : db'.users ≡ (write_mutation m after db).users
  pub same_sessions : db'.sessions ≡ (write_mutation m after db).sessions
  pub untouched : Untouched db db'

module _ (o : Outside) (py : Python) (settings : Settings) (ctx : AdminContext)
    (m : UserMutation) where
  finish_mutation-writes :
      (w : AdminIdempotencyClaim) (before after : AppUser) (db : Db) {r : JsonObject} {db' : Db}
      → finish_mutation o py settings ctx m w before after db ≡ ok (r, db')
      → (db'.users ≡ (write_mutation m after db).users)
        × (db'.sessions ≡ (write_mutation m after db).sessions)
        × Untouched db db'
  unfolding finish_mutation
  finish_mutation-writes w before after db h =
      let db1 = write_mutation m after db in
      let (cs, same, _) =
        recorded o py settings m.audit (mutation_audit ctx m before after) w 200
          (mutation_response after) m.now db1 h in
      (
        ap (λ (d : Db). d.users) same,
        ap (λ (d : Db). d.sessions) same,
        Untouched-eq same (record {
          same_trips = refl;
          same_entries = refl;
          same_grants = refl;
          same_adjustments = refl;
        }),
      )

  pub mutate_claimed-Changed :
      (w : AdminIdempotencyClaim) (db : Db) {r : JsonObject} {db' : Db}
      → mutate_claimed o py settings ctx m w db ≡ ok (r, db')
      → Changed ctx settings m db db'
  unfolding mutate_claimed find_user_by_public_id mutate_target
  mutate_claimed-Changed w db {r} {db'} h =
      elim (Option-cases (find (λ u. u.public_id == m.target_public_id) db.users)) [
        | inl nobody ↦ absurd (ground arith)
        | inr (target, is_target) ↦
            let went : mutate_target o py settings ctx m w target db ≡ ok (r, db') = ground arith in
            let allowed : assert_target_allowed ctx settings target (is_role_change m.action)
                  (m.action == "DISABLE_USER")
                ≡ ok tt =
              ground arith in
            elim (Option-cases (mutated m.action m.now target)) [
              | inl nameless ↦ absurd (ground arith)
              | inr (after, is_after) ↦
                  let done : finish_mutation o py settings ctx m w target after db ≡ ok (r, db') =
                    ground arith in
                  let (users, sessions, rest) = finish_mutation-writes w target after db done in
                  record {
                    target = target;
                    after = after;
                    is_target = is_target;
                    is_allowed = allowed;
                    is_after = is_after;
                    same_users = users;
                    same_sessions = sessions;
                    untouched = rest;
                  }
            ]
      ]

  pub mutate_user-cases :
      (db : Db) {r : JsonObject} {db' : Db}
      → under_claim o py settings (mutation_claim o ctx m) (mutate_claimed o py settings ctx m) db
        ≡ ok (r, db')
      → ((db'.users ≡ db.users) × Untouched db db') ⊎ Changed ctx settings m db db'
  mutate_user-cases db h =
      elim (under_claim-Ran o py settings (mutation_claim o ctx m)
        (mutate_claimed o py settings ctx m) db h) [
          | replayed cs same ↦ inl (
            ap (λ (d : Db). d.users) same,
            Untouched-eq same (record {
              same_trips = refl;
              same_entries = refl;
              same_grants = refl;
              same_adjustments = refl;
            }),
          )
          | performed w cs ran ↦
              let ch = mutate_claimed-Changed w (record db { claims = cs }) ran in
              inr (record {
                target = ch.target;
                after = ch.after;
                is_target = ch.is_target;
                is_allowed = ch.is_allowed;
                is_after = ch.is_after;
                same_users = ch.same_users;
                same_sessions = ch.same_sessions;
                untouched = record {
                  same_trips = ch.untouched.same_trips;
                  same_entries = ch.untouched.same_entries;
                  same_grants = ch.untouched.same_grants;
                  same_adjustments = ch.untouched.same_adjustments;
                };
              })
        ]

-- The user is out of the actor's reach: for everyone but the owner these are administrators, the
-- owner, the actor, and anybody when a role is changed; for the owner it is the owner himself, when
-- he would be disabled.
abbrev pub is_protected : AdminContext → Settings → String → AppUser → Bool
is_protected ctx settings action u =
    let owns = settings.admin_owner_user_id =? u.id in
    if is_owner ctx
    then action == "DISABLE_USER" && owns
    else is_role_change action || u.id == ctx.auth.user.id || is_admin u.role || owns

assert_target_allowed-refuses :
    (ctx : AdminContext) (settings : Settings) (action : String) (u : AppUser)
    → assert_target_allowed ctx settings u (is_role_change action) (action == "DISABLE_USER")
      ≡ ok tt
    → is_protected ctx settings action u ≡ false
unfolding assert_target_allowed
assert_target_allowed-refuses ctx settings action u h = ground arith

pub mutated-id :
    (action : String) (now : Time) (u : AppUser) {v : AppUser}
    → mutated action now u ≡ some v
    → v.id ≡ u.id
unfolding mutated
mutated-id action now u h = ground arith

Changed-other :
    (ctx : AdminContext) (settings : Settings) (m : UserMutation) {db db' : Db} (u : AppUser)
    → Distinct user_key db.users
    → find (has_key user_key u.id) db.users ≡ some u
    → is_protected ctx settings m.action u ≡ true
    → Changed ctx settings m db db'
    → find (has_key user_key u.id) db'.users ≡ some u
Changed-other ctx settings m {db} {db'} u distinct is_u protected ch =
    let own = find_key user_key _ db.users distinct ch.is_target in
    let free = assert_target_allowed-refuses ctx settings m.action ch.target ch.is_allowed in
    let apart : u.id ≢ ch.target.id = λ same.
      let found : find (has_key user_key u.id) db.users ≡ some ch.target = rw same own in
      let equal : u ≡ ch.target = some_eq (sym is_u ∙ found) in
      let both = sym protected ∙ ap (is_protected ctx settings m.action) equal ∙ free in cc in
    let id_kept = mutated-id m.action m.now ch.target ch.is_after in
    ap (find (has_key user_key u.id)) ch.same_users
    ∙ find-set_row_ne user_key u.id ch.after.id ch.after db.users refl
        (λ same. apart (same ∙ id_kept))
    ∙ is_u

-- No call of mutate_user changes the row of a user who is out of the actor's reach, whatever its
-- action and key: for an actor who is not the owner, the administrators, the owner, the actor
-- himself and, where a role is changed, everybody; for the owner, himself when he disables.
pub mutate_user-protected :
    (o : Outside) (py : Python) (settings : Settings) (ctx : AdminContext) (m : UserMutation)
    (db : Db) (u : AppUser)
    → Distinct user_key db.users
    → find (has_key user_key u.id) db.users ≡ some u
    → is_protected ctx settings m.action u ≡ true
    → find (has_key user_key u.id) (mutate_user o py settings ctx m db).1.users ≡ some u
unfolding mutate_user
mutate_user-protected o py settings ctx m db u distinct is_u protected =
    transaction-keeps (λ d. find (has_key user_key u.id) d.users ≡ some u)
      (under_claim o py settings (mutation_claim o ctx m) (mutate_claimed o py settings ctx m)) db
      (λ r db' h. elim (mutate_user-cases o py settings ctx m db h) [
        | inl (same, _) ↦ ap (find (has_key user_key u.id)) same ∙ is_u
        | inr ch ↦ Changed-other ctx settings m u distinct is_u protected ch
      ])
      is_u
