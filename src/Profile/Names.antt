-- ===== src/Profile/Names.antt =====
-- create_user_with_default_display_name, quarantine_former_name and rename_display_name, with the
-- constants and the digest of profile/display_names.py. The normal form of a requested name rests
-- on Python's Unicode tables, so a rename takes what `normalize_display_name` returned.
use travel_web_api.Db.Inserts.{insert_user}
use travel_web_api.Db.Monad.{
  Db, runtime_error, display_name_mutation_error, ok, err, Tx, App, transaction, pure, ◌>>◌,
}
use travel_web_api.Db.Statuses.{UserStatus, Role, is_active_user}
use travel_web_api.Db.Users.{Uuid, Time, Digest, AppUser, DisplayNameQuarantine}
use travel_web_api.Prelude.{
  ltb, if◌then◌else◌, string_eq, nat_eq, ◌==◌, ◌<>◌, find, any, update_where, ℕ, zero, suc, ◌+◌,
  String, Bool, false, ◌&&◌, ◌||◌, Option, none, some, ◌∷◌,
}
use travel_web_api.Python.{Python, days}
use travel_web_api.Security.{Settings}

pub record NormalizedDisplayName : Type 0 where
  pub presentation : String
  pub uniqueness_key : String

abbrev pub former_name_quarantine_days : ℕ
former_name_quarantine_days = 15

abbrev pub rename_cooldown_days : ℕ
rename_cooldown_days = 7

abbrev pub former_name_digest : Python → Settings → String → Digest
former_name_digest py settings name =
    py.hmac settings.secret_hash_pepper ("display-name-quarantine:v1\0" <> name)

-- The name stands in the quarantine and has not left it.
abbrev pub is_quarantined : Digest → Time → Db → Bool
is_quarantined digest now db =
    any (λ q. q.name_digest == digest && ltb now q.expires_at) db.quarantine

abbrev pub is_name_taken : String → Db → Bool
is_name_taken key db = any (λ u. u.display_name_normalized == key) db.users

-- The fields of the new user, the names that the attempts draw and the time of each.
pub record NewUser : Type 0 where
  pub id : Uuid
  pub public_id : String
  pub now : Time
  pub draws : ℕ → NormalizedDisplayName
  pub times : ℕ → Time

abbrev pub default_user : NewUser → NormalizedDisplayName → AppUser
default_user c name = record {
  id = c.id;
  public_id = c.public_id;
  status = UserStatus.active;
  role = Role.user;
  display_name = name.presentation;
  display_name_normalized = name.uniqueness_key;
  display_name_changed_at = none;
  created_at = c.now;
  updated_at = c.now;
}

-- The attempts that are left. A name taken meanwhile would be refused by the unique index and tried
-- again; inside one transaction that runs alone the query before it has seen every name.
unfoldable pub try_names : Python → Settings → NewUser → ℕ → Tx AppUser
try_names py settings c zero db =
    err (runtime_error "could not allocate a unique default Display Name")
try_names py settings c (suc n) db =
    let next = try_names py settings c n db in
    let name = c.draws n in
    let digest = former_name_digest py settings name.uniqueness_key in
    if is_name_taken name.uniqueness_key db || is_quarantined digest (c.times n) db
    then next
    else (do insert_user (default_user c name); pure (default_user c name)) db

unfoldable pub create_user_with_default_display_name : Python → Settings → NewUser → Tx AppUser
create_user_with_default_display_name py settings c = try_names py settings c 32

abbrev pub quarantined : Digest → Time → DisplayNameQuarantine
quarantined digest now = record {
  name_digest = digest;
  expires_at = now + days former_name_quarantine_days;
  created_at = now;
}

-- `INSERT … ON CONFLICT DO UPDATE` on the digest.
unfoldable pub quarantine_former_name : Python → Settings → String → Time → Db → Db
quarantine_former_name py settings name now db =
    let digest = former_name_digest py settings name in
    record db {
      quarantine =
          if any (λ q. q.name_digest == digest) db.quarantine
          then update_where (λ q. q.name_digest == digest) (λ _. quarantined digest now)
              db.quarantine
          else quarantined digest now ∷ db.quarantine;
    }

pub record DisplayNameMutation : Type 0 where
  pub public_user_id : String
  pub display_name : String
  pub changed_at : Option Time

abbrev pub mutation_of : AppUser → DisplayNameMutation
mutation_of u = record {
  public_user_id = u.public_id;
  display_name = u.display_name;
  changed_at = u.display_name_changed_at;
}

-- `available_at is not None and now < available_at`
abbrev pub is_cooling : AppUser → Time → Bool
is_cooling u now = elim u.display_name_changed_at [
  | none ↦ false
  | some at ↦ ltb now (at + days rename_cooldown_days)
]

abbrev pub renamed : NormalizedDisplayName → Time → AppUser → AppUser
renamed name now u = record u {
  display_name = name.presentation;
  display_name_normalized = name.uniqueness_key;
  display_name_changed_at = some now;
  updated_at = now;
}

abbrev pub put_name : NormalizedDisplayName → Time → AppUser → Tx DisplayNameMutation
put_name name now u db = ok (
  mutation_of (renamed name now u),
  record db { users = update_where (λ x. x.id == u.id) (λ _. renamed name now u) db.users },
)

unfoldable pub rename_active :
    Python → Settings → NormalizedDisplayName → Time → AppUser → Tx DisplayNameMutation
rename_active py settings name now u db =
    let digest = former_name_digest py settings name.uniqueness_key in
    if name.presentation == u.display_name
    then ok (mutation_of u, db)
    else if is_cooling u now
    then err (display_name_mutation_error "DISPLAY_NAME_CHANGE_COOLDOWN")
    else if name.uniqueness_key == u.display_name_normalized
    then put_name name now u db
    else if is_name_taken name.uniqueness_key db || is_quarantined digest now db
    then err (display_name_mutation_error "DISPLAY_NAME_UNAVAILABLE")
    else put_name name now u (quarantine_former_name py settings u.display_name_normalized now db)

unfoldable pub rename_body :
    Python → Settings → Uuid → NormalizedDisplayName → Time → Tx DisplayNameMutation
rename_body py settings user name now db = elim (find (λ u. u.id == user) db.users) [
  | none ↦ err (display_name_mutation_error "AUTH_REQUIRED")
  | some u ↦
      if is_active_user u.status
      then rename_active py settings name now u db
      else err (display_name_mutation_error "AUTH_REQUIRED")
]

unfoldable pub rename_display_name :
    Python → Settings → Uuid → NormalizedDisplayName → Time → App DisplayNameMutation
rename_display_name py settings user name now = transaction (rename_body py settings user name now)
