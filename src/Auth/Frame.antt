-- ===== src/Auth/Frame.antt =====
-- What the branches of a right code leave alone: the challenges, the trips, the quota entries and
-- the adjustments.
use travel_web_api.Auth.Verify.{new_session, touch_identity, redeem}
use travel_web_api.Db.Grants.{InvitationRedemption, QuotaGrant}
use travel_web_api.Db.Inserts.{
  insert_user, insert_identity, insert_session, insert_redemption, insert_grant,
}
use travel_web_api.Db.Monad.{Db, ok, Tx, ◌>>=◌, >>=-eq-ok}
use travel_web_api.Db.Users.{Uuid, Time, AppUser, UserIdentity, UserSession}
use travel_web_api.Prelude.{
  string_eq, nat_eq, ◌==◌, Bool-cases, update_where, ℕ, zero, suc, String, ◌≡◌, refl, sym, ap, ◌∙◌,
  subst, inl, inr, ◌||◌, some, ◌∷◌, arith,
}
use travel_web_api.Profile.Names.{
  former_name_digest, is_quarantined, is_name_taken, NewUser, default_user, try_names,
  create_user_with_default_display_name,
}
use travel_web_api.Python.{Python}
use travel_web_api.Security.{Settings}

pub record SameRest (db db' : Db) : Type 0 where
  pub same_challenges : db'.challenges ≡ db.challenges
  pub same_trips : db'.trips ≡ db.trips
  pub same_entries : db'.entries ≡ db.entries
  pub same_adjustments : db'.adjustments ≡ db.adjustments

pub SameRest-refl : (db : Db) → SameRest db db
SameRest-refl db = record {
  same_challenges = refl;
  same_trips = refl;
  same_entries = refl;
  same_adjustments = refl;
}

pub SameRest-trans : {a b c : Db} → SameRest a b → SameRest b c → SameRest a c
SameRest-trans s t = record {
  same_challenges = t.same_challenges ∙ s.same_challenges;
  same_trips = t.same_trips ∙ s.same_trips;
  same_entries = t.same_entries ∙ s.same_entries;
  same_adjustments = t.same_adjustments ∙ s.same_adjustments;
}

pub SameRest-eq : {a b c : Db} → c ≡ b → SameRest a b → SameRest a c
SameRest-eq {a} e s = subst (SameRest a) (sym e) s

-- The writes, each with the grants as well.
pub record SameTables (db db' : Db) : Type 0 where
  pub rest : SameRest db db'
  pub same_grants : db'.grants ≡ db.grants

pub SameTables-refl : (db : Db) → SameTables db db
SameTables-refl db = record { rest = SameRest-refl db; same_grants = refl }

pub SameTables-trans : {a b c : Db} → SameTables a b → SameTables b c → SameTables a c
SameTables-trans s t = record {
  rest = SameRest-trans s.rest t.rest;
  same_grants = t.same_grants ∙ s.same_grants;
}

keeps_eq : {a b c : Db} → c ≡ b → SameTables a b → SameTables a c
keeps_eq {a} e k = subst (SameTables a) (sym e) k

pub keeps_fields :
    (db d : Db)
    → d.challenges ≡ db.challenges
    → d.trips ≡ db.trips
    → d.entries ≡ db.entries
    → d.adjustments ≡ db.adjustments
    → d.grants ≡ db.grants
    → SameTables db d
keeps_fields db d e1 e2 e3 e4 e5 = record {
  rest = record { same_challenges = e1; same_trips = e2; same_entries = e3; same_adjustments = e4 };
  same_grants = e5;
}

pub insert_user-eq-ok :
    (u : AppUser) (db : Db) {x : Unit {0}} {db' : Db}
    → insert_user u db ≡ ok (x, db')
    → db' ≡ record db { users = u ∷ db.users }
unfolding insert_user
insert_user-eq-ok u db e = ground arith

pub insert_user-SameTables :
    (u : AppUser) (db : Db) {x : Unit {0}} {db' : Db}
    → insert_user u db ≡ ok (x, db')
    → SameTables db db'
insert_user-SameTables u db e =
    keeps_eq (insert_user-eq-ok u db e) (keeps_fields db _ refl refl refl refl refl)

pub insert_identity-SameTables :
    (i : UserIdentity) (db : Db) {x : Unit {0}} {db' : Db}
    → insert_identity i db ≡ ok (x, db')
    → SameTables db db'
unfolding insert_identity
insert_identity-SameTables i db {db' = db'} e =
    let same : db' ≡ record db { identities = i ∷ db.identities } = ground arith in
    keeps_eq same (keeps_fields db _ refl refl refl refl refl)

pub insert_redemption-SameTables :
    (r : InvitationRedemption) (db : Db) {x : Unit {0}} {db' : Db}
    → insert_redemption r db ≡ ok (x, db')
    → SameTables db db'
unfolding insert_redemption
insert_redemption-SameTables r db {db' = db'} e =
    let same : db' ≡ record db { redemptions = r ∷ db.redemptions } = ground arith in
    keeps_eq same (keeps_fields db _ refl refl refl refl refl)

pub insert_session-SameTables :
    (s : UserSession) (db : Db) {x : Unit {0}} {db' : Db}
    → insert_session s db ≡ ok (x, db')
    → SameTables db db'
unfolding insert_session
insert_session-SameTables s db {db' = db'} e =
    let same : db' ≡ record db { sessions = s ∷ db.sessions } = ground arith in
    keeps_eq same (keeps_fields db _ refl refl refl refl refl)

pub new_session-SameTables :
    (py : Python) (settings : Settings) (session_id user : Uuid) (raw : String) (now : Time)
    (db : Db) {r : String} {db' : Db}
    → new_session py settings session_id user raw now db ≡ ok (r, db')
    → SameTables db db' × (r ≡ raw)
unfolding new_session
new_session-SameTables py settings session_id user raw now db {r} {db'} e =
    let (_, db1, e1, k1) = >>=-eq-ok (insert_session _) _ db e in
    let same : db' ≡ db1 = cc k1 in (keeps_eq same (insert_session-SameTables _ db e1), cc k1)

pub insert_grant-eq-ok :
    (g : QuotaGrant) (db : Db) {x : Unit {0}} {db' : Db}
    → insert_grant g db ≡ ok (x, db')
    → db' ≡ record db { grants = g ∷ db.grants }
unfolding insert_grant
insert_grant-eq-ok g db e = ground arith

pub try_names-SameTables :
    (py : Python) (settings : Settings) (c : NewUser) (n : ℕ) (db : Db) {u : AppUser} {db' : Db}
    → try_names py settings c n db ≡ ok (u, db')
    → SameTables db db' × (u.id ≡ c.id)
unfolding try_names
try_names-SameTables py settings c zero db e = cc e
try_names-SameTables py settings c (suc n) db {u} {db'} e =
    let name = c.draws n in
    elim (Bool-cases (
      is_name_taken name.uniqueness_key db
      || is_quarantined (former_name_digest py settings name.uniqueness_key) (c.times n) db)) [
        | inl taken ↦ try_names-SameTables py settings c n db {u = u} {db' = db'} (rw taken at e)
        | inr free ↦
            let (_, db1, e1, k1) =
              >>=-eq-ok (insert_user (default_user c name)) _ db (rw free at e) in
            let same : db' ≡ db1 = cc k1 in
            let is_user : u ≡ default_user c name = cc k1 in
            (keeps_eq same (insert_user-SameTables _ db e1), ap (λ (x : AppUser). x.id) is_user)
      ]

pub redeem-SameTables :
    (i : Uuid) (now : Time) (db : Db) {x : Unit {0}} {db' : Db}
    → redeem i now db ≡ ok (x, db')
    → SameTables db db'
unfolding redeem
redeem-SameTables i now db {db' = db'} e =
    let same : db' ≡ record db {
      invitations =
          update_where (λ y. y.id == i) (λ y. record y { redeemed_at = some now; updated_at = now })
            db.invitations;
    } =
      cc e in
    keeps_eq same (keeps_fields db _ refl refl refl refl refl)

pub touch_identity-SameTables :
    (i : Uuid) (now : Time) (db : Db) {x : Unit {0}} {db' : Db}
    → touch_identity i now db ≡ ok (x, db')
    → SameTables db db'
unfolding touch_identity
touch_identity-SameTables i now db {db' = db'} e =
    let same : db' ≡ record db {
      identities =
          update_where (λ y. y.id == i) (λ y. record y { last_login_at = some now }) db.identities;
    } =
      cc e in
    keeps_eq same (keeps_fields db _ refl refl refl refl refl)

pub create_user-SameTables :
    (py : Python) (settings : Settings) (c : NewUser) (db : Db) {u : AppUser} {db' : Db}
    → create_user_with_default_display_name py settings c db ≡ ok (u, db')
    → SameTables db db' × (u.id ≡ c.id)
unfolding create_user_with_default_display_name
create_user-SameTables py settings c db e = try_names-SameTables py settings c 32 db e

-- The two parts of a body that returned, for a proof that goes on from there.
pub >>=-passed {κ} :
    {A B : Type 0} {P : Type κ} (m : Tx A) (f : A → Tx B) (db : Db) {r : B × Db}
    → (m >>= f) db ≡ ok r
    → ((a : A) (db1 : Db) → m db ≡ ok (a, db1) → f a db1 ≡ ok r → P)
    → P
>>=-passed m f db h k = let (a, db1, e, q) = >>=-eq-ok m f db h in k a db1 e q
