-- ===== src/Auth/Outcomes.antt =====
-- What a verification has done when it returns.
use travel_web_api.Auth.Frame.{
  SameRest, SameRest-refl, SameRest-trans, SameRest-eq, SameTables, SameTables-refl,
  SameTables-trans, insert_identity-SameTables, insert_redemption-SameTables,
  new_session-SameTables, insert_grant-eq-ok, redeem-SameTables, touch_identity-SameTables,
  create_user-SameTables, >>=-passed,
}
use travel_web_api.Auth.Verify.{
  AuthVerification, VerifyCall, new_session, verified_with, is_email_identity, touch_identity,
  login_with, redeem, registration_grant, email_identity, register_with, register_checked, decide,
}
use travel_web_api.Db.Grants.{Invitation}
use travel_web_api.Db.Inserts.{insert_identity, insert_redemption, insert_grant}
use travel_web_api.Db.Monad.{Db, ok, pure}
use travel_web_api.Db.Statuses.{is_active_user, is_login}
use travel_web_api.Db.Users.{Uuid, AppUser, UserIdentity, EmailOtpChallenge}
use travel_web_api.Invitations.{invitation_is_usable}
use travel_web_api.Prelude.{
  string_eq, nat_eq, ◌==◌, ◌=?◌, Bool-cases, Option-cases, find, String, ◌≡◌, refl, sym, ap, ◌∙◌,
  subst, inl, inr, ◌∷◌, arith,
}
use travel_web_api.Profile.Names.{create_user_with_default_display_name}
use travel_web_api.Python.{Python}
use travel_web_api.Security.{Settings}

registered :
    (settings : Settings) (c : VerifyCall) {db db4 db5 db6 db' : Db} {user : Uuid} {token : String}
    {r : AuthVerification}
    → SameTables db db4
    → db5 ≡ record db4 { grants = registration_grant settings c user ∷ db4.grants }
    → user ≡ c.user.id
    → SameTables db5 db6
    → token ≡ c.raw_token
    → pure (verified_with token) db6 ≡ ok (r, db')
    → SameRest db db'
      × (db'.grants ≡ registration_grant settings c c.user.id ∷ db.grants)
      × (r ≡ verified_with c.raw_token)
registered settings c {db} {db4} {db5} {db6} {db'} {user} {token} {r} before grants_same is_id
      opened is_token done =
    let added : SameRest db4
        (record db4 { grants = registration_grant settings c user ∷ db4.grants }) =
      record {
        same_challenges = refl;
        same_trips = refl;
        same_entries = refl;
        same_adjustments = refl;
      } in
    let middle : SameRest db4 db5 = SameRest-eq grants_same added in
    let same : db' ≡ db6 = cc done in
    let given : registration_grant settings c user ≡ registration_grant settings c c.user.id =
      ap (registration_grant settings c) is_id in
    (
      SameRest-eq same (SameRest-trans before.rest (SameRest-trans middle opened.rest)),
      ap (λ (d : Db). d.grants) same
          ∙ opened.same_grants
          ∙ ap (λ (d : Db). d.grants) grants_same
          ∙ ap (λ g. g ∷ db4.grants) given
          ∙ ap (λ gs. registration_grant settings c c.user.id ∷ gs) before.same_grants,
      cc (done, is_token),
    )

-- A registration adds the initial grant of the new user, and no other row that a snapshot reads.
pub register_with-eq-ok :
    (py : Python) (settings : Settings) (c : VerifyCall) (email : String) (i : Uuid) (db : Db)
    {r : AuthVerification} {db' : Db}
    → register_with py settings c email i db ≡ ok (r, db')
    → SameRest db db'
      × (db'.grants ≡ registration_grant settings c c.user.id ∷ db.grants)
      × (r ≡ verified_with c.raw_token)
unfolding register_with
register_with-eq-ok py settings c email i db {r} {db'} e =
    >>=-passed (create_user_with_default_display_name py settings c.user) _ db e (λ u db1 e1 k1.
      >>=-passed (insert_identity (email_identity c u.id email)) _ db1 k1 (λ _ db2 e2 k2.
        >>=-passed (redeem i c.now) _ db2 k2 (λ _ db3 e3 k3.
          >>=-passed (insert_redemption _) _ db3 k3 (λ _ db4 e4 k4.
            >>=-passed (insert_grant (registration_grant settings c u.id)) _ db4 k4 (λ _ db5 e5 k5.
              >>=-passed (new_session py settings c.session_id u.id c.raw_token c.now) _ db5 k5
                (λ token db6 e6 k6.
                  let (made, is_id) = create_user-SameTables py settings c.user db e1 in
                  let (opened, is_token) =
                    new_session-SameTables py settings c.session_id u.id c.raw_token c.now db5 e6 in
                  registered settings c
                    (SameTables-trans made (
                      SameTables-trans (insert_identity-SameTables _ db1 e2) (
                        SameTables-trans (redeem-SameTables i c.now db2 e3)
                          (insert_redemption-SameTables _ db3 e4))))
                    (insert_grant-eq-ok _ db4 e5) is_id opened is_token k6))))))

-- A login leaves every row that a snapshot reads.
login_with-SameTables :
    (py : Python) (settings : Settings) (c : VerifyCall) (i : UserIdentity) (db : Db)
    {r : AuthVerification} {db' : Db}
    → login_with py settings c i db ≡ ok (r, db')
    → SameTables db db'
unfolding login_with
login_with-SameTables py settings c i db {r} {db'} e =
    elim (Option-cases (find (λ (u : AppUser). u.id == i.user_id) db.users)) [
      | inl nobody ↦
          let same : db' ≡ db = ground arith in
          subst (SameTables db) (sym same) (SameTables-refl db)
      | inr (u, is_user) ↦ elim (Bool-cases (is_active_user u.status)) [
        | inl lives ↦
            let went = rw (is_user, lives, login_with) at e in
            >>=-passed (touch_identity i.id c.now) _ db went (λ _ db1 e1 k1.
              >>=-passed (new_session py settings c.session_id u.id c.raw_token c.now) _ db1 k1
                (λ token db2 e2 k2.
                  let same : db' ≡ db2 = cc k2 in
                  subst (SameTables db) (sym same) (
                    SameTables-trans (touch_identity-SameTables i.id c.now db e1)
                      (new_session-SameTables py settings c.session_id u.id c.raw_token c.now db1
                        e2).0)))
        | inr off ↦
            let same : db' ≡ db = ground arith in
            subst (SameTables db) (sym same) (SameTables-refl db)
      ]
    ]

register_checked-SameRest :
    (py : Python) (settings : Settings) (c : VerifyCall) (ch : EmailOtpChallenge) (db : Db)
    {r : AuthVerification} {db' : Db}
    → register_checked py settings c ch db ≡ ok (r, db')
    → SameRest db db'
unfolding register_checked
register_checked-SameRest py settings c ch db {r} {db'} e =
    elim (Option-cases (find (λ (i : Invitation). ch.invitation_id =? i.id) db.invitations)) [
      | inl missing ↦
          let same : db' ≡ db = ground arith in subst (SameRest db) (sym same) (SameRest-refl db)
      | inr (i, is_found) ↦ elim (Bool-cases (invitation_is_usable i c.now)) [
        | inl usable ↦
            let went : register_with py settings c ch.email i.id db ≡ ok (r, db') = ground arith in
            (register_with-eq-ok py settings c ch.email i.id db went).0
        | inr spent ↦
            let same : db' ≡ db = ground arith in subst (SameRest db) (sym same) (SameRest-refl db)
      ]
    ]

-- Whatever a right code leads to, the challenges stay as they are.
pub decide-SameRest :
    (py : Python) (settings : Settings) (c : VerifyCall) (ch : EmailOtpChallenge) (db : Db)
    {r : AuthVerification} {db' : Db}
    → decide py settings c ch db ≡ ok (r, db')
    → SameRest db db'
unfolding decide
decide-SameRest py settings c ch db {r} {db'} e =
    elim (Option-cases (find (is_email_identity ch.email) db.identities)) [
      | inr (i, known) ↦ elim (Bool-cases (is_login ch.mode)) [
        | inl login ↦
            let went : login_with py settings c i db ≡ ok (r, db') = ground arith in
            (login_with-SameTables py settings c i db went).rest
        | inr other ↦
            let same : db' ≡ db = ground arith in subst (SameRest db) (sym same) (SameRest-refl db)
      ]
      | inl unknown ↦ elim (Bool-cases (is_login ch.mode)) [
        | inl login ↦
            let same : db' ≡ db = ground arith in subst (SameRest db) (sym same) (SameRest-refl db)
        | inr other ↦
            let went : register_checked py settings c ch db ≡ ok (r, db') = ground arith in
            register_checked-SameRest py settings c ch db went
      ]
    ]
