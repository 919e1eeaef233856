-- ===== src/Account/Erasure.antt =====
-- After a closure that succeeded, no row names the user.
use travel_web_api.Account.Closure.{
  Requests, deidentify_trip_request, CloseCall, admin_subject_hash, erased_trip, erase_trip,
  erase_trips, erase_projections, erase_rows, erase_account, close_with, verified_email_of,
  close_body, close_account,
}
use travel_web_api.Auth.Verify.{Outcome, verified}
use travel_web_api.Db.Grants.{QuotaAdjustment, AdminAuditLog}
use travel_web_api.Db.Monad.{Db, ok, ok_eq, transaction-eq-ok}
use travel_web_api.Db.Statuses.{is_active_trip}
use travel_web_api.Db.Trips.{UserTrip}
use travel_web_api.Db.Users.{Uuid, Time, Digest, AppUser, EmailOtpChallenge}
use travel_web_api.Prelude.{
  string_eq, nat_eq, ◌==◌, ◌=?◌, Bool-cases, Option-cases, find, any, update_where, delete_where,
  String, ◌≡◌, refl, sym, ap, ◌∙◌, subst, inl, inr, Bool, true, false, ◌&&◌, ◌||◌, none, some, List,
  [], ◌∷◌, arith,
}
use travel_web_api.Profile.Names.{quarantine_former_name}
use travel_web_api.Python.{Python}
use travel_web_api.Rows.{some_eq}
use travel_web_api.Security.{Settings}

any-delete_same {ℓ} :
    {A : Type ℓ} (p q : A → Bool) (xs : List A)
    → ((x : A) → p x ≡ true → q x ≡ true)
    → any p (delete_where q xs) ≡ false
any-delete_same p q [] h = refl
any-delete_same p q (x ∷ xs) h =
    let rest = any-delete_same p q xs h in
    elim (Bool-cases (q x)) [
      | inl gone ↦ rw gone rest
      | inr kept ↦ elim (Bool-cases (p x)) [
        | inl hit ↦ absurd (cc (kept, h x hit))
        | inr miss ↦ rw (kept, miss) rest
      ]
    ]

any-update_cleared {ℓ} :
    {A : Type ℓ} (p : A → Bool) (f : A → A) (xs : List A)
    → ((x : A) → p (f x) ≡ false)
    → any p (update_where p f xs) ≡ false
any-update_cleared p f [] h = refl
any-update_cleared p f (x ∷ xs) h =
    let rest = any-update_cleared p f xs h in
    elim (Bool-cases (p x)) [ inl hit ↦ rw (hit, h x) rest | inr miss ↦ rw (miss, miss) rest ]

any-update_kept {ℓ} :
    {A : Type ℓ} (p q : A → Bool) (f : A → A) (xs : List A)
    → ((x : A) → p (f x) ≡ p x)
    → any p (update_where q f xs) ≡ any p xs
any-update_kept p q f [] h = refl
any-update_kept p q f (x ∷ xs) h = ground (arith, h x, any-update_kept p q f xs h)

-- The user does not occur: as an id, an owner, an actor or a target.
pub record IsErased (user : Uuid) (db : Db) : Type 0 where
  pub no_user : any (λ u. u.id == user) db.users ≡ false
  pub no_trip : any (λ t. t.user_id =? user) db.trips ≡ false
  pub no_entry : any (λ e. e.user_id == user) db.entries ≡ false
  pub no_grant : any (λ g. g.user_id == user) db.grants ≡ false
  pub no_redemption : any (λ r. r.user_id == user) db.redemptions ≡ false
  pub no_session : any (λ s. s.user_id == user) db.sessions ≡ false
  pub no_identity : any (λ i. i.user_id == user) db.identities ≡ false
  pub no_challenge : any (λ c. c.user_id =? user) db.challenges ≡ false
  pub no_claim : any (λ c. c.actor_user_id =? user) db.claims ≡ false
  pub no_target : any (λ a. a.target_user_id =? user) db.adjustments ≡ false
  pub no_actor : any (λ a. a.actor_user_id =? user) db.adjustments ≡ false
  pub no_creator : any (λ b. b.created_by_user_id =? user) db.batches ≡ false
  pub no_auditor : any (λ a. a.actor_user_id =? user) db.audit ≡ false
  pub no_projection : any (λ p. p.user_id =? user) db.projections ≡ false

erase_trip-gone :
    (py : Python) (rq : Requests) (user : Uuid) (now : Time) (t : UserTrip) {t' : UserTrip}
    → erase_trip py rq user now t ≡ some t'
    → (t'.user_id =? user) ≡ false
unfolding erase_trip
erase_trip-gone py rq user now t {t'} e = elim (Bool-cases (t.user_id =? user)) [
  | inl own ↦ elim (Option-cases (deidentify_trip_request py rq t.request_json true)) [
    | inl failed ↦ absurd (cc (rw (own, failed, erase_trip) at e))
    | inr (r, safe) ↦
        let same : erased_trip now r t ≡ t' = some_eq (rw (own, safe, erase_trip) at e) in
        ap (λ (x : UserTrip). x.user_id =? user) (sym same)
  ]
  | inr other ↦
      let same : t ≡ t' = some_eq (rw (other, erase_trip) at e) in
      ap (λ (x : UserTrip). x.user_id =? user) (sym same) ∙ other
]

erase_trips-gone :
    (py : Python) (rq : Requests) (user : Uuid) (now : Time) (ts : List UserTrip)
    {ts' : List UserTrip}
    → erase_trips py rq user now ts ≡ some ts'
    → any (λ t. t.user_id =? user) ts' ≡ false
unfolding erase_trips
erase_trips-gone py rq user now [] {ts'} e =
    let same : [] ≡ ts' = some_eq e in ap (any (λ (t : UserTrip). t.user_id =? user)) (sym same)
erase_trips-gone py rq user now (t ∷ ts) {ts'} e =
    elim (Option-cases (erase_trip py rq user now t)) [
      | inl failed ↦ absurd (cc (rw (failed, erase_trips) at e))
      | inr (t', own) ↦ elim (Option-cases (erase_trips py rq user now ts)) [
        | inl failed ↦ absurd (cc (rw (own, failed, erase_trips) at e))
        | inr (rest, done) ↦
            let same : t' ∷ rest ≡ ts' = some_eq (rw (own, done, erase_trips) at e) in
            let gone = erase_trips-gone py rq user now ts done in
            let gone_first = erase_trip-gone py rq user now t own in
            ap (any (λ (x : UserTrip). x.user_id =? user)) (sym same) ∙ rw (gone_first, gone) refl
      ]
    ]

erase_rows-IsErased :
    (user : Uuid) (subject : Digest) (email public_id : String) (db : Db)
    → any (λ t. t.user_id =? user) db.trips ≡ false
    → IsErased user (erase_rows user subject email public_id db)
unfolding erase_rows
erase_rows-IsErased user subject email public_id db h =
    let untargeted =
      update_where (λ (a : QuotaAdjustment). a.target_user_id =? user)
        (λ a. record a { target_user_id = none; target_scope_hash = some subject })
        db.adjustments in
    let unaudited =
      update_where (λ (a : AdminAuditLog). a.actor_user_id =? user)
        (λ a. record a { actor_user_id = none }) db.audit in
    record {
      no_user = any-delete_same (λ u. u.id == user) (λ u. u.id == user) db.users (λ x k. k);
      no_trip = h;
      no_entry =
          any-delete_same (λ e. e.user_id == user) (λ e. e.user_id == user) db.entries (λ x k. k);
      no_grant =
          any-delete_same (λ g. g.user_id == user) (λ g. g.user_id == user) db.grants (λ x k. k);
      no_redemption =
          any-delete_same (λ r. r.user_id == user) (λ r. r.user_id == user) db.redemptions
            (λ x k. k);
      no_session =
          any-delete_same (λ s. s.user_id == user) (λ s. s.user_id == user) db.sessions (λ x k. k);
      no_identity =
          any-delete_same (λ i. i.user_id == user) (λ i. i.user_id == user) db.identities
            (λ x k. k);
      no_challenge =
          any-delete_same (λ c. c.user_id =? user) (λ c. c.user_id =? user || c.email == email)
            db.challenges (λ x k. rw k refl);
      no_claim =
          any-update_cleared (λ c. c.actor_user_id =? user) (λ c. record c { actor_user_id = none })
            db.claims (λ x. refl);
      no_target =
          any-update_kept (λ (a : QuotaAdjustment). a.target_user_id =? user)
            (λ a. a.actor_user_id =? user)
            (λ a. record a { actor_user_id = none; actor_scope_hash = some subject }) untargeted
            (λ x. refl)
          ∙ any-update_cleared (λ (a : QuotaAdjustment). a.target_user_id =? user)
              (λ a. record a { target_user_id = none; target_scope_hash = some subject })
              db.adjustments (λ x. refl);
      no_actor =
          any-update_cleared (λ (a : QuotaAdjustment). a.actor_user_id =? user)
            (λ a. record a { actor_user_id = none; actor_scope_hash = some subject }) untargeted
            (λ x. refl);
      no_projection =
          any-update_cleared (λ p. p.user_id =? user) (λ p. record p { user_id = none })
            db.projections (λ x. refl);
      no_creator =
          any-update_cleared (λ b. b.created_by_user_id =? user)
            (λ b. record b { created_by_user_id = none; creator_scope_hash = some subject })
            db.batches (λ x. refl);
      no_auditor =
          any-update_kept (λ (a : AdminAuditLog). a.actor_user_id =? user)
            (λ a. a.target_id =? public_id) (λ a. record a { target_id = none }) unaudited
            (λ x. refl)
          ∙ any-update_cleared (λ (a : AdminAuditLog). a.actor_user_id =? user)
              (λ a. record a { actor_user_id = none }) db.audit (λ x. refl);
    }

-- What a closure that answered SUCCESS wrote.
pub erase_account-writes :
    (py : Python) (rq : Requests) (settings : Settings) (c : CloseCall) (u : AppUser)
    (email : String) (db : Db) {db' : Db}
    → erase_account py rq settings c u email db ≡ ok (verified, db')
    → (ts : List UserTrip) × (erase_trips py rq c.user_id c.now db.trips ≡ some ts)
      × (db'
          ≡ erase_rows c.user_id
              (admin_subject_hash py settings c.user_text)
              email
              u.public_id
              (record (quarantine_former_name py settings u.display_name_normalized c.now db) {
                trips = ts;
                projections = erase_projections c.user_id c.now db.trips db.projections;
              }))
unfolding erase_account
erase_account-writes py rq settings c u email db {db'} e =
    elim (Bool-cases
      (any (λ (t : UserTrip). t.user_id =? c.user_id && is_active_trip t.status) db.trips)) [
        | inl busy ↦ absurd (cc (rw (busy, erase_account) at e))
        | inr idle ↦ elim (Option-cases (erase_trips py rq c.user_id c.now db.trips)) [
          | inl failed ↦ absurd (cc (rw (idle, failed, erase_account) at e))
          | inr (ts, done) ↦
              let written = ok_eq (rw (idle, done, erase_account) at e) in
              (ts, done, sym (ap (λ (x : Outcome × Db). x.1) written))
        ]
      ]

erase_account-IsErased :
    (py : Python) (rq : Requests) (settings : Settings) (c : CloseCall) (u : AppUser)
    (email : String) (db : Db) {db' : Db}
    → erase_account py rq settings c u email db ≡ ok (verified, db')
    → IsErased c.user_id db'
erase_account-IsErased py rq settings c u email db {db'} e =
    let (ts, done, same) = erase_account-writes py rq settings c u email db e in
    subst (IsErased c.user_id) (sym same) (
      erase_rows-IsErased c.user_id (admin_subject_hash py settings c.user_text) email u.public_id _
        (erase_trips-gone py rq c.user_id c.now db.trips done))

-- Only the branch of a right code answers SUCCESS.
close_with-verified :
    (py : Python) (rq : Requests) (settings : Settings) (c : CloseCall) (u : AppUser)
    (email : String) (ch : EmailOtpChallenge) (db : Db) {db' : Db}
    → close_with py rq settings c u email ch db ≡ ok (verified, db')
    → erase_account py rq settings c u email db ≡ ok (verified, db')
unfolding close_with
close_with-verified py rq settings c u email ch db e = ground arith

pub close_body-verified :
    (py : Python) (rq : Requests) (settings : Settings) (c : CloseCall) (db : Db) {db' : Db}
    → close_body py rq settings c db ≡ ok (verified, db')
    → (u : AppUser) × (email : String) × (erase_account py rq settings c u email db
        ≡ ok (verified, db'))
unfolding close_body
close_body-verified py rq settings c db e =
    elim (Option-cases (find (λ (u : AppUser). u.id == c.user_id) db.users)) [
      | inl nobody ↦ absurd (cc (rw (nobody, close_body) at e))
      | inr (u, is_user) ↦ elim (Option-cases (verified_email_of c.user_id db)) [
        | inl unverified ↦ absurd (cc (rw (is_user, unverified, close_body) at e))
        | inr (email, known) ↦
            elim (Option-cases
              (find (λ (x : EmailOtpChallenge). x.public_id == c.challenge_id) db.challenges)) [
                | inl missing ↦ absurd (cc (rw (is_user, known, missing, close_body) at e))
                | inr (ch, is_found) ↦ (
                  u,
                  email,
                  close_with-verified py rq settings c u email ch db
                      (rw (is_user, known, is_found, close_body) at e),
                )
              ]
      ]
    ]

-- A closure that answers SUCCESS leaves no row that names the user: no account, trip, quota entry,
-- grant, redemption, session, identity, challenge or projection of the user, and no claim, adjustment,
-- batch or audit row with the user as actor, adjustment target or creator.
pub close_account-IsErased :
    (py : Python) (rq : Requests) (settings : Settings) (c : CloseCall) (db : Db)
    → (close_account py rq settings c db).0 ≡ ok verified
    → IsErased c.user_id (close_account py rq settings c db).1
unfolding close_account
close_account-IsErased py rq settings c db e =
    let (u, email, done) =
      close_body-verified py rq settings c db
        (transaction-eq-ok (close_body py rq settings c) db e) in
    erase_account-IsErased py rq settings c u email db done
