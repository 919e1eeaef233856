-- ===== src/Profile/Quarantine.antt =====
-- A former display name stays out of reach for the days of its quarantine.
use travel_web_api.Db.Monad.{Db, ok, transaction, transaction-keeps, transaction-eq-ok}
use travel_web_api.Db.Users.{Uuid, Time, Digest, AppUser, DisplayNameQuarantine}
use travel_web_api.Prelude.{
  ltb, string_eq, nat_eq, ◌==◌, Bool-cases, find, any, update_where, ◌+◌, ◌<◌, String, ◌≡◌, refl,
  ap, ◌∙◌, inl, inr, true, false, ◌&&◌, some, List, [], ◌∷◌, arith,
}
use travel_web_api.Profile.Names.{
  NormalizedDisplayName, former_name_quarantine_days, former_name_digest, is_quarantined,
  quarantined, quarantine_former_name, DisplayNameMutation, put_name, rename_active, rename_body,
  rename_display_name,
}
use travel_web_api.Python.{Python, days}
use travel_web_api.Security.{Settings}

any-refreshed :
    (digest : Digest) (q : DisplayNameQuarantine) (later : Time) (qs : List DisplayNameQuarantine)
    → q.name_digest ≡ digest
    → ltb later q.expires_at ≡ true
    → any (λ x. x.name_digest == digest) qs ≡ true
    → any
        (λ x. x.name_digest == digest && ltb later x.expires_at)
        (update_where (λ x. x.name_digest == digest) (λ _. q) qs)
      ≡ true
any-refreshed digest q later [] own kept h = cc h
any-refreshed digest q later (x ∷ qs) own kept h = elim (Bool-cases (x.name_digest == digest)) [
  | inl hit ↦ ground arith
  | inr miss ↦
      let there : any (λ y. y.name_digest == digest) qs ≡ true = rw miss at h in
      let rest = any-refreshed digest q later qs own kept there in ground arith
]

-- The name is in quarantine until the days are over.
quarantine_former_name-holds :
    (py : Python) (settings : Settings) (name : String) (now later : Time) (db : Db)
    → later < now + days former_name_quarantine_days
    → is_quarantined
        (former_name_digest py settings name)
        later
        (quarantine_former_name py settings name now db)
      ≡ true
unfolding quarantine_former_name
quarantine_former_name-holds py settings name now later db early =
    let digest = former_name_digest py settings name in
    let kept : ltb later (now + days former_name_quarantine_days) ≡ true = ground arith in
    elim (Bool-cases (any (λ (q : DisplayNameQuarantine). q.name_digest == digest) db.quarantine)) [
      | inl known ↦
          rw known
            (any-refreshed digest (quarantined digest now) later db.quarantine refl kept known)
      | inr fresh ↦ rw fresh (ground arith)
    ]

-- A rename to another key has put the former one in quarantine.
renamed_db :
    (py : Python) (settings : Settings) (user : Uuid) (name : NormalizedDisplayName) (now : Time)
    (db : Db) (u : AppUser) {r : DisplayNameMutation} {db' : Db}
    → find (λ x. x.id == user) db.users ≡ some u
    → (name.presentation == u.display_name) ≡ false
    → (name.uniqueness_key == u.display_name_normalized) ≡ false
    → rename_body py settings user name now db ≡ ok (r, db')
    → db'.quarantine
      ≡ (quarantine_former_name py settings u.display_name_normalized now db).quarantine
unfolding rename_body rename_active
renamed_db py settings user name now db u {r} {db'} is_user other_name other_key e =
    let done : put_name name now u
          (quarantine_former_name py settings u.display_name_normalized now db)
        ≡ ok (r, db') =
      ground arith in
    cc done

-- A name in quarantine is not given to a user who does not hold it.
rename_body_quarantined :
    (py : Python) (settings : Settings) (user : Uuid) (name : NormalizedDisplayName) (now : Time)
    (db : Db) (u : AppUser) {r : DisplayNameMutation} {db' : Db}
    → find (λ x. x.id == user) db.users ≡ some u
    → (name.uniqueness_key == u.display_name_normalized) ≡ false
    → is_quarantined (former_name_digest py settings name.uniqueness_key) now db ≡ true
    → rename_body py settings user name now db ≡ ok (r, db')
    → db' ≡ db
unfolding rename_body rename_active
rename_body_quarantined py settings user name now db u is_user other_key barred e = ground arith

-- After a user changed a display name at `now` to one with another normal form, a rename of a user
-- who holds another normal form to the former one changes nothing at any time before the 15 days of
-- quarantine are over.
pub rename_display_name_quarantine :
    (py : Python) (settings : Settings) (user other : Uuid) (name wanted : NormalizedDisplayName)
    (now later : Time) (db : Db) (u v : AppUser) (r : DisplayNameMutation)
    → find (λ x. x.id == user) db.users ≡ some u
    → (name.presentation == u.display_name) ≡ false
    → (name.uniqueness_key == u.display_name_normalized) ≡ false
    → (rename_display_name py settings user name now db).0 ≡ ok r
    → later < now + days former_name_quarantine_days
    → wanted.uniqueness_key ≡ u.display_name_normalized
    → let db' = (rename_display_name py settings user name now db).1 in
      find (λ x. x.id == other) db'.users ≡ some v
      → (wanted.uniqueness_key == v.display_name_normalized) ≡ false
      → (rename_display_name py settings other wanted later db').1 ≡ db'
unfolding rename_display_name
rename_display_name_quarantine py settings user other name wanted now later db u v r is_user
      other_name other_key e early same_key is_other not_theirs =
    let db' = (transaction (rename_body py settings user name now) db).1 in
    let done = transaction-eq-ok (rename_body py settings user name now) db e in
    let digest = former_name_digest py settings wanted.uniqueness_key in
    let held : is_quarantined digest later
          (quarantine_former_name py settings u.display_name_normalized now db)
        ≡ true =
      rw same_key
        (quarantine_former_name-holds py settings u.display_name_normalized now later db early) in
    let barred : is_quarantined digest later db' ≡ true =
      ap (any (λ (q : DisplayNameQuarantine). q.name_digest == digest && ltb later q.expires_at))
        (renamed_db py settings user name now db u is_user other_name other_key done)
      ∙ held in
    transaction-keeps (λ d. d ≡ db') (rename_body py settings other wanted later) db'
      (λ _ d k.
        rename_body_quarantined py settings other wanted later db' v is_other not_theirs barred k)
      refl
