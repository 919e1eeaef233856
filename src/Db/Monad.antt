-- ===== src/Db/Monad.antt =====
-- The state of the database, the exceptions, a transaction body and a function of several
-- transactions. `async with session_factory() as session, session.begin()` commits when its body
-- returns and rolls back when it raises; the locks of the source make one body run
-- after another, except for the count before a one-time code is sent (Auth.Codes), which takes none.
use travel_web_api.Db.Grants.{
  InvitationBatch, Invitation, InvitationRedemption, QuotaGrant, QuotaAdjustment, TripQuotaEntry,
  AdminIdempotency, AdminAuditLog,
}
use travel_web_api.Db.Statuses.{TripStatus}
use travel_web_api.Db.Trips.{
  UserTrip, AdminTripProjection, AdminTripStepProjection, AdminProjectionEvent,
  AdminProjectionConsumerState,
}
use travel_web_api.Db.Users.{
  AppUser, DisplayNameQuarantine, UserIdentity, EmailOtpChallenge, UserSession,
}
use travel_web_api.Json.{JsonObject}
use travel_web_api.Prelude.{if◌then◌else◌, ℕ, String, ◌≡◌, refl, ◌⊎◌, inl, inr, Bool, Option, List}

pub record Db : Type 0 where
  pub users : List AppUser
  pub quarantine : List DisplayNameQuarantine
  pub identities : List UserIdentity
  pub batches : List InvitationBatch
  pub invitations : List Invitation
  pub challenges : List EmailOtpChallenge
  pub redemptions : List InvitationRedemption
  pub sessions : List UserSession
  pub grants : List QuotaGrant
  pub claims : List AdminIdempotency
  pub adjustments : List QuotaAdjustment
  pub audit : List AdminAuditLog
  pub trips : List UserTrip
  pub entries : List TripQuotaEntry
  pub projections : List AdminTripProjection
  pub steps : List AdminTripStepProjection
  pub events : List AdminProjectionEvent
  pub consumer : Option AdminProjectionConsumerState

-- class ApiError of api/errors.py
pub record ApiError : Type 0 where
  pub status_code : ℕ
  pub code : String
  pub message : String
  pub retryable : Bool
  pub details : JsonObject

-- The exceptions. `integrity_error` is SQLAlchemy's IntegrityError with the constraint's name;
-- `key_error` and `value_error` are Python's.
pub data Error : Type 0 where
  request_id_conflict quota_exhausted trip_ownership_error : Error
  active_trip_conflict : String → Option String → TripStatus → Error
  quota_invariant_error runtime_error value_error key_error integrity_error : String → Error
  api_error : ApiError → Error
  hermes_integration_error : String → Bool → Bool → Error
  hermes_business_error : String → Error
  display_name_error display_name_mutation_error owner_bootstrap_rejected : String → Error
  admin_idempotency_conflict admin_idempotency_in_progress : Error
  admin_operation_error : ℕ → String → String → Error
  projection_unavailable projection_poison_error projection_sequence_blocked : Error

pub data Result {ℓ} (A : Type ℓ) : Type ℓ where
  ok : A → Result A
  err : Error → Result A

-- The body of one transaction: what it wrote is there only if it returns.
abbrev pub Tx : Type 0 → Type 0
Tx A = Db → Result (A × Db)

-- A call of one or more transactions: what was committed before a raise stays.
abbrev pub App : Type 0 → Type 0
App A = Db → Result A × Db

-- `async with session_factory() as session, session.begin(): body`
abbrev pub settled : {A : Type 0} → Db → Result (A × Db) → Result A × Db
settled db (ok (a, db')) = (ok a, db')
settled db (err e) = (err e, db)

abbrev pub transaction : {A : Type 0} → Tx A → App A
transaction body db = settled db (body db)

module _ {A : Type 0} where
  abbrev pub pure : A → Tx A
  pure a db = ok (a, db)

  abbrev pub raise : Error → Tx A
  raise e db = err e

  abbrev pub gets : (Db → A) → Tx A
  gets f db = ok (f db, db)

abbrev pub modify : (Db → Db) → Tx (Unit {0})
modify f db = ok (tt, f db)

abbrev pub raise_if : Bool → Error → Tx (Unit {0})
raise_if b e db = if b then err e else ok (tt, db)

infixl 5 ◌>>=◌ ◌>>◌
abbrev pub ◌>>=◌ : {A B : Type 0} → Tx A → (A → Tx B) → Tx B
◌>>=◌ m f db = elim (m db) [ ok (a, db') ↦ f a db' | err e ↦ err e ]

abbrev pub ◌>>◌ : {B : Type 0} → Tx (Unit {0}) → Tx B → Tx B
m >> k = m >>= λ _. k

pub Result-cases {ℓ} :
    {A : Type ℓ} (r : Result A) → ((x : Error) × (r ≡ err x)) ⊎ ((a : A) × (r ≡ ok a))
Result-cases (err x) = inl (x, refl)
Result-cases (ok a) = inr (a, refl)

pub ok_eq {ℓ} : {A : Type ℓ} {a b : A} → ok a ≡ ok b → a ≡ b
ok_eq h = cc

continued-eq-ok :
    {A B : Type 0} (s : Result (A × Db)) (f : A → Tx B) {r : B × Db}
    → (elim s [ ok (a, db') ↦ f a db' | err e ↦ err e ]) ≡ ok r
    → (a : A) × (db' : Db) × (s ≡ ok (a, db')) × (f a db' ≡ ok r)
continued-eq-ok (ok (a, db')) f h = (a, db', refl, h)
continued-eq-ok (err e) f h = cc

-- A body that returns has passed both its parts.
pub >>=-eq-ok :
    {A B : Type 0} (m : Tx A) (f : A → Tx B) (db : Db) {r : B × Db}
    → (m >>= f) db ≡ ok r
    → (a : A) × (db' : Db) × (m db ≡ ok (a, db')) × (f a db' ≡ ok r)
>>=-eq-ok m f db h = continued-eq-ok (m db) f h

-- The parts of a body that return, one after the other.
pub bound :
    {A B : Type 0} (m : Tx A) (f : A → Tx B) (db : Db) {a : A} {db1 : Db} {r : B × Db}
    → m db ≡ ok (a, db1)
    → f a db1 ≡ ok r
    → (m >>= f) db ≡ ok r
bound m f db h k = rw (◌>>=◌, h) k

-- What the body keeps when it returns, the transaction keeps.
pub transaction-keeps {κ} :
    {A : Type 0} (P : Db → Type κ) (body : Tx A) (db : Db)
    → ((a : A) (db' : Db) → body db ≡ ok (a, db') → P db')
    → P db
    → P (transaction body db).1
transaction-keeps {A} P body db keeps h = after (body db) keeps
  where
    after :
        (s : Result (A × Db)) → ((a : A) (db' : Db) → s ≡ ok (a, db') → P db') → P (settled db s).1
    after (ok (a, db')) k = k a db' refl
    after (err e) k = h

-- A transaction that returns has committed what its body wrote.
pub transaction-eq-ok :
    {A : Type 0} (body : Tx A) (db : Db) {a : A}
    → (transaction body db).0 ≡ ok a
    → body db ≡ ok (a, (transaction body db).1)
transaction-eq-ok {A} body db {a} h = after (body db) h
  where
    after : (s : Result (A × Db)) → (settled db s).0 ≡ ok a → s ≡ ok (a, (settled db s).1)
    after (ok (b, db')) e = cc e
    after (err e') e = cc

-- A transaction that raises has changed nothing.
pub transaction-eq-err :
    {A : Type 0} (body : Tx A) (db : Db) {x : Error}
    → (transaction body db).0 ≡ err x
    → (transaction body db).1 ≡ db
transaction-eq-err {A} body db {x} h = after (body db) h
  where
    after : (s : Result (A × Db)) → (settled db s).0 ≡ err x → (settled db s).1 ≡ db
    after (ok (b, db')) e = cc
    after (err e') e = refl
