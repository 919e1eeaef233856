-- ===== src/Account/Closure.antt =====
-- close_account of account/closure.py, with deidentify_trip_request of history/service.py.
use mathlib.Core.Option
use travel_web_api.Auth.Codes.{code_purpose}
use travel_web_api.Auth.Verify.{
  Outcome, otp_invalid, otp_used, otp_expired, otp_attempts_exceeded, auth_required,
  active_trip_in_progress, verified, put_challenge, missed, missed_outcome,
}
use travel_web_api.Db.Monad.{Db, value_error, ok, err, Tx, App, transaction}
use travel_web_api.Db.Statuses.{
  account_closure, is_account_closure, is_closure, is_sent, is_active_trip,
}
use travel_web_api.Db.Trips.{UserTrip, deidentified, AdminTripProjection}
use travel_web_api.Db.Users.{Uuid, Time, Digest, AppUser, EmailOtpChallenge}
use travel_web_api.Json.{Json, Items, JsonObject, get, put, pop, or_json}
use travel_web_api.Prelude.{
  leb, if◌then◌else◌, string_eq, nat_eq, ◌==◌, ◌=?◌, is_some, or_else, ◌<>◌, find, any,
  update_where, delete_where, ℕ, ◌+◌, max, String, Bool, true, not, ◌&&◌, ◌||◌, Option, none, some,
  List, [], ◌∷◌,
}
use travel_web_api.Prelude.Int.{ℤ, pos, ltb_ℤ}
use travel_web_api.Profile.Names.{quarantine_former_name}
use travel_web_api.Python.{Python}
use travel_web_api.Security.{Settings, hash_secret, secret_matches}

-- What the code takes from outside: `TripRequest.model_validate(…).normalized()`, which is Pydantic's
-- validation (`none` where it raises ValueError), and `text[:n]` of Python.
pub record Requests : Type 0 where
  pub validated : JsonObject → Option JsonObject
  pub prefix : ℕ → String → String

-- `max(1, min(n, 30))`
abbrev pub clamp : ℤ → ℤ
clamp n = if ltb_ℤ n (pos 1) then pos 1 else if ltb_ℤ (pos 30) n then pos 30 else n

-- `max(1, min(int(request_json.get(key, 1)), 30))`, `none` where `int` raises.
abbrev pub clamped_item : Python → JsonObject → String → Option Json
clamped_item py d key =
    Option.map (λ n. Json.num (clamp n)) (py.int_of (or_json (get d key) (Json.num (pos 1))))

abbrev pub fallback_request : Python → Requests → JsonObject → Option JsonObject
fallback_request py rq d = elim (clamped_item py d "days") [
  | none ↦ none
  | some day_count ↦ elim (clamped_item py d "people_count") [
    | none ↦ none
    | some people ↦ some (
        (
          "to_city",
          Json.text (rq.prefix 120 (py.text_of (or_json (get d "to_city") (Json.text "")))),
        )
        ∷ ("days", day_count)
        ∷ ("people_count", people)
        ∷ ("preferences", Json.arr Items.nil)
        ∷ ("avoid", Json.arr Items.nil)
        ∷ ("notes", Json.text "")
        ∷ [])
  ]
]

unfoldable pub deidentify_trip_request : Python → Requests → JsonObject → Bool → Option JsonObject
deidentify_trip_request py rq d for_closure =
    let safe : Option JsonObject = elim (rq.validated d) [
      | none ↦ fallback_request py rq d
      | some v ↦ some v
    ] in
    Option.map
      (λ s.
        let blank = put s "notes" (Json.text "") in
        if for_closure then pop blank "from_city" else blank)
      safe

-- The arguments of close_account and the time that it draws. `user_text` is `str(user.id)`.
pub record CloseCall : Type 0 where
  pub user_id : Uuid
  pub user_text : String
  pub challenge_id : String
  pub code : String
  pub now : Time

abbrev pub admin_subject_hash : Python → Settings → String → Digest
admin_subject_hash py settings user_text =
    hash_secret py user_text "admin-subject" settings.secret_hash_pepper

abbrev pub erased_trip : Time → JsonObject → UserTrip → UserTrip
erased_trip now request t = record t {
  association_version = t.association_version + 1;
  user_id = none;
  quota_entry_id = none;
  identity_erased_at = some now;
  archived_at = some now;
  client_request_id = "erased:" <> t.public_id;
  request_json = request;
  request_field_provenance = [];
  updated_at = now;
}

-- One trip: the user's is erased; `none` where its request cannot be de-identified.
unfoldable pub erase_trip : Python → Requests → Uuid → Time → UserTrip → Option UserTrip
erase_trip py rq user now t =
    if t.user_id =? user
    then Option.map (λ r. erased_trip now r t) (deidentify_trip_request py rq t.request_json true)
    else some t

-- The loop over the trips.
unfoldable pub erase_trips :
    Python → Requests → Uuid → Time → List UserTrip → Option (List UserTrip)
erase_trips py rq user now [] = some []
erase_trips py rq user now (t ∷ ts) =
    let rest = erase_trips py rq user now ts in
    elim (erase_trip py rq user now t) [ none ↦ none | some t' ↦ Option.map (λ ts'. t' ∷ ts') rest ]

abbrev pub erased_projection : Time → UserTrip → AdminTripProjection → AdminTripProjection
erased_projection now t p = record p {
  association_state = deidentified;
  association_version = max p.association_version (t.association_version + 1);
  identity_erased_at = or_else p.identity_erased_at (some now);
  user_trip_id = none;
  user_id = none;
  synced_at = now;
}

-- The projections of the user's jobs. A job id is unique among the trips, so at most one trip has
-- the job of a projection.
unfoldable pub erase_projections :
    Uuid → Time → List UserTrip → List AdminTripProjection → List AdminTripProjection
erase_projections user now ts [] = []
erase_projections user now ts (p ∷ ps) =
    (elim (find (λ t. t.user_id =? user && t.hermes_job_id =? p.job_id) ts) [
      | none ↦ p
      | some t ↦ erased_projection now t p
    ])
    ∷ erase_projections user now ts ps

-- The deletes and updates after the loop. With the user's row, the foreign key of a projection is
-- set to NULL.
unfoldable pub erase_rows : Uuid → Digest → String → String → Db → Db
erase_rows user subject email public_id db = record db {
  entries = delete_where (λ e. e.user_id == user) db.entries;
  grants = delete_where (λ g. g.user_id == user) db.grants;
  redemptions = delete_where (λ r. r.user_id == user) db.redemptions;
  sessions = delete_where (λ s. s.user_id == user) db.sessions;
  challenges = delete_where (λ c. c.user_id =? user || c.email == email) db.challenges;
  identities = delete_where (λ i. i.user_id == user) db.identities;
  claims =
      update_where (λ c. c.actor_user_id =? user) (λ c. record c { actor_user_id = none })
        db.claims;
  adjustments =
      update_where (λ a. a.actor_user_id =? user)
        (λ a. record a { actor_user_id = none; actor_scope_hash = some subject })
        (update_where (λ a. a.target_user_id =? user)
          (λ a. record a { target_user_id = none; target_scope_hash = some subject })
          db.adjustments);
  batches =
      update_where (λ b. b.created_by_user_id =? user)
        (λ b. record b { created_by_user_id = none; creator_scope_hash = some subject }) db.batches;
  audit =
      update_where (λ a. a.target_id =? public_id) (λ a. record a { target_id = none })
        (update_where (λ a. a.actor_user_id =? user) (λ a. record a { actor_user_id = none })
          db.audit);
  projections =
      update_where (λ p. p.user_id =? user) (λ p. record p { user_id = none }) db.projections;
  users = delete_where (λ u. u.id == user) db.users;
}

-- The branch of a right code.
unfoldable pub erase_account :
    Python → Requests → Settings → CloseCall → AppUser → String → Tx Outcome
erase_account py rq settings c u email db =
    if any (λ t. t.user_id =? c.user_id && is_active_trip t.status) db.trips
    then ok (active_trip_in_progress, db)
    else elim (erase_trips py rq c.user_id c.now db.trips) [
      | none ↦ err (value_error "int")
      | some ts ↦ ok (
        verified,
        erase_rows c.user_id (admin_subject_hash py settings c.user_text) email u.public_id
            (record (quarantine_former_name py settings u.display_name_normalized c.now db) {
              trips = ts;
              projections = erase_projections c.user_id c.now db.trips db.projections;
            }),
      )
    ]

-- `challenge` belongs to this closure: its purpose, mode, user, address and delivery.
abbrev pub is_closure_of : Uuid → String → EmailOtpChallenge → Bool
is_closure_of user email ch =
    is_account_closure ch.purpose
    && is_closure ch.mode
    && ch.user_id =? user
    && ch.email == email
    && is_sent ch.delivery_status

unfoldable pub close_with :
    Python → Requests → Settings → CloseCall → AppUser → String → EmailOtpChallenge → Tx Outcome
close_with py rq settings c u email ch db =
    if not (is_closure_of c.user_id email ch)
    then ok (otp_invalid, db)
    else if is_some ch.consumed_at
    then ok (otp_used, db)
    else if leb ch.expires_at c.now
    then ok (otp_expired, db)
    else if leb ch.max_attempts ch.attempt_count
    then ok (otp_attempts_exceeded, db)
    else if not (
        secret_matches py c.code ch.code_hash (code_purpose ch.public_id account_closure)
          settings.secret_hash_pepper)
    then ok (missed_outcome ch, put_challenge (missed ch) db)
    else erase_account py rq settings c u email db

-- `not identity.verified_email` holds for None and for the empty text.
abbrev pub verified_email_of : Uuid → Db → Option String
verified_email_of user db =
    elim (find (λ i. i.user_id == user && i.provider == "email_otp") db.identities) [
      | none ↦ none
      | some i ↦ elim i.verified_email [
        | none ↦ none
        | some email ↦ if email == "" then none else some email
      ]
    ]

unfoldable pub close_body : Python → Requests → Settings → CloseCall → Tx Outcome
close_body py rq settings c db = elim (find (λ u. u.id == c.user_id) db.users) [
  | none ↦ ok (auth_required, db)
  | some u ↦ elim (verified_email_of c.user_id db) [
    | none ↦ ok (otp_invalid, db)
    | some email ↦ elim (find (λ x. x.public_id == c.challenge_id) db.challenges) [
      | none ↦ ok (otp_invalid, db)
      | some ch ↦ close_with py rq settings c u email ch db
    ]
  ]
]

unfoldable pub close_account : Python → Requests → Settings → CloseCall → App Outcome
close_account py rq settings c = transaction (close_body py rq settings c)
