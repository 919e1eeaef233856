-- ===== src/Trips/Refunds.antt =====
-- A new submission that the planner definitely refuses gives its unit back.
use travel_web_api.Db.Monad.{
  Db, Error, api_error, hermes_integration_error, hermes_business_error, Result, ok, err, App,
  transaction-eq-ok,
}
use travel_web_api.Db.Statuses.{
  status_text, TripStatus, is_submitting, is_success, is_terminal, read_status-status_text,
}
use travel_web_api.Db.Trips.{UserTrip}
use travel_web_api.Db.Users.{Uuid, Time}
use travel_web_api.Prelude.{
  if◌then◌else◌, string_eq, nat_eq, ◌==◌, is_none, Bool-cases, find, ◌+◌, ◌≡◌, refl, sym, ap, ◌∙◌,
  subst, inl, inr, true, false, ◌&&◌, none, some, List, [], ◌∷◌, arith,
}
use travel_web_api.Python.{Python}
use travel_web_api.Quota.Ledger.{Ledger}
use travel_web_api.Quota.Limits.{quota_snapshot-new_entry}
use travel_web_api.Quota.Reserve.{Reservation, ReserveCall, new_entry, reserve_body, reserve_trip}
use travel_web_api.Quota.Sequences.{Call, run_call, run_call-Ledger}
use travel_web_api.Quota.Settle.{SettleCall, is_trip_of, settle_row, read_terminal, settle_trip}
use travel_web_api.Quota.Settlements.{settle_trip_quota}
use travel_web_api.Quota.Snapshot.{QuotaSnapshot, quota_snapshot}
use travel_web_api.Trips.Charges.{KeepsNames}
use travel_web_api.Trips.Returns.{settle_trip-returns, IsNew, reserve_body-IsNew}
use travel_web_api.Trips.Service.{
  HermesTripCreated, Planner, SubmitCall, Submission, upstream_request_id, continue_with,
  raise_after, on_business_error, on_integration_error, on_answer, submit_reserved, hand_over,
  submission_of, after_reservation, submit_trip,
}

-- The planner has refused the trip for certain; submit_trip raises `e` for it.
abbrev pub IsRefusal : Result HermesTripCreated → Error → Type 0
IsRefusal (err (hermes_business_error code)) e =
    (code ≡ "CITY_NOT_SUPPORTED")
    × (e
        ≡ api_error (record {
          status_code = 422;
          code = "CITY_NOT_SUPPORTED";
          message = "暂不支持该城市。";
          retryable = false;
          details = [];
        }))
IsRefusal (err (hermes_integration_error category retryable unsure)) e =
    let is_down = category == "UNAVAILABLE" in
    (unsure ≡ false)
    × (e
        ≡ api_error (record {
          status_code = if is_down then 503 else 502;
          code = if is_down then "GENERATION_SERVICE_UNAVAILABLE" else "GENERATION_SERVICE_ERROR";
          message = if is_down then "生成服务暂时不可用，请稍后重试。" else "生成服务返回了无效响应。";
          retryable = retryable;
          details = [];
        }))
IsRefusal _ e = ⊥

-- The call raises `e`, and the user has one unit less reserved and no other one consumed.
record IsFreed {A : Type 0} (user : Uuid) (e : Error) (before : Db) (r : Result A × Db)
    : Type 0 where
  raises : r.0 ≡ err e
  limit : (quota_snapshot user r.1).limit ≡ (quota_snapshot user before).limit
  one_less :
      (quota_snapshot user r.1).reserved_units + 1 ≡ (quota_snapshot user before).reserved_units
  no_more : (quota_snapshot user r.1).consumed_units ≡ (quota_snapshot user before).consumed_units

raise_after-IsFreed :
    {A B : Type 0} (user : Uuid) (e : Error) (db : Db) (r : Result A × Db) {a : A}
    → r.0 ≡ ok a
    → (quota_snapshot user r.1).limit ≡ (quota_snapshot user db).limit
    → (quota_snapshot user r.1).reserved_units + 1 ≡ (quota_snapshot user db).reserved_units
    → (quota_snapshot user r.1).consumed_units ≡ (quota_snapshot user db).consumed_units
    → IsFreed user e db (raise_after {A = A} {B = B} r e)
raise_after-IsFreed user e db (ok a, d) h l o n = record {
  raises = refl;
  limit = l;
  one_less = o;
  no_more = n;
}
raise_after-IsFreed user e db (err x, d) h l o n = absurd (cc h)

-- A settlement of a new trip with a terminal status that is not SUCCESS, before the error `e`.
settle_new-IsFreed :
    (py : Python) (c : ReserveCall) (call : SettleCall) (s : TripStatus) (t : UserTrip) (e : Error)
    (before db : Db)
    → Ledger db
    → IsNew c before db t
    → call.trip_id ≡ t.id
    → call.owner_id ≡ none
    → read_terminal py call.terminal_status ≡ some s
    → is_success s ≡ false
    → IsFreed {A = UserTrip} c.user_id e db (raise_after (settle_trip py call db) e)
settle_new-IsFreed py c call s t e before db h new same_id no_owner reads failed =
    let is_found : find (is_trip_of call.trip_id call.owner_id) db.trips ≡ some t =
      rw (same_id, no_owner) new.is_found in
    let live : is_terminal t.status ≡ false = rw new.is_submitted refl in
    let returns =
      settle_trip-returns py call s t c.user_id db h is_found live new.mine new.free reads failed in
    let moved =
      settle_trip_quota py call db t (settle_row call s t) c.user_id h is_found live new.mine
        returns in
    raise_after-IsFreed c.user_id e db (settle_trip py call db) returns moved.0 moved.1 (
      omega (
        arith,
        moved.2,
        ap (λ b. (quota_snapshot c.user_id db).consumed_units + (if b then 1 else 0)) failed,
      ))

module _ (py : Python) (keeps : KeepsNames py) where
  reads_as : (s : TripStatus) → is_terminal s ≡ true → read_terminal py (status_text s) ≡ some s
  unfolding read_terminal
  reads_as s over = rw (read_terminal, keeps s, read_status-status_text s, over) refl

  on_answer-IsFreed :
      (c : ReserveCall) (t : UserTrip) (later : Time) (a : Result HermesTripCreated) (e : Error)
      (before db : Db)
      → Ledger db
      → IsNew c before db t
      → IsRefusal a e
      → IsFreed c.user_id e db (on_answer py t later a db)
  unfolding on_answer on_business_error on_integration_error
  on_answer-IsFreed c t later (err (hermes_business_error code)) e before db h new (city, raised) =
      rw (city, raised)
        (settle_new-IsFreed py c _ TripStatus.rejected t _ before db h new refl refl
          (reads_as TripStatus.rejected refl) refl)
  on_answer-IsFreed c t later (err (hermes_integration_error category retryable unsure)) e before db
        h new (sure, raised) =
      elim (Bool-cases (category == "UNAVAILABLE")) [
        | inl down ↦
            rw (sure, raised, down)
              (settle_new-IsFreed py c _ TripStatus.failed t _ before db h new refl refl
                (reads_as TripStatus.failed refl) refl)
        | inr other ↦
            rw (sure, raised, other)
              (settle_new-IsFreed py c _ TripStatus.failed t _ before db h new refl refl
                (reads_as TripStatus.failed refl) refl)
      ]
  on_answer-IsFreed c t later (ok created) e before db h new refusal = absurd refusal
  on_answer-IsFreed c t later (err x) e before db h new refusal = absurd refusal

reserve_trip-eq-ok :
    (py : Python) (c : ReserveCall) (db : Db) {r : Reservation} {db1 : Db}
    → reserve_trip py c db ≡ (ok r, db1)
    → reserve_body py c db ≡ ok (r, db1)
unfolding reserve_trip
reserve_trip-eq-ok py c db {r} {db1} e =
    transaction-eq-ok (reserve_body py c) db (ap (λ (x : Result Reservation × Db). x.0) e)
    ∙ ap (λ (x : Result Reservation × Db). ok (r, x.1)) e

new_entry_quota :
    (c : ReserveCall) (db : Db) (ts : List UserTrip)
    → quota_snapshot c.user_id (record db { trips = ts; entries = new_entry c ∷ db.entries })
      ≡ record (quota_snapshot c.user_id db) {
        reserved_units = (quota_snapshot c.user_id db).reserved_units + 1;
      }
new_entry_quota c db ts =
    let own : (c.user_id == c.user_id) ≡ true = ground arith in
    quota_snapshot-new_entry c c.user_id db ts ∙ rw own refl

continue_with-err :
    {A B : Type 0} (x : Result A × Db) (f : A → App B) {e : Error}
    → x.0 ≡ err e
    → continue_with x f ≡ (err e, x.1)
continue_with-err (ok a, d) f h = absurd (cc h)
continue_with-err (err x, d) f h = cc h

-- What a submission leaves when its planner's answer raised.
raised_submission :
    (py : Python) (planner : Planner) (c : SubmitCall) (r : Reservation) (db db1 : Db) (e : Error)
    → reserve_trip py c.reservation db ≡ (ok r, db1)
    → IsNew c.reservation db db1 r.trip
    → let x =
        on_answer py r.trip c.later
          (planner r.trip.request_json (upstream_request_id r.trip) r.trip.public_id)
          db1 in
      x.0 ≡ err e → submit_trip py planner c db ≡ (err e, x.1)
unfolding submit_trip after_reservation hand_over submit_reserved
raised_submission py planner c r db db1 e reserves new raises =
    let open_still : (is_none r.trip.hermes_job_id && is_submitting r.trip.status) ≡ true =
      rw (new.no_job, new.is_submitted) refl in
    rw (submit_trip, reserves, after_reservation, hand_over, open_still, submit_reserved)
      (continue_with-err _ (submission_of c.reservation.user_id) raises)

-- A new submission, of a request whose reservation has just been made, that the planner refuses for
-- certain: with the business error CITY_NOT_SUPPORTED, or with an integration error that leaves no
-- doubt whether the job was taken. It raises 422 CITY_NOT_SUPPORTED for the one, and 503
-- GENERATION_SERVICE_UNAVAILABLE or 502 GENERATION_SERVICE_ERROR for the other, and leaves the user
-- the limit, the reserved and the consumed units from before the submission. `str.upper` leaves the
-- names of the statuses as they are.
pub submit_trip_refunded :
    (py : Python) (planner : Planner) (c : SubmitCall) (db db1 : Db) (r : Reservation) (e : Error)
    → KeepsNames py
    → Ledger db
    → reserve_trip py c.reservation db ≡ (ok r, db1)
    → r.created ≡ true
    → IsRefusal (planner r.trip.request_json (upstream_request_id r.trip) r.trip.public_id) e
    → let user = c.reservation.user_id in
      let before = quota_snapshot user db in
      let (answer, after) = submit_trip py planner c db in
      (answer ≡ err e)
      × ((quota_snapshot user after).limit ≡ before.limit)
      × ((quota_snapshot user after).reserved_units ≡ before.reserved_units)
      × ((quota_snapshot user after).consumed_units ≡ before.consumed_units)
submit_trip_refunded py planner c db db1 r e keeps h reserves made refusal =
    let user = c.reservation.user_id in
    let body : reserve_body py c.reservation db ≡ ok (r, db1) =
      reserve_trip-eq-ok py c.reservation db reserves in
    let new = reserve_body-IsNew py c.reservation db body made in
    let h1 : Ledger db1 =
      subst Ledger (ap (λ (x : Result Reservation × Db). x.1) reserves)
        (unfold run_call in run_call-Ledger py (Call.reserve c.reservation) db h) in
    let freed =
      on_answer-IsFreed py keeps c.reservation r.trip c.later
        (planner r.trip.request_json (upstream_request_id r.trip) r.trip.public_id) e db db1 h1 new
        refusal in
    let q : quota_snapshot user db1 ≡ record (quota_snapshot user db) {
      reserved_units = (quota_snapshot user db).reserved_units + 1;
    } =
      ap (quota_snapshot user) new.same ∙ new_entry_quota c.reservation db new.rows in
    let same = raised_submission py planner c r db db1 e reserves new freed.raises in
    subst
      (λ (x : Result Submission × Db).
        (x.0 ≡ err e)
        × ((quota_snapshot user x.1).limit ≡ (quota_snapshot user db).limit)
        × ((quota_snapshot user x.1).reserved_units ≡ (quota_snapshot user db).reserved_units)
        × ((quota_snapshot user x.1).consumed_units ≡ (quota_snapshot user db).consumed_units))
      (sym same)
      (
        refl,
        freed.limit ∙ ap (λ (x : QuotaSnapshot). x.limit) q,
        omega (arith, freed.one_less, ap (λ (x : QuotaSnapshot). x.reserved_units) q),
        freed.no_more ∙ ap (λ (x : QuotaSnapshot). x.consumed_units) q,
      )
