-- ===== src/Trips/Service.antt =====
-- submit_trip, _submit_reserved, apply_job_status and safe_failure of trips/service.py. The planner
-- is an external service: its answer is a parameter, which may raise.
use travel_web_api.Db.Monad.{
  Db, Error, request_id_conflict, quota_exhausted, trip_ownership_error, active_trip_conflict,
  api_error, hermes_integration_error, hermes_business_error, Result, ok, err, App,
}
use travel_web_api.Db.Statuses.{TripStatus, EntryStatus, is_submitting, entry_status, status_text}
use travel_web_api.Db.Trips.{UserTrip}
use travel_web_api.Db.Users.{Uuid, Time}
use travel_web_api.Json.{Json, Fields, JsonObject}
use travel_web_api.Prelude.{
  if◌then◌else◌, string_eq, nat_eq, ◌==◌, ◌=?◌, is_none, ◌<>◌, or_empty, ℕ, String, Bool, true,
  false, not, ◌&&◌, ◌||◌, Option, none, some, [], ◌∷◌,
}
use travel_web_api.Python.{Python}
use travel_web_api.Quota.Accept.{
  save_upstream_acceptance, mark_upstream_uncertain, record_trip_telemetry,
}
use travel_web_api.Quota.Reserve.{Reservation, ReserveCall, reserve_trip}
use travel_web_api.Quota.Settle.{SettleCall, settle_trip, update_active_status}
use travel_web_api.Quota.Snapshot.{remaining, quota_snapshot}

pub record HermesTripCreated : Type 0 where
  pub job_id : String
  pub status : String
  pub current_stage : Json

-- create_trip of the planner's client: the request, the upstream id and the conversation id.
abbrev pub Planner : Type 0
Planner = JsonObject → String → String → Result HermesTripCreated

-- The reservation that submit_trip asks for, with the normal form of the request and its hash, and
-- the time after the planner answered.
pub record SubmitCall : Type 0 where
  pub reservation : ReserveCall
  pub later : Time

pub record Submission : Type 0 where
  pub trip : UserTrip
  pub quota_remaining : ℕ
  pub quota_state : EntryStatus

abbrev pub upstream_request_id : UserTrip → String
upstream_request_id t = "bff-" <> t.public_id

-- What runs after a call that returned; a call that raised ends the whole.
abbrev pub continue_with : {A B : Type 0} → Result A × Db → (A → App B) → Result B × Db
continue_with (ok a, db) f = f a db
continue_with (err e, db) f = (err e, db)

abbrev pub raise_after : {A B : Type 0} → Result A × Db → Error → Result B × Db
raise_after (ok a, db) e = (err e, db)
raise_after (err e', db) e = (err e', db)

abbrev pub service_error : ℕ → String → String → Bool → Error
service_error status_code code message retryable = api_error (record {
  status_code = status_code;
  code = code;
  message = message;
  retryable = retryable;
  details = [];
})

abbrev pub city_not_supported : Error
city_not_supported = service_error 422 "CITY_NOT_SUPPORTED" "暂不支持该城市。" false

abbrev pub invalid_answer : Bool → Error
invalid_answer = service_error 502 "GENERATION_SERVICE_ERROR" "生成服务返回了无效响应。"

abbrev pub integration_failure : String → Bool → Error
integration_failure category retryable =
    if category == "UNAVAILABLE"
    then service_error 503 "GENERATION_SERVICE_UNAVAILABLE" "生成服务暂时不可用，请稍后重试。" retryable
    else invalid_answer retryable

abbrev pub failed_call : UserTrip → Time → String → String → String → Bool → SettleCall
failed_call t later status code message retryable = record {
  trip_id = t.id;
  terminal_status = status;
  result_record_id = none;
  error_code = some code;
  error_message = some message;
  error_retryable = some retryable;
  owner_id = none;
  now = later;
}

-- The planner refused the request.
unfoldable pub on_business_error : Python → UserTrip → Time → String → App UserTrip
on_business_error py t later code db =
    if code == "CITY_NOT_SUPPORTED"
    then raise_after
        (settle_trip py (failed_call t later "REJECTED" "CITY_NOT_SUPPORTED" "暂不支持该城市。" false) db)
        city_not_supported
    else (err (invalid_answer false), db)

-- The planner could not be reached, or its answer could not be read.
unfoldable pub on_integration_error : Python → UserTrip → Time → String → Bool → Bool → App UserTrip
on_integration_error py t later category retryable unsure db =
    if unsure
    then raise_after (mark_upstream_uncertain t.id later db)
        (integration_failure category retryable)
    else raise_after
        (settle_trip py
          (failed_call t later "FAILED" "GENERATION_SERVICE_UNAVAILABLE" "生成服务暂时不可用，请稍后重试。" true)
          db)
        (integration_failure category retryable)

unfoldable pub on_created : Python → UserTrip → Time → HermesTripCreated → App UserTrip
on_created py t later created db =
    if created.job_id == ""
    then raise_after (mark_upstream_uncertain t.id later db) (invalid_answer false)
    else continue_with (save_upstream_acceptance py t.id created.job_id created.status later db)
        λ accepted db1.
          continue_with
            (record_trip_telemetry t.id (("current_stage", created.current_stage) ∷ []) later db1)
            λ _ db2. (ok accepted, db2)

unfoldable pub on_answer : Python → UserTrip → Time → Result HermesTripCreated → App UserTrip
on_answer py t later (ok created) db = on_created py t later created db
on_answer py t later (err (hermes_business_error code)) db = on_business_error py t later code db
on_answer py t later (err (hermes_integration_error category retryable unsure)) db =
    on_integration_error py t later category retryable unsure db
on_answer py t later (err e) db = (err e, db)

unfoldable pub submit_reserved : Python → Planner → UserTrip → Time → App UserTrip
submit_reserved py planner t later db =
    on_answer py t later (planner t.request_json (upstream_request_id t) t.public_id) db

abbrev pub conflict_details : String → Option String → TripStatus → JsonObject
conflict_details trip_id job_id status =
    (
      "active_trip",
      Json.obj (
          Fields.field "trip_id" (Json.text trip_id) (
            Fields.field "job_id" (elim job_id [ none ↦ Json.null | some j ↦ Json.text j ])
              (Fields.field "status" (Json.text (status_text status)) Fields.end))),
    )
    ∷ []

-- What submit_trip raises for what reserve_trip raised.
unfoldable pub submission_error : Error → Error
submission_error request_id_conflict =
    service_error 409 "REQUEST_ID_CONFLICT" "request_id 已用于其他请求。" false
submission_error (active_trip_conflict trip_id job_id status) = api_error (record {
  status_code = 409;
  code = "ACTIVE_TRIP_EXISTS";
  message = "当前已有进行中的行程。";
  retryable = false;
  details = conflict_details trip_id job_id status;
})
submission_error quota_exhausted = service_error 429 "QUOTA_EXHAUSTED" "生成额度已用完。" false
submission_error trip_ownership_error = service_error 401 "AUTH_REQUIRED" "请先登录。" false
submission_error e = e

-- A trip that no planner has yet is handed over.
unfoldable pub hand_over : Python → Planner → UserTrip → Time → App UserTrip
hand_over py planner t later db =
    if is_none t.hermes_job_id && is_submitting t.status
    then submit_reserved py planner t later db
    else (ok t, db)

abbrev pub submission_of : Uuid → UserTrip → App Submission
submission_of user t db = (
  ok (record {
    trip = t;
    quota_remaining = remaining (quota_snapshot user db);
    quota_state = entry_status t.status;
  }),
  db,
)

unfoldable pub after_reservation :
    Python → Planner → SubmitCall → Result Reservation × Db → Result Submission × Db
after_reservation py planner c (err e, db) = (err (submission_error e), db)
after_reservation py planner c (ok r, db) =
    continue_with (hand_over py planner r.trip c.later db) (submission_of c.reservation.user_id)

unfoldable pub submit_trip : Python → Planner → SubmitCall → App Submission
submit_trip py planner c db = after_reservation py planner c (reserve_trip py c.reservation db)

-- The fields of HermesJobStatus that apply_job_status reads. An absent value is `null`, which
-- record_trip_telemetry drops.
pub record HermesJobStatus : Type 0 where
  pub job_id : String
  pub status : String
  pub current_stage : Json
  pub plan_count : Json
  pub elapsed_ms : Json
  pub queue_wait_ms : Json
  pub run_elapsed_ms : Json
  pub total_elapsed_ms : Json
  pub result_type : Json
  pub result_record_id : Option ℕ
  pub error_code : Option String

-- SAFE_FAILURES, with what every other code gives.
abbrev pub safe_failure : Python → Option String → String × String × Bool
safe_failure py raw =
    let code = py.upper (or_empty raw) in
    if code == "CITY_NOT_SUPPORTED"
    then ("CITY_NOT_SUPPORTED", "暂不支持该城市。", false)
    else if code == "NO_FEASIBLE_PLAN"
    then ("NO_FEASIBLE_PLAN", "未能生成满足条件的行程，请调整条件后重试。", true)
    else if code == "CONTENT_REJECTED"
    then ("CONTENT_REJECTED", "本次请求无法生成行程。", false)
    else if code == "GENERATION_TIMEOUT"
    then ("GENERATION_TIMEOUT", "生成超时，请稍后重试。", true)
    else if code == "WRITER_CAPACITY_BUSY" || code == "WRITER_ENDPOINTS_UNAVAILABLE"
    then ("SERVICE_UNAVAILABLE", "服务暂时不可用，请稍后再试", true)
    else ("GENERATION_FAILED", "生成失败，请稍后重试。", true)

abbrev pub job_telemetry : HermesJobStatus → JsonObject
job_telemetry j =
    ("current_stage", j.current_stage)
    ∷ ("plan_count", j.plan_count)
    ∷ ("elapsed_ms", j.elapsed_ms)
    ∷ ("queue_wait_ms", j.queue_wait_ms)
    ∷ ("run_elapsed_ms", j.run_elapsed_ms)
    ∷ ("total_elapsed_ms", j.total_elapsed_ms)
    ∷ ("result_type", j.result_type)
    ∷ []

abbrev pub protocol_error : Error
protocol_error = hermes_integration_error "PROTOCOL" false false

abbrev pub ended_call : UserTrip → Option Uuid → Time → Python → HermesJobStatus → SettleCall
ended_call t owner now py j =
    let (code, message, retryable) = safe_failure py j.error_code in
    record {
      trip_id = t.id;
      terminal_status = j.status;
      result_record_id = none;
      error_code = some code;
      error_message = some message;
      error_retryable = some retryable;
      owner_id = owner;
      now = now;
    }

abbrev pub success_call : UserTrip → Option Uuid → Time → ℕ → SettleCall
success_call t owner now result = record {
  trip_id = t.id;
  terminal_status = "SUCCESS";
  result_record_id = some result;
  error_code = none;
  error_message = none;
  error_retryable = none;
  owner_id = owner;
  now = now;
}

unfoldable pub apply_ended : Python → UserTrip → HermesJobStatus → Option Uuid → Time → App UserTrip
apply_ended py t j owner now db =
    if j.status == "SUCCESS"
    then elim j.result_record_id [
      | none ↦ (err protocol_error, db)
      | some result ↦ settle_trip py (success_call t owner now result) db
    ]
    else settle_trip py (ended_call t owner now py j) db

unfoldable pub apply_reported :
    Python → UserTrip → HermesJobStatus → Option Uuid → Time → App UserTrip
apply_reported py t j owner now db =
    if j.status == "SUBMITTING" || j.status == "PENDING" || j.status == "RUNNING"
    then update_active_status py t.id j.status owner now db
    else apply_ended py t j owner now db

unfoldable pub apply_job_status :
    Python → UserTrip → HermesJobStatus → Option Uuid → Time → App UserTrip
apply_job_status py t j owner now db =
    if not (t.hermes_job_id =? j.job_id)
    then (err protocol_error, db)
    else continue_with (record_trip_telemetry t.id (job_telemetry j) now db)
        (λ _ db1. apply_reported py t j owner now db1)
