-- ===== src/Quota/Evolution.antt =====
-- What no call of quota/service.py changes of a trip that is there: its owner and its request, the
-- job that it is bound to, and the outcome of a trip that has ended.
use travel_web_api.Db.Monad.{Db, ok}
use travel_web_api.Db.Statuses.{is_terminal}
use travel_web_api.Db.Tables.{put_trip, put_trip-eq-ok}
use travel_web_api.Db.Trips.{UserTrip}
use travel_web_api.Prelude.{
  ◌==◌, nat_eq, string_eq, Bool-cases, find, String, ◌≡◌, refl, sym, ap, ◌∙◌, subst, inl, inr, true,
  some, arith,
}
use travel_web_api.Quota.Ledger.{trip_key}
use travel_web_api.Rows.{has_key, set_row, find-set_row_self, find-set_row_ne}

pub record Evolves (t t' : UserTrip) : Type 0 where
  pub same_public_id : t'.public_id ≡ t.public_id
  pub same_owner : t'.user_id ≡ t.user_id
  pub same_request : t'.client_request_id ≡ t.client_request_id
  pub same_hash : t'.request_hash ≡ t.request_hash
  pub same_entry : t'.quota_entry_id ≡ t.quota_entry_id
  pub bound : (job : String) → t.hermes_job_id ≡ some job → t'.hermes_job_id ≡ some job
  pub final : is_terminal t.status ≡ true → t'.status ≡ t.status
  pub final_result : is_terminal t.status ≡ true → t'.result_record_id ≡ t.result_record_id
  pub final_error : is_terminal t.status ≡ true → t'.error_code ≡ t.error_code

pub Evolves-refl : (t : UserTrip) → Evolves t t
Evolves-refl t = record {
  same_public_id = refl;
  same_owner = refl;
  same_request = refl;
  same_hash = refl;
  same_entry = refl;
  bound = λ job e. e;
  final = λ h. refl;
  final_result = λ h. refl;
  final_error = λ h. refl;
}

pub Evolves-trans : {t u v : UserTrip} → Evolves t u → Evolves u v → Evolves t v
Evolves-trans a b = record {
  same_public_id = b.same_public_id ∙ a.same_public_id;
  same_owner = b.same_owner ∙ a.same_owner;
  same_request = b.same_request ∙ a.same_request;
  same_hash = b.same_hash ∙ a.same_hash;
  same_entry = b.same_entry ∙ a.same_entry;
  bound = λ job e. b.bound job (a.bound job e);
  final = λ h. b.final (ap is_terminal (a.final h) ∙ h) ∙ a.final h;
  final_result = λ h. b.final_result (ap is_terminal (a.final h) ∙ h) ∙ a.final_result h;
  final_error = λ h. b.final_error (ap is_terminal (a.final h) ∙ h) ∙ a.final_error h;
}

-- The trip is still there, and has changed by no more than that.
pub record Keeps (t : UserTrip) (db : Db) : Type 0 where
  pub now_is : UserTrip
  pub same_id : now_is.id ≡ t.id
  pub is_there : find (has_key trip_key t.id) db.trips ≡ some now_is
  pub evolved : Evolves t now_is

pub Keeps-trips : {t : UserTrip} (db db' : Db) → db'.trips ≡ db.trips → Keeps t db → Keeps t db'
Keeps-trips {t} db db' same k = record {
  now_is = k.now_is;
  same_id = k.same_id;
  is_there = ap (find (has_key trip_key t.id)) same ∙ k.is_there;
  evolved = k.evolved;
}

-- A rewrite of a row by one that it evolves to.
pub Keeps-set_row :
    {t : UserTrip} (db : Db) (x x' : UserTrip)
    → x'.id ≡ x.id
    → find (has_key trip_key x.id) db.trips ≡ some x
    → Evolves x x'
    → Keeps t db
    → Keeps t (record db { trips = set_row trip_key x'.id x' db.trips })
Keeps-set_row {t} db x x' same found step k = elim (Bool-cases (t.id == x'.id)) [
  | inl own ↦
      let mine : t.id ≡ x'.id = ground (arith, own) in
      let found' : find (has_key trip_key x'.id) db.trips ≡ some x = rw same found in
      let is_x : k.now_is ≡ x = cc (k.is_there, found, mine, same) in
      record {
        now_is = x';
        same_id = sym mine;
        is_there = rw mine (find-set_row_self trip_key x'.id x' db.trips refl found');
        evolved = Evolves-trans (subst (Evolves t) is_x k.evolved) step;
      }
  | inr other ↦ record {
    now_is = k.now_is;
    same_id = k.same_id;
    is_there =
        find-set_row_ne trip_key t.id x'.id x' db.trips refl (λ e. ground (arith, other, e))
        ∙ k.is_there;
    evolved = k.evolved;
  }
]

pub Keeps-put_trip :
    {t : UserTrip} (db : Db) (x x' : UserTrip) {u : Unit {0}} {db' : Db}
    → x'.id ≡ x.id
    → find (has_key trip_key x.id) db.trips ≡ some x
    → Evolves x x'
    → Keeps t db
    → put_trip x' db ≡ ok (u, db')
    → Keeps t db'
Keeps-put_trip db x x' same found step k e =
    subst (Keeps _) (sym (put_trip-eq-ok x' db e).1) (Keeps-set_row db x x' same found step k)

-- A rewrite that leaves those fields alone.
pub Evolves-fields :
    (t t' : UserTrip)
    → t'.public_id ≡ t.public_id
    → t'.user_id ≡ t.user_id
    → t'.client_request_id ≡ t.client_request_id
    → t'.request_hash ≡ t.request_hash
    → t'.quota_entry_id ≡ t.quota_entry_id
    → t'.hermes_job_id ≡ t.hermes_job_id
    → t'.status ≡ t.status
    → t'.result_record_id ≡ t.result_record_id
    → t'.error_code ≡ t.error_code
    → Evolves t t'
Evolves-fields t t' public owner request hash entry job status result error = record {
  same_public_id = public;
  same_owner = owner;
  same_request = request;
  same_hash = hash;
  same_entry = entry;
  bound = λ j e. job ∙ e;
  final = λ over. status;
  final_result = λ over. result;
  final_error = λ over. error;
}
