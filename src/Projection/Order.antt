-- ===== src/Projection/Order.antt =====
-- What the stream promises: events in the order of the outbox, each applied once, and an answer to
-- the broker that fits what was done.
use mathlib.Core.Option
use travel_web_api.Auth.Verify.{refused}
use travel_web_api.Db.Monad.{Db, ok, transaction, transaction-eq-ok}
use travel_web_api.Db.Trips.{AdminProjectionEvent, AdminProjectionConsumerState}
use travel_web_api.Db.Users.{Time}
use travel_web_api.Prelude.{
  string_eq, nat_eq, ◌==◌, Bool-cases, find, any, ℕ, ◌≡◌, refl, sym, ap, ◌∙◌, subst, inl, inr, Bool,
  true, false, Option, none, some, List, ◌∷◌, arith,
}
use travel_web_api.Projection.Feeds.{Feed, run_feeds, KeptByFeeds, run_feeds-keeps}
use travel_web_api.Projection.Frame.{is_taken}
use travel_web_api.Projection.Payloads.{TripProjectionCommitEvent, event_is_valid}
use travel_web_api.Projection.Sequence.{
  IsOrderedFor, IsOrdered, fits_for, fits_all, Handled, found_before, appended,
  apply_event_body-Handled, apply_event_body-IsOrdered,
}
use travel_web_api.Projection.Stream.{
  Applied, duplicate, event_row, apply_event_body, apply_projection_event, beaten, paused,
  pause_projection_stream,
}
use travel_web_api.Rows.{some_eq, find_holds, absent-found}

mapped_state :
    (f : AdminProjectionConsumerState → AdminProjectionConsumerState)
    {o : Option AdminProjectionConsumerState} {t : AdminProjectionConsumerState}
    → Option.map f o ≡ some t
    → (s : AdminProjectionConsumerState) × (o ≡ some s) × (f s ≡ t)
mapped_state f {o = none} h = cc
mapped_state f {o = some s} h = (s, refl, some_eq h)

IsOrdered-moved :
    (f : AdminProjectionConsumerState → AdminProjectionConsumerState) {db db' : Db}
    → ((s : AdminProjectionConsumerState) → IsOrderedFor db.events s → IsOrderedFor db.events (f s))
    → db'.events ≡ db.events
    → db'.consumer ≡ Option.map f db.consumer
    → IsOrdered db
    → IsOrdered db'
IsOrdered-moved f {db} {db'} keeps same moves h = record {
  fits = fits_all db'.events db'.consumer λ t is_t.
      let (s, is_s, image) = mapped_state f (sym moves ∙ is_t) in
      subst (λ xs. IsOrderedFor xs t) (sym same)
        (subst (IsOrderedFor db.events) image (keeps s (fits_for h s is_s)));
}

feeds-IsOrdered : KeptByFeeds IsOrdered
unfolding pause_projection_stream
feeds-IsOrdered = record {
  on_event = λ e again now db h k. apply_event_body-IsOrdered e again now db h k;
  on_heartbeat = λ b now db is_state h.
      IsOrdered-moved (beaten b now) {db = db} (λ s k. k) refl
        (ap (Option.map (beaten b now)) (sym is_state)) h;
  on_pause = λ db h. IsOrdered-moved paused {db = db} (λ s k. k) refl refl h;
}

-- From a stream whose applied events are numbered without a gap up to the number before the next
-- one expected, any sequence of messages and repairs, valid or not and in any order, leads to such
-- a stream.
pub run_feeds-IsOrdered :
    (max_attempts : ℕ) (fs : List Feed) (db : Db)
    → IsOrdered db
    → IsOrdered (run_feeds max_attempts fs db)
run_feeds-IsOrdered = run_feeds-keeps feeds-IsOrdered

-- The events hold this one, with this payload.
pub record HasEvent (e : TripProjectionCommitEvent) (db : Db) : Type 0 where
  pub row : AdminProjectionEvent
  pub is_found : find (λ x. x.event_id == e.event_id) db.events ≡ some row
  pub same_payload : row.payload_hash ≡ e.payload_hash

found_behind :
    (e : TripProjectionCommitEvent) (n : AdminProjectionEvent) (xs : List AdminProjectionEvent)
    {x : AdminProjectionEvent}
    → any (is_taken n) xs ≡ false
    → find (λ y. y.event_id == e.event_id) xs ≡ some x
    → find (λ y. y.event_id == e.event_id) (n ∷ xs) ≡ some x
found_behind e n xs {x} free h =
    let apart : is_taken n x ≡ false = absent-found (is_taken n) _ xs free h in
    let own : (x.event_id == e.event_id) ≡ true = find_holds (λ y. y.event_id == e.event_id) xs h in
    elim (Bool-cases (n.event_id == e.event_id)) [
      | inl clash ↦ absurd (ground arith)
      | inr other ↦ rw other h
    ]

feeds-HasEvent : (e : TripProjectionCommitEvent) → KeptByFeeds (HasEvent e)
unfolding pause_projection_stream
feeds-HasEvent e = record {
  on_event = λ e' again now db {a} {db'} h k. elim (apply_event_body-Handled e' again now db k) [
    | found_before x f s same ↦ subst (HasEvent e) (sym same) h
    | appended acc ↦ record {
      row = h.row;
      is_found =
          subst (λ xs. find (λ y. y.event_id == e.event_id) xs ≡ some h.row)
            (sym acc.wrote.events_grow)
            (found_behind e (event_row e' now) db.events acc.wrote.not_taken h.is_found);
      same_payload = h.same_payload;
    }
  ];
  on_heartbeat = λ b now db is_state h. record {
    row = h.row;
    is_found = h.is_found;
    same_payload = h.same_payload;
  };
  on_pause = λ db h. record { row = h.row; is_found = h.is_found; same_payload = h.same_payload };
}

Handled-HasEvent :
    (e : TripProjectionCommitEvent) (again : Bool) (now : Time) (db db' : Db)
    → Handled e again now db db'
    → HasEvent e db'
Handled-HasEvent e again now db db' (found_before x is_found same_hash same) =
    subst (HasEvent e) (sym same)
      (record { row = x; is_found = is_found; same_payload = same_hash })
Handled-HasEvent e again now db db' (appended acc) = record {
  row = event_row e now;
  is_found = rw (acc.wrote.events_grow) (ground arith);
  same_payload = refl;
}

apply_projection_event-valid :
    (e : TripProjectionCommitEvent) (again : Bool) (now : Time) (db : Db) {a : Applied}
    → (apply_projection_event e again now db).0 ≡ ok a
    → event_is_valid e ≡ true
unfolding apply_projection_event
apply_projection_event-valid e again now db h = elim (Bool-cases (event_is_valid e)) [
  | inl valid ↦ valid
  | inr refused ↦ absurd (ground arith)
]

pub apply_projection_event-HasEvent :
    (e : TripProjectionCommitEvent) (again : Bool) (now : Time) (db : Db) {a : Applied}
    → (apply_projection_event e again now db).0 ≡ ok a
    → HasEvent e (apply_projection_event e again now db).1
unfolding apply_projection_event
apply_projection_event-HasEvent e again now db {a} h =
    let valid = apply_projection_event-valid e again now db h in
    let returned : (transaction (apply_event_body e again now) db).0 ≡ ok a = rw valid at h in
    rw valid (
      Handled-HasEvent e again now db _ (
        apply_event_body-Handled e again now db
          (transaction-eq-ok (apply_event_body e again now) db returned)))

redelivered :
    (e : TripProjectionCommitEvent) (again : Bool) (now : Time) (db : Db)
    → event_is_valid e ≡ true
    → HasEvent e db
    → apply_projection_event e again now db ≡ (ok duplicate, db)
unfolding apply_projection_event apply_event_body
redelivered e again now db valid h =
    let same : (h.row.payload_hash == e.payload_hash) ≡ true = ground (arith, h.same_payload) in
    rw (valid, apply_event_body, h.is_found, same) refl

-- An event that was once applied, or found to be applied, is answered DUPLICATE on every later
-- delivery or repair, which changes nothing, whatever messages and repairs came between.
pub apply_projection_event-duplicate :
    (max_attempts : ℕ) (e : TripProjectionCommitEvent) (again again' : Bool) (now now' : Time)
    (fs : List Feed) (db : Db) {a : Applied}
    → (apply_projection_event e again now db).0 ≡ ok a
    → let later = run_feeds max_attempts fs (apply_projection_event e again now db).1 in
      apply_projection_event e again' now' later ≡ (ok duplicate, later)
apply_projection_event-duplicate max_attempts e again again' now now' fs db h =
    redelivered e again' now' _ (apply_projection_event-valid e again now db h) (
      run_feeds-keeps (feeds-HasEvent e) max_attempts fs _
        (apply_projection_event-HasEvent e again now db h))
