-- ===== src/Projection/Sequence.antt =====
-- The order of the stream: the sequence numbers of the events that were applied, what a redelivery
-- finds, and what each answer to the broker means.
use mathlib.Core.Option
use travel_web_api.Db.Monad.{Db, ok}
use travel_web_api.Db.Trips.{AdminProjectionEvent, AdminProjectionConsumerState}
use travel_web_api.Db.Users.{Time}
use travel_web_api.Prelude.{
  string_eq, nat_eq, ◌==◌, Option-cases, find, ℕ, ◌+◌, ◌≡◌, refl, sym, ◌∙◌, subst, inl, inr, Bool,
  Option, none, some, List, [], ◌∷◌, arith,
}
use travel_web_api.Projection.Frame.{Accepted, apply_new-Accepted}
use travel_web_api.Projection.Payloads.{TripProjectionCommitEvent}
use travel_web_api.Projection.Stream.{Applied, event_row, advanced, apply_new, apply_event_body}
use travel_web_api.Rows.{some_eq}

-- The events, newest first, are numbered down from the number before `next` without a gap.
abbrev pub Contiguous : ℕ → List AdminProjectionEvent → Type 0
Contiguous next [] = Unit
Contiguous next (x ∷ xs) = (x.outbox_sequence + 1 ≡ next) × Contiguous x.outbox_sequence xs

abbrev pub IsOrderedFor : List AdminProjectionEvent → AdminProjectionConsumerState → Type 0
IsOrderedFor events s =
    (s.next_expected_sequence ≡ s.applied_high_watermark + 1)
    × Contiguous s.next_expected_sequence events

abbrev pub StateFits : List AdminProjectionEvent → Option AdminProjectionConsumerState → Type 0
StateFits events none = Unit
StateFits events (some s) = IsOrderedFor events s

-- The state row of the stream, where there is one, fits the events.
pub record IsOrdered (db : Db) : Type 0 where
  pub fits : StateFits db.events db.consumer

pub fits_for :
    {db : Db}
    → IsOrdered db
    → (s : AdminProjectionConsumerState) → db.consumer ≡ some s
    → IsOrderedFor db.events s
fits_for {db} h s is_s = subst (StateFits db.events) is_s h.fits

pub fits_all :
    (events : List AdminProjectionEvent) (o : Option AdminProjectionConsumerState)
    → ((s : AdminProjectionConsumerState) → o ≡ some s → IsOrderedFor events s)
    → StateFits events o
fits_all events none h = tt
fits_all events (some s) h = h s refl

advanced_state :
    (e : TripProjectionCommitEvent) (repair : Bool) {o : Option AdminProjectionConsumerState}
    {s t : AdminProjectionConsumerState}
    → o ≡ some s
    → Option.map (advanced e repair) o ≡ some t
    → t ≡ advanced e repair s
advanced_state e repair {t = t} h k =
    some_eq (sym (subst (λ x. Option.map (advanced e repair) x ≡ some t) h k))

Accepted-IsOrdered :
    (e : TripProjectionCommitEvent) (repair : Bool) (now : Time) {db db' : Db}
    → IsOrdered db
    → Accepted e repair now db db'
    → IsOrdered db'
Accepted-IsOrdered e repair now {db} {db'} h a = record {
  fits = fits_all db'.events db'.consumer λ t is_t.
      let state_moves : t ≡ advanced e repair a.state =
        advanced_state e repair a.is_state (sym a.wrote.consumer_moves ∙ is_t) in
      let old = fits_for h a.state a.is_state in
      let kept : Contiguous e.outbox_sequence db.events =
        subst (λ n. Contiguous n db.events) (sym a.is_next) old.1 in
      let held : IsOrderedFor (event_row e now ∷ db.events) (advanced e repair a.state) =
        (refl, (refl, kept)) in
      subst (λ xs. IsOrderedFor xs t) (sym a.wrote.events_grow)
        (subst (IsOrderedFor (event_row e now ∷ db.events)) (sym state_moves) held);
}

-- What a body that returned did: it found the event, or appended it.
pub data Handled (e : TripProjectionCommitEvent) (repair : Bool) (now : Time) (db db' : Db)
    : Type 0 where
  found_before :
      (x : AdminProjectionEvent)
      → find (λ y. y.event_id == e.event_id) db.events ≡ some x
      → x.payload_hash ≡ e.payload_hash
      → db' ≡ db
      → Handled e repair now db db'
  appended : Accepted e repair now db db' → Handled e repair now db db'

pub apply_event_body-Handled :
    (e : TripProjectionCommitEvent) (repair : Bool) (now : Time) (db : Db) {a : Applied} {db' : Db}
    → apply_event_body e repair now db ≡ ok (a, db')
    → Handled e repair now db db'
unfolding apply_event_body
apply_event_body-Handled e repair now db {a} {db'} h =
    elim (Option-cases (find (λ x. x.event_id == e.event_id) db.events)) [
      | inl new ↦
          let written : apply_new e repair now db ≡ ok (a, db') = ground arith in
          appended (apply_new-Accepted e repair now db written)
      | inr (x, is_found) ↦ found_before x is_found (ground arith) (ground arith)
    ]

pub apply_event_body-IsOrdered :
    (e : TripProjectionCommitEvent) (repair : Bool) (now : Time) (db : Db) {a : Applied} {db' : Db}
    → IsOrdered db
    → apply_event_body e repair now db ≡ ok (a, db')
    → IsOrdered db'
apply_event_body-IsOrdered e repair now db h k = elim (apply_event_body-Handled e repair now db k) [
  | found_before x is_found same_hash same ↦ subst IsOrdered (sym same) h
  | appended a ↦ Accepted-IsOrdered e repair now h a
]
