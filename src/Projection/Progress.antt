-- ===== src/Projection/Progress.antt =====
-- The head of the stream can be applied: what it takes for the next event to be accepted, and for a
-- repair to set a paused stream going.
use travel_web_api.Db.Monad.{Db, ok, bound}
use travel_web_api.Db.Trips.{UserTrip, AdminTripProjection}
use travel_web_api.Db.Users.{Time}
use travel_web_api.Prelude.{
  ltb, string_eq, nat_eq, ◌==◌, Bool-cases, Option-cases, find, any, all, update_where, All, String,
  ◌≡◌, refl, ap, ◌∙◌, ◌⊎◌, inl, inr, Bool, true, false, Option, none, some, List, [], ◌∷◌, arith,
}
use travel_web_api.Projection.Payloads.{JobProjectionPayload, StepProjectionPayload}
use travel_web_api.Projection.Snapshots.{
  association_from_locked_facts, new_projection, refreshed, lock_user_trip, source_id_taken,
  apply_job_snapshot, step_row, write_step, apply_step_snapshot,
}
use travel_web_api.Projection.Stream.{insert_step, sort_steps, apply_steps}
use travel_web_api.Rows.{same_text, self_same, find_holds, find-All}

-- No two rows have one source id.
abbrev pub UniqueSources : Db → Type 0
UniqueSources db =
    All (λ p. source_id_taken p.job_id p.source_id db.projections ≡ false) db.projections

abbrev pub has_job : String → Db → Bool
has_job job_id db = any (λ p. p.job_id == job_id) db.projections

find-any {ℓ} :
    {A : Type ℓ} (p : A → Bool) (xs : List A) {x : A} → find p xs ≡ some x → any p xs ≡ true
find-any p [] h = cc
find-any p (y ∷ xs) {x} h = ground (arith, find-any p xs {x = x})

any-update_same {ℓ} :
    {A : Type ℓ} (p q : A → Bool) (f : A → A) (xs : List A)
    → ((x : A) → p (f x) ≡ p x)
    → any p (update_where q f xs) ≡ any p xs
any-update_same p q f [] h = refl
any-update_same p q f (x ∷ xs) h = ground (arith, h x, any-update_same p q f xs h)

pub refreshed-job_id :
    (j : JobProjectionPayload) (trip : Option UserTrip) (now : Time) (p : AdminTripProjection)
    → (refreshed j trip now p).job_id ≡ p.job_id
unfolding refreshed
refreshed-job_id j trip now p = ground arith

refreshed-source_id :
    (j : JobProjectionPayload) (trip : Option UserTrip) (now : Time) (p : AdminTripProjection)
    → ((refreshed j trip now p).source_id ≡ j.source_id)
      ⊎ ((refreshed j trip now p).source_id ≡ p.source_id)
unfolding refreshed
refreshed-source_id j trip now p = elim (Bool-cases (ltb p.source_version j.source_version)) [
  | inl newer ↦ inl (rw newer refl)
  | inr older ↦ inr (rw older refl)
]

free_source :
    (j : JobProjectionPayload) (trip : Option UserTrip) (now : Time) (db : Db)
    (p : AdminTripProjection)
    → UniqueSources db
    → source_id_taken j.job_id j.source_id db.projections ≡ false
    → find (λ q. q.job_id == j.job_id) db.projections ≡ some p
    → source_id_taken j.job_id (refreshed j trip now p).source_id db.projections ≡ false
free_source j trip now db p unique free is_found =
    let own : p.source_id ≡ p.source_id
        × (source_id_taken p.job_id p.source_id db.projections ≡ false) =
      (
        refl,
        find-All (λ q. source_id_taken q.job_id q.source_id db.projections ≡ false) _ db.projections
            is_found unique,
      ) in
    let mine : p.job_id ≡ j.job_id =
      same_text (find_holds (λ q. q.job_id == j.job_id) db.projections is_found) in
    elim (refreshed-source_id j trip now p) [
      | inl same ↦ rw same free
      | inr same ↦ rw same (rw mine at own.1)
    ]

pub apply_job_snapshot-returns :
    (j : JobProjectionPayload) (now : Time) (db : Db)
    → UniqueSources db
    → source_id_taken j.job_id j.source_id db.projections ≡ false
    → (db' : Db) × (apply_job_snapshot j now db ≡ ok (tt, db')) × (has_job j.job_id db' ≡ true)
unfolding apply_job_snapshot new_projection
apply_job_snapshot-returns j now db unique free =
    elim (Option-cases (find (λ p. p.job_id == j.job_id) db.projections)) [
      | inl new ↦
          let row =
            new_projection j (association_from_locked_facts (lock_user_trip j.job_id db) none)
              now in
          (
            record db { projections = row ∷ db.projections },
            rw (apply_job_snapshot, new, free) refl,
            rw (has_job, new_projection, self_same j.job_id) refl,
          )
      | inr (p, is_found) ↦
          let trip = lock_user_trip j.job_id db in
          let alone = free_source j trip now db p unique free is_found in
          let there : has_job j.job_id db ≡ true =
            find-any (λ q. q.job_id == j.job_id) db.projections is_found in
          (
            record db {
              projections =
                  update_where (λ q. q.job_id == j.job_id) (refreshed j trip now) db.projections;
            },
            rw (apply_job_snapshot, is_found, alone) refl,
            any-update_same (λ q. q.job_id == j.job_id) _ (refreshed j trip now) db.projections
                  (λ x. ap (λ s. s == j.job_id) (refreshed-job_id j trip now x))
                ∙ there,
          )
    ]

all-insert_step :
    (p : StepProjectionPayload → Bool) (s : StepProjectionPayload) (ss : List StepProjectionPayload)
    → p s ≡ true
    → all p ss ≡ true
    → all p (insert_step s ss) ≡ true
all-insert_step p s [] h k = rw h refl
all-insert_step p s (t ∷ ts) h k = ground (arith, all-insert_step p s ts h)

pub all-sort_steps :
    (p : StepProjectionPayload → Bool) (ss : List StepProjectionPayload)
    → all p ss ≡ true
    → all p (sort_steps ss) ≡ true
all-sort_steps p [] h = refl
all-sort_steps p (s ∷ ss) h =
    all-insert_step p s (sort_steps ss) (ground arith) (all-sort_steps p ss (ground arith))

apply_step_snapshot-returns :
    (s : StepProjectionPayload) (now : Time) (db : Db)
    → has_job s.job_id db ≡ true
    → (db' : Db) × (apply_step_snapshot s now db ≡ ok (tt, db'))
      × (db'.projections ≡ db.projections)
unfolding apply_step_snapshot write_step
apply_step_snapshot-returns s now db h =
    elim (Option-cases (find (λ x. x.source_step_id == s.source_step_id) db.steps)) [
      | inl new ↦ (
        record db { steps = step_row s now ∷ db.steps },
        rw (apply_step_snapshot, new, write_step, h) refl,
        refl,
      )
      | inr (x, is_found) ↦ elim (Bool-cases (ltb x.source_version s.source_version)) [
        | inl newer ↦ (
          record db {
            steps =
                update_where (λ y. y.source_step_id == s.source_step_id) (λ _. step_row s now)
                  db.steps;
          },
          rw (apply_step_snapshot, is_found, newer, write_step, h) refl,
          refl,
        )
        | inr older ↦ (db, rw (apply_step_snapshot, is_found, older) refl, refl)
      ]
    ]

pub apply_steps-returns :
    (job_id : String) (ss : List StepProjectionPayload) (now : Time) (db : Db)
    → all (λ s. s.job_id == job_id) ss ≡ true
    → has_job job_id db ≡ true
    → (db' : Db) × (apply_steps ss now db ≡ ok (tt, db'))
unfolding apply_steps
apply_steps-returns job_id [] now db a h = (db, refl)
apply_steps-returns job_id (s ∷ ss) now db a h =
    let same : s.job_id ≡ job_id = same_text (ground arith) in
    let there : has_job s.job_id db ≡ true = rw same h in
    let (db1, e1, kept) = apply_step_snapshot-returns s now db there in
    let (db2, e2) = apply_steps-returns job_id ss now db1 (ground arith) (rw (has_job, kept) h) in
    (db2, bound (apply_step_snapshot s now) _ db e1 e2)
