-- ===== src/Trips/Rounds.antt =====
-- The attempts that the open trips have left, and that they run out while the planner cannot be
-- reached.
use travel_web_api.Db.Monad.{Db}
use travel_web_api.Db.Statuses.{is_active_trip}
use travel_web_api.Db.Trips.{UserTrip}
use travel_web_api.Db.Users.{Time}
use travel_web_api.Prelude.{
  ltb, if◌then◌else◌, string_eq, nat_eq, ◌==◌, Bool-cases, any, length, take, update_where, select,
  total, All, ℕ, zero, suc, ◌+◌, ◌-◌, ◌≤◌, ◌<◌, ◌≡◌, refl, ap, ◌∙◌, inl, inr, true, ◌&&◌, List, [],
  ◌∷◌, arith,
}
use travel_web_api.Rows.{All-map}
use travel_web_api.Security.{Settings}
use travel_web_api.Trips.Reconciliation.{
  is_open, is_before, insert_trip_by_age, by_age, open_batch, claimed_row, is_among,
}

abbrev attempts_left : Settings → UserTrip → ℕ
attempts_left settings t =
    if is_active_trip t.status
    then settings.reconciliation_max_attempts - t.reconciliation_attempts
    else 0

abbrev pub budget : Settings → Db → ℕ
budget settings db = total (attempts_left settings) db.trips

length-select :
    (settings : Settings) (ts : List UserTrip)
    → length (select (is_open settings) ts) ≤ total (attempts_left settings) ts
length-select settings [] = omega arith
length-select settings (t ∷ ts) = elim (Bool-cases (is_active_trip t.status)) [
  | inl live ↦
      elim (Bool-cases (ltb t.reconciliation_attempts settings.reconciliation_max_attempts)) [
        | inl less ↦
            let below : t.reconciliation_attempts < settings.reconciliation_max_attempts =
              ground (arith, less) in
            rw (live, less) (omega (arith, length-select settings ts, below))
        | inr spent ↦ rw (live, spent) (omega (arith, length-select settings ts))
      ]
  | inr over ↦ rw over (omega (arith, length-select settings ts))
]

empty_list {ℓ} : {A : Type ℓ} (xs : List A) → length xs ≤ 0 → xs ≡ []
empty_list [] h = refl
empty_list (x ∷ xs) h = absurd (omega arith)

pub no_budget :
    (settings : Settings) (db : Db) → budget settings db ≤ 0 → open_batch settings db ≡ []
unfolding open_batch
no_budget settings db h =
    let none_open =
      empty_list (select (is_open settings) db.trips)
        (omega (arith, length-select settings db.trips)) in
    ap (λ ts. take settings.reconciliation_batch_size (by_age ts)) none_open
    ∙ take_none settings.reconciliation_batch_size
  where
    take_none : (n : ℕ) → take {A = UserTrip} n [] ≡ []
    take_none zero = refl
    take_none (suc n) = refl

-- The trip is open and among these.
abbrev pub IsOpenIn : Settings → List UserTrip → UserTrip → Type 0
IsOpenIn settings ts b = any (λ t. is_open settings t && t.id == b.id) ts ≡ true

pub select-IsOpenIn :
    (settings : Settings) (ts : List UserTrip)
    → All (IsOpenIn settings ts) (select (is_open settings) ts)
select-IsOpenIn settings [] = tt
select-IsOpenIn settings (t ∷ ts) =
    let rest : All (IsOpenIn settings (t ∷ ts)) (select (is_open settings) ts) =
      All-map (select (is_open settings) ts) (λ b h. ground (arith, h))
        (select-IsOpenIn settings ts) in
    elim (Bool-cases (is_open settings t)) [
      | inl is_open_t ↦ rw is_open_t (ground arith, rest)
      | inr closed ↦ rw closed rest
    ]

All-insert :
    (P : UserTrip → Type 0) (t : UserTrip) (ts : List UserTrip)
    → P t
    → All P ts
    → All P (insert_trip_by_age t ts)
All-insert P t [] h a = (h, tt)
All-insert P t (u ∷ us) h a = elim (Bool-cases (is_before t u)) [
  | inl first ↦ rw first (h, a)
  | inr after ↦ rw after (a.0, All-insert P t us h a.1)
]

pub All-by_age : (P : UserTrip → Type 0) (ts : List UserTrip) → All P ts → All P (by_age ts)
All-by_age P [] a = tt
All-by_age P (t ∷ ts) a = All-insert P t (by_age ts) a.0 (All-by_age P ts a.1)

pub All-take : (P : UserTrip → Type 0) (n : ℕ) (ts : List UserTrip) → All P ts → All P (take n ts)
All-take P zero ts a = tt
All-take P (suc n) [] a = tt
All-take P (suc n) (t ∷ ts) a = (a.0, All-take P n ts a.1)

spends_at_most :
    (settings : Settings) (now : Time) (batch ts : List UserTrip)
    → total (attempts_left settings) (update_where (is_among batch) (claimed_row now) ts)
      ≤ total (attempts_left settings) ts
spends_at_most settings now batch [] = omega arith
spends_at_most settings now batch (t ∷ ts) =
    let rest = spends_at_most settings now batch ts in
    elim (Bool-cases (is_among batch t)) [
      | inl mine ↦ elim (Bool-cases (is_active_trip t.status)) [
        | inl live ↦ rw (mine, live) (omega (arith, rest))
        | inr over ↦ rw (mine, over) (omega (arith, rest))
      ]
      | inr other ↦ rw other (omega (arith, rest))
    ]

pub spends_one :
    (settings : Settings) (now : Time) (b : UserTrip) (bs ts : List UserTrip)
    → IsOpenIn settings ts b
    → total (attempts_left settings) (update_where (is_among (b ∷ bs)) (claimed_row now) ts) + 1
      ≤ total (attempts_left settings) ts
spends_one settings now b bs [] h = cc h
spends_one settings now b bs (t ∷ ts) h = elim (Bool-cases (is_open settings t && t.id == b.id)) [
  | inl own ↦
      let live : is_active_trip t.status ≡ true = ground (arith, own) in
      let less : t.reconciliation_attempts < settings.reconciliation_max_attempts =
        ground (arith, own) in
      let mine : is_among (b ∷ bs) t ≡ true = ground (arith, own) in
      rw (mine, live) (omega (arith, less, spends_at_most settings now (b ∷ bs) ts))
  | inr other ↦
      let later : IsOpenIn settings ts b = ground (arith, other, h) in
      let rest = spends_one settings now b bs ts later in
      let own = spends_at_most settings now (b ∷ bs) (t ∷ []) in omega (arith, rest, own)
]
