-- ===== src/Rows.antt =====
-- Tables whose rows have a numeric key: what an update of one row does to lookups, to sums and to
-- predicates of all rows.
use mathlib.Core.Option
use travel_web_api.Prelude.{
  if◌then◌else◌, string_eq, nat_eq, ◌==◌, Bool-cases, find, any, update_where, total, count_where,
  All, ℕ, ◌+◌, String, ◌≡◌, refl, ap, subst, ◌≢◌, inl, inr, Bool, true, false, ◌||◌, none, some,
  List, [], ◌∷◌, arith,
}

pub some_eq {ℓ} : {A : Type ℓ} {a b : A} → some a ≡ some b → a ≡ b
some_eq h = cc

pub same_text : {s t : String} → (s == t) ≡ true → s ≡ t
same_text {s = s} {t = t} h = (string_eq.is_same_iff s t).1 h

pub self_same : (s : String) → (s == s) ≡ true
self_same s = (string_eq.is_same_iff s s).0 refl

-- What holds of all rows holds of the one that is found, and that one passes the test.
pub find_holds {ℓ} :
    {A : Type ℓ} (p : A → Bool) {x : A} (xs : List A) → find p xs ≡ some x → p x ≡ true
find_holds p [] h = cc
find_holds p (y ∷ xs) h = elim (Bool-cases (p y)) [
  | inl e ↦ ground (arith, e)
  | inr e ↦ find_holds p xs (rw e at h)
]

pub find-All {ℓ κ} :
    {A : Type ℓ} (P : A → Type κ) (p : A → Bool) {x : A} (xs : List A)
    → find p xs ≡ some x
    → All P xs
    → P x
find-All P p [] h a = absurd (cc)
find-All P p (y ∷ xs) h a = elim (Bool-cases (p y)) [
  | inl e ↦ subst P (some_eq (rw e at h)) a.0
  | inr e ↦ find-All P p xs (rw e at h) a.1
]

pub count-congr {ℓ} :
    {A : Type ℓ} (p q : A → Bool) (xs : List A)
    → ((x : A) → p x ≡ q x)
    → count_where p xs ≡ count_where q xs
count-congr p q [] h = refl
count-congr p q (x ∷ xs) h = ground (arith, h x, count-congr p q xs h)

pub total-update_same {ℓ} :
    {A : Type ℓ} (w : A → ℕ) (p : A → Bool) (f : A → A) (xs : List A)
    → ((x : A) → w (f x) ≡ w x)
    → total w (update_where p f xs) ≡ total w xs
total-update_same w p f [] h = refl
total-update_same w p f (x ∷ xs) h = ground (arith, h x, total-update_same w p f xs h)

pub find-update_same {ℓ} :
    {A : Type ℓ} (q p : A → Bool) (f : A → A) (xs : List A)
    → ((x : A) → q (f x) ≡ q x)
    → find q (update_where p f xs) ≡ Option.map (λ x. if p x then f x else x) (find q xs)
find-update_same q p f [] h = refl
find-update_same q p f (x ∷ xs) h = ground (arith, h x, find-update_same q p f xs h)

pub All-update {ℓ κ μ} :
    {A : Type ℓ} {P : A → Type κ} (Q : A → Type μ) (p : A → Bool) (f : A → A) (xs : List A)
    → ((x : A) → P x → p x ≡ true → Q (f x))
    → ((x : A) → P x → p x ≡ false → Q x)
    → All P xs
    → All Q (update_where p f xs)
All-update Q p f [] h k a = tt
All-update Q p f (x ∷ xs) h k a = elim (Bool-cases (p x)) [
  | inl e ↦ rw e (h x a.0 e, All-update Q p f xs h k a.1)
  | inr e ↦ rw e (k x a.0 e, All-update Q p f xs h k a.1)
]

pub All-map {ℓ κ μ} :
    {A : Type ℓ} {P : A → Type κ} {Q : A → Type μ} (xs : List A)
    → ((x : A) → P x → Q x)
    → All P xs
    → All Q xs
All-map [] h a = tt
All-map (x ∷ xs) h a = (h x a.0, All-map xs h a.1)

-- A test that no row passes is not passed by the one that is found.
pub absent-found {ℓ} :
    {A : Type ℓ} (q p : A → Bool) {x : A} (xs : List A)
    → any q xs ≡ false
    → find p xs ≡ some x
    → q x ≡ false
absent-found q p [] a h = cc
absent-found q p (y ∷ xs) a h = elim (Bool-cases (p y)) [
  | inl e ↦ ground (arith, e)
  | inr e ↦ absent-found q p xs (ground arith) (rw e at h)
]

pub update_where-none {ℓ} :
    {A : Type ℓ} (p : A → Bool) (f : A → A) (xs : List A)
    → any p xs ≡ false
    → (update_where p f xs ≡ xs) × (count_where p xs ≡ 0)
update_where-none p f [] h = (refl, refl)
update_where-none p f (x ∷ xs) h =
    let rest = update_where-none p f xs (ground arith) in
    (ground (arith, rest.0), ground (arith, rest.1))

module _ {ℓ} {A : Type ℓ} (key : A → ℕ) where
  abbrev pub has_key : ℕ → A → Bool
  has_key k x = key x == k

  -- No key stands twice.
  abbrev pub Distinct : List A → Type 0
  Distinct [] = Unit
  Distinct (x ∷ xs) = (any (has_key (key x)) xs ≡ false) × Distinct xs

  abbrev pub set_row : ℕ → A → List A → List A
  set_row k y xs = update_where (has_key k) (λ _. y) xs

  pub find-absent : (k : ℕ) (xs : List A) → any (has_key k) xs ≡ false → find (has_key k) xs ≡ none
  find-absent k [] h = refl
  find-absent k (x ∷ xs) h = ground (arith, find-absent k xs)

  pub set_row-absent :
      (k : ℕ) (y : A) (xs : List A) → any (has_key k) xs ≡ false → set_row k y xs ≡ xs
  set_row-absent k y [] h = refl
  set_row-absent k y (x ∷ xs) h = ground (arith, set_row-absent k y xs)

  pub any-absent :
      (k : ℕ) (p : A → Bool) (xs : List A)
      → any (λ x. has_key k x || p x) xs ≡ false
      → any (has_key k) xs ≡ false
  any-absent k p [] h = refl
  any-absent k p (x ∷ xs) h = ground (arith, any-absent k p xs)

  -- With distinct keys, any query finds the row of its key.
  pub find_key :
      (p : A → Bool) {x : A} (xs : List A)
      → Distinct xs
      → find p xs ≡ some x
      → find (has_key (key x)) xs ≡ some x
  find_key p [] d h = cc
  find_key p {x = x} (y ∷ xs) d h = elim (Bool-cases (p y)) [
    | inl e ↦ ground (arith, e)
    | inr e ↦
        let found : find p xs ≡ some x = rw e at h in
        ground (arith, find_key p xs d.1 found, absent-found (has_key (key y)) p xs d.0 found)
  ]

  pub total-set_row :
      (w : A → ℕ) (k : ℕ) (y : A) {x : A} (xs : List A)
      → Distinct xs
      → find (has_key k) xs ≡ some x
      → total w (set_row k y xs) + w x ≡ total w xs + w y
  total-set_row w k y [] d h = cc
  total-set_row w k y {x = x} (z ∷ xs) d h = elim (Bool-cases (key z == k)) [
    | inl e ↦
        let same : key z ≡ k = ground (arith, e) in
        let absent : any (has_key k) xs ≡ false = rw same at d.0 in
        let first : z ≡ x = some_eq (rw e at h) in
        rw (e, set_row-absent k y xs absent, first) (omega arith)
    | inr e ↦ rw e (omega (arith, total-set_row w k y xs d.1 (rw e at h)))
  ]

  pub find-set_row_self :
      (k : ℕ) (y : A) {x : A} (xs : List A)
      → key y ≡ k
      → find (has_key k) xs ≡ some x
      → find (has_key k) (set_row k y xs) ≡ some y
  find-set_row_self k y [] e h = cc
  find-set_row_self k y {x = x} (z ∷ xs) e h = ground (arith, find-set_row_self k y {x = x} xs e)

  pub find-set_row_ne :
      (j k : ℕ) (y : A) (xs : List A)
      → key y ≡ k
      → j ≢ k
      → find (has_key j) (set_row k y xs) ≡ find (has_key j) xs
  find-set_row_ne j k y [] e n = refl
  find-set_row_ne j k y (z ∷ xs) e n = ground (arith, find-set_row_ne j k y xs e n)

  pub any-update :
      (j : ℕ) (p : A → Bool) (f : A → A) (xs : List A)
      → ((x : A) → p x ≡ true → key (f x) ≡ key x)
      → any (has_key j) (update_where p f xs) ≡ any (has_key j) xs
  any-update j p f [] h = refl
  any-update j p f (x ∷ xs) h = ground (arith, h x, any-update j p f xs h)

  pub Distinct-update :
      (p : A → Bool) (f : A → A) (xs : List A)
      → ((x : A) → p x ≡ true → key (f x) ≡ key x)
      → Distinct xs
      → Distinct (update_where p f xs)
  Distinct-update p f [] h d = tt
  Distinct-update p f (x ∷ xs) h d =
      (ground (arith, h x, any-update (key x) p f xs h, d.0), Distinct-update p f xs h d.1)

  pub Distinct-set_row :
      (k : ℕ) (y : A) (xs : List A) → key y ≡ k → Distinct xs → Distinct (set_row k y xs)
  Distinct-set_row k y xs e d = Distinct-update (has_key k) (λ _. y) xs (λ x h. ground (arith, h)) d

  -- A test that only rows of key `k` pass.
  abbrev pub OnlyKey : ℕ → (A → Bool) → Type ℓ
  OnlyKey k p = (y : A) → p y ≡ true → key y ≡ k

  any-only :
      (p : A → Bool) (k : ℕ) (xs : List A)
      → OnlyKey k p
      → any (has_key k) xs ≡ false
      → any p xs ≡ false
  any-only p k [] only h = refl
  any-only p k (x ∷ xs) only h = ground (arith, only x, any-only p k xs only)

  -- The update of the rows that pass such a test changes the one row of the key, if it passes.
  pub update_where-one :
      (p : A → Bool) (f : A → A) (k : ℕ) {x : A} (xs : List A)
      → OnlyKey k p
      → Distinct xs
      → find (has_key k) xs ≡ some x
      → p x ≡ true
      → (update_where p f xs ≡ set_row k (f x) xs) × (count_where p xs ≡ 1)
  update_where-one p f k [] only d h q = cc
  update_where-one p f k {x = x} (z ∷ xs) only d h q = elim (Bool-cases (key z == k)) [
    | inl e ↦
        let same : key z ≡ k = ground (arith, e) in
        let absent : any (has_key k) xs ≡ false = rw same at d.0 in
        let first : z ≡ x = some_eq (rw e at h) in
        let passes : p z ≡ true = rw first q in
        let rest = update_where-none p f xs (any-only p k xs only absent) in
        (
          rw (passes, e, set_row-absent k (f x) xs absent, rest.0, first),
          rw passes (omega (arith, rest.1)),
        )
    | inr e ↦
        let rest = update_where-one p f k {x = x} xs only d.1 (rw e at h) q in
        let fails : p z ≡ false = ground (arith, only z) in
        (rw (e, fails, rest.0), rw fails (omega (arith, rest.1)))
  ]

  pub any-fails :
      (p : A → Bool) (k : ℕ) {x : A} (xs : List A)
      → OnlyKey k p
      → Distinct xs
      → find (has_key k) xs ≡ some x
      → p x ≡ false
      → any p xs ≡ false
  any-fails p k [] only d h q = refl
  any-fails p k {x = x} (z ∷ xs) only d h q = elim (Bool-cases (key z == k)) [
    | inl e ↦
        let same : key z ≡ k = ground (arith, e) in
        let absent : any (has_key k) xs ≡ false = rw same at d.0 in
        let first : z ≡ x = some_eq (rw e at h) in
        let fails : p z ≡ false = rw first q in rw fails (any-only p k xs only absent)
    | inr e ↦
        let fails : p z ≡ false = ground (arith, only z) in
        rw fails (any-fails p k {x = x} xs only d.1 (rw e at h) q)
  ]

  -- A query that the new row passes finds it in the place of the old one.
  pub find-set_row_same :
      (p : A → Bool) (y : A) {x : A} (xs : List A)
      → Distinct xs
      → find p xs ≡ some x
      → p y ≡ true
      → find p (set_row (key x) y xs) ≡ some y
  find-set_row_same p y [] d h q = cc
  find-set_row_same p y {x = x} (z ∷ xs) d h q = elim (Bool-cases (p z)) [
    | inl e ↦
        let first : z ≡ x = some_eq (rw e at h) in
        let own : (key z == key x) ≡ true = ground (arith, ap key first) in rw (own, q)
    | inr e ↦
        let found : find p xs ≡ some x = rw e at h in
        let other = absent-found (has_key (key z)) p xs d.0 found in
        let apart : (key z == key x) ≡ false = ground (arith, other) in
        rw (apart, e) (find-set_row_same p y {x = x} xs d.1 found q)
  ]

pub any-find {ℓ} :
    {A : Type ℓ} (p : A → Bool) (xs : List A) → any p xs ≡ true → (x : A) × (find p xs ≡ some x)
any-find p [] h = cc h
any-find p (x ∷ xs) h = elim (Bool-cases (p x)) [
  | inl own ↦ (x, rw own refl)
  | inr other ↦ let (y, is_found) = any-find p xs (rw other at h) in (y, rw other is_found)
]
