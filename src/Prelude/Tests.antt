-- ===== src/Prelude/Tests.antt =====
-- Boolean tests on numbers, texts and optional values, and the conditional.
use Prim.Native.Nat.{ℕ, compare, Ordering}
use Prim.Native.String.{String, ◌++◌ as append}
use mathlib.Core.Path.{◌≡◌, refl}
use mathlib.Core.Logic.{◌↔◌, ◌⊎◌, inl, inr}
use mathlib.Core.Bool.{Bool, true, false}
use mathlib.Core.Option.{Option, none, some}
use native.Mathlib.Omega.{arith}
use text.Mathlib.Text.{◌==◌ as str_eq}
use text.Mathlib.TextEquality.{eq_iff}

abbrev pub ltb : ℕ → ℕ → Bool
ltb a b = elim (compare a b) [ Ordering.lt ↦ true | _ ↦ false ]

abbrev pub leb : ℕ → ℕ → Bool
leb a b = elim (compare a b) [ Ordering.gt ↦ false | _ ↦ true ]

abbrev pub nat_beq : ℕ → ℕ → Bool
nat_beq a b = elim (compare a b) [ Ordering.eq ↦ true | _ ↦ false ]

infix 1 if◌then◌else◌
abbrev pub if◌then◌else◌ {ℓ} : {A : Type ℓ} → Bool → A → A → A
if true then x else y = x
if false then x else y = y

pub nat_beq_iff : (a b : ℕ) → (a ≡ b) ↔ (nat_beq a b ≡ true)
nat_beq_iff a b = ground arith

-- What a column's type needs for a comparison: a test that agrees with equality.
pub record Comparable {ℓ} (A : Type ℓ) : Type ℓ where
  pub is_same : A → A → Bool
  pub is_same_iff : (x y : A) → (x ≡ y) ↔ (is_same x y ≡ true)

instance abbrev pub string_eq : Comparable String
string_eq = record {
  is_same = str_eq;
  is_same_iff = λ s t. let same = eq_iff s t in (same.1, same.0);
}

instance abbrev pub nat_eq : Comparable ℕ
nat_eq = record { is_same_iff = nat_beq_iff; is_same = nat_beq }

infix 50 ◌==◌ ◌=?◌ ◌=??◌
-- Python's `==`; its `!=` is written `not (x == y)`.
abbrev pub ◌==◌ {ℓ} : {A : Type ℓ} ⦃c : Comparable A⦄ (x y : A) → Bool
◌==◌ ⦃c⦄ x y = c.is_same x y

-- A nullable column against a value, as in SQL: NULL equals nothing.
abbrev pub ◌=?◌ {ℓ} : {A : Type ℓ} ⦃c : Comparable A⦄ → Option A → A → Bool
none =? a = false
◌=?◌ ⦃c⦄ (some b) a = c.is_same b a

-- Two nullable columns, as in SQL: NULL equals nothing, not even NULL.
abbrev pub ◌=??◌ {ℓ} : {A : Type ℓ} ⦃c : Comparable A⦄ → Option A → Option A → Bool
a =?? none = false
◌=??◌ ⦃c⦄ a (some b) = ◌=?◌ ⦃c = c⦄ a b

abbrev pub is_none {ℓ} : {A : Type ℓ} → Option A → Bool
is_none none = true
is_none (some a) = false

abbrev pub is_some {ℓ} : {A : Type ℓ} → Option A → Bool
is_some none = false
is_some (some a) = true

-- `a or b` of Python on values that are not None.
abbrev pub or_else {ℓ} : {A : Type ℓ} → Option A → Option A → Option A
or_else none b = b
or_else (some a) b = some a

pub Bool-cases : (b : Bool) → (b ≡ true) ⊎ (b ≡ false)
Bool-cases true = inl refl
Bool-cases false = inr refl

pub Option-cases {ℓ} : {A : Type ℓ} (o : Option A) → (o ≡ none) ⊎ ((a : A) × (o ≡ some a))
Option-cases none = inl refl
Option-cases (some a) = inr (a, refl)

-- `+` of Python on texts.
infixr 65 ◌<>◌
abbrev pub ◌<>◌ : String → String → String
s <> t = append s t

-- `raw or ""`
abbrev pub or_empty : Option String → String
or_empty none = ""
or_empty (some s) = s
