-- ===== src/Common/Tests.antt =====
-- Boolean tests, the conditional, and equality as an interface.
use Prim.Native.Nat.{ℕ, ◌≤◌, ◌<◌, compare, Ordering}
use mathlib.Core.Path.{◌≡◌, refl, sym}
use mathlib.Core.Logic.{◌≢◌, ◌↔◌, ◌⊎◌, inl, inr}
use mathlib.Core.Bool.{Bool, true, false}
use mathlib.Core.Option.{Option, none, some}
use native.Mathlib.Omega.{arith}

abbrev pub ltb : ℕ → ℕ → Bool
ltb a b = elim (compare a b) [ Ordering.lt ↦ true | _ ↦ false ]

abbrev pub leb : ℕ → ℕ → Bool
leb a b = elim (compare a b) [ Ordering.gt ↦ false | _ ↦ true ]

abbrev pub nat_beq : ℕ → ℕ → Bool
nat_beq a b = elim (compare a b) [ Ordering.eq ↦ true | _ ↦ false ]

infix 1 if◌then◌else◌
abbrev pub if◌then◌else◌ {ℓ} : {A : Type ℓ} → Bool → A → A → A
if true then x else y = x
if false then x else y = y

pub ltb→lt : (a b : ℕ) → ltb a b ≡ true → a < b
ltb→lt a b h = ground arith

pub ltb→le : (a b : ℕ) → ltb a b ≡ false → b ≤ a
ltb→le a b h = ground arith

pub leb→le : (a b : ℕ) → leb a b ≡ true → a ≤ b
leb→le a b h = ground arith

pub nat_beq_iff : (a b : ℕ) → (nat_beq a b ≡ true) ↔ (a ≡ b)
nat_beq_iff a b = ground arith

-- A split on a computed value that keeps the equation.
pub Bool-cases : (b : Bool) → (b ≡ true) ⊎ (b ≡ false)
Bool-cases true = inl refl
Bool-cases false = inr refl

pub Option-cases {ℓ} : {A : Type ℓ} (o : Option A) → (o ≡ none) ⊎ ((a : A) × (o ≡ some a))
Option-cases none = inl refl
Option-cases (some a) = inr (a, refl)

-- Go's constraint `comparable`: a test of two values, which is right in both directions.
pub record Comparable {ℓ} (A : Type ℓ) : Type ℓ where
  pub same : A → A → Bool
  pub same_sound : (a b : A) → same a b ≡ true → a ≡ b
  pub same_refl : (a : A) → same a a ≡ true

module _ {ℓ} {A : Type ℓ} ⦃c : Comparable A⦄ where
  -- Go's `==`
  abbrev pub ◌==◌ : A → A → Bool
  a == b = c.same a b

  infix 50 ◌==◌
  pub beq_iff : (a b : A) → (a == b ≡ true) ↔ (a ≡ b)
  beq_iff a b = (c.same_sound a b, λ p. rw p (c.same_refl b))

  pub beq_ne : (a b : A) → a ≢ b → (a == b) ≡ false
  beq_ne a b h = elim (Bool-cases (a == b)) [ inl p ↦ absurd (h (c.same_sound a b p)) | inr q ↦ q ]

  pub beq→ne : (a b : A) → (a == b) ≡ false → a ≢ b
  beq→ne a b h p = cc ((beq_iff a b).1 p)

instance abbrev pub nat_eq : Comparable ℕ
nat_eq = record {
  same = nat_beq;
  same_sound = λ a b. (nat_beq_iff a b).0;
  same_refl = λ a. (nat_beq_iff a a).1 refl;
}

abbrev bool_beq : Bool → Bool → Bool
bool_beq true b = b
bool_beq false true = false
bool_beq false false = true

abbrev bool_beq_sound : (a b : Bool) → bool_beq a b ≡ true → a ≡ b
bool_beq_sound true b h = sym h
bool_beq_sound false true h = h
bool_beq_sound false false h = refl

abbrev bool_beq_refl : (a : Bool) → bool_beq a a ≡ true
bool_beq_refl true = refl
bool_beq_refl false = refl

instance abbrev pub bool_eq : Comparable Bool
bool_eq = record { same = bool_beq; same_sound = bool_beq_sound; same_refl = bool_beq_refl }
