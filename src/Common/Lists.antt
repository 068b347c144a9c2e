-- ===== src/Common/Lists.antt =====
-- Lists over the native numbers, and predicates on their elements.
use Prim.Native.Nat.{ℕ, zero, suc, ◌+◌, ◌≤◌}
use mathlib.Core.Path.{◌≡◌, refl}
use mathlib.Core.Logic.{◌≢◌, ◌↔◌}
use mathlib.Core.Bool.{Bool, true, false, ◌||◌, ◌&&◌}
use mathlib.Core.List.{List, [], ◌∷◌, ◌++◌}
use mathlib.Core.Option.{Option, none, some}
use mathlib.Core.Logic.Or
use mathlib.Core.List.{Mem, mem-cons, mem-cons_self, mem-cons_of_mem, not-mem-nil}
use native.Mathlib.Omega.{arith}
use pg_tool_box.Common.Tests.{if◌then◌else◌}

module _ {ℓ} {A : Type ℓ} where
  abbrev pub length : List A → ℕ
  length [] = 0
  length (x ∷ xs) = suc (length xs)

  abbrev pub take : ℕ → List A → List A
  take zero xs = []
  take (suc n) [] = []
  take (suc n) (x ∷ xs) = x ∷ take n xs

  abbrev pub any : (A → Bool) → List A → Bool
  any p [] = false
  any p (x ∷ xs) = p x || any p xs

  abbrev pub all : (A → Bool) → List A → Bool
  all p [] = true
  all p (x ∷ xs) = p x && all p xs

  abbrev pub find? : (A → Bool) → List A → Option A
  find? p [] = none
  find? p (x ∷ xs) = if p x then some x else find? p xs

  pub length-append : (xs ys : List A) → length (xs ++ ys) ≡ length xs + length ys
  length-append [] ys = omega arith
  length-append (x ∷ xs) ys = omega (arith, length-append xs ys)

  pub length-take : (n : ℕ) (xs : List A) → length (take n xs) ≤ n
  length-take zero xs = omega arith
  length-take (suc n) [] = omega arith
  length-take (suc n) (x ∷ xs) = omega (arith, length-take n xs)

  pub append-inj :
      (xs ys a b : List A) → length xs ≡ length ys → xs ++ a ≡ ys ++ b → (xs ≡ ys) × (a ≡ b)
  append-inj [] [] a b l h = (refl, h)
  append-inj [] (y ∷ ys) a b l h = absurd (ground arith)
  append-inj (x ∷ xs) [] a b l h = absurd (ground arith)
  append-inj (x ∷ xs) (y ∷ ys) a b l h =
      let (e, r) = append-inj xs ys a b (ground arith) (ground arith) in (ground arith, r)

  pub append-eq-nil : (xs ys : List A) → xs ++ ys ≡ [] → (xs ≡ []) × (ys ≡ [])
  append-eq-nil [] ys h = (refl, h)
  append-eq-nil (x ∷ xs) ys h = cc

  pub append-nil_of : (xs ys : List A) → xs ≡ [] → ys ≡ [] → xs ++ ys ≡ []
  append-nil_of xs ys p q = rw (p, q)

module _ {ℓ κ} {A : Type ℓ} (P : A → Type κ) where
  abbrev pub All : List A → Type κ
  All [] = Unit
  All (x ∷ xs) = P x × All xs

  pub All-append : (xs ys : List A) → All xs → All ys → All (xs ++ ys)
  All-append [] ys _ k = k
  All-append (x ∷ xs) ys (p, h) k = (p, All-append xs ys h k)

module _ {ℓ κ} {A : Type ℓ} (P Q : A → Type κ) where
  pub All-× : (xs : List A) → All (λ x. P x × Q x) xs ↔ (All P xs × All Q xs)
  All-× [] = (λ _. (tt, tt), λ _. tt)
  All-× (x ∷ xs) = (
    λ h. let (p, q) = (All-× xs).0 h.1 in ((h.0.0, p), (h.0.1, q)),
    λ h. ((h.0.0, h.1.0), (All-× xs).1 (h.0.1, h.1.1)),
  )

  pub All-mono : ((x : A) → P x → Q x) → (xs : List A) → All P xs → All Q xs
  All-mono f [] _ = tt
  All-mono f (x ∷ xs) (p, h) = (f x p, All-mono f xs h)

module _ {ℓ} {A : Type ℓ} where
  -- No element occurs twice.
  abbrev pub Distinct : List A → Type ℓ
  Distinct [] = Unit
  Distinct (x ∷ xs) = All (λ y. x ≢ y) xs × Distinct xs

  -- Membership as data, so that it can be taken apart.
  pub data Member (a : A) : List A → Type ℓ where
    head : {xs : List A} → Member a (a ∷ xs)
    tail : {x : A} {xs : List A} → Member a xs → Member a (x ∷ xs)

  pub All-Member {κ} : (P : A → Type κ) {a : A} (xs : List A) → All P xs → Member a xs → P a
  All-Member P [] h m = elim m [ ]
  All-Member P (x ∷ xs) h head = h.0
  All-Member P (x ∷ xs) h (tail m) = All-Member P xs h.1 m

-- The library's membership, which is a proposition.
pub Mem-All {ℓ κ} :
    {A : Type ℓ} (P : A → Type κ)
    → ((x : A) → IsProp (P x))
    → {a : A} (xs : List A) → All P xs
    → Mem a xs
    → P a
Mem-All P prop [] h m = absurd (not-mem-nil m)
Mem-All P prop {a} (x ∷ xs) h m =
    Or.elim (prop a) (mem-cons.0 m) (λ e. rw e h.0) (λ n. Mem-All P prop xs h.1 n)

pub All-Mem {ℓ κ} :
    {A : Type ℓ} (P : A → Type κ) (xs : List A) → ((x : A) → Mem x xs → P x) → All P xs
All-Mem P [] h = tt
All-Mem P (x ∷ xs) h = (h x mem-cons_self, All-Mem P xs (λ y m. h y (mem-cons_of_mem x m)))
