-- ===== src/Server/Routing/Sorting.antt =====
-- The exchange sort keeps the routes and puts longer prefixes first.
use mathlib.Core.List.{Perm}
use mathlib.Core.List.Perm
use pg_tool_box.Common.{
  ℕ, zero, suc, ◌≤◌, ◌≡◌, inl, inr, refl, arith, List, [], ◌∷◌, length, All, Bool-cases,
}
use pg_tool_box.Server.Routing.{Route, is_longer, swap_pass, sort_rounds, sort_routes}

abbrev pub NotLonger : Route → Route → Type 0
NotLonger x y = length y.prefix ≤ length x.prefix

-- Each route is at least as long as those after it.
abbrev pub IsSorted : List Route → Type 0
IsSorted [] = Unit
IsSorted (x ∷ xs) = All (NotLonger x) xs × IsSorted xs

swap_pass-perm :
    (x : Route) (ys : List Route) → Perm ((swap_pass x ys).0 ∷ (swap_pass x ys).1) (x ∷ ys)
unfolding swap_pass
swap_pass-perm x [] = Perm.refl _
swap_pass-perm x (y ∷ ys) = elim (Bool-cases (is_longer y x)) [
  | inl e ↦ rw e (Perm.trans (Perm.swap _ _ _) (Perm.cons x (swap_pass-perm y ys)))
  | inr e ↦ rw e (
      Perm.trans (Perm.swap _ _ _)
        (Perm.trans (Perm.cons y (swap_pass-perm x ys)) (Perm.swap _ _ _)))
]

swap_pass-length : (x : Route) (ys : List Route) → length (swap_pass x ys).1 ≡ length ys
unfolding swap_pass
swap_pass-length x [] = refl
swap_pass-length x (y ∷ ys) = ground (arith, swap_pass-length y ys, swap_pass-length x ys)

-- A round brings a longest route to the front.
swap_pass-longest :
    (x : Route) (ys : List Route)
    → NotLonger (swap_pass x ys).0 x × All (NotLonger (swap_pass x ys).0) (swap_pass x ys).1
unfolding swap_pass
swap_pass-longest x [] = (omega arith, tt)
swap_pass-longest x (y ∷ ys) = ground (arith, swap_pass-longest y ys, swap_pass-longest x ys)

sort_rounds-perm : (n : ℕ) (rs : List Route) → Perm (sort_rounds n rs) rs
unfolding sort_rounds
sort_rounds-perm (suc n) (x ∷ xs) =
    Perm.trans (Perm.cons _ (sort_rounds-perm n (swap_pass x xs).1)) (swap_pass-perm x xs)
sort_rounds-perm zero rs = Perm.refl rs
sort_rounds-perm (suc n) [] = Perm.refl []

-- No route is lost, added or changed by the sort.
pub sort_routes-perm : (rs : List Route) → Perm (sort_routes rs) rs
unfolding sort_routes
sort_routes-perm rs = sort_rounds-perm (length rs) rs

-- What holds of all routes holds of all sorted routes.
module _ {ℓ} (P : Route → Type ℓ) where
  swap_pass-All :
      (x : Route) (ys : List Route)
      → P x
      → All P ys
      → P (swap_pass x ys).0 × All P (swap_pass x ys).1
  unfolding swap_pass
  swap_pass-All x [] p _ = (p, tt)
  swap_pass-All x (y ∷ ys) p (q, h) = elim (Bool-cases (is_longer y x)) [
    | inl e ↦ rw e (let (r, k) = swap_pass-All y ys q h in (r, (p, k)))
    | inr e ↦ rw e (let (r, k) = swap_pass-All x ys p h in (r, (q, k)))
  ]

  sort_rounds-All : (n : ℕ) (rs : List Route) → All P rs → All P (sort_rounds n rs)
  unfolding sort_rounds
  sort_rounds-All (suc n) (x ∷ xs) (p, h) =
      let (q, k) = swap_pass-All x xs p h in (q, sort_rounds-All n (swap_pass x xs).1 k)
  sort_rounds-All zero rs h = h
  sort_rounds-All (suc n) [] h = tt

  pub sort_routes-All : (rs : List Route) → All P rs → All P (sort_routes rs)
  unfolding sort_routes
  sort_routes-All rs h = sort_rounds-All (length rs) rs h

sort_rounds-IsSorted : (n : ℕ) (rs : List Route) → length rs ≤ n → IsSorted (sort_rounds n rs)
unfolding sort_rounds
sort_rounds-IsSorted (suc n) (x ∷ xs) h = (
  sort_rounds-All (NotLonger (swap_pass x xs).0) n (swap_pass x xs).1 (swap_pass-longest x xs).1,
  sort_rounds-IsSorted n (swap_pass x xs).1 (omega (arith, swap_pass-length x xs)),
)
sort_rounds-IsSorted zero [] h = tt
sort_rounds-IsSorted zero (x ∷ xs) h = absurd (omega arith)
sort_rounds-IsSorted (suc n) [] h = tt

-- After the sort no route stands before a longer one.
pub sort_routes-IsSorted : (rs : List Route) → IsSorted (sort_routes rs)
unfolding sort_routes
sort_routes-IsSorted rs = sort_rounds-IsSorted (length rs) rs (omega arith)
