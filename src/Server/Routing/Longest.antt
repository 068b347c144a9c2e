-- ===== src/Server/Routing/Longest.antt =====
-- `matchRoute` over the sorted table chooses a longest matching prefix.
use mathlib.Core.Path.{subst}
use mathlib.Core.HLevel.{Π_prop, ¬_prop}
use native.Mathlib.Bridge.{le_prop}
use mathlib.Core.List.{Mem, mem-cons_self, mem-cons_of_mem}
use mathlib.Core.List.Perm
use pg_tool_box.Common.{
  Mem-All, All-Mem, ◌≤◌, ◌≡◌, ◌↔◌, true, inl, inr, refl, arith, List, [], ◌∷◌, length, All,
  All-mono, Bool-cases, none, some, Text,
}
use pg_tool_box.Server.Routing.{Route, path_matches_prefix, match_route, sort_routes}
use pg_tool_box.Server.Routing.Sorting.{NotLonger, IsSorted, sort_routes-IsSorted, sort_routes-perm}

abbrev pub Matches : Text → Route → Type 0
Matches path r = path_matches_prefix path r.prefix ≡ true

match_sorted :
    (rs : List Route) (path : Text) (r : Route)
    → IsSorted rs
    → match_route rs path ≡ some r
    → Mem r rs × Matches path r × All (λ x. Matches path x → length x.prefix ≤ length r.prefix) rs
unfolding match_route
match_sorted [] path r s h = cc
match_sorted (x ∷ rs) path r (s, t) h = elim (Bool-cases (path_matches_prefix path x.prefix)) [
  | inl e ↦
      let same : x ≡ r = ground arith in
      subst
        (λ r.
          Mem r (x ∷ rs)
          × Matches path r
          × All (λ y. Matches path y → length y.prefix ≤ length r.prefix) (x ∷ rs))
        same (mem-cons_self, e, (λ _. omega arith, All-mono (NotLonger x) _ (λ y le _. le) rs s))
  | inr e ↦
      let (m, k, l) = match_sorted rs path r t (ground arith) in
      (mem-cons_of_mem x m, k, (λ p. cc, l))
]

match_route-none_iff :
    (rs : List Route) (path : Text) → (match_route rs path ≡ none) ↔ All (λ x. ¬ Matches path x) rs
unfolding match_route
match_route-none_iff [] path = (λ _. tt, λ _. refl)
match_route-none_iff (x ∷ rs) path = ground (arith, match_route-none_iff rs path)

-- The route that answers a path is a route of the table whose prefix matches, and no matching
-- route of the table has a longer prefix.
pub match_route_longest :
    (rs : List Route) (path : Text) (r : Route)
    → match_route (sort_routes rs) path ≡ some r
    → Mem r rs
      × Matches path r
      × ((x : Route) → Mem x rs → Matches path x → length x.prefix ≤ length r.prefix)
match_route_longest rs path r h =
    let (m, k, l) = match_sorted (sort_routes rs) path r (sort_routes-IsSorted rs) h in
    let there = sort_routes-perm rs in
    (
      (Perm.mem_iff there).0 m,
      k,
      λ x n. Mem-All _ (λ y. Π_prop (λ _. le_prop)) (sort_routes rs) l ((Perm.mem_iff there).1 n),
    )

-- A path is served by no route exactly when no prefix of the table matches it.
pub match_route-eq-none_iff :
    (rs : List Route) (path : Text)
    → (match_route (sort_routes rs) path ≡ none) ↔ ((x : Route) → Mem x rs → ¬ Matches path x)
match_route-eq-none_iff rs path =
    let there = sort_routes-perm rs in
    let (to, from) = match_route-none_iff (sort_routes rs) path in
    (
      λ h x n. Mem-All _ (λ y. ¬_prop) (sort_routes rs) (to h) ((Perm.mem_iff there).1 n),
      λ h. from (All-Mem _ (sort_routes rs) (λ x m. h x ((Perm.mem_iff there).0 m))),
    )
