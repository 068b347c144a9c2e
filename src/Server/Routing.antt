-- ===== src/Server/Routing.antt =====
-- Route tables: the sort of `BuildRuntime`, `matchRoute` and `pathMatchesPrefix`, of
-- internal/proxy/server/server.go.
pub mod Sorting
pub mod Longest
pub mod Order
use pg_tool_box.Common.{
  ℕ, zero, suc, Bool, Option, List, [], ◌∷◌, ◌++◌, Text, codes, ◌==◌, ◌||◌, ltb, if◌then◌else◌,
  text_eq, length, starts_with, find?, none, some,
}
use pg_tool_box.Config.{Level}
use pg_tool_box.Config.Validate.{Url}

-- `Route`: of its reverse proxy only the target is kept.
pub record Route : Type 0 where
  pub prefix : Text
  pub min_level : Level
  pub target : Url

-- `len(rt.Routes[j].Prefix) > len(rt.Routes[i].Prefix)`
abbrev pub is_longer : Route → Route → Bool
is_longer y x = ltb (length x.prefix) (length y.prefix)

-- The inner loop, from `j` on: `x` is the route at `i`, the list holds those from `j` on. A swap puts
-- `x` in the place of the longer route.
unfoldable pub swap_pass : Route → List Route → Route × List Route
swap_pass x [] = (x, [])
swap_pass x (y ∷ ys) =
    let (m, zs) = swap_pass (if is_longer y x then y else x) ys in
    (m, (if is_longer y x then x else y) ∷ zs)

-- The outer loop; the fuel counts the routes from `i` on.
unfoldable pub sort_rounds : ℕ → List Route → List Route
sort_rounds (suc n) (x ∷ xs) = let round = swap_pass x xs in round.0 ∷ sort_rounds n round.1
sort_rounds _ rs = rs

unfoldable pub sort_routes : List Route → List Route
sort_routes rs = sort_rounds (length rs) rs

unfoldable pub path_matches_prefix : Text → Text → Bool
path_matches_prefix path prefix =
    prefix == codes "/" || path == prefix || starts_with path (prefix ++ codes "/")

unfoldable pub match_route : List Route → Text → Option Route
unfolding path_matches_prefix
match_route [] path = none
match_route (r ∷ rs) path =
    if path_matches_prefix path r.prefix then some r else match_route rs path
