-- ===== src/Config/Accepts/Routes.antt =====
-- The route table: every route is valid alone, none claims a path of the proxy itself, and no two
-- have the same prefix.
use pg_tool_box.Common.{
  ℕ, suc, true, false, List, [], ◌∷◌, ◌++◌, ◌≡◌, ◌≢◌, ◌⊎◌, ◌↔◌, inl, inr, refl, arith, Text, map,
  codes, Option, none, some, All, Distinct, text_beq_iff, starts_with, contains, Bool-cases, ◌==◌,
  text_eq, starts_with_sound, starts_with-append,
}
use pg_tool_box.Config.{RouteConfig, reserved_prefixes}
use pg_tool_box.Config.Levels.{IsConfigurable, is_valid_level_iff}
use pg_tool_box.Config.Accepts.Seen.{is_seen-eq-false_iff, IsFresh, IsFresh-cons, IsFresh-nil}
use pg_tool_box.Config.Validate.{
  Checks, Url, is_absolute_url, collides, reserved_problems, is_rooted, prefix_problems,
  route_problems, routes_problems, validate_routes,
}

-- An http or https URL that names a host.
abbrev pub IsWebUrl : Option Url → Type 0
IsWebUrl none = ⊥
IsWebUrl (some u) = ((u.scheme ≡ codes "https") ⊎ (u.scheme ≡ codes "http")) × (u.host ≢ [])

pub is_absolute_url_iff :
    (k : Checks) (s : Text) → (is_absolute_url k s ≡ true) ↔ IsWebUrl (k.parse_url s)
unfolding is_absolute_url
is_absolute_url_iff k s = go (k.parse_url s) refl
  where
    go : (o : Option Url) → k.parse_url s ≡ o → (is_absolute_url k s ≡ true) ↔ IsWebUrl o
    go none e = ground arith
    go (some u) e =
        ground (arith, text_beq_iff u.scheme (codes "https"), text_beq_iff u.scheme (codes "http"))

-- `path` is `prefix` itself or stands below it, on a segment boundary.
abbrev pub IsBelow : Text → Text → Type 0
IsBelow prefix path = (path ≡ prefix) ⊎ ((r : Text) × (path ≡ (prefix ++ codes "/") ++ r))

collides_iff : (prefix res : Text) → (collides prefix res ≡ true) ↔ IsBelow res prefix
unfolding collides
collides_iff prefix res = (
  λ h. elim (Bool-cases (prefix == res)) [
    | inl e ↦ inl ((text_beq_iff prefix res).0 e)
    | inr n ↦ inr (starts_with_sound prefix (res ++ codes "/") (ground arith))
  ],
  λ b. elim b [
    | inl e ↦ ground (arith, text_beq_iff prefix res)
    | inr (r, e) ↦ rw e (ground (arith, starts_with-append (res ++ codes "/") r))
  ],
)

pub reserved_iff :
    (i : ℕ) (prefix : Text) (l : List Text)
    → (reserved_problems i prefix l ≡ []) ↔ All (λ res. ¬ IsBelow res prefix) l
unfolding reserved_problems
reserved_iff i prefix [] = (λ _. tt, λ _. refl)
reserved_iff i prefix (res ∷ l) = ground (arith, collides_iff prefix res, reserved_iff i prefix l)

pub record IsValidRoute (k : Checks) (r : RouteConfig) : Type 0 where
  pub rooted : starts_with r.path_prefix (codes "/") ≡ true
  pub without_dots : contains r.path_prefix (codes "..") ≡ false
  pub unreserved : All (λ res. ¬ IsBelow res r.path_prefix) reserved_prefixes
  pub web : IsWebUrl (k.parse_url r.upstream)
  pub upstream_named : r.upstream ≢ []
  pub levelled : IsConfigurable r.min_level

abbrev pub route_key : RouteConfig → Text
route_key r = r.path_prefix

is_rooted-eq-starts_with : (p : Text) → is_rooted p ≡ starts_with p (codes "/")
unfolding is_rooted starts_with
is_rooted-eq-starts_with [] = refl
is_rooted-eq-starts_with (c ∷ p) = refl

prefix_iff :
    (i : ℕ) (seen : List Text) (p : Text)
    → (prefix_problems i seen p ≡ []) ↔ (
        (starts_with p (codes "/") ≡ true)
        × (contains p (codes "..") ≡ false)
        × All (λ res. ¬ IsBelow res p) reserved_prefixes
        × All (λ s. s ≢ p) seen)
unfolding prefix_problems
prefix_iff i seen p = ground (
  arith,
  is_rooted-eq-starts_with p,
  is_seen-eq-false_iff p seen,
  reserved_iff i p reserved_prefixes,
)

module _ (k : Checks) where
  route_iff :
      (i : ℕ) (seen : List Text) (r : RouteConfig)
      → (route_problems k i seen r ≡ []) ↔ (IsValidRoute k r × All (λ s. s ≢ route_key r) seen)
  unfolding route_problems
  route_iff i seen r = ground (
    arith,
    prefix_iff i seen r.path_prefix,
    is_absolute_url_iff k r.upstream,
    is_valid_level_iff r.min_level,
  )

  routes_loop_iff :
      (i : ℕ) (seen : List Text) (rs : List RouteConfig)
      → (routes_problems k i seen rs ≡ [])
        ↔ (All (IsValidRoute k) rs × Distinct (map route_key rs) × IsFresh seen (map route_key rs))
  unfolding routes_problems
  routes_loop_iff i seen [] = (λ _. (tt, tt, tt), λ _. refl)
  routes_loop_iff i seen (r ∷ rs) = ground (
    arith,
    route_iff i seen r,
    is_rooted-eq-starts_with r.path_prefix,
    routes_loop_iff (suc i) (route_key r ∷ seen) rs,
    IsFresh-cons (route_key r) seen (map route_key rs),
  )

  pub routes_iff :
      (rs : List RouteConfig)
      → (validate_routes k rs ≡ [])
        ↔ ((rs ≢ []) × All (IsValidRoute k) rs × Distinct (map route_key rs))
  unfolding validate_routes
  routes_iff [] = ground arith
  routes_iff (r ∷ rs) =
      ground (arith, routes_loop_iff 0 [] (r ∷ rs), IsFresh-nil (map route_key (r ∷ rs)))
