-- ===== src/Server/Runtime/Built.antt =====
-- A validated configuration always gives a runtime, whose tables hold what was configured.
use pg_tool_box.Common.{
  ℕ, suc, ◌≡◌, ◌≢◌, refl, arith, Option, none, some, List, [], ◌∷◌, Text, text_eq, to_lower, map,
  All, Distinct, Member, Member.head, Member.tail, text_beq_iff, length, ◌≤◌,
}
use pg_tool_box.Common.Dict
use pg_tool_box.Config.{Config, User, RouteConfig}
use pg_tool_box.Config.Accepts.{IsValid}
use pg_tool_box.Config.Accepts.Routes.{IsValidRoute, IsWebUrl}
use pg_tool_box.Config.Accepts.Users.{user_key}
use pg_tool_box.Config.Validate.{Checks, Url, min_secret_length}
use pg_tool_box.Server.Routing.{Route, sort_routes}
use pg_tool_box.Server.Runtime.{
  Runtime, Env, built, index_users, compiled, compile_route, compile_routes, build_runtime,
  lookup_user,
}
use pg_tool_box.Session.{Crypto, Codec, new_codec, first_empty, made}

-- What the table of routes holds of one configured route.
abbrev pub Compiles : Checks → RouteConfig → Route → Type 0
Compiles k c r =
    (r.prefix ≡ c.path_prefix)
    × (r.min_level ≡ c.min_level)
    × (k.parse_url c.upstream ≡ some r.target)

abbrev pub CompilesAll : Checks → List RouteConfig → List Route → Type 0
CompilesAll k [] [] = Unit
CompilesAll k (c ∷ cs) (r ∷ rs) = Compiles k c r × CompilesAll k cs rs
CompilesAll k _ _ = ⊥

web_parses : (o : Option Url) → IsWebUrl o → (u : Url) × (o ≡ some u)
web_parses (some u) h = (u, refl)
web_parses none h = absurd h

compile_routes_total :
    (k : Checks) (cs : List RouteConfig)
    → All (IsValidRoute k) cs
    → (rs : List Route) × (compile_routes k cs ≡ compiled rs) × CompilesAll k cs rs
unfolding compile_routes
compile_routes_total k [] h = ([], refl, tt)
compile_routes_total k (c ∷ cs) (v, h) =
    let (rs, e, ok) = compile_routes_total k cs h in
    let (u, p) = web_parses (k.parse_url c.upstream) v.web in
    (compile_route c u ∷ rs, ground arith, ((refl, refl, p), ok))

no_empty :
    (i : ℕ) (l : List Text) → All (λ s. min_secret_length ≤ length s) l → first_empty i l ≡ none
unfolding first_empty
no_empty i [] h = refl
no_empty i ([] ∷ l) (h, _) = absurd (omega arith)
no_empty i ((c ∷ s) ∷ l) (_, h) = no_empty (suc i) l h

new_codec_total :
    (k : Crypto) (l : List Text)
    → l ≢ []
    → All (λ s. min_secret_length ≤ length s) l
    → (c : Codec) × (new_codec k l ≡ made c)
unfolding new_codec
new_codec_total k [] n h = absurd (n refl)
new_codec_total k (s ∷ l) n h =
    (record { primary = k.digest s; others = map k.digest l }, rw (new_codec, no_empty 0 (s ∷ l) h))

-- The runtime of a configuration.
pub record IsBuilt (k : Checks) (c : Config) (rt : Runtime) : Type 0 where
  pub same_config : rt.config ≡ c
  pub compiled_routes : List Route
  pub compiles : CompilesAll k c.routes compiled_routes
  pub sorted : rt.routes ≡ sort_routes compiled_routes
  pub indexed : rt.users ≡ index_users [] c.users

-- A configuration that passes validation is always turned into a runtime, with one compiled route
-- for each configured one.
pub build_runtime_total :
    (k : Checks) (crypto : Crypto) (c : Config)
    → IsValid k c
    → (rt : Runtime) × (build_runtime k crypto c ≡ built rt) × IsBuilt k c rt
unfolding build_runtime
build_runtime_total k crypto c v =
    let (codec, e) =
      new_codec_total crypto c.session.cookie_secrets v.session_valid.keyed
        v.session_valid.secrets_long in
    let (rs, f, ok) = compile_routes_total k c.routes v.routes_valid in
    (
      record { config = c; codec = codec; users = index_users [] c.users; routes = sort_routes rs },
      rw (build_runtime, e, f),
      record {
        same_config = refl;
        compiled_routes = rs;
        compiles = ok;
        sorted = refl;
        indexed = refl;
      },
    )

index_users-other :
    (key : Text) (us : List User) (m : List (Text × User))
    → All (λ other. key ≢ other) (map user_key us)
    → Dict.lookup key (index_users m us) ≡ Dict.lookup key m
unfolding index_users
index_users-other key [] m h = refl
index_users-other key (u ∷ us) m (n, h) =
    rw
      (
        index_users-other key us (Dict.insert (user_key u) u m) h,
        Dict.lookup-insert (user_key u) key u m,
      )
      (ground (arith, text_beq_iff (user_key u) key))

index_users-Member :
    (u : User) (us : List User) (m : List (Text × User))
    → Distinct (map user_key us)
    → Member u us
    → Dict.lookup (user_key u) (index_users m us) ≡ some u
unfolding index_users
index_users-Member u [] m d n = elim n [ ]
index_users-Member u (x ∷ us) m (fresh, d) head =
    rw
      (
        index_users-other (user_key u) us (Dict.insert (user_key u) u m) fresh,
        Dict.lookup-insert (user_key u) (user_key u) u m,
      )
      (ground (arith, text_beq_iff (user_key u) (user_key u)))
index_users-Member u (x ∷ us) m (_, d) (tail n) = index_users-Member u us _ d n

-- In the runtime of a valid configuration a subject is found, however its letters are cased, exactly
-- as the user that was configured for it.
pub lookup_user-configured :
    (k : Checks) (c : Config) (e : Env) (u : User) (subject : Text)
    → IsValid k c
    → IsBuilt k c e.runtime
    → Member u c.users
    → to_lower subject ≡ to_lower u.subject
    → lookup_user e subject ≡ some u
unfolding lookup_user
lookup_user-configured k c e u subject v b m same =
    rw (lookup_user, same, b.indexed) (index_users-Member u c.users [] v.users_distinct m)
