-- ===== src/Server/Runtime.antt =====
-- `Runtime`, `Env` and `BuildRuntime` of internal/proxy/server/server.go, and what the handlers read
-- from them. The swap of the atomic pointer replaces a field of the record.
pub mod Built
use mathlib.Core.Option
use pg_tool_box.Common.{
  ℕ, Bool, true, false, Option, none, some, List, [], ◌∷◌, ◌++◌, Text, codes, ◌==◌, if◌then◌else◌,
  text_eq, any, to_lower,
}
use pg_tool_box.Common.Dict
use pg_tool_box.Config.{
  Config, User, RouteConfig, Level, mode_oidc, mode_local, mode_openshift, is_empty,
}
use pg_tool_box.Config.Validate.{Checks, Url}
use pg_tool_box.Server.Routing.{Route, sort_routes}
use pg_tool_box.Session.{Crypto, Codec, NewCodec, new_codec, no_secrets, empty_secret, made}

pub record Runtime : Type 0 where
  pub config : Config
  pub codec : Codec
  -- lowercased subject to user
  pub users : List (Text × User)
  pub routes : List Route

-- `access_requests` tells whether the creator is there: it is nil when the flow is disabled.
pub record Env : Type 0 where
  pub runtime : Runtime
  pub access_requests : Bool
  pub available : List Text

-- `Swap`
unfoldable pub swap : Env → Runtime → Env
swap e rt = record e { runtime = rt }

pub data Build : Type 0 where
  codec_failed : Build
  upstream_failed : Text → Build
  built : Runtime → Build

-- The loop that fills the map of users: a later user replaces an earlier one with its key.
unfoldable pub index_users : List (Text × User) → List User → List (Text × User)
index_users m [] = m
index_users m (u ∷ us) = index_users (Dict.insert (to_lower u.subject) u m) us

pub data Compiled : Type 0 where
  compiled : List Route → Compiled
  bad_upstream : Text → Compiled

abbrev pub prepend : Route → Compiled → Compiled
prepend r (compiled rs) = compiled (r ∷ rs)
prepend r (bad_upstream prefix) = bad_upstream prefix

abbrev pub compile_route : RouteConfig → Url → Route
compile_route r target = record { prefix = r.path_prefix; min_level = r.min_level; target = target }

-- The loop that compiles the routes; it stops at the first upstream that does not parse.
unfoldable pub compile_routes : Checks → List RouteConfig → Compiled
compile_routes k [] = compiled []
compile_routes k (r ∷ rest) =
    let others = compile_routes k rest in
    elim (k.parse_url r.upstream) [
      | none ↦ bad_upstream r.path_prefix
      | some target ↦ prepend (compile_route r target) others
    ]

abbrev pub with_routes : Config → Codec → Compiled → Build
with_routes c codec (bad_upstream prefix) = upstream_failed prefix
with_routes c codec (compiled rs) =
    built (record {
      config = c;
      codec = codec;
      users = index_users [] c.users;
      routes = sort_routes rs;
    })

abbrev pub with_codec : Checks → Config → NewCodec → Build
with_codec k c no_secrets = codec_failed
with_codec k c (empty_secret i) = codec_failed
with_codec k c (made codec) = with_routes c codec (compile_routes k c.routes)

unfoldable pub build_runtime : Checks → Crypto → Config → Build
build_runtime k crypto c = with_codec k c (new_codec crypto c.session.cookie_secrets)

-- `LookupUser`
unfoldable pub lookup_user : Env → Text → Option User
lookup_user e subject = Dict.lookup (to_lower subject) e.runtime.users

-- `available`: the providers that started, or the configured ones.
unfoldable pub available_modes : Env → List Text
available_modes e = if is_empty e.available then e.runtime.config.provider.modes else e.available

abbrev pub local_login : Text
local_login = codes "/auth/local/login"

abbrev pub openshift_login : Text
openshift_login = codes "/auth/openshift/login"

abbrev pub oidc_login : Text
oidc_login = codes "/auth/oidc/login"

unfoldable pub login_path : Env → Text
unfolding available_modes
login_path e =
    if any (λ mode. mode == mode_local) (available_modes e)
    then local_login
    else if any (λ mode. mode == mode_openshift) (available_modes e)
    then openshift_login
    else oidc_login

-- A button of the login page: its label and its path.
unfoldable pub external_login : Text → List (Text × Text)
external_login mode =
    if mode == mode_oidc
    then (codes "Sign in with SSO", oidc_login) ∷ []
    else if mode == mode_openshift
    then (codes "Sign in with OpenShift", openshift_login) ∷ []
    else []

unfoldable pub external_logins_of : List Text → List (Text × Text)
unfolding external_login
external_logins_of [] = []
external_logins_of (mode ∷ rest) = external_login mode ++ external_logins_of rest

unfoldable pub external_logins : Env → List (Text × Text)
unfolding external_logins_of available_modes
external_logins e = external_logins_of (available_modes e)
