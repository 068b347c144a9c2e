-- ===== src/Config/Accepts.antt =====
-- When `Validate` accepts a configuration. The children treat its parts.
mod Seen
pub mod Session
pub mod Provider
pub mod Routes
pub mod Users
use pg_tool_box.Common.{
  Bool, true, false, List, [], ◌∷◌, ◌++◌, ◌≡◌, ◌≢◌, ◌⊎◌, ◌↔◌, inl, inr, refl, arith, Text, map, All,
  Distinct, append-eq-nil, append-nil_of,
}
use pg_tool_box.Config.{Config, local_enabled}
use pg_tool_box.Config.Validate.{Checks, validate, validate_users}
use Session.{IsValidSession, IsValidServer, session_iff, server_iff, access_request_iff}
use Provider.{IsValidProvider, provider_iff}
use Routes.{IsValidRoute, route_key, routes_iff}
use Users.{IsValidUser, user_key, users_iff}

-- What a configuration has to satisfy, with no reference to the loops that check it.
pub record IsValid (k : Checks) (c : Config) : Type 0 where
  pub session_valid : IsValidSession c.session
  pub server_valid : IsValidServer c.server
  pub provider_valid : IsValidProvider k c.provider
  pub users_valid : All (IsValidUser k (local_enabled c)) c.users
  pub users_distinct : Distinct (map user_key c.users)
  pub some_route : c.routes ≢ []
  pub routes_valid : All (IsValidRoute k) c.routes
  pub routes_distinct : Distinct (map route_key c.routes)
  pub requests_placed :
      c.access_request.enabled ≡ true
      → (c.access_request.console_name ≢ []) × (c.access_request.namespace ≢ [])

-- `Validate` reports no problem exactly when the configuration is valid.
pub validate_iff : (k : Checks) (c : Config) → (validate k c ≡ []) ↔ IsValid k c
unfolding validate validate_users
validate_iff k c = ground (
  arith,
  session_iff c.session,
  server_iff c.server,
  provider_iff k c.provider,
  users_iff k (local_enabled c) c.users,
  routes_iff k c.routes,
  access_request_iff c.access_request,
)
