-- ===== src/Console/ProxyConfig/Rendering.antt =====
-- The rendering of a console whose settings hold, and the load of what is rendered.
use mathlib.Core.Path.{subst}
use pg_tool_box.Common.{
  Bool, true, false, some, List, [], ◌∷◌, ◌≡◌, ◌≢◌, refl, arith, Text, text_eq, text_beq, map, All,
  Distinct, sym,
}
use pg_tool_box.Config.{
  Config, User, RouteConfig, set_defaults, local_enabled, default_route, is_valid_level,
}
use pg_tool_box.Config.Accepts.{IsValid, validate_iff}
use pg_tool_box.Config.Accepts.Provider.{IsValidProvider}
use pg_tool_box.Config.Accepts.Routes.{IsValidRoute, route_key}
use pg_tool_box.Config.Accepts.Users.{IsValidUser, user_key}
use pg_tool_box.Config.Levels.{is_valid_level_iff}
use pg_tool_box.Config.Validate.{Checks, warnings, load, parse, parsed, Warning}
use pg_tool_box.Console.Objects.{PgConsole}
use pg_tool_box.Console.ProxyConfig.{
  Yaml, rendered, config_of, root_route, pg_admin_route, render_modes, render_provider,
  access_level, build_config, built, check_rendered, render_proxy_config,
}
use pg_tool_box.Console.ProxyConfig.Parts.{
  IsRenderable, session_valid, server_valid, modes_known, modes-Distinct, oidc_belongs,
  openshift_belongs, root_valid, pg_admin_valid,
}

map-eq-nil : (routes : List RouteConfig) → map default_route routes ≡ [] → routes ≡ []
map-eq-nil [] e = refl
map-eq-nil (r ∷ routes) e = absurd (ground arith)

module _ (short_digest : Text → Text) (k : Checks) (console : PgConsole) (session_key : Text) where
  local_enabled-config_of :
      (routes : List RouteConfig) (users : List User)
      → local_enabled (set_defaults (config_of short_digest console session_key routes users))
        ≡ console.authentication.local
  unfolding local_enabled set_defaults config_of render_provider render_modes text_beq
  local_enabled-config_of routes users = ground arith

  provider_valid :
      (routes : List RouteConfig) (users : List User)
      → IsRenderable k console session_key
      → IsValidProvider k
          (set_defaults (config_of short_digest console session_key routes users)).provider
  unfolding set_defaults config_of render_provider
  provider_valid routes users h = record {
    some_mode = h.enables;
    modes_known = modes_known short_digest k console session_key;
    modes_distinct = modes-Distinct short_digest k console session_key;
    oidc_belongs =
        oidc_belongs short_digest k console session_key console.authentication.oidc refl h.issuer;
    openshift_belongs = openshift_belongs short_digest k console session_key h.exposed;
  }

  config-IsValid :
      (routes : List RouteConfig) (users : List User)
      → IsRenderable k console session_key
      → routes ≢ []
      → All (IsValidRoute k) (map default_route routes)
      → Distinct (map route_key (map default_route routes))
      → All (IsValidUser k console.authentication.local) users
      → Distinct (map user_key users)
      → IsValid k (set_defaults (config_of short_digest console session_key routes users))
  unfolding set_defaults config_of
  config-IsValid routes users h some_route valid distinct users_ok users_distinct = record {
    session_valid = session_valid short_digest k console session_key routes users h.keyed;
    server_valid = server_valid short_digest k console session_key routes users;
    provider_valid = provider_valid routes users h;
    users_valid =
        subst (λ b. All (IsValidUser k b) users) (sym (local_enabled-config_of routes users))
          users_ok;
    users_distinct = users_distinct;
    some_route = λ e. some_route (map-eq-nil routes e);
    routes_valid = valid;
    routes_distinct = distinct;
    requests_placed = λ e. (h.named, h.placed);
  }

  -- The routes of a console, with or without pgAdmin.
  abbrev pub routes_of : Bool → List RouteConfig
  routes_of false = root_route ∷ []
  routes_of true = pg_admin_route (access_level console) ∷ root_route ∷ []

  build-built :
      (enabled : Bool) (users : List User)
      → render_modes console ≢ []
      → (enabled ≡ true → is_valid_level (access_level console) ≡ true)
      → build_config short_digest console session_key enabled users
        ≡ built (config_of short_digest console session_key (routes_of enabled) users)
  unfolding build_config
  build-built true users some_mode level = ground arith
  build-built false users some_mode level = ground arith

  pub built-IsValid :
      (enabled : Bool) (users : List User)
      → IsRenderable k console session_key
      → (enabled ≡ true → is_valid_level (access_level console) ≡ true)
      → All (IsValidUser k console.authentication.local) users
      → Distinct (map user_key users)
      → IsValid k
          (set_defaults (config_of short_digest console session_key (routes_of enabled) users))
  built-IsValid true users h level ok distinct =
      let configurable = (is_valid_level_iff (access_level console)).0 (level refl) in
      config-IsValid (routes_of true) users h (λ e. ground arith)
        (
          pg_admin_valid short_digest k console session_key (access_level console) configurable
              h.pg_admin_parses,
          (root_valid short_digest k console session_key h.console_parses, tt),
        )
        ((λ e. ground arith, tt), (tt, tt)) ok distinct
  built-IsValid false users h level ok distinct =
      config-IsValid (routes_of false) users h (λ e. ground arith)
        (root_valid short_digest k console session_key h.console_parses, tt) (tt, tt) ok distinct

  -- The encoder's output is read back.
  abbrev pub ReadsBack : Yaml → Config → Text → Type 0
  ReadsBack yaml c raw = (yaml.marshal c ≡ some raw) × (yaml.unmarshal raw ≡ some c)

  -- A console with a provider, whose settings hold, is rendered from valid users and a
  -- session key of 16 bytes or more, and the proxy that loads the file has the rendered configuration
  -- with the defaults filled in. The YAML of that configuration is read back, and `url.Parse` finds a
  -- host in the two upstreams and in the callbacks.
  pub render_loads :
      (yaml : Yaml) (enabled : Bool) (users : List User) (raw : Text)
      → IsRenderable k console session_key
      → (enabled ≡ true → is_valid_level (access_level console) ≡ true)
      → All (IsValidUser k console.authentication.local) users
      → Distinct (map user_key users)
      → ReadsBack yaml (config_of short_digest console session_key (routes_of enabled) users) raw
      → (render_proxy_config yaml k short_digest console session_key enabled users ≡ rendered raw)
        × (w : List Warning) × (load k yaml.unmarshal (some raw)
            ≡ parsed
                (set_defaults
                  (config_of short_digest console session_key (routes_of enabled) users))
                w)
  unfolding render_proxy_config check_rendered load parse
  render_loads yaml enabled users raw h level ok distinct (encodes, decodes) =
      let c = config_of short_digest console session_key (routes_of enabled) users in
      let accepted =
        (validate_iff k (set_defaults c)).1 (built-IsValid enabled users h level ok distinct) in
      let build = build-built enabled users h.enables level in
      (ground arith, warnings k (set_defaults c), ground arith)
