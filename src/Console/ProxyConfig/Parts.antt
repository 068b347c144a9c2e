-- ===== src/Console/ProxyConfig/Parts.antt =====
-- The parts of a rendered configuration are valid, each for its part of the console.
use mathlib.Core.Option
use mathlib.Core.Path.{subst}
use pg_tool_box.Common.{
  Bool-cases, ◌∙◌, sym, if◌then◌else◌, ◌≤◌, Bool, true, false, Option, none, some, List, [], ◌≡◌,
  ◌≢◌, inl, inr, refl, arith, Text, codes, text_eq, text_beq, length, All, Distinct, starts_with,
  contains,
}
use pg_tool_box.Common.Decimal.{format}
use pg_tool_box.Config.{
  default_route, reserved_prefixes, mode_oidc, mode_openshift, default_oidc, default_openshift,
  User, RouteConfig, OidcConfig, OpenShiftConfig, set_defaults,
}
use pg_tool_box.Config.Levels.{IsConfigurable}
use pg_tool_box.Config.Accepts.Provider.{IsMode, IsHttpsUrl, IsValidOidc, IsValidOpenShift, Belongs}
use pg_tool_box.Config.Accepts.Routes.{IsWebUrl, IsValidRoute, reserved_iff}
use pg_tool_box.Config.Accepts.Session.{IsValidSession, IsValidServer, cookie_name_iff}
use pg_tool_box.Config.Validate.{
  Checks, is_cookie_byte, is_cookie_name_valid, is_seen, reserved_problems, collides,
}
use pg_tool_box.Console.Objects.{PgConsole, OidcAuthentication}
use pg_tool_box.Console.ProxyConfig.{
  config_of, root_route, pg_admin_route, loopback_upstream, external_callback_url, render_modes,
  render_provider, render_oidc, render_openshift, console_base_url, service_account_client_id,
}

module _ (k : Checks) (console : PgConsole) where
  -- What the resource asks of the identity provider, and `url.Parse` finds in its callback.
  abbrev pub HasIssuer : Option OidcAuthentication → Type 0
  HasIssuer none = Unit
  HasIssuer (some auth) =
      (auth.issuer_url ≢ [])
      × IsHttpsUrl (k.parse_url auth.issuer_url)
      × (auth.client_id ≢ [])
      × (console.hostname ≢ []
          → IsWebUrl (k.parse_url (external_callback_url console (codes "/auth/oidc/callback"))))

  -- A console that can be rendered.
  pub record IsRenderable (session_key : Text) : Type 0 where
    pub named : console.name ≢ []
    pub placed : console.namespace ≢ []
    pub keyed : 16 ≤ length session_key
    pub enables : render_modes console ≢ []
    pub issuer : HasIssuer console.authentication.oidc
    pub exposed :
        console.authentication.openshift ≡ true
        → (console.hostname ≢ [])
          × IsWebUrl
              (k.parse_url (external_callback_url console (codes "/auth/openshift/callback")))
    -- `url.Parse` of the two upstreams
    pub console_parses : IsWebUrl (k.parse_url (codes "http://127.0.0.1:3000"))
    pub pg_admin_parses : IsWebUrl (k.parse_url (codes "http://127.0.0.1:8081"))

module _ (short_digest : Text → Text) (k : Checks) (console : PgConsole) (session_key : Text) where
  pub session_valid :
      (routes : List RouteConfig) (users : List User)
      → 16 ≤ length session_key
      → IsValidSession
          (set_defaults (config_of short_digest console session_key routes users)).session
  unfolding set_defaults config_of is_cookie_name_valid is_cookie_byte
  session_valid routes users long = record {
    named = λ e. ground arith;
    cookie_safe = (cookie_name_iff (codes "pgtoolbox_session")).0 refl;
    keyed = λ e. ground arith;
    secrets_long = (long, tt);
    lives = omega arith;
  }

  pub server_valid :
      (routes : List RouteConfig) (users : List User)
      → IsValidServer
          (set_defaults (config_of short_digest console session_key routes users)).server
  unfolding set_defaults config_of
  server_valid routes users = record {
    listens = λ e. ground arith;
    dials = omega arith;
    waits = omega arith;
  }

  pub modes_known : All IsMode (render_modes console)
  unfolding render_modes
  modes_known = ground arith

  pub modes-Distinct : Distinct (render_modes console)
  unfolding render_modes
  modes-Distinct = ground arith

  abbrev is_some : Option OidcAuthentication → Bool
  is_some none = false
  is_some (some auth) = true

  seen_oidc :
      (o : Option OidcAuthentication)
      → console.authentication.oidc ≡ o
      → is_seen mode_oidc (render_modes console) ≡ is_some o
  unfolding render_modes text_beq
  seen_oidc none e = ground arith
  seen_oidc (some auth) e = ground arith

  seen_openshift : is_seen mode_openshift (render_modes console) ≡ console.authentication.openshift
  unfolding render_modes text_beq
  seen_openshift = ground arith

  oidc_valid :
      (auth : OidcAuthentication)
      → HasIssuer k console (some auth)
      → IsValidOidc k (default_oidc (render_oidc console auth))
  unfolding render_oidc external_callback_url
  oidc_valid auth h = record {
    issuer_named = h.0;
    issuer_https = h.1;
    client_named = h.2;
    secret_named = λ e. ground arith;
    redirect_web = λ n. h.3 (λ e. n (ground arith));
    scoped = λ e. ground arith;
    claim_named = λ e. ground arith;
  }

  openshift_valid :
      console.hostname ≢ []
      → IsWebUrl (k.parse_url (external_callback_url console (codes "/auth/openshift/callback")))
      → IsValidOpenShift k (default_openshift (render_openshift short_digest console))
  unfolding render_openshift external_callback_url console_base_url service_account_client_id
      starts_with
  openshift_valid exposed web = record {
    client_named = λ e. ground arith;
    secret_named = λ e. ground arith;
    redirect_named = λ e. ground arith;
    redirect_web = web;
    discovery_web = λ n. absurd (n refl);
    api_web = λ n. absurd (n refl);
    scoped = λ e. ground arith;
    info_rooted = λ n. refl;
  }

  abbrev BelongsOidc : Option OidcConfig → Type 0
  BelongsOidc o =
      Belongs (IsValidOidc k) (is_seen mode_oidc (render_modes console)) (Option.map default_oidc o)

  oidc_field :
      (o : Option OidcAuthentication)
      → console.authentication.oidc ≡ o
      → (render_provider short_digest console).oidc ≡ Option.map (render_oidc console) o
  unfolding render_provider
  oidc_field none e = ground arith
  oidc_field (some auth) e = ground arith

  abbrev BelongsOpenShift : Option OpenShiftConfig → Type 0
  BelongsOpenShift o =
      Belongs (IsValidOpenShift k) (is_seen mode_openshift (render_modes console))
        (Option.map default_openshift o)

  pub openshift_field :
      (b : Bool)
      → console.authentication.openshift ≡ b
      → (render_provider short_digest console).openshift
        ≡ (if b then some (render_openshift short_digest console) else none)
  unfolding render_provider
  openshift_field b e = ground arith

  pub oidc_belongs :
      (o : Option OidcAuthentication)
      → console.authentication.oidc ≡ o
      → HasIssuer k console o
      → BelongsOidc (render_provider short_digest console).oidc
  oidc_belongs none e h = subst BelongsOidc (sym (oidc_field none e)) (seen_oidc none e)
  oidc_belongs (some auth) e h =
      subst BelongsOidc (sym (oidc_field (some auth) e))
        (seen_oidc (some auth) e, oidc_valid auth h)

  pub openshift_belongs :
      (console.authentication.openshift ≡ true
        → (console.hostname ≢ [])
          × IsWebUrl
              (k.parse_url (external_callback_url console (codes "/auth/openshift/callback"))))
      → BelongsOpenShift (render_provider short_digest console).openshift
  openshift_belongs h = elim (Bool-cases console.authentication.openshift) [
    | inl e ↦
        subst BelongsOpenShift (sym (openshift_field true e))
          (seen_openshift ∙ e, openshift_valid (h e).0 (h e).1)
    | inr e ↦ subst BelongsOpenShift (sym (openshift_field false e)) (seen_openshift ∙ e)
  ]

  pub root_valid :
      IsWebUrl (k.parse_url (codes "http://127.0.0.1:3000"))
      → IsValidRoute k (default_route root_route)
  unfolding loopback_upstream format starts_with contains reserved_problems collides text_beq
  root_valid web = record {
    rooted = refl;
    without_dots = refl;
    unreserved = (reserved_iff 0 (codes "/") reserved_prefixes).0 refl;
    web = web;
    upstream_named = λ e. ground arith;
    levelled = inl refl;
  }

  pub pg_admin_valid :
      (level : Text)
      → IsConfigurable level
      → IsWebUrl (k.parse_url (codes "http://127.0.0.1:8081"))
      → IsValidRoute k (default_route (pg_admin_route level))
  unfolding loopback_upstream format starts_with contains reserved_problems collides text_beq
  pg_admin_valid level valid web = record {
    rooted = refl;
    without_dots = refl;
    unreserved = (reserved_iff 0 (codes "/pgadmin") reserved_prefixes).0 refl;
    web = web;
    upstream_named = λ e. ground arith;
    levelled = ground arith;
  }
