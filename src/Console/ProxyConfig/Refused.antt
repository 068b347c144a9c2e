-- ===== src/Console/ProxyConfig/Refused.antt =====
-- What the operator writes, the proxy accepts; and two consoles that it therefore never serves.
use mathlib.Core.Option
use mathlib.Core.Path.{subst}
use pg_tool_box.Common.{
  ◌⊎◌, ◌≤◌, ◌<◌, Bool, true, Option, none, some, List, [], ◌∷◌, ◌≡◌, ◌≢◌, inl, inr, refl, arith,
  Text, text_eq, length, Bool-cases, Option-cases, sym, ◌∙◌, ap,
}
use pg_tool_box.Console.ProxyConfig.Parts.{openshift_field}
use pg_tool_box.Config.{
  default_openshift, Config, User, RouteConfig, set_defaults, is_empty, is_valid_level,
}
use pg_tool_box.Config.Accepts.{IsValid, validate_iff}
use pg_tool_box.Config.Accepts.Provider.{IsValidOpenShift, Belongs}
use pg_tool_box.Config.Validate.{Checks, validate, parse}
use pg_tool_box.Console.Objects.{PgConsole}
use pg_tool_box.Console.ProxyConfig.{
  Yaml, RenderError, rendered, render_failed, config_of, build_config, built, refused, Built,
  check_rendered, render_proxy_config, pg_admin_enabled, ConfigSecret, Api, issue, render_issue,
  check_oidc_client_secret, choose_key, render_and_write, reconcile_proxy_config_secret,
  render_modes, external_callback_url, render_openshift, access_level, root_route, pg_admin_route,
}
use pg_tool_box.Console.ProxyConfig.Key.{key_of_secret, Rendered-cases}
use pg_tool_box.Console.Users.{Reader}

belonging :
    {A : Type 0} (P : A → Type 0) (listed : Bool) (o : Option A) (a : A)
    → Belongs P listed o
    → o ≡ some a
    → P a
belonging P listed none a b e = absurd (ground arith)
belonging P listed (some x) a b e = subst P (ground arith) b.1

-- The YAML decoder reads what the encoder wrote of the console's configuration.
abbrev pub DecodesOwn : Yaml → (Text → Text) → PgConsole → Text → Bool → List User → Type 0
DecodesOwn yaml short_digest console session_key enabled users =
    (c : Config) (raw : Text)
    → build_config short_digest console session_key enabled users ≡ built c
    → yaml.marshal c ≡ some raw
    → yaml.unmarshal raw ≡ some c

module _ (yaml : Yaml) (k : Checks) (short_digest : Text → Text) (console : PgConsole) where
  Built-cases : (o : Built) → ((e : RenderError) × (o ≡ refused e)) ⊎ ((c : Config) × (o ≡ built c))
  Built-cases (built c) = inr (c, refl)
  Built-cases (refused e) = inl (e, refl)

  built_from :
      (session_key : Text) (enabled : Bool) (users : List User) (c : Config)
      → build_config short_digest console session_key enabled users ≡ built c
      → (routes : List RouteConfig) × (c ≡ config_of short_digest console session_key routes users)
  unfolding build_config
  built_from session_key enabled users c h = elim (Bool-cases (is_empty (render_modes console))) [
    | inl e ↦ absurd (ground arith)
    | inr e ↦ elim (Bool-cases enabled) [
      | inr f ↦ (root_route ∷ [], ground arith)
      | inl f ↦ elim (Bool-cases (is_valid_level (access_level console))) [
        | inl g ↦ (pg_admin_route (access_level console) ∷ root_route ∷ [], ground arith)
        | inr g ↦ absurd (ground arith)
      ]
    ]
  ]

  checked_valid :
      (raw sum : Text) (c : Config)
      → yaml.unmarshal raw ≡ some c
      → check_rendered yaml k raw ≡ rendered sum
      → (raw ≡ sum) × (validate k (set_defaults c) ≡ [])
  unfolding check_rendered parse
  checked_valid raw sum c decodes h = elim (Bool-cases (is_empty (validate k (set_defaults c)))) [
    | inl e ↦ ground arith
    | inr e ↦ absurd (ground arith)
  ]

  rendered-IsValid :
      (session_key raw : Text) (enabled : Bool) (users : List User)
      → DecodesOwn yaml short_digest console session_key enabled users
      → render_proxy_config yaml k short_digest console session_key enabled users ≡ rendered raw
      → (routes : List RouteConfig) × (yaml.unmarshal raw
          ≡ some (config_of short_digest console session_key routes users))
        × IsValid k (set_defaults (config_of short_digest console session_key routes users))
  unfolding render_proxy_config
  rendered-IsValid session_key raw enabled users law h =
      elim (Built-cases (build_config short_digest console session_key enabled users)) [
        | inl (e, p) ↦ absurd (ground arith)
        | inr (c, p) ↦
            let (routes, q) = built_from session_key enabled users c p in
            elim (Option-cases (yaml.marshal c)) [
              | inl m ↦ absurd (ground arith)
              | inr (text, m) ↦
                  let (same, valid) = checked_valid text raw c (law c text p m) (ground arith) in
                  (
                    routes,
                    sym (ap yaml.unmarshal same) ∙ (law c text p m ∙ ap some q),
                    (validate_iff k (
                          set_defaults (config_of short_digest console session_key routes users))).0
                        (sym (ap (λ x. validate k (set_defaults x)) q) ∙ valid),
                  )
            ]
      ]

  long_key :
      (session_key : Text) (routes : List RouteConfig) (users : List User)
      → IsValid k (set_defaults (config_of short_digest console session_key routes users))
      → 16 ≤ length session_key
  unfolding set_defaults config_of
  long_key session_key routes users v = v.session_valid.secrets_long.0

  needs_hostname :
      (session_key : Text) (routes : List RouteConfig) (users : List User)
      → console.authentication.openshift ≡ true
      → IsValid k (set_defaults (config_of short_digest console session_key routes users))
      → console.hostname ≢ []
  unfolding set_defaults config_of render_openshift external_callback_url
  needs_hostname session_key routes users on v e =
      let valid = belonging (IsValidOpenShift k) _ _ _ v.provider_valid.openshift_belongs (
        ap (Option.map default_openshift)
          (openshift_field short_digest k console session_key true on)) in
      valid.redirect_named (ground arith)

  -- A render error, from its absence.
  must_fail :
      (session_key : Text) (enabled : Bool) (users : List User)
      → DecodesOwn yaml short_digest console session_key enabled users
      → ((routes : List RouteConfig)
          → ¬ IsValid k (set_defaults (config_of short_digest console session_key routes users)))
      → (e : RenderError) × (render_proxy_config yaml k short_digest console session_key enabled
            users
          ≡ render_failed e)
  must_fail session_key enabled users law never =
      elim (Rendered-cases
        (render_proxy_config yaml k short_digest console session_key enabled users)) [
          | inl found ↦ found
          | inr (raw, h) ↦
              let (routes, _, valid) = rendered-IsValid session_key raw enabled users law h in
              absurd (never routes valid)
        ]

  unexposed_openshift_fails :
      (session_key : Text) (enabled : Bool) (users : List User)
      → DecodesOwn yaml short_digest console session_key enabled users
      → console.authentication.openshift ≡ true
      → console.hostname ≡ []
      → (e : RenderError) × (render_proxy_config yaml k short_digest console session_key enabled
            users
          ≡ render_failed e)
  unexposed_openshift_fails session_key enabled users law on hidden =
      must_fail session_key enabled users law
        (λ routes valid. needs_hostname session_key routes users on valid hidden)

-- For a console with OpenShift authentication and without a hostname, every reconcile whose reads
-- succeed and that has a key reports a render error, and leaves the Secret as it is, or absent:
-- whatever the rest of the console says, it is never served. What YAML encodes of its configuration,
-- it decodes.
pub unexposed_openshift_stuck :
    (yaml : Yaml) (short_digest hex_digest : Text → Text) (r : Reader) (api : Api)
    (console : PgConsole) (users : List User) (existing : Option ConfigSecret) (session_key : Text)
    → DecodesOwn yaml short_digest console session_key (pg_admin_enabled console) users
    → api.reads ≡ true
    → check_oidc_client_secret r console ≡ none
    → choose_key api existing ≡ some session_key
    → console.authentication.openshift ≡ true
    → console.hostname ≡ []
    → (e : RenderError) × (reconcile_proxy_config_secret yaml short_digest hex_digest r api console
          users existing
        ≡ (issue (render_issue e), existing))
unfolding reconcile_proxy_config_secret render_and_write
unexposed_openshift_stuck yaml short_digest hex_digest r api console users existing session_key law
      reads oidc chosen on hidden =
    let (e, fails) =
      unexposed_openshift_fails yaml r.checks short_digest console session_key
        (pg_admin_enabled console) users law on hidden in
    (e, ground arith)

-- A Secret whose session key has between 1 and 15 bytes is not repaired: every reconcile reports a
-- render error and leaves the Secret as it is, for as long as the reads succeed.
pub short_key_stuck :
    (yaml : Yaml) (short_digest hex_digest : Text → Text) (r : Reader) (api : Api)
    (console : PgConsole) (users : List User) (s : ConfigSecret)
    → DecodesOwn yaml short_digest console (key_of_secret s) (pg_admin_enabled console) users
    → api.reads ≡ true
    → check_oidc_client_secret r console ≡ none
    → key_of_secret s ≢ []
    → length (key_of_secret s) < 16
    → (e : RenderError) × (reconcile_proxy_config_secret yaml short_digest hex_digest r api console
          users
          (some s)
        ≡ (issue (render_issue e), some s))
unfolding reconcile_proxy_config_secret render_and_write choose_key
short_key_stuck yaml short_digest hex_digest r api console users s law reads oidc some_key short =
    let (e, fails) =
      must_fail yaml r.checks short_digest console (key_of_secret s) (pg_admin_enabled console)
        users law
        (λ routes valid.
          let long =
            long_key yaml r.checks short_digest console (key_of_secret s) routes users valid in
          omega arith) in
    (e, ground arith)
