-- ===== src/Console/ProxyConfig/Served.antt =====
-- From the users of the namespace to the proxy: what the operator declares is what the proxy knows.
use pg_tool_box.Common.{
  true, some, List, [], ◌∷◌, ◌≡◌, ◌≢◌, inl, inr, Text, All, Member, head, tail, Bool-cases,
  to_lower, ap, sym, ◌∙◌,
}
use pg_tool_box.Config.{User, Config, set_defaults, is_valid_level, level_dba}
use pg_tool_box.Config.Accepts.{IsValid}
use pg_tool_box.Config.Validate.{Warning, load, parsed}
use pg_tool_box.Console.Bootstrap.{Users, Api, Write, done, reconcile_bootstrap_admin}
use pg_tool_box.Console.Bootstrap.Admitted.{HasUsablePassword, admin-IsAdmitted}
use pg_tool_box.Console.Bootstrap.Namespace.{users_of, IsNamespace}
use pg_tool_box.Console.Objects.{PgConsole, PgToolBoxUser, already_exists}
use pg_tool_box.Console.ProxyConfig.{
  Yaml, rendered, render_proxy_config, config_of, pg_admin_enabled, access_level,
}
use pg_tool_box.Console.ProxyConfig.Parts.{IsRenderable}
use pg_tool_box.Console.ProxyConfig.Rendering.{routes_of, ReadsBack, built-IsValid, render_loads}
use pg_tool_box.Console.Users.{
  Reader, ResolvedConsoleUser, proxy_included, proxy_users, resolve_console_users,
}
use pg_tool_box.Console.Users.Rendered.{rendered_users_valid}
use pg_tool_box.Server.Runtime.{Env, lookup_user}
use pg_tool_box.Server.Runtime.Built.{IsBuilt, lookup_user-configured}

-- The configuration that the operator renders for the users it resolved.
abbrev pub served_config :
    (Text → Text) → Reader → PgConsole → Text → List ResolvedConsoleUser → Config
served_config short_digest r console session_key l =
    config_of short_digest console session_key
      (routes_of short_digest r.checks console session_key (pg_admin_enabled console))
      (proxy_users l)

Member-proxy_users :
    (u : ResolvedConsoleUser) (l : List ResolvedConsoleUser)
    → Member u l
    → proxy_included u ≡ true
    → Member u.proxy_user (proxy_users l)
unfolding proxy_users
Member-proxy_users u [] m i = elim m [ ]
Member-proxy_users u (v ∷ l) head i = rw i head
Member-proxy_users u (v ∷ l) (tail m) i =
    let later = Member-proxy_users u l m i in
    elim (Bool-cases (proxy_included v)) [ inl e ↦ rw e (tail later) | inr e ↦ rw e later ]

module _ (short_digest : Text → Text) (r : Reader) (console : PgConsole) (session_key : Text)
    (items : List PgToolBoxUser) (l : List ResolvedConsoleUser) where
  -- A console that can be rendered, with its resolved users: what the validation rules of the
  -- resource ask, an exposure's hostname where it signs in with OpenShift, and a long enough key.
  pub record IsServable : Type 0 where
    pub renderable : IsRenderable r.checks console session_key
    pub level_valid : pg_admin_enabled console ≡ true → is_valid_level (access_level console) ≡ true
    pub named : All (λ user. user.spec.subject ≢ []) items
    pub resolves : resolve_console_users r console (some items) ≡ some l

  pub served-IsValid :
      IsServable
      → IsValid r.checks (set_defaults (served_config short_digest r console session_key l))
  served-IsValid h =
      let (valid, distinct) = rendered_users_valid r console items l h.named h.resolves in
      built-IsValid short_digest r.checks console session_key (pg_admin_enabled console)
        (proxy_users l) h.renderable h.level_valid valid distinct

  -- Whatever users a namespace holds, as long as each has a subject, a console that can be rendered is
  -- rendered from them, and the proxy that loads the file accepts it: no user can make the console's
  -- configuration invalid. The console has what the validation rules of the resource ask and, where
  -- it signs in with OpenShift, a hostname, which those rules do not ask; the session key has 16 bytes
  -- or more, the YAML of the configuration is read back, and `url.Parse` finds a host in the upstreams
  -- and the callbacks.
  pub console_served :
      (yaml : Yaml) (raw : Text)
      → IsServable
      → ReadsBack short_digest r.checks console session_key yaml
          (served_config short_digest r console session_key l)
          raw
      → (render_proxy_config yaml r.checks short_digest console session_key
            (pg_admin_enabled console)
            (proxy_users l)
          ≡ rendered raw)
        × (w : List Warning) × (load r.checks yaml.unmarshal (some raw)
            ≡ parsed (set_defaults (served_config short_digest r console session_key l)) w)
  console_served yaml raw h reads =
      let (valid, distinct) = rendered_users_valid r console items l h.named h.resolves in
      render_loads short_digest r.checks console session_key yaml (pg_admin_enabled console)
        (proxy_users l) raw h.renderable h.level_valid valid distinct reads

-- After a reconcile of the first administrator that reports success, and that nobody else's creation
-- overtook, the runtime that the proxy builds from the console's configuration knows the declared
-- subject, in whatever letter case, as a dba. The password Secret of the administrator can be used,
-- each user of the namespace has a name of its own and a subject, and the console can be rendered: it
-- has what the validation rules ask and, where it signs in with OpenShift, a hostname.
pub first_admin_is_dba :
    (short_digest : Text → Text) (r : Reader) (console : PgConsole) (session_key : Text) (api : Api)
    (users after : Users) (w : Write) (l : List ResolvedConsoleUser) (e : Env) (subject : Text)
    → IsNamespace users
    → api.creates ≢ already_exists
    → reconcile_bootstrap_admin api console users ≡ (done w, after)
    → HasUsablePassword r console console.authentication.bootstrap_admin.password_secret_ref
    → IsServable short_digest r console session_key (users_of after) l
    → IsBuilt r.checks (set_defaults (served_config short_digest r console session_key l)) e.runtime
    → to_lower subject ≡ to_lower console.authentication.bootstrap_admin.subject
    → (u : User) × (lookup_user e subject ≡ some u) × (u.level ≡ level_dba)
unfolding set_defaults config_of
first_admin_is_dba short_digest r console session_key api users after w l e subject named alone h
      usable servable built same =
    let (u, at, (included, own, level)) =
      admin-IsAdmitted api r console users after w l named alone h usable servable.resolves in
    (
      u.proxy_user,
      lookup_user-configured r.checks
          (set_defaults (served_config short_digest r console session_key l)) e u.proxy_user subject
          (served-IsValid short_digest r console session_key (users_of after) l servable) built
          (Member-proxy_users u l at included) (same ∙ ap to_lower (sym own)),
      level,
    )
