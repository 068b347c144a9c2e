-- ===== src/Providers/Flow.antt =====
-- What internal/proxy/oidc/oidc.go and internal/proxy/openshift/openshift.go each declare in the same
-- words: the transient cookie of a login flow, the answer of a callback that fails, and the last step
-- of one that succeeds.
use pg_tool_box.Common.{ℕ, Option, none, some, [], ◌∷◌, ◌++◌, ◌*◌, Text, codes}
use pg_tool_box.Common.Int.{ℤ, pos}
use pg_tool_box.Config.{Duration, Level, level_none, cookie_secure, second}
use pg_tool_box.Config.Validate.{Checks}
use pg_tool_box.Server.Handlers.{Response, error_page, redirect, issue_session}
use pg_tool_box.Server.Redirect.{safe_redirect}
use pg_tool_box.Server.Runtime.{Env, lookup_user}
use pg_tool_box.Session.{Crypto, Json, Data, Cookie, session_cookie, clear_cookie}

-- `transientMaxAge`
abbrev pub transient_max_age : Duration
transient_max_age = pos (10 * 60 * second)

-- `transientCookieName`
unfoldable pub transient_cookie_name : Env → Text
transient_cookie_name e = e.runtime.config.session.cookie_name ++ codes "_oauth"

-- The cookie that starts a flow.
unfoldable pub transient_cookie : Env → Text → Cookie
transient_cookie e value =
    session_cookie (transient_cookie_name e) (cookie_secure e.runtime.config.session)
      transient_max_age value

-- The cookie of `clear`.
unfoldable pub cleared : Env → Cookie
cleared e = clear_cookie (transient_cookie_name e) (cookie_secure e.runtime.config.session)

-- The callback's `fail`.
abbrev pub fail_with : Env → ℕ → Response
fail_with e status = record { cookies = cleared e ∷ []; body = error_page status }

-- The level of a subject, none if it is unknown.
unfoldable pub level_of : Env → Text → Level
level_of e subject = elim (lookup_user e subject) [ none ↦ level_none | some u ↦ u.level ]

-- `IssueSession`, the cleared cookie, and the redirect to the target that the flow kept.
unfoldable pub finish :
    Crypto → Json Data → Checks → Env → ℤ → Option Text → Text → Text → Text → Response
finish k j c e now nonce mode subject redirect_to =
    elim (issue_session k j e now nonce subject (level_of e subject) mode) [
      | none ↦ fail_with e 500
      | some cookie ↦ record {
        cookies = cookie ∷ cleared e ∷ [];
        body = redirect (safe_redirect c redirect_to);
      }
    ]
