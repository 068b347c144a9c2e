-- ===== src/Lib.antt =====
-- pgToolBox: an operator that puts an authenticating proxy, an observation console and an embedded
-- pgAdmin in front of each CloudNativePG cluster. This library models the parts that decide who may
-- reach what, and with which credential.
--
-- The parts, and how they meet. The operator renders a configuration; the proxy parses and validates
-- it, compiles it into a runtime (session codec, users, route table) and swaps the runtime in on each
-- reload. A provider logs a user in and seals a session cookie with the runtime's codec; the proxy's
-- handlers open that cookie on each request, compare the session's level with the level of the
-- matched route, and forward the request with the identity in headers. A user without a level can
-- ask for access, which creates an object of the cluster; once somebody approved it, a controller gives
-- the subject's user its level. The console controller keeps the user of the first administrator,
-- resolves the users of the namespace into the configuration that it renders, keeps the Secret of that
-- configuration, and mints the tokens that the console presents to its evidence sidecar. A watcher in
-- the proxy reloads the configuration when its volume changes. A sidecar of pgAdmin brings each account
-- that has signed in to the cluster's connections and credentials.
--
-- Which file models what:
--   Common.antt and its children: what Go and its standard library give. Text is a list of bytes and
--     is taken to be ASCII where the code folds letters, trims spaces or counts runes; int64 and
--     time.Duration are integers without a bound; a map is an association list.
--   Config.antt, Config/Validate.antt: internal/proxy/config/config.go (the schema, Rank, setDefaults,
--     Parse, Load) and validate.go (Validate and its parts, warnings). A report is the list of its
--     problems. Config/Accepts and Config/Levels hold the description of validity and of the levels.
--   Config/Watch.antt: internal/proxy/config/watch.go. One round of the loop of Run is a step on the
--     timer and the configurations handed on; a run is a sequence of timed events, which the environment
--     can send.
--   Session.antt: internal/proxy/session/session.go (NewCodec, Seal, Open, SetCookie, ReadCookie,
--     ClearCookie, CSRFToken, ValidCSRF).
--   Server/Routing.antt, Runtime.antt, Headers.antt, Redirect.antt, Handlers.antt:
--     internal/proxy/server/server.go (BuildRuntime, matchRoute, the Rewrite function, SafeRedirect,
--     LoginPath, ExternalLogins, IssueSession, LookupUser, handleLogout, handleProxied,
--     ExchangeFailure) and accessrequest.go (handleAccessRequest, CreateAccessRequest).
--   Providers/Limiter.antt, Local.antt: internal/proxy/local/local.go (rateLimiter, handleForm,
--     handleSubmit). A method of the limiter is one step, as it holds the mutex throughout.
--   Providers/Flow.antt, Oidc.antt, OpenShift.antt: internal/proxy/oidc/oidc.go and
--     internal/proxy/openshift/openshift.go (handleLogin, handleCallback, readTransient, configFor,
--     discover, fetchUser, readSecretFile). A handler's later part, after one of its returns, is a
--     function of its own (with_token, with_identity, with_claims).
--   Console/Names.antt: BoundedName and ResourceName of internal/controller/shared/application.go.
--   Render.antt: internal/render/render.go, up to the digest.
--   Conditions.antt: internal/conditions/conditions.go (mark, assertKnownReason).
--   AccessRequests.antt: internal/controller/pgtoolboxaccessrequest/controller.go (Reconcile and what it
--     calls) on the stored request and the users of the namespace.
--   Console/Objects.antt: the fields of api/v1alpha1 that the console's controllers decide on.
--   Console/ExposureObjects.antt, Console/Exposure.antt, Console/Gateway.antt:
--     internal/controller/pgconsole/exposure.go: the Ingress, Route and HTTPRoute and their reconcile
--     (reconcile_object is reconcileIngress, reconcileRoute and reconcileHTTPRoute), the switch
--     reconcileExposure with its deletions, and the verdict on a Gateway's listeners and the route.
--   Console/Labels.antt: FilteredOverlay, CommonLabels, SelectorLabels, LabelsContain, exposureLabels.
--   Console/Users.antt: internal/controller/pgconsole/users.go (resolveConsoleUsers, resolveConsoleUser,
--     proxyUsers) and ReadLocalPasswordHash of internal/controller/shared/credentials.go.
--   Console/Bootstrap.antt: internal/controller/pgconsole/bootstrapadmin.go.
--   Console/ProxyConfig.antt: internal/controller/pgconsole/proxyconfig.go (renderProxyConfig,
--     checkOIDCClientSecret, reconcileProxyConfigSecret and what they call).
--   Console/Tokens.antt: internal/controller/pgconsole/evidence_token.go (reconcileEvidenceToken,
--     collectSupersededTokens and what they call) on a store of Secrets, annotation and Deployment.
--   AdminSync/Passfile.antt, Apply.antt: internal/adminsync/sidecar_server.go (pgpassEscape, pgpassLine,
--     accounts, apply and its steps) on the files, the loaded connections and the combined file.
--   Scenarios.antt and its children: a sample console, tests of the definitions on it, and the
--     theorems applied to it.
-- The children of a definition's file hold its theorems and are named for what they show.
--
-- Parameters, which stand for code of other packages: url.Parse, bcrypt and net.ParseIP (Checks),
-- AES-GCM, SHA-256, HMAC, base64 and hex (Crypto, with SealLaws where a text that was encoded and
-- sealed must come back), JSON (Json), go-oidc and oauth2 (Idp, Cluster), the clock's readings, the
-- random values, YAML (Yaml), meta.SetStatusCondition (SetsConditions), what the calls of the Kubernetes API
-- answer (Api, ObjectApi, Reader, Gateway.Cluster), and which steps of a synchronisation fail (Os).
--
-- Bounds and fuel. Fuel is used for printing decimals (`suc n` rounds for the number n, since
-- n / 10 < n) and for the outer loop of the route sort (as many rounds as routes). All else recurs on
-- a list. The counter of a token's generation is read back below 2^63, the range of strconv.Atoi.
--
-- Not modelled: the registration of handlers in the ServeMux, HTML templates (only their data),
-- the HTTP transports and clients, logging, the construction of Kubernetes objects beyond what the
-- functions above read, generated deep copies, and the commands' flags and wiring. The HTTP
-- handler and the client of the sidecar, the status of the console's users, the workload,
-- network policy and roles of a console, and its evidence sidecar have no model in this library.
pub mod AccessRequests
pub mod AdminSync
pub mod Common
pub mod Conditions
pub mod Config
pub mod Console
pub mod Providers
pub mod Render
pub mod Scenarios
pub mod Server
pub mod Session
