-- ===== src/Server/Handlers.antt =====
-- The handlers of internal/proxy/server/server.go and accessrequest.go. A handler returns the response
-- with the cookies that it sets; the handler of access requests also returns the objects that it asked
-- Kubernetes to create. The template of a page is not modelled, only its data.
pub mod Gate
pub mod Issued
pub mod Requests
use mathlib.Core.Option
use pg_tool_box.Common.{
  ℕ, Bool, true, false, Option, none, some, List, [], ◌∷◌, ◌++◌, Text, codes, ◌==◌, not, ◌&&◌, ◌||◌,
  leb, if◌then◌else◌, text_eq, take, length,
}
use pg_tool_box.Common.Dict
use pg_tool_box.Common.Int.{ℤ, ltb_ℤ}
use pg_tool_box.Config.{Level, level_none, rank, cookie_secure, is_empty}
use pg_tool_box.Config.Validate.{Url}
use pg_tool_box.Server.Headers.{Headers, Inbound, Outbound, rewrite}
use pg_tool_box.Server.Routing.{Route, match_route}
use pg_tool_box.Server.Runtime.{Env, Runtime, login_path}
use pg_tool_box.Session.{
  Crypto, Json, Data, Cookie, Read, session, no_cookie, expired, unreadable, read_cookie,
  set_cookie, clear_cookie, new_data, csrf_token, is_valid_csrf,
}

-- `forwarded` holds the headers that the reverse proxy copies; `form` is `none` where `ParseForm` fails.
pub record Request : Type 0 where
  pub method : Text
  pub path : Text
  pub uri : Text
  pub query : List (Text × Text)
  pub cookies : List (Text × Text)
  pub form : Option (List (Text × Text))
  pub inbound : Inbound
  pub forwarded : Headers

-- `Query().Get` and `PostFormValue`: the first value, or the empty text.
unfoldable pub value_of : List (Text × Text) → Text → Text
value_of l name = elim (Dict.lookup name l) [ none ↦ [] | some v ↦ v ]

pub data Body : Type 0 where
  error_page : ℕ → Body
  redirect : Text → Body
  -- the status, the redirect target, whether an error is shown, and the other providers' buttons
  login_page : ℕ → Text → Bool → List (Text × Text) → Body
  -- the subject, the form token, whether the form is shown, and the console's name
  denied_unknown : Text → Text → Bool → Text → Body
  -- the subject, its level, the level that is needed, and the path
  denied_known : Text → Text → Text → Text → Body
  confirmation : Text → Body
  proxied : Outbound → Body

pub record Response : Type 0 where
  pub cookies : List Cookie
  pub body : Body

abbrev pub respond : Body → Response
respond b = record { cookies = []; body = b }

-- `IssueSession`; `none` is its error.
unfoldable pub issue_session :
    Crypto → Json Data → Env → ℤ → Option Text → Text → Level → Text → Option Cookie
issue_session k j e now nonce subject level mode =
    let s = e.runtime.config.session in
    set_cookie k j e.runtime.codec nonce s.cookie_name (cookie_secure s) s.max_age
      (new_data now subject level mode s.max_age)

unfoldable pub handle_logout : Env → Response
handle_logout e =
    let s = e.runtime.config.session in
    record {
      cookies = clear_cookie s.cookie_name (cookie_secure s) ∷ [];
      body = redirect (login_path e);
    }

unfoldable pub render_denied_unknown : Crypto → Env → Data → Response
render_denied_unknown k e s =
    let arc = e.runtime.config.access_request in
    respond (
      denied_unknown s.subject (csrf_token k e.runtime.codec s) (arc.enabled && e.access_requests)
        arc.console_name)

-- The answer to a request without a session; `escape` is `url.QueryEscape`.
unfoldable pub unauthenticated : (Text → Text) → Env → Request → Response
unauthenticated escape e r =
    if r.method == codes "GET"
    then respond (redirect (login_path e ++ codes "?rd=" ++ escape r.uri))
    else respond (error_page 401)

-- The part of `handleProxied` after the session was read.
unfoldable pub authorize : Crypto → Env → Request → Route → Data → Response
authorize k e r route s =
    if ltb_ℤ (rank s.level) (rank route.min_level)
    then (if s.level == level_none
        then render_denied_unknown k e s
        else respond (denied_known s.subject s.level route.min_level r.path))
    else respond (proxied (rewrite route.target r.inbound r.forwarded (some s)))

unfoldable pub serve_session : Crypto → (Text → Text) → Env → Request → Route → Read → Response
serve_session k escape e r route no_cookie = unauthenticated escape e r
serve_session k escape e r route expired = unauthenticated escape e r
serve_session k escape e r route (unreadable x) = unauthenticated escape e r
serve_session k escape e r route (session s) = authorize k e r route s

abbrev pub read_session : Crypto → Json Data → Env → ℤ → Request → Read
read_session k j e now r =
    read_cookie k j e.runtime.codec now r.cookies e.runtime.config.session.cookie_name

unfoldable pub handle_proxied : Crypto → Json Data → (Text → Text) → Env → ℤ → Request → Response
handle_proxied k j escape e now r = elim (match_route e.runtime.routes r.path) [
  | none ↦ respond (error_page 404)
  | some route ↦ serve_session k escape e r route (read_session k j e now r)
]

abbrev pub max_message_runes : ℕ
max_message_runes = 1024

-- `truncateRunes`, on text whose runes are its bytes
unfoldable pub truncate_runes : Text → ℕ → Text
truncate_runes s max = if leb (length s) max then s else take max s

-- The object that `CreateAccessRequest` creates.
pub record AccessRequest : Type 0 where
  pub console : Text
  pub namespace : Text
  pub subject : Text
  pub message : Text

pub data Created : Type 0 where
  created already_exists conflict failed : Created

abbrev pub created_response : Text → Created → Response
created_response subject failed = respond (error_page 500)
created_response subject _ = respond (confirmation subject)

-- The object for session `s` and its form.
abbrev pub access_request_of : Env → Data → List (Text × Text) → AccessRequest
access_request_of e s form = record {
  console = e.runtime.config.access_request.console_name;
  namespace = e.runtime.config.access_request.namespace;
  subject = s.subject;
  message = truncate_runes (value_of form (codes "message")) max_message_runes;
}

-- The handler behind the session and the switch of the feature. `create` is the API server's answer.
unfoldable pub submit_form :
    Crypto
    → (AccessRequest → Created)
    → Env
    → Data
    → Option (List (Text × Text))
    → Response × List AccessRequest
submit_form k create e s none = (respond (error_page 400), [])
submit_form k create e s (some form) =
    let request = access_request_of e s form in
    if not (is_valid_csrf k e.runtime.codec s (value_of form (codes "csrf")))
    then (respond (error_page 403), [])
    else (created_response s.subject (create request), request ∷ [])

unfoldable pub request_access :
    Crypto → (AccessRequest → Created) → Env → Request → Read → Response × List AccessRequest
request_access k create e r (session s) =
    if not e.runtime.config.access_request.enabled || not e.access_requests
    then (respond (error_page 403), [])
    else submit_form k create e s r.form
request_access k create e r _ = (respond (error_page 401), [])

unfoldable pub handle_access_request :
    Crypto
    → Json Data
    → (AccessRequest → Created)
    → Env
    → ℤ
    → Request
    → Response × List AccessRequest
unfolding request_access
handle_access_request k j create e now r = request_access k create e r (read_session k j e now r)

-- What a token endpoint's failure is: no response at all, or an error code with a status, if known.
pub data Failure : Type 0 where
  unreachable : Failure
  retrieve : Text → Option ℕ → Failure

pub data Message : Type 0 where
  not_reached try_again failed_to_complete refused_to_complete : Message
  client_rejected request_rejected : Text → Message

abbrev pub is_server_error : Option ℕ → Bool
is_server_error none = false
is_server_error (some status) = leb 500 status

unfoldable pub exchange_failure : Failure → ℕ × Message
exchange_failure unreachable = (502, not_reached)
exchange_failure (retrieve code status) =
    if code == codes "invalid_client" || code == codes "unauthorized_client"
    then (500, client_rejected code)
    else if code == codes "invalid_grant"
    then (400, try_again)
    else if code == codes "invalid_request" || code == codes "unsupported_grant_type"
    then (500, request_rejected code)
    else if is_server_error status
    then (502, failed_to_complete)
    else (500, refused_to_complete)
