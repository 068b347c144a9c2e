-- ===== src/Scenarios/Proxy.antt =====
-- Requests to the sample's proxy.
use mathlib.Core.List.{Mem}
use mathlib.Core.Bool.{Bool-set}
use pg_tool_box.Common.{
  ◌*◌, ◌≤◌, Mem-All, ◌≡◌, refl, arith, true, none, some, List, [], ◌∷◌, codes, text_beq,
  starts_with, text_eq, length,
}
use pg_tool_box.Common.Decimal.{format_int}
use pg_tool_box.Common.Dict
use pg_tool_box.Common.Int.{ℤ, pos, negsuc, floor_div, trunc_div, ◌+ℤ◌, ◌≤ℤ◌}
use pg_tool_box.Config.{second, rank, cookie_secure}
use pg_tool_box.Scenarios.Sample.{
  sample_crypto, sample_json, sample_checks, sample_env, sample_request, jane_data, local_url,
  root_route, pgadmin_route, strip_prefix, jane, jane_cookie, sample_laws,
}
use pg_tool_box.Server.Handlers.{
  respond, proxied, AccessRequest, created, handle_proxied, handle_access_request, read_session,
  confirmation, issue_session, submit_form, truncate_runes, value_of,
}
use pg_tool_box.Server.Handlers.Gate.{IsAdmitted, handle_proxied_sound, handle_proxied_complete}
use pg_tool_box.Server.Handlers.Issued.{Serves, issue_session-forwards}
use pg_tool_box.Server.Handlers.Requests.{IsEntitled, handle_access_request_sound}
use pg_tool_box.Server.Headers.{rewrite, header_user, header_level, header_groups, Outbound}
use pg_tool_box.Server.Headers.Hygiene.{rewrite_identity, IsProxyHeader}
use pg_tool_box.Server.Redirect.{safe_redirect}
use pg_tool_box.Server.Redirect.Origin.{IsLocalPath, browser_view, safe_redirect_local}
use pg_tool_box.Server.Routing.{Route, match_route, sort_routes, sort_rounds, swap_pass}
use pg_tool_box.Server.Routing.Longest.{Matches, match_route_longest}
use pg_tool_box.Session.{
  Cookie, set_cookie, seal, session_cookie, new_data, session, read_cookie, open_sealed, cut_at,
  is_valid, is_valid_csrf, csrf_message,
}

abbrev noon : ℤ
noon = pos (999 * second)

abbrev forwarded_request : Outbound
forwarded_request =
    rewrite local_url sample_request.inbound sample_request.forwarded (some jane_data)

jane_read :
    read_session sample_crypto sample_json sample_env noon sample_request ≡ session jane_data
unfolding read_cookie Dict.lookup open_sealed cut_at strip_prefix is_valid floor_div text_beq
jane_read = refl

jane_route : match_route sample_env.runtime.routes sample_request.path ≡ some pgadmin_route
unfolding match_route starts_with text_beq
jane_route = refl

dba_ranks : rank pgadmin_route.min_level ≤ℤ rank jane_data.level
unfolding rank text_beq
dba_ranks = omega arith

forwarded_lem :
    handle_proxied sample_crypto sample_json (λ t. t) sample_env noon sample_request
    ≡ respond (proxied forwarded_request)
forwarded_lem =
    handle_proxied_complete sample_crypto sample_json (λ t. t) sample_env noon sample_request
      pgadmin_route jane_data jane_route jane_read dba_ranks

admitted :
    (handle_proxied sample_crypto sample_json (λ t. t) sample_env noon sample_request).body
    ≡ proxied forwarded_request
admitted = rw forwarded_lem

handle_proxied_sound_example :
    IsAdmitted sample_crypto sample_json sample_env noon sample_request forwarded_request
handle_proxied_sound_example =
    handle_proxied_sound sample_crypto sample_json (λ t. t) sample_env noon sample_request
      forwarded_request admitted

-- A login eight hours before the expiry of Jane's session.
abbrev login_time : ℤ
login_time = negsuc 27799999999999

abbrev given : Cookie
given = record {
  name = codes "s";
  value = jane_cookie;
  path = codes "/";
  max_age = pos 28800;
  http_only = true;
  secure = true;
  same_site_lax = true;
}

jane_issued :
    issue_session sample_crypto sample_json sample_env login_time
      (some (codes "nn"))
      jane
      (codes "dba")
      (codes "local")
    ≡ some given
unfolding issue_session set_cookie seal session_cookie cookie_secure new_data floor_div trunc_div
    ◌+ℤ◌
jane_issued = refl

jane_restored :
    sample_json.unmarshal (
      sample_json.marshal (
        new_data login_time jane
          (codes "dba")
          (codes "local")
          sample_env.runtime.config.session.max_age))
    ≡ some (
        new_data login_time jane
          (codes "dba")
          (codes "local")
          sample_env.runtime.config.session.max_age)
unfolding new_data floor_div ◌+ℤ◌
jane_restored = refl

issue_session-forwards_example :
    Serves sample_crypto sample_json
      (λ t. t)
      sample_env
      noon
      sample_request
      pgadmin_route
      (new_data login_time jane
        (codes "dba")
        (codes "local")
        sample_env.runtime.config.session.max_age)
issue_session-forwards_example =
    issue_session-forwards sample_crypto sample_json (λ t. t) sample_env login_time noon
      (codes "nn") jane (codes "dba") (codes "local") given sample_request pgadmin_route []
      sample_laws jane_restored refl (λ e. cc) jane_issued refl jane_route dba_ranks

rewrite_identity_example :
    (Dict.lookup header_user forwarded_request.headers ≡ some (jane ∷ []))
    × (Dict.lookup header_level forwarded_request.headers ≡ some (codes "dba" ∷ []))
    × (Dict.lookup header_groups forwarded_request.headers ≡ none)
rewrite_identity_example =
    rewrite_identity local_url sample_request.inbound sample_request.forwarded jane_data

accept_is_other : ¬ IsProxyHeader (codes "Accept")
accept_is_other h = ground arith

abbrev please : AccessRequest
please = record {
  console = codes "main";
  namespace = codes "db";
  subject = jane;
  message = codes "please";
}

asked :
    handle_access_request sample_crypto sample_json (λ x. created) sample_env noon sample_request
    ≡ (respond (confirmation jane), please ∷ [])
unfolding handle_access_request read_cookie Dict.lookup open_sealed cut_at strip_prefix is_valid
    floor_div text_beq submit_form truncate_runes value_of is_valid_csrf csrf_message format_int
asked = refl

asked_object :
    (handle_access_request sample_crypto sample_json
      (λ x. created)
      sample_env
      noon
      sample_request).1
    ≡ please ∷ []
asked_object = rw asked

handle_access_request_sound_example :
    IsEntitled sample_crypto sample_json sample_env noon sample_request please
    × (◌≡◌ {A = List AccessRequest} [] [])
handle_access_request_sound_example =
    handle_access_request_sound sample_crypto sample_json (λ x. created) sample_env noon
      sample_request please [] asked_object

confirmed_page :
    (handle_access_request sample_crypto sample_json
      (λ x. created)
      sample_env
      noon
      sample_request).0.body
    ≡ confirmation jane
confirmed_page = rw asked

safe_redirect_local_example :
    IsLocalPath (browser_view (safe_redirect sample_checks (47 ∷ 9 ∷ 47 ∷ codes "evil.example")))
safe_redirect_local_example = safe_redirect_local sample_checks (47 ∷ 9 ∷ 47 ∷ codes "evil.example")

abbrev table : List Route
table = root_route ∷ pgadmin_route ∷ []

abbrev turned : List Route
turned = pgadmin_route ∷ root_route ∷ []

chosen : match_route (sort_routes table) (codes "/pgadmin/x") ≡ some pgadmin_route
unfolding match_route sort_routes sort_rounds swap_pass starts_with text_beq
chosen = refl

match_route_longest_example :
    Mem pgadmin_route table
    × Matches (codes "/pgadmin/x") pgadmin_route
    × ((x : Route) → Mem x table → Matches (codes "/pgadmin/x") x → length x.prefix ≤ 8)
match_route_longest_example = match_route_longest table (codes "/pgadmin/x") pgadmin_route chosen

table_rooted : (x : Route) → Mem x table → starts_with x.prefix (codes "/") ≡ true
unfolding starts_with
table_rooted x m =
    Mem-All (λ r. starts_with r.prefix (codes "/") ≡ true) (λ r. Bool-set _ _) table
      (refl, (refl, tt)) m
