-- ===== src/Server/Handlers/Gate.antt =====
-- Which requests reach an upstream.
use pg_tool_box.Common.{◌≡◌, ◌≢◌, inl, inr, refl, arith, some, [], Text, text_eq, Option-cases}
use pg_tool_box.Common.Dict
use pg_tool_box.Common.Int.{ℤ, ◌≤ℤ◌}
use pg_tool_box.Config.{rank}
use pg_tool_box.Server.Headers.{Outbound, rewrite}
use pg_tool_box.Server.Routing.{Route, match_route}
use pg_tool_box.Server.Runtime.{Env}
use pg_tool_box.Server.Handlers.{
  Request, proxied, respond, unauthenticated, authorize, serve_session, read_session,
  handle_proxied, render_denied_unknown,
}
use pg_tool_box.Session.{Crypto, Json, Data, Read, session}
use pg_tool_box.Session.Lifetime.{Before, read_cookie_sound}
use pg_tool_box.Session.Rotation.{IsAuthentic}
use pg_tool_box.Session.{unix}

-- Why a request was forwarded.
pub record IsAdmitted (k : Crypto) (j : Json Data) (e : Env) (now : ℤ) (r : Request)
    (out : Outbound) : Type 0 where
  pub route : Route
  pub matched : match_route e.runtime.routes r.path ≡ some route
  pub user : Data
  pub value : Text
  pub sent : Dict.lookup e.runtime.config.session.cookie_name r.cookies ≡ some value
  pub authentic : IsAuthentic k j e.runtime.codec value user
  pub named : user.subject ≢ []
  pub unexpired : Before (unix now) user.expiry
  pub ranked : rank route.min_level ≤ℤ rank user.level
  pub forwarded : out ≡ rewrite route.target r.inbound r.forwarded (some user)

authorize_proxied :
    (k : Crypto) (e : Env) (r : Request) (route : Route) (s : Data) (out : Outbound)
    → (authorize k e r route s).body ≡ proxied out
    → (rank route.min_level ≤ℤ rank s.level)
      × (out ≡ rewrite route.target r.inbound r.forwarded (some s))
unfolding authorize render_denied_unknown
authorize_proxied k e r route s out h = ground arith

serve_session_proxied :
    (k : Crypto) (escape : Text → Text) (e : Env) (r : Request) (route : Route) (x : Read)
    (out : Outbound)
    → (serve_session k escape e r route x).body ≡ proxied out
    → (s : Data) × (x ≡ session s) × ((authorize k e r route s).body ≡ proxied out)
unfolding serve_session unauthenticated
serve_session_proxied k escape e r route (session s) out h = (s, refl, h)
serve_session_proxied k escape e r route _ out h = absurd (ground arith)

-- A request is forwarded only on the strength of a cookie that a configured key decrypts, which names
-- a subject and has not expired, whose level ranks no lower than the matched route demands.
pub handle_proxied_sound :
    (k : Crypto) (j : Json Data) (escape : Text → Text) (e : Env) (now : ℤ) (r : Request)
    (out : Outbound)
    → (handle_proxied k j escape e now r).body ≡ proxied out
    → IsAdmitted k j e now r out
unfolding handle_proxied
handle_proxied_sound k j escape e now r out h =
    elim (Option-cases (match_route e.runtime.routes r.path)) [
      | inl m ↦ absurd (ground arith)
      | inr (route, m) ↦
          let (s, read, a) =
            serve_session_proxied k escape e r route (read_session k j e now r) out
              (ground arith) in
          let (ranked, forwarded) = authorize_proxied k e r route s out a in
          let (value, sent, authentic, named, unexpired) =
            read_cookie_sound k j _ now r.cookies _ s read in
          record {
            route = route;
            matched = m;
            user = s;
            value = value;
            sent = sent;
            authentic = authentic;
            named = named;
            unexpired = unexpired;
            ranked = ranked;
            forwarded = forwarded;
          }
    ]

-- A request with an accepted session whose level ranks no lower than the matched route demands is
-- forwarded to that route's upstream under the session's identity.
pub handle_proxied_complete :
    (k : Crypto) (j : Json Data) (escape : Text → Text) (e : Env) (now : ℤ) (r : Request)
    (route : Route) (s : Data)
    → match_route e.runtime.routes r.path ≡ some route
    → read_session k j e now r ≡ session s
    → rank route.min_level ≤ℤ rank s.level
    → handle_proxied k j escape e now r
      ≡ respond (proxied (rewrite route.target r.inbound r.forwarded (some s)))
unfolding handle_proxied serve_session authorize
handle_proxied_complete k j escape e now r route s m read ranked =
    rw (handle_proxied, m, read, serve_session) (ground arith)
