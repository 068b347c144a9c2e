-- ===== src/Server/Handlers/Issued.antt =====
-- From the session that a login issues to the upstream.
use pg_tool_box.Common.{
  ◌≡◌, ◌≢◌, some, List, [], ◌∷◌, Text, length, Bool-cases, sym, inl, inr, if◌then◌else◌, ap, ◌∙◌,
  refl,
}
use pg_tool_box.Common.Int.{ℤ, ◌≤ℤ◌, ltb_ℤ}
use pg_tool_box.Config.{rank, cookie_secure}
use pg_tool_box.Server.Handlers.{
  Request, respond, proxied, issue_session, read_session, unauthenticated, serve_session,
  handle_proxied,
}
use pg_tool_box.Server.Handlers.Gate.{handle_proxied_complete}
use pg_tool_box.Server.Headers.{rewrite}
use pg_tool_box.Server.Routing.{Route, match_route}
use pg_tool_box.Server.Runtime.{Env}
use pg_tool_box.Session.{Crypto, Json, Data, Cookie, session, expired, new_data, unix}
use pg_tool_box.Session.Lifetime.{set_cookie_lifetime}
use pg_tool_box.Session.Rotation.{SealLaws}

module _ (k : Crypto) (j : Json Data) (escape : Text → Text) (e : Env) where
  -- What a browser meets that sends the cookie of a session back: it is forwarded under the session's
  -- identity, or told to log in.
  abbrev pub Serves : ℤ → Request → Route → Data → Type 0
  Serves later r route d = handle_proxied k j escape e later r ≡ (
      if ltb_ℤ (unix later) d.expiry
      then respond (proxied (rewrite route.target r.inbound r.forwarded (some d)))
      else unauthenticated escape e r)

  served :
      (later : ℤ) (r : Request) (route : Route) (d : Data)
      → match_route e.runtime.routes r.path ≡ some route
      → rank route.min_level ≤ℤ rank d.level
      → read_session k j e later r ≡ (if ltb_ℤ (unix later) d.expiry then session d else expired)
      → Serves later r route d
  unfolding handle_proxied serve_session
  served later r route d m ranked read = elim (Bool-cases (ltb_ℤ (unix later) d.expiry)) [
    | inl soon ↦
        handle_proxied_complete k j escape e later r route d m
          (read ∙ ap (λ b. if b then session d else expired) soon) ranked
        ∙ ap
            (λ b.
              if b
              then respond (proxied (rewrite route.target r.inbound r.forwarded (some d)))
              else unauthenticated escape e r)
            (sym soon)
    | inr late ↦ rw (handle_proxied, m, read, late, serve_session) refl
  ]

  -- The cookie that a login of a subject sets, sent back at any later time on a path whose route asks
  -- for no higher level than the login gave: until the session's expiry, one lifetime after the login,
  -- the request is forwarded under the subject and the level of the login, and from then on it is
  -- answered as without a session.
  pub issue_session-forwards :
      (now later : ℤ) (nonce subject level mode : Text) (cookie : Cookie) (r : Request)
      (route : Route) (others : List (Text × Text))
      → let d = new_data now subject level mode e.runtime.config.session.max_age in
        SealLaws k
        → j.unmarshal (j.marshal d) ≡ some d
        → length nonce ≡ k.nonce_size
        → subject ≢ []
        → issue_session k j e now (some nonce) subject level mode ≡ some cookie
        → r.cookies ≡ (cookie.name, cookie.value) ∷ others
        → match_route e.runtime.routes r.path ≡ some route
        → rank route.min_level ≤ℤ rank level
        → Serves later r route d
  unfolding issue_session new_data
  issue_session-forwards now later nonce subject level mode cookie r route others laws json sized
        named issues sent m ranked =
      let s = e.runtime.config.session in
      let d = new_data now subject level mode s.max_age in
      served later r route d m ranked (
        rw sent (
          set_cookie_lifetime k j e.runtime.codec nonce s.cookie_name (cookie_secure s) s.max_age d
            cookie later others laws json sized named issues))
