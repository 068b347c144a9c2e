-- ===== src/Providers/Oidc.antt =====
-- The OIDC provider of internal/proxy/oidc/oidc.go. The libraries go-oidc and oauth2 are the fields of
-- `Idp`; the random source and the clock are those of `Start` and of the handlers' arguments. A panic
-- of `randomToken` for want of random bytes is not modelled.
pub mod Callback
pub mod Closing
pub mod Return
use mathlib.Core.Option
use pg_tool_box.Common.{
  ℕ, Bool, true, false, not, ◌||◌, Option, none, some, List, [], ◌∷◌, ◌++◌, Text, codes, ◌==◌,
  text_eq, to_lower, if◌then◌else◌,
}
use pg_tool_box.Common.Dict
use pg_tool_box.Common.Int.{ℤ, ◌+ℤ◌, leb_ℤ}
use pg_tool_box.Config.{mode_oidc, is_empty}
use pg_tool_box.Config.Validate.{Checks}
use pg_tool_box.Providers.Flow.{
  transient_max_age, transient_cookie_name, transient_cookie, fail_with, finish,
}
use pg_tool_box.Server.Handlers.{
  Request, Response, Failure, exchange_failure, respond, redirect, error_page, value_of,
}
use pg_tool_box.Server.Headers.{Inbound, get_header}
use pg_tool_box.Server.Redirect.{safe_redirect}
use pg_tool_box.Server.Runtime.{Env}
use pg_tool_box.Session.{Crypto, Json, Data, opened, refused, seal, open_sealed, unix}

-- `transient`
pub record Transient : Type 0 where
  pub state : Text
  pub nonce : Text
  pub verifier : Text
  pub redirect_to : Text
  pub expiry : ℤ

-- A verified ID token: `claims` holds those whose value is a string, `none` where they cannot be read.
pub record IdToken : Type 0 where
  pub nonce : Text
  pub claims : Option (List (Text × Text))

-- What `Exchange` returns: an error, or a token with its "id_token", if that is a string.
pub data Exchanged : Type 0 where
  failed : Failure → Exchanged
  token : Option Text → Exchanged

pub record Idp : Type 0 where
  -- AuthCodeURL, for the redirect URL, the state, the nonce and the verifier
  pub auth_code_url : Text → Text → Text → Text → Text
  -- Exchange, for the redirect URL, the code and the verifier
  pub exchange : Text → Text → Text → Exchanged
  pub verify : Text → Option IdToken

-- `Provider`
pub record Provider : Type 0 where
  pub redirect_url : Text
  pub subject_claim : Text

abbrev pub callback_path : Text
callback_path = codes "/auth/oidc/callback"

-- The random values of a login, its clock, and the nonce that seals its cookie.
pub record Start : Type 0 where
  pub state : Text
  pub nonce : Text
  pub verifier : Text
  pub time : ℤ
  pub seal_nonce : Option Text

unfoldable pub override : Text → Text → Text
override header value = if is_empty header then value else header

-- `requestOrigin`
unfoldable pub request_origin : Inbound → Text
unfolding override
request_origin i =
    override (get_header i.headers (codes "X-Forwarded-Proto"))
      (if i.tls then codes "https" else codes "http")
    ++ codes "://"
    ++ override (get_header i.headers (codes "X-Forwarded-Host")) i.host

-- `configFor`, of whose result only the redirect URL varies
unfoldable pub config_for : Provider → Inbound → Text
config_for p i =
    if is_empty p.redirect_url then request_origin i ++ callback_path else p.redirect_url

unfoldable pub start_flow : Start → Text → Transient
start_flow s rd = record {
  state = s.state;
  nonce = s.nonce;
  verifier = s.verifier;
  redirect_to = rd;
  expiry = unix (s.time +ℤ transient_max_age);
}

module _ (k : Crypto) (jt : Json Transient) (c : Checks) (idp : Idp) (p : Provider) (e : Env) where
  unfoldable pub handle_login : Start → Request → Response
  handle_login s r =
      let t = start_flow s (safe_redirect c (value_of r.query (codes "rd"))) in
      elim (seal k jt e.runtime.codec s.seal_nonce t) [
        | none ↦ respond (error_page 500)
        | some value ↦ record {
          cookies = transient_cookie e value ∷ [];
          body = redirect (idp.auth_code_url (config_for p r.inbound) t.state t.nonce t.verifier);
        }
      ]

  -- `time.Now().Unix() >= t.Expiry || t.State == "" || t.Nonce == "" || t.Verifier == ""`
  unfoldable pub is_spent : ℤ → Transient → Bool
  is_spent now t =
      leb_ℤ t.expiry (unix now) || is_empty t.state || is_empty t.nonce || is_empty t.verifier

  unfoldable pub read_transient : ℤ → Request → Option Transient
  read_transient now r = elim (Dict.lookup (transient_cookie_name e) r.cookies) [
    | none ↦ none
    | some value ↦ elim (open_sealed k jt e.runtime.codec value) [
      | refused x ↦ none
      | opened t ↦ if is_spent now t then none else some t
    ]
  ]

  module _ (j : Json Data) (issued_at : ℤ) (nonce : Option Text) where
    -- From the claims on.
    unfoldable pub with_claims : Transient → List (Text × Text) → Response
    with_claims t claims =
        let subject = value_of claims p.subject_claim in
        if is_empty subject
        then fail_with e 403
        else finish k j c e issued_at nonce mode_oidc (to_lower subject) t.redirect_to

    -- From the comparison of the nonces on.
    unfoldable pub with_identity : Transient → IdToken → Response
    with_identity t id =
        if not (id.nonce == t.nonce)
        then fail_with e 400
        else elim id.claims [ none ↦ fail_with e 502 | some claims ↦ with_claims t claims ]

    -- From the answer of the token endpoint on.
    unfoldable pub with_token : Transient → Exchanged → Response
    with_token t (failed f) = fail_with e (exchange_failure f).0
    with_token t (token none) = fail_with e 502
    with_token t (token (some raw)) =
        if is_empty raw
        then fail_with e 502
        else elim (idp.verify raw) [ none ↦ fail_with e 400 | some id ↦ with_identity t id ]

    -- From the comparison of the states on.
    unfoldable pub with_transient : Request → Transient → Response
    with_transient r t =
        if not (value_of r.query (codes "state") == t.state)
        then fail_with e 400
        else with_token t
            (idp.exchange (config_for p r.inbound) (value_of r.query (codes "code")) t.verifier)

    unfoldable pub handle_callback : ℤ → Request → Response
    handle_callback now r =
        if not (is_empty (value_of r.query (codes "error")))
        then fail_with e 400
        else elim (read_transient now r) [ none ↦ fail_with e 400 | some t ↦ with_transient r t ]
