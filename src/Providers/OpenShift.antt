-- ===== src/Providers/OpenShift.antt =====
-- The OpenShift provider of internal/proxy/openshift/openshift.go. The OAuth server, the API and the
-- file of the client's secret are the fields of `Cluster`; an HTTP response is its status and its
-- body, decoded where it can be.
pub mod Callback
use mathlib.Core.Option
use pg_tool_box.Common.{
  ℕ, Bool, true, false, not, ◌||◌, Option, none, some, List, [], ◌∷◌, ◌++◌, Text, codes, ◌==◌,
  text_eq, nat_eq, trim_space, starts_with, if◌then◌else◌,
}
use pg_tool_box.Common.Dict
use pg_tool_box.Common.Int.{ℤ, ◌+ℤ◌, leb_ℤ}
use pg_tool_box.Config.{mode_openshift, is_empty}
use pg_tool_box.Config.Validate.{Checks}
use pg_tool_box.Providers.Flow.{
  transient_max_age, transient_cookie_name, transient_cookie, fail_with, finish,
}
use pg_tool_box.Server.Handlers.{
  Request, Response, Failure, exchange_failure, respond, redirect, error_page, value_of,
}
use pg_tool_box.Server.Redirect.{safe_redirect}
use pg_tool_box.Server.Runtime.{Env}
use pg_tool_box.Session.{Crypto, Json, Data, opened, refused, seal, open_sealed, unix}

-- `transient`
pub record Transient : Type 0 where
  pub state : Text
  pub verifier : Text
  pub redirect_to : Text
  pub expiry : ℤ

pub record DiscoveryDocument : Type 0 where
  pub issuer : Text
  pub authorization_endpoint : Text
  pub token_endpoint : Text

-- An HTTP response; `body` is `none` where it cannot be read or decoded.
pub record Answer (V : Type 0) : Type 0 where
  pub status : ℕ
  pub body : Option V

-- What `Exchange` returns: an error, or the access token.
pub data Exchanged : Type 0 where
  failed : Failure → Exchanged
  token : Text → Exchanged

pub record Cluster : Type 0 where
  -- AuthCodeURL, for the state and the verifier
  pub auth_code_url : Text → Text → Text
  -- Exchange, for the client's secret, the code and the verifier
  pub exchange : Text → Text → Text → Exchanged
  -- the answer of the discovery endpoint, if it is reached
  pub discovery : Option (Answer DiscoveryDocument)
  -- the name that the current-user endpoint states for an access token, if it is reached
  pub user_info : Text → Option (Answer Text)
  -- the content of the secret's file, if it can be read
  pub secret_file : Option Text

-- The random values of a login, its clock, and the nonce that seals its cookie.
pub record Start : Type 0 where
  pub state : Text
  pub verifier : Text
  pub time : ℤ
  pub seal_nonce : Option Text

unfoldable pub start_flow : Start → Text → Transient
start_flow s rd = record {
  state = s.state;
  verifier = s.verifier;
  redirect_to = rd;
  expiry = unix (s.time +ℤ transient_max_age);
}

-- The body of a response of status 200.
abbrev pub ok_body : {V : Type 0} → Option (Answer V) → Option V
ok_body none = none
ok_body (some a) = if a.status == 200 then a.body else none

-- `discover`; `none` is each of its errors.
unfoldable pub discover : Cluster → Option DiscoveryDocument
discover cl = elim (ok_body cl.discovery) [
  | none ↦ none
  | some doc ↦
      if is_empty doc.authorization_endpoint || is_empty doc.token_endpoint then none else some doc
]

-- `fetchUser`; `none` is each of its errors.
unfoldable pub fetch_user : Cluster → Text → Option Text
fetch_user cl access_token = elim (ok_body (cl.user_info access_token)) [
  | none ↦ none
  | some name ↦ if is_empty name then none else some name
]

-- `readSecretFile`
unfoldable pub read_secret_file : Cluster → Option Text
read_secret_file cl = elim cl.secret_file [
  | none ↦ none
  | some raw ↦ if is_empty (trim_space raw) then none else some (trim_space raw)
]

module _ (k : Crypto) (jt : Json Transient) (c : Checks) (cl : Cluster) (e : Env) where
  unfoldable pub handle_login : Start → Request → Response
  handle_login s r =
      let t = start_flow s (safe_redirect c (value_of r.query (codes "rd"))) in
      elim (seal k jt e.runtime.codec s.seal_nonce t) [
        | none ↦ respond (error_page 500)
        | some value ↦ record {
          cookies = transient_cookie e value ∷ [];
          body = redirect (cl.auth_code_url t.state t.verifier);
        }
      ]

  -- `time.Now().Unix() >= t.Expiry || t.State == "" || t.Verifier == ""`
  unfoldable pub is_spent : ℤ → Transient → Bool
  is_spent now t = leb_ℤ t.expiry (unix now) || is_empty t.state || is_empty t.verifier

  unfoldable pub read_transient : ℤ → Request → Option Transient
  read_transient now r = elim (Dict.lookup (transient_cookie_name e) r.cookies) [
    | none ↦ none
    | some value ↦ elim (open_sealed k jt e.runtime.codec value) [
      | refused x ↦ none
      | opened t ↦ if is_spent now t then none else some t
    ]
  ]

  module _ (j : Json Data) (issued_at : ℤ) (nonce : Option Text) where
    -- From the answer of the token endpoint on.
    unfoldable pub with_token : Transient → Exchanged → Response
    with_token t (failed f) = fail_with e (exchange_failure f).0
    with_token t (token access) =
        if is_empty access then fail_with e 502 else elim (fetch_user cl access) [
          | none ↦ fail_with e 502
          | some subject ↦ finish k j c e issued_at nonce mode_openshift subject t.redirect_to
        ]

    -- From the authorization code on.
    unfoldable pub with_code : Transient → Text → Response
    with_code t code = if is_empty code then fail_with e 400 else elim (read_secret_file cl) [
      | none ↦ fail_with e 500
      | some secret ↦ with_token t (cl.exchange secret code t.verifier)
    ]

    unfoldable pub handle_callback : ℤ → Request → Response
    handle_callback now r =
        if not (is_empty (value_of r.query (codes "error")))
        then fail_with e 400
        else elim (read_transient now r) [
          | none ↦ fail_with e 400
          | some t ↦
              if not (value_of r.query (codes "state") == t.state)
              then fail_with e 400
              else with_code t (value_of r.query (codes "code"))
        ]
