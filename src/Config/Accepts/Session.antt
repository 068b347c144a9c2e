-- ===== src/Config/Accepts/Session.antt =====
-- The parts of the configuration without a table: session, server, access requests.
use pg_tool_box.Common.{
  ℕ, suc, ◌≤◌, true, List, [], ◌∷◌, ◌≡◌, ◌≢◌, ◌↔◌, refl, arith, Text, length, All,
}
use pg_tool_box.Common.Int.{pos, ◌≤ℤ◌}
use pg_tool_box.Config.{SessionConfig, ServerConfig, AccessRequestConfig}
use pg_tool_box.Config.Validate.{
  validate_session, validate_server, validate_access_request, secret_problems, is_cookie_byte,
  is_cookie_name_valid, min_secret_length,
}

pub record IsValidSession (s : SessionConfig) : Type 0 where
  pub named : s.cookie_name ≢ []
  pub cookie_safe : All (λ r. is_cookie_byte r ≡ true) s.cookie_name
  pub keyed : s.cookie_secrets ≢ []
  pub secrets_long : All (λ x. min_secret_length ≤ length x) s.cookie_secrets
  pub lives : pos 1 ≤ℤ s.max_age

pub record IsValidServer (s : ServerConfig) : Type 0 where
  pub listens : s.listen ≢ []
  pub dials : pos 1 ≤ℤ s.upstream_dial_timeout
  pub waits : pos 1 ≤ℤ s.upstream_response_header_timeout

secrets_iff :
    (i : ℕ) (l : List Text) → (secret_problems i l ≡ []) ↔ All (λ x. min_secret_length ≤ length x) l
unfolding secret_problems
secrets_iff i [] = (λ _. tt, λ _. refl)
secrets_iff i (s ∷ l) = ground (arith, secrets_iff (suc i) l)

pub cookie_name_iff :
    (l : Text) → (is_cookie_name_valid l ≡ true) ↔ All (λ r. is_cookie_byte r ≡ true) l
unfolding is_cookie_name_valid
cookie_name_iff [] = (λ _. tt, λ _. refl)
cookie_name_iff (c ∷ l) = ground (arith, cookie_name_iff l)

pub session_iff : (s : SessionConfig) → (validate_session s ≡ []) ↔ IsValidSession s
unfolding validate_session
session_iff s = ground (arith, secrets_iff 0 s.cookie_secrets, cookie_name_iff s.cookie_name)

pub server_iff : (s : ServerConfig) → (validate_server s ≡ []) ↔ IsValidServer s
unfolding validate_server
server_iff s = ground arith

pub access_request_iff :
    (a : AccessRequestConfig)
    → (validate_access_request a ≡ [])
      ↔ (a.enabled ≡ true → (a.console_name ≢ []) × (a.namespace ≢ []))
unfolding validate_access_request
access_request_iff a = ground arith
