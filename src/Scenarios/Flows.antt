-- ===== src/Scenarios/Flows.antt =====
-- Login flows of the sample's users.
use pg_tool_box.Common.{
  ◌≡◌, ◌++◌, refl, arith, true, none, some, [], ◌∷◌, Text, codes, text_beq, text_eq, to_lower,
  lower_byte, trim_space, trim_left,
}
use pg_tool_box.Common.Dict
use pg_tool_box.Common.Int.{pos, floor_div, trunc_div, ◌+ℤ◌}
use pg_tool_box.Config.{second, cookie_secure}
use pg_tool_box.Providers.Flow.{transient_cookie_name, transient_cookie, cleared, finish, level_of}
use pg_tool_box.Providers.Oidc
use pg_tool_box.Providers.Oidc.Callback
use pg_tool_box.Providers.Oidc.Return
use pg_tool_box.Providers.OpenShift
use pg_tool_box.Providers.OpenShift.Callback as Admission
use pg_tool_box.Scenarios.Sample.{
  sample_crypto, sample_json, sample_laws, sample_checks, sample_env, sample_request, strip_prefix,
  sample_parse, jane, secret_text,
}
use pg_tool_box.Server.Handlers.{Request, redirect, issue_session, value_of}
use pg_tool_box.Server.Redirect.{
  safe_redirect, is_rooted_path, is_scheme_relative, is_forbidden, is_plain_path,
}
use pg_tool_box.Server.Runtime.{lookup_user}
use pg_tool_box.Session.{
  Json, Cookie, session_cookie, set_cookie, clear_cookie, seal, open_sealed, cut_at, new_data,
}

abbrev flow : Oidc.Transient
flow = record {
  state = codes "st";
  nonce = codes "no";
  verifier = codes "ve";
  redirect_to = codes "/";
  expiry = pos 601;
}

-- A payload that carries the state only.
abbrev flow_json : Json Oidc.Transient
flow_json = record { marshal = λ t. t.state; unmarshal = λ s. some (record flow { state = s }) }

abbrev jane_token : Oidc.IdToken
jane_token = record {
  nonce = codes "no";
  claims = some ((codes "email", codes "Jane@corp.example") ∷ []);
}

abbrev idp : Oidc.Idp
idp = record {
  auth_code_url = λ url state nonce verifier. codes "https://idp/?state=" ++ state;
  exchange = λ url code verifier. Oidc.token (some code);
  verify = λ raw. some jane_token;
}

abbrev oidc_provider : Oidc.Provider
oidc_provider = record { redirect_url = []; subject_claim = codes "email" }

abbrev begin : Oidc.Start
begin = record {
  state = codes "st";
  nonce = codes "no";
  verifier = codes "ve";
  time = pos second;
  seal_nonce = some (codes "nn");
}

abbrev flow_value : Text
flow_value = codes "nn" ++ (secret_text ++ codes "st")

abbrev returning : Request
returning = record sample_request {
  query = (codes "state", codes "st") ∷ (codes "code", codes "xyz") ∷ [];
  cookies = (codes "s_oauth", flow_value) ∷ [];
}

-- The cookie of Jane's session.
abbrev given : Cookie
given = record {
  name = codes "s";
  value = codes "nn" ++ (secret_text ++ jane);
  path = codes "/";
  max_age = pos 28800;
  http_only = true;
  secure = true;
  same_site_lax = true;
}

jane_returns :
    (Oidc.handle_callback sample_crypto flow_json sample_checks idp oidc_provider sample_env
      sample_json
      (pos 5)
      (some (codes "nn"))
      (pos second)
      returning).body
    ≡ redirect (codes "/")
unfolding Oidc.handle_callback value_of Dict.lookup text_beq Oidc.read_transient
    transient_cookie_name open_sealed cut_at strip_prefix Oidc.is_spent floor_div
    Oidc.with_transient Oidc.with_token Oidc.with_identity Oidc.with_claims finish issue_session
    set_cookie trunc_div ◌+ℤ◌ lower_byte to_lower cookie_secure cleared level_of safe_redirect
    lookup_user clear_cookie new_data seal session_cookie is_rooted_path is_scheme_relative
    is_forbidden is_plain_path sample_parse
jane_returns = refl

handle_callback_sound_example :
    Callback.IsLogin sample_crypto flow_json sample_checks idp oidc_provider sample_env sample_json
      (pos 5)
      (some (codes "nn"))
      (pos second)
      returning
      (codes "/")
      (Oidc.handle_callback sample_crypto flow_json sample_checks idp oidc_provider sample_env
        sample_json
        (pos 5)
        (some (codes "nn"))
        (pos second)
        returning).cookies
handle_callback_sound_example =
    Callback.handle_callback_sound sample_crypto flow_json sample_checks idp oidc_provider
      sample_env sample_json (pos 5) (some (codes "nn")) (pos second) returning (codes "/")
      jane_returns

jane_IsReturn :
    Return.IsReturn sample_crypto flow_json sample_checks idp oidc_provider sample_env sample_json
      (pos 5)
      (some (codes "nn"))
      begin
      (codes "nn")
      flow_value
      (codes "xyz")
      ((codes "email", codes "Jane@corp.example") ∷ [])
      given
      sample_request
      returning
      (pos second)
      jane_token
unfolding Oidc.handle_login transient_cookie value_of Dict.lookup text_beq seal issue_session
    session_cookie transient_cookie_name floor_div ◌+ℤ◌ set_cookie trunc_div to_lower lower_byte
    cookie_secure level_of lookup_user new_data Oidc.start_flow
jane_IsReturn = record {
  is_started = refl;
  is_sealed = refl;
  others = [];
  sends = refl;
  has_no_error = refl;
  has_state = refl;
  is_in_time = omega arith;
  is_random = (λ h. ground arith, λ h. ground arith, λ h. ground arith);
  is_exchanged = refl;
  has_token = λ h. ground arith;
  is_verified = refl;
  has_nonce = refl;
  are_read = refl;
  has_subject = λ h. ground arith;
  is_issued = refl;
}

flow_restored :
    flow_json.unmarshal (
      flow_json.marshal
        (Oidc.start_flow begin (safe_redirect sample_checks (value_of [] (codes "rd")))))
    ≡ some (Oidc.start_flow begin (safe_redirect sample_checks (value_of [] (codes "rd"))))
unfolding Oidc.start_flow safe_redirect value_of Dict.lookup floor_div ◌+ℤ◌ is_rooted_path
flow_restored = refl

handle_callback-handle_login_example :
    Oidc.handle_callback sample_crypto flow_json sample_checks idp oidc_provider sample_env
      sample_json
      (pos 5)
      (some (codes "nn"))
      (pos second)
      returning
    ≡ record {
      cookies = given ∷ cleared sample_env ∷ [];
      body = redirect (safe_redirect sample_checks (value_of [] (codes "rd")));
    }
handle_callback-handle_login_example =
    Return.handle_callback-handle_login sample_crypto flow_json sample_checks idp oidc_provider
      sample_env sample_json (pos 5) (some (codes "nn")) begin (codes "nn") flow_value (codes "xyz")
      ((codes "email", codes "Jane@corp.example") ∷ []) given sample_request returning (pos second)
      jane_token sample_laws flow_restored refl jane_IsReturn

abbrev shift_flow : OpenShift.Transient
shift_flow = record {
  state = codes "st";
  verifier = codes "ve";
  redirect_to = codes "/";
  expiry = pos 601;
}

abbrev shift_json : Json OpenShift.Transient
shift_json = record {
  marshal = λ t. t.state;
  unmarshal = λ s. some (record shift_flow { state = s });
}

abbrev cluster : OpenShift.Cluster
cluster = record {
  auth_code_url = λ state verifier. codes "https://oauth/?state=" ++ state;
  exchange = λ secret code verifier. OpenShift.token code;
  discovery = none;
  user_info = λ access. some (record { status = 200; body = some jane });
  secret_file = some (codes "sa-token ");
}

jane_returns_to_cluster :
    (OpenShift.handle_callback sample_crypto shift_json sample_checks cluster sample_env sample_json
      (pos 5)
      (some (codes "nn"))
      (pos second)
      returning).body
    ≡ redirect (codes "/")
unfolding OpenShift.handle_callback value_of Dict.lookup text_beq OpenShift.read_transient
    transient_cookie_name open_sealed cut_at strip_prefix OpenShift.is_spent floor_div
    OpenShift.with_code OpenShift.with_token OpenShift.fetch_user OpenShift.read_secret_file
    trim_space trim_left finish issue_session set_cookie trunc_div ◌+ℤ◌ lower_byte to_lower
    cookie_secure cleared level_of safe_redirect lookup_user clear_cookie new_data seal
    session_cookie is_rooted_path is_scheme_relative is_forbidden is_plain_path sample_parse
jane_returns_to_cluster = refl

handle_callback_admits_example :
    Admission.IsLogin sample_crypto shift_json sample_checks cluster sample_env sample_json
      (pos 5)
      (some (codes "nn"))
      (pos second)
      returning
      (codes "/")
      (OpenShift.handle_callback sample_crypto shift_json sample_checks cluster sample_env
        sample_json
        (pos 5)
        (some (codes "nn"))
        (pos second)
        returning).cookies
handle_callback_admits_example =
    Admission.handle_callback_admits sample_crypto shift_json sample_checks cluster sample_env
      sample_json (pos 5) (some (codes "nn")) (pos second) returning (codes "/")
      jane_returns_to_cluster
