-- ===== src/Config/Validate.antt =====
-- internal/proxy/config/validate.go: `Validate` and `warnings`. One constructor of `Problem` stands for
-- one message; it keeps the index that the message names. `url.Parse`, `bcrypt.Cost` and
-- `net.ParseIP` are parameters: only their results are read.
use pg_tool_box.Common.{
  ℕ, suc, Bool, true, false, Option, none, some, List, [], ◌∷◌, ◌++◌, Text, codes, ◌==◌, ltb, leb,
  if◌then◌else◌, text_eq, not, ◌||◌, ◌&&◌, any, all, length, starts_with, contains, to_lower,
  nat_eq,
}
use pg_tool_box.Common.Int.{pos, leb_ℤ}
use pg_tool_box.Config.{
  Config, SessionConfig, ServerConfig, ProviderConfig, OidcConfig, OpenShiftConfig, User,
  RouteConfig, AccessRequestConfig, is_valid_level, local_enabled, is_empty, mode_oidc, mode_local,
  mode_openshift, reserved_prefixes, set_defaults,
}

-- The fields of a `url.URL` that the code reads.
pub record Url : Type 0 where
  pub scheme : Text
  pub host : Text
  pub opaque : Text
  -- `u.Hostname()`: the host without its port
  pub hostname : Text

pub record Checks : Type 0 where
  pub parse_url : Text → Option Url
  -- `bcrypt.Cost` returns no error
  pub is_bcrypt_hash : Text → Bool
  -- `net.ParseIP` gives an address, and that is a loopback address
  pub is_loopback_ip : Text → Bool

pub data Problem : Type 0 where
  cookie_name_required cookie_name_invalid cookie_secrets_required max_age_not_positive : Problem
  cookie_secret_too_short : ℕ → Problem
  listen_required dial_timeout_not_positive response_header_timeout_not_positive : Problem
  modes_required : Problem
  mode_invalid mode_twice : Text → Problem
  oidc_required oidc_unused openshift_required openshift_unused : Problem
  oidc_issuer_url_required oidc_issuer_url_not_https oidc_client_id_required : Problem
  oidc_client_secret_file_required oidc_redirect_url_not_absolute oidc_scopes_empty : Problem
  oidc_subject_claim_empty : Problem
  openshift_client_id_required openshift_client_secret_file_required : Problem
  openshift_redirect_url_required openshift_redirect_url_not_absolute : Problem
  openshift_discovery_url_not_absolute openshift_api_url_not_absolute : Problem
  openshift_scopes_empty openshift_user_info_path_invalid : Problem
  user_subject_required user_subject_duplicate user_level_invalid : ℕ → Problem
  user_hash_without_local user_hash_invalid : ℕ → Problem
  routes_required : Problem
  route_prefix_invalid route_prefix_dots route_prefix_duplicate : ℕ → Problem
  route_prefix_reserved : ℕ → Text → Problem
  route_upstream_required route_upstream_not_absolute route_level_invalid : ℕ → Problem
  console_name_required namespace_required : Problem

abbrev pub min_secret_length : ℕ
min_secret_length = 16

-- `if test { errs = append(errs, problem) }`
abbrev pub report : Bool → Problem → List Problem
report test problem = if test then problem ∷ [] else []

-- One character of `isCookieNameValid`; a character outside ASCII fails every test, as its bytes do.
unfoldable pub is_cookie_byte : ℕ → Bool
is_cookie_byte r =
    r == b'!'
    || leb b'#' r && leb r b'+'
    || leb b'-' r && leb r b'.'
    || leb b'0' r && leb r b'9'
    || leb b'A' r && leb r b'Z'
    || leb b'^' r && leb r b'z'
    || r == b'|'
    || r == b'~'

unfoldable pub is_cookie_name_valid : Text → Bool
is_cookie_name_valid name = all is_cookie_byte name

unfoldable pub secret_problems : ℕ → List Text → List Problem
secret_problems i [] = []
secret_problems i (s ∷ rest) =
    report (ltb (length s) min_secret_length) (cookie_secret_too_short i)
    ++ secret_problems (suc i) rest

unfoldable pub validate_session : SessionConfig → List Problem
validate_session s =
    (if is_empty s.cookie_name
      then cookie_name_required ∷ []
      else report (not (is_cookie_name_valid s.cookie_name)) cookie_name_invalid)
    ++ (report (is_empty s.cookie_secrets) cookie_secrets_required
        ++ (secret_problems 0 s.cookie_secrets
            ++ report (leb_ℤ s.max_age (pos 0)) max_age_not_positive))

unfoldable pub validate_server : ServerConfig → List Problem
validate_server s =
    report (is_empty s.listen) listen_required
    ++ (report (leb_ℤ s.upstream_dial_timeout (pos 0)) dial_timeout_not_positive
        ++ report (leb_ℤ s.upstream_response_header_timeout (pos 0))
            response_header_timeout_not_positive)

abbrev pub is_known_mode : Text → Bool
is_known_mode mode = mode == mode_oidc || mode == mode_local || mode == mode_openshift

abbrev pub is_seen : Text → List Text → Bool
is_seen key seen = any (λ s. s == key) seen

-- The loop over the modes: its errors, and the set `seen` after it.
unfoldable pub check_modes : List Text → List Text → List Problem × List Text
check_modes [] seen = ([], seen)
check_modes (mode ∷ rest) seen =
    let known = is_known_mode mode in
    let (errs, final) = check_modes rest (if known then mode ∷ seen else seen) in
    (
      (if known then report (is_seen mode seen) (mode_twice mode) else mode_invalid mode ∷ [])
          ++ errs,
      final,
    )

module _ (k : Checks) where
  -- `err != nil || u.Scheme != "https" || u.Host == ""`, negated
  unfoldable pub is_https_url : Text → Bool
  is_https_url s = elim (k.parse_url s) [
    | none ↦ false
    | some u ↦ u.scheme == codes "https" && not (is_empty u.host)
  ]

  -- `err != nil || (u.Scheme != "https" && u.Scheme != "http") || u.Host == ""`, negated
  unfoldable pub is_absolute_url : Text → Bool
  is_absolute_url s = elim (k.parse_url s) [
    | none ↦ false
    | some u ↦ (u.scheme == codes "https" || u.scheme == codes "http") && not (is_empty u.host)
  ]

  unfoldable pub validate_oidc : OidcConfig → List Problem
  validate_oidc o =
      (if is_empty o.issuer_url
        then oidc_issuer_url_required ∷ []
        else report (not (is_https_url o.issuer_url)) oidc_issuer_url_not_https)
      ++ (report (is_empty o.client_id) oidc_client_id_required
          ++ (report (is_empty o.client_secret_file) oidc_client_secret_file_required
              ++ (report (not (is_empty o.redirect_url) && not (is_absolute_url o.redirect_url))
                    oidc_redirect_url_not_absolute
                  ++ (report (is_empty o.scopes) oidc_scopes_empty
                      ++ report (is_empty o.subject_claim) oidc_subject_claim_empty))))

  unfoldable pub validate_openshift : OpenShiftConfig → List Problem
  validate_openshift o =
      report (is_empty o.client_id) openshift_client_id_required
      ++ (report (is_empty o.client_secret_file) openshift_client_secret_file_required
          ++ ((if is_empty o.redirect_url
                then openshift_redirect_url_required ∷ []
                else report (not (is_absolute_url o.redirect_url))
                    openshift_redirect_url_not_absolute)
              ++ (report (not (is_empty o.discovery_url) && not (is_absolute_url o.discovery_url))
                    openshift_discovery_url_not_absolute
                  ++ (report (not (is_empty o.api_url) && not (is_absolute_url o.api_url))
                        openshift_api_url_not_absolute
                      ++ (report (is_empty o.scopes) openshift_scopes_empty
                          ++ report
                              (not (is_empty o.user_info_path)
                                && not (starts_with o.user_info_path (codes "/")))
                              openshift_user_info_path_invalid)))))

  unfoldable pub oidc_problems : Bool → Option OidcConfig → List Problem
  oidc_problems true none = oidc_required ∷ []
  oidc_problems true (some o) = validate_oidc o
  oidc_problems false none = []
  oidc_problems false (some o) = oidc_unused ∷ []

  unfoldable pub openshift_problems : Bool → Option OpenShiftConfig → List Problem
  openshift_problems true none = openshift_required ∷ []
  openshift_problems true (some o) = validate_openshift o
  openshift_problems false none = []
  openshift_problems false (some o) = openshift_unused ∷ []

  unfoldable pub validate_provider : ProviderConfig → List Problem
  validate_provider p =
      let (errs, seen) = check_modes p.modes [] in
      if is_empty p.modes
      then modes_required ∷ []
      else errs
        ++ (oidc_problems (is_seen mode_oidc seen) p.oidc
            ++ openshift_problems (is_seen mode_openshift seen) p.openshift)

  -- The body of the loop of `validateUsers`; `enabled` is `c.LocalEnabled()`.
  unfoldable pub user_problems : Bool → ℕ → List Text → User → List Problem
  user_problems enabled i seen u =
      (if is_empty u.subject
        then user_subject_required i ∷ []
        else report (is_seen (to_lower u.subject) seen) (user_subject_duplicate i))
      ++ (report (not (is_valid_level u.level)) (user_level_invalid i)
          ++ (if is_empty u.local_password_bcrypt
              then []
              else if not enabled
              then user_hash_without_local i ∷ []
              else report (not (k.is_bcrypt_hash u.local_password_bcrypt)) (user_hash_invalid i)))

  unfoldable pub users_problems : Bool → ℕ → List Text → List User → List Problem
  users_problems enabled i seen [] = []
  users_problems enabled i seen (u ∷ rest) =
      user_problems enabled i seen u
      ++ users_problems enabled (suc i)
          (if is_empty u.subject then seen else to_lower u.subject ∷ seen) rest

  unfoldable pub validate_users : Config → List Problem
  validate_users c = users_problems (local_enabled c) 0 [] c.users

-- `r.PathPrefix == res || strings.HasPrefix(r.PathPrefix, res+"/")`
unfoldable pub collides : Text → Text → Bool
collides prefix res = prefix == res || starts_with prefix (res ++ codes "/")

unfoldable pub reserved_problems : ℕ → Text → List Text → List Problem
reserved_problems i prefix [] = []
reserved_problems i prefix (res ∷ rest) =
    report (collides prefix res) (route_prefix_reserved i res) ++ reserved_problems i prefix rest

-- `r.PathPrefix == "" || !strings.HasPrefix(r.PathPrefix, "/")`, negated
unfoldable pub is_rooted : Text → Bool
is_rooted prefix = not (is_empty prefix) && starts_with prefix (codes "/")

unfoldable pub prefix_problems : ℕ → List Text → Text → List Problem
prefix_problems i seen prefix =
    if is_rooted prefix
    then report (contains prefix (codes "..")) (route_prefix_dots i)
      ++ (report (is_seen prefix seen) (route_prefix_duplicate i)
          ++ reserved_problems i prefix reserved_prefixes)
    else route_prefix_invalid i ∷ []

module _ (k : Checks) where
  unfoldable pub route_problems : ℕ → List Text → RouteConfig → List Problem
  route_problems i seen r =
      prefix_problems i seen r.path_prefix
      ++ ((if is_empty r.upstream
            then route_upstream_required i ∷ []
            else report (not (is_absolute_url k r.upstream)) (route_upstream_not_absolute i))
          ++ report (not (is_valid_level r.min_level)) (route_level_invalid i))

  unfoldable pub routes_problems : ℕ → List Text → List RouteConfig → List Problem
  routes_problems i seen [] = []
  routes_problems i seen (r ∷ rest) =
      route_problems i seen r
      ++ routes_problems (suc i) (if is_rooted r.path_prefix then r.path_prefix ∷ seen else seen)
          rest

  unfoldable pub validate_routes : List RouteConfig → List Problem
  validate_routes [] = routes_required ∷ []
  validate_routes (r ∷ rest) = routes_problems 0 [] (r ∷ rest)

unfoldable pub validate_access_request : AccessRequestConfig → List Problem
validate_access_request a =
    if not a.enabled
    then []
    else report (is_empty a.console_name) console_name_required
      ++ report (is_empty a.namespace) namespace_required

-- `errors.Join` of an empty list is nil: the configuration is accepted when no problem is listed.
unfoldable pub validate : Checks → Config → List Problem
validate k c =
    validate_session c.session
    ++ (validate_server c.server
        ++ (validate_provider k c.provider
            ++ (validate_users k c
                ++ (validate_routes k c.routes ++ validate_access_request c.access_request))))

pub data Warning : Type 0 where
  no_users redirect_url_not_https : Warning
  upstream_not_loopback : Text → Warning

-- `strings.EqualFold` compares the lower-cased texts.
unfoldable pub is_loopback_host : Checks → Text → Bool
is_loopback_host k host = to_lower host == codes "localhost" || k.is_loopback_ip host

unfoldable pub route_warnings : Checks → List RouteConfig → List Warning
route_warnings k [] = []
route_warnings k (r ∷ rest) =
    elim (k.parse_url r.upstream) [
      | none ↦ []
      | some u ↦
          if is_loopback_host k u.hostname then [] else upstream_not_loopback r.path_prefix ∷ []
    ]
    ++ route_warnings k rest

unfoldable pub is_plain_http : Option OidcConfig → Bool
is_plain_http none = false
is_plain_http (some o) = starts_with o.redirect_url (codes "http://")

unfoldable pub warnings : Checks → Config → List Warning
warnings k c =
    (if is_empty c.users then no_users ∷ [] else [])
    ++ ((if is_plain_http c.provider.oidc then redirect_url_not_https ∷ [] else [])
        ++ route_warnings k c.routes)

pub data Parsed : Type 0 where
  -- the file cannot be read, or is not YAML of the schema
  unreadable malformed : Parsed
  invalid : List Problem → Parsed
  parsed : Config → List Warning → Parsed

-- `Parse` of what `yaml.UnmarshalStrict` gives.
unfoldable pub parse : Checks → (Text → Option Config) → Text → Parsed
parse k unmarshal raw = elim (unmarshal raw) [
  | none ↦ malformed
  | some c ↦
      let d = set_defaults c in
      let problems = validate k d in
      if is_empty problems then parsed d (warnings k d) else invalid problems
]

-- `Load`: `contents` is what `os.ReadFile` gives.
unfoldable pub load : Checks → (Text → Option Config) → Option Text → Parsed
unfolding parse
load k unmarshal none = unreadable
load k unmarshal (some raw) = parse k unmarshal raw
