-- ===== src/Console/ProxyConfig.antt =====
-- The proxy's configuration as the operator renders it, internal/controller/pgconsole/proxyconfig.go.
-- The YAML encoder and decoder, the checks of the proxy's validation, the digests and the random
-- source are parameters, and `Api` says which calls fail. The state is the configuration's Secret.
pub mod Parts
pub mod Rendering
pub mod Key
pub mod Served
pub mod Settles
pub mod Refused
use pg_tool_box.Common.{
  ℕ, Bool, true, false, not, Option, none, some, List, [], ◌∷◌, ◌++◌, Text, codes, ◌==◌, text_eq,
  ◌&&◌, if◌then◌else◌,
}
use pg_tool_box.Common.Decimal.{format}
use pg_tool_box.Common.Dict
use pg_tool_box.Common.Int.{pos}
use pg_tool_box.Config.{
  Config, User, RouteConfig, OidcConfig, OpenShiftConfig, ProviderConfig, mode_local, mode_oidc,
  mode_openshift, level_view, level_dba, is_valid_level, is_empty,
}
use pg_tool_box.Config.Validate.{Checks, Parsed, unreadable, malformed, invalid, parsed, parse}
use pg_tool_box.Console.Names.{resource_name}
use pg_tool_box.Console.Objects.{
  PgConsole, SecretKeyReference, OidcAuthentication, Fetched, found, missing, unavailable, Created,
  created, already_exists, not_created, fetched,
}
use pg_tool_box.Console.Users.{Reader}
use pg_tool_box.Render.{checksum}

abbrev pub console_port : ℕ
console_port = 3000

abbrev pub proxy_port : ℕ
proxy_port = 8080

abbrev pub pg_admin_port : ℕ
pg_admin_port = 8081

abbrev pub service_account_root : Text
service_account_root = codes "/var/run/secrets/kubernetes.io/serviceaccount"

unfoldable pub loopback_upstream : ℕ → Text
loopback_upstream port = codes "http://127.0.0.1:" ++ format port

unfoldable pub console_base_url : PgConsole → Text
console_base_url console =
    if not (is_empty console.hostname)
    then codes "https://" ++ console.hostname
    else codes "http://localhost:" ++ format proxy_port

unfoldable pub external_callback_url : PgConsole → Text → Text
external_callback_url console path =
    if is_empty console.hostname then [] else console_base_url console ++ path

unfoldable pub pg_admin_enabled : PgConsole → Bool
pg_admin_enabled console = elim console.pg_admin.enabled [ none ↦ true | some b ↦ b ]

unfoldable pub service_account_client_id : (Text → Text) → PgConsole → Text
service_account_client_id short_digest console =
    codes "system:serviceaccount:"
    ++ (console.namespace ++ (codes ":" ++ resource_name short_digest console.name []))

unfoldable pub render_oidc : PgConsole → OidcAuthentication → OidcConfig
render_oidc console auth = record {
  issuer_url = auth.issuer_url;
  client_id = auth.client_id;
  client_secret_file = codes "/etc/pgtoolbox-proxy/oidc/client-secret";
  redirect_url = external_callback_url console (codes "/auth/oidc/callback");
  scopes = [];
  subject_claim = [];
}

unfoldable pub render_openshift : (Text → Text) → PgConsole → OpenShiftConfig
render_openshift short_digest console = record {
  client_id = service_account_client_id short_digest console;
  client_secret_file = service_account_root ++ codes "/token";
  redirect_url = external_callback_url console (codes "/auth/openshift/callback");
  discovery_url = [];
  api_url = [];
  ca_file = service_account_root ++ codes "/ca.crt";
  scopes = [];
  user_info_path = [];
}

-- The modes in their fixed order.
unfoldable pub render_modes : PgConsole → List Text
render_modes console =
    (if console.authentication.local then mode_local ∷ [] else [])
    ++ (elim console.authentication.oidc [ none ↦ [] | some auth ↦ mode_oidc ∷ [] ]
        ++ (if console.authentication.openshift then mode_openshift ∷ [] else []))

unfoldable pub render_provider : (Text → Text) → PgConsole → ProviderConfig
render_provider short_digest console = record {
  modes = render_modes console;
  oidc = elim console.authentication.oidc [
    | none ↦ none
    | some auth ↦ some (render_oidc console auth)
  ];
  openshift =
      if console.authentication.openshift
      then some (render_openshift short_digest console)
      else none;
}

abbrev pub root_route : RouteConfig
root_route = record {
  path_prefix = codes "/";
  upstream = loopback_upstream console_port;
  min_level = level_view;
}

abbrev pub pg_admin_route : Text → RouteConfig
pg_admin_route level = record {
  path_prefix = codes "/pgadmin";
  upstream = loopback_upstream pg_admin_port;
  min_level = level;
}

-- `console.Spec.PgAdmin.AccessMinLevel` with its default
unfoldable pub access_level : PgConsole → Text
access_level console =
    if is_empty console.pg_admin.access_min_level
    then level_dba
    else console.pg_admin.access_min_level

pub data RenderError : Type 0 where
  no_provider access_min_level_invalid marshal_failed : RenderError
  validation_failed : Parsed → RenderError

-- `cfg`, with the routes of the console.
unfoldable pub config_of : (Text → Text) → PgConsole → Text → List RouteConfig → List User → Config
config_of short_digest console session_key routes users = record {
  session = record {
    cookie_name = [];
    cookie_secrets = session_key ∷ [];
    max_age = pos 0;
    secure = none;
  };
  server = record {
    listen = codes ":" ++ format proxy_port;
    upstream_dial_timeout = pos 0;
    upstream_response_header_timeout = pos 0;
  };
  provider = render_provider short_digest console;
  users = users;
  routes = routes;
  access_request = record {
    enabled = true;
    console_name = console.name;
    namespace = console.namespace;
  };
}

-- The blocks that can refuse to render, up to the encoding.
pub data Built : Type 0 where
  built : Config → Built
  refused : RenderError → Built

unfoldable pub build_config : (Text → Text) → PgConsole → Text → Bool → List User → Built
build_config short_digest console session_key enabled users =
    if is_empty (render_modes console)
    then refused no_provider
    else if not enabled
    then built (config_of short_digest console session_key (root_route ∷ []) users)
    else if not (is_valid_level (access_level console))
    then refused access_min_level_invalid
    else built (
        config_of short_digest console session_key
          (pg_admin_route (access_level console) ∷ root_route ∷ []) users)

-- Go's YAML package on the schema of the configuration.
pub record Yaml : Type 0 where
  pub marshal : Config → Option Text
  pub unmarshal : Text → Option Config

pub data Rendered : Type 0 where
  rendered : Text → Rendered
  render_failed : RenderError → Rendered

-- `Parse` of what was encoded.
unfoldable pub check_rendered : Yaml → Checks → Text → Rendered
check_rendered yaml k raw = elim (parse k yaml.unmarshal raw) [
  | parsed c warnings ↦ rendered raw
  | invalid problems ↦ render_failed (validation_failed (invalid problems))
  | malformed ↦ render_failed (validation_failed malformed)
  | unreadable ↦ render_failed (validation_failed unreadable)
]

unfoldable pub render_proxy_config :
    Yaml → Checks → (Text → Text) → PgConsole → Text → Bool → List User → Rendered
render_proxy_config yaml k short_digest console session_key enabled users =
    elim (build_config short_digest console session_key enabled users) [
      | refused e ↦ render_failed e
      | built c ↦ elim (yaml.marshal c) [
        | none ↦ render_failed marshal_failed
        | some raw ↦ check_rendered yaml k raw
      ]
    ]

-- The Secret: its entries, and the UID of its controller.
pub record ConfigSecret : Type 0 where
  pub entries : List (Text × Text)
  pub owner : Option Text

pub record Api : Type 0 where
  pub reads : Bool
  pub random_key : Option Text
  pub updates : Bool
  pub creates : Created

-- `configIssue`, by its cause.
pub data ConfigIssue : Type 0 where
  oidc_secret_not_found oidc_secret_unreadable : ConfigIssue
  oidc_secret_key_missing : Text → ConfigIssue
  render_issue : RenderError → ConfigIssue

pub data Outcome : Type 0 where
  checksum_of : Text → Outcome
  issue : ConfigIssue → Outcome
  failed : Outcome

unfoldable pub oidc_client_secret_key : SecretKeyReference → Text
oidc_client_secret_key ref = if not (is_empty ref.key) then ref.key else codes "clientSecret"

unfoldable pub check_oidc_client_secret : Reader → PgConsole → Option ConfigIssue
check_oidc_client_secret r console = elim console.authentication.oidc [
  | none ↦ none
  | some auth ↦ elim (r.get_secret auth.client_secret_ref.name) [
    | missing ↦ some oidc_secret_not_found
    | unavailable ↦ some oidc_secret_unreadable
    | found contents ↦
        let key = oidc_client_secret_key auth.client_secret_ref in
        if is_empty (Dict.value_at key contents) then some (oidc_secret_key_missing key) else none
  ]
]

abbrev pub config_file_name : Text
config_file_name = codes "config.yaml"

abbrev pub session_key_name : Text
session_key_name = codes "session-key"

abbrev pub owned_by : Option Text → Text → Bool
owned_by none uid = false
owned_by (some owner) uid = owner == uid

-- The key that the Secret holds, or a new one; `none` is the error of the random source.
unfoldable pub choose_key : Api → Option ConfigSecret → Option Text
choose_key api none = api.random_key
choose_key api (some existing) =
    let key = Dict.value_at session_key_name existing.entries in
    if is_empty key then api.random_key else some key

unfoldable pub write_entries_of : Text → Text → ConfigSecret → ConfigSecret
write_entries_of raw key s = record s {
  entries = Dict.insert session_key_name key (Dict.insert config_file_name raw s.entries);
}

-- From the checksum on.
unfoldable pub write_config_secret :
    (Text → Text)
    → Api
    → PgConsole
    → Text
    → Text
    → Option ConfigSecret
    → Outcome × Option ConfigSecret
write_config_secret hex_digest api console raw key none = elim api.creates [
  | created ↦ (
    checksum_of (checksum hex_digest ((config_file_name, raw) ∷ [])),
    some (record {
      entries = (config_file_name, raw) ∷ (session_key_name, key) ∷ [];
      owner = some console.uid;
    }),
  )
  | already_exists ↦ (failed, none)
  | not_created ↦ (failed, none)
]
write_config_secret hex_digest api console raw key (some existing) =
    if not (owned_by existing.owner console.uid)
    then (failed, some existing)
    else if Dict.value_at config_file_name existing.entries == raw
        && Dict.value_at session_key_name existing.entries == key
    then (checksum_of (checksum hex_digest ((config_file_name, raw) ∷ [])), some existing)
    else if not api.updates
    then (failed, some existing)
    else (
      checksum_of (checksum hex_digest ((config_file_name, raw) ∷ [])),
      some (write_entries_of raw key existing),
    )

module _ (yaml : Yaml) (short_digest hex_digest : Text → Text) (r : Reader) (api : Api)
    (console : PgConsole) (users : List User) where
  -- From the choice of the key on.
  unfoldable pub render_and_write : Option ConfigSecret → Outcome × Option ConfigSecret
  render_and_write existing = elim (choose_key api existing) [
    | none ↦ (failed, existing)
    | some key ↦
        elim (render_proxy_config yaml r.checks short_digest console key (pg_admin_enabled console)
          users) [
            | render_failed e ↦ (issue (render_issue e), existing)
            | rendered raw ↦ write_config_secret hex_digest api console raw key existing
          ]
  ]

  unfoldable pub reconcile_proxy_config_secret : Option ConfigSecret → Outcome × Option ConfigSecret
  reconcile_proxy_config_secret existing = elim (check_oidc_client_secret r console) [
    | some why_not ↦ (issue why_not, existing)
    | none ↦ if not api.reads then (failed, existing) else render_and_write existing
  ]
