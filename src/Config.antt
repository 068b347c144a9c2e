-- ===== src/Config.antt =====
-- The proxy's configuration, internal/proxy/config/config.go: the levels, the schema of the file and
-- its defaults. A Go pointer that may be nil is an `Option`, a `time.Duration` a number of
-- nanoseconds. `Validate` models validate.go; the other children hold proofs.
pub mod Validate
pub mod Levels
pub mod Accepts
pub mod Watch
use mathlib.Core.Option
use pg_tool_box.Common.{
  ℕ, ◌*◌, ◌^◌, Bool, true, false, Option, none, some, List, [], ◌∷◌, map, Text, codes, ◌==◌,
  if◌then◌else◌, text_eq, not, ◌||◌, any,
}
use pg_tool_box.Common.Int.{ℤ, pos, negsuc, ltb_ℤ, ℤ_eq}

abbrev pub Level : Type 0
Level = Text

abbrev pub level_none : Level
level_none = []

abbrev pub level_view : Level
level_view = codes "view"

abbrev pub level_poweruser : Level
level_poweruser = codes "poweruser"

abbrev pub level_dba : Level
level_dba = codes "dba"

-- The `switch` of `Rank`, its cases in order.
unfoldable pub rank : Level → ℤ
rank l =
    if l == level_view
    then pos 1
    else if l == level_poweruser
    then pos 2
    else if l == level_dba
    then pos 3
    else if l == level_none
    then pos 0
    else negsuc 0

-- `Level.Valid`
unfoldable pub is_valid_level : Level → Bool
unfolding rank
is_valid_level l = ltb_ℤ (pos 0) (rank l)

abbrev pub mode_oidc : Text
mode_oidc = codes "oidc"

abbrev pub mode_local : Text
mode_local = codes "local"

abbrev pub mode_openshift : Text
mode_openshift = codes "openshift"

abbrev pub Duration : Type 0
Duration = ℤ

abbrev pub second : ℕ
second = 1000000000

pub record SessionConfig : Type 0 where
  pub cookie_name : Text
  pub cookie_secrets : List Text
  pub max_age : Duration
  pub secure : Option Bool

unfoldable pub cookie_secure : SessionConfig → Bool
cookie_secure s = elim s.secure [ none ↦ true | some b ↦ b ]

pub record ServerConfig : Type 0 where
  pub listen : Text
  pub upstream_dial_timeout : Duration
  pub upstream_response_header_timeout : Duration

pub record OidcConfig : Type 0 where
  pub issuer_url : Text
  pub client_id : Text
  pub client_secret_file : Text
  pub redirect_url : Text
  pub scopes : List Text
  pub subject_claim : Text

pub record OpenShiftConfig : Type 0 where
  pub client_id : Text
  pub client_secret_file : Text
  pub redirect_url : Text
  pub discovery_url : Text
  pub api_url : Text
  pub ca_file : Text
  pub scopes : List Text
  pub user_info_path : Text

pub record ProviderConfig : Type 0 where
  pub modes : List Text
  pub oidc : Option OidcConfig
  pub openshift : Option OpenShiftConfig

pub record User : Type 0 where
  pub subject : Text
  pub level : Level
  pub local_password_bcrypt : Text

pub record RouteConfig : Type 0 where
  pub path_prefix : Text
  pub upstream : Text
  pub min_level : Level

pub record AccessRequestConfig : Type 0 where
  pub enabled : Bool
  pub console_name : Text
  pub namespace : Text

pub record Config : Type 0 where
  pub session : SessionConfig
  pub server : ServerConfig
  pub provider : ProviderConfig
  pub users : List User
  pub routes : List RouteConfig
  pub access_request : AccessRequestConfig

abbrev pub reserved_prefixes : List Text
reserved_prefixes = codes "/auth" ∷ codes "/logout" ∷ codes "/healthz" ∷ []

-- `if x == zero { x = default }`, the shape of every assignment of `setDefaults`.
abbrev pub or_default {ℓ} : {A : Type ℓ} → Bool → A → A → A
or_default is_zero default x = if is_zero then default else x

abbrev pub is_empty {ℓ} : {A : Type ℓ} → List A → Bool
is_empty [] = true
is_empty (x ∷ xs) = false

abbrev pub default_oidc : OidcConfig → OidcConfig
default_oidc o = record o {
  scopes = or_default (is_empty o.scopes) (codes "openid" ∷ codes "email" ∷ []) o.scopes;
  subject_claim = or_default (is_empty o.subject_claim) (codes "email") o.subject_claim;
}

abbrev pub default_openshift : OpenShiftConfig → OpenShiftConfig
default_openshift o = record o {
  scopes = or_default (is_empty o.scopes) (codes "user:info" ∷ []) o.scopes;
  user_info_path =
      or_default (is_empty o.user_info_path) (codes "/apis/user.openshift.io/v1/users/~")
        o.user_info_path;
}

abbrev pub default_route : RouteConfig → RouteConfig
default_route r = record r { min_level = or_default (is_empty r.min_level) level_view r.min_level }

unfoldable pub set_defaults : Config → Config
set_defaults c = record c {
  session = record c.session {
    cookie_name =
        or_default (is_empty c.session.cookie_name) (codes "pgtoolbox_session")
          c.session.cookie_name;
    max_age = or_default (c.session.max_age == pos 0) (pos (8 * 3600 * second)) c.session.max_age;
  };
  server = record {
    listen = or_default (is_empty c.server.listen) (codes ":8080") c.server.listen;
    upstream_dial_timeout =
        or_default (c.server.upstream_dial_timeout == pos 0) (pos (10 * second))
          c.server.upstream_dial_timeout;
    upstream_response_header_timeout =
        or_default (c.server.upstream_response_header_timeout == pos 0) (pos (30 * second))
          c.server.upstream_response_header_timeout;
  };
  provider = record c.provider {
    oidc = Option.map default_oidc c.provider.oidc;
    openshift = Option.map default_openshift c.provider.openshift;
  };
  routes = map default_route c.routes;
}

-- `LocalEnabled`, of validate.go: the loop over the modes.
unfoldable pub local_enabled : Config → Bool
local_enabled c = any (λ mode. mode == mode_local) c.provider.modes
