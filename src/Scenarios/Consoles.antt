-- ===== src/Scenarios/Consoles.antt =====
-- A console with two users who claim one subject, its first administrator and its configuration.
use pg_tool_box.Common.{
  true, false, none, some, List, [], ◌∷◌, ◌≡◌, refl, codes, text_eq, text_beq, text_lt, to_lower,
  starts_with, All, head, tail,
}
use pg_tool_box.Common.Dict
use pg_tool_box.Config.{User, is_valid_level, level_dba}
use pg_tool_box.Console.Bootstrap.{
  Api, Users, done, creates_user, desired_admin, reconcile_bootstrap_admin,
}
use pg_tool_box.Console.Bootstrap.Namespace.{users_of}
use pg_tool_box.Console.Labels.{common_labels}
use pg_tool_box.Console.Objects.{PgConsole, PgToolBoxUser, found, created, get}
use pg_tool_box.Console.Users.{
  Reader, ResolvedConsoleUser, duplicate_subject, resolve_console_users, proxy_included, key_of,
  bootstrap_admin_user_name, resolve_attached, resolve_console_user, read_local_password_hash,
  check_hash, breaks_line, password_ref, sort_users, insert_user, precedes, reject_duplicates,
  mark_duplicate, claim, hashed,
}
use pg_tool_box.Console.Users.Rendered.{bootstrap_unshadowed}
use pg_tool_box.Scenarios.Sample.{sample_checks}

abbrev pub console : PgConsole
console = record {
  name = codes "main";
  namespace = codes "db";
  uid = codes "u1";
  authentication = record {
    bootstrap_admin = record {
      subject = codes "jane@corp.example";
      password_secret_ref = some (record { name = codes "pw"; key = [] });
    };
    local = true;
    oidc = none;
    openshift = false;
  };
  pg_admin = record { enabled = none; access_min_level = [] };
  hostname = [];
}

abbrev pub reader : Reader
reader = record {
  get_secret = λ name. found ((codes "password", codes "$2x") ∷ []);
  checks = sample_checks;
}

abbrev admin : PgToolBoxUser
admin = record {
  name = codes "main-bootstrap-admin";
  labels = [];
  owner = some (codes "u1");
  spec = record {
    console_ref = codes "main";
    subject = codes "jane@corp.example";
    level = level_dba;
    local_password_secret_ref = some (record { name = codes "pw"; key = [] });
  };
}

-- A user whose name sorts first, with the administrator's subject in other letters.
abbrev eve : PgToolBoxUser
eve = record {
  name = codes "eve";
  labels = [];
  owner = none;
  spec = record {
    console_ref = codes "main";
    subject = codes "JANE@corp.example";
    level = codes "view";
    local_password_secret_ref = none;
  };
}

abbrev admin_user : User
admin_user = record {
  subject = codes "jane@corp.example";
  level = level_dba;
  local_password_bcrypt = codes "$2x";
}

abbrev resolved_admin : PgToolBoxUser → ResolvedConsoleUser
resolved_admin user = record { user = user; proxy_user = admin_user; excluded = none }

abbrev resolved_eve : ResolvedConsoleUser
resolved_eve = record {
  user = eve;
  proxy_user = record {
    subject = codes "JANE@corp.example";
    level = codes "view";
    local_password_bcrypt = [];
  };
  excluded = some (duplicate_subject (codes "JANE@corp.example"));
}

abbrev pub items : List PgToolBoxUser
items = eve ∷ admin ∷ []

abbrev pub resolved : List ResolvedConsoleUser
resolved = resolved_admin admin ∷ resolved_eve ∷ []

pub resolves : resolve_console_users reader console (some items) ≡ some resolved
unfolding resolve_console_users resolve_attached resolve_console_user read_local_password_hash
    check_hash breaks_line password_ref sort_users insert_user precedes reject_duplicates
    mark_duplicate claim bootstrap_admin_user_name is_valid_level text_beq text_lt to_lower
    proxy_included starts_with Dict.value_at Dict.lookup
resolves = refl

admin_named : admin.name ≡ bootstrap_admin_user_name console
unfolding bootstrap_admin_user_name
admin_named = refl

bootstrap_unshadowed_example :
    All
      (λ u.
        proxy_included u ≡ true
        → key_of u ≡ to_lower (codes "jane@corp.example")
        → u.user.name ≡ bootstrap_admin_user_name console)
      resolved
bootstrap_unshadowed_example =
    bootstrap_unshadowed reader console items resolved admin (tail head) admin_named refl resolves

abbrev pub api : Api
api = record { reads = true; creates = created; updates = true }

abbrev pub with_admin : Users
with_admin =
    (codes "main-bootstrap-admin", record admin { labels = common_labels (codes "main") }) ∷ []

pub creates : reconcile_bootstrap_admin api console [] ≡ (done creates_user, with_admin)
unfolding reconcile_bootstrap_admin desired_admin bootstrap_admin_user_name get Dict.lookup
    Dict.insert Dict.remove
creates = refl

pub reads_hash : read_local_password_hash reader (codes "pw") [] ≡ hashed (codes "$2x")
unfolding read_local_password_hash check_hash breaks_line starts_with Dict.value_at Dict.lookup
    text_beq
reads_hash = refl

abbrev pub resolved_alone : List ResolvedConsoleUser
resolved_alone = resolved_admin (record admin { labels = common_labels (codes "main") }) ∷ []

pub resolves_alone :
    resolve_console_users reader console (some (users_of with_admin)) ≡ some resolved_alone
unfolding resolve_console_users resolve_attached resolve_console_user read_local_password_hash
    check_hash breaks_line password_ref sort_users insert_user precedes reject_duplicates
    mark_duplicate claim bootstrap_admin_user_name is_valid_level text_beq text_lt to_lower
    proxy_included starts_with Dict.value_at Dict.lookup
resolves_alone = refl
