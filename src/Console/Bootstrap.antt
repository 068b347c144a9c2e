-- ===== src/Console/Bootstrap.antt =====
-- The first administrator of a console, internal/controller/pgconsole/bootstrapadmin.go. The state is
-- the users of the console's namespace, by their names; `Api` says what the calls answer.
pub mod Converges
pub mod Namespace
pub mod Admitted
use pg_tool_box.Common.{
  Bool, true, false, not, Option, none, some, List, Text, ◌==◌, text_eq, ◌&&◌, ◌||◌, if◌then◌else◌,
}
use pg_tool_box.Common.Dict
use pg_tool_box.Config.{level_dba}
use pg_tool_box.Console.Labels.{common_labels}
use pg_tool_box.Console.Objects.{
  SecretKeyReference, PgConsole, PgToolBoxUser, UserSpec, Fetched, found, missing, unavailable, get,
  Created, created, already_exists, not_created,
}
use pg_tool_box.Console.Users.{bootstrap_admin_user_name}

abbrev pub Users : Type 0
Users = List (Text × PgToolBoxUser)

pub record Api : Type 0 where
  pub reads : Bool
  pub creates : Created
  pub updates : Bool

-- What the reconcile did, or its error.
pub data Write : Type 0 where
  creates_user updates_user nothing : Write

pub data Outcome : Type 0 where
  done : Write → Outcome
  failed : Outcome

abbrev same_ref : Option SecretKeyReference → Option SecretKeyReference → Bool
same_ref none none = true
same_ref none (some b) = false
same_ref (some a) none = false
same_ref (some a) (some b) = a.name == b.name && a.key == b.key

unfoldable pub equal_bootstrap_admin_spec : UserSpec → UserSpec → Bool
equal_bootstrap_admin_spec a b =
    if not (a.console_ref == b.console_ref)
      || not (a.subject == b.subject)
      || not (a.level == b.level)
    then false
    else same_ref a.local_password_secret_ref b.local_password_secret_ref

-- `desired`
unfoldable pub desired_admin : PgConsole → PgToolBoxUser
desired_admin console = record {
  name = bootstrap_admin_user_name console;
  labels = common_labels console.name;
  owner = some console.uid;
  spec = record {
    console_ref = console.name;
    subject = console.authentication.bootstrap_admin.subject;
    level = level_dba;
    local_password_secret_ref = console.authentication.bootstrap_admin.password_secret_ref;
  };
}

-- From the comparison on.
unfoldable pub converge_admin : Api → PgToolBoxUser → PgToolBoxUser → Users → Outcome × Users
converge_admin api existing desired users =
    if equal_bootstrap_admin_spec existing.spec desired.spec
    then (done nothing, users)
    else if not api.updates
    then (failed, users)
    else (
      done updates_user,
      Dict.insert desired.name
          (record existing { spec = desired.spec; labels = desired.labels; owner = desired.owner })
          users,
    )

unfoldable pub reconcile_bootstrap_admin : Api → PgConsole → Users → Outcome × Users
reconcile_bootstrap_admin api console users =
    let desired = desired_admin console in
    elim (get api.reads desired.name users) [
      | unavailable ↦ (failed, users)
      | found existing ↦ converge_admin api existing desired users
      | missing ↦ elim api.creates [
        | created ↦ (done creates_user, Dict.insert desired.name desired users)
        | already_exists ↦ (done nothing, users)
        | not_created ↦ (failed, users)
      ]
    ]
