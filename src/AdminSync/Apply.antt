-- ===== src/AdminSync/Apply.antt =====
-- `apply` and the steps of internal/adminsync/sidecar_server.go, on the state that it changes: a
-- storage directory's files, the connections that pgAdmin holds for each account, and the combined
-- file. `Os` is what the environment does: which steps fail for an account, the answer of the query,
-- `filepath.Join`, and the fingerprint of a list of servers.
pub mod Converged
pub mod Loop
pub mod Outcome
pub mod Reached
use mathlib.Core.Option
use pg_tool_box.Common.{
  ℕ, Bool, true, false, not, Option, none, some, List, [], ◌∷◌, ◌++◌, Text, codes, ◌==◌, text_eq,
  nat_eq, trim_space, contains, if◌then◌else◌,
}
use pg_tool_box.Common.Dict
use pg_tool_box.Common.Int.{ℤ}
use pg_tool_box.Config.{is_empty}
use pg_tool_box.AdminSync.Passfile.{Server, replace_byte, passfile_content}

-- The answer of `querySettingsDB`.
pub data Query : Type 0 where
  answered : Text → Query
  query_failed : Text → Query

pub record Os : Type 0 where
  pub query : Query
  -- `serversRevision`; `none` is its error
  pub fingerprint : List Server → Option Text
  pub join : Text → Text → Text
  pub writes_passfile : Text → Bool
  pub loads_servers : Text → Bool
  pub records_revision : Text → Bool
  pub writes_legacy : Bool

-- A storage directory: its credential file, and its revision file.
pub record Storage : Type 0 where
  pub passfile : Option Text
  pub revision : Option Text

-- `serverEntry`, whose `passfile` parameter is the same for all
pub record ServerEntry : Type 0 where
  pub name : Text
  pub group : Text
  pub host : Text
  pub port : ℤ
  pub maintenance_db : Text
  pub username : Text
  pub ssl_mode : Text

-- The entries of the document, in the order of their keys "1", "2", …
unfoldable pub entries_of : List Server → List ServerEntry
entries_of [] = []
entries_of (x ∷ rest) =
    record {
      name = x.name;
      group = x.group;
      host = x.host;
      port = x.port;
      maintenance_db = x.maintenance_db;
      username = x.username;
      ssl_mode = x.ssl_mode;
    }
    ∷ entries_of rest

pub record State : Type 0 where
  pub storage : List (Text × Storage)
  pub loaded : List (Text × List ServerEntry)
  pub legacy : Option Text

-- `strings.Split(s, "\n")`
unfoldable pub split_lines : Text → List Text
split_lines [] = [] ∷ []
split_lines (c ∷ s) =
    let rest = split_lines s in
    if c == b'\n' then [] ∷ rest else elim rest [ [] ↦ (c ∷ []) ∷ [] | l ∷ ls ↦ (c ∷ l) ∷ ls ]

-- The loop over the lines: the lines that are not blank, trimmed.
unfoldable pub account_lines : List Text → List Text
account_lines [] = []
account_lines (l ∷ ls) =
    if is_empty (trim_space l) then account_lines ls else trim_space l ∷ account_lines ls

-- `accounts`; `none` is its error.
unfoldable pub accounts : Query → Option (List Text)
unfolding split_lines account_lines
accounts (answered output) = some (account_lines (split_lines (trim_space output)))
accounts (query_failed message) = if contains message (codes "no such table") then some [] else none

unfoldable pub user_storage_directory : Os → Text → Text
user_storage_directory os subject =
    os.join (codes "/var/lib/pgadmin/storage") (replace_byte b'@' (codes "_") subject)

-- A directory that does not exist has no files.
unfoldable pub storage_of : Text → State → Storage
storage_of dir s = elim (Dict.lookup dir s.storage) [
  | none ↦ record { passfile = none; revision = none }
  | some x ↦ x
]

abbrev pub put_storage : Text → Storage → State → State
put_storage dir x s = record s { storage = Dict.insert dir x s.storage }

-- `appliedRevision`; `none` is its error.
unfoldable pub applied_revision : Os → Text → State → Option Text
applied_revision os account s = elim (storage_of (user_storage_directory os account) s).revision [
  | none ↦ none
  | some raw ↦ some (trim_space raw)
]

-- `writePassfile`, `loadServers` and `recordRevision`, where they do not fail.
unfoldable pub write_passfile : Os → Text → List Server → State → State
write_passfile os account servers s =
    let dir = user_storage_directory os account in
    put_storage dir (record (storage_of dir s) { passfile = some (passfile_content servers) }) s

unfoldable pub load_servers : Text → List Server → State → State
load_servers account servers s = record s {
  loaded = Dict.insert account (entries_of servers) s.loaded;
}

unfoldable pub record_revision : Os → Text → Text → State → State
record_revision os account revision s =
    let dir = user_storage_directory os account in
    put_storage dir (record (storage_of dir s) { revision = some (revision ++ b'\n' ∷ []) }) s

abbrev pub is_current : Option Text → Text → Bool
is_current none desired = false
is_current (some revision) desired = revision == desired

-- One round of the loop; `false` is the error that ends it.
unfoldable pub provision : Os → Text → List Server → Text → State → Bool × State
provision os desired servers account s =
    if is_current (applied_revision os account s) desired
    then (true, s)
    else if not (os.writes_passfile account)
    then (false, s)
    else let s1 = write_passfile os account servers s in
      if not (os.loads_servers account)
      then (false, s1)
      else let s2 = load_servers account servers s1 in
        if not (os.records_revision account)
        then (false, s2)
        else (true, record_revision os account desired s2)

-- The loop, and the combined file behind it.
unfoldable pub provision_all : Os → Text → List Server → List Text → State → Bool × State
provision_all os desired servers [] s =
    if os.writes_legacy
    then (true, record s { legacy = some (passfile_content servers) })
    else (false, s)
provision_all os desired servers (account ∷ rest) s =
    let (done, s') = provision os desired servers account s in
    let next = provision_all os desired servers rest s' in if done then next else (false, s')

unfoldable pub apply : Os → List Server → State → Bool × State
apply os servers s = elim (accounts os.query) [
  | none ↦ (false, s)
  | some names ↦ elim (os.fingerprint servers) [
    | none ↦ (false, s)
    | some desired ↦ provision_all os desired servers names s
  ]
]
