-- ===== src/Console/Users.antt =====
-- The users of a console, internal/controller/pgconsole/users.go, and `ReadLocalPasswordHash` of
-- internal/controller/shared/credentials.go. `bcrypt.Cost` and the Secrets that the API server gives
-- are parameters.
pub mod Order
pub mod Subjects
pub mod Own
pub mod Rendered
use pg_tool_box.Common.{
  Bool, true, false, not, Option, none, some, List, [], ◌∷◌, ◌++◌, Text, codes, ◌==◌, text_eq,
  nat_eq, ◌&&◌, ◌||◌, any, if◌then◌else◌, to_lower, text_lt, bool_eq,
}
use pg_tool_box.Common.Dict
use pg_tool_box.Config.{User, is_valid_level, is_empty}
use pg_tool_box.Config.Validate.{Checks, is_seen}
use pg_tool_box.Console.Objects.{
  SecretKeyReference, PgConsole, PgToolBoxUser, UserSpec, Fetched, found, missing, unavailable,
}

-- `strings.ContainsAny(s, "\r\n")`
unfoldable pub breaks_line : Text → Bool
breaks_line s = any (λ c. c == 13 || c == 10) s

pub data HashResult : Type 0 where
  hashed : Text → HashResult
  secret_missing secret_unavailable format_invalid : HashResult

-- The Secrets that the live reader gives, with the checks that the proxy makes too.
pub record Reader : Type 0 where
  pub get_secret : Text → Fetched (List (Text × Text))
  pub checks : Checks

-- What follows the read of the Secret.
unfoldable pub check_hash : Reader → Text → HashResult
check_hash r hash =
    if is_empty hash || breaks_line hash
    then format_invalid
    else if not (r.checks.is_bcrypt_hash hash)
    then format_invalid
    else hashed hash

unfoldable pub read_local_password_hash : Reader → Text → Text → HashResult
read_local_password_hash r secret_key key = elim (r.get_secret secret_key) [
  | missing ↦ secret_missing
  | unavailable ↦ secret_unavailable
  | found contents ↦
      check_hash r (Dict.value_at (if is_empty key then codes "password" else key) contents)
]

-- `proxyExcludeReason`
pub data Exclusion : Type 0 where
  invalid_level password_not_found password_invalid duplicate_subject : Text → Exclusion

-- `excluded` is `proxyExcluded` with its reason.
pub record ResolvedConsoleUser : Type 0 where
  pub user : PgToolBoxUser
  pub proxy_user : User
  pub excluded : Option Exclusion

unfoldable pub proxy_included : ResolvedConsoleUser → Bool
proxy_included u = elim u.excluded [ none ↦ true | some reason ↦ false ]

abbrev no_user : User
no_user = record { subject = []; level = []; local_password_bcrypt = [] }

abbrev exclude : PgToolBoxUser → Exclusion → ResolvedConsoleUser
exclude user reason = record { user = user; proxy_user = no_user; excluded = some reason }

abbrev include : PgToolBoxUser → Text → ResolvedConsoleUser
include user hash = record {
  user = user;
  proxy_user = record {
    subject = user.spec.subject;
    level = user.spec.level;
    local_password_bcrypt = hash;
  };
  excluded = none;
}

-- The block that reads the password: the reference that it reads, if any.
unfoldable pub password_ref : PgConsole → PgToolBoxUser → Option SecretKeyReference
password_ref console user = elim user.spec.local_password_secret_ref [
  | none ↦ none
  | some ref ↦ if console.authentication.local && not (is_empty ref.name) then some ref else none
]

unfoldable pub resolve_console_user : Reader → PgConsole → PgToolBoxUser → ResolvedConsoleUser
resolve_console_user r console user =
    if not (is_valid_level user.spec.level)
    then exclude user (invalid_level user.spec.level)
    else elim (password_ref console user) [
      | none ↦ include user []
      | some ref ↦ elim (read_local_password_hash r ref.name ref.key) [
        | secret_missing ↦ exclude user (password_not_found ref.name)
        | secret_unavailable ↦ exclude user (password_invalid ref.name)
        | format_invalid ↦ exclude user (password_invalid ref.name)
        | hashed hash ↦ include user hash
      ]
    ]

-- The loop over the listed users.
unfoldable pub resolve_attached : Reader → PgConsole → List PgToolBoxUser → List ResolvedConsoleUser
resolve_attached r console [] = []
resolve_attached r console (user ∷ items) =
    let rest = resolve_attached r console items in
    if user.spec.console_ref == console.name
    then resolve_console_user r console user ∷ rest
    else rest

-- The order of the sort.
unfoldable pub precedes : Text → ResolvedConsoleUser → ResolvedConsoleUser → Bool
precedes bootstrap a b =
    if (a.user.name == bootstrap) == (b.user.name == bootstrap)
    then text_lt a.user.name b.user.name
    else a.user.name == bootstrap

-- `sort.Slice` by insertion. The names of a namespace differ, so that one order only is sorted.
unfoldable pub insert_user :
    Text → ResolvedConsoleUser → List ResolvedConsoleUser → List ResolvedConsoleUser
insert_user bootstrap a [] = a ∷ []
insert_user bootstrap a (b ∷ rest) =
    let later = insert_user bootstrap a rest in
    if precedes bootstrap b a then b ∷ later else a ∷ (b ∷ rest)

unfoldable pub sort_users : Text → List ResolvedConsoleUser → List ResolvedConsoleUser
sort_users bootstrap [] = []
sort_users bootstrap (a ∷ rest) = insert_user bootstrap a (sort_users bootstrap rest)

-- `strings.ToLower` of the subject that a user of the configuration has.
abbrev pub key_of : ResolvedConsoleUser → Text
key_of u = to_lower u.proxy_user.subject

-- The set `seen` behind one step of the loop that rejects duplicate subjects.
unfoldable pub claim : Text → List Text → ResolvedConsoleUser → List Text
claim bootstrap seen u =
    if not (proxy_included u)
    then (if u.user.name == bootstrap then to_lower u.user.spec.subject ∷ seen else seen)
    else if is_seen (key_of u) seen
    then seen
    else key_of u ∷ seen

-- What the step does to its user.
unfoldable pub mark_duplicate : List Text → ResolvedConsoleUser → ResolvedConsoleUser
mark_duplicate seen u =
    if proxy_included u && is_seen (key_of u) seen
    then record u { excluded = some (duplicate_subject u.proxy_user.subject) }
    else u

unfoldable pub reject_duplicates :
    Text → List Text → List ResolvedConsoleUser → List ResolvedConsoleUser
reject_duplicates bootstrap seen [] = []
reject_duplicates bootstrap seen (u ∷ rest) =
    mark_duplicate seen u ∷ reject_duplicates bootstrap (claim bootstrap seen u) rest

-- `bootstrapAdminUserName`, of bootstrapadmin.go.
unfoldable pub bootstrap_admin_user_name : PgConsole → Text
bootstrap_admin_user_name console = console.name ++ codes "-bootstrap-admin"

-- `none` is the error of `List`; no other error can occur.
unfoldable pub resolve_console_users :
    Reader → PgConsole → Option (List PgToolBoxUser) → Option (List ResolvedConsoleUser)
resolve_console_users r console none = none
resolve_console_users r console (some items) =
    let bootstrap = bootstrap_admin_user_name console in
    some (reject_duplicates bootstrap [] (sort_users bootstrap (resolve_attached r console items)))

unfoldable pub proxy_users : List ResolvedConsoleUser → List User
proxy_users [] = []
proxy_users (u ∷ rest) =
    let users = proxy_users rest in if proxy_included u then u.proxy_user ∷ users else users
