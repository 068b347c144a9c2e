-- ===== src/Providers/Local.antt =====
-- The local provider of internal/proxy/local/local.go: the login form and its submission, which hands
-- the limiter's map on.
pub mod Login
pub mod Guessing
use mathlib.Core.Option
use pg_tool_box.Common.{
  Bool, true, false, not, ◌||◌, ◌&&◌, List, [], ◌∷◌, Option, none, some, Text, codes, to_lower,
  trim_space, if◌then◌else◌,
}
use pg_tool_box.Common.Int.{ℤ}
use pg_tool_box.Config.{User, mode_local, is_empty}
use pg_tool_box.Config.Validate.{Checks}
use pg_tool_box.Providers.Limiter.{Failures, allow, fail, reset}
use pg_tool_box.Server.Handlers.{
  Request, Response, respond, error_page, redirect, login_page, issue_session, value_of,
}
use pg_tool_box.Server.Redirect.{safe_redirect}
use pg_tool_box.Server.Runtime.{Env, lookup_user, external_logins}
use pg_tool_box.Session.{Crypto, Json, Data, Cookie}

-- What the provider calls: `bcrypt.CompareHashAndPassword`, `net.SplitHostPort`, and the readings of
-- the clock, in the order of their use, with the nonce of a session that is sealed.
pub record World : Type 0 where
  pub compare_hash : Text → Text → Bool
  pub split_host_port : Text → Option Text
  pub allow_time : ℤ
  pub fail_time : ℤ
  pub start_time : ℤ
  pub session_time : ℤ
  pub nonce : Option Text

-- `clientIP`
unfoldable pub client_ip : World → Text → Text
client_ip w remote_addr = elim (w.split_host_port remote_addr) [
  | none ↦ remote_addr
  | some host ↦ host
]

unfoldable pub handle_form : Checks → Env → Request → Response
handle_form c e r =
    respond
      (login_page 200 (safe_redirect c (value_of r.query (codes "rd"))) false (external_logins e))

-- The hash that the password is compared with: the dummy one, unless the user is known and has one.
unfoldable pub hash_of : Text → Option User → Text
hash_of dummy none = dummy
hash_of dummy (some u) = if is_empty u.local_password_bcrypt then dummy else u.local_password_bcrypt

abbrev pub subject_of : List (Text × Text) → Text
subject_of form = to_lower (trim_space (value_of form (codes "username")))

-- The answer after the limiter forgot the failures.
unfoldable pub admit : Crypto → Json Data → World → Env → Text → Text → User → Response
admit k j w e rd subject u =
    elim (issue_session k j e w.session_time w.nonce subject u.level mode_local) [
      | none ↦ respond (error_page 500)
      | some cookie ↦ record { cookies = cookie ∷ []; body = redirect rd }
    ]

abbrev pub refuse : World → Env → Text → Text → Failures → Response × Failures
refuse w e ip rd m =
    (respond (login_page 401 rd true (external_logins e)), fail w.fail_time w.start_time ip m)

-- `bcrypt.CompareHashAndPassword(hash, …) != nil || !known`, and its two branches.
abbrev pub decide :
    Crypto
    → Json Data
    → World
    → Env
    → Text
    → Text
    → Text
    → Bool
    → Option User
    → Failures
    → Response × Failures
decide k j w e ip rd subject matches none m = refuse w e ip rd m
decide k j w e ip rd subject matches (some u) m =
    if not matches then refuse w e ip rd m else (admit k j w e rd subject u, reset ip m)

unfoldable pub handle_submit :
    Crypto
    → Json Data
    → Checks
    → World
    → Text
    → Env
    → Text
    → Option (List (Text × Text))
    → Failures
    → Response × Failures
handle_submit k j c w dummy e remote_addr parsed m =
    let ip = client_ip w remote_addr in
    if not (allow w.allow_time ip m) then (respond (error_page 429), m) else elim parsed [
      | none ↦ (respond (error_page 400), m)
      | some form ↦
          let user = lookup_user e (subject_of form) in
          decide k j w e ip (safe_redirect c (value_of form (codes "rd"))) (subject_of form)
            (w.compare_hash (hash_of dummy user) (value_of form (codes "password"))) user m
    ]
