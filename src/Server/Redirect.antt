-- ===== src/Server/Redirect.antt =====
-- `SafeRedirect` and `forwardedProto` of internal/proxy/server/server.go. `url.Parse` is the parameter
-- `Checks`.
pub mod Origin
use pg_tool_box.Common.{
  ℕ, Bool, true, false, Option, none, some, List, [], ◌∷◌, Text, codes, ◌==◌, not, ◌&&◌, ◌||◌, ltb,
  if◌then◌else◌, text_eq, nat_eq, any, before, trim_space, to_lower,
}
use pg_tool_box.Config.{is_empty}
use pg_tool_box.Config.Validate.{Checks, Url}

-- The first two tests, on `p[0]` and `p[1]`.
unfoldable pub is_scheme_relative : Text → Bool
is_scheme_relative (c ∷ d ∷ p) = d == b'/' || d == 0x5c
is_scheme_relative _ = false

unfoldable pub is_rooted_path : Text → Bool
is_rooted_path [] = false
is_rooted_path (c ∷ p) = c == b'/'

-- The test of `strings.ContainsFunc`: a backslash or a control character.
unfoldable pub is_forbidden : ℕ → Bool
is_forbidden r = r == 0x5c || ltb r 0x20 || r == 0x7f

unfoldable pub is_plain_path : Option Url → Bool
is_plain_path none = false
is_plain_path (some u) = is_empty u.scheme && is_empty u.host && is_empty u.opaque

unfoldable pub safe_redirect : Checks → Text → Text
safe_redirect k p =
    if not (is_rooted_path p)
    then codes "/"
    else if is_scheme_relative p
    then codes "/"
    else if any is_forbidden p
    then codes "/"
    else if not (is_plain_path (k.parse_url p))
    then codes "/"
    else p

unfoldable pub forwarded_proto : Text → Text
forwarded_proto header =
    let proto = to_lower (trim_space (before b',' header)) in
    if proto == codes "http"
    then codes "http"
    else if proto == codes "https"
    then codes "https"
    else []
