-- ===== src/Server/Redirect/Origin.antt =====
-- A sanitised redirect target stays on the console's own origin, as a browser reads it.
use pg_tool_box.Common.{
  true, false, [], ◌∷◌, Text, codes, ◌==◌, ◌||◌, if◌then◌else◌, nat_eq, any, ◌≡◌, ◌⊎◌, inl, inr,
  refl, arith, starts_with,
}
use pg_tool_box.Config.Validate.{Checks}
use pg_tool_box.Server.Redirect.{
  safe_redirect, is_scheme_relative, is_rooted_path, is_forbidden, is_plain_path, forwarded_proto,
}

-- What a browser resolves: it drops TAB, LF and CR, and reads a backslash as a slash.
unfoldable pub browser_view : Text → Text
browser_view [] = []
browser_view (c ∷ p) =
    let rest = browser_view p in
    if c == 9 || c == 10 || c == 13 then rest else (if c == 0x5c then b'/' else c) ∷ rest

-- The browser reads a text without forbidden characters as it is.
browser_view_plain : (p : Text) → any is_forbidden p ≡ false → browser_view p ≡ p
unfolding browser_view is_forbidden
browser_view_plain [] h = refl
browser_view_plain (c ∷ p) h = ground (arith, browser_view_plain p)

-- A path that leads to another place of the same origin: one slash, and no second one after it.
abbrev pub IsLocalPath : Text → Type 0
IsLocalPath p = (starts_with p (codes "/") ≡ true) × (starts_with p (codes "//") ≡ false)

local_of_tests : (p : Text) → is_rooted_path p ≡ true → is_scheme_relative p ≡ false → IsLocalPath p
unfolding is_rooted_path is_scheme_relative starts_with
local_of_tests [] h k = cc
local_of_tests (c ∷ []) h k = ground arith
local_of_tests (c ∷ d ∷ p) h k = ground arith

root_local : IsLocalPath (codes "/")
unfolding starts_with
root_local = (refl, refl)

root_plain : browser_view (codes "/") ≡ codes "/"
unfolding browser_view
root_plain = refl

-- Whatever the target that was asked for, a browser resolves the sanitised one to a path that
-- begins with one slash and not with two.
pub safe_redirect_local : (k : Checks) (p : Text) → IsLocalPath (browser_view (safe_redirect k p))
unfolding safe_redirect
safe_redirect_local k p =
    ground (arith, browser_view_plain p, root_plain, root_local, local_of_tests p)

-- The target is kept exactly when it is a rooted path with neither a second separator nor a
-- forbidden character, which the URL parser reads as a path; any other target becomes "/".
pub safe_redirect_keeps :
    (k : Checks) (p : Text)
    → is_rooted_path p ≡ true
    → is_scheme_relative p ≡ false
    → any is_forbidden p ≡ false
    → is_plain_path (k.parse_url p) ≡ true
    → safe_redirect k p ≡ p
unfolding safe_redirect
safe_redirect_keeps k p a b c d = ground arith

safe_redirect_cases :
    (k : Checks) (p : Text) → (safe_redirect k p ≡ codes "/") ⊎ (safe_redirect k p ≡ p)
unfolding safe_redirect
safe_redirect_cases k p = ground arith

safe_redirect-root : (k : Checks) → safe_redirect k (codes "/") ≡ codes "/"
unfolding safe_redirect
safe_redirect-root k = ground arith

-- Sanitising twice, as the callbacks do with the target that the login sanitised, changes nothing.
pub safe_redirect_idem :
    (k : Checks) (p : Text) → safe_redirect k (safe_redirect k p) ≡ safe_redirect k p
safe_redirect_idem k p = elim (safe_redirect_cases k p) [
  | inl e ↦ rw e (safe_redirect-root k)
  | inr e ↦ rw e e
]

-- Whatever the header holds, the scheme that is stated is "http", "https" or none.
pub forwarded_proto_cases :
    (h : Text)
    → (forwarded_proto h ≡ codes "http")
      ⊎ (forwarded_proto h ≡ codes "https")
      ⊎ (forwarded_proto h ≡ [])
unfolding forwarded_proto
forwarded_proto_cases h = ground arith
