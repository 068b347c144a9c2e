-- ===== src/Config/Accepts/Users.antt =====
-- The user table: every user is valid alone, and no two share a subject up to letter case.
use pg_tool_box.Common.{
  ℕ, suc, Bool, true, List, [], ◌∷◌, ◌≡◌, ◌≢◌, ◌↔◌, refl, arith, Text, map, All, Distinct, to_lower,
}
use pg_tool_box.Config.Accepts.Seen.{is_seen-eq-false_iff, IsFresh, IsFresh-cons, IsFresh-nil}
use pg_tool_box.Config.{User}
use pg_tool_box.Config.Levels.{IsConfigurable, is_valid_level_iff}
use pg_tool_box.Config.Validate.{Checks, users_problems, user_problems}

pub record IsValidUser (k : Checks) (local : Bool) (u : User) : Type 0 where
  pub named : u.subject ≢ []
  pub levelled : IsConfigurable u.level
  pub hashed :
      u.local_password_bcrypt ≢ []
      → (local ≡ true) × (k.is_bcrypt_hash u.local_password_bcrypt ≡ true)

-- The key of a user in every map of the proxy.
abbrev pub user_key : User → Text
user_key u = to_lower u.subject

module _ (k : Checks) (local : Bool) where
  user_iff :
      (i : ℕ) (seen : List Text) (u : User)
      → (user_problems k local i seen u ≡ [])
        ↔ (IsValidUser k local u × All (λ s. s ≢ user_key u) seen)
  unfolding user_problems
  user_iff i seen u =
      ground (arith, is_valid_level_iff u.level, is_seen-eq-false_iff (user_key u) seen)

  users_loop_iff :
      (i : ℕ) (seen : List Text) (us : List User)
      → (users_problems k local i seen us ≡ []) ↔ (
          All (IsValidUser k local) us
          × Distinct (map user_key us)
          × IsFresh seen (map user_key us))
  unfolding users_problems
  users_loop_iff i seen [] = (λ _. (tt, tt, tt), λ _. refl)
  users_loop_iff i seen (u ∷ us) = ground (
    arith,
    user_iff i seen u,
    users_loop_iff (suc i) (user_key u ∷ seen) us,
    IsFresh-cons (user_key u) seen (map user_key us),
  )

pub users_iff :
    (k : Checks) (local : Bool) (us : List User)
    → (users_problems k local 0 [] us ≡ [])
      ↔ (All (IsValidUser k local) us × Distinct (map user_key us))
users_iff k local us = ground (arith, users_loop_iff k local 0 [] us, IsFresh-nil (map user_key us))
