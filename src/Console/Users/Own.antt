-- ===== src/Console/Users/Own.antt =====
-- Where the resolved users come from.
use mathlib.Core.Path.{subst}
use pg_tool_box.Common.{
  true, false, some, List, [], ◌∷◌, ◌≡◌, ◌≢◌, ◌⊎◌, inl, inr, arith, Text, text_eq, text_beq_iff,
  ◌==◌, All, Member, head, tail, Bool-cases,
}
use pg_tool_box.Config.Levels.{IsConfigurable, is_valid_level_iff}
use pg_tool_box.Console.Objects.{PgConsole, PgToolBoxUser}
use pg_tool_box.Console.Users.{
  Reader, ResolvedConsoleUser, proxy_included, claim, mark_duplicate, reject_duplicates,
  resolve_console_user, resolve_attached, resolve_console_users, sort_users,
  bootstrap_admin_user_name, password_ref, read_local_password_hash, check_hash,
}
use pg_tool_box.Console.Users.Order.{All-sort_users}
use pg_tool_box.Console.Users.Subjects.{IsFaithful}

pub some_inj : {l m : List ResolvedConsoleUser} → some l ≡ some m → l ≡ m
some_inj h = cc

module _ (r : Reader) (console : PgConsole) where
  -- `u` stands for a listed user of the console, and is rendered with that user's own subject and
  -- level, and with no hash but a bcrypt one that local authentication can use.
  pub record IsOwn (items : List PgToolBoxUser) (u : ResolvedConsoleUser) : Type 0 where
    pub listed : Member u.user items
    pub attached : u.user.spec.console_ref ≡ console.name
    pub faithful : IsFaithful u
    pub granted : proxy_included u ≡ true → u.proxy_user.level ≡ u.user.spec.level
    pub levelled : proxy_included u ≡ true → IsConfigurable u.user.spec.level
    pub hash_usable :
        proxy_included u ≡ true
        → u.proxy_user.local_password_bcrypt ≢ []
        → (console.authentication.local ≡ true)
          × (r.checks.is_bcrypt_hash u.proxy_user.local_password_bcrypt ≡ true)

  pub resolve_user : (user : PgToolBoxUser) → (resolve_console_user r console user).user ≡ user
  unfolding resolve_console_user
  resolve_user user = ground arith

  resolve-IsFaithful : (user : PgToolBoxUser) → IsFaithful (resolve_console_user r console user)
  unfolding resolve_console_user proxy_included
  resolve-IsFaithful user i = ground arith

  resolve_granted :
      (user : PgToolBoxUser)
      → proxy_included (resolve_console_user r console user) ≡ true
      → (resolve_console_user r console user).proxy_user.level
        ≡ (resolve_console_user r console user).user.spec.level
  unfolding resolve_console_user proxy_included
  resolve_granted user i = ground arith

  resolve_levelled :
      (user : PgToolBoxUser)
      → proxy_included (resolve_console_user r console user) ≡ true
      → IsConfigurable user.spec.level
  unfolding resolve_console_user proxy_included
  resolve_levelled user i = ground (arith, is_valid_level_iff user.spec.level)

  resolve_hash :
      (user : PgToolBoxUser)
      → proxy_included (resolve_console_user r console user) ≡ true
      → (resolve_console_user r console user).proxy_user.local_password_bcrypt ≢ []
      → (console.authentication.local ≡ true)
        × (r.checks.is_bcrypt_hash
              (resolve_console_user r console user).proxy_user.local_password_bcrypt
            ≡ true)
  unfolding resolve_console_user proxy_included password_ref read_local_password_hash check_hash
  resolve_hash user i n = ground arith

  mark-cases :
      (seen : List Text) (u : ResolvedConsoleUser)
      → (mark_duplicate seen u ≡ u)
        ⊎ (((mark_duplicate seen u).user ≡ u.user)
            × (proxy_included (mark_duplicate seen u) ≡ false))
  unfolding mark_duplicate proxy_included
  mark-cases seen u = ground arith

  resolve-IsOwn :
      (items : List PgToolBoxUser) (user : PgToolBoxUser)
      → Member user items
      → user.spec.console_ref ≡ console.name
      → IsOwn items (resolve_console_user r console user)
  resolve-IsOwn items user at attached = record {
    listed = rw (resolve_user user) at;
    attached = rw (resolve_user user) attached;
    faithful = resolve-IsFaithful user;
    granted = resolve_granted user;
    levelled = λ i. rw (resolve_user user) (resolve_levelled user i);
    hash_usable = resolve_hash user;
  }

  pub attached-IsOwn :
      (all_items items : List PgToolBoxUser)
      → ((user : PgToolBoxUser) → Member user items → Member user all_items)
      → All (IsOwn all_items) (resolve_attached r console items)
  unfolding resolve_attached
  attached-IsOwn all_items [] up = tt
  attached-IsOwn all_items (user ∷ items) up =
      let rest = attached-IsOwn all_items items (λ u at. up u (tail at)) in
      elim (Bool-cases (user.spec.console_ref == console.name)) [
        | inl e ↦ rw e (
          resolve-IsOwn all_items user (up user head)
              ((text_beq_iff user.spec.console_ref console.name).0 e),
          rest,
        )
        | inr e ↦ rw e rest
      ]

  mark_duplicate-IsOwn :
      (items : List PgToolBoxUser) (seen : List Text) (u : ResolvedConsoleUser)
      → IsOwn items u
      → IsOwn items (mark_duplicate seen u)
  mark_duplicate-IsOwn items seen u h = elim (mark-cases seen u) [
    | inl e ↦ rw e h
    | inr (same, off) ↦ record {
      listed = rw same h.listed;
      attached = rw same h.attached;
      faithful = λ i. absurd (cc (off, i));
      granted = λ i. absurd (cc (off, i));
      levelled = λ i. absurd (cc (off, i));
      hash_usable = λ i. absurd (cc (off, i));
    }
  ]

  reject_duplicates-IsOwn :
      (bootstrap : Text) (items : List PgToolBoxUser) (seen : List Text)
      (l : List ResolvedConsoleUser)
      → All (IsOwn items) l
      → All (IsOwn items) (reject_duplicates bootstrap seen l)
  unfolding reject_duplicates
  reject_duplicates-IsOwn bootstrap items seen [] h = tt
  reject_duplicates-IsOwn bootstrap items seen (u ∷ l) h = (
    mark_duplicate-IsOwn items seen u h.0,
    reject_duplicates-IsOwn bootstrap items (claim bootstrap seen u) l h.1,
  )

  pub resolve_attached-Member :
      (items : List PgToolBoxUser) (user : PgToolBoxUser)
      → Member user items
      → user.spec.console_ref ≡ console.name
      → Member (resolve_console_user r console user) (resolve_attached r console items)
  unfolding resolve_attached
  resolve_attached-Member [] user at attached = elim at [ ]
  resolve_attached-Member (x ∷ items) user head attached =
      rw ((text_beq_iff user.spec.console_ref console.name).1 attached) head
  resolve_attached-Member (x ∷ items) user (tail at) attached =
      let later = resolve_attached-Member items user at attached in
      elim (Bool-cases (x.spec.console_ref == console.name)) [
        | inl e ↦ rw e (tail later)
        | inr e ↦ rw e later
      ]

  -- Every user that a console resolves is a listed user of that console, rendered, if it is, with its
  -- own subject and level and with no password hash but one that the proxy accepts.
  pub resolve_sound :
      (items : List PgToolBoxUser) (l : List ResolvedConsoleUser)
      → resolve_console_users r console (some items) ≡ some l
      → All (IsOwn items) l
  unfolding resolve_console_users
  resolve_sound items l h =
      let b = bootstrap_admin_user_name console in
      let attached = resolve_attached r console items in
      subst (All (IsOwn items)) (some_inj h) (
        reject_duplicates-IsOwn b items [] (sort_users b attached)
          (All-sort_users (IsOwn items) b attached (attached-IsOwn items items (λ u at. at))))
