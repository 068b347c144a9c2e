-- ===== src/Console/Users/Rendered.antt =====
-- What of the users reaches the proxy's configuration.
use mathlib.Core.Path.{subst}
use pg_tool_box.Common.{
  true, some, List, [], ◌∷◌, ◌≡◌, ◌≢◌, inl, inr, map, text_eq, All, All-mono, Distinct, Member,
  Bool-cases, to_lower, All-Member, sym, ◌∙◌,
}
use pg_tool_box.Config.Accepts.Users.{user_key, IsValidUser}
use pg_tool_box.Console.Objects.{PgConsole, PgToolBoxUser}
use pg_tool_box.Console.Users.{
  Reader, ResolvedConsoleUser, proxy_included, key_of, proxy_users, resolve_console_user,
  resolve_attached, resolve_console_users, sort_users, bootstrap_admin_user_name,
}
use pg_tool_box.Console.Users.Order.{sort_users-IsLed, All-sort_users, Member-sort_users}
use pg_tool_box.Console.Users.Subjects.{IsFaithful, reject_duplicates-Distinct, bootstrap_subject}
use pg_tool_box.Console.Users.Own.{
  IsOwn, some_inj, resolve_user, resolve_sound, attached-IsOwn, resolve_attached-Member,
}

module _ (r : Reader) (console : PgConsole) where
  distinct :
      (items : List PgToolBoxUser) (l : List ResolvedConsoleUser)
      → resolve_console_users r console (some items) ≡ some l
      → Distinct (map user_key (proxy_users l))
  unfolding resolve_console_users
  distinct items l h =
      let b = bootstrap_admin_user_name console in
      subst (λ x. Distinct (map user_key (proxy_users x))) (some_inj h)
        (reject_duplicates-Distinct b [] (sort_users b (resolve_attached r console items)))

  proxy_users-valid :
      (items : List PgToolBoxUser) (l : List ResolvedConsoleUser)
      → All (λ user. user.spec.subject ≢ []) items
      → All (IsOwn r console items) l
      → All (IsValidUser r.checks console.authentication.local) (proxy_users l)
  unfolding proxy_users
  proxy_users-valid items [] named h = tt
  proxy_users-valid items (u ∷ l) named h =
      let rest = proxy_users-valid items l named h.1 in
      elim (Bool-cases (proxy_included u)) [
        | inr e ↦ rw e rest
        | inl e ↦ rw e (
          record {
            named = λ z.
                All-Member (λ user. user.spec.subject ≢ []) items named h.0.listed
                  (sym (h.0.faithful e) ∙ z);
            levelled = rw (h.0.granted e) (h.0.levelled e);
            hashed = h.0.hash_usable e;
          },
          rest,
        )
      ]

  -- The users that are rendered satisfy all that the proxy's validation asks of a user table, when
  -- no listed user has an empty subject.
  pub rendered_users_valid :
      (items : List PgToolBoxUser) (l : List ResolvedConsoleUser)
      → All (λ user. user.spec.subject ≢ []) items
      → resolve_console_users r console (some items) ≡ some l
      → All (IsValidUser r.checks console.authentication.local) (proxy_users l)
        × Distinct (map user_key (proxy_users l))
  rendered_users_valid items l named h =
      (proxy_users-valid items l named (resolve_sound r console items l h), distinct items l h)

  -- No user but the one that the operator owns for the first administrator is rendered under the
  -- subject of that user, in whatever letter case, be that user rendered itself or not.
  pub bootstrap_unshadowed :
      (items : List PgToolBoxUser) (l : List ResolvedConsoleUser) (admin : PgToolBoxUser)
      → Member admin items
      → admin.name ≡ bootstrap_admin_user_name console
      → admin.spec.console_ref ≡ console.name
      → resolve_console_users r console (some items) ≡ some l
      → All
          (λ u.
            proxy_included u ≡ true
            → key_of u ≡ to_lower admin.spec.subject
            → u.user.name ≡ bootstrap_admin_user_name console)
          l
  unfolding resolve_console_users
  bootstrap_unshadowed items l admin at name attached h =
      let b = bootstrap_admin_user_name console in
      let sorted = sort_users b (resolve_attached r console items) in
      let same = resolve_user r console admin in
      subst
        (All
          (λ u. proxy_included u ≡ true → key_of u ≡ to_lower admin.spec.subject → u.user.name ≡ b))
        (some_inj h)
        (rw (← same) (
          bootstrap_subject b [] sorted (resolve_console_user r console admin)
            (sort_users-IsLed b (resolve_attached r console items))
            (All-mono (IsOwn r console items) IsFaithful (λ u o. o.faithful) sorted
              (All-sort_users (IsOwn r console items) b (resolve_attached r console items)
                (attached-IsOwn r console items items (λ u m. m))))
            (Member-sort_users b (resolve_console_user r console admin)
              (resolve_attached r console items)
              (resolve_attached-Member r console items admin at attached))
            (rw same name)))
