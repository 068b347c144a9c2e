-- ===== src/Console/Bootstrap/Admitted.antt =====
-- The first administrator reaches the proxy: the reconcile of the object and the resolution of the
-- users, one after the other.
use pg_tool_box.Common.{
  true, false, Option, none, some, List, [], ◌∷◌, ◌≡◌, ◌≢◌, ◌⊎◌, inl, inr, refl, arith, Text,
  text_eq, text_beq, text_beq_iff, ◌==◌, All, All-Member, Member, head, tail, Bool-cases, beq→ne,
  sym, ◌∙◌, ap,
}
use mathlib.Core.Path.{subst}
use pg_tool_box.Common.Dict
use pg_tool_box.Config.{level_dba, is_valid_level}
use pg_tool_box.Console.Bootstrap.{
  Users, Api, Write, done, desired_admin, reconcile_bootstrap_admin,
}
use pg_tool_box.Console.Bootstrap.Converges.{reconcile_declares}
use pg_tool_box.Console.Bootstrap.Namespace.{
  users_of, IsNamespace, Member-users_of, only, lookup_name, reconcile-IsNamespace,
}
use pg_tool_box.Console.Objects.{SecretKeyReference, PgConsole, PgToolBoxUser, already_exists}
use pg_tool_box.Console.Users.{
  Reader, ResolvedConsoleUser, proxy_included, hashed, read_local_password_hash, password_ref,
  resolve_console_user, resolve_attached, resolve_console_users, sort_users, reject_duplicates,
  mark_duplicate, claim, bootstrap_admin_user_name,
}
use pg_tool_box.Console.Users.Order.{IsLed, sort_users-IsLed, All-sort_users, Member-sort_users}
use pg_tool_box.Console.Users.Own.{some_inj, resolve_user, resolve_attached-Member}

module _ (bootstrap : Text) (x : ResolvedConsoleUser) where
  -- The bootstrap admin, if it is unique, comes first.
  first_is :
      (l : List ResolvedConsoleUser)
      → IsLed bootstrap l
      → x.user.name ≡ bootstrap
      → All (λ u. u.user.name ≡ bootstrap → u ≡ x) l
      → Member x l
      → (rest : List ResolvedConsoleUser) × (l ≡ x ∷ rest)
  first_is [] led name unique at = elim at [ ]
  first_is (x ∷ l) led name unique head = (l, refl)
  first_is (y ∷ l) led name unique (tail at) = elim (Bool-cases (y.user.name == bootstrap)) [
    | inl e ↦ (l, cc (unique.0 ((text_beq_iff y.user.name bootstrap).0 e)))
    | inr e ↦ absurd (
        All-Member (λ v. v.user.name ≢ bootstrap) l (led.0 (beq→ne y.user.name bootstrap e)) at
          name)
  ]

-- Rendered under the subject, as a dba.
abbrev pub IsAdmitted : Text → ResolvedConsoleUser → Type 0
IsAdmitted subject u =
    (proxy_included u ≡ true) × (u.proxy_user.subject ≡ subject) × (u.proxy_user.level ≡ level_dba)

module _ (r : Reader) (console : PgConsole) where
  attached_only :
      (items : List PgToolBoxUser) (admin : PgToolBoxUser) (name : Text)
      → All (λ v. v.name ≡ name → v ≡ admin) items
      → All
          (λ u. u.user.name ≡ name → u ≡ resolve_console_user r console admin)
          (resolve_attached r console items)
  unfolding resolve_attached
  attached_only [] admin name h = tt
  attached_only (v ∷ items) admin name h =
      let rest = attached_only items admin name h.1 in
      elim (Bool-cases (v.spec.console_ref == console.name)) [
        | inl e ↦ rw e (λ p. cc (h.0 (ap (λ u. u.name) (sym (resolve_user r console v)) ∙ p)), rest)
        | inr e ↦ rw e rest
      ]

  -- The password of the declared administrator does not stand in its way: none is referred to, local
  -- authentication is off, or the Secret holds a hash.
  abbrev pub HasUsablePassword : Option SecretKeyReference → Type 0
  HasUsablePassword none = Unit
  HasUsablePassword (some ref) =
      (console.authentication.local ≡ false)
      ⊎ ((hash : Text) × (read_local_password_hash r ref.name ref.key ≡ hashed hash))

  dba_valid : is_valid_level level_dba ≡ true
  unfolding is_valid_level text_beq
  dba_valid = refl

  included_as :
      (u : PgToolBoxUser) (subject : Text) (ref : Option SecretKeyReference)
      → u.spec.subject ≡ subject
      → u.spec.level ≡ level_dba
      → u.spec.local_password_secret_ref ≡ ref
      → HasUsablePassword ref
      → IsAdmitted subject (resolve_console_user r console u)
  unfolding resolve_console_user proxy_included password_ref
  included_as u subject none s level refers usable = ground (arith, dba_valid)
  included_as u subject (some ref) s level refers (inl off) = ground (arith, dba_valid)
  included_as u subject (some ref) s level refers (inr (hash, read)) = ground (arith, dba_valid)

  mark_first : (x : ResolvedConsoleUser) → mark_duplicate [] x ≡ x
  unfolding mark_duplicate
  mark_first x = ground arith

  resolved_first :
      (users : Users) (admin : PgToolBoxUser) (l : List ResolvedConsoleUser)
      → IsNamespace users
      → Dict.lookup (bootstrap_admin_user_name console) users ≡ some admin
      → admin.spec.console_ref ≡ console.name
      → resolve_console_users r console (some (users_of users)) ≡ some l
      → Member (resolve_console_user r console admin) l
  unfolding resolve_console_users reject_duplicates
  resolved_first users admin l named there attached h =
      let b = bootstrap_admin_user_name console in
      let x = resolve_console_user r console admin in
      let at = Member-users_of b admin users there in
      let items = resolve_attached r console (users_of users) in
      let (rest, e) =
        first_is b x (sort_users b items) (sort_users-IsLed b items)
          (ap (λ u. u.name) (resolve_user r console admin) ∙ lookup_name b admin users named there)
          (All-sort_users (λ u. u.user.name ≡ b → u ≡ x) b items
            (attached_only (users_of users) admin b (only b admin users named there)))
          (Member-sort_users b x items
            (resolve_attached-Member r console (users_of users) admin at attached)) in
      let listed : l ≡ x ∷ reject_duplicates b (claim b [] x) rest =
        sym (some_inj h)
        ∙ (ap (reject_duplicates b []) e
            ∙ ap (λ y. y ∷ reject_duplicates b (claim b [] x) rest) (mark_first x)) in
      rw listed head

-- After a reconcile of the first administrator that reports success, and that nobody else's creation
-- overtook, the users of the console that reach the proxy include the declared administrator, as a
-- dba, unless its password Secret cannot be used. Each user of the namespace has its own name.
pub admin-IsAdmitted :
    (api : Api) (r : Reader) (console : PgConsole) (users after : Users) (w : Write)
    (l : List ResolvedConsoleUser)
    → IsNamespace users
    → api.creates ≢ already_exists
    → reconcile_bootstrap_admin api console users ≡ (done w, after)
    → HasUsablePassword r console console.authentication.bootstrap_admin.password_secret_ref
    → resolve_console_users r console (some (users_of after)) ≡ some l
    → (u : ResolvedConsoleUser) × Member u l
      × IsAdmitted console.authentication.bootstrap_admin.subject u
unfolding desired_admin
admin-IsAdmitted api r console users after w l named alone h usable resolved =
    let ((admin, there, same), _) = reconcile_declares api console users after w alone h in
    let named_after : IsNamespace after =
      subst IsNamespace (ap (λ x. x.1) h) (reconcile-IsNamespace api console users named) in
    (
      resolve_console_user r console admin,
      resolved_first r console after admin l named_after there (ap (λ x. x.console_ref) same)
          resolved,
      included_as r console admin console.authentication.bootstrap_admin.subject
          console.authentication.bootstrap_admin.password_secret_ref (ap (λ x. x.subject) same)
          (ap (λ x. x.level) same) (ap (λ x. x.local_password_secret_ref) same) usable,
    )
