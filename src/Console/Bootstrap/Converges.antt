-- ===== src/Console/Bootstrap/Converges.antt =====
-- What the reconcile of the first administrator leaves.
use pg_tool_box.Common.{
  true, Option, none, some, ◌≡◌, ◌≢◌, ◌↔◌, inl, inr, refl, arith, Text, text_eq, text_beq_iff,
  Option-cases, Bool-cases,
}
use pg_tool_box.Common.Dict
use pg_tool_box.Console.Bootstrap.{
  Users, Api, Write, done, nothing, same_ref, equal_bootstrap_admin_spec, desired_admin,
  converge_admin, reconcile_bootstrap_admin,
}
use pg_tool_box.Console.Objects.{
  SecretKeyReference, PgConsole, PgToolBoxUser, UserSpec, get, already_exists,
}

same_ref_iff : (a b : Option SecretKeyReference) → (same_ref a b ≡ true) ↔ (a ≡ b)
same_ref_iff none none = ground arith
same_ref_iff none (some b) = ground arith
same_ref_iff (some a) none = ground arith
same_ref_iff (some a) (some b) =
    ground (arith, text_beq_iff a.name b.name, text_beq_iff a.key b.key)

pub equal_spec_iff : (a b : UserSpec) → (equal_bootstrap_admin_spec a b ≡ true) ↔ (a ≡ b)
unfolding equal_bootstrap_admin_spec
equal_spec_iff a b = ground (
  arith,
  text_beq_iff a.console_ref b.console_ref,
  text_beq_iff a.subject b.subject,
  text_beq_iff a.level b.level,
  same_ref_iff a.local_password_secret_ref b.local_password_secret_ref,
)

module _ (console : PgConsole) where
  -- The users hold the administrator that the console declares.
  abbrev pub IsDeclared : Users → Type 0
  IsDeclared users =
      (u : PgToolBoxUser) × (Dict.lookup (desired_admin console).name users ≡ some u)
      × (u.spec ≡ (desired_admin console).spec)

  inserted :
      (u : PgToolBoxUser) (users after : Users)
      → u.spec ≡ (desired_admin console).spec
      → after ≡ Dict.insert (desired_admin console).name u users
      → IsDeclared after
        × ((k : Text)
            → k ≢ (desired_admin console).name
            → Dict.lookup k after ≡ Dict.lookup k users)
  inserted u users after same h =
      let name = (desired_admin console).name in
      rw h (
        (u, ground (arith, Dict.lookup-insert name name u users, text_beq_iff name name), same),
        λ k n. ground (arith, Dict.lookup-insert name k u users, text_beq_iff name k),
      )

module _ (api : Api) (console : PgConsole) where
  converge-IsDeclared :
      (existing : PgToolBoxUser) (users after : Users) (w : Write)
      → Dict.lookup (desired_admin console).name users ≡ some existing
      → converge_admin api existing (desired_admin console) users ≡ (done w, after)
      → IsDeclared console after
        × ((k : Text)
            → k ≢ (desired_admin console).name
            → Dict.lookup k after ≡ Dict.lookup k users)
  unfolding converge_admin
  converge-IsDeclared existing users after w there h =
      elim (Bool-cases (equal_bootstrap_admin_spec existing.spec (desired_admin console).spec)) [
        | inl e ↦ (
          (existing, ground arith, (equal_spec_iff existing.spec (desired_admin console).spec).0 e),
          λ k n. ground arith,
        )
        | inr e ↦
            let desired = desired_admin console in
            let adopted : PgToolBoxUser = record existing {
              spec = desired.spec;
              labels = desired.labels;
              owner = desired.owner;
            } in
            inserted console adopted users after refl (ground arith)
      ]

  pub reconcile_declares :
      (users after : Users) (w : Write)
      → api.creates ≢ already_exists
      → reconcile_bootstrap_admin api console users ≡ (done w, after)
      → IsDeclared console after
        × ((k : Text)
            → k ≢ (desired_admin console).name
            → Dict.lookup k after ≡ Dict.lookup k users)
  unfolding reconcile_bootstrap_admin get
  reconcile_declares users after w alone h =
      elim (Option-cases (Dict.lookup (desired_admin console).name users)) [
        | inl e ↦ inserted console (desired_admin console) users after refl (ground arith)
        | inr (existing, e) ↦ converge-IsDeclared existing users after w e (ground arith)
      ]

  rests_declared :
      (users : Users)
      → api.reads ≡ true
      → IsDeclared console users
      → reconcile_bootstrap_admin api console users ≡ (done nothing, users)
  unfolding reconcile_bootstrap_admin get converge_admin
  rests_declared users reads (u, there, same) =
      ground (arith, equal_spec_iff u.spec (desired_admin console).spec)

-- A reconcile that reports success, and that nobody else's creation overtook, leaves the administrator
-- that the console declares and no other change; from there, a reconcile that can read writes nothing.
pub reconcile_admin_converges :
    (api : Api) (console : PgConsole) (users after : Users) (w : Write)
    → api.creates ≢ already_exists
    → reconcile_bootstrap_admin api console users ≡ (done w, after)
    → IsDeclared console after
      × ((k : Text) → k ≢ (desired_admin console).name → Dict.lookup k after ≡ Dict.lookup k users)
      × ((later : Api)
          → later.reads ≡ true
          → reconcile_bootstrap_admin later console after ≡ (done nothing, after))
reconcile_admin_converges api console users after w alone h =
    let (declared, others) = reconcile_declares api console users after w alone h in
    (declared, others, λ later reads. rests_declared later console after reads declared)
