-- ===== src/Console/Bootstrap/Namespace.antt =====
-- The users of a namespace, as `List` gives them.
use mathlib.Core.Path.{subst}
use pg_tool_box.Common.{
  some, List, [], ◌∷◌, ◌≡◌, ◌≢◌, inl, inr, refl, arith, Text, text_eq, text_beq_iff, ◌==◌, All,
  All-mono, Member, head, tail, Bool-cases, Option-cases, beq→ne, sym, ◌∙◌,
}
use pg_tool_box.Common.Dict
use pg_tool_box.Console.Bootstrap.{
  Users, Api, desired_admin, converge_admin, reconcile_bootstrap_admin,
}
use pg_tool_box.Console.Objects.{PgConsole, PgToolBoxUser, get}

-- What `List` gives.
abbrev pub users_of : Users → List PgToolBoxUser
users_of [] = []
users_of ((name, u) ∷ users) = u ∷ users_of users

-- Every user stands under its own name, and no name stands twice.
abbrev pub IsNamespace : Users → Type 0
IsNamespace [] = Unit
IsNamespace ((name, u) ∷ users) =
    (u.name ≡ name) × All (λ v. v.name ≢ name) (users_of users) × IsNamespace users

module _ (name : Text) (u : PgToolBoxUser) where
  pub Member-users_of :
      (users : Users) → Dict.lookup name users ≡ some u → Member u (users_of users)
  unfolding Dict.lookup
  Member-users_of [] h = absurd (ground arith)
  Member-users_of ((n, v) ∷ users) h = elim (Bool-cases (n == name)) [
    | inl e ↦ subst (λ w. Member w (v ∷ users_of users)) (ground arith) head
    | inr e ↦ tail (Member-users_of users (ground arith))
  ]

  -- The name of a user is its own.
  pub only :
      (users : Users)
      → IsNamespace users
      → Dict.lookup name users ≡ some u
      → All (λ w. w.name ≡ name → w ≡ u) (users_of users)
  unfolding Dict.lookup
  only [] h there = tt
  only ((n, v) ∷ users) h there = elim (Bool-cases (n == name)) [
    | inl e ↦ (
      λ p. ground arith,
      All-mono (λ w. w.name ≢ n) (λ w. w.name ≡ name → w ≡ u)
          (λ w off p. absurd (off (p ∙ sym ((text_beq_iff n name).0 e)))) (users_of users) h.1,
    )
    | inr e ↦ (λ p. absurd (beq→ne n name e (sym h.0 ∙ p)), only users h.2 (ground arith))
  ]

  pub lookup_name :
      (users : Users) → IsNamespace users → Dict.lookup name users ≡ some u → u.name ≡ name
  unfolding Dict.lookup
  lookup_name [] h there = absurd (ground arith)
  lookup_name ((n, v) ∷ users) h there = elim (Bool-cases (n == name)) [
    | inl e ↦ ground (arith, text_beq_iff n name)
    | inr e ↦ lookup_name users h.2 (ground arith)
  ]

module _ (k : Text) where
  All-remove :
      (P : PgToolBoxUser → Type 0) (users : Users)
      → All P (users_of users)
      → All P (users_of (Dict.remove k users))
  unfolding Dict.remove
  All-remove P [] h = tt
  All-remove P ((n, v) ∷ users) h = elim (Bool-cases (n == k)) [
    | inl e ↦ rw e (All-remove P users h.1)
    | inr e ↦ rw e (h.0, All-remove P users h.1)
  ]

  remove-IsNamespace : (users : Users) → IsNamespace users → IsNamespace (Dict.remove k users)
  unfolding Dict.remove
  remove-IsNamespace [] h = tt
  remove-IsNamespace ((n, v) ∷ users) h = elim (Bool-cases (n == k)) [
    | inl e ↦ rw e (remove-IsNamespace users h.2)
    | inr e ↦ rw e (h.0, All-remove (λ w. w.name ≢ n) users h.1, remove-IsNamespace users h.2)
  ]

  removed :
      (users : Users) → IsNamespace users → All (λ v. v.name ≢ k) (users_of (Dict.remove k users))
  unfolding Dict.remove
  removed [] h = tt
  removed ((n, v) ∷ users) h = elim (Bool-cases (n == k)) [
    | inl e ↦ rw e (removed users h.2)
    | inr e ↦ rw e (λ p. beq→ne n k e (sym h.0 ∙ p), removed users h.2)
  ]

  insert-IsNamespace :
      (u : PgToolBoxUser) (users : Users)
      → u.name ≡ k
      → IsNamespace users
      → IsNamespace (Dict.insert k u users)
  unfolding Dict.insert
  insert-IsNamespace u users same h = (same, removed users h, remove-IsNamespace users h)

pub reconcile-IsNamespace :
    (api : Api) (console : PgConsole) (users : Users)
    → IsNamespace users
    → IsNamespace (reconcile_bootstrap_admin api console users).1
unfolding reconcile_bootstrap_admin get converge_admin
reconcile-IsNamespace api console users h =
    let desired = desired_admin console in
    elim (Option-cases (Dict.lookup desired.name users)) [
      | inl e ↦ ground (arith, insert-IsNamespace desired.name desired users refl h)
      | inr (u, e) ↦ ground (
        arith,
        insert-IsNamespace desired.name
            (record u { spec = desired.spec; labels = desired.labels; owner = desired.owner }) users
            (lookup_name desired.name u users h e) h,
      )
    ]
