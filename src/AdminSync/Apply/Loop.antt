-- ===== src/AdminSync/Apply/Loop.antt =====
-- The loop of `apply` and the combined file.
use mathlib.Core.Path.{subst}
use pg_tool_box.Common.{
  sym, ap, ◌∙◌, ◌≡◌, refl, arith, true, Option, some, List, [], ◌∷◌, ◌++◌, Text, text_eq,
  trim_space, Bool-cases, inl, inr, All,
}
use pg_tool_box.AdminSync.Passfile.{Server, passfile_content}
use pg_tool_box.AdminSync.Apply.{
  Os, State, storage_of, user_storage_directory, applied_revision, provision, provision_all,
}
use pg_tool_box.AdminSync.Apply.Converged.{
  IsHonest, IsConverged, provision-IsHonest, provision-IsConverged, provision_current,
  provision_keeps, storage_of-IsConverged,
}

module _ (os : Os) (desired : Text) (servers : List Server) where
  -- Every account is converged, and so is the combined file.
  abbrev pub IsApplied : List Text → State → Type 0
  IsApplied names s =
      All (IsConverged os desired servers s) names × (s.legacy ≡ some (passfile_content servers))

  with_legacy :
      (account : Text) (s : State) (content : Option Text)
      → IsConverged os desired servers s account
      → IsConverged os desired servers (record s { legacy = content }) account
  unfolding storage_of
  with_legacy account s content h =
      storage_of-IsConverged os desired servers account s (record s { legacy = content }) refl h

  rest_keeps :
      (account : Text) (rest : List Text) (s : State)
      → IsConverged os desired servers s account
      → IsConverged os desired servers (provision_all os desired servers rest s).1 account
  unfolding provision_all applied_revision user_storage_directory
  rest_keeps account [] s h = elim (Bool-cases os.writes_legacy) [
    | inl w ↦ rw (provision_all, w) (with_legacy account s (some (passfile_content servers)) h)
    | inr w ↦ rw (provision_all, w) h
  ]
  rest_keeps account (other ∷ rest) s h =
      let s' = (provision os desired servers other s).1 in
      let k = provision_keeps os desired servers other account s h in
      elim (Bool-cases (provision os desired servers other s).0) [
        | inl d ↦ rw (provision_all, d) (rest_keeps account rest s' k)
        | inr d ↦ rw (provision_all, d) k
      ]

  pub provision_all-IsApplied :
      (names : List Text) (s : State)
      → trim_space (desired ++ b'\n' ∷ []) ≡ desired
      → IsHonest os desired servers s
      → (provision_all os desired servers names s).0 ≡ true
      → IsApplied names (provision_all os desired servers names s).1
  unfolding provision_all
  provision_all-IsApplied [] s trims h done = (tt, ground arith)
  provision_all-IsApplied (account ∷ rest) s trims h done =
      let s' = (provision os desired servers account s).1 in
      let d : (provision os desired servers account s).0 ≡ true = ground arith in
      let e : provision_all os desired servers (account ∷ rest) s
          ≡ provision_all os desired servers rest s' =
        ground arith in
      let first = provision-IsConverged os desired servers account s trims h d in
      let others =
        provision_all-IsApplied rest s' trims (provision-IsHonest os desired servers account s h)
          (ap (λ x. x.0) (sym e) ∙ done) in
      subst (λ x. IsApplied (account ∷ rest) x.1) (sym e)
        ((rest_keeps account rest s' first, others.0), others.1)

  pub provision_all-again :
      (names : List Text) (s : State)
      → os.writes_legacy ≡ true
      → IsApplied names s
      → provision_all os desired servers names s ≡ (true, s)
  unfolding provision_all
  provision_all-again [] s w h =
      rw (provision_all, w) (ap (λ l. (true, record s { legacy = l })) (sym h.1))
  provision_all-again (account ∷ rest) s w h =
      rw (provision_all, provision_current os desired servers account s h.0.0.0)
        (provision_all-again rest s w (h.0.1, h.1))

  pub provision_all_writes :
      (names : List Text) (s : State)
      → (provision_all os desired servers names s).0 ≡ true
      → os.writes_legacy ≡ true
  unfolding provision_all
  provision_all_writes [] s done = ground arith
  provision_all_writes (account ∷ rest) s done =
      provision_all_writes rest (provision os desired servers account s).1 (ground arith)
