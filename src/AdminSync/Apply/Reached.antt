-- ===== src/AdminSync/Apply/Reached.antt =====
-- What a synchronisation leaves behind where every earlier one succeeded.
use mathlib.Core.Path.{subst}
use pg_tool_box.Common.{
  sym, ap, ◌∙◌, ◌≡◌, arith, true, Option, some, List, [], ◌∷◌, ◌++◌, Text, text_eq, text_beq_iff,
  trim_space, Bool-cases, Option-cases, inl, inr, ◌==◌,
}
use pg_tool_box.Common.Dict
use pg_tool_box.AdminSync.Passfile.{Server, passfile_content}
use pg_tool_box.AdminSync.Apply.{
  Os, State, storage_of, user_storage_directory, provision, provision_all, apply, accounts,
}
use pg_tool_box.AdminSync.Apply.Converged.{IsHonest, provision-IsConverged, provision_other, raw_of}
use pg_tool_box.AdminSync.Apply.Loop.{IsApplied}
use pg_tool_box.AdminSync.Apply.Outcome.{apply_converges}

-- A fingerprint is a line without spaces at its ends, and tells the credentials that it was made of.
pub record IsFingerprint (fingerprint : List Server → Option Text) : Type 0 where
  pub trims :
      (servers : List Server) (d : Text)
      → fingerprint servers ≡ some d
      → trim_space (d ++ b'\n' ∷ []) ≡ d
  pub tells :
      (servers others : List Server) (d : Text)
      → fingerprint servers ≡ some d
      → fingerprint others ≡ some d
      → passfile_content servers ≡ passfile_content others

module _ (fingerprint : List Server → Option Text) where
  -- The states of a sidecar that began without files and whose synchronisations succeeded so far, in
  -- whatever environments.
  pub data Reached : State → Type 0 where
    fresh : (s : State) → s.storage ≡ [] → Reached s
    synced :
        (os : Os) (servers : List Server) (s : State)
        → os.fingerprint ≡ fingerprint
        → Reached s
        → (apply os servers s).0 ≡ true
        → Reached (apply os servers s).1

  -- Every directory holds the credentials that its revision was made of.
  abbrev IsTruthful : State → Type 0
  IsTruthful s =
      (os : Os) (servers : List Server) (d : Text)
      → fingerprint servers ≡ some d
      → IsHonest os d servers s

  provision-IsTruthful :
      (os : Os) (servers : List Server) (desired account : Text) (s : State)
      → IsFingerprint fingerprint
      → fingerprint servers ≡ some desired
      → IsTruthful s
      → (provision os desired servers account s).0 ≡ true
      → IsTruthful (provision os desired servers account s).1
  provision-IsTruthful os servers desired account s law made h done os' others d made' dir raw r t =
      let own = user_storage_directory os account in
      let s' = (provision os desired servers account s).1 in
      elim (Bool-cases (own == dir)) [
        | inr apart ↦
            let e =
              provision_other os desired servers account dir s
                (λ p. ground (arith, text_beq_iff own dir)) in
            ap (λ x. x.passfile) e
            ∙ h os' others d made' dir raw (ap (λ x. x.revision) (sym e) ∙ r) t
        | inl same ↦
            let at = (text_beq_iff own dir).0 same in
            let c =
              provision-IsConverged os desired servers account s (law.trims servers desired made)
                (h os servers desired made) done in
            let (raw', r', t') = raw_of os desired servers account s' c.0 in
            let here = subst (λ x. (storage_of x s').revision ≡ some raw') at r' in
            let one : raw ≡ raw' = ground (arith, r, here) in
            let agree : d ≡ desired = sym t ∙ (ap trim_space one ∙ t') in
            let told = law.tells servers others desired made (made' ∙ ap some agree) in
            subst (λ x. (storage_of x s').passfile ≡ some (passfile_content servers)) at c.1
            ∙ ap some told
      ]

  legacy-IsTruthful :
      (s : State) (content : Option Text)
      → IsTruthful s
      → IsTruthful (record s { legacy = content })
  unfolding storage_of
  legacy-IsTruthful s content h os servers d made dir raw r t = h os servers d made dir raw r t

  provision_all-IsTruthful :
      (os : Os) (servers : List Server) (desired : Text) (names : List Text) (s : State)
      → IsFingerprint fingerprint
      → fingerprint servers ≡ some desired
      → IsTruthful s
      → (provision_all os desired servers names s).0 ≡ true
      → IsTruthful (provision_all os desired servers names s).1
  unfolding provision_all
  provision_all-IsTruthful os servers desired [] s law made h done =
      let e : provision_all os desired servers [] s
          ≡ (true, record s { legacy = some (passfile_content servers) }) =
        ground arith in
      subst (λ x. IsTruthful x.1) (sym e) (legacy-IsTruthful s (some (passfile_content servers)) h)
  provision_all-IsTruthful os servers desired (account ∷ names) s law made h done =
      let s' = (provision os desired servers account s).1 in
      let d : (provision os desired servers account s).0 ≡ true = ground arith in
      let e : provision_all os desired servers (account ∷ names) s
          ≡ provision_all os desired servers names s' =
        ground arith in
      subst (λ x. IsTruthful x.1) (sym e)
        (provision_all-IsTruthful os servers desired names s' law made
          (provision-IsTruthful os servers desired account s law made h d)
          (ap (λ x. x.0) (sym e) ∙ done))

  apply-IsTruthful :
      (os : Os) (servers : List Server) (s : State)
      → IsFingerprint fingerprint
      → os.fingerprint ≡ fingerprint
      → IsTruthful s
      → (apply os servers s).0 ≡ true
      → IsTruthful (apply os servers s).1
  unfolding apply
  apply-IsTruthful os servers s law same h done = elim (Option-cases (accounts os.query)) [
    | inl e ↦ absurd (ground arith)
    | inr (names, e) ↦ elim (Option-cases (os.fingerprint servers)) [
      | inl f ↦ absurd (ground arith)
      | inr (desired, f) ↦
          let runs : apply os servers s ≡ provision_all os desired servers names s = ground arith in
          subst (λ x. IsTruthful x.1) (sym runs)
            (provision_all-IsTruthful os servers desired names s law
              (ap (λ g. g servers) (sym same) ∙ f) h (ap (λ x. x.0) (sym runs) ∙ done))
    ]
  ]

  fresh-IsTruthful : (s : State) → s.storage ≡ [] → IsTruthful s
  unfolding storage_of Dict.lookup
  fresh-IsTruthful s e os servers d made dir raw r t = absurd (ground arith)

  Reached-IsTruthful : (s : State) → IsFingerprint fingerprint → Reached s → IsTruthful s
  Reached-IsTruthful _ law (fresh s e) = fresh-IsTruthful s e
  Reached-IsTruthful _ law (synced os servers s same before done) =
      apply-IsTruthful os servers s law same (Reached-IsTruthful s law before) done

  -- Where every synchronisation so far succeeded, from a sidecar without files on, the next one that
  -- succeeds leaves the directory of every account of pgAdmin at the revision of the servers it was
  -- given, with their credentials, and the combined file with them. The fingerprint is a line without
  -- spaces at its ends, and does not collide.
  pub Reached-applies :
      (os : Os) (servers : List Server) (s : State)
      → IsFingerprint fingerprint
      → os.fingerprint ≡ fingerprint
      → Reached s
      → (apply os servers s).0 ≡ true
      → (names : List Text) × (desired : Text) × (accounts os.query ≡ some names)
        × (fingerprint servers ≡ some desired)
        × IsApplied os desired servers names (apply os servers s).1
  unfolding apply
  Reached-applies os servers s law same before done = elim (Option-cases (accounts os.query)) [
    | inl e ↦ absurd (ground arith)
    | inr (names, e) ↦ elim (Option-cases (os.fingerprint servers)) [
      | inl f ↦ absurd (ground arith)
      | inr (desired, f) ↦
          let made = ap (λ g. g servers) (sym same) ∙ f in
          (
            names,
            desired,
            e,
            made,
            apply_converges os desired servers names s e f (law.trims servers desired made)
                (Reached-IsTruthful s law before os servers desired made) done,
          )
    ]
  ]
