-- ===== src/AdminSync/Apply/Converged.antt =====
-- What a successful synchronisation leaves behind.
use mathlib.Core.Path.{subst}
use pg_tool_box.Common.{
  sym, ap, ◌∙◌, ◌≡◌, ◌≢◌, refl, arith, true, some, List, [], ◌∷◌, ◌++◌, Text, ◌==◌, text_eq,
  text_beq_iff, trim_space, if◌then◌else◌, Bool-cases, Option-cases, inl, inr, ◌⊎◌,
}
use pg_tool_box.Common.Dict
use pg_tool_box.AdminSync.Passfile.{Server, passfile_content}
use pg_tool_box.AdminSync.Apply.{
  Os, Storage, State, storage_of, put_storage, user_storage_directory, applied_revision,
  write_passfile, load_servers, record_revision, is_current, provision,
}

storage_of-put_storage :
    (d e : Text) (x : Storage) (s : State)
    → storage_of d (put_storage e x s) ≡ (if e == d then x else storage_of d s)
unfolding storage_of
storage_of-put_storage d e x s = ground (arith, Dict.lookup-insert e d x s.storage)

module _ (os : Os) (desired : Text) (servers : List Server) where
  -- A directory after each step of a round.
  pub storage_of-write_passfile :
      (account d : Text) (s : State)
      → let own = user_storage_directory os account in
        storage_of d (write_passfile os account servers s) ≡ (
          if own == d
          then record (storage_of own s) { passfile = some (passfile_content servers) }
          else storage_of d s)
  unfolding write_passfile
  storage_of-write_passfile account d s = storage_of-put_storage d _ _ s

  storage_of-load_servers :
      (account d : Text) (s : State)
      → storage_of d (load_servers account servers s) ≡ storage_of d s
  unfolding storage_of load_servers
  storage_of-load_servers account d s = refl

  storage_of-record_revision :
      (account d : Text) (s : State)
      → let own = user_storage_directory os account in
        storage_of d (record_revision os account desired s) ≡ (
          if own == d
          then record (storage_of own s) { revision = some (desired ++ b'\n' ∷ []) }
          else storage_of d s)
  unfolding record_revision
  storage_of-record_revision account d s = storage_of-put_storage d _ _ s

  -- A directory whose revision is the desired one holds the desired credentials.
  abbrev pub IsHonest : State → Type 0
  IsHonest s =
      (dir raw : Text)
      → (storage_of dir s).revision ≡ some raw
      → trim_space raw ≡ desired
      → (storage_of dir s).passfile ≡ some (passfile_content servers)

  -- The account's directory is at the desired revision and holds the desired credentials.
  abbrev pub IsConverged : State → Text → Type 0
  IsConverged s account =
      (applied_revision os account s ≡ some desired)
      × ((storage_of (user_storage_directory os account) s).passfile
          ≡ some (passfile_content servers))

  -- What one round can do to a directory.
  provision_storage :
      (account dir : Text) (s : State)
      → (storage_of dir (provision os desired servers account s).1 ≡ storage_of dir s)
        ⊎ ((storage_of dir (provision os desired servers account s).1).passfile
            ≡ some (passfile_content servers))
  unfolding provision
  provision_storage account dir s =
      let s1 = write_passfile os account servers s in
      let s2 = load_servers account servers s1 in
      ground (
        arith,
        storage_of-write_passfile account dir s,
        storage_of-load_servers account dir s1,
        storage_of-record_revision account dir s2,
        storage_of-write_passfile account (user_storage_directory os account) s,
        storage_of-load_servers account (user_storage_directory os account) s1,
        text_beq_iff (user_storage_directory os account) dir,
        text_beq_iff (user_storage_directory os account) (user_storage_directory os account),
      )

  pub provision_other :
      (account dir : Text) (s : State)
      → user_storage_directory os account ≢ dir
      → storage_of dir (provision os desired servers account s).1 ≡ storage_of dir s
  unfolding provision
  provision_other account dir s apart =
      let s1 = write_passfile os account servers s in
      let s2 = load_servers account servers s1 in
      ground (
        arith,
        storage_of-write_passfile account dir s,
        storage_of-load_servers account dir s1,
        storage_of-record_revision account dir s2,
        text_beq_iff (user_storage_directory os account) dir,
      )

  pub provision-IsHonest :
      (account : Text) (s : State)
      → IsHonest s
      → IsHonest (provision os desired servers account s).1
  provision-IsHonest account s h dir raw r t = elim (provision_storage account dir s) [
    | inl same ↦ rw same (h dir raw (rw same at r) t)
    | inr written ↦ written
  ]

  pub applied_of :
      (account raw : Text) (s : State)
      → (storage_of (user_storage_directory os account) s).revision ≡ some raw
      → applied_revision os account s ≡ some (trim_space raw)
  unfolding applied_revision
  applied_of account raw s h = rw (applied_revision, h)

  current_of :
      (account : Text) (s : State)
      → is_current (applied_revision os account s) desired ≡ true
      → applied_revision os account s ≡ some desired
  current_of account s h = elim (Option-cases (applied_revision os account s)) [
    | inl e ↦ absurd (ground arith)
    | inr (r, e) ↦ ground (arith, text_beq_iff r desired)
  ]

  pub raw_of :
      (account : Text) (s : State)
      → applied_revision os account s ≡ some desired
      → (raw : Text) × ((storage_of (user_storage_directory os account) s).revision ≡ some raw)
        × (trim_space raw ≡ desired)
  unfolding applied_revision
  raw_of account s h =
      elim (Option-cases (storage_of (user_storage_directory os account) s).revision) [
        | inl e ↦ absurd (ground arith)
        | inr (raw, e) ↦ (raw, e, ground arith)
      ]

  current-IsConverged :
      (account : Text) (s : State)
      → IsHonest s
      → is_current (applied_revision os account s) desired ≡ true
      → IsConverged s account
  current-IsConverged account s h c =
      let (raw, r, t) = raw_of account s (current_of account s c) in
      (current_of account s c, h (user_storage_directory os account) raw r t)

  written-IsConverged :
      (account : Text) (s : State)
      → trim_space (desired ++ b'\n' ∷ []) ≡ desired
      → IsConverged
          (record_revision os account desired
            (load_servers account servers (write_passfile os account servers s)))
          account
  written-IsConverged account s trims =
      let own = user_storage_directory os account in
      let s1 = write_passfile os account servers s in
      let s2 = load_servers account servers s1 in
      let s3 = record_revision os account desired s2 in
      let raw = desired ++ b'\n' ∷ [] in
      let same = text_beq_iff own own in
      let held : (storage_of own s3).revision ≡ some raw =
        ground (arith, same, storage_of-record_revision account own s2) in
      (
        applied_of account raw s3 held ∙ ap (λ t. some t) trims,
        ground (
          arith,
          same,
          storage_of-record_revision account own s2,
          storage_of-load_servers account own s1,
          storage_of-write_passfile account own s,
        ),
      )

  pub provision-IsConverged :
      (account : Text) (s : State)
      → trim_space (desired ++ b'\n' ∷ []) ≡ desired
      → IsHonest s
      → (provision os desired servers account s).0 ≡ true
      → IsConverged (provision os desired servers account s).1 account
  unfolding provision
  provision-IsConverged account s trims h done =
      let last =
        record_revision os account desired
          (load_servers account servers (write_passfile os account servers s)) in
      elim (Bool-cases (is_current (applied_revision os account s) desired)) [
        | inl c ↦
            let e : (provision os desired servers account s).1 ≡ s = ground arith in
            subst (λ x. IsConverged x account) (sym e) (current-IsConverged account s h c)
        | inr c ↦
            let e : (provision os desired servers account s).1 ≡ last = ground arith in
            subst (λ x. IsConverged x account) (sym e) (written-IsConverged account s trims)
      ]

  pub applied_same :
      (account other : Text) (s : State)
      → user_storage_directory os account ≡ user_storage_directory os other
      → applied_revision os account s ≡ applied_revision os other s
  unfolding applied_revision
  applied_same account other s e = rw (applied_revision, e)

  pub storage_of-IsConverged :
      (other : Text) (s s' : State)
      → let own = user_storage_directory os other in
        storage_of own s' ≡ storage_of own s → IsConverged s other → IsConverged s' other
  storage_of-IsConverged other s s' e h =
      let (raw, r, t) = raw_of other s h.0 in
      (
        applied_of other raw s' (ap (λ x. x.revision) e ∙ r) ∙ ap (λ u. some u) t,
        ap (λ x. x.passfile) e ∙ h.1,
      )

  -- A round for a converged account changes nothing.
  pub provision_current :
      (account : Text) (s : State)
      → applied_revision os account s ≡ some desired
      → provision os desired servers account s ≡ (true, s)
  unfolding provision
  provision_current account s h = ground (arith, text_beq_iff desired desired)

  -- A round for one account leaves a converged one converged, also where both share a directory.
  pub provision_keeps :
      (account other : Text) (s : State)
      → IsConverged s other
      → IsConverged (provision os desired servers account s).1 other
  provision_keeps account other s h =
      let a = user_storage_directory os account in
      let o = user_storage_directory os other in
      elim (Bool-cases (a == o)) [
        | inl e ↦
            let p =
              provision_current account s
                (applied_same account other s ((text_beq_iff a o).0 e) ∙ h.0) in
            subst (λ x. IsConverged x.1 other) (sym p) h
        | inr e ↦
            storage_of-IsConverged other s (provision os desired servers account s).1
              (provision_other account o s (λ p. ground (arith, text_beq_iff a o))) h
      ]
