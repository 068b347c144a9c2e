-- ===== src/AdminSync/Apply/Outcome.antt =====
-- The whole of `apply`: what a success establishes, and what it overlooks.
use mathlib.Core.Path.{subst}
use pg_tool_box.Common.{
  sym, ap, ◌∙◌, ◌≡◌, ◌≢◌, arith, true, false, some, List, [], ◌∷◌, ◌++◌, Text, codes, text_eq,
  text_beq_iff, trim_space,
}
use pg_tool_box.Common.Dict
use pg_tool_box.AdminSync.Passfile.{Server, passfile_content, replace_byte}
use pg_tool_box.AdminSync.Apply.{
  Os, State, storage_of, user_storage_directory, applied_revision, provision, entries_of,
  provision_all, apply, accounts, write_passfile, load_servers, record_revision,
}
use pg_tool_box.AdminSync.Apply.Converged.{
  IsHonest, provision-IsConverged, provision_current, storage_of-write_passfile, applied_of,
  applied_same, raw_of,
}
use pg_tool_box.AdminSync.Apply.Loop.{
  IsApplied, provision_all-IsApplied, provision_all-again, provision_all_writes,
}

module _ (os : Os) (desired : Text) (servers : List Server) (names : List Text) (s : State) where
  apply_is :
      accounts os.query ≡ some names
      → os.fingerprint servers ≡ some desired
      → (t : State) → apply os servers t ≡ provision_all os desired servers names t
  unfolding apply
  apply_is known marked t = ground arith

  -- Where a fingerprint is unchanged by a line end and its removal, and no directory at the desired
  -- revision lacks the desired credentials, a synchronisation that succeeds leaves every account's
  -- directory at the desired revision with the desired credentials, and the combined file so too.
  pub apply_converges :
      accounts os.query ≡ some names
      → os.fingerprint servers ≡ some desired
      → trim_space (desired ++ b'\n' ∷ []) ≡ desired
      → IsHonest os desired servers s
      → (apply os servers s).0 ≡ true
      → IsApplied os desired servers names (apply os servers s).1
  apply_converges known marked trims honest done =
      let e = apply_is known marked s in
      subst (λ x. IsApplied os desired servers names x.1) (sym e)
        (provision_all-IsApplied os desired servers names s trims honest
          (ap (λ x. x.0) (sym e) ∙ done))

  -- Under the same conditions, the same synchronisation a second time succeeds and changes nothing.
  pub apply_again :
      accounts os.query ≡ some names
      → os.fingerprint servers ≡ some desired
      → trim_space (desired ++ b'\n' ∷ []) ≡ desired
      → IsHonest os desired servers s
      → (apply os servers s).0 ≡ true
      → apply os servers (apply os servers s).1 ≡ (true, (apply os servers s).1)
  apply_again known marked trims honest done =
      let e = apply_is known marked s in
      apply_is known marked (apply os servers s).1
      ∙ provision_all-again os desired servers names (apply os servers s).1
          (provision_all_writes os desired servers names s (ap (λ x. x.0) (sym e) ∙ done))
          (apply_converges known marked trims honest done)

module _ (os : Os) (desired : Text) (servers : List Server) where
  provision-loaded :
      (account other : Text) (s : State)
      → account ≢ other
      → Dict.lookup other (provision os desired servers account s).1.loaded
        ≡ Dict.lookup other s.loaded
  unfolding provision write_passfile load_servers record_revision
  provision-loaded account other s apart = ground (
    arith,
    text_beq_iff account other,
    Dict.lookup-insert account other (entries_of servers) s.loaded,
  )

  -- Of two accounts that share a storage directory, the second is given no connections: after a
  -- successful round for the first, its own round changes nothing, and what pgAdmin holds for it is
  -- what it held before.
  pub provision_shared :
      (account other : Text) (s : State)
      → trim_space (desired ++ b'\n' ∷ []) ≡ desired
      → IsHonest os desired servers s
      → account ≢ other
      → user_storage_directory os account ≡ user_storage_directory os other
      → (provision os desired servers account s).0 ≡ true
      → let s' = (provision os desired servers account s).1 in
        (provision os desired servers other s' ≡ (true, s'))
        × (Dict.lookup other s'.loaded ≡ Dict.lookup other s.loaded)
  provision_shared account other s trims honest apart shared done =
      let s' = (provision os desired servers account s).1 in
      let c = provision-IsConverged os desired servers account s trims honest done in
      (
        provision_current os desired servers other s'
            (sym (applied_same os desired servers account other s' shared) ∙ c.0),
        provision-loaded account other s apart,
      )

same_directory :
    (os os' : Os) (account : Text)
    → os.join ≡ os'.join
    → user_storage_directory os account ≡ user_storage_directory os' account
unfolding user_storage_directory
same_directory os os' account e =
    ap (λ j. j (codes "/var/lib/pgadmin/storage") (replace_byte b'@' (codes "_") account)) e

-- The state after a round that fails at loading the servers.
stopped :
    (os : Os) (earlier desired : Text) (servers : List Server) (account : Text) (s : State)
    → earlier ≢ desired
    → applied_revision os account s ≡ some earlier
    → os.writes_passfile account ≡ true
    → os.loads_servers account ≡ false
    → (provision os desired servers account s).1 ≡ write_passfile os account servers s
unfolding provision
stopped os earlier desired servers account s other was writes fails =
    ground (arith, text_beq_iff earlier desired)

-- A synchronisation that fails at loading the servers leaves the revision of the earlier success next
-- to the credentials of the failed one, so that going back to the earlier state changes nothing.
pub provision_back :
    (os os' : Os) (earlier desired : Text) (before servers : List Server) (account : Text)
    (s : State)
    → earlier ≢ desired
    → applied_revision os account s ≡ some earlier
    → os.join ≡ os'.join
    → os.writes_passfile account ≡ true
    → os.loads_servers account ≡ false
    → let s' = (provision os desired servers account s).1 in
      (provision os' earlier before account s' ≡ (true, s'))
      × ((storage_of (user_storage_directory os' account) s').passfile
          ≡ some (passfile_content servers))
provision_back os os' earlier desired before servers account s other was same writes fails =
    let own = user_storage_directory os account in
    let s1 = write_passfile os account servers s in
    let dirs = same_directory os os' account same in
    let (raw, r, t) = raw_of os earlier before account s was in
    let held : storage_of own s1
        ≡ record (storage_of own s) { passfile = some (passfile_content servers) } =
      ground
        (arith, storage_of-write_passfile os desired servers account own s, text_beq_iff own own) in
    let kept : applied_revision os' account s1 ≡ some earlier =
      applied_of os' earlier before account raw s1
        (subst (λ d. (storage_of d s1).revision ≡ some raw) dirs (ap (λ x. x.revision) held ∙ r))
      ∙ ap (λ u. some u) t in
    rw (stopped os earlier desired servers account s other was writes fails) (
      provision_current os' earlier before account s1 kept,
      subst (λ d. (storage_of d s1).passfile ≡ some (passfile_content servers)) dirs
          (ap (λ x. x.passfile) held),
    )
