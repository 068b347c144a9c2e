-- ===== src/Scenarios/Sync.antt =====
-- Synchronisations of two pgAdmin accounts.
use mathlib.Core.List.{reverse, reverse-append, reverse-reverse, reverse_aux-eq}
use mathlib.Core.Option.{some_inj}
use mathlib.Core.Path.{subst}
use pg_tool_box.Common.{
  ◌≡◌, ◌≢◌, ◌++◌, refl, sym, ap, ◌∙◌, arith, true, false, Option, none, some, List, [], ◌∷◌, Text,
  codes, text_eq, text_beq, trim_space, trim_left,
}
use pg_tool_box.Common.Decimal.{format_int}
use pg_tool_box.Common.Dict
use pg_tool_box.Common.Int.{pos}
use pg_tool_box.AdminSync.Apply.{
  Os, State, answered, accounts, split_lines, account_lines, apply, provision, provision_all,
  storage_of, user_storage_directory, applied_revision, write_passfile, load_servers,
  record_revision,
}
use pg_tool_box.AdminSync.Apply.Converged.{IsHonest}
use pg_tool_box.AdminSync.Apply.Loop.{IsApplied}
use pg_tool_box.AdminSync.Apply.Outcome.{provision_shared, provision_back}
use pg_tool_box.AdminSync.Apply.Reached.{Reached-applies, IsFingerprint, fresh, synced}
use pg_tool_box.AdminSync.Passfile.{
  Server, pgpass_line, end_line, join_lines, lines_of, pgpass_escape, passfile_content,
  replace_byte,
}
use pg_tool_box.AdminSync.Passfile.Reader.{read_fields, read_fields-pgpass_line}

abbrev server : Server
server = record {
  name = codes "main";
  group = codes "db";
  host = codes "main-rw";
  port = pos 5432;
  maintenance_db = codes "app";
  username = codes "owner";
  pass_file = codes "/pgpass";
  ssl_mode = codes "require";
  password = codes "a:b\\c";
}

read_fields-pgpass_line_example :
    read_fields 5
      (pgpass_line (codes "*") (pos 5432) (codes "app") (codes "owner") (codes "a:b\\c"))
    ≡ codes "*" ∷ format_int (pos 5432) ∷ codes "app" ∷ codes "owner" ∷ codes "a:b\\c" ∷ []
read_fields-pgpass_line_example =
    read_fields-pgpass_line (codes "*") (pos 5432) (codes "app") (codes "owner") (codes "a:b\\c")

abbrev os : Os
os = record {
  query = answered (codes "a@b\nz@b\n");
  fingerprint = λ servers. some (codes "f1");
  join = λ root name. root ++ (codes "/" ++ name);
  writes_passfile = λ account. true;
  loads_servers = λ account. true;
  records_revision = λ account. true;
  writes_legacy = true;
}

abbrev unprovisioned : State
unprovisioned = record { storage = []; loaded = []; legacy = none }

abbrev names : List Text
names = codes "a@b" ∷ codes "z@b" ∷ []

accounts_known : accounts os.query ≡ some names
unfolding accounts trim_space trim_left split_lines account_lines
accounts_known = refl

unprovisioned-IsHonest : IsHonest os (codes "f1") (server ∷ []) unprovisioned
unfolding storage_of Dict.lookup
unprovisioned-IsHonest dir raw r t = absurd (ground arith)

fingerprint_trimmed : trim_space (codes "f1" ++ b'\n' ∷ []) ≡ codes "f1"
unfolding trim_space trim_left
fingerprint_trimmed = refl

applied : (apply os (server ∷ []) unprovisioned).0 ≡ true
unfolding apply accounts trim_space trim_left split_lines account_lines provision_all provision
    applied_revision storage_of user_storage_directory write_passfile load_servers record_revision
    Dict.lookup text_beq Dict.insert Dict.remove replace_byte
applied = refl

-- A stand-in for the fingerprint: the credentials between two marks.
abbrev framed : Text → Text
framed content = b'x' ∷ (content ++ b'x' ∷ [])

abbrev mark_of : List Server → Option Text
mark_of servers = some (framed (passfile_content servers))

framed-trims : (t : Text) → trim_space (framed t ++ b'\n' ∷ []) ≡ framed t
unfolding trim_space trim_left
framed-trims t =
    rw (trim_space, reverse-append (framed t) (b'\n' ∷ []), reverse-append (b'x' ∷ t) (b'x' ∷ []))
      (reverse_aux-eq (reverse (b'x' ∷ t)) (b'x' ∷ [])
        ∙ ap (λ l. l ++ b'x' ∷ []) (reverse-reverse (b'x' ∷ t)))

abbrev behind_first : Text → Text
behind_first [] = []
behind_first (c ∷ s) = s

abbrev unframed : Text → Text
unframed t = reverse (behind_first (reverse (behind_first t)))

unframed-framed : (t : Text) → unframed (framed t) ≡ t
unframed-framed t =
    ap (λ l. reverse (behind_first l)) (reverse-append t (b'x' ∷ [])) ∙ reverse-reverse t

mark_of-IsFingerprint : IsFingerprint mark_of
mark_of-IsFingerprint = record {
  trims = λ servers d e.
      subst (λ t. trim_space (t ++ b'\n' ∷ []) ≡ t) (some_inj.0 e)
        (framed-trims (passfile_content servers));
  tells = λ servers others d e f.
      sym (unframed-framed (passfile_content servers))
      ∙ (ap unframed (some_inj.0 (e ∙ sym f)) ∙ unframed-framed (passfile_content others));
}

abbrev marking_os : Os
marking_os = record os { fingerprint = mark_of }

-- A first synchronisation, and a second that takes the server away.
first_synced : (apply marking_os (server ∷ []) unprovisioned).0 ≡ true
unfolding apply accounts trim_space trim_left split_lines account_lines provision_all provision
    applied_revision storage_of user_storage_directory write_passfile load_servers record_revision
    Dict.lookup text_beq Dict.insert Dict.remove replace_byte
first_synced = refl

second_synced : (apply marking_os [] (apply marking_os (server ∷ []) unprovisioned).1).0 ≡ true
unfolding apply accounts trim_space trim_left split_lines account_lines provision_all provision
    applied_revision storage_of user_storage_directory write_passfile load_servers record_revision
    Dict.lookup text_beq Dict.insert Dict.remove replace_byte passfile_content end_line join_lines
    lines_of pgpass_line pgpass_escape format_int
second_synced = refl

Reached-applies_example :
    (known : List Text) × (desired : Text) × (accounts marking_os.query ≡ some known)
    × (mark_of [] ≡ some desired)
    × IsApplied marking_os desired [] known
        (apply marking_os [] (apply marking_os (server ∷ []) unprovisioned).1).1
Reached-applies_example =
    Reached-applies mark_of marking_os [] (apply marking_os (server ∷ []) unprovisioned).1
      mark_of-IsFingerprint refl
      (synced marking_os (server ∷ []) unprovisioned refl (fresh unprovisioned refl) first_synced)
      second_synced

names_apart : codes "a@b" ≢ codes "a_b"
names_apart h = ground arith

directory_shared : user_storage_directory os (codes "a@b") ≡ user_storage_directory os (codes "a_b")
unfolding user_storage_directory replace_byte
directory_shared = refl

provisioned : (provision os (codes "f1") (server ∷ []) (codes "a@b") unprovisioned).0 ≡ true
unfolding provision applied_revision storage_of Dict.lookup
provisioned = refl

provision_shared_example :
    (provision os
        (codes "f1")
        (server ∷ [])
        (codes "a_b")
        (provision os (codes "f1") (server ∷ []) (codes "a@b") unprovisioned).1
      ≡ (true, (provision os (codes "f1") (server ∷ []) (codes "a@b") unprovisioned).1))
    × (Dict.lookup
          (codes "a_b")
          (provision os (codes "f1") (server ∷ []) (codes "a@b") unprovisioned).1.loaded
        ≡ Dict.lookup (codes "a_b") unprovisioned.loaded)
provision_shared_example =
    provision_shared os (codes "f1") (server ∷ []) (codes "a@b") (codes "a_b") unprovisioned
      fingerprint_trimmed unprovisioned-IsHonest names_apart directory_shared provisioned

abbrev failing : Os
failing = record os { loads_servers = λ account. false }

abbrev at_first : State
at_first = record {
  storage =
      (
        codes "/var/lib/pgadmin/storage/a_b",
        record { passfile = some (codes "old"); revision = some (codes "f1\n") },
      )
      ∷ [];
  loaded = [];
  legacy = none;
}

at_f1 : applied_revision failing (codes "a@b") at_first ≡ some (codes "f1")
unfolding applied_revision storage_of user_storage_directory replace_byte Dict.lookup text_beq
    trim_space trim_left
at_f1 = refl

fingerprints_apart : codes "f1" ≢ codes "f2"
fingerprints_apart h = ground arith

provision_back_example :
    (provision os
        (codes "f1")
        []
        (codes "a@b")
        (provision failing (codes "f2") (server ∷ []) (codes "a@b") at_first).1
      ≡ (true, (provision failing (codes "f2") (server ∷ []) (codes "a@b") at_first).1))
    × ((storage_of
          (user_storage_directory os (codes "a@b"))
          (provision failing (codes "f2") (server ∷ []) (codes "a@b") at_first).1).passfile
        ≡ some (passfile_content (server ∷ [])))
provision_back_example =
    provision_back failing os (codes "f1") (codes "f2") [] (server ∷ []) (codes "a@b") at_first
      fingerprints_apart at_f1 refl refl refl
