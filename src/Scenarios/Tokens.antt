-- ===== src/Scenarios/Tokens.antt =====
-- Reconciles of the evidence token of two consoles, the second with a long name.
use pg_tool_box.Common.{
  ◌+◌, ℕ, ◌≤◌, ◌≡◌, ◌≢◌, ◌⊎◌, refl, arith, true, none, some, List, [], ◌∷◌, Text, codes, text_eq,
  text_beq, starts_with, Member,
}
use pg_tool_box.Common.Decimal.{format, atoi}
use pg_tool_box.Common.Dict
use pg_tool_box.Console.Names.{resource_name, bounded_name}
use pg_tool_box.Console.Tokens.{
  Secret, Console, Store, Api, resolved, name_of, after_suffix, token_generation, Rollout,
  evidence_token_secret_name, reconcile_evidence_token, create_and_acknowledge,
  create_evidence_token_secret, with_generation, deployed_token_generation, is_rotation,
  is_superseded, rollout_complete, delete_superseded, collect_superseded_tokens,
}
use pg_tool_box.Console.Tokens.Collection.{IsSuperseded, IsRolledOut, collect_only}
use pg_tool_box.Console.Tokens.Generations.{Fits, token_generation-evidence_token_secret_name}
use pg_tool_box.Console.Tokens.Rotation.{
  IsNext, reconcile_keeps, reconcile_resolves, rotation_renews, rotation_of_truncated,
}

abbrev digest_of : Text → Text
digest_of t = codes "deadbeef"

abbrev api : Api
api = record {
  reads_deployment = true;
  reads_secret = true;
  random_token = some (codes "t0ken");
  creates = true;
  patches = true;
}

abbrev first_name : Text
first_name = codes "main-pgconsole-evidence-t1"

abbrev second_name : Text
second_name = codes "main-pgconsole-evidence-t2"

abbrev console : Console
console = record {
  name = codes "main";
  uid = codes "u1";
  status_token = first_name;
  annotation = some (codes "now");
}

abbrev secret : Secret
secret = record { token = codes "old"; label = some (codes "main"); owner = some (codes "u1") }

abbrev store : Store
store = record {
  secrets = (first_name, secret) ∷ [];
  annotation = some (codes "now");
  deployed = some (record { name = codes "evidence-token"; secret_name = some first_name } ∷ []);
}

twelfth-Fits : Fits (codes "main") 12
unfolding format
twelfth-Fits = omega arith

token_generation-evidence_token_secret_name_example :
    token_generation (evidence_token_secret_name digest_of (codes "main") 12) ≡ 12
token_generation-evidence_token_secret_name_example =
    token_generation-evidence_token_secret_name digest_of (codes "main") 12 (omega arith)
      twelfth-Fits

first_there : Dict.lookup first_name store.secrets ≡ some secret
unfolding Dict.lookup text_beq
first_there = refl

reconcile_keeps_example :
    Dict.lookup first_name (reconcile_evidence_token digest_of api console store).1.secrets
    ≡ some secret
reconcile_keeps_example = reconcile_keeps digest_of api console store first_name secret first_there

second_resolved : (reconcile_evidence_token digest_of api console store).0 ≡ resolved second_name
unfolding reconcile_evidence_token text_beq with_generation token_generation after_suffix
    starts_with atoi create_and_acknowledge create_evidence_token_secret Dict.lookup
    evidence_token_secret_name resource_name bounded_name format
second_resolved = refl

rotates : is_rotation console ≡ true
unfolding text_beq
rotates = refl

reconcile_resolves_example :
    (g : ℕ) × (token_generation console.status_token ≤ g)
    × (((is_rotation console ≡ true)
          × (g ≡ token_generation console.status_token)
          × (second_name ≡ name_of digest_of api console (g + 1)))
        ⊎ ((d : ℕ) × (deployed_token_generation api store ≡ some d) × (d ≤ g)))
    × IsNext digest_of api console g second_name
    × (x : Secret) × (Dict.lookup second_name
          (reconcile_evidence_token digest_of api console store).1.secrets
        ≡ some x)
reconcile_resolves_example =
    reconcile_resolves digest_of api console store second_name second_resolved

first-Fits : Fits (codes "main") 1
unfolding format
first-Fits = omega arith

second-Fits : Fits (codes "main") 2
unfolding format
second-Fits = omega arith

first_is_first : first_name ≡ name_of digest_of api console 1
unfolding evidence_token_secret_name resource_name bounded_name format
first_is_first = refl

rotation_renews_example : (token_generation second_name ≡ 2) × (second_name ≢ first_name)
rotation_renews_example =
    rotation_renews digest_of api console store second_name 1 rotates first-Fits second-Fits
      (omega arith) first_is_first second_resolved

-- A console with a name of 46 characters.
abbrev long_console : Console
long_console = record console {
  name = codes "evidence-console-of-the-payments-team-in-paris";
  status_token = codes "evidence-console-of-the-payments-team-in-paris-pgconso-deadbeef";
}

abbrev long_store : Store
long_store = record store { secrets = (long_console.status_token, secret) ∷ [] }

long_is_first : long_console.status_token ≡ name_of digest_of api long_console 1
unfolding evidence_token_secret_name resource_name bounded_name format
long_is_first = refl

long_is_lost : token_generation (name_of digest_of api long_console 1) ≡ 0
unfolding evidence_token_secret_name resource_name bounded_name format token_generation after_suffix
    starts_with
long_is_lost = refl

long_there : Dict.lookup (name_of digest_of api long_console 1) long_store.secrets ≡ some secret
unfolding evidence_token_secret_name resource_name bounded_name format Dict.lookup text_beq
long_there = refl

rotation_of_truncated_example :
    reconcile_evidence_token digest_of api long_console long_store
    ≡ (resolved long_console.status_token, record long_store { annotation = none })
rotation_of_truncated_example =
    rotation_of_truncated digest_of api long_console long_store secret (codes "t0ken") rotates
      long_is_lost long_is_first long_there refl refl refl

abbrev both : List (Text × Secret)
both = (first_name, secret) ∷ (second_name, secret) ∷ []

abbrev rolled_out : Rollout
rolled_out = record {
  generation = 3;
  observed_generation = 3;
  updated_replicas = 1;
  ready_replicas = 1;
}

first_listed : Dict.lookup first_name both ≡ some secret
unfolding Dict.lookup text_beq
first_listed = refl

first_gone :
    Dict.lookup first_name
      (collect_superseded_tokens true (λ n. true) console second_name (some rolled_out) both).1
    ≡ none
unfolding collect_superseded_tokens delete_superseded is_superseded rollout_complete Dict.lookup
    Dict.remove text_beq
first_gone = refl

collect_only_example :
    (y : Secret) × (d : Rollout) × Member (first_name, y) both
    × IsSuperseded console second_name first_name y
    × (some rolled_out ≡ some d)
    × IsRolledOut d
collect_only_example =
    collect_only (λ n. true) console second_name true (some rolled_out) both first_name secret
      first_listed first_gone
