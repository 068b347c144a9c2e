-- ===== src/Scenarios/Requests.antt =====
-- An approved request for the sample console.
use pg_tool_box.Common.{
  true, false, some, List, [], ◌∷◌, ◌≡◌, ◌≢◌, inl, inr, refl, arith, Text, codes, text_eq,
  text_beq_iff, ◌==◌, if◌then◌else◌, Bool-cases,
}
use pg_tool_box.AccessRequests.{World, Api, StoredRequest, Outcome, finished, reconcile, user_ready}
use pg_tool_box.AccessRequests.Grants.{approved-IsGranted}
use pg_tool_box.AccessRequests.Only.{IsGranted, IsApproved, OnlyGrants, reconcile_only}
use pg_tool_box.AccessRequests.Provides.{Answers}
use pg_tool_box.Conditions.{Condition, SetsConditions, condition_at, condition_true}
use pg_tool_box.Console.Objects.{created, found}

-- In place of `meta.SetStatusCondition`.
unfoldable pub set_condition : List Condition → Condition → List Condition
set_condition [] c = c ∷ []
set_condition (d ∷ cs) c =
    let rest = set_condition cs c in if d.kind == c.kind then c ∷ cs else d ∷ rest

pub set_sets :
    (cs : List Condition) (c : Condition) → condition_at c.kind (set_condition cs c) ≡ some c
unfolding set_condition
set_sets [] c = ground (arith, text_beq_iff c.kind c.kind)
set_sets (d ∷ cs) c = ground (arith, text_beq_iff c.kind c.kind, set_sets cs c)

pub set_keeps :
    (cs : List Condition) (c : Condition) (kind : Text)
    → kind ≢ c.kind
    → condition_at kind (set_condition cs c) ≡ condition_at kind cs
unfolding set_condition
set_keeps [] c kind n = ground (arith, text_beq_iff c.kind kind)
set_keeps (d ∷ cs) c kind n = elim (Bool-cases (d.kind == c.kind)) [
  | inl e ↦
      ground (arith, text_beq_iff c.kind kind, text_beq_iff d.kind kind, text_beq_iff d.kind c.kind)
  | inr e ↦ ground (arith, set_keeps cs c kind n)
]

pub set_rests :
    (cs : List Condition) (c : Condition)
    → condition_at c.kind cs ≡ some c
    → set_condition cs c ≡ cs
unfolding set_condition
set_rests [] c h = absurd (ground arith)
set_rests (d ∷ cs) c h = elim (Bool-cases (d.kind == c.kind)) [
  | inl e ↦ ground arith
  | inr e ↦ ground (arith, set_rests cs c)
]

abbrev pub setter : SetsConditions
setter = record { set = set_condition; sets = set_sets; keeps = set_keeps; rests = set_rests }

abbrev digest_of : Text → Text
digest_of t = codes "deadbeef"

abbrev request : StoredRequest
request = record {
  generation = 1;
  deleted = false;
  annotation = [];
  console_ref = codes "main";
  subject = codes "ann@corp.example";
  status = record {
    observed_generation = 0;
    state = codes "approved";
    requested_level = codes "view";
    conditions = [];
  };
}

abbrev world : World
world = record { request = some request; users = [] }

abbrev api : Api
api = record {
  reads_request = true;
  console = found (codes "main");
  reads_user = true;
  creates = created;
  patches_user = true;
  patches_status = true;
}

api-Answers : Answers api
api-Answers = record {
  reads_request = refl;
  reads_user = refl;
  creates = refl;
  patches_user = refl;
  patches_status = refl;
}

request-IsApproved : IsApproved api world request (codes "main")
request-IsApproved = record {
  stored = refl;
  living = refl;
  unskipped = λ e. ground arith;
  approved = refl;
  grants = λ e. ground arith;
  console_found = refl;
}

reconcile_only_example :
    (o : Outcome) × (next : World) × (reconcile setter digest_of digest_of api world
      ≡ some (o, next))
    × OnlyGrants setter digest_of digest_of api world next
reconcile_only_example = reconcile_only setter digest_of digest_of api world

approved-IsGranted_example :
    (next : World) × (stored : StoredRequest) × (c : Condition) × (reconcile setter digest_of
        digest_of api world
      ≡ some (finished, next))
    × IsGranted digest_of digest_of api (codes "main") request world.users next.users
    × (next.request ≡ some stored)
    × (condition_at user_ready stored.status.conditions ≡ some c)
    × (c.status ≡ condition_true)
approved-IsGranted_example =
    approved-IsGranted setter digest_of digest_of api world request (codes "main") api-Answers
      request-IsApproved
