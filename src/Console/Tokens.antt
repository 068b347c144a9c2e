-- ===== src/Console/Tokens.antt =====
-- The evidence tokens of internal/controller/pgconsole/evidence_token.go. The state is what the
-- function reads and writes of the API server: the Secrets of the namespace, the console's rotation
-- annotation and the Deployment. `Api` says which of its calls fail, with what the random source gives.
pub mod Generations
pub mod Rotation
pub mod Collection
use mathlib.Core.Option
use pg_tool_box.Common.{
  ℕ, zero, suc, ◌+◌, Bool, true, false, not, Option, none, some, List, [], ◌∷◌, ◌++◌, Text, codes,
  ◌==◌, text_eq, nat_eq, ltb, leb, ◌&&◌, ◌||◌, starts_with, length, if◌then◌else◌,
}
use pg_tool_box.Common.Decimal.{format, atoi}
use pg_tool_box.Common.Dict
use pg_tool_box.Common.Int.{ℤ, pos, negsuc}
use pg_tool_box.Config.{is_empty}
use pg_tool_box.Console.Names.{resource_name}

abbrev pub evidence_token_suffix : Text
evidence_token_suffix = codes "-evidence-t"

abbrev pub evidence_token_volume : Text
evidence_token_volume = codes "evidence-token"

unfoldable pub drop : ℕ → Text → Text
drop zero s = s
drop (suc n) [] = []
drop (suc n) (c ∷ s) = drop n s

-- What follows the last occurrence of the suffix: `strings.LastIndex`, and the slice behind it.
unfoldable pub after_suffix : Text → Option Text
unfolding drop
after_suffix [] = none
after_suffix (c ∷ s) =
    let later = after_suffix s in
    elim later [
      | some t ↦ some t
      | none ↦
          if starts_with (c ∷ s) evidence_token_suffix
          then some (drop (length evidence_token_suffix) (c ∷ s))
          else none
    ]

abbrev pub positive : Option ℤ → ℕ
positive none = 0
positive (some (pos n)) = n
positive (some (negsuc n)) = 0

-- `tokenGeneration`
unfoldable pub token_generation : Text → ℕ
token_generation secret_name = elim (after_suffix secret_name) [
  | none ↦ 0
  | some digits ↦ positive (atoi digits)
]

-- `evidenceTokenSecretName`
unfoldable pub evidence_token_secret_name : (Text → Text) → Text → ℕ → Text
evidence_token_secret_name short_digest console_name generation =
    resource_name short_digest console_name (evidence_token_suffix ++ format generation)

-- A Secret: its token, empty where there is none, its token label, and the UID of its controller.
pub record Secret : Type 0 where
  pub token : Text
  pub label : Option Text
  pub owner : Option Text

-- A volume of the Pod template, with the name of its Secret if it has one.
pub record Volume : Type 0 where
  pub name : Text
  pub secret_name : Option Text

-- The console that the reconcile observes: `status_token` is `Status.Evidence.TokenSecretName`.
pub record Console : Type 0 where
  pub name : Text
  pub uid : Text
  pub status_token : Text
  pub annotation : Option Text

-- `deployed` holds the volumes of the Deployment's template, `none` where there is no Deployment.
pub record Store : Type 0 where
  pub secrets : List (Text × Secret)
  pub annotation : Option Text
  pub deployed : Option (List Volume)

pub record Api : Type 0 where
  pub reads_deployment : Bool
  pub reads_secret : Bool
  pub random_token : Option Text
  pub creates : Bool
  pub patches : Bool

pub data Outcome : Type 0 where
  resolved : Text → Outcome
  failed : Outcome

-- The loop over the volumes.
unfoldable pub generation_of_volumes : List Volume → ℕ
generation_of_volumes [] = 0
generation_of_volumes (v ∷ vs) =
    let rest = generation_of_volumes vs in
    elim v.secret_name [
      | none ↦ rest
      | some secret_name ↦
          if v.name == evidence_token_volume then token_generation secret_name else rest
    ]

-- `deployedTokenGeneration`; `none` is its error.
unfoldable pub deployed_token_generation : Api → Store → Option ℕ
deployed_token_generation api s =
    if not api.reads_deployment
    then none
    else elim s.deployed [ none ↦ some 0 | some vs ↦ some (generation_of_volumes vs) ]

abbrev pub minted : Console → Text → Secret
minted console token = record { token = token; label = some console.name; owner = some console.uid }

-- `createEvidenceTokenSecret`; `none` is its error. A Secret that exists is left as it is.
unfoldable pub create_evidence_token_secret : Api → Console → Text → Store → Option Store
create_evidence_token_secret api console name s = elim api.random_token [
  | none ↦ none
  | some token ↦ elim (Dict.lookup name s.secrets) [
    | some old ↦ if api.creates then some s else none
    | none ↦
        if api.creates
        then some (record s { secrets = Dict.insert name (minted console token) s.secrets })
        else none
  ]
]

abbrev pub is_rotation : Console → Bool
is_rotation console = elim console.annotation [ none ↦ false | some v ↦ v == codes "now" ]

-- From the creation of the Secret on.
unfoldable pub create_and_acknowledge : Api → Console → Text → Store → Outcome × Store
create_and_acknowledge api console name s = elim (create_evidence_token_secret api console name s) [
  | none ↦ (failed, s)
  | some s' ↦
      if not (is_rotation console)
      then (resolved name, s')
      else if not api.patches
      then (failed, s')
      else (resolved name, record s' { annotation = none })
]

module _ (short_digest : Text → Text) (api : Api) (console : Console) where
  abbrev pub name_of : ℕ → Text
  name_of generation = evidence_token_secret_name short_digest console.name generation

  -- The default case of the switch: the active Secret is reused, or replaced if it is gone.
  unfoldable pub reuse : ℕ → Store → Outcome × Store
  reuse generation s =
      if not api.reads_secret
      then (failed, s)
      else elim (Dict.lookup (name_of generation) s.secrets) [
        | none ↦ create_and_acknowledge api console (name_of (generation + 1)) s
        | some secret ↦
            if is_empty secret.token then (failed, s) else (resolved (name_of generation), s)
      ]

  -- The switch.
  unfoldable pub with_generation : ℕ → Store → Outcome × Store
  with_generation generation s =
      if generation == 0
      then create_and_acknowledge api console (name_of 1) s
      else if is_rotation console
      then create_and_acknowledge api console (name_of (generation + 1)) s
      else reuse generation s

  unfoldable pub reconcile_evidence_token : Store → Outcome × Store
  reconcile_evidence_token s =
      let generation = token_generation console.status_token in
      if is_rotation console
      then with_generation generation s
      else elim (deployed_token_generation api s) [
        | none ↦ (failed, s)
        | some deployed ↦
            with_generation (if ltb generation deployed then deployed else generation) s
      ]

-- A Deployment's rollout.
pub record Rollout : Type 0 where
  pub generation : ℕ
  pub observed_generation : ℕ
  pub updated_replicas : ℕ
  pub ready_replicas : ℕ

unfoldable pub rollout_complete : Rollout → Bool
rollout_complete d =
    leb d.generation d.observed_generation && d.updated_replicas == 1 && d.ready_replicas == 1

abbrev pub has_text : Option Text → Text → Bool
has_text none t = false
has_text (some x) t = x == t

-- Whether the loop deletes a Secret: listed by its label, not the active one, and the console's own.
unfoldable pub is_superseded : Console → Text → Text → Secret → Bool
is_superseded console active_name name secret =
    has_text secret.label console.name
    && not (name == active_name)
    && has_text secret.owner console.uid

-- The loop of `collectSupersededTokens` over what `List` returned; it stops at the first deletion that
-- fails, and `false` is its error.
unfoldable pub delete_superseded :
    (Text → Bool)
    → Console
    → Text
    → List (Text × Secret)
    → List (Text × Secret)
    → Bool × List (Text × Secret)
delete_superseded deletes console active_name [] secrets = (true, secrets)
delete_superseded deletes console active_name ((name, secret) ∷ listed) secrets =
    let stale = is_superseded console active_name name secret in
    let rest =
      delete_superseded deletes console active_name listed
        (if stale then Dict.remove name secrets else secrets) in
    if stale && not (deletes name) then (false, secrets) else rest

unfoldable pub collect_superseded_tokens :
    Bool
    → (Text → Bool)
    → Console
    → Text
    → Option Rollout
    → List (Text × Secret)
    → Bool × List (Text × Secret)
collect_superseded_tokens lists deletes console active_name deployment secrets = elim deployment [
  | none ↦ (true, secrets)
  | some d ↦
      if not (rollout_complete d)
      then (true, secrets)
      else if not lists
      then (false, secrets)
      else delete_superseded deletes console active_name secrets secrets
]
