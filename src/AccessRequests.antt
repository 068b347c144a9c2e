-- ===== src/AccessRequests.antt =====
-- The controller of access requests, internal/controller/pgtoolboxaccessrequest/controller.go. The
-- state is the stored request and the users of its namespace. `Api` says what the calls answer; the
-- digests of a name and `meta.SetStatusCondition` are parameters.
pub mod Marks
pub mod Only
pub mod Provides
pub mod Grants
use pg_tool_box.Common.{
  ℕ, Bool, true, false, not, Option, none, some, List, [], ◌∷◌, ◌++◌, Text, codes, ◌==◌, text_eq,
  nat_eq, ◌&&◌, ◌||◌, if◌then◌else◌,
}
use pg_tool_box.Common.Dict
use pg_tool_box.Conditions.{
  Condition, SetsConditions, mark, conditions_beq, ConditionStatus, condition_true, condition_false,
  condition_unknown,
}
use pg_tool_box.Config.{Level, is_empty}
use pg_tool_box.Console.Bootstrap.{Users}
use pg_tool_box.Console.Labels.{common_labels}
use pg_tool_box.Console.Names.{bounded_name}
use pg_tool_box.Console.Objects.{
  PgToolBoxUser, UserSpec, Fetched, found, missing, unavailable, get, Created, created,
  already_exists, not_created,
}

pub record RequestStatus : Type 0 where
  pub observed_generation : ℕ
  pub state : Text
  pub requested_level : Level
  pub conditions : List Condition

pub record StoredRequest : Type 0 where
  pub generation : ℕ
  -- `DeletionTimestamp` is set
  pub deleted : Bool
  -- `Annotations[ReconcileAnnotation]`
  pub annotation : Text
  pub console_ref : Text
  pub subject : Text
  pub status : RequestStatus

-- `request` is what `Get` answers, none where there is no request.
pub record World : Type 0 where
  pub request : Option StoredRequest
  pub users : Users

-- `console` is the name of the console that `Get` answers for the request's reference.
pub record Api : Type 0 where
  pub reads_request : Bool
  pub console : Fetched Text
  pub reads_user : Bool
  pub creates : Created
  pub patches_user : Bool
  pub patches_status : Bool

abbrev pub decided : Text
decided = codes "Decided"

abbrev pub user_ready : Text
user_ready = codes "UserReady"

abbrev pub state_approved : Text
state_approved = codes "approved"

abbrev pub state_denied : Text
state_denied = codes "denied"

-- An error, or the end of the reconcile.
pub data Outcome : Type 0 where
  finished failed : Outcome

module _ (setter : SetsConditions) where
  -- A `Mark` on the conditions of a request; `none` is a panic.
  unfoldable pub mark_request :
      Text → ConditionStatus → Text → Text → StoredRequest → Option StoredRequest
  mark_request kind status reason message request =
      elim (mark setter request.generation kind status reason message request.status.conditions) [
        | none ↦ none
        | some cs ↦ some (record request { status = record request.status { conditions = cs } })
      ]

module _ (short_digest long_digest : Text → Text) where
  unfoldable pub user_name_for : Text → Text → Text
  user_name_for console_name subject =
      bounded_name short_digest console_name
        (codes "-pguser-" ++ long_digest (console_name ++ 0 ∷ subject))

  unfoldable pub new_user : Text → StoredRequest → PgToolBoxUser
  new_user console_name request = record {
    name = user_name_for console_name request.subject;
    labels = common_labels console_name;
    owner = none;
    spec = record {
      console_ref = console_name;
      subject = request.subject;
      level = request.status.requested_level;
      local_password_secret_ref = none;
    };
  }

-- The last branch: a user that is there is brought to the granted level and the console.
abbrev pub granted : Text → Level → PgToolBoxUser → PgToolBoxUser
granted console_name level user = record user {
  spec = record user.spec { console_ref = console_name; level = level };
}

-- What the block from the read of the user on does to the users: whether the code goes on to mark the
-- request ready, returns nil at once, or returns an error.
pub data Provision : Type 0 where
  ready returns fails : Provision

module _ (short_digest long_digest : Text → Text) (api : Api) where
  -- The answers to `Create`.
  unfoldable pub create_user : Created → Text → StoredRequest → Users → Provision × Users
  create_user created console_name request users = (
    ready,
    Dict.insert (user_name_for short_digest long_digest console_name request.subject)
        (new_user short_digest long_digest console_name request) users,
  )
  create_user already_exists console_name request users = (returns, users)
  create_user not_created console_name request users = (fails, users)

  -- The answers to the live `Get`.
  unfoldable pub provision_on :
      Fetched PgToolBoxUser → Text → StoredRequest → Users → Provision × Users
  provision_on unavailable console_name request users = (fails, users)
  provision_on missing console_name request users =
      create_user api.creates console_name request users
  provision_on (found user) console_name request users =
      let level = request.status.requested_level in
      if not (user.spec.level == level) || not (user.spec.console_ref == console_name)
      then (if api.patches_user
          then (
            ready,
            Dict.insert (user_name_for short_digest long_digest console_name request.subject)
                (granted console_name level user) users,
          )
          else (fails, users))
      else (ready, users)

  unfoldable pub provision_user : Text → StoredRequest → Users → Provision × Users
  provision_user console_name request users =
      provision_on
        (get api.reads_user (user_name_for short_digest long_digest console_name request.subject)
          users)
        console_name request users

module _ (setter : SetsConditions) (short_digest long_digest : Text → Text) (api : Api) where
  -- A mark that ends the function without an error.
  abbrev finish_with : Users → Option StoredRequest → Option (Outcome × StoredRequest × Users)
  finish_with users none = none
  finish_with users (some request) = some (finished, request, users)

  -- What follows the provision of the user.
  unfoldable pub after_provision :
      Text → StoredRequest → Provision × Users → Option (Outcome × StoredRequest × Users)
  after_provision console_name request (fails, users) = some (failed, request, users)
  after_provision console_name request (returns, users) = some (finished, request, users)
  after_provision console_name request (ready, users) = finish_with users (
      mark_request setter user_ready condition_true (codes "AsExpected")
        (codes "PgToolBoxUser "
          ++ (user_name_for short_digest long_digest console_name request.subject
              ++ codes " is ready"))
        request)

  -- What follows the read of the console.
  unfoldable pub approve_on :
      Fetched Text → StoredRequest → Users → Option (Outcome × StoredRequest × Users)
  approve_on unavailable request users = some (failed, request, users)
  approve_on missing request users = finish_with users (
      mark_request setter user_ready condition_false (codes "PgConsoleNotFound")
        (codes "referenced PgConsole " ++ (request.console_ref ++ codes " was not found")) request)
  approve_on (found console_name) request users =
      after_provision console_name request
        (provision_user short_digest long_digest api console_name request users)

  unfoldable pub reconcile_approved_user :
      StoredRequest → Users → Option (Outcome × StoredRequest × Users)
  reconcile_approved_user request users =
      if is_empty request.status.requested_level
      then finish_with users (
          mark_request setter user_ready condition_false (codes "ConfigurationInvalid")
            (codes "approved access request grants no level") request)
      else approve_on api.console request users

  -- Two marks that end the switch.
  abbrev mark_twice :
      Text × ConditionStatus × Text × Text
      → Text × ConditionStatus × Text × Text
      → StoredRequest
      → Users
      → Option (Outcome × StoredRequest × Users)
  mark_twice (k, s, r, m) (k', s', r', m') request users =
      elim (mark_request setter k s r m request) [
        | none ↦ none
        | some marked ↦ finish_with users (mark_request setter k' s' r' m' marked)
      ]

  -- The `switch` on the state.
  unfoldable pub decide_state : StoredRequest → Users → Option (Outcome × StoredRequest × Users)
  decide_state request users =
      if request.status.state == state_approved
      then elim (mark_request setter decided condition_true (codes "Approved")
          (codes "access request approved") request) [
            | none ↦ none
            | some marked ↦ reconcile_approved_user marked users
          ]
      else if request.status.state == state_denied
      then mark_twice (decided, condition_true, codes "Denied", codes "access request denied")
          (
            user_ready,
            condition_false,
            codes "Denied",
            codes "access request denied; no user was created",
          )
          request users
      else mark_twice
          (decided, condition_false, codes "Pending", codes "access request is pending review")
          (
            user_ready,
            condition_unknown,
            codes "NotRequested",
            codes "access request is pending review",
          )
          request users

unfoldable pub same_status : RequestStatus → RequestStatus → Bool
same_status a b =
    a.observed_generation == b.observed_generation
    && a.state == b.state
    && a.requested_level == b.requested_level
    && conditions_beq a.conditions b.conditions

unfoldable pub update_status : Api → StoredRequest → StoredRequest → Outcome × StoredRequest
update_status api before after =
    if same_status before.status after.status
    then (finished, before)
    else if api.patches_status
    then (finished, after)
    else (failed, before)

abbrev pub observe : StoredRequest → StoredRequest
observe request = record request {
  status = record request.status { observed_generation = request.generation };
}

module _ (setter : SetsConditions) (short_digest long_digest : Text → Text) (api : Api) where
  -- What follows the `switch`.
  unfoldable pub conclude :
      StoredRequest → Option (Outcome × StoredRequest × Users) → Option (Outcome × World)
  conclude before none = none
  conclude before (some (failed, after, users)) =
      some (failed, record { request = some before; users = users })
  conclude before (some (finished, after, users)) =
      let (outcome, stored) = update_status api before after in
      some (outcome, record { request = some stored; users = users })

  -- `Reconcile`; `none` is a panic.
  unfoldable pub reconcile : World → Option (Outcome × World)
  reconcile w = if not api.reads_request then some (failed, w) else elim w.request [
    | none ↦ some (finished, w)
    | some request ↦
        if request.deleted || request.annotation == codes "skip"
        then some (finished, w)
        else conclude request
            (decide_state setter short_digest long_digest api (observe request) w.users)
  ]
