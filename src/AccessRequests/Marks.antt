-- ===== src/AccessRequests/Marks.antt =====
-- The marks of a request: every reason is known, so that no reconcile panics.
use pg_tool_box.Common.{
  true, false, some, [], text_beq_iff, ◌++◌, ◌≡◌, ◌≢◌, ◌⊎◌, inl, inr, refl, arith, Text, codes,
  text_eq, text_beq, ◌==◌, Bool-cases,
}
use pg_tool_box.AccessRequests.{
  Api, StoredRequest, Outcome, finished, failed, mark_request, provision_user, Provision, ready,
  returns, fails, approve_on, after_provision, reconcile_approved_user, decide_state,
  state_approved, state_denied, decided, user_ready, user_name_for,
}
use pg_tool_box.Conditions.{
  SetsConditions, mark, is_known_reason, ConditionStatus, condition_true, condition_false,
  condition_unknown,
}
use pg_tool_box.Config.{is_empty}
use pg_tool_box.Console.Bootstrap.{Users}
use pg_tool_box.Console.Objects.{Fetched, found, missing, unavailable}

-- A request with a condition set.
abbrev pub with_condition :
    SetsConditions → Text → ConditionStatus → Text → Text → StoredRequest → StoredRequest
with_condition setter kind status reason message request = record request {
  status = record request.status {
    conditions = setter.set request.status.conditions (record {
      kind = kind;
      status = status;
      observed_generation = request.generation;
      reason = reason;
      message = message;
    });
  };
}

pub mark_request-known :
    (setter : SetsConditions) (kind reason message : Text) (status : ConditionStatus)
    (request : StoredRequest)
    → is_known_reason reason ≡ true
    → mark_request setter kind status reason message request
      ≡ some (with_condition setter kind status reason message request)
unfolding mark_request mark
mark_request-known setter kind reason message status request h = ground arith

pub reasons_known :
    (is_known_reason (codes "Approved") ≡ true)
    × (is_known_reason (codes "Denied") ≡ true)
    × (is_known_reason (codes "Pending") ≡ true)
    × (is_known_reason (codes "NotRequested") ≡ true)
    × (is_known_reason (codes "ConfigurationInvalid") ≡ true)
    × (is_known_reason (codes "PgConsoleNotFound") ≡ true)
    × (is_known_reason (codes "AsExpected") ≡ true)
unfolding is_known_reason text_beq
reasons_known = (refl, refl, refl, refl, refl, refl, refl)

module _ (setter : SetsConditions) (short_digest long_digest : Text → Text) (api : Api) where
  -- The marks of an approved request.
  abbrev pub approved_mark : StoredRequest → StoredRequest
  approved_mark request =
      with_condition setter decided condition_true (codes "Approved")
        (codes "access request approved") request

  abbrev pub ready_mark : Text → StoredRequest → StoredRequest
  ready_mark console_name request =
      with_condition setter user_ready condition_true (codes "AsExpected")
        (codes "PgToolBoxUser "
          ++ (user_name_for short_digest long_digest console_name request.subject
              ++ codes " is ready"))
        request

  after_provision-some :
      (console_name : Text) (request : StoredRequest) (p : Provision × Users)
      → (o : Outcome) × (after : StoredRequest) × (after_provision setter short_digest long_digest
            api console_name request p
          ≡ some (o, after, p.1))
  unfolding after_provision mark_request mark is_known_reason text_beq
  after_provision-some console_name request (ready, u) =
      (finished, ready_mark console_name request, refl)
  after_provision-some console_name request (returns, u) = (finished, request, refl)
  after_provision-some console_name request (fails, u) = (failed, request, refl)

  -- The user of an approved request is provided for.
  abbrev pub Provisions : StoredRequest → Users → Users → Type 0
  Provisions request users after =
      (request.status.state ≡ state_approved)
      × (request.status.requested_level ≢ [])
      × (console_name : Text) × (api.console ≡ found console_name)
      × (after
          ≡ (provision_user short_digest long_digest api console_name (approved_mark request)
              users).1)

  approve_on-some :
      (c : Fetched Text) (request : StoredRequest) (users : Users)
      → (o : Outcome) × (marked : StoredRequest) × (after : Users) × (approve_on setter short_digest
            long_digest api c request users
          ≡ some (o, marked, after))
        × ((after ≡ users)
            ⊎ ((console_name : Text) × (c ≡ found console_name)
                × (after
                    ≡ (provision_user short_digest long_digest api console_name request users).1)))
  unfolding approve_on mark_request mark is_known_reason text_beq
  approve_on-some unavailable request users = (failed, request, users, refl, inl refl)
  approve_on-some missing request users = (
    finished,
    with_condition setter user_ready condition_false (codes "PgConsoleNotFound")
        (codes "referenced PgConsole " ++ (request.console_ref ++ codes " was not found")) request,
    users,
    refl,
    inl refl,
  )
  approve_on-some (found n) request users =
      let p = provision_user short_digest long_digest api n request users in
      let (o, marked, e) = after_provision-some n request p in
      (o, marked, p.1, e, inr (n, refl, refl))

  provided :
      (request : StoredRequest) (users after : Users)
      → request.status.state ≡ state_approved
      → is_empty request.status.requested_level ≡ false
      → ((after ≡ users)
          ⊎ ((console_name : Text) × (api.console ≡ found console_name)
              × (after
                  ≡ (provision_user short_digest long_digest api console_name
                      (approved_mark request)
                      users).1)))
      → (after ≡ users) ⊎ Provisions request users after
  provided request users after approved level (inl same) = inl same
  provided request users after approved level (inr (n, c, e)) =
      inr (approved, (λ p. absurd (ground arith)), n, c, e)

  approved-some :
      (request : StoredRequest) (users : Users)
      → request.status.state ≡ state_approved
      → (o : Outcome) × (marked : StoredRequest) × (after : Users) × (reconcile_approved_user setter
            short_digest long_digest api
            (approved_mark request)
            users
          ≡ some (o, marked, after))
        × ((after ≡ users) ⊎ Provisions request users after)
  unfolding reconcile_approved_user mark_request mark is_known_reason text_beq
  approved-some request users approved =
      elim (Bool-cases (is_empty request.status.requested_level)) [
        | inl e ↦ (
          finished,
          with_condition setter user_ready condition_false (codes "ConfigurationInvalid")
              (codes "approved access request grants no level") (approved_mark request),
          users,
          ground (arith, e),
          inl refl,
        )
        | inr e ↦
            let (o, marked, after, eq, change) =
              approve_on-some api.console (approved_mark request) users in
            (o, marked, after, ground arith, provided request users after approved e change)
      ]

  pub decide_state-some :
      (request : StoredRequest) (users : Users)
      → (o : Outcome) × (marked : StoredRequest) × (after : Users) × (decide_state setter
            short_digest long_digest api request users
          ≡ some (o, marked, after))
        × ((after ≡ users) ⊎ Provisions request users after)
  unfolding decide_state mark_request mark is_known_reason text_beq
  decide_state-some request users = elim (Bool-cases (request.status.state == state_approved)) [
    | inl a ↦
        let (o, marked, after, eq, change) =
          approved-some request users ((text_beq_iff request.status.state state_approved).0 a) in
        (o, marked, after, ground arith, change)
    | inr a ↦ elim (Bool-cases (request.status.state == state_denied)) [
      | inl d ↦ (
        finished,
        with_condition setter user_ready condition_false (codes "Denied")
            (codes "access request denied; no user was created")
            (with_condition setter decided condition_true (codes "Denied")
              (codes "access request denied") request),
        users,
        ground arith,
        inl refl,
      )
      | inr d ↦ (
        finished,
        with_condition setter user_ready condition_unknown (codes "NotRequested")
            (codes "access request is pending review")
            (with_condition setter decided condition_false (codes "Pending")
              (codes "access request is pending review") request),
        users,
        ground arith,
        inl refl,
      )
    ]
  ]
