-- ===== src/AccessRequests/Grants.antt =====
-- An approved request leads to its user.
use pg_tool_box.Common.{
  true, some, [], ◌≡◌, ◌≢◌, inl, inr, refl, arith, Text, codes, text_eq, text_beq, text_beq_iff,
  nat_beq_iff, Bool-cases, ap, ◌∙◌, beq_ne,
}
use pg_tool_box.AccessRequests.{
  World, Api, StoredRequest, RequestStatus, finished, provision_user, ready, decide_state, conclude,
  reconcile, reconcile_approved_user, approve_on, after_provision, observe, state_approved,
  update_status, same_status, user_ready, mark_request, Provision, returns, fails,
}
use pg_tool_box.AccessRequests.Marks.{approved_mark, ready_mark}
use pg_tool_box.AccessRequests.Only.{IsGranted, IsApproved}
use pg_tool_box.AccessRequests.Provides.{Answers, provision_grants}
use pg_tool_box.Conditions.{
  SetsConditions, Condition, condition_at, condition_true, conditions_beq_iff, mark,
  is_known_reason,
}
use pg_tool_box.Console.Bootstrap.{Users}
use pg_tool_box.Console.Objects.{found}

same_status_sound : (s t : RequestStatus) → same_status s t ≡ true → s ≡ t
unfolding same_status
same_status_sound s t h = ground (
  arith,
  nat_beq_iff s.observed_generation t.observed_generation,
  text_beq_iff s.state t.state,
  text_beq_iff s.requested_level t.requested_level,
  conditions_beq_iff s.conditions t.conditions,
)

module _ (setter : SetsConditions) (short_digest long_digest : Text → Text) (api : Api) where
  -- The status of the request that is marked as approved and ready.
  abbrev pub granted_status : Text → StoredRequest → RequestStatus
  granted_status n request =
      (ready_mark setter short_digest long_digest api n
        (approved_mark setter short_digest long_digest api (observe request))).status

  decide_approved :
      (request : StoredRequest) (users : Users)
      → request.status.state ≡ state_approved
      → decide_state setter short_digest long_digest api request users
        ≡ reconcile_approved_user setter short_digest long_digest api
            (approved_mark setter short_digest long_digest api request)
            users
  unfolding decide_state mark_request mark is_known_reason text_beq
  decide_approved request users approved =
      ground (arith, text_beq_iff request.status.state state_approved)

  approved_found :
      (request : StoredRequest) (n : Text) (users : Users)
      → request.status.requested_level ≢ []
      → api.console ≡ found n
      → reconcile_approved_user setter short_digest long_digest api request users
        ≡ after_provision setter short_digest long_digest api n request
            (provision_user short_digest long_digest api n request users)
  unfolding reconcile_approved_user approve_on
  approved_found request n users level there = ground arith

  after_ready :
      (request : StoredRequest) (n : Text) (p : Provision × Users)
      → p.0 ≡ ready
      → after_provision setter short_digest long_digest api n request p
        ≡ some (finished, ready_mark setter short_digest long_digest api n request, p.1)
  unfolding after_provision mark_request mark is_known_reason text_beq
  after_ready request n (ready, users) e = refl
  after_ready request n (returns, users) e = absurd (ground arith)
  after_ready request n (fails, users) e = absurd (ground arith)

  decide_grants :
      (request : StoredRequest) (n : Text) (users : Users)
      → Answers api
      → request.status.state ≡ state_approved
      → request.status.requested_level ≢ []
      → api.console ≡ found n
      → (after : Users) × (decide_state setter short_digest long_digest api (observe request) users
          ≡ some (
            finished,
            ready_mark setter short_digest long_digest api n
                (approved_mark setter short_digest long_digest api (observe request)),
            after,
          ))
        × IsGranted short_digest long_digest api n request users after
  decide_grants request n users a approved level there =
      let marked = approved_mark setter short_digest long_digest api (observe request) in
      let p = provision_user short_digest long_digest api n marked users in
      let (is_ready, grants) = provision_grants short_digest long_digest api n marked users a in
      (
        p.1,
        decide_approved (observe request) users approved
            ∙ (approved_found marked n users level there ∙ after_ready marked n p is_ready),
        grants,
      )

  update_grants :
      (before after : StoredRequest)
      → api.patches_status ≡ true
      → ((update_status api before after).0 ≡ finished)
        × ((update_status api before after).1.status ≡ after.status)
  unfolding update_status
  update_grants before after patches = elim (Bool-cases (same_status before.status after.status)) [
    | inl e ↦ ground (arith, same_status_sound before.status after.status e)
    | inr e ↦ ground arith
  ]

  acts :
      (w : World) (request : StoredRequest) (n : Text)
      → Answers api
      → IsApproved api w request n
      → reconcile setter short_digest long_digest api w
        ≡ conclude setter short_digest long_digest api request
            (decide_state setter short_digest long_digest api (observe request) w.users)
  unfolding reconcile
  acts w request n a h = ground (
    arith,
    a.reads_request,
    h.stored,
    h.living,
    beq_ne request.annotation (codes "skip") h.unskipped,
  )

  ready_condition :
      (n : Text) (request : StoredRequest)
      → (c : Condition) × (condition_at user_ready (granted_status n request).conditions ≡ some c)
        × (c.status ≡ condition_true)
  ready_condition n request = (_, setter.sets _ _, refl)

  -- Where every call succeeds, a reconcile of a request that is approved with a level, for a console
  -- that exists, leaves a user under the name of the subject and that console, at that level and
  -- console, and reports the user as ready in the status. Where no user was there, its subject is the
  -- request's and it has no password; a user that was there keeps its subject, its password, its owner
  -- and its labels.
  pub approved-IsGranted :
      (w : World) (request : StoredRequest) (n : Text)
      → Answers api
      → IsApproved api w request n
      → (next : World) × (stored : StoredRequest) × (c : Condition) × (reconcile setter short_digest
            long_digest api w
          ≡ some (finished, next))
        × IsGranted short_digest long_digest api n request w.users next.users
        × (next.request ≡ some stored)
        × (condition_at user_ready stored.status.conditions ≡ some c)
        × (c.status ≡ condition_true)
  unfolding conclude
  approved-IsGranted w request n a h =
      let (after, d, grants) =
        decide_grants request n w.users a h.approved h.grants h.console_found in
      let marked =
        ready_mark setter short_digest long_digest api n
          (approved_mark setter short_digest long_digest api (observe request)) in
      let (ends, status) = update_grants request marked a.patches_status in
      let (c, at, holds) = ready_condition n request in
      let stored = (update_status api request marked).1 in
      (
        record { request = some stored; users = after },
        stored,
        c,
        acts w request n a h
            ∙ (ap (conclude setter short_digest long_digest api request) d
                ∙ ap (λ o. some (o, record { request = some stored; users = after })) ends),
        grants,
        refl,
        ap (λ s. condition_at user_ready s.conditions) status ∙ at,
        holds,
      )
