-- ===== src/AccessRequests/Only.antt =====
-- What a reconcile of an access request can do to the users.
use mathlib.Core.Path.{subst}
use pg_tool_box.Common.{
  Bool, true, false, not, Option, none, ◌∷◌, ◌++◌, some, [], ◌≡◌, ◌≢◌, ◌⊎◌, inl, inr, refl, arith,
  Text, codes, text_eq, text_beq_iff, ◌==◌, ◌||◌, Bool-cases, Option-cases, sym, ◌∙◌,
}
use pg_tool_box.Common.Dict
use pg_tool_box.AccessRequests.{
  World, Api, StoredRequest, Outcome, finished, failed, provision_user, new_user, create_user,
  provision_on, granted, user_name_for, conclude, reconcile, observe, state_approved, update_status,
}
use pg_tool_box.AccessRequests.Marks.{decide_state-some, Provisions, approved_mark}
use pg_tool_box.Console.Names.{bounded_name}
use pg_tool_box.Conditions.{SetsConditions}
use pg_tool_box.Console.Bootstrap.{Users}
use pg_tool_box.Console.Objects.{
  PgToolBoxUser, Fetched, found, missing, unavailable, get, Created, created, already_exists,
  not_created,
}

module _ (short_digest long_digest : Text → Text) (api : Api) where
  -- The name that the console and the subject have together: a digest of both behind the console's
  -- name.
  abbrev pub digest_name : Text → Text → Text
  digest_name console_name subject =
      bounded_name short_digest console_name
        (codes "-pguser-" ++ long_digest (console_name ++ 0 ∷ subject))

  -- What becomes of the user that was there under this name, or was not: all but the level and the
  -- console is as it was, or as the request states it.
  abbrev pub Becomes : StoredRequest → Option PgToolBoxUser → PgToolBoxUser → Type 0
  Becomes request none u =
      (u.spec.subject ≡ request.subject) × (u.spec.local_password_secret_ref ≡ none)
  Becomes request (some old) u =
      (u.spec.subject ≡ old.spec.subject)
      × (u.spec.local_password_secret_ref ≡ old.spec.local_password_secret_ref)
      × (u.owner ≡ old.owner)
      × (u.labels ≡ old.labels)

  -- The user of the request's subject has the granted level at the console.
  abbrev pub IsGranted : Text → StoredRequest → Users → Users → Type 0
  IsGranted console_name request users after =
      (u : PgToolBoxUser) × (Dict.lookup (digest_name console_name request.subject) after ≡ some u)
      × (u.spec.level ≡ request.status.requested_level)
      × (u.spec.console_ref ≡ console_name)
      × Becomes request (Dict.lookup (digest_name console_name request.subject) users) u

  -- All other users are as they were.
  abbrev pub KeepsOthers : Text → StoredRequest → Users → Users → Type 0
  KeepsOthers console_name request users after =
      (k : Text)
      → k ≢ digest_name console_name request.subject
      → Dict.lookup k after ≡ Dict.lookup k users

  inserted :
      (console_name : Text) (request : StoredRequest) (u : PgToolBoxUser) (users after : Users)
      → u.spec.level ≡ request.status.requested_level
      → u.spec.console_ref ≡ console_name
      → Becomes request (Dict.lookup (digest_name console_name request.subject) users) u
      → after
        ≡ Dict.insert (user_name_for short_digest long_digest console_name request.subject) u users
      → IsGranted console_name request users after × KeepsOthers console_name request users after
  unfolding user_name_for
  inserted console_name request u users after level console becomes e =
      let name = digest_name console_name request.subject in
      rw e (
        (
          u,
          ground (arith, Dict.lookup-insert name name u users, text_beq_iff name name),
          level,
          console,
          becomes,
        ),
        λ k n. ground (arith, Dict.lookup-insert name k u users, text_beq_iff name k),
      )

  -- What a provision does to the users.
  abbrev Changes : Text → StoredRequest → Users → Users → Type 0
  Changes console_name request users after =
      (after ≡ users)
      ⊎ (IsGranted console_name request users after × KeepsOthers console_name request users after)

  create-Changes :
      (c : Created) (console_name : Text) (request : StoredRequest) (users : Users)
      → Dict.lookup (digest_name console_name request.subject) users ≡ none
      → Changes console_name request users
          (create_user short_digest long_digest api c console_name request users).1
  unfolding create_user new_user
  create-Changes created n request users gone = inr (
      inserted n request (new_user short_digest long_digest n request) users _ refl refl
        (rw gone (refl, refl)) refl)
  create-Changes already_exists n request users gone = inl refl
  create-Changes not_created n request users gone = inl refl

  -- An answer of `Get` that is no error tells what is stored.
  abbrev Answered : Fetched PgToolBoxUser → Option PgToolBoxUser → Type 0
  Answered (found u) stored = stored ≡ some u
  Answered missing stored = stored ≡ none
  Answered unavailable stored = Unit

  answered :
      (reads : Bool) (name : Text) (users : Users)
      → Answered (get reads name users) (Dict.lookup name users)
  unfolding get
  answered false name users = tt
  answered true name users = elim (Option-cases (Dict.lookup name users)) [
    | inl e ↦ rw (get, e) refl
    | inr (u, e) ↦ rw (get, e) refl
  ]

  provision-Changes :
      (f : Fetched PgToolBoxUser) (console_name : Text) (request : StoredRequest) (users : Users)
      → Answered f (Dict.lookup (digest_name console_name request.subject) users)
      → Changes console_name request users
          (provision_on short_digest long_digest api f console_name request users).1
  unfolding provision_on
  provision-Changes unavailable n request users there = inl refl
  provision-Changes missing n request users there = create-Changes api.creates n request users there
  provision-Changes (found u) n request users there =
      let level = request.status.requested_level in
      elim (Bool-cases (not (u.spec.level == level) || not (u.spec.console_ref == n))) [
        | inr same ↦ inl (ground arith)
        | inl differs ↦ elim (Bool-cases api.patches_user) [
          | inr refused ↦ inl (ground arith)
          | inl patched ↦ inr (
              inserted n request (granted n level u) users _ refl refl
                (rw there (refl, refl, refl, refl)) (ground arith))
        ]
      ]

  provision_user-Changes :
      (console_name : Text) (request : StoredRequest) (users : Users)
      → Changes console_name request users
          (provision_user short_digest long_digest api console_name request users).1
  unfolding provision_user user_name_for
  provision_user-Changes n request users =
      provision-Changes (get api.reads_user (digest_name n request.subject) users) n request users
        (answered api.reads_user (digest_name n request.subject) users)

-- The request that a reconcile acts on.
pub record IsApproved (api : Api) (w : World) (request : StoredRequest) (console_name : Text)
    : Type 0 where
  pub stored : w.request ≡ some request
  pub living : request.deleted ≡ false
  pub unskipped : request.annotation ≢ codes "skip"
  pub approved : request.status.state ≡ state_approved
  pub grants : request.status.requested_level ≢ []
  pub console_found : api.console ≡ found console_name

module _ (setter : SetsConditions) (short_digest long_digest : Text → Text) (api : Api) where
  -- The users are as they were, but for the user of an approved request, who has what it grants.
  abbrev pub OnlyGrants : World → World → Type 0
  OnlyGrants w next =
      (next.users ≡ w.users)
      ⊎ ((request : StoredRequest) × (console_name : Text) × IsApproved api w request console_name
          × IsGranted short_digest long_digest api console_name request w.users next.users
          × KeepsOthers short_digest long_digest api console_name request w.users next.users)

  conclude_users :
      (request : StoredRequest) (o : Outcome) (marked : StoredRequest) (after : Users)
      → (p : Outcome) × (next : World) × (conclude setter short_digest long_digest api request
            (some (o, marked, after))
          ≡ some (p, next))
        × (next.users ≡ after)
  unfolding conclude
  conclude_users request failed marked after =
      (failed, record { request = some request; users = after }, refl, refl)
  conclude_users request finished marked after =
      let r = update_status api request marked in
      (r.0, record { request = some r.1; users = after }, refl, refl)

  only_approved :
      (request : StoredRequest) (w next : World)
      → api.reads_request ≡ true
      → w.request ≡ some request
      → (request.deleted || request.annotation == codes "skip") ≡ false
      → (next.users ≡ w.users)
        ⊎ Provisions setter short_digest long_digest api (observe request) w.users next.users
      → OnlyGrants w next
  only_approved request w next on there acts (inl same) = inl same
  only_approved request w next on there acts (inr (approved, level, n, c, e)) =
      elim (provision_user-Changes short_digest long_digest api n
        (approved_mark setter short_digest long_digest api (observe request)) w.users) [
          | inl same ↦ inl (e ∙ same)
          | inr (grants, keeps) ↦ inr (
            request,
            n,
            record {
              stored = there;
              living = ground arith;
              unskipped =
                  λ p. absurd (ground (arith, text_beq_iff request.annotation (codes "skip")));
              approved = approved;
              grants = level;
              console_found = c;
            },
            subst (IsGranted short_digest long_digest api n request w.users) (sym e) grants,
            subst (KeepsOthers short_digest long_digest api n request w.users) (sym e) keeps,
          )
        ]

  -- A reconcile never panics, and it changes the users in one way only: for a request that is approved
  -- with a level, and is neither deleted nor skipped, the user under the name of the subject and the
  -- request's console, which exists, has that level at that console afterwards. Where no user was
  -- there, its subject is the request's and it has no password; a user that was there keeps its
  -- subject, its password, its owner and its labels. All other users stay as they are.
  pub reconcile_only :
      (w : World)
      → (o : Outcome) × (next : World) × (reconcile setter short_digest long_digest api w
          ≡ some (o, next))
        × OnlyGrants w next
  unfolding reconcile
  reconcile_only w = elim (Bool-cases api.reads_request) [
    | inr off ↦ (failed, w, ground arith, inl refl)
    | inl on ↦ elim (Option-cases w.request) [
      | inl gone ↦ (finished, w, ground arith, inl refl)
      | inr (request, there) ↦
          elim (Bool-cases (request.deleted || request.annotation == codes "skip")) [
            | inl skipped ↦ (finished, w, ground arith, inl refl)
            | inr acts ↦
                let (o, marked, after, d, change) =
                  decide_state-some setter short_digest long_digest api (observe request) w.users in
                let (p, next, c, same) = conclude_users request o marked after in
                (
                  p,
                  next,
                  ground (arith, d, c),
                  only_approved request w next on there acts (
                      subst
                        (λ x.
                          (x ≡ w.users)
                          ⊎ Provisions setter short_digest long_digest api (observe request) w.users
                              x)
                        (sym same) change),
                )
          ]
    ]
  ]
