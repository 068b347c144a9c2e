-- ===== src/AccessRequests/Provides.antt =====
-- The user of an approved request, when every call succeeds.
use mathlib.Core.Path.{subst}
use pg_tool_box.Common.{
  true, not, none, some, ◌≡◌, inl, inr, refl, arith, Text, text_eq, text_beq_iff, ◌==◌, ◌||◌,
  Bool-cases, Option-cases,
}
use pg_tool_box.AccessRequests.{
  Api, StoredRequest, provision_user, provision_on, create_user, ready, new_user, granted,
  user_name_for, Provision,
}
use pg_tool_box.AccessRequests.Only.{IsGranted, Becomes, digest_name}
use pg_tool_box.Common.Dict
use pg_tool_box.Console.Bootstrap.{Users}
use pg_tool_box.Console.Objects.{
  PgToolBoxUser, Fetched, found, missing, get, Created, created, already_exists, not_created,
}

-- Every call is answered, and no one else creates the user.
pub record Answers (api : Api) : Type 0 where
  pub reads_request : api.reads_request ≡ true
  pub reads_user : api.reads_user ≡ true
  pub creates : api.creates ≡ created
  pub patches_user : api.patches_user ≡ true
  pub patches_status : api.patches_status ≡ true

module _ (short_digest long_digest : Text → Text) (api : Api) where
  abbrev Provisioned : Text → StoredRequest → Users → Provision × Users → Type 0
  Provisioned n request users p =
      (p.0 ≡ ready) × IsGranted short_digest long_digest api n request users p.1

  IsGranted-new :
      (n : Text) (request : StoredRequest) (u : PgToolBoxUser) (users : Users)
      → u.spec.level ≡ request.status.requested_level
      → u.spec.console_ref ≡ n
      → Becomes short_digest long_digest api request
          (Dict.lookup (digest_name short_digest long_digest api n request.subject) users)
          u
      → IsGranted short_digest long_digest api n request users
          (Dict.insert (user_name_for short_digest long_digest n request.subject) u users)
  unfolding user_name_for
  IsGranted-new n request u users level console becomes =
      let name = digest_name short_digest long_digest api n request.subject in
      (
        u,
        ground (arith, Dict.lookup-insert name name u users, text_beq_iff name name),
        level,
        console,
        becomes,
      )

  provision_missing :
      (c : Created) (n : Text) (request : StoredRequest) (users : Users)
      → c ≡ created
      → Dict.lookup (digest_name short_digest long_digest api n request.subject) users ≡ none
      → Provisioned n request users (create_user short_digest long_digest api c n request users)
  unfolding create_user new_user
  provision_missing created n request users e gone = (
    refl,
    IsGranted-new n request (new_user short_digest long_digest n request) users refl refl
        (rw gone (refl, refl)),
  )
  provision_missing already_exists n request users e gone = absurd (ground arith)
  provision_missing not_created n request users e gone = absurd (ground arith)

  provision_found :
      (u : PgToolBoxUser) (n : Text) (request : StoredRequest) (users : Users)
      → api.patches_user ≡ true
      → Dict.lookup (digest_name short_digest long_digest api n request.subject) users ≡ some u
      → Provisioned n request users
          (provision_on short_digest long_digest api (found u) n request users)
  unfolding provision_on
  provision_found u n request users patches there =
      let level = request.status.requested_level in
      elim (Bool-cases (not (u.spec.level == level) || not (u.spec.console_ref == n))) [
        | inr same ↦ subst (Provisioned n request users) {x = (ready, users)} (ground arith) (
          refl,
          (
            u,
            there,
            ground (arith, text_beq_iff u.spec.level level),
            ground (arith, text_beq_iff u.spec.console_ref n),
            rw there (refl, refl, refl, refl),
          ),
        )
        | inl differs ↦
            subst (Provisioned n request users)
              {x = (
                ready,
                Dict.insert (user_name_for short_digest long_digest n request.subject)
                    (granted n level u) users,
              )}
              (ground arith)
              (
                refl,
                IsGranted-new n request (granted n level u) users refl refl
                    (rw there (refl, refl, refl, refl)),
              )
      ]

  pub provision_grants :
      (n : Text) (request : StoredRequest) (users : Users)
      → Answers api
      → Provisioned n request users (provision_user short_digest long_digest api n request users)
  unfolding provision_user provision_on get user_name_for
  provision_grants n request users a =
      let name = digest_name short_digest long_digest api n request.subject in
      let Q : Fetched PgToolBoxUser → Type 0 = λ f.
        Provisioned n request users (provision_on short_digest long_digest api f n request users) in
      elim (Option-cases (Dict.lookup name users)) [
        | inl e ↦
            subst Q {x = missing} (ground arith)
              (provision_missing api.creates n request users a.creates e)
        | inr (u, e) ↦
            subst Q {x = found u} (ground arith)
              (provision_found u n request users a.patches_user e)
      ]
