-- ===== src/Console/Tokens/Collection.antt =====
-- Which Secrets the collection deletes.
use mathlib.Core.Path.{subst}
use pg_tool_box.Common.{
  ◌≡◌, inl, inr, refl, arith, Bool, true, Option, none, some, List, [], ◌∷◌, Text, text_eq,
  text_beq_iff, Bool-cases, Member, head, tail, ◌==◌, ◌≤◌, ◌≢◌, ap, nat_beq_iff, nat_eq,
}
use pg_tool_box.Common.Dict
use pg_tool_box.Console.Tokens.{
  Secret, Console, Rollout, rollout_complete, is_superseded, has_text, delete_superseded,
  collect_superseded_tokens,
}

module _ (console : Console) (active_name : Text) where
  -- A superseded Secret: it carries the console's label and is controlled by it, and is not active.
  pub record IsSuperseded (n : Text) (x : Secret) : Type 0 where
    pub labelled : x.label ≡ some console.name
    pub controlled : x.owner ≡ some console.uid
    pub inactive : n ≢ active_name

  has_text_sound : (o : Option Text) (t : Text) → has_text o t ≡ true → o ≡ some t
  has_text_sound none t h = absurd (ground arith)
  has_text_sound (some x) t h = ap some ((text_beq_iff x t).0 h)

  IsSuperseded-sound :
      (n : Text) (x : Secret) → is_superseded console active_name n x ≡ true → IsSuperseded n x
  unfolding is_superseded
  IsSuperseded-sound n x h = record {
    labelled = has_text_sound x.label console.name (ground arith);
    controlled = has_text_sound x.owner console.uid (ground arith);
    inactive = λ e. absurd (ground (arith, text_beq_iff n active_name));
  }

-- The controller of the Deployment has seen its last change, and the only replica runs it.
pub record IsRolledOut (d : Rollout) : Type 0 where
  pub observed : d.generation ≤ d.observed_generation
  pub updated : d.updated_replicas ≡ 1
  pub ready : d.ready_replicas ≡ 1

IsRolledOut-sound : (d : Rollout) → rollout_complete d ≡ true → IsRolledOut d
unfolding rollout_complete
IsRolledOut-sound d h = record {
  observed = ground arith;
  updated = ground (arith, nat_beq_iff d.updated_replicas 1);
  ready = ground (arith, nat_beq_iff d.ready_replicas 1);
}

module _ (deletes : Text → Bool) (console : Console) (active_name : Text) where
  delete-active :
      (listed secrets : List (Text × Secret))
      → Dict.lookup active_name (delete_superseded deletes console active_name listed secrets).1
        ≡ Dict.lookup active_name secrets
  unfolding delete_superseded is_superseded
  delete-active [] secrets = refl
  delete-active ((name, secret) ∷ listed) secrets = ground (
    arith,
    delete-active listed secrets,
    delete-active listed (Dict.remove name secrets),
    Dict.lookup-remove name active_name secrets,
    text_beq_iff name active_name,
  )

  -- The active Secret outlives every collection, complete or cut short by an error.
  pub collect-active :
      (lists : Bool) (deployment : Option Rollout) (secrets : List (Text × Secret))
      → Dict.lookup active_name
          (collect_superseded_tokens lists deletes console active_name deployment secrets).1
        ≡ Dict.lookup active_name secrets
  unfolding collect_superseded_tokens
  collect-active lists none secrets = refl
  collect-active lists (some d) secrets = ground (arith, delete-active secrets secrets)

  delete_only :
      (n : Text) (x : Secret) (listed secrets : List (Text × Secret))
      → Dict.lookup n secrets ≡ some x
      → Dict.lookup n (delete_superseded deletes console active_name listed secrets).1 ≡ none
      → (y : Secret) × Member (n, y) listed
        × (is_superseded console active_name n y ≡ true)
        × (deletes n ≡ true)
  unfolding delete_superseded
  delete_only n x [] secrets there gone = absurd (ground arith)
  delete_only n x ((m, y) ∷ listed) secrets there gone =
      elim (Bool-cases (is_superseded console active_name m y)) [
        | inr kept ↦
            let (z, at, stale, allowed) = delete_only n x listed secrets there (ground arith) in
            (z, tail at, stale, allowed)
        | inl stale ↦ elim (Bool-cases (deletes m)) [
          | inr refused ↦ absurd (ground arith)
          | inl allowed ↦ elim (Bool-cases (m == n)) [
            | inl same ↦
                let e = (text_beq_iff m n).0 same in
                (
                  y,
                  subst (λ k. Member (k, y) ((m, y) ∷ listed)) e head,
                  subst (λ k. is_superseded console active_name k y ≡ true) e stale,
                  subst (λ k. deletes k ≡ true) e allowed,
                )
            | inr other ↦
                let (z, at, old, permitted) =
                  delete_only n x listed (Dict.remove m secrets)
                    (ground (arith, Dict.lookup-remove m n secrets)) (ground arith) in
                (z, tail at, old, permitted)
          ]
        ]
      ]

  -- A Secret that a collection deletes carries the console's label, is controlled by the console and
  -- is not the active one; and the Deployment was there, its last change observed and its one
  -- replica updated and ready.
  pub collect_only :
      (lists : Bool) (deployment : Option Rollout) (secrets : List (Text × Secret)) (n : Text)
      (x : Secret)
      → Dict.lookup n secrets ≡ some x
      → Dict.lookup n
          (collect_superseded_tokens lists deletes console active_name deployment secrets).1
        ≡ none
      → (y : Secret) × (d : Rollout) × Member (n, y) secrets
        × IsSuperseded console active_name n y
        × (deployment ≡ some d)
        × IsRolledOut d
  unfolding collect_superseded_tokens
  collect_only lists none secrets n x there gone = absurd (ground arith)
  collect_only lists (some d) secrets n x there gone =
      let (y, at, stale, allowed) = delete_only n x secrets secrets there (ground arith) in
      (
        y,
        d,
        at,
        IsSuperseded-sound console active_name n y stale,
        refl,
        IsRolledOut-sound d (ground arith),
      )
