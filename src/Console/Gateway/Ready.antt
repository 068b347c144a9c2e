-- ===== src/Console/Gateway/Ready.antt =====
-- When the route of a Gateway exposure is reported as ready.
use pg_tool_box.Common.{
  ℕ, ◌≤◌, Bool, true, false, Option, none, some, List, [], ◌∷◌, ◌≡◌, ◌⊎◌, inl, inr, refl, arith,
  Text, codes, text_eq, text_beq, text_beq_iff, ◌==◌, ◌||◌, Bool-cases, Option-cases, Member, head,
  tail,
}
use pg_tool_box.Conditions.{
  SetsConditions, mark, is_known_reason, Condition, ConditionStatus, condition_true,
  condition_false, condition_unknown, condition_at,
}
use pg_tool_box.Config.{is_empty}
use pg_tool_box.Console.Gateway.{
  Cluster, DesiredParent, Listener, Gateway, RouteParentStatus, HttpRoute, is_candidate,
  speaks_http, covers, listener_allows_http_route, listener_allows_namespace,
  gateway_has_compatible_listener, parent_namespace, referenced_gateway, parent_ref_matches,
  is_true, route_condition_is_true, route_ready, is_accepted_by, Marked, marked, gateway_unread,
  listener_unread, mark_ready, judge_listeners, judge_gateway, set_http_route_condition,
}
use pg_tool_box.Console.Gateway.Hostnames.{Covers, gateway_hostname_matches_iff}
use pg_tool_box.Console.Objects.{PgConsole, Fetched, found, missing, unavailable}

abbrev pub HasTrue : List Condition → Text → ℕ → Type 0
HasTrue cs kind generation =
    (c : Condition) × (Member c cs)
    × (c.kind ≡ kind)
    × (c.status ≡ condition_true)
    × (generation ≤ c.observed_generation)

is_true_sound : (s : ConditionStatus) → is_true s ≡ true → s ≡ condition_true
is_true_sound condition_true h = refl
is_true_sound condition_false h = absurd (ground arith)
is_true_sound condition_unknown h = absurd (ground arith)

true-HasTrue :
    (cs : List Condition) (kind : Text) (generation : ℕ)
    → route_condition_is_true cs kind generation ≡ true
    → HasTrue cs kind generation
unfolding route_condition_is_true
true-HasTrue [] kind generation h = absurd (ground arith)
true-HasTrue (c ∷ cs) kind generation h =
    elim (Bool-cases (route_condition_is_true cs kind generation)) [
      | inl later ↦
          let (d, m, k, s, g) = true-HasTrue cs kind generation later in (d, tail m, k, s, g)
      | inr refused ↦ (
        c,
        head,
        (text_beq_iff c.kind kind).0 (ground arith),
        is_true_sound c.status (ground arith),
        ground arith,
      )
    ]

module _ (cluster : Cluster) (console : PgConsole) (parent : DesiredParent) where
  abbrev pub CoversHost : Option Text → Type 0
  CoversHost none = Unit
  CoversHost (some h) = Covers h console.hostname

  -- The listener takes routes of the console.
  pub record Takes (gateway_namespace : Text) (l : Listener) : Type 0 where
    pub named : (parent.section_name ≡ []) ⊎ (l.name ≡ parent.section_name)
    pub speaks : speaks_http l.protocol ≡ true
    pub host : CoversHost l.hostname
    pub kinds : listener_allows_http_route cluster.group_name l ≡ true
    pub from : listener_allows_namespace cluster gateway_namespace console.namespace l ≡ some true

  -- The parent's status reports the route of this generation as accepted and resolved.
  pub record Accepts (generation : ℕ) (p : RouteParentStatus) : Type 0 where
    pub refers : parent_ref_matches console parent p.parent_ref ≡ true
    pub accepted : HasTrue p.conditions cluster.accepted generation
    pub resolved : HasTrue p.conditions cluster.resolved_refs generation

  covers_sound : (o : Option Text) → covers console.hostname o ≡ true → CoversHost o
  covers_sound none h = tt
  covers_sound (some t) h = (gateway_hostname_matches_iff t console.hostname).0 h

  IsNamed-sound :
      (section name : Text)
      → (is_empty section || name == section) ≡ true
      → (section ≡ []) ⊎ (name ≡ section)
  IsNamed-sound [] name h = inl refl
  IsNamed-sound (c ∷ s) name h = inr ((text_beq_iff name (c ∷ s)).0 (ground arith))

  candidate-Takes :
      (gateway_namespace : Text) (l : Listener)
      → is_candidate cluster parent console.hostname l ≡ true
      → listener_allows_namespace cluster gateway_namespace console.namespace l ≡ some true
      → Takes gateway_namespace l
  unfolding is_candidate
  candidate-Takes gateway_namespace l h allowed = record {
    named = IsNamed-sound parent.section_name l.name (ground arith);
    speaks = ground arith;
    host = covers_sound l.hostname (ground arith);
    kinds = ground arith;
    from = allowed;
  }

  compatible-Takes :
      (gateway_namespace : Text) (ls : List Listener)
      → gateway_has_compatible_listener cluster console parent gateway_namespace ls ≡ some true
      → (l : Listener) × Member l ls × Takes gateway_namespace l
  unfolding gateway_has_compatible_listener
  compatible-Takes n [] h = absurd (ground arith)
  compatible-Takes n (l ∷ ls) h =
      elim (Bool-cases (is_candidate cluster parent console.hostname l)) [
        | inr skipped ↦ let (k, m, t) = compatible-Takes n ls (ground arith) in (k, tail m, t)
        | inl candidate ↦
            elim (Option-cases (listener_allows_namespace cluster n console.namespace l)) [
              | inl unread ↦ absurd (ground arith)
              | inr (allowed, e) ↦ elim (Bool-cases allowed) [
                | inl takes ↦ (l, head, candidate-Takes n l candidate (ground arith))
                | inr refused ↦
                    let (k, m, t) = compatible-Takes n ls (ground arith) in (k, tail m, t)
              ]
            ]
      ]

  accepted-Accepts :
      (generation : ℕ) (ps : List RouteParentStatus)
      → is_accepted_by cluster console parent generation ps ≡ true
      → (p : RouteParentStatus) × Member p ps × Accepts generation p
  unfolding is_accepted_by
  accepted-Accepts generation [] h = absurd (ground arith)
  accepted-Accepts generation (p ∷ ps) h =
      elim (Bool-cases (is_accepted_by cluster console parent generation ps)) [
        | inl later ↦ let (q, m, a) = accepted-Accepts generation ps later in (q, tail m, a)
        | inr refused ↦ (
          p,
          head,
          record {
            refers = ground arith;
            accepted = true-HasTrue p.conditions cluster.accepted generation (ground arith);
            resolved = true-HasTrue p.conditions cluster.resolved_refs generation (ground arith);
          },
        )
      ]

  -- The configured Gateway has a listener that takes routes of the console, and as a parent it reports
  -- this route as accepted.
  pub record IsAttached (route : HttpRoute) : Type 0 where
    pub gateway : Gateway
    pub named_gateway :
        cluster.gateway_at (parent_namespace console parent) parent.name ≡ found gateway
    pub listener : Listener
    pub among : Member listener gateway.listeners
    pub takes : Takes gateway.namespace listener
    pub status : RouteParentStatus
    pub among_parents : Member status route.parents
    pub reports : Accepts route.generation status

module _ (setter : SetsConditions) (cluster : Cluster) (console : PgConsole) (generation : ℕ)
    (parent : DesiredParent) (route : HttpRoute) (cs : List Condition) where
  -- What an outcome says of the route.
  abbrev pub Explains : Marked → Type 0
  Explains gateway_unread =
      cluster.gateway_at (parent_namespace console parent) parent.name ≡ unavailable
  Explains listener_unread =
      (g : Gateway) × (cluster.gateway_at (parent_namespace console parent) parent.name ≡ found g)
      × (gateway_has_compatible_listener cluster console parent g.namespace g.listeners ≡ none)
  Explains (marked after) =
      (c : Condition) × (condition_at route_ready after ≡ some c)
      × (c.observed_generation ≡ generation)
      × (c.status ≡ condition_true → IsAttached cluster console parent route)

  abbrev Marks : Option Marked → Type 0
  Marks o = (m : Marked) × (o ≡ some m) × Explains m

  mark-Marks :
      (status : ConditionStatus) (reason message : Text)
      → is_known_reason reason ≡ true
      → (status ≡ condition_true → IsAttached cluster console parent route)
      → Marks (mark_ready setter generation status reason message cs)
  unfolding mark_ready mark
  mark-Marks status reason message known attached =
      let c : Condition = record {
        kind = route_ready;
        status = status;
        observed_generation = generation;
        reason = reason;
        message = message;
      } in
      (marked (setter.set cs c), ground arith, (c, setter.sets cs c, refl, attached))

  known :
      (is_known_reason (codes "NotAccepted") ≡ true)
      × (is_known_reason (codes "AsExpected") ≡ true)
      × (is_known_reason (codes "GatewayNotFound") ≡ true)
  unfolding is_known_reason text_beq
  known = ground arith

  not_true : condition_false ≡ condition_true → IsAttached cluster console parent route
  not_true e = absurd (ground arith)

  judge-Marks :
      (g : Gateway) (o : Option Bool)
      → cluster.gateway_at (parent_namespace console parent) parent.name ≡ found g
      → gateway_has_compatible_listener cluster console parent g.namespace g.listeners ≡ o
      → Marks (judge_listeners setter cluster console generation parent route cs o)
  unfolding judge_listeners
  judge-Marks g none there e = (listener_unread, refl, (g, there, e))
  judge-Marks g (some false) there e = mark-Marks condition_false _ _ known.0 not_true
  judge-Marks g (some true) there e =
      elim (Bool-cases (is_accepted_by cluster console parent route.generation route.parents)) [
        | inl accepted ↦
            let (l, m, takes) = compatible-Takes cluster console parent g.namespace g.listeners e in
            let (p, n, reports) =
              accepted-Accepts cluster console parent route.generation route.parents accepted in
            rw accepted (
              mark-Marks condition_true _ _ known.1 (λ _. record {
                gateway = g;
                named_gateway = there;
                listener = l;
                among = m;
                takes = takes;
                status = p;
                among_parents = n;
                reports = reports;
              }))
        | inr refused ↦ rw refused (mark-Marks condition_false _ _ known.0 not_true)
      ]

  -- The condition of a Gateway exposure is always set, unless the Gateway or the namespaces of its
  -- listeners cannot be read, and is never set in vain: it is true only if the named Gateway exists,
  -- one of its listeners takes routes of this console and its hostname, and the Gateway, as a parent
  -- of the route, reports this generation of it as accepted and its references as resolved.
  pub set_http_route_condition_sound :
      (m : Marked) × (set_http_route_condition setter cluster console generation parent route cs
        ≡ some m)
      × Explains m
  unfolding set_http_route_condition referenced_gateway judge_gateway
  set_http_route_condition_sound =
      judged (cluster.gateway_at (parent_namespace console parent) parent.name) refl
    where
      judged :
          (f : Fetched Gateway)
          → cluster.gateway_at (parent_namespace console parent) parent.name ≡ f
          → Marks (judge_gateway setter cluster console generation parent route cs f)
      judged missing e = mark-Marks condition_false _ _ known.2 not_true
      judged unavailable e = (gateway_unread, refl, e)
      judged (found g) e = judge-Marks g _ e refl
