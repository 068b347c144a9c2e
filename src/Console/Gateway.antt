-- ===== src/Console/Gateway.antt =====
-- The exposure of a console through a Gateway, internal/controller/pgconsole/exposure.go: which
-- listener takes the console's HTTPRoute, and the condition that tells whether the route is ready.
use pg_tool_box.Common.{
  ℕ, Bool, true, false, not, ◌&&◌, ◌||◌, if◌then◌else◌, Option, none, some, List, [], ◌∷◌, Text,
  codes, text_eq, ◌==◌, leb, ltb, length, starts_with,
}
use pg_tool_box.Conditions.{
  SetsConditions, mark, Condition, ConditionStatus, condition_true, condition_false,
}
use pg_tool_box.Config.{is_empty}
use pg_tool_box.Console.Objects.{PgConsole, Fetched, found, missing, unavailable}
pub mod Hostnames
pub mod Ready

-- `spec.exposure.gateway.parentRef`, whose namespace and section are empty when they are not set.
pub record DesiredParent : Type 0 where
  pub name : Text
  pub namespace : Text
  pub section_name : Text

-- A `ParentReference` of the Gateway API.
pub record ParentReference : Type 0 where
  pub name : Text
  pub namespace : Option Text
  pub section_name : Option Text

pub data Protocol : Type 0 where
  http https other_protocol : Protocol

-- `NamespacesFromSame` and so on.
pub data NamespacesFrom : Type 0 where
  from_same from_all from_none from_selector from_other : NamespacesFrom

-- The selector as it is written, for `LabelSelectorAsSelector`.
pub record RouteNamespaces : Type 0 where
  pub from : Option NamespacesFrom
  pub selector : Option Text

pub record RouteGroupKind : Type 0 where
  pub group : Option Text
  pub kind : Text

pub record AllowedRoutes : Type 0 where
  pub namespaces : Option RouteNamespaces
  pub kinds : List RouteGroupKind

pub record Listener : Type 0 where
  pub name : Text
  pub protocol : Protocol
  pub hostname : Option Text
  pub allowed_routes : Option AllowedRoutes

pub record Gateway : Type 0 where
  pub namespace : Text
  pub listeners : List Listener

pub record RouteParentStatus : Type 0 where
  pub parent_ref : ParentReference
  pub conditions : List Condition

pub record HttpRoute : Type 0 where
  pub generation : ℕ
  pub parents : List RouteParentStatus

-- What the code uses of the Gateway API and of the cluster: the names of the API, what `Get` answers
-- for a Gateway and for the labels of a namespace, and the selector that `LabelSelectorAsSelector`
-- makes, or its error.
pub record Cluster : Type 0 where
  pub group_name : Text
  pub accepted : Text
  pub resolved_refs : Text
  pub gateway_at : Text → Text → Fetched Gateway
  pub labels_of : Text → Fetched (List (Text × Text))
  pub as_selector : Text → Option (List (Text × Text) → Bool)

-- strings.HasSuffix
unfoldable pub ends_with : Text → Text → Bool
ends_with [] t = is_empty t
ends_with (c ∷ s) t = (c ∷ s) == t || ends_with s t

-- `listenerHostname[1:]`
abbrev pub rest_of : Text → Text
rest_of [] = []
rest_of (c ∷ s) = s

unfoldable pub gateway_hostname_matches : Text → Text → Bool
gateway_hostname_matches listener route =
    listener == route
    || starts_with listener (codes "*.")
      && ends_with route (rest_of listener)
      && ltb (length (rest_of listener)) (length route)

abbrev pub or_default : Text → Option Text → Text
or_default d none = d
or_default d (some t) = t

unfoldable pub admits_http_route : Text → List RouteGroupKind → Bool
admits_http_route group_name [] = false
admits_http_route group_name (k ∷ ks) =
    let rest = admits_http_route group_name ks in
    or_default group_name k.group == group_name && k.kind == codes "HTTPRoute" || rest

abbrev no_kinds : List RouteGroupKind → Bool
no_kinds [] = true
no_kinds _ = false

abbrev pub allows_kinds : Text → Option AllowedRoutes → Bool
allows_kinds group_name none = true
allows_kinds group_name (some a) = no_kinds a.kinds || admits_http_route group_name a.kinds

unfoldable pub listener_allows_http_route : Text → Listener → Bool
listener_allows_http_route group_name l = allows_kinds group_name l.allowed_routes

-- `none` when the selector or the namespace cannot be read.
module _ (cluster : Cluster) (gateway_namespace route_namespace : Text) where
  abbrev matches : (List (Text × Text) → Bool) → Fetched (List (Text × Text)) → Option Bool
  matches selects (found labels) = some (selects labels)
  matches selects missing = none
  matches selects unavailable = none

  abbrev selected : Option (List (Text × Text) → Bool) → Option Bool
  selected none = none
  selected (some selects) = matches selects (cluster.labels_of route_namespace)

  abbrev select : Option Text → Option Bool
  select none = some false
  select (some s) = selected (cluster.as_selector s)

  abbrev allows_from : Option NamespacesFrom → Option Text → Option Bool
  allows_from none s = some (gateway_namespace == route_namespace)
  allows_from (some from_same) s = some (gateway_namespace == route_namespace)
  allows_from (some from_all) s = some true
  allows_from (some from_none) s = some false
  allows_from (some from_selector) s = select s
  allows_from (some from_other) s = some false

  abbrev allows_namespaces : Option RouteNamespaces → Option Bool
  allows_namespaces none = some (gateway_namespace == route_namespace)
  allows_namespaces (some n) = allows_from n.from n.selector

  abbrev allows_routes : Option AllowedRoutes → Option Bool
  allows_routes none = some (gateway_namespace == route_namespace)
  allows_routes (some a) = allows_namespaces a.namespaces

  unfoldable pub listener_allows_namespace : Listener → Option Bool
  listener_allows_namespace l = allows_routes l.allowed_routes

abbrev pub speaks_http : Protocol → Bool
speaks_http http = true
speaks_http https = true
speaks_http other_protocol = false

abbrev pub covers : Text → Option Text → Bool
covers hostname none = true
covers hostname (some h) = gateway_hostname_matches h hostname

-- The guards of the loop's body: a listener that is not skipped.
unfoldable pub is_candidate : Cluster → DesiredParent → Text → Listener → Bool
is_candidate cluster parent hostname l =
    (is_empty parent.section_name || l.name == parent.section_name)
    && speaks_http l.protocol
    && covers hostname l.hostname
    && listener_allows_http_route cluster.group_name l

-- `none` is the error of the first candidate whose namespaces cannot be read.
unfoldable pub gateway_has_compatible_listener :
    Cluster → PgConsole → DesiredParent → Text → List Listener → Option Bool
gateway_has_compatible_listener cluster console parent gateway_namespace [] = some false
gateway_has_compatible_listener cluster console parent gateway_namespace (l ∷ ls) =
    let rest = gateway_has_compatible_listener cluster console parent gateway_namespace ls in
    if is_candidate cluster parent console.hostname l
    then elim (listener_allows_namespace cluster gateway_namespace console.namespace l) [
      | none ↦ none
      | some allowed ↦ if allowed then some true else rest
    ]
    else rest

-- The namespace of the Gateway that is named.
unfoldable pub parent_namespace : PgConsole → DesiredParent → Text
parent_namespace console parent =
    if is_empty parent.namespace then console.namespace else parent.namespace

unfoldable pub referenced_gateway : Cluster → PgConsole → DesiredParent → Fetched Gateway
referenced_gateway cluster console parent =
    cluster.gateway_at (parent_namespace console parent) parent.name

unfoldable pub parent_ref_matches : PgConsole → DesiredParent → ParentReference → Bool
parent_ref_matches console desired parent =
    parent.name == desired.name
    && or_default console.namespace parent.namespace == parent_namespace console desired
    && or_default [] parent.section_name == desired.section_name

abbrev pub is_true : ConditionStatus → Bool
is_true condition_true = true
is_true _ = false

unfoldable pub route_condition_is_true : List Condition → Text → ℕ → Bool
route_condition_is_true [] kind generation = false
route_condition_is_true (c ∷ cs) kind generation =
    let rest = route_condition_is_true cs kind generation in
    c.kind == kind && is_true c.status && leb generation c.observed_generation || rest

abbrev pub route_ready : Text
route_ready = codes "RouteReady"

-- The loop over the statuses of the route's parents.
unfoldable pub is_accepted_by :
    Cluster → PgConsole → DesiredParent → ℕ → List RouteParentStatus → Bool
is_accepted_by cluster console desired generation [] = false
is_accepted_by cluster console desired generation (p ∷ ps) =
    let rest = is_accepted_by cluster console desired generation ps in
    parent_ref_matches console desired p.parent_ref
      && route_condition_is_true p.conditions cluster.accepted generation
      && route_condition_is_true p.conditions cluster.resolved_refs generation
    || rest

-- The conditions of the console afterwards, or the error that is returned.
pub data Marked : Type 0 where
  marked : List Condition → Marked
  gateway_unread listener_unread : Marked

unfoldable pub mark_ready :
    SetsConditions → ℕ → ConditionStatus → Text → Text → List Condition → Option Marked
mark_ready setter generation status reason message cs =
    elim (mark setter generation route_ready status reason message cs) [
      | none ↦ none
      | some after ↦ some (marked after)
    ]

module _ (setter : SetsConditions) (cluster : Cluster) (console : PgConsole) (generation : ℕ)
    (parent : DesiredParent) (route : HttpRoute) (cs : List Condition) where
  unfoldable pub judge_listeners : Option Bool → Option Marked
  judge_listeners none = some listener_unread
  judge_listeners (some false) =
      mark_ready setter generation condition_false (codes "NotAccepted")
        (codes "referenced Gateway has no compatible listener") cs
  judge_listeners (some true) =
      if is_accepted_by cluster console parent route.generation route.parents
      then mark_ready setter generation condition_true (codes "AsExpected")
          (codes "HTTPRoute is accepted by the referenced Gateway") cs
      else mark_ready setter generation condition_false (codes "NotAccepted")
          (codes "HTTPRoute has not been accepted with resolved references") cs

  unfoldable pub judge_gateway : Fetched Gateway → Option Marked
  judge_gateway missing =
      mark_ready setter generation condition_false (codes "GatewayNotFound")
        (codes "referenced Gateway was not found") cs
  judge_gateway unavailable = some gateway_unread
  judge_gateway (found g) =
      judge_listeners
        (gateway_has_compatible_listener cluster console parent g.namespace g.listeners)

  -- For a console of the given generation, with the given conditions.
  unfoldable pub set_http_route_condition : Option Marked
  set_http_route_condition = judge_gateway (referenced_gateway cluster console parent)
