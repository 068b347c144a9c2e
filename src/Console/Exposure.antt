-- ===== src/Console/Exposure.antt =====
-- The exposure of a console, internal/controller/pgconsole/exposure.go: the switch over its type, the
-- removal of the other exposures, and the conditions of an Ingress and a Route.
use pg_tool_box.Common.{
  ℕ, Bool, true, false, not, ◌&&◌, ◌||◌, if◌then◌else◌, Option, none, some, List, [], ◌∷◌, ◌++◌,
  Text, codes, text_eq, ◌==◌, to_lower, contains,
}
use pg_tool_box.Conditions.{
  SetsConditions, mark, Condition, ConditionStatus, condition_true, condition_false,
}
use pg_tool_box.Config.{is_empty}
use pg_tool_box.Console.Gateway.{
  Cluster, DesiredParent, ParentReference, HttpRoute, Marked, marked, gateway_unread,
  listener_unread, is_true, mark_ready, set_http_route_condition,
}
use pg_tool_box.Console.Labels.{Labels, filtered_overlay, exposure_labels, labels_contain}
use pg_tool_box.Console.Names.{resource_name}
use pg_tool_box.Console.Objects.{PgConsole, Fetched, found, missing, unavailable, fetched}
use pg_tool_box.Console.ExposureObjects.{
  ExposureType, ExposureTls, Exposure, IngressSpec, RouteTls, RouteSpec, HttpRouteSpec, Object,
  RouteCondition, RouteIngress, Ingress, Route, HttpRouteObject, Exposures, Deleted, ObjectApi, Api,
  forbids_tls, is_gateway, validate_exposure, string_ptr_or_nil, exposure_annotations, service_name,
  object, ingress_tls, ingress_of, termination_of, route_of, http_route_of,
  controller_owner_matches, is_owned_by, exposure_object_matches, reconcile_object, after_delete,
  delete_exposure_if_owned, cluster_ip, ingress, route, gateway, deleted, already_gone, not_deleted,
}
pub mod Deletes
pub mod Single

unfoldable pub route_condition_reports_hostname_conflict : RouteCondition → Bool
route_condition_reports_hostname_conflict c =
    let text = to_lower (c.reason ++ codes " " ++ c.message) in
    contains text (codes "host")
    && (contains text (codes "claim")
        || contains text (codes "conflict")
        || contains text (codes "duplicate"))

-- A router's verdict that ends the search.
pub data Verdict : Type 0 where
  undecided admitted conflict : Verdict

unfoldable pub judge_conditions : List RouteCondition → Verdict
judge_conditions [] = undecided
judge_conditions (c ∷ cs) =
    let rest = judge_conditions cs in
    if c.is_admission
    then (if is_true c.status
        then admitted
        else if route_condition_reports_hostname_conflict c
        then conflict
        else rest)
    else rest

unfoldable pub judge_ingresses : Text → List RouteIngress → Verdict
judge_ingresses hostname [] = undecided
judge_ingresses hostname (i ∷ is) =
    let rest = judge_ingresses hostname is in
    if i.host == hostname
    then elim (judge_conditions i.conditions) [
      | undecided ↦ rest
      | admitted ↦ admitted
      | conflict ↦ conflict
    ]
    else rest

module _ (setter : SetsConditions) (console : PgConsole) (generation : ℕ)
    (cs : List Condition) where
  abbrev judge_addresses : Option (List Text) → Option Marked
  judge_addresses (some (a ∷ addresses)) =
      mark_ready setter generation condition_true (codes "AsExpected")
        (codes "Ingress is admitted for " ++ console.hostname) cs
  judge_addresses _ =
      mark_ready setter generation condition_false (codes "NotAdmitted")
        (codes "Ingress has not published a load balancer address") cs

  unfoldable pub set_ingress_condition : Ingress → Option Marked
  set_ingress_condition object = judge_addresses object.status

  abbrev ingresses_of : Option (List RouteIngress) → List RouteIngress
  ingresses_of none = []
  ingresses_of (some is) = is

  unfoldable pub set_route_condition : Route → Option Marked
  set_route_condition object =
      elim (judge_ingresses console.hostname (ingresses_of object.status)) [
        | admitted ↦
            mark_ready setter generation condition_true (codes "AsExpected")
              (codes "Route is admitted for " ++ console.hostname) cs
        | conflict ↦
            mark_ready setter generation condition_false (codes "HostnameConflict")
              (codes "Route hostname is already claimed") cs
        | undecided ↦
            mark_ready setter generation condition_false (codes "NotAdmitted")
              (codes "Route has not been admitted for " ++ console.hostname) cs
      ]

abbrev pub keeps_ingress : ExposureType → Bool
keeps_ingress ingress = true
keeps_ingress _ = false

abbrev pub keeps_route : ExposureType → Bool
keeps_route route = true
keeps_route _ = false

module _ (api : Api) (uid : Text) where
  abbrev delete_ingress : Exposures → Bool × Exposures
  delete_ingress x =
      let r = delete_exposure_if_owned api.ingresses uid x.ingress_object in
      (r.0, record x { ingress_object = r.1 })

  abbrev delete_route : Exposures → Bool × Exposures
  delete_route x =
      let r = delete_exposure_if_owned api.routes uid x.route_object in
      (r.0, record x { route_object = r.1 })

  abbrev delete_http_route : Exposures → Bool × Exposures
  delete_http_route x =
      let r = delete_exposure_if_owned api.http_routes uid x.http_route_object in
      (r.0, record x { http_route_object = r.1 })

  -- `keep` is the exposure's type; `cluster_ip` stands for the empty text.
  unfoldable pub delete_other_exposures : ExposureType → Exposures → Bool × Exposures
  delete_other_exposures keep x =
      let i = if keeps_ingress keep then (true, x) else delete_ingress x in
      let r =
        if not (keeps_route keep) && api.route_api_available
        then delete_route i.1
        else (true, i.1) in
      let h =
        if not (is_gateway keep) && api.gateway_api_available
        then delete_http_route r.1
        else (true, r.1) in
      if i.0 then (if r.0 then h else (false, r.1)) else (false, i.1)

-- What a reconcile returns and leaves: whether it succeeds, `Status.URL`, the conditions and the
-- objects.
pub record Exposed : Type 0 where
  pub succeeded : Bool
  pub url : Text
  pub conditions : List Condition
  pub exposures : Exposures

module _ (setter : SetsConditions) (short_digest : Text → Text) (cluster : Cluster) (api : Api)
    (console : PgConsole) (e : Exposure) (generation : ℕ) (cs : List Condition) where
  abbrev status_url : Text
  status_url = elim e.kind [ cluster_ip ↦ [] | _ ↦ codes "https://" ++ console.hostname ]

  abbrev failed : Exposures → Option Exposed
  failed x = some (record { succeeded = false; url = status_url; conditions = cs; exposures = x })

  abbrev end_exposure : Exposures → Option Marked → Option Exposed
  end_exposure x none = none
  end_exposure x (some (marked after)) =
      some (record { succeeded = true; url = status_url; conditions = after; exposures = x })
  end_exposure x (some gateway_unread) = failed x
  end_exposure x (some listener_unread) = failed x

  -- The others are deleted, and then the condition is set.
  unfoldable pub after_others : Bool × Exposures → Option Marked → Option Exposed
  after_others (done, x) condition = if done then end_exposure x condition else failed x

  abbrev with_ingress : Exposures → Option Ingress → Option Exposed
  with_ingress x none = failed x
  with_ingress x (some object) =
      after_others
        (delete_other_exposures api console.uid ingress (record x { ingress_object = some object }))
        (set_ingress_condition setter console generation cs object)

  abbrev with_route : Exposures → Option Route → Option Exposed
  with_route x none = failed x
  with_route x (some object) =
      after_others
        (delete_other_exposures api console.uid route (record x { route_object = some object }))
        (set_route_condition setter console generation cs object)

  abbrev live_route : Option HttpRoute → HttpRoute
  live_route none = record { generation = 0; parents = [] }
  live_route (some r) = r

  abbrev with_http_route : DesiredParent → Exposures → Option HttpRouteObject → Option Exposed
  with_http_route parent x none = failed x
  with_http_route parent x (some object) =
      after_others
        (delete_other_exposures api console.uid gateway
          (record x { http_route_object = some object }))
        (set_http_route_condition setter cluster console generation parent
          (live_route object.status) cs)

  -- The route for the referenced Gateway; without a reference, `httpRoute` dereferences nil.
  abbrev expose_gateway : Option DesiredParent → Exposures → Option Exposed
  expose_gateway none x = none
  expose_gateway (some parent) x = with_http_route parent x (
      reconcile_object api.http_routes (http_route_of short_digest console e parent)
        x.http_route_object)

  abbrev expose : ExposureType → Exposures → Option Exposed
  expose cluster_ip x = after_others (delete_other_exposures api console.uid cluster_ip x) (
      mark_ready setter generation condition_true (codes "NotRequested")
        (codes "external exposure is not requested") cs)
  expose ingress x =
      with_ingress x
        (reconcile_object api.ingresses (ingress_of short_digest console e) x.ingress_object)
  expose route x =
      if api.route_api_available
      then with_route x
          (reconcile_object api.routes (route_of short_digest console e) x.route_object)
      else after_others (delete_other_exposures api console.uid route x) (
          mark_ready setter generation condition_false (codes "NotAdmitted")
            (codes "OpenShift Route API is not served") cs)
  expose gateway x =
      if api.gateway_api_available
      then expose_gateway e.parent x
      else after_others (delete_other_exposures api console.uid gateway x) (
          mark_ready setter generation condition_false (codes "GatewayNotFound")
            (codes "Gateway API is not served") cs)

  -- `none` is a panic: of `mark`, or on a nil pointer.
  unfoldable pub reconcile_exposure : Exposures → Option Exposed
  reconcile_exposure x = expose e.kind x
