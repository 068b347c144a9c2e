-- ===== src/Console/ExposureObjects.antt =====
-- The objects that expose a console, internal/controller/pgconsole/exposure.go: the Ingress, Route and
-- HTTPRoute that are built for it, their reconcile, and the removal of one that the console owns.
-- Server-side apply, the deep equality of maps and specifications, and the answers of the API are
-- parameters. `SetControllerReference` makes the console the owner, since the object is new.
use pg_tool_box.Common.{
  ℕ, Bool, true, false, not, ◌&&◌, ◌||◌, if◌then◌else◌, Option, none, some, List, [], ◌∷◌, Text,
  codes, text_eq, ◌==◌,
}
use pg_tool_box.Conditions.{ConditionStatus}
use pg_tool_box.Config.{is_empty}
use pg_tool_box.Console.Gateway.{DesiredParent, ParentReference, HttpRoute}
use pg_tool_box.Console.Labels.{Labels, filtered_overlay, exposure_labels, labels_contain}
use pg_tool_box.Console.Names.{resource_name}
use pg_tool_box.Console.Objects.{PgConsole}

pub data ExposureType : Type 0 where
  cluster_ip ingress route gateway : ExposureType

pub record ExposureTls : Type 0 where
  pub termination : Text
  pub certificate : Option Text

-- `spec.exposure`, without the hostname, which the console has; empty text stands for a field that is
-- not set.
pub record Exposure : Type 0 where
  pub kind : ExposureType
  pub tls : Option ExposureTls
  pub ingress_class_name : Text
  -- the reference in `spec.exposure.gateway`, where that pointer is set
  pub parent : Option DesiredParent
  pub annotations : Labels
  pub labels : Labels

-- The first path of the first rule, and the backend behind it.
pub record IngressSpec : Type 0 where
  pub class_name : Option Text
  pub host : Text
  pub path : Text
  pub service : Text
  pub port : ℕ
  pub tls : List (List Text × Text)

pub record RouteTls : Type 0 where
  pub termination : Text
  pub insecure_policy : Text

pub record RouteSpec : Type 0 where
  pub host : Text
  pub service : Text
  pub weight : ℕ
  pub target_port : Text
  pub tls : Option RouteTls

pub record HttpRouteSpec : Type 0 where
  pub parents : List ParentReference
  pub hostnames : List Text
  pub service : Text
  pub port : ℕ
  pub weight : ℕ

-- An exposure object: its metadata, its specification, and the status that others write.
pub record Object (Spec Status : Type 0) : Type 0 where
  pub labels : Labels
  pub annotations : Labels
  pub owner : Option Text
  pub spec : Spec
  pub status : Option Status

pub record RouteCondition : Type 0 where
  -- `condition.Type == routev1.RouteAdmitted`
  pub is_admission : Bool
  pub status : ConditionStatus
  pub reason : Text
  pub message : Text

pub record RouteIngress : Type 0 where
  pub host : Text
  pub conditions : List RouteCondition

-- The addresses of the load balancer.
abbrev pub Ingress : Type 0
Ingress = Object IngressSpec (List Text)

abbrev pub Route : Type 0
Route = Object RouteSpec (List RouteIngress)

abbrev pub HttpRouteObject : Type 0
HttpRouteObject = Object HttpRouteSpec HttpRoute

-- The objects of the console's name, one of each kind at most.
pub record Exposures : Type 0 where
  pub ingress_object : Option Ingress
  pub route_object : Option Route
  pub http_route_object : Option HttpRouteObject

-- What `Delete` answers; `already_gone` is the error that `IgnoreNotFound` drops.
pub data Deleted : Type 0 where
  deleted already_gone not_deleted : Deleted

-- What the API answers for the objects of one kind. `applies` is the object that server-side apply
-- leaves, or its error. It leaves the desired controller, since an object has one at most.
pub record ObjectApi (Spec Status : Type 0) : Type 0 where
  pub reads : Bool
  pub deletes : Deleted
  pub same_spec : Spec → Spec → Bool
  pub same_map : Labels → Labels → Bool
  pub applies : Option (Object Spec Status) → Object Spec Status → Option (Object Spec Status)

pub record Api : Type 0 where
  pub route_api_available : Bool
  pub gateway_api_available : Bool
  pub ingresses : ObjectApi IngressSpec (List Text)
  pub routes : ObjectApi RouteSpec (List RouteIngress)
  pub http_routes : ObjectApi HttpRouteSpec HttpRoute

-- `none` is the nil error.
abbrev pub forbids_tls : Option ExposureTls → Bool
forbids_tls none = true
forbids_tls (some tls) = elim tls.certificate [
  | none ↦ is_empty tls.termination
  | some name ↦ false
]

abbrev pub is_gateway : ExposureType → Bool
is_gateway gateway = true
is_gateway _ = false

-- Whether the settings can be honoured.
unfoldable pub validate_exposure : Exposure → Bool
validate_exposure e = not (is_gateway e.kind) || forbids_tls e.tls

unfoldable pub string_ptr_or_nil : Text → Option Text
string_ptr_or_nil [] = none
string_ptr_or_nil (c ∷ s) = some (c ∷ s)

-- A nil map is the empty one.
unfoldable pub exposure_annotations : Exposure → Labels
exposure_annotations e = filtered_overlay e.annotations

module _ (short_digest : Text → Text) (console : PgConsole) (e : Exposure) where
  abbrev pub service_name : Text
  service_name = resource_name short_digest console.name []

  abbrev pub object : {Spec Status : Type 0} → Spec → Object Spec Status
  object spec = record {
    labels = exposure_labels console.name e.labels;
    annotations = exposure_annotations e;
    owner = some console.uid;
    spec = spec;
    status = none;
  }

  abbrev pub ingress_tls : Option ExposureTls → List (List Text × Text)
  ingress_tls none = []
  ingress_tls (some tls) = elim tls.certificate [
    | none ↦ []
    | some name ↦ (console.hostname ∷ [], name) ∷ []
  ]

  unfoldable pub ingress_of : Ingress
  ingress_of = object (record {
    class_name = string_ptr_or_nil e.ingress_class_name;
    host = console.hostname;
    path = codes "/";
    service = service_name;
    port = 80;
    tls = ingress_tls e.tls;
  })

  abbrev pub termination_of : Option ExposureTls → Text
  termination_of none = []
  termination_of (some tls) = tls.termination

  unfoldable pub route_of : Route
  route_of =
      let termination = termination_of e.tls in
      object (record {
        host = console.hostname;
        service = service_name;
        weight = 100;
        target_port = if termination == codes "reencrypt" then codes "https" else codes "http";
        tls =
            if is_empty termination
            then none
            else some (record { termination = termination; insecure_policy = codes "Redirect" });
      })

  -- For the reference behind `spec.exposure.gateway`.
  unfoldable pub http_route_of : DesiredParent → HttpRouteObject
  http_route_of parent = object (record {
    parents =
        record {
          name = parent.name;
          namespace = string_ptr_or_nil parent.namespace;
          section_name = string_ptr_or_nil parent.section_name;
        }
        ∷ [];
    hostnames = console.hostname ∷ [];
    service = service_name;
    port = 443;
    weight = 1;
  })

-- ControllerOwnerMatches
unfoldable pub controller_owner_matches : Option Text → Option Text → Bool
controller_owner_matches (some a) (some b) = a == b
controller_owner_matches _ _ = false

abbrev pub is_owned_by : Text → Option Text → Bool
is_owned_by uid none = false
is_owned_by uid (some owner) = owner == uid

module _ {Spec Status : Type 0} (api : ObjectApi Spec Status) where
  unfoldable pub exposure_object_matches : Object Spec Status → Object Spec Status → Bool
  exposure_object_matches existing desired =
      labels_contain existing.labels desired.labels
      && api.same_map existing.annotations desired.annotations
      && controller_owner_matches existing.owner desired.owner

  -- `reconcileIngress`, `reconcileRoute` and `reconcileHTTPRoute`: the object that there is then, or
  -- `none` for an error, which leaves what there was.
  unfoldable pub reconcile_object :
      Object Spec Status → Option (Object Spec Status) → Option (Object Spec Status)
  reconcile_object desired existing =
      if api.reads
      then elim existing [
        | none ↦ api.applies none desired
        | some e ↦
            if exposure_object_matches e desired && api.same_spec e.spec desired.spec
            then some e
            else api.applies (some e) desired
      ]
      else none

  abbrev pub after_delete :
      Deleted → Option (Object Spec Status) → Bool × Option (Object Spec Status)
  after_delete deleted existing = (true, none)
  after_delete already_gone existing = (true, none)
  after_delete not_deleted existing = (false, existing)

  -- Whether it succeeds, and what is left.
  unfoldable pub delete_exposure_if_owned :
      Text → Option (Object Spec Status) → Bool × Option (Object Spec Status)
  delete_exposure_if_owned uid existing =
      if api.reads
      then elim existing [
        | none ↦ (true, none)
        | some e ↦
            if is_owned_by uid e.owner then after_delete api.deletes (some e) else (true, some e)
      ]
      else (false, existing)
