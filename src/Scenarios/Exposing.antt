-- ===== src/Scenarios/Exposing.antt =====
-- A console that moves from an Ingress to a Gateway, beside a Route of another owner.
use pg_tool_box.Common.{
  true, false, none, some, [], ◌∷◌, ◌≡◌, refl, Text, codes, text_eq, text_beq, starts_with,
}
use pg_tool_box.Conditions.{Condition, condition_true}
use pg_tool_box.Console.ExposureObjects.{
  gateway, Exposure, Exposures, Api, ObjectApi, deleted, Ingress, Route,
}
use pg_tool_box.Console.Exposure.{Exposed, reconcile_exposure}
use pg_tool_box.Console.Exposure.Deletes.{Removes}
use pg_tool_box.Console.Exposure.Single.{reconcile_exposure_single}
use pg_tool_box.Console.Gateway.{
  Cluster, DesiredParent, Gateway, Listener, https, HttpRoute, Marked, set_http_route_condition,
  gateway_hostname_matches, ends_with,
}
use pg_tool_box.Console.Gateway.Ready.{Explains, set_http_route_condition_sound}
use pg_tool_box.Console.Objects.{found, missing}
use pg_tool_box.Scenarios.Consoles.{console}
use pg_tool_box.Scenarios.Requests.{setter}

-- A wildcard takes several labels.
wildcard_takes_labels :
    gateway_hostname_matches (codes "*.example.com") (codes "a.b.example.com") ≡ true
unfolding gateway_hostname_matches ends_with text_beq starts_with
wildcard_takes_labels = refl

abbrev parent : DesiredParent
parent = record { name = codes "edge"; namespace = []; section_name = [] }

abbrev listener : Listener
listener = record { name = codes "web"; protocol = https; hostname = none; allowed_routes = none }

abbrev edge : Gateway
edge = record { namespace = console.namespace; listeners = listener ∷ [] }

abbrev cluster : Cluster
cluster = record {
  group_name = codes "gateway.networking.k8s.io";
  accepted = codes "Accepted";
  resolved_refs = codes "ResolvedRefs";
  gateway_at = λ namespace name. found edge;
  labels_of = λ namespace. missing;
  as_selector = λ s. none;
}

abbrev reported : Text → Condition
reported kind = record {
  kind = kind;
  status = condition_true;
  observed_generation = 2;
  reason = kind;
  message = [];
}

abbrev http_route : HttpRoute
http_route = record {
  generation = 2;
  parents =
      record {
        parent_ref = record { name = codes "edge"; namespace = none; section_name = none };
        conditions = reported (codes "Accepted") ∷ reported (codes "ResolvedRefs") ∷ [];
      }
      ∷ [];
}

set_http_route_condition_sound_example :
    (m : Marked) × (set_http_route_condition setter cluster console 1 parent http_route [] ≡ some m)
    × Explains setter cluster console 1 parent http_route [] m
set_http_route_condition_sound_example =
    set_http_route_condition_sound setter cluster console 1 parent http_route []

abbrev answers : {Spec Status : Type 0} → ObjectApi Spec Status
answers = record {
  reads = true;
  deletes = deleted;
  same_spec = λ a b. false;
  same_map = λ a b. false;
  applies = λ before desired. some desired;
}

abbrev api : Api
api = record {
  route_api_available = true;
  gateway_api_available = true;
  ingresses = answers;
  routes = answers;
  http_routes = answers;
}

abbrev owned_ingress : Ingress
owned_ingress = record {
  labels = [];
  annotations = [];
  owner = some console.uid;
  spec = record {
    class_name = none;
    host = codes "console.example.com";
    path = codes "/";
    service = codes "main-pgconsole";
    port = 80;
    tls = [];
  };
  status = none;
}

abbrev foreign_route : Route
foreign_route = record {
  labels = [];
  annotations = [];
  owner = none;
  spec = record {
    host = codes "other.example.com";
    service = codes "other";
    weight = 100;
    target_port = codes "http";
    tls = none;
  };
  status = none;
}

abbrev exposure : Exposure
exposure = record {
  kind = gateway;
  tls = none;
  ingress_class_name = [];
  parent = some parent;
  annotations = [];
  labels = [];
}

abbrev exposures : Exposures
exposures = record {
  ingress_object = some owned_ingress;
  route_object = some foreign_route;
  http_route_object = none;
}

abbrev digest : Text → Text
digest name = codes "0123456789"

reconcile_exposure_single_example :
    (r : Exposed) × (reconcile_exposure setter digest cluster api console exposure 1 [] exposures
      ≡ some r)
    × Removes api console.uid gateway exposures r.exposures r.succeeded
reconcile_exposure_single_example =
    reconcile_exposure_single setter digest cluster api console exposure 1 [] exposures
      (λ e. (parent, refl))
