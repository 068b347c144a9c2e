-- ===== src/Console/Exposure/Single.antt =====
-- A console is exposed in one way at a time.
use mathlib.Core.Bool.{true≢false}
use mathlib.Core.Path.{subst}
use pg_tool_box.Common.{
  ℕ, Bool, true, false, Option, none, some, List, [], ◌∷◌, ◌≡◌, refl, arith, Text, codes, text_beq,
  sym, ap, if◌then◌else◌,
}
use pg_tool_box.Conditions.{SetsConditions, Condition, ConditionStatus, mark, is_known_reason}
use pg_tool_box.Console.ExposureObjects.{
  ExposureType, cluster_ip, ingress, route, gateway, Exposure, Exposures, Api, Ingress, Route,
  HttpRouteObject, reconcile_object, ingress_of, route_of, http_route_of,
}
use pg_tool_box.Console.Exposure.{
  Exposed, Verdict, undecided, admitted, conflict, judge_ingresses, ingresses_of,
  set_ingress_condition, set_route_condition, delete_other_exposures, after_others,
  reconcile_exposure, judge_addresses, live_route, end_exposure, expose, with_ingress, with_route,
  with_http_route, expose_gateway,
}
use pg_tool_box.Console.Exposure.Deletes.{Removes, delete_other-Removes}
use pg_tool_box.Console.Gateway.{
  Cluster, DesiredParent, Marked, marked, gateway_unread, listener_unread, mark_ready, route_ready,
}
use pg_tool_box.Console.Gateway.Ready.{set_http_route_condition_sound}
use pg_tool_box.Console.Objects.{PgConsole}

abbrev Marks : Option Marked → Type 0
Marks o = (m : Marked) × (o ≡ some m)

mark_ready-Marks :
    (setter : SetsConditions) (generation : ℕ) (status : ConditionStatus) (reason message : Text)
    (cs : List Condition)
    → is_known_reason reason ≡ true
    → Marks (mark_ready setter generation status reason message cs)
unfolding mark_ready mark
mark_ready-Marks setter generation status reason message cs known = (
  marked (
      setter.set cs (record {
        kind = route_ready;
        status = status;
        observed_generation = generation;
        reason = reason;
        message = message;
      })),
  ground arith,
)

known :
    (is_known_reason (codes "AsExpected") ≡ true)
    × (is_known_reason (codes "NotAdmitted") ≡ true)
    × (is_known_reason (codes "HostnameConflict") ≡ true)
    × (is_known_reason (codes "NotRequested") ≡ true)
    × (is_known_reason (codes "GatewayNotFound") ≡ true)
unfolding is_known_reason text_beq
known = ground arith

module _ (setter : SetsConditions) (console : PgConsole) (generation : ℕ)
    (cs : List Condition) where
  ingress-Marks :
      (object : Ingress) → Marks (set_ingress_condition setter console generation cs object)
  unfolding set_ingress_condition
  ingress-Marks object = go object.status
    where
      go : (s : Option (List Text)) → Marks (judge_addresses setter console generation cs s)
      go none = mark_ready-Marks setter generation _ _ _ cs known.1
      go (some []) = mark_ready-Marks setter generation _ _ _ cs known.1
      go (some (a ∷ rest)) = mark_ready-Marks setter generation _ _ _ cs known.0

  route-Marks : (object : Route) → Marks (set_route_condition setter console generation cs object)
  unfolding set_route_condition
  route-Marks object =
      judged
        (judge_ingresses console.hostname (ingresses_of setter console generation cs object.status))
        refl
    where
      judged :
          (v : Verdict)
          → judge_ingresses console.hostname
              (ingresses_of setter console generation cs object.status)
            ≡ v
          → Marks (set_route_condition setter console generation cs object)
      judged undecided e =
          rw (set_route_condition, e) (mark_ready-Marks setter generation _ _ _ cs known.1)
      judged admitted e =
          rw (set_route_condition, e) (mark_ready-Marks setter generation _ _ _ cs known.0)
      judged conflict e =
          rw (set_route_condition, e) (mark_ready-Marks setter generation _ _ _ cs known.2)

  -- A condition that was computed is concluded from.
  after_others-some :
      (short_digest : Text → Text) (cluster : Cluster) (api : Api) (e : Exposure) (done : Bool)
      (x : Exposures) (o : Option Marked)
      → Marks o
      → (r : Exposed) × (after_others setter short_digest cluster api console e generation cs
            (done, x)
            o
          ≡ some r)
        × (r.exposures ≡ x)
        × (r.succeeded ≡ true → done ≡ true)
  unfolding after_others
  after_others-some short_digest cluster api e false x o (m, h) = (_, refl, refl, λ s. s)
  after_others-some short_digest cluster api e true x o (marked after, h) = (
    _,
    ap (end_exposure setter short_digest cluster api console e generation cs x) h,
    refl,
    λ s. refl,
  )
  after_others-some short_digest cluster api e true x o (gateway_unread, h) = (
    _,
    ap (end_exposure setter short_digest cluster api console e generation cs x) h,
    refl,
    λ s. refl,
  )
  after_others-some short_digest cluster api e true x o (listener_unread, h) = (
    _,
    ap (end_exposure setter short_digest cluster api console e generation cs x) h,
    refl,
    λ s. refl,
  )

module _ (setter : SetsConditions) (short_digest : Text → Text) (cluster : Cluster) (api : Api)
    (console : PgConsole) (e : Exposure) (generation : ℕ) (cs : List Condition) where
  abbrev Leaves : ExposureType → Exposures → Option Exposed → Type 0
  Leaves keep x o =
      (r : Exposed) × (o ≡ some r) × Removes api console.uid keep x r.exposures r.succeeded

  weaken :
      (keep : ExposureType) (x after : Exposures) (done less : Bool)
      → (less ≡ true → done ≡ true)
      → Removes api console.uid keep x after done
      → Removes api console.uid keep x after less
  weaken keep x after done less f r = record {
    ingress_spared = r.ingress_spared;
    route_spared = r.route_spared;
    http_route_spared = r.http_route_spared;
    ingress_clear = λ d. r.ingress_clear (f d);
    route_clear = λ d. r.route_clear (f d);
    http_route_clear = λ d. r.http_route_clear (f d);
  }

  others :
      (keep : ExposureType) (x : Exposures) (o : Option Marked)
      → Marks o
      → Leaves keep x (
          after_others setter short_digest cluster api console e generation cs
            (delete_other_exposures api console.uid keep x)
            o)
  others keep x o marks =
      let p = delete_other_exposures api console.uid keep x in
      let (r, runs, same, done) =
        after_others-some setter console generation cs short_digest cluster api e p.0 p.1 o marks in
      (
        r,
        runs,
        weaken keep x r.exposures p.0 r.succeeded done (
            subst (λ y. Removes api console.uid keep x y p.0) (sym same)
              (delete_other-Removes api console.uid keep x p.1 p.0 refl)),
      )

  untouched : (keep : ExposureType) (x : Exposures) → Removes api console.uid keep x x false
  untouched keep x = record {
    ingress_spared = λ k o there foreign. there;
    route_spared = λ k o there foreign. there;
    http_route_spared = λ k o there foreign. there;
    ingress_clear = λ d. absurd (true≢false (sym d));
    route_clear = λ d. absurd (true≢false (sym d));
    http_route_clear = λ d. absurd (true≢false (sym d));
  }

  at_ingress :
      (x : Exposures) (object : Option Ingress) (o : Option Exposed)
      → Leaves ingress (record x { ingress_object = object }) o
      → Leaves ingress x o
  at_ingress x object o (r, runs, left) = (
    r,
    runs,
    record {
      ingress_spared = λ k. absurd (true≢false k);
      route_spared = left.route_spared;
      http_route_spared = left.http_route_spared;
      ingress_clear = left.ingress_clear;
      route_clear = left.route_clear;
      http_route_clear = left.http_route_clear;
    },
  )

  at_route :
      (x : Exposures) (object : Option Route) (o : Option Exposed)
      → Leaves route (record x { route_object = object }) o
      → Leaves route x o
  at_route x object o (r, runs, left) = (
    r,
    runs,
    record {
      ingress_spared = left.ingress_spared;
      route_spared = λ k. absurd (true≢false k);
      http_route_spared = left.http_route_spared;
      ingress_clear = left.ingress_clear;
      route_clear = left.route_clear;
      http_route_clear = left.http_route_clear;
    },
  )

  at_gateway :
      (x : Exposures) (object : Option HttpRouteObject) (o : Option Exposed)
      → Leaves gateway (record x { http_route_object = object }) o
      → Leaves gateway x o
  at_gateway x object o (r, runs, left) = (
    r,
    runs,
    record {
      ingress_spared = left.ingress_spared;
      route_spared = left.route_spared;
      http_route_spared = λ k. absurd (true≢false k);
      ingress_clear = left.ingress_clear;
      route_clear = left.route_clear;
      http_route_clear = left.http_route_clear;
    },
  )

  either-Leaves :
      (b : Bool) (keep : ExposureType) (x : Exposures) (o p : Option Exposed)
      → Leaves keep x o
      → Leaves keep x p
      → Leaves keep x (if b then o else p)
  either-Leaves true keep x o p h k = h
  either-Leaves false keep x o p h k = k

  ingress-Leaves :
      (x : Exposures) (object : Option Ingress)
      → Leaves ingress x
          (with_ingress setter short_digest cluster api console e generation cs x object)
  ingress-Leaves x none = (_, refl, untouched ingress x)
  ingress-Leaves x (some object) =
      at_ingress x (some object) _
        (others ingress _ _ (ingress-Marks setter console generation cs object))

  route-Leaves :
      (x : Exposures) (object : Option Route)
      → Leaves route x (with_route setter short_digest cluster api console e generation cs x object)
  route-Leaves x none = (_, refl, untouched route x)
  route-Leaves x (some object) =
      at_route x (some object) _
        (others route _ _ (route-Marks setter console generation cs object))

  gateway-Leaves :
      (parent : DesiredParent) (x : Exposures) (object : Option HttpRouteObject)
      → Leaves gateway x
          (with_http_route setter short_digest cluster api console e generation cs parent x object)
  gateway-Leaves parent x none = (_, refl, untouched gateway x)
  gateway-Leaves parent x (some object) =
      let (m, marks, explained) =
        set_http_route_condition_sound setter cluster console generation parent
          (live_route setter short_digest cluster api console e generation cs object.status) cs in
      at_gateway x (some object) _ (others gateway _ _ (m, marks))

  referenced-Leaves :
      (o : Option DesiredParent) (x : Exposures)
      → (parent : DesiredParent) × (o ≡ some parent)
      → Leaves gateway x
          (expose_gateway setter short_digest cluster api console e generation cs o x)
  referenced-Leaves none x (parent, h) = absurd (ground arith)
  referenced-Leaves (some parent) x h = gateway-Leaves parent x (
      reconcile_object api.http_routes (http_route_of short_digest console e parent)
        x.http_route_object)

  -- A Gateway exposure refers to a Gateway, as the validation rule of the resource asks.
  abbrev pub IsReferenced : ExposureType → Type 0
  IsReferenced kind = kind ≡ gateway → (parent : DesiredParent) × (e.parent ≡ some parent)

  expose-Leaves :
      (kind : ExposureType) (x : Exposures)
      → IsReferenced kind
      → Leaves kind x (expose setter short_digest cluster api console e generation cs kind x)
  expose-Leaves cluster_ip x ref =
      others cluster_ip x _ (mark_ready-Marks setter generation _ _ _ cs known.3)
  expose-Leaves ingress x ref =
      ingress-Leaves x
        (reconcile_object api.ingresses (ingress_of short_digest console e) x.ingress_object)
  expose-Leaves route x ref =
      either-Leaves api.route_api_available route x _ _
        (route-Leaves x
          (reconcile_object api.routes (route_of short_digest console e) x.route_object))
        (others route x _ (mark_ready-Marks setter generation _ _ _ cs known.1))
  expose-Leaves gateway x ref =
      either-Leaves api.gateway_api_available gateway x _ _
        (referenced-Leaves e.parent x (ref refl))
        (others gateway x _ (mark_ready-Marks setter generation _ _ _ cs known.4))

  -- A reconcile of the exposure does not panic, where a Gateway exposure refers to a Gateway. Of the
  -- kinds that the console does not ask for, it leaves each object that another controller has, or
  -- none, as it is, whatever its outcome. When it succeeds, the console controls no Ingress unless it
  -- asks for one, and no Route or HTTPRoute unless it asks for one or the kind's API is not served. Of
  -- the object of the kind that is asked for, it says nothing.
  pub reconcile_exposure_single :
      (x : Exposures)
      → IsReferenced e.kind
      → (r : Exposed) × (reconcile_exposure setter short_digest cluster api console e generation cs
            x
          ≡ some r)
        × Removes api console.uid e.kind x r.exposures r.succeeded
  unfolding reconcile_exposure
  reconcile_exposure_single x ref = expose-Leaves e.kind x ref
