-- ===== src/Console/Exposure/Deletes.antt =====
-- What the removal of the other exposures takes away, and what it leaves.
use mathlib.Core.Option.{some_inj, some-ne-none}
use mathlib.Core.Bool.{true≢false}
use pg_tool_box.Common.{
  Bool, true, false, Option, none, some, ◌≡◌, ◌≢◌, refl, arith, Text, text_eq, text_beq_iff,
  Bool-cases, ap, sym, ◌∙◌, ◌⊎◌, inl, inr,
}
use pg_tool_box.Console.ExposureObjects.{
  ExposureType, Object, Exposures, Deleted, deleted, already_gone, not_deleted, ObjectApi, Api,
  Ingress, Route, HttpRouteObject, delete_exposure_if_owned, is_owned_by, is_gateway,
}
use pg_tool_box.Console.Exposure.{delete_other_exposures, keeps_ingress, keeps_route}

module _ {Spec Status : Type 0} (uid : Text) where
  -- An object that the console does not control stays.
  abbrev pub Spares : Option (Object Spec Status) → Option (Object Spec Status) → Type 0
  Spares before after =
      (o : Object Spec Status) → before ≡ some o → o.owner ≢ some uid → after ≡ some o

  -- No object is left that the console controls.
  abbrev pub IsClear : Option (Object Spec Status) → Type 0
  IsClear after = (o : Object Spec Status) → after ≡ some o → o.owner ≢ some uid

module _ {Spec Status : Type 0} (api : ObjectApi Spec Status) (uid : Text) where
  owned_by_iff : (o : Option Text) → is_owned_by uid o ≡ true → o ≡ some uid
  owned_by_iff none h = absurd (ground arith)
  owned_by_iff (some owner) h = ap some ((text_beq_iff owner uid).0 h)

  owned-by_self : (o : Option Text) → o ≡ some uid → is_owned_by uid o ≡ true
  owned-by_self none h = absurd (ground arith)
  owned-by_self (some owner) h = ground (arith, text_beq_iff owner uid)

  same_owner :
      (x o : Object Spec Status)
      → is_owned_by uid x.owner ≡ true
      → some x ≡ some o
      → o.owner ≡ some uid
  same_owner x o mine e =
      let f : x ≡ o = some_inj.0 e in ap (λ p. p.owner) (sym f) ∙ owned_by_iff x.owner mine

  pub delete-Spares :
      (existing : Option (Object Spec Status))
      → Spares uid existing (delete_exposure_if_owned api uid existing).1
  unfolding delete_exposure_if_owned
  delete-Spares none o e foreign = absurd (ground arith)
  delete-Spares (some x) o e foreign = elim (Bool-cases (is_owned_by uid x.owner)) [
    | inl mine ↦ absurd (foreign (same_owner x o mine e))
    | inr other ↦ ground arith
  ]

  deleted_lem :
      (x : Object Spec Status)
      → api.reads ≡ true
      → is_owned_by uid x.owner ≡ true
      → (delete_exposure_if_owned api uid (some x)).0 ≡ true
      → (delete_exposure_if_owned api uid (some x)).1 ≡ none
  unfolding delete_exposure_if_owned
  deleted_lem x on own h = removed api.deletes refl
    where
      removed :
          (d : Deleted) → api.deletes ≡ d → (delete_exposure_if_owned api uid (some x)).1 ≡ none
      removed deleted p = rw (on, own, p) refl
      removed already_gone p = rw (on, own, p) refl
      removed not_deleted p = absurd (true≢false (sym h ∙ rw (on, own, p) refl))

  kept_lem :
      (x : Object Spec Status)
      → is_owned_by uid x.owner ≡ false
      → (delete_exposure_if_owned api uid (some x)).1 ≡ some x
  unfolding delete_exposure_if_owned
  kept_lem x other = ground arith

  pub delete-IsClear :
      (existing : Option (Object Spec Status))
      → (delete_exposure_if_owned api uid existing).0 ≡ true
      → IsClear uid (delete_exposure_if_owned api uid existing).1
  unfolding delete_exposure_if_owned
  delete-IsClear none h o e mine = absurd (ground arith)
  delete-IsClear (some x) h o e mine = elim (Bool-cases api.reads) [
    | inr off ↦ absurd (true≢false (sym h ∙ rw off refl))
    | inl on ↦ elim (Bool-cases (is_owned_by uid x.owner)) [
      | inl own ↦ absurd (some-ne-none _ (sym e ∙ deleted_lem x on own h))
      | inr other ↦
          let f : x ≡ o = some_inj.0 (sym (kept_lem x other) ∙ e) in
          absurd (true≢false (sym (owned-by_self x.owner (ap (λ p. p.owner) f ∙ mine)) ∙ other))
    ]
  ]

module _ (api : Api) (uid : Text) (keep : ExposureType) (x after : Exposures) (done : Bool)
    (runs : delete_other_exposures api uid keep x ≡ (done, after)) where
  abbrev without_ingress : Bool × Option Ingress
  without_ingress = delete_exposure_if_owned api.ingresses uid x.ingress_object

  abbrev without_route : Bool × Option Route
  without_route = delete_exposure_if_owned api.routes uid x.route_object

  abbrev without_http_route : Bool × Option HttpRouteObject
  without_http_route = delete_exposure_if_owned api.http_routes uid x.http_route_object

  ingress_slot :
      (after.ingress_object ≡ x.ingress_object) ⊎ (after.ingress_object ≡ without_ingress.1)
  unfolding delete_other_exposures
  ingress_slot = ground (arith, runs)

  route_slot : (after.route_object ≡ x.route_object) ⊎ (after.route_object ≡ without_route.1)
  unfolding delete_other_exposures
  route_slot = ground (arith, runs)

  http_route_slot :
      (after.http_route_object ≡ x.http_route_object)
      ⊎ (after.http_route_object ≡ without_http_route.1)
  unfolding delete_other_exposures
  http_route_slot = ground (arith, runs)

  ingress_done :
      done ≡ true
      → keeps_ingress keep ≡ false
      → (without_ingress.0 ≡ true) × (after.ingress_object ≡ without_ingress.1)
  unfolding delete_other_exposures
  ingress_done d k = ground (arith, runs)

  route_done :
      done ≡ true
      → keeps_route keep ≡ false
      → api.route_api_available ≡ true
      → (without_route.0 ≡ true) × (after.route_object ≡ without_route.1)
  unfolding delete_other_exposures
  route_done d k available = ground (arith, runs)

  http_route_done :
      done ≡ true
      → is_gateway keep ≡ false
      → api.gateway_api_available ≡ true
      → (without_http_route.0 ≡ true) × (after.http_route_object ≡ without_http_route.1)
  unfolding delete_other_exposures
  http_route_done d k available = ground (arith, runs)

-- What the removal leaves for the kinds that are not kept: each object of another controller, and on
-- success none of the console's own, where the kind's API is served.
pub record Removes (api : Api) (uid : Text) (keep : ExposureType) (x after : Exposures)
    (done : Bool) : Type 0 where
  pub ingress_spared : keeps_ingress keep ≡ false → Spares uid x.ingress_object after.ingress_object
  pub route_spared : keeps_route keep ≡ false → Spares uid x.route_object after.route_object
  pub http_route_spared :
      is_gateway keep ≡ false → Spares uid x.http_route_object after.http_route_object
  pub ingress_clear : done ≡ true → keeps_ingress keep ≡ false → IsClear uid after.ingress_object
  pub route_clear :
      done ≡ true
      → keeps_route keep ≡ false
      → api.route_api_available ≡ true
      → IsClear uid after.route_object
  pub http_route_clear :
      done ≡ true
      → is_gateway keep ≡ false
      → api.gateway_api_available ≡ true
      → IsClear uid after.http_route_object

module _ {Spec Status : Type 0} (api : ObjectApi Spec Status) (uid : Text)
    (before left : Option (Object Spec Status)) where
  slot-Spares :
      (left ≡ before) ⊎ (left ≡ (delete_exposure_if_owned api uid before).1)
      → Spares uid before left
  slot-Spares (inl e) o there foreign = e ∙ there
  slot-Spares (inr e) o there foreign = e ∙ delete-Spares api uid before o there foreign

  slot-IsClear :
      ((delete_exposure_if_owned api uid before).0 ≡ true)
        × (left ≡ (delete_exposure_if_owned api uid before).1)
      → IsClear uid left
  slot-IsClear (d, e) o there = delete-IsClear api uid before d o (sym e ∙ there)

pub delete_other-Removes :
    (api : Api) (uid : Text) (keep : ExposureType) (x after : Exposures) (done : Bool)
    → delete_other_exposures api uid keep x ≡ (done, after)
    → Removes api uid keep x after done
delete_other-Removes api uid keep x after done runs = record {
  ingress_spared =
      λ k. slot-Spares api.ingresses uid _ _ (ingress_slot api uid keep x after done runs);
  route_spared = λ k. slot-Spares api.routes uid _ _ (route_slot api uid keep x after done runs);
  http_route_spared =
      λ k. slot-Spares api.http_routes uid _ _ (http_route_slot api uid keep x after done runs);
  ingress_clear =
      λ d k. slot-IsClear api.ingresses uid _ _ (ingress_done api uid keep x after done runs d k);
  route_clear =
      λ d k a. slot-IsClear api.routes uid _ _ (route_done api uid keep x after done runs d k a);
  http_route_clear = λ d k a.
      slot-IsClear api.http_routes uid _ _ (http_route_done api uid keep x after done runs d k a);
}
