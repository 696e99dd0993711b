-- ===== src/Tests/Agreement.antt =====
-- The two synchronisations of an upstream that two services share.
use mlb_controller.Base.{
  Bool, true, false, ◌&&◌, ◌≡◌, refl, List, [], ◌∷◌, ◌++◌, Option, none, some, Str, ℤ, codes, pos,
  str_eq, str_beq, All,
}
use mlb_controller.Base.GoMap
use mlb_controller.Domain.Config.{nginx}
use mlb_controller.Domain.Model.{Service, Backend, Upstream}
use mlb_controller.Controller.Env.{Env, ok, lb_name, upstream_name}
use mlb_controller.Controller.Merge.Key.{Address}
use mlb_controller.Controller.Merge.Weights.{total}
use mlb_controller.Controller.Sync.{service_upstream, merge_others}
use mlb_controller.Controller.Reconcile.Desired.{is_target, desired_upstreams}
use mlb_controller.Controller.Agreement.{synchronisations_agree}
use mlb_controller.Controller.Agreement.Shares.{weight_in}
use mlb_controller.Tests.Fixture.{env, service, pod, nginx_config}

abbrev cluster : Env
cluster = env [] (ok (pod ∷ []))

abbrev a : Service
a = service (codes "a")

abbrev b : Service
b = service (codes "b")

abbrev servers : ℤ → List Backend
servers w = record { ip = codes "10.0.0.1"; port = pos 80; weight = w } ∷ []

abbrev one : Upstream
one = record {
  name = codes "u";
  load_balancer = codes "l";
  backends = servers (pos 1);
  lb_type = codes "nginx";
  config = some (nginx nginx_config);
  preserve_existing_backends = false;
}

a_upstream : service_upstream cluster a ≡ ok (some one)
unfolding service_upstream mlb_controller.Controller.Build.build_upstream
    mlb_controller.Controller.Build.is_unmanaged str_beq lb_name GoMap.lookup upstream_name
    mlb_controller.Controller.Build.pod_backends mlb_controller.Controller.Build.after_pod
    mlb_controller.Controller.Build.pod_backend mlb_controller.Controller.Merge.merge_backends
    mlb_controller.Controller.Env.get_load_balancer_type
    mlb_controller.Controller.Env.get_load_balancer_config mlb_controller.Base.Sort.sort
    GoMap.values GoMap.insert
a_upstream = refl

b_upstream : service_upstream cluster b ≡ ok (some one)
unfolding service_upstream mlb_controller.Controller.Build.build_upstream
    mlb_controller.Controller.Build.is_unmanaged str_beq lb_name GoMap.lookup upstream_name
    mlb_controller.Controller.Build.pod_backends mlb_controller.Controller.Build.after_pod
    mlb_controller.Controller.Build.pod_backend mlb_controller.Controller.Merge.merge_backends
    mlb_controller.Controller.Env.get_load_balancer_type
    mlb_controller.Controller.Env.get_load_balancer_config mlb_controller.Base.Sort.sort
    GoMap.values GoMap.insert
b_upstream = refl

a_target : is_target (lb_name a) a ≡ true
unfolding is_target str_beq lb_name GoMap.lookup upstream_name
a_target = refl

both_merged : merge_others cluster a one.backends ([] ++ a ∷ b ∷ []) ≡ ok (servers (pos 2))
unfolding merge_others str_beq lb_name GoMap.lookup upstream_name
    mlb_controller.Controller.Build.build_upstream mlb_controller.Controller.Build.is_unmanaged
    mlb_controller.Controller.Build.pod_backends mlb_controller.Controller.Build.after_pod
    mlb_controller.Controller.Build.pod_backend mlb_controller.Controller.Merge.merge_backends
    mlb_controller.Base.Sort.sort GoMap.values GoMap.insert
    mlb_controller.Controller.Merge.Key.address_text
    mlb_controller.Controller.Env.get_load_balancer_config mlb_controller.Base.add64
both_merged = refl

b_differs : (str_beq b.namespace a.namespace && str_beq b.name a.name) ≡ false
unfolding str_beq
b_differs = refl

abbrev at : Address
at = (codes "10.0.0.1", pos 80)

synchronisations_agree_example :
    weight_in at (upstream_name a) (desired_upstreams cluster (lb_name a) [] ([] ++ a ∷ b ∷ []) [])
    ≡ total at (servers (pos 2))
synchronisations_agree_example =
    synchronisations_agree cluster [] a [] (b ∷ []) one (servers (pos 2)) at a_target
      ((some one, a_upstream), ((some one, b_upstream), tt)) tt (b_differs, tt) a_upstream
      both_merged
