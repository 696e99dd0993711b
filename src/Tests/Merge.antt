-- ===== src/Tests/Merge.antt =====
-- `mergeBackends` and `buildUpstream` on small inputs.
use mlb_controller.Base.{
  Bool, false, ◌≡◌, refl, sym, List, [], ◌∷◌, ◌++◌, Option, none, some, codes, pos, int_eq, str_eq,
  str_beq, add64, arith,
}
use mlb_controller.Base.GoMap
use mlb_controller.Base.Sort
use mlb_controller.Base.Decimal.{itoa}
use mlb_controller.Domain.Model.{Backend, Upstream}
use mlb_controller.Controller.Env.{
  ok, get_load_balancer_config, get_load_balancer_type, lb_name, upstream_name,
}
use mlb_controller.Controller.Merge.{merge_backends, sort_backends, merged_values}
use mlb_controller.Controller.Merge.Key.{address, address_eq, address_order}
use mlb_controller.Controller.Merge.Weights.{total}
use mlb_controller.Controller.Merge.Totals.{at_address}
use mlb_controller.Controller.Merge.Laws.{
  find_backend, find-merge_backends, merge_backends-IsSorted, merge_backends_comm,
}
use mlb_controller.Controller.Build.{build_upstream, is_unmanaged, pod_backends}
use mlb_controller.Controller.Build.Counting.{count_at}
use mlb_controller.Controller.Build.Laws.{build_upstream-weights, weights}
use mlb_controller.Domain.Config.{nginx}
use mlb_controller.Tests.Fixture.{nginx_config, backend, env, service, pod}

abbrev left : List Backend
left = backend (codes "10.0.0.2") ∷ backend (codes "10.0.0.1") ∷ []

abbrev right : List Backend
right = backend (codes "10.0.0.2") ∷ []

merged_weight :
    find_backend (codes "10.0.0.2", pos 80) (merge_backends left right)
    ≡ some (record { ip = codes "10.0.0.2"; port = pos 80; weight = pos 2 })
unfolding merge_backends Sort.find Sort.sort GoMap.insert GoMap.lookup itoa str_beq add64
    GoMap.values mlb_controller.Controller.Merge.Key.address_text
    mlb_controller.Controller.Merge.Key.address_ltb mlb_controller.Base.str_ltb
merged_weight = refl

find-merge_backends_example :
    find_backend (codes "10.0.0.2", pos 80) (merge_backends left right)
    ≡ at_address (codes "10.0.0.2", pos 80) (total (codes "10.0.0.2", pos 80) (left ++ right))
find-merge_backends_example = find-merge_backends (codes "10.0.0.2", pos 80) left right

merge_backends-IsSorted_example : Sort.IsSorted address_order address (merge_backends left right)
merge_backends-IsSorted_example = merge_backends-IsSorted left right

merge_backends_comm_example : merge_backends left right ≡ merge_backends right left
merge_backends_comm_example = merge_backends_comm left right

-- Two ready pods on one node.
abbrev built : Upstream
built = record {
  name = codes "u";
  load_balancer = codes "l";
  backends = record { ip = codes "10.0.0.1"; port = pos 80; weight = pos 2 } ∷ [];
  lb_type = codes "nginx";
  config = some (nginx nginx_config);
  preserve_existing_backends = false;
}

two_pods : build_upstream (env [] (ok [])) (service (codes "a")) (pod ∷ pod ∷ []) ≡ ok (some built)
unfolding build_upstream is_unmanaged pod_backends lb_name upstream_name merge_backends Sort.sort
    GoMap.insert GoMap.lookup itoa str_beq add64 get_load_balancer_config get_load_balancer_type
    mlb_controller.Controller.Build.after_pod mlb_controller.Controller.Build.pod_backend
    GoMap.values mlb_controller.Controller.Merge.Key.address_text
two_pods = refl

build_upstream-weights_example :
    find_backend (codes "10.0.0.1", (service (codes "a")).node_port) built.backends
    ≡ at_address
        (codes "10.0.0.1", (service (codes "a")).node_port)
        (weights
          (count_at (env [] (ok [])) (service (codes "a")) (codes "10.0.0.1") (pod ∷ pod ∷ [])))
build_upstream-weights_example =
    build_upstream-weights (env [] (ok [])) (service (codes "a")) (pod ∷ pod ∷ []) built
      (codes "10.0.0.1") (omega arith) two_pods
