-- ===== src/Controller/Build/Counting.antt =====
-- Which pods count for an address in `buildUpstream` of internal/controller/controller.go.
use mathlib.Core.Path.{ap₂}
use mlb_controller.Base.{
  Bool, true, false, not, ◌&&◌, ◌||◌, ◌==◌, str_eq, ℕ, ◌+◌, ◌≡◌, refl, ap, ◌∙◌, List, [], ◌∷◌,
  Option, none, some, Str, pos, arith, if◌then◌else◌, str_beq,
}
use mlb_controller.Domain.Model.{Service, Pod, Node, Backend}
use mlb_controller.Domain.Config.{LoadBalancerConfig, get_ip_replacement}
use mlb_controller.Util.IpReplacement.{apply_ip_replacement}
use mlb_controller.Controller.Env.{
  Env, Result, ok, err, node_failed, lb_name, get_load_balancer_config,
}
use mlb_controller.Controller.Build.{node_address, replaced, backend_ip, pod_backend}

-- What a round of the loop counts for an address.
abbrev pub counts : Str → Result (Option Backend) → ℕ
counts ip (ok (some b)) = if str_beq b.ip ip then 1 else 0
counts ip _ = 0

-- The address of a node: the internal one where there is one, or else the external one.
abbrev address_of : Str → Str → Str
address_of [] external = external
address_of (x ∷ internal) external = x ∷ internal

-- The address that a load balancer is given for that of a node.
abbrev given : Env → Option LoadBalancerConfig → Str → Str
given env none ip = ip
given env (some lb) ip = elim (get_ip_replacement lb) [
  | false ↦ ip
  | true ↦ apply_ip_replacement ip lb env.config.global_ip_replacement_list
]

-- Whether a node gives an address to the load balancer of a service.
abbrev pub gives : Env → Service → Str → Result Node → Bool
gives env svc ip (err e) = false
gives env svc ip (ok node) = elim (address_of node.internal_ip node.external_ip) [
  | [] ↦ false
  | x ∷ xs ↦ str_beq (given env (get_load_balancer_config env (lb_name svc)) (x ∷ xs)) ip
]

-- How many pods of a list are ready, placed on a node, and served through an address there.
unfoldable pub count_at : Env → Service → Str → List Pod → ℕ
count_at env svc ip [] = 0
count_at env svc ip (pod ∷ pods) =
    (if pod.ready
        && not (pod.node_name == [])
        && gives env svc ip (env.k8s_client.get_node_by_name pod.node_name)
      then 1
      else 0)
    + count_at env svc ip pods

-- The same count by what the rounds of the loop give.
unfoldable pub rounds_at : Env → Service → Str → List Pod → ℕ
rounds_at env svc ip [] = 0
rounds_at env svc ip (pod ∷ pods) = counts ip (pod_backend env svc pod) + rounds_at env svc ip pods

backend_ip-given :
    (env : Env) (svc : Service) (ip : Str)
    → backend_ip env svc ip ≡ given env (get_load_balancer_config env (lb_name svc)) ip
unfolding backend_ip
backend_ip-given env svc ip = go (get_load_balancer_config env (lb_name svc))
  where
    go : (o : Option LoadBalancerConfig) → replaced env ip o ≡ given env o ip
    go none = refl
    go (some lb) = ground arith

node_address-eq : (node : Node) → node_address node ≡ address_of node.internal_ip node.external_ip
unfolding str_beq
node_address-eq node = go node.internal_ip
  where
    go :
        (internal : Str)
        → (if internal == [] then node.external_ip else internal)
          ≡ address_of internal node.external_ip
    go [] = refl
    go (x ∷ xs) = refl

abbrev node_round : Env → Service → Str → Result (Option Backend)
node_round env svc a =
    if a == []
    then ok none
    else ok (some (record { ip = backend_ip env svc a; port = svc.node_port; weight = pos 1 }))

address-counts :
    (env : Env) (svc : Service) (ip a : Str)
    → counts ip (node_round env svc a) ≡ (
        if elim a [
          | [] ↦ false
          | x ∷ xs ↦ str_beq (given env (get_load_balancer_config env (lb_name svc)) (x ∷ xs)) ip
        ]
        then 1
        else 0)
unfolding str_beq
address-counts env svc ip [] = refl
address-counts env svc ip (x ∷ xs) =
    ap (λ u. if str_beq u ip then 1 else 0) (backend_ip-given env svc (x ∷ xs))

node_round-gives :
    (env : Env) (svc : Service) (ip : Str) (node : Node)
    → counts ip (node_round env svc (node_address node))
      ≡ (if gives env svc ip (ok node) then 1 else 0)
node_round-gives env svc ip node =
    ap (λ a. counts ip (node_round env svc a)) (node_address-eq node)
    ∙ address-counts env svc ip (address_of node.internal_ip node.external_ip)

round-counts :
    (env : Env) (svc : Service) (ip : Str) (pod : Pod)
    → counts ip (pod_backend env svc pod) ≡ (
        if pod.ready
          && not (pod.node_name == [])
          && gives env svc ip (env.k8s_client.get_node_by_name pod.node_name)
        then 1
        else 0)
unfolding pod_backend
round-counts env svc ip pod =
    go pod.ready (pod.node_name == []) (env.k8s_client.get_node_by_name pod.node_name)
  where
    go :
        (r n : Bool) (found : Result Node)
        → counts ip (
            if not r || n then ok none else elim found [
              | err e ↦ err (node_failed pod.node_name pod.name e)
              | ok node ↦ node_round env svc (node_address node)
            ])
          ≡ (if r && not n && gives env svc ip found then 1 else 0)
    go false n found = refl
    go true true found = refl
    go true false (err e) = refl
    go true false (ok node) = node_round-gives env svc ip node

pub rounds_at-eq :
    (env : Env) (svc : Service) (ip : Str) (pods : List Pod)
    → rounds_at env svc ip pods ≡ count_at env svc ip pods
unfolding rounds_at count_at
rounds_at-eq env svc ip [] = refl
rounds_at-eq env svc ip (pod ∷ pods) =
    ap₂ ◌+◌ (round-counts env svc ip pod) (rounds_at-eq env svc ip pods)
