-- ===== src/Kubernetes/Objects/Laws.antt =====
-- Which ports and pods the client lets through.
use mlb_controller.Base.{
  Bool, true, false, not, ◌&&◌, ◌≡◌, refl, List, [], ◌∷◌, Option, none, some, Str, codes, ℤ, pos,
  leb_ℤ, ◌==◌, str_eq, if◌then◌else◌, is_empty, all, arith, Bool-cases, inl, inr,
}
use mlb_controller.Base.GoMap
use mlb_controller.Base.Decimal.{parse_int32}
use mlb_controller.Kubernetes.Objects.{
  ServiceObject, PodObject, Condition, is_port, label_port, first_port, port_as, get_node_port,
  all_ready, running, ready_condition, is_pod_ready, is_exposed,
}

-- A port, or 0, which stands for a service without one.
abbrev pub IsPortOrNone : ℤ → Type 0
IsPortOrNone p = (leb_ℤ (pos 0) p ≡ true) × (leb_ℤ p (pos 65535) ≡ true)

label_port-bounds : (o : Option ℤ) → IsPortOrNone (label_port o)
unfolding label_port is_port
label_port-bounds none = (refl, refl)
label_port-bounds (some p) = (ground arith, ground arith)

first_port-bounds : (exposed : Bool) (ports : List ℤ) → IsPortOrNone (first_port exposed ports)
unfolding first_port is_port
first_port-bounds exposed [] = (refl, refl)
first_port-bounds exposed (p ∷ ps) = (ground arith, ground arith)

port_as-bounds : (svc : ServiceObject) (o : Option Str) → IsPortOrNone (port_as svc o)
unfolding port_as
port_as-bounds svc none = first_port-bounds (is_exposed svc.service_type) svc.ports
port_as-bounds svc (some text) = label_port-bounds (parse_int32 text)

-- For a service that carries the label `mlb-port`, whatever its text and the ports of the service
-- are, the node port is 0 or lies between 1 and 65535, and the ports of the service do not matter.
pub get_node_port-bounds :
    (svc : ServiceObject) (text : Str) (other : List ℤ)
    → GoMap.lookup (codes "mlb-port") svc.labels ≡ some text
    → IsPortOrNone (get_node_port svc)
      × (get_node_port (record svc { ports = other }) ≡ get_node_port svc)
unfolding get_node_port port_as
get_node_port-bounds svc text other h =
    (port_as-bounds svc (GoMap.lookup (codes "mlb-port") svc.labels), rw h refl)

-- The status of the first condition of a given type.
abbrev pub status_of : Str → List Condition → Option Str
status_of t [] = none
status_of t (c ∷ cs) = if c.condition_type == t then some c.status else status_of t cs

abbrev pub decide_ready : PodObject → Option Str → Bool
decide_ready pod (some status) = status == codes "True"
decide_ready pod none =
    pod.phase == codes "Running"
    && not (is_empty pod.containers)
    && all (λ ready. ready) pod.containers

all_ready-all : (rs : List Bool) → all_ready rs ≡ all (λ ready. ready) rs
unfolding all_ready
all_ready-all [] = refl
all_ready-all (true ∷ rs) = all_ready-all rs
all_ready-all (false ∷ rs) = refl

running-eq : (pod : PodObject) → running pod ≡ decide_ready pod none
unfolding running
running-eq pod = ground (arith, all_ready-all pod.containers)

ready_condition-eq :
    (pod : PodObject) (cs : List Condition)
    → ready_condition pod cs ≡ decide_ready pod (status_of (codes "Ready") cs)
unfolding ready_condition
ready_condition-eq pod [] = running-eq pod
ready_condition-eq pod (c ∷ cs) = elim (Bool-cases (c.condition_type == codes "Ready")) [
  | inl t ↦ rw t refl
  | inr f ↦ rw f (ready_condition-eq pod cs)
]

-- A pod counts as ready exactly if it is not being deleted and either its first condition `Ready` has
-- the status `True`, or it has no such condition, is running and has containers, all of them ready.
pub is_pod_ready-eq :
    (pod : PodObject)
    → is_pod_ready pod
      ≡ (not pod.deleting && decide_ready pod (status_of (codes "Ready") pod.conditions))
unfolding is_pod_ready
is_pod_ready-eq pod = ground (arith, ready_condition-eq pod pod.conditions)
