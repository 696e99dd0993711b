-- ===== src/Controller/Build/Laws.antt =====
-- What `buildUpstream` returns.
use mathlib.Core.Path.{ap₂}
use mlb_controller.Base.{
  str_eq, ℕ, zero, suc, ◌+◌, ◌^◌, ◌≤◌, ◌<◌, ◌≡◌, refl, ap, ◌∙◌, List, [], ◌∷◌, Option, none, some,
  Str, ℤ, pos, add64_pos, length, arith, inl, inr, if◌then◌else◌, beq_ℤ_iff,
}
use mlb_controller.Domain.Model.{Service, Pod, Backend, Upstream}
use mlb_controller.Controller.Env.{Env, Result, Result-cases, ok, err, lb_name}
use mlb_controller.Controller.Merge.{merge_backends}
use mlb_controller.Controller.Merge.Key.{Address, address, address_beq}
use mlb_controller.Controller.Merge.Weights.{total, total-append, plus, plus_comm}
use mlb_controller.Controller.Merge.Totals.{at_address}
use mlb_controller.Controller.Merge.Laws.{find_backend, find-merge_backends}
use mlb_controller.Controller.Build.{
  pod_backend, pod_backends, after_pod, cons_backend, build_upstream,
}
use mlb_controller.Controller.Build.Counting.{counts, count_at, rounds_at, rounds_at-eq}

pub build_upstream-load_balancer :
    (env : Env) (svc : Service) (pods : List Pod) (up : Upstream)
    → build_upstream env svc pods ≡ ok (some up)
    → up.load_balancer ≡ lb_name svc
unfolding build_upstream
build_upstream-load_balancer env svc pods up h = ground arith

-- The backends before they are merged.
build_upstream-backends :
    (env : Env) (svc : Service) (pods : List Pod) (up : Upstream) (bs : List Backend)
    → build_upstream env svc pods ≡ ok (some up)
    → pod_backends env svc pods ≡ ok bs
    → up.backends ≡ merge_backends bs []
unfolding build_upstream
build_upstream-backends env svc pods up bs h e = ground arith

abbrev pub weights : ℕ → Option ℤ
weights zero = none
weights (suc n) = some (pos (suc n))

plus-weights : (m n : ℕ) → m + n < 2 ^ 63 → plus (weights m) (weights n) ≡ weights (m + n)
plus-weights zero n h = ground arith
plus-weights (suc m) zero h = ground arith
plus-weights (suc m) (suc n) h = ground (arith, add64_pos (suc m) (suc n))

-- Each pod has one backend of weight 1 and the port of the service, or none.
pod_backend-port :
    (env : Env) (svc : Service) (pod : Pod) (b : Backend)
    → pod_backend env svc pod ≡ ok (some b)
    → (b.port ≡ svc.node_port) × (b.weight ≡ pos 1)
unfolding pod_backend
pod_backend-port env svc pod b h = ground arith

rounds_at-le :
    (env : Env) (svc : Service) (ip : Str) (pods : List Pod)
    → rounds_at env svc ip pods ≤ length pods
unfolding rounds_at
rounds_at-le env svc ip [] = omega arith
rounds_at-le env svc ip (pod ∷ pods) = ground (arith, rounds_at-le env svc ip pods)

-- One pod more.
total_cons :
    (ip : Str) (p : ℤ) (b : Backend) (cs : List Backend) (n : ℕ)
    → (b.port ≡ p) × (b.weight ≡ pos 1)
    → total (ip, p) cs ≡ weights n
    → counts ip (ok (some b)) + n < 2 ^ 63
    → total (ip, p) (b ∷ cs) ≡ weights (counts ip (ok (some b)) + n)
unfolding total
total_cons ip p b cs n f e h =
    let w : (if address_beq (address b) (ip, p) then some b.weight else none)
        ≡ weights (counts ip (ok (some b))) =
      ground (arith, beq_ℤ_iff b.port p) in
    ap₂ plus w e ∙ plus-weights (counts ip (ok (some b))) n h

total_step :
    (ip : Str) (p : ℤ) (o : Option Backend) (rest : Result (List Backend)) (bs : List Backend)
    (n : ℕ)
    → ((b : Backend) → o ≡ some b → (b.port ≡ p) × (b.weight ≡ pos 1))
    → ((cs : List Backend) → rest ≡ ok cs → total (ip, p) cs ≡ weights n)
    → counts ip (ok o) + n < 2 ^ 63
    → cons_backend o rest ≡ ok bs
    → total (ip, p) bs ≡ weights (counts ip (ok o) + n)
total_step ip p none (err e) bs n f ih l h = cc
total_step ip p (some b) (err e) bs n f ih l h = cc
total_step ip p none (ok cs) bs n f ih l h = ih bs h ∙ ap weights (omega arith)
total_step ip p (some b) (ok cs) bs n f ih l h =
    let q : b ∷ cs ≡ bs = cc in rw (← q) (total_cons ip p b cs n (f b refl) (ih cs refl) l)

total_round :
    (ip : Str) (p : ℤ) (r : Result (Option Backend)) (rest : Result (List Backend))
    (bs : List Backend) (n : ℕ)
    → ((b : Backend) → r ≡ ok (some b) → (b.port ≡ p) × (b.weight ≡ pos 1))
    → ((cs : List Backend) → rest ≡ ok cs → total (ip, p) cs ≡ weights n)
    → counts ip r + n < 2 ^ 63
    → after_pod r rest ≡ ok bs
    → total (ip, p) bs ≡ weights (counts ip r + n)
unfolding after_pod
total_round ip p (err e) rest bs n f ih l h = cc
total_round ip p (ok o) rest bs n f ih l h =
    total_step ip p o rest bs n (λ b e. f b (ap ok e)) ih l h

total-pod_backends :
    (env : Env) (svc : Service) (ip : Str) (pods : List Pod) (bs : List Backend)
    → length pods < 2 ^ 63
    → pod_backends env svc pods ≡ ok bs
    → total (ip, svc.node_port) bs ≡ weights (rounds_at env svc ip pods)
unfolding pod_backends total rounds_at
total-pod_backends env svc ip [] bs l h = let q : [] ≡ bs = cc in rw (← q) refl
total-pod_backends env svc ip (pod ∷ pods) bs l h =
    let fits : counts ip (pod_backend env svc pod) + rounds_at env svc ip pods < 2 ^ 63 =
      ground (arith, rounds_at-le env svc ip pods) in
    total_round ip svc.node_port (pod_backend env svc pod) (pod_backends env svc pods) bs
      (rounds_at env svc ip pods) (pod_backend-port env svc pod)
      (λ cs e. total-pod_backends env svc ip pods cs (omega arith) e) fits h

-- `pod_backends` succeeded where `buildUpstream` did.
pods_ok :
    (env : Env) (svc : Service) (pods : List Pod) (up : Upstream)
    → build_upstream env svc pods ≡ ok (some up)
    → (bs : List Backend) × (pod_backends env svc pods ≡ ok bs)
unfolding build_upstream
pods_ok env svc pods up h = elim (Result-cases (pod_backends env svc pods)) [
  | inl r ↦ r
  | inr (e, q) ↦ absurd (ground arith)
]

-- For fewer than 2^63 pods: the upstream that `buildUpstream` returns holds, at each address with the
-- port of the service, one backend whose weight is the number of pods that are ready, are placed on a
-- node, and whose node gives this address: its internal address, or else its external one, after the
-- replacement of the load balancer if that is on. Where there is no such pod it holds none.
pub build_upstream-weights :
    (env : Env) (svc : Service) (pods : List Pod) (up : Upstream) (ip : Str)
    → length pods < 2 ^ 63
    → build_upstream env svc pods ≡ ok (some up)
    → find_backend (ip, svc.node_port) up.backends
      ≡ at_address (ip, svc.node_port) (weights (count_at env svc ip pods))
build_upstream-weights env svc pods up ip l h =
    let (bs, e) = pods_ok env svc pods up h in
    let k : Address = (ip, svc.node_port) in
    ap (find_backend k) (build_upstream-backends env svc pods up bs h e)
    ∙ find-merge_backends k bs []
    ∙ ap (at_address k) (
        total-append k bs []
        ∙ plus_comm (total k bs) (total k [])
        ∙ unfold total in
          refl
          ∙ total-pod_backends env svc ip pods bs l e
          ∙ ap weights (rounds_at-eq env svc ip pods))
