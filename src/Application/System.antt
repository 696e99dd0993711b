-- ===== src/Application/System.antt =====
-- The goroutines of one process as a step relation: `App.Start`, `KubernetesLeaderElection.Run`, the
-- elector of client-go, the signal handler, and the goroutines that run the controller.
pub mod Invariant
pub mod Laws
pub mod Ending
use mlb_controller.Base.{ℕ, suc, ◌≡◌, Bool, true, false, if◌then◌else◌, ◌≢◌}

-- Where `App.Start` is.
pub data AppPhase : Type 0 where
  waiting : AppPhase
  returned : AppPhase

-- Where `Run` is. The elector of client-go acquires the lease, renews it, and at its end, whether it
-- had the lease or not, cancels the context of the leader and calls `OnStoppedLeading`, which clears
-- `isLeader` under one lock, the leadership of the metrics under another, and cancels the context of
-- the application.
pub data Phase : Type 0 where
  idle : Phase
  acquiring : Phase
  leading : Phase
  stopping : Phase
  -- `isLeader` is cleared.
  unmarked : Phase
  -- The metrics show no leader.
  hidden : Phase
  stopped : Phase
  finished : Phase
  failed : Phase

-- Where the call of `OnStartedLeading` is, which client-go runs in a goroutine of its own.
pub data Starting : Type 0 where
  absent : Starting
  pending : Starting
  -- `isLeader` is set.
  marked : Starting
  -- The metrics show the leadership.
  shown : Starting
  -- The controller is launched.
  complete : Starting

pub record System : Type 0 where
  -- k.isLeader
  pub is_leader : Bool
  -- p.isLeader of the metrics
  pub metrics_leader : Bool
  -- How often `controller.Start` was launched.
  pub controllers : ℕ
  -- appCtx
  pub cancelled : Bool
  pub app : AppPhase
  pub election : Phase
  pub starting : Starting

-- `OnStartedLeading` of `Run`, up to the callback of the application.
unfoldable pub mark_leader : System → System
mark_leader s = record s { is_leader = true; starting = marked }

-- The two parts of the callback of the application.
unfoldable pub show_leader : System → System
show_leader s = record s { metrics_leader = true; starting = shown }

unfoldable pub launch_controller : System → System
launch_controller s = record s { controllers = suc s.controllers; starting = complete }

-- `OnStoppedLeading` of `Run`, up to the callback of the application.
unfoldable pub unmark_leader : System → System
unmark_leader s = record s { is_leader = false; election = unmarked }

-- The two parts of the callback of the application.
unfoldable pub hide_leader : System → System
hide_leader s = record s { metrics_leader = false; election = hidden }

unfoldable pub cancel_app : System → System
cancel_app s = record s { cancelled = true; election = stopped }

-- `App.Start` has set the callbacks and launched `Run`. The leadership on the metrics is that of the
-- new election, which leads nothing.
abbrev pub launched : System
launched = record {
  is_leader = false;
  metrics_leader = false;
  controllers = 0;
  cancelled = false;
  app = waiting;
  election = idle;
  starting = absent;
}

-- What `Run` returns once the elector has ended: an error unless the context has ended.
unfoldable pub run_result : System → Phase
run_result s = if s.cancelled then finished else failed

pub data Step (enabled : Bool) : System → System → Type 0 where
  -- Without an election `Run` calls `OnStartedLeading` at once, and `OnStoppedLeading` where the
  -- context has ended after that.
  lead_alone :
      (s : System)
      → enabled ≡ false
      → s.election ≡ idle
      → Step enabled s (record s { election = leading; starting = pending })
  stop_alone :
      (s : System)
      → enabled ≡ false
      → s.election ≡ leading
      → s.starting ≡ complete
      → s.cancelled ≡ true
      → Step enabled s (record s { election = stopping })
  -- `NewLeaderElector` refuses the settings.
  refuse :
      (s : System)
      → enabled ≡ true
      → s.election ≡ idle
      → Step enabled s (record s { election = failed })
  begin :
      (s : System)
      → enabled ≡ true
      → s.election ≡ idle
      → Step enabled s (record s { election = acquiring })
  acquire :
      (s : System)
      → s.election ≡ acquiring
      → Step enabled s (record s { election = leading; starting = pending })
  give_up :
      (s : System)
      → s.election ≡ acquiring
      → s.cancelled ≡ true
      → Step enabled s (record s { election = stopping })
  -- The goroutine of the callback may run at any time after the lease was acquired, also after it was
  -- lost, and other goroutines between its parts.
  mark : (s : System) → s.starting ≡ pending → Step enabled s (mark_leader s)
  show : (s : System) → s.starting ≡ marked → Step enabled s (show_leader s)
  launch : (s : System) → s.starting ≡ shown → Step enabled s (launch_controller s)
  -- The lease is lost, or given back because the context has ended.
  lose :
      (s : System)
      → enabled ≡ true
      → s.election ≡ leading
      → Step enabled s (record s { election = stopping })
  unmark : (s : System) → s.election ≡ stopping → Step enabled s (unmark_leader s)
  hide : (s : System) → s.election ≡ unmarked → Step enabled s (hide_leader s)
  cancel : (s : System) → s.election ≡ hidden → Step enabled s (cancel_app s)
  end_run :
      (s : System) → s.election ≡ stopped → Step enabled s (record s { election = run_result s })
  -- `App.Start` cancels the context where `Run` failed.
  cancel_failed :
      (s : System)
      → s.election ≡ failed
      → s.cancelled ≡ false
      → Step enabled s (record s { cancelled = true })
  -- SIGTERM or an interrupt.
  signal : (s : System) → s.cancelled ≡ false → Step enabled s (record s { cancelled = true })
  exit :
      (s : System)
      → s.app ≡ waiting
      → s.cancelled ≡ true
      → Step enabled s (record s { app = returned })

-- The states that a process comes to.
pub data Reach (enabled : Bool) : System → Type 0 where
  start : Reach enabled launched
  later : {s t : System} → Reach enabled s → Step enabled s t → Reach enabled t

-- Every sequence of steps from a state comes to a state with `P`: the state has `P`, or some step can
-- be made and every step leads on.
pub data Leads (enabled : Bool) (P : System → Type 0) : System → Type 0 where
  now : {s : System} → P s → Leads enabled P s
  soon :
      {s : System}
      → (t : System) × Step enabled s t
      → ((t : System) → Step enabled s t → Leads enabled P t)
      → Leads enabled P s
