-- ===== src/Application/System/Laws.antt =====
-- What holds in every state of the process.
use mlb_controller.Base.{◌≤◌, Bool, arith, if◌then◌else◌}
use mlb_controller.Application.System.{System, Reach}
use mlb_controller.Application.System.Invariant.{
  bit, is_called, is_early, is_over, is_returned, is_settled, Reach-Inv,
}

-- In every state of a process, however its goroutines take turns: `OnStartedLeading` is called only
-- once the lease is acquired or, without an election, `Run` leads. Before that call no controller is
-- launched and neither the election nor the metrics show this instance as the leader; after it the
-- controller is launched at most once. While `Run` leads and `OnStartedLeading` has returned, both show
-- the leadership, and the controller is launched. Once `OnStoppedLeading` has returned, and once
-- `App.Start` has, the context has ended.
pub one_controller :
    {enabled : Bool} {s : System}
    → Reach enabled s
    → (bit (is_called s.starting) ≤ (if is_early s.election then 0 else 1))
      × (s.controllers ≤ bit (is_called s.starting))
      × (bit s.is_leader ≤ bit (is_called s.starting))
      × (bit s.metrics_leader ≤ bit (is_called s.starting))
      × (bit (is_settled s.election s.starting) ≤ s.controllers)
      × (bit (is_settled s.election s.starting) ≤ bit s.is_leader)
      × (bit (is_settled s.election s.starting) ≤ bit s.metrics_leader)
      × (bit (is_over s.election) ≤ bit s.cancelled)
      × (bit (is_returned s.app) ≤ bit s.cancelled)
one_controller r =
    let i = Reach-Inv r in
    (
      i.one,
      ground (arith, i.made),
      ground (arith, i.led),
      ground (arith, i.seen),
      ground (arith, i.made),
      ground (arith, i.agree),
      ground (arith, i.displayed),
      ground (arith, i.over),
      ground (arith, i.gone),
    )
