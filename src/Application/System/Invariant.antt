-- ===== src/Application/System/Invariant.antt =====
-- The invariant of the goroutines of one process, which every step keeps.
use mlb_controller.Base.{ℕ, ◌≤◌, ◌≡◌, refl, Bool, true, false, arith, if◌then◌else◌}
use mlb_controller.Application.System.{
  System, Phase, idle, acquiring, leading, stopping, unmarked, hidden, stopped, finished, failed,
  Starting, absent, pending, marked, shown, complete, AppPhase, waiting, returned, mark_leader,
  show_leader, launch_controller, unmark_leader, hide_leader, cancel_app, run_result, Step,
  lead_alone, stop_alone, refuse, begin, acquire, give_up, mark, show, launch, lose, unmark, hide,
  cancel, end_run, cancel_failed, signal, exit, Reach, start, later,
}

abbrev pub bit : Bool → ℕ
bit true = 1
bit false = 0

-- The lease has not been acquired yet.
abbrev pub is_early : Phase → Bool
is_early idle = true
is_early acquiring = true
is_early _ = false

-- `OnStoppedLeading` has not been called.
abbrev is_before_stop : Phase → Bool
is_before_stop idle = true
is_before_stop acquiring = true
is_before_stop leading = true
is_before_stop _ = false

-- `OnStoppedLeading` has returned.
abbrev pub is_over : Phase → Bool
is_over stopped = true
is_over finished = true
is_over _ = false

abbrev pub is_returned : AppPhase → Bool
is_returned waiting = false
is_returned returned = true

-- `OnStartedLeading` has been called.
abbrev pub is_called : Starting → Bool
is_called absent = false
is_called pending = true
is_called marked = true
is_called shown = true
is_called complete = true

abbrev is_marked : Starting → Bool
is_marked absent = false
is_marked pending = false
is_marked marked = true
is_marked shown = true
is_marked complete = true

abbrev is_shown : Starting → Bool
is_shown absent = false
is_shown pending = false
is_shown marked = false
is_shown shown = true
is_shown complete = true

abbrev is_complete : Starting → Bool
is_complete absent = false
is_complete pending = false
is_complete marked = false
is_complete shown = false
is_complete complete = true

-- `Run` leads, and `OnStartedLeading` has returned.
abbrev pub is_settled : Phase → Starting → Bool
is_settled leading complete = true
is_settled _ _ = false

pub record Inv (s : System) : Type 0 where
  pub one : bit (is_called s.starting) ≤ (if is_early s.election then 0 else 1)
  pub made : s.controllers ≡ bit (is_complete s.starting)
  pub led : bit s.is_leader ≤ bit (is_marked s.starting)
  pub seen : bit s.metrics_leader ≤ bit (is_shown s.starting)
  pub agree : is_before_stop s.election ≡ true → s.is_leader ≡ is_marked s.starting
  pub displayed : is_before_stop s.election ≡ true → s.metrics_leader ≡ is_shown s.starting
  pub over : is_over s.election ≡ true → s.cancelled ≡ true
  pub gone : s.app ≡ returned → s.cancelled ≡ true

-- The premises of a step.
abbrev pub Premise : {enabled : Bool} {s t : System} → Step enabled s t → Type 0
Premise {enabled} {s} (lead_alone _ _ _) = (enabled ≡ false) × (s.election ≡ idle)
Premise {enabled} {s} (stop_alone _ _ _ _ _) =
    (enabled ≡ false) × (s.election ≡ leading) × (s.starting ≡ complete) × (s.cancelled ≡ true)
Premise {enabled} {s} (refuse _ _ _) = (enabled ≡ true) × (s.election ≡ idle)
Premise {enabled} {s} (begin _ _ _) = (enabled ≡ true) × (s.election ≡ idle)
Premise {s = s} (acquire _ _) = s.election ≡ acquiring
Premise {s = s} (give_up _ _ _) = (s.election ≡ acquiring) × (s.cancelled ≡ true)
Premise {s = s} (mark _ _) = s.starting ≡ pending
Premise {s = s} (show _ _) = s.starting ≡ marked
Premise {s = s} (launch _ _) = s.starting ≡ shown
Premise {enabled} {s} (lose _ _ _) = (enabled ≡ true) × (s.election ≡ leading)
Premise {s = s} (unmark _ _) = s.election ≡ stopping
Premise {s = s} (hide _ _) = s.election ≡ unmarked
Premise {s = s} (cancel _ _) = s.election ≡ hidden
Premise {s = s} (end_run _ _) = s.election ≡ stopped
Premise {s = s} (cancel_failed _ _ _) = (s.election ≡ failed) × (s.cancelled ≡ false)
Premise {s = s} (signal _ _) = s.cancelled ≡ false
Premise {s = s} (exit _ _ _) = (s.app ≡ waiting) × (s.cancelled ≡ true)

pub premise : {enabled : Bool} {s t : System} (st : Step enabled s t) → Premise st
premise (lead_alone _ d e) = (d, e)
premise (stop_alone _ d e f c) = (d, e, f, c)
premise (refuse _ d e) = (d, e)
premise (begin _ d e) = (d, e)
premise (acquire _ e) = e
premise (give_up _ e c) = (e, c)
premise (mark _ e) = e
premise (show _ e) = e
premise (launch _ e) = e
premise (lose _ d e) = (d, e)
premise (unmark _ e) = e
premise (hide _ e) = e
premise (cancel _ e) = e
premise (end_run _ e) = e
premise (cancel_failed _ e c) = (e, c)
premise (signal _ c) = c
premise (exit _ w c) = (w, c)

Step-one :
    {enabled : Bool} {s t : System}
    → Step enabled s t
    → Inv s
    → bit (is_called t.starting) ≤ (if is_early t.election then 0 else 1)
unfolding mark_leader show_leader launch_controller unmark_leader hide_leader cancel_app run_result
Step-one (begin _ d e) i = ground (arith, i.one, i.made, e)
Step-one st i = ground (arith, premise st, i.one, i.made)

Step-made :
    {enabled : Bool} {s t : System}
    → Step enabled s t
    → Inv s
    → t.controllers ≡ bit (is_complete t.starting)
unfolding mark_leader show_leader launch_controller unmark_leader hide_leader cancel_app run_result
Step-made (begin _ d e) i = ground (arith, i.one, i.made, e)
Step-made st i = ground (arith, premise st, i.one, i.made)

Step-led :
    {enabled : Bool} {s t : System}
    → Step enabled s t
    → Inv s
    → bit t.is_leader ≤ bit (is_marked t.starting)
unfolding mark_leader show_leader launch_controller unmark_leader hide_leader cancel_app run_result
Step-led (begin _ d e) i = ground (arith, i.one, i.led, e)
Step-led st i = ground (arith, premise st, i.one, i.led)

Step-seen :
    {enabled : Bool} {s t : System}
    → Step enabled s t
    → Inv s
    → bit t.metrics_leader ≤ bit (is_shown t.starting)
unfolding mark_leader show_leader launch_controller unmark_leader hide_leader cancel_app run_result
Step-seen (begin _ d e) i = ground (arith, i.one, i.seen, e)
Step-seen st i = ground (arith, premise st, i.one, i.seen)

Step-agree :
    {enabled : Bool} {s t : System}
    → Step enabled s t
    → Inv s
    → is_before_stop t.election ≡ true
    → t.is_leader ≡ is_marked t.starting
unfolding mark_leader show_leader launch_controller unmark_leader hide_leader cancel_app run_result
Step-agree (begin _ d e) i h = ground (arith, i.agree, i.one, i.made, e)
Step-agree st i h = ground (arith, premise st, i.agree, i.one, i.made)

Step-displayed :
    {enabled : Bool} {s t : System}
    → Step enabled s t
    → Inv s
    → is_before_stop t.election ≡ true
    → t.metrics_leader ≡ is_shown t.starting
unfolding mark_leader show_leader launch_controller unmark_leader hide_leader cancel_app run_result
Step-displayed (begin _ d e) i h = ground (arith, i.displayed, i.one, i.made, e)
Step-displayed st i h = ground (arith, premise st, i.displayed, i.one, i.made)

Step-over :
    {enabled : Bool} {s t : System}
    → Step enabled s t
    → Inv s
    → is_over t.election ≡ true
    → t.cancelled ≡ true
unfolding mark_leader show_leader launch_controller unmark_leader hide_leader cancel_app run_result
Step-over (begin _ d e) i h = ground (arith, i.over, e)
Step-over st i h = ground (arith, premise st, i.over)

Step-gone :
    {enabled : Bool} {s t : System}
    → Step enabled s t
    → Inv s
    → t.app ≡ returned
    → t.cancelled ≡ true
unfolding mark_leader show_leader launch_controller unmark_leader hide_leader cancel_app run_result
Step-gone (begin _ d e) i h = ground (arith, i.gone, e)
Step-gone st i h = ground (arith, premise st, i.gone)

Step-Inv : {enabled : Bool} {s t : System} → Step enabled s t → Inv s → Inv t
Step-Inv st i = record {
  one = Step-one st i;
  made = Step-made st i;
  led = Step-led st i;
  seen = Step-seen st i;
  agree = Step-agree st i;
  displayed = Step-displayed st i;
  over = Step-over st i;
  gone = Step-gone st i;
}

pub Reach-Inv : {enabled : Bool} {s : System} → Reach enabled s → Inv s
Reach-Inv start = record {
  one = omega arith;
  made = refl;
  led = omega arith;
  seen = omega arith;
  agree = λ h. refl;
  displayed = λ h. refl;
  over = λ h. ground arith;
  gone = λ h. ground arith;
}
Reach-Inv (later r st) = Step-Inv st (Reach-Inv r)
