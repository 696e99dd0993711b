-- ===== src/Application/System/Ending.antt =====
-- Every process whose lease is lost, or whose context has ended, ends.
use mlb_controller.Base.{
  ℕ, zero, suc, ◌+◌, ◌*◌, ◌<◌, ◌≡◌, refl, ◌⊎◌, inl, inr, Bool, true, false, Bool-cases, arith,
  if◌then◌else◌,
}
use mlb_controller.Application.System.{
  System, Phase, idle, acquiring, leading, stopping, unmarked, hidden, stopped, finished, failed,
  Starting, absent, pending, marked, shown, complete, AppPhase, waiting, returned, mark_leader,
  show_leader, launch_controller, unmark_leader, hide_leader, cancel_app, run_result, Step,
  lead_alone, stop_alone, refuse, begin, acquire, give_up, mark, show, launch, lose, unmark, hide,
  cancel, end_run, cancel_failed, signal, exit, Leads, now, soon,
}
use mlb_controller.Application.System.Invariant.{premise}

abbrev rank : Phase → ℕ
rank idle = 8
rank acquiring = 7
rank leading = 6
rank stopping = 5
rank unmarked = 4
rank hidden = 3
rank stopped = 2
rank finished = 0
rank failed = 1

abbrev starting_rank : Starting → ℕ
starting_rank absent = 0
starting_rank pending = 3
starting_rank marked = 2
starting_rank shown = 1
starting_rank complete = 0

abbrev app_rank : AppPhase → ℕ
app_rank waiting = 1
app_rank returned = 0

-- How many steps a process can still make at most.
abbrev measure : System → ℕ
measure s =
    4 * rank s.election + starting_rank s.starting + (if s.cancelled then 0 else 1) + app_rank s.app

Step-measure : {enabled : Bool} {s t : System} → Step enabled s t → measure t < measure s
unfolding mark_leader show_leader launch_controller unmark_leader hide_leader cancel_app run_result
Step-measure (begin _ d e) = ground (arith, d, e)
Step-measure st = ground (arith, premise st)

-- The elector has stopped, or could not be made.
abbrev pub is_ending : Phase → Bool
is_ending idle = false
is_ending acquiring = false
is_ending leading = false
is_ending stopping = true
is_ending unmarked = true
is_ending hidden = true
is_ending stopped = true
is_ending finished = false
is_ending failed = true

abbrev pub IsLost : System → Type 0
IsLost s = (s.cancelled ≡ true) ⊎ (is_ending s.election ≡ true)

Step-cancelled :
    {enabled : Bool} {s t : System} → Step enabled s t → s.cancelled ≡ true → t.cancelled ≡ true
unfolding mark_leader show_leader launch_controller unmark_leader hide_leader cancel_app run_result
Step-cancelled (begin _ d e) c = c
Step-cancelled st c = ground (arith, premise st)

run_result-IsLost : (s : System) → (s.cancelled ≡ true) ⊎ (is_ending (run_result s) ≡ true)
unfolding run_result
run_result-IsLost s = elim (Bool-cases s.cancelled) [ inl t ↦ inl t | inr f ↦ inr (rw f refl) ]

Step-ending :
    {enabled : Bool} {s t : System} → Step enabled s t → is_ending s.election ≡ true → IsLost t
unfolding mark_leader show_leader launch_controller unmark_leader hide_leader cancel_app
Step-ending (lead_alone _ d e) h = absurd (ground (arith, e))
Step-ending (stop_alone _ d e f c) h = inr refl
Step-ending (refuse _ d e) h = inr refl
Step-ending (begin _ d e) h = absurd (ground (arith, e))
Step-ending (acquire _ e) h = absurd (ground (arith, e))
Step-ending (give_up _ e c) h = inl c
Step-ending (mark _ e) h = inr h
Step-ending (show _ e) h = inr h
Step-ending (launch _ e) h = inr h
Step-ending (lose _ d e) h = inr refl
Step-ending (unmark _ e) h = inr refl
Step-ending (hide _ e) h = inr refl
Step-ending (cancel _ e) h = inl refl
Step-ending (end_run s e) h = run_result-IsLost s
Step-ending (cancel_failed _ e c) h = inl refl
Step-ending (signal _ c) h = inl refl
Step-ending (exit _ w c) h = inl c

Step-IsLost : {enabled : Bool} {s t : System} → Step enabled s t → IsLost s → IsLost t
Step-IsLost st (inl c) = inl (Step-cancelled st c)
Step-IsLost st (inr e) = Step-ending st e

AppPhase-cases : (a : AppPhase) → (a ≡ waiting) ⊎ (a ≡ returned)
AppPhase-cases waiting = inl refl
AppPhase-cases returned = inr refl

ending-progress :
    (enabled : Bool) (s : System) (p : Phase)
    → s.election ≡ p
    → is_ending p ≡ true
    → s.cancelled ≡ false
    → (t : System) × Step enabled s t
ending-progress enabled s idle e h c = absurd (ground arith)
ending-progress enabled s acquiring e h c = absurd (ground arith)
ending-progress enabled s leading e h c = absurd (ground arith)
ending-progress enabled s stopping e h c = (_, unmark s e)
ending-progress enabled s unmarked e h c = (_, hide s e)
ending-progress enabled s hidden e h c = (_, cancel s e)
ending-progress enabled s stopped e h c = (_, end_run s e)
ending-progress enabled s finished e h c = absurd (ground arith)
ending-progress enabled s failed e h c = (_, cancel_failed s e c)

lost-progress :
    (enabled : Bool) (s : System) → IsLost s → s.app ≡ waiting → (t : System) × Step enabled s t
lost-progress enabled s (inl c) w = (_, exit s w c)
lost-progress enabled s (inr e) w = elim (Bool-cases s.cancelled) [
  | inl c ↦ (_, exit s w c)
  | inr f ↦ ending-progress enabled s s.election refl e f
]

IsLost-Leads :
    (enabled : Bool) (fuel : ℕ) (s : System)
    → measure s < fuel
    → IsLost s
    → Leads enabled (λ t. t.app ≡ returned) s
IsLost-Leads enabled zero s m l = elim m [ ]
IsLost-Leads enabled (suc fuel) s m l = elim (AppPhase-cases s.app) [
  | inr e ↦ now e
  | inl w ↦
      soon (lost-progress enabled s l w)
        (λ t st. IsLost-Leads enabled fuel t (omega (arith, Step-measure st)) (Step-IsLost st l))
]

-- Once the context has ended, or the elector stops because the lease is lost, or cannot be made, every sequence of steps
-- of the goroutines brings `App.Start` to its return: there is always a next step until then, and no
-- sequence goes on for ever.
pub lost_lease_exits :
    (enabled : Bool) (s : System) → IsLost s → Leads enabled (λ t. t.app ≡ returned) s
lost_lease_exits enabled s l = IsLost-Leads enabled (suc (measure s)) s (omega arith) l
