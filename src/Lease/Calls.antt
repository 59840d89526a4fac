-- ===== src/Lease/Calls.antt =====
-- The calls that change a scheduler, as the daemon makes them one at a time under its lock:
-- crates/bellows-lease/src/scheduler.rs, the `&mut self` methods.
use bellows.Prelude.{ℕ, List, [], ◌∷◌, Option, Bool}
use bellows.Prelude.Map.{Map}
use bellows.Prelude.Text.{Text}
use bellows.Lease.Protocol.{Request}
use bellows.Lease.State.{Scheduler}
use bellows.Lease.Scheduler.Admit.{admit}
use bellows.Lease.Scheduler.Grant.{grant, claim}
use bellows.Lease.Scheduler.Release.{release}
use bellows.Lease.Scheduler.Admin.{
  reorder, set_paused, reserve, preempt, ci_start, ci_stop, set_merge_queue, overruns,
}

pub data Call : Type 0 where
  admits : Request → Call
  grants : Call
  claims : ℕ → Call
  releases : ℕ → Call
  reorders : ℕ → ℕ → Call
  pauses : Text → Bool → Call
  reserves : Text → Option (Text × ℕ) → Call
  preempts : ℕ → Call
  starts_ci : Text → Text → Call
  stops_ci : Text → Text → Call
  ranks : Map ℕ ℕ → Call
  looks_over : Call

-- A call with the time at which it is made.
unfoldable pub step : Scheduler → ℕ × Call → Scheduler
step s (now, admits request) = (admit s request now).0
step s (now, grants) = (grant s now).0
step s (now, claims id) = (claim s id).0
step s (now, releases id) = (release s id).0
step s (now, reorders id position) = (reorder s id position).0
step s (now, pauses machine paused) = set_paused s machine paused
step s (now, reserves machine label) = reserve s machine label
step s (now, preempts id) = (preempt s id).0
step s (now, starts_ci machine job) = ci_start s machine job now
step s (now, stops_ci machine job) = ci_stop s machine job
step s (now, ranks positions) = set_merge_queue s positions
step s (now, looks_over) = (overruns s now).0

unfoldable pub run : Scheduler → List (ℕ × Call) → Scheduler
unfolding step
run s [] = s
run s (c ∷ cs) = run (step s c) cs
