-- ===== src/Lease/Daemon/Tests.antt =====
-- The daemon of crates/bellows-lease/src/server.rs on concrete histories, and an instance of each
-- theorem with a hypothesis.
use bellows.Prelude.{ℕ, ◌≡◌, ◌≤◌, refl, true, false, none, some, List, [], ◌∷◌, arith}
use bellows.Prelude.Int.{pos}
use bellows.Prelude.Key.{list_cmp, nat_key}
use bellows.Prelude.Map.{get, insert}
use bellows.Prelude.Sort.{sort_by}
use bellows.Prelude.Text.{Text, codes}
use bellows.Lease.Protocol.{Request, Hello, AdminAction}
use bellows.Lease.State.{Config, new, knows, jobs, ci_active}
use bellows.Lease.Scheduler.Admit.{admit}
use bellows.Lease.Scheduler.Order.{order, rank_cmp}
use bellows.Lease.Scheduler.Grant.{
  grant, claim, is_closed, chosen, next_request, is_eligible, reservation, take_waiting, grant_to,
}
use bellows.Lease.Scheduler.Admin.{set_merge_queue}
use bellows.Lease.Scheduler.Release.{holds}
use bellows.Lease.Ids.Uses.{uses}
use bellows.Lease.Daemon.State.{Daemon, Connection, Phase}
use bellows.Lease.Daemon.Command.{act}
use bellows.Lease.Daemon.Connection.{polls, starts, lease, advance, advance_phase, poll, report}
use bellows.Lease.Daemon.Owners.{owners}
use bellows.Lease.Daemon.Moves.{DaemonOwned}
use bellows.Lease.Daemon.History.{Event, history, happens}
use bellows.Lease.Daemon.Run.{serve, history-IsOwned, serve-IsOwned, serve-history}
use bellows.Lease.Daemon.Leak.{starts_unsent}

abbrev laptop : Text
laptop = codes "laptop"

abbrev config : Config
config = record { machines = laptop ∷ []; jobs = 24; ci_jobs = 12; ci_expiry_ms = 10800000 }

abbrev build : Request
build = record {
  machine = laptop;
  label = codes "build";
  priority = pos 0;
  pr = none;
  estimate_secs = 600;
  session = false;
  token = none;
  client_pid = 0;
}

-- A client asks for the laptop and is granted it.
abbrev events : List (ℕ × Event)
events = (1, Event.greets 1 (Hello.request build)) ∷ (2, Event.moves 1 (polls true)) ∷ []

granted_daemon : Daemon
unfolding history happens serve new lease admit advance advance_phase poll report grant order
    set_merge_queue is_closed chosen next_request sort_by rank_cmp is_eligible reservation
    take_waiting grant_to claim knows jobs ci_active get insert list_cmp
granted_daemon = history (serve config (codes "secret") 0) events

granted_daemon-IsOwned : DaemonOwned granted_daemon
unfolding granted_daemon
granted_daemon-IsOwned =
    history-IsOwned (serve config (codes "secret") 0) events (omega arith) (tt, (refl, tt))
      (serve-IsOwned config (codes "secret") 0)

is_held : holds granted_daemon.scheduler 1 ≡ true
unfolding granted_daemon holds get
is_held = refl

abbrev connection : Connection
connection = record {
  machine = laptop;
  label = codes "build";
  phase =
      Phase.granted (record { id = 1; machine = laptop; jobs = 24; token = none; nested = false });
}

its_connection : get 1 granted_daemon.connections ≡ some connection
unfolding granted_daemon
its_connection = refl

serve-history_example :
    (uses 1 (history (serve config (codes "secret") 0) events).scheduler
      ≤ owners 1 (history (serve config (codes "secret") 0) events).connections)
    × (owners 1 (history (serve config (codes "secret") 0) events).connections ≤ 1)
serve-history_example =
    serve-history config (codes "secret") 0 events 1 (omega arith) (tt, (refl, tt))

starts_unsent_example :
    let d' = (advance granted_daemon 1 3 (starts false)).0 in
    (owners 1 d'.connections ≡ 0)
    × (holds d'.scheduler 1 ≡ true)
    × ((act d' (AdminAction.cancel 1)).0.scheduler ≡ d'.scheduler)
starts_unsent_example =
    starts_unsent granted_daemon 1 3 connection
      (record { id = 1; machine = laptop; jobs = 24; token = none; nested = false })
      granted_daemon-IsOwned its_connection refl is_held

-- The client went away without a word of the end.
ended_connection : Connection
ended_connection = record connection {
  phase =
      Phase.ended (record { id = 1; machine = laptop; jobs = 24; token = none; nested = false })
        (some (pos 700)) none;
}

ended_daemon : Daemon
unfolding granted_daemon
ended_daemon = record granted_daemon { connections = insert 1 ended_connection [] }

its_ended : get 1 ended_daemon.connections ≡ some ended_connection
unfolding ended_daemon get insert
its_ended = refl
