-- ===== src/Lease/Daemon/History.antt =====
-- The whole daemon over a history of first messages and moves: crates/bellows-lease/src/server.rs,
-- `serve` and `connection`.
use bellows.Prelude.{
  ℕ, ◌≡◌, true, false, ◌&&◌, none, some, List, [], ◌∷◌, ◌==◌, arith, Bool-cases, Option-cases, inl,
  inr,
}
use bellows.Prelude.Key.{nat_key, text_key}
use bellows.Prelude.Map.{get, insert, count-insert_new, insert-IsMap}
use bellows.Prelude.Text.{text_eq}
use bellows.Lease.Protocol.{Request, Hello, AdminAction}
use bellows.Lease.State.{Scheduler, knows}
use bellows.Lease.Scheduler.Admit.{admit}
use bellows.Lease.Scheduler.Release.{release, holds}
use bellows.Lease.Ids.Moves.{uses-admit, is_admitted}
use bellows.Lease.Ids.Release.{uses-release}
use bellows.Lease.Calls.{Call, step}
use bellows.Lease.Valid.Releasing.{release-IsValid, release-next_id}
use bellows.Lease.Valid.Step.{admit-IsValid, admit-next_id, step-IsValid, HasRoom}
use bellows.Lease.Valid.Kept.{
  Keeps, reorder-Keeps, set_paused-Keeps, reserve-Keeps, preempt-Keeps, ci_start-Keeps,
  ci_stop-Keeps,
}
use bellows.Lease.Daemon.State.{Daemon, Connection}
use bellows.Lease.Daemon.Command.{command, admin, act, cancel}
use bellows.Lease.Daemon.Connection.{Move, advance, lease, first_phase}
use bellows.Lease.Daemon.Owners.{owners, owns, is_owner, IsOwned, command-IsOwned}
use bellows.Lease.Daemon.Moves.{DaemonOwned, is_sent, advance-IsOwned}

-- The scheduler of the daemon, changed by a call that moves no id.
called-IsOwned :
    (d : Daemon) (now : ℕ) (c : Call)
    → HasRoom 1 d.scheduler
    → Keeps d.scheduler (step d.scheduler (now, c))
    → DaemonOwned d
    → IsOwned (step d.scheduler (now, c)) d.connections
called-IsOwned d now c r k w =
    command-IsOwned d.scheduler (step d.scheduler (now, c)) d.connections
      (step-IsValid d.scheduler (now, c) r w.valid) k.next_same (λ j. omega (arith, k.uses_same j))
      w

cancel-IsOwned : (d : Daemon) (id : ℕ) → DaemonOwned d → DaemonOwned (cancel d id).0
unfolding cancel
cancel-IsOwned d id w = elim (Bool-cases (holds d.scheduler id)) [
  | inl h ↦ rw (h, cancel) w
  | inr h ↦
      let v = w.valid in
      rw (h, cancel)
        (command-IsOwned d.scheduler (release d.scheduler id).0 d.connections
          (release-IsValid d.scheduler id v) (release-next_id d.scheduler id)
          (λ j. ground (arith, uses-release j id d.scheduler v.sorted (v.unique id))) w)
]

act-IsOwned :
    (d : Daemon) (action : AdminAction)
    → HasRoom 1 d.scheduler
    → DaemonOwned d
    → DaemonOwned (act d action).0
unfolding act step
act-IsOwned d (AdminAction.reorder id p) r w =
    called-IsOwned d 0 (Call.reorders id p) r (reorder-Keeps d.scheduler id p) w
act-IsOwned d (AdminAction.pause m) r w =
    called-IsOwned d 0 (Call.pauses m true) r (set_paused-Keeps d.scheduler m true) w
act-IsOwned d (AdminAction.resume m) r w =
    called-IsOwned d 0 (Call.pauses m false) r (set_paused-Keeps d.scheduler m false) w
act-IsOwned d (AdminAction.preempt id) r w =
    called-IsOwned d 0 (Call.preempts id) r (preempt-Keeps d.scheduler id) w
act-IsOwned d (AdminAction.reserve m label until) r w =
    called-IsOwned d 0 (Call.reserves m (some (label, until))) r
      (reserve-Keeps d.scheduler m (some (label, until))) w
act-IsOwned d (AdminAction.unreserve m) r w =
    called-IsOwned d 0 (Call.reserves m none) r (reserve-Keeps d.scheduler m none) w
act-IsOwned d (AdminAction.cancel id) r w = cancel-IsOwned d id w

command_kept :
    (d : Daemon) (now : ℕ) (h : Hello)
    → HasRoom 1 d.scheduler
    → DaemonOwned d
    → DaemonOwned (command d now h).0
unfolding command admin step
command_kept d now (Hello.request r) room w = w
command_kept d now Hello.status room w = w
command_kept d now (Hello.ci_start m job) room w = elim (Bool-cases (knows d.scheduler m)) [
  | inl e ↦
      rw (e, command)
        (called-IsOwned d now (Call.starts_ci m job) room (ci_start-Keeps d.scheduler m job now) w)
  | inr e ↦ rw (e, command) w
]
command_kept d now (Hello.ci_stop m job) room w =
    called-IsOwned d now (Call.stops_ci m job) room (ci_stop-Keeps d.scheduler m job) w
command_kept d now (Hello.admin secret action) room w =
    elim (Bool-cases (text_eq secret d.secret)) [
      | inl e ↦ rw (e, command) (act-IsOwned d action room w)
      | inr e ↦ rw (e, command) w
    ]
command_kept d now (Hello.unleased m label id reason) room w = w

owns-first_phase :
    (j : ℕ) (s : Scheduler) (r : Request) (now : ℕ)
    → owns j (first_phase (admit s r now).1) ≡ (is_admitted (admit s r now).1 && s.next_id == j)
unfolding admit first_phase is_admitted
owns-first_phase j s r now = ground arith

-- The connection that a first request makes.
abbrev pub first_connection : Scheduler → Request → ℕ → Connection
first_connection s r now = record {
  machine = r.machine;
  label = r.label;
  phase = first_phase (admit s r now).1;
}

admitted-IsOwned :
    (d : Daemon) (c now : ℕ) (r : Request)
    → HasRoom 1 d.scheduler
    → get c d.connections ≡ none
    → DaemonOwned d
    → IsOwned
        (admit d.scheduler r now).0
        (insert c (first_connection d.scheduler r now) d.connections)
unfolding owners
admitted-IsOwned d c now r room e w =
    let s = d.scheduler in
    let k = first_connection s r now in
    let unused = w.valid.fresh s.next_id (omega arith) in
    let more = λ (j : ℕ). count-insert_new (is_owner j) c k d.connections e in
    let used = λ (j : ℕ). uses-admit j s r now unused in
    let first = λ (j : ℕ). owns-first_phase j s r now in
    record {
      valid = admit-IsValid s r now room w.valid;
      owned = λ j. ground (arith, more j, used j, first j, w.owned j);
      single = λ j. ground (arith, more j, first j, w.single j, w.ahead j);
      ahead = λ j h. ground (arith, more j, first j, w.ahead j, admit-next_id s r now room);
      sorted = insert-IsMap c k d.connections w.sorted;
    }

lease-IsOwned :
    (d : Daemon) (c now : ℕ) (r : Request)
    → HasRoom 1 d.scheduler
    → DaemonOwned d
    → DaemonOwned (lease d c now r).0
unfolding lease
lease-IsOwned d c now r room w = elim (Option-cases (get c d.connections)) [
  | inr (k, e) ↦ rw (e, lease) w
  | inl e ↦ rw (e, lease) (admitted-IsOwned d c now r room e w)
]

-- A first message on a connection, or the next move of one.
pub data Event : Type 0 where
  greets : ℕ → Hello → Event
  moves : ℕ → Move → Event

unfoldable pub happens : Daemon → ℕ × Event → Daemon
happens d (now, Event.greets c (Hello.request r)) = (lease d c now r).0
happens d (now, Event.greets c h) = (command d now h).0
happens d (now, Event.moves c move) = (advance d c now move).0

unfoldable pub history : Daemon → List (ℕ × Event) → Daemon
history d [] = d
history d (e ∷ es) = history (happens d e) es

-- No message to a client fails to be written.
abbrev pub IsWritten : ℕ × Event → Type 0
IsWritten (now, Event.greets c h) = Unit
IsWritten (now, Event.moves c move) = is_sent move ≡ true

pub happens-IsOwned :
    (d : Daemon) (e : ℕ × Event)
    → HasRoom 1 d.scheduler
    → IsWritten e
    → DaemonOwned d
    → DaemonOwned (happens d e)
unfolding happens
happens-IsOwned d (now, Event.greets c (Hello.request r)) room t w = lease-IsOwned d c now r room w
happens-IsOwned d (now, Event.greets c h) room t w = command_kept d now h room w
happens-IsOwned d (now, Event.moves c move) room t w = advance-IsOwned d c now move t w
