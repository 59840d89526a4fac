-- ===== src/Lease/Daemon/Run.antt =====
-- Whole histories of the daemon: crates/bellows-lease/src/server.rs, `serve`.
use bellows.Prelude.{
  ℕ, ◌+◌, ◌-◌, ◌≤◌, ◌<◌, ◌≡◌, ◌^◌, refl, ap, Bool, Option, List, [], ◌∷◌, arith, Bool-cases,
  Option-cases, inl, inr, length, All,
}
use bellows.Prelude.Key.{nat_key, text_key}
use bellows.Prelude.Map.{get}
use bellows.Prelude.Text.{Text, text_eq}
use bellows.Lease.Protocol.{Request, Hello, AdminAction, ClientEvent}
use bellows.Lease.State.{Scheduler, Config, new}
use bellows.Lease.Scheduler.Admin.{reorder, set_paused, reserve, preempt, ci_start}
use bellows.Lease.Scheduler.Grant.{claim}
use bellows.Lease.Ids.Uses.{uses}
use bellows.Lease.Valid.Releasing.{release-next_id}
use bellows.Lease.Valid.Step.{admit-next_id, HasRoom, new-IsValid}
use bellows.Lease.Valid.Kept.{ci_stop-Keeps}
use bellows.Lease.Daemon.State.{Daemon, Connection, Phase}
use bellows.Lease.Daemon.State.Phase.{
  waiting, abandoned, granted, running, ended, unboxed, released,
}
use bellows.Lease.Daemon.Command.{command, admin, act, cancel, preempt_session}
use bellows.Lease.Daemon.Connection.{
  Move, polls, hangs_up, starts, hears, receives, unboxes, frees, regrants, poll, report, start,
  hear, unbox, free, regrant, advance_phase, advance, lease,
}
use bellows.Lease.Daemon.Owners.{owners}
use bellows.Lease.Daemon.Moves.{DaemonOwned, grant-next_id, receive-scheduler}
use bellows.Lease.Daemon.History.{Event, happens, history, IsWritten, happens-IsOwned}

next_of : Daemon → ℕ
next_of d = d.scheduler.next_id

act-next : (d : Daemon) (action : AdminAction) → next_of (act d action).0 ≡ next_of d
unfolding next_of act cancel preempt_session reorder set_paused reserve preempt
act-next d (AdminAction.reorder id p) = refl
act-next d (AdminAction.pause m) = refl
act-next d (AdminAction.resume m) = refl
act-next d (AdminAction.preempt id) = refl
act-next d (AdminAction.reserve m label until) = refl
act-next d (AdminAction.unreserve m) = refl
act-next d (AdminAction.cancel id) = ground (arith, release-next_id d.scheduler id)

command-next : (d : Daemon) (now : ℕ) (h : Hello) → next_of (command d now h).0 ≡ next_of d
unfolding next_of command admin ci_start
command-next d now (Hello.request r) = refl
command-next d now Hello.status = refl
command-next d now (Hello.ci_start m job) = ground arith
command-next d now (Hello.ci_stop m job) = (ci_stop-Keeps d.scheduler m job).next_same
command-next d now (Hello.admin secret action) = elim (Bool-cases (text_eq secret d.secret)) [
  | inl e ↦ rw (e, command) (act_next' d action)
  | inr e ↦ rw (e, command)
]
  where
    act_next' :
        (d : Daemon) (action : AdminAction)
        → (act d action).0.scheduler.next_id ≡ d.scheduler.next_id
    act_next' d action = act-next d action
command-next d now (Hello.unleased m label id reason) = refl

report-next :
    (d : Daemon) (c : ℕ) (k : Connection) (id : ℕ) (last : Option (ℕ × Option Text)) (sent : Bool)
    → next_of (report d c k id last sent).0 ≡ next_of d
unfolding next_of report
report-next d c k id last sent = ground arith

poll-next :
    (d : Daemon) (c : ℕ) (k : Connection) (id : ℕ) (last : Option (ℕ × Option Text)) (now : ℕ)
    (sent : Bool)
    → next_of (poll d c k id last now sent).0 ≡ next_of d
unfolding next_of poll report claim
poll-next d c k id last now sent = ground (arith, grant-next_id d.scheduler now)

advance_phase-next :
    (d : Daemon) (c : ℕ) (k : Connection) (now : ℕ) (phase : Phase) (move : Move)
    → next_of (advance_phase d c k now phase move).0 ≡ next_of d
unfolding next_of advance_phase start hear unbox free regrant
advance_phase-next d c k now (waiting id last) (polls sent) = poll-next d c k id last now sent
advance_phase-next d c k now (waiting id last) hangs_up = refl
advance_phase-next d c k now (abandoned id) frees = release-next_id d.scheduler id
advance_phase-next d c k now (granted g) (starts sent) = refl
advance_phase-next d c k now (running g pgid) (hears (ClientEvent.spawned group)) = refl
advance_phase-next d c k now (running g pgid) (hears (ClientEvent.done code)) = refl
advance_phase-next d c k now (running g pgid) receives =
    ap (λ (s : Scheduler). s.next_id) (receive-scheduler d g.id).0
advance_phase-next d c k now (running g pgid) hangs_up = refl
advance_phase-next d c k now (ended g pgid code) unboxes = refl
advance_phase-next d c k now (unboxed g) frees = release-next_id d.scheduler g.id
advance_phase-next d c k now released regrants = grant-next_id d.scheduler now
advance_phase-next d c k now _ _ = refl

advance-next : (d : Daemon) (c now : ℕ) (move : Move) → next_of (advance d c now move).0 ≡ next_of d
unfolding advance
advance-next d c now move = elim (Option-cases (get c d.connections)) [
  | inl e ↦ rw (e, advance)
  | inr (k, e) ↦ rw (e, advance) (advance_phase-next d c k now k.phase move)
]

lease-next :
    (d : Daemon) (c now : ℕ) (r : Request)
    → HasRoom 1 d.scheduler
    → next_of (lease d c now r).0 ≤ next_of d + 1
unfolding next_of lease
lease-next d c now r room = ground (arith, admit-next_id d.scheduler r now room)

happens-next :
    (d : Daemon) (e : ℕ × Event) → HasRoom 1 d.scheduler → next_of (happens d e) ≤ next_of d + 1
unfolding happens
happens-next d (now, Event.greets c (Hello.request r)) room = lease-next d c now r room
happens-next d (now, Event.greets c h) room = omega (arith, command-next d now h)
happens-next d (now, Event.moves c move) room = omega (arith, advance-next d c now move)

pub history-IsOwned :
    (d : Daemon) (es : List (ℕ × Event))
    → HasRoom (length es) d.scheduler
    → All IsWritten es
    → DaemonOwned d
    → DaemonOwned (history d es)
unfolding history next_of
history-IsOwned d [] room t w = w
history-IsOwned d (e ∷ es) room t w =
    history-IsOwned (happens d e) es (omega (arith, happens-next d e (omega arith))) t.1
      (happens-IsOwned d e (omega arith) t.0 w)

-- The daemon that `serve` starts.
unfoldable pub serve : Config → Text → ℕ → Daemon
serve config secret now = record {
  scheduler = new config now;
  mailboxes = [];
  secret = secret;
  connections = [];
}

pub serve-IsOwned :
    (config : Config) (secret : Text) (now : ℕ) → DaemonOwned (serve config secret now)
unfolding serve new uses owners get
serve-IsOwned config secret now = record {
  valid = new-IsValid config now;
  owned = λ j. omega arith;
  single = λ j. omega arith;
  ahead = λ j h. refl;
  sorted = tt;
}

-- As long as every message to a client is written, and fewer events come than there are ids, each
-- id that waits, holds a machine or runs nested belongs to one connection, which will release it.
pub serve-history :
    (config : Config) (secret : Text) (start : ℕ) (es : List (ℕ × Event)) (id : ℕ)
    → length es < 2 ^ 64 - 1
    → All IsWritten es
    → let d = history (serve config secret start) es in
      (uses id d.scheduler ≤ owners id d.connections) × (owners id d.connections ≤ 1)
unfolding serve new
serve-history config secret start es id room t =
    let w =
      history-IsOwned (serve config secret start) es (omega arith) t
        (serve-IsOwned config secret start) in
    (w.owned id, w.single id)
