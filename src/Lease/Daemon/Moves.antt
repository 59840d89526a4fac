-- ===== src/Lease/Daemon/Moves.antt =====
-- Every move and command of crates/bellows-lease/src/server.rs keeps each id in use with its
-- connection, as long as the messages to the clients are written.
use bellows.Prelude.{
  ℕ, ◌≡◌, refl, sym, ap, ◌∙◌, Bool, true, false, Option, none, some, if◌then◌else◌, ◌==◌, arith,
  Bool-cases, Option-cases, inl, inr,
}
use bellows.Prelude.Int.{ℤ}
use bellows.Prelude.Key.{nat_key, text_key}
use bellows.Prelude.Map.{get, insert}
use bellows.Prelude.Text.{Text}
use bellows.Lease.Protocol.{ClientEvent}
use bellows.Lease.State.{Scheduler, Grant}
use bellows.Lease.Scheduler.Grant.{grant, claim}
use bellows.Lease.Scheduler.Order.{position, or_zero}
use bellows.Lease.Scheduler.Release.{release, is_waiting, holder_label}
use bellows.Lease.Ids.Uses.{uses}
use bellows.Lease.Ids.Moves.{uses-grant}
use bellows.Lease.Ids.Release.{uses-release}
use bellows.Lease.Valid.{IsValid}
use bellows.Lease.Valid.Granting.{grant-IsValid}
use bellows.Lease.Valid.Releasing.{claim-IsValid, release-IsValid, release-next_id}
use bellows.Lease.Valid.Step.{grant_machines-next_id}
use bellows.Lease.Valid.Kept.{claim-Keeps}
use bellows.Lease.Daemon.State.{Daemon, Connection, Phase, LogEvent}
use bellows.Lease.Daemon.State.Phase.{
  waiting, abandoned, granted, running, ended, unboxed, released, closed,
}
use bellows.Lease.Daemon.Connection.{
  Move, polls, hangs_up, starts, hears, receives, unboxes, frees, regrants, poll, report, start,
  hear, receive, unbox, free, regrant, advance_phase, advance, same_option, same_view,
}
use bellows.Lease.Daemon.Owners.{owns, IsOwned, LetsGo, moved-IsOwned, command-IsOwned, at_phase}

-- The message of the move, if it sends one, is written.
abbrev pub is_sent : Move → Bool
is_sent (polls sent) = sent
is_sent (starts sent) = sent
is_sent _ = true

abbrev pub DaemonOwned : Daemon → Type 0
DaemonOwned d = IsOwned d.scheduler d.connections

pub grant-next_id : (s : Scheduler) (now : ℕ) → (grant s now).0.next_id ≡ s.next_id
unfolding grant
grant-next_id s now = grant_machines-next_id s s.config.machines now

-- The connection keeps its id and the scheduler its uses.
module _ (d : Daemon) (c : ℕ) (k : Connection) (phase : Phase) where
  stay-IsOwned :
      get c d.connections ≡ some k
      → ((j : ℕ) → owns j phase ≡ owns j k.phase)
      → DaemonOwned d
      → IsOwned d.scheduler (insert c (at_phase k phase) d.connections)
  stay-IsOwned e o w =
      moved-IsOwned d.scheduler d.scheduler d.connections c k phase e w.valid refl
        (λ j. omega arith) (λ j. inl (o j)) w

  granted-IsOwned :
      (now : ℕ)
      → get c d.connections ≡ some k
      → ((j : ℕ) → owns j phase ≡ owns j k.phase)
      → DaemonOwned d
      → IsOwned (grant d.scheduler now).0 (insert c (at_phase k phase) d.connections)
  granted-IsOwned now e o w =
      moved-IsOwned d.scheduler (grant d.scheduler now).0 d.connections c k phase e
        (grant-IsValid d.scheduler now w.valid) (grant-next_id d.scheduler now)
        (λ j. omega (arith, uses-grant j d.scheduler now)) (λ j. inl (o j)) w

-- The scheduler after the grants and the claim of a poll.
abbrev pub polled : Scheduler → ℕ → ℕ → Scheduler
polled s id now = (claim (grant s now).0 id).0

polled-IsOwned :
    (d : Daemon) (id now : ℕ) → DaemonOwned d → IsOwned (polled d.scheduler id now) d.connections
polled-IsOwned d id now w =
    let g = grant-IsValid d.scheduler now w.valid in
    let kept = claim-Keeps (grant d.scheduler now).0 id in
    command-IsOwned d.scheduler (polled d.scheduler id now) d.connections
      (claim-IsValid (grant d.scheduler now).0 id g)
      (kept.next_same ∙ grant-next_id d.scheduler now)
      (λ j. omega (arith, kept.uses_same j, uses-grant j d.scheduler now)) w

claimed_id :
    (s : Scheduler) (id now : ℕ) {g : Grant}
    → IsValid s
    → (claim (grant s now).0 id).1 ≡ some g
    → g.id ≡ id
unfolding claim
claimed_id s id now {g} v e = ((grant-IsValid s now v).backed id g e).3

report-IsOwned :
    (d : Daemon) (c : ℕ) (k : Connection) (id : ℕ) (last : Option (ℕ × Option Text))
    → get c d.connections ≡ some k
    → k.phase ≡ waiting id last
    → DaemonOwned d
    → DaemonOwned (report d c k id last true).0
unfolding report
report-IsOwned d c k id last e p w =
    let at = or_zero (position d.scheduler id) in
    let holder = holder_label d.scheduler k.machine in
    elim (Bool-cases (same_option same_view last (some (at, holder)))) [
      | inl seen ↦ rw (seen, report) w
      | inr moved ↦
          rw (moved, report)
            (stay-IsOwned d c k (waiting id (some (at, holder))) e (λ j. sym (ap (owns j) p)) w)
    ]

free-LetsGo :
    (id j : ℕ) (s : Scheduler) (before : Phase)
    → uses j s ≡ (if j == id then 0 else uses j s)
    → owns j before ≡ (id == j)
    → LetsGo j s before released
free-LetsGo id j s before u o = elim (Bool-cases (id == j)) [
  | inl e ↦ inr (refl, ground arith)
  | inr e ↦ inl (ground arith)
]

free-IsOwned :
    (d : Daemon) (c : ℕ) (k : Connection) (id : ℕ) (event : LogEvent)
    → get c d.connections ≡ some k
    → ((j : ℕ) → owns j k.phase ≡ (id == j))
    → DaemonOwned d
    → DaemonOwned (free d c k id event).0
unfolding free
free-IsOwned d c k id event e o w =
    let v = w.valid in
    let gone = λ (j : ℕ). uses-release j id d.scheduler v.sorted (v.unique id) in
    moved-IsOwned d.scheduler (release d.scheduler id).0 d.connections c k released e
      (release-IsValid d.scheduler id v) (release-next_id d.scheduler id)
      (λ j. ground (arith, gone j))
      (λ j. free-LetsGo id j (release d.scheduler id).0 k.phase (ground (arith, gone j)) (o j)) w

poll-IsOwned :
    (d : Daemon) (c : ℕ) (k : Connection) (id : ℕ) (last : Option (ℕ × Option Text)) (now : ℕ)
    → get c d.connections ≡ some k
    → k.phase ≡ waiting id last
    → DaemonOwned d
    → DaemonOwned (poll d c k id last now true).0
unfolding poll
poll-IsOwned d c k id last now e p w =
    let s = (grant d.scheduler now).0 in
    let d' : Daemon = record d { scheduler = (claim s id).0 } in
    let w' = polled-IsOwned d id now w in
    elim (Option-cases (claim s id).1) [
      | inr (g, claimed) ↦
          rw (claimed, poll)
            (stay-IsOwned d' c k (granted g) e
              (λ j.
                ap (λ i. i == j) (claimed_id d.scheduler id now {g = g} w.valid claimed)
                ∙ sym (ap (owns j) p))
              w')
      | inl unclaimed ↦ elim (Bool-cases (is_waiting (claim s id).0 id)) [
        | inl waits ↦ rw (unclaimed, waits, poll) (report-IsOwned d' c k id last e p w')
        | inr cancelled ↦
            rw (unclaimed, cancelled, poll)
              (stay-IsOwned d' c k (abandoned id) e (λ j. sym (ap (owns j) p)) w')
      ]
    ]

hear-IsOwned :
    (d : Daemon) (c : ℕ) (k : Connection) (g : Grant) (pgid : Option ℤ) (event : ClientEvent)
    → get c d.connections ≡ some k
    → k.phase ≡ running g pgid
    → DaemonOwned d
    → DaemonOwned (hear d c k g pgid event).0
unfolding hear
hear-IsOwned d c k g pgid (ClientEvent.spawned group) e p w =
    stay-IsOwned d c k (running g (some group)) e (λ j. sym (ap (owns j) p)) w
hear-IsOwned d c k g pgid (ClientEvent.done code) e p w =
    stay-IsOwned d c k (ended g pgid (some code)) e (λ j. sym (ap (owns j) p)) w

pub receive-scheduler :
    (d : Daemon) (id : ℕ)
    → ((receive d id).0.scheduler ≡ d.scheduler) × ((receive d id).0.connections ≡ d.connections)
unfolding receive
receive-scheduler d id = ground arith

advance_phase-IsOwned :
    (d : Daemon) (c : ℕ) (k : Connection) (now : ℕ) (phase : Phase) (move : Move)
    → get c d.connections ≡ some k
    → k.phase ≡ phase
    → is_sent move ≡ true
    → DaemonOwned d
    → DaemonOwned (advance_phase d c k now phase move).0
unfolding advance_phase start unbox regrant
advance_phase-IsOwned d c k now (waiting id last) (polls false) e p t w = cc
advance_phase-IsOwned d c k now (waiting id last) (polls true) e p t w =
    poll-IsOwned d c k id last now e p w
advance_phase-IsOwned d c k now (waiting id last) hangs_up e p t w =
    stay-IsOwned d c k (abandoned id) e (λ j. sym (ap (owns j) p)) w
advance_phase-IsOwned d c k now (abandoned id) frees e p t w =
    free-IsOwned d c k id LogEvent.abandon e (λ j. ap (owns j) p) w
advance_phase-IsOwned d c k now (granted g) (starts false) e p t w = cc
advance_phase-IsOwned d c k now (granted g) (starts true) e p t w =
    stay-IsOwned d c k (running g none) e (λ j. sym (ap (owns j) p)) w
advance_phase-IsOwned d c k now (running g pgid) (hears event) e p t w =
    hear-IsOwned d c k g pgid event e p w
advance_phase-IsOwned d c k now (running g pgid) receives e p t w =
    let (s, m) = receive-scheduler d g.id in rw (s, m) w
advance_phase-IsOwned d c k now (running g pgid) hangs_up e p t w =
    stay-IsOwned d c k (ended g pgid none) e (λ j. sym (ap (owns j) p)) w
advance_phase-IsOwned d c k now (ended g pgid code) unboxes e p t w =
    stay-IsOwned d c k (unboxed g) e (λ j. sym (ap (owns j) p)) w
advance_phase-IsOwned d c k now (unboxed g) frees e p t w =
    free-IsOwned d c k g.id _ e (λ j. ap (owns j) p) w
advance_phase-IsOwned d c k now released regrants e p t w =
    granted-IsOwned d c k closed now e (λ j. sym (ap (owns j) p)) w
advance_phase-IsOwned d c k now _ _ e p t w = w

-- A move whose message is written keeps every id in use with its connection.
pub advance-IsOwned :
    (d : Daemon) (c now : ℕ) (move : Move)
    → is_sent move ≡ true
    → DaemonOwned d
    → DaemonOwned (advance d c now move).0
unfolding advance
advance-IsOwned d c now move t w = elim (Option-cases (get c d.connections)) [
  | inl e ↦ rw (e, advance) w
  | inr (k, e) ↦ rw (e, advance) (advance_phase-IsOwned d c k now k.phase move e refl t w)
]
