-- ===== src/Lease/Daemon/Kill.antt =====
-- The end of a job and the end of its lease: crates/bellows-lease/src/server.rs, `lease`.
use bellows.Prelude.{
  ℕ, ◌<◌, ◌≡◌, refl, ap, Bool, true, false, Option, none, some, [], ◌∷◌, arith, lt→ltb,
}
use bellows.Prelude.Int.{ℤ, pos_part}
use bellows.Prelude.Key.{nat_key}
use bellows.Prelude.Map.{get}
use bellows.Prelude.Text.{Text}
use bellows.Lease.Protocol.{ClientEvent}
use bellows.Lease.State.{Grant}
use bellows.Lease.Scheduler.Grant.{grant}
use bellows.Lease.Ids.Uses.{uses}
use bellows.Lease.Ids.Moves.{uses-grant}
use bellows.Lease.Valid.Kept.{claim-Keeps}
use bellows.Lease.Daemon.State.{Daemon, Connection, Phase, Effect, LogEvent}
use bellows.Lease.Daemon.State.Phase.{
  waiting, abandoned, granted, running, ended, unboxed, released,
}
use bellows.Lease.Daemon.Connection.{
  Move, polls, hangs_up, starts, hears, receives, unboxes, frees, regrants, poll, report, start,
  hear, unbox, regrant, advance_phase, advance,
}
use bellows.Lease.Daemon.Moves.{receive-scheduler}

-- The job's group is killed when its client went away without reporting the end, before the lease
-- is released; a reported end kills nothing.
pub unboxes_kills :
    (d : Daemon) (c now : ℕ) (k : Connection) (g : Grant) (group : ℤ) (code : Option ℤ)
    → get c d.connections ≡ some k
    → k.phase ≡ ended g (some group) code
    → 1 < pos_part group
    → let (d', effects) = advance d c now unboxes in
      (d'.scheduler ≡ d.scheduler)
      × (effects ≡ elim code [
        | none ↦
            Effect.kill_group group
            ∷ Effect.log LogEvent.killed_orphan (some g.id) (some k.machine) (some k.label)
            ∷ []
        | some exit ↦ []
      ])
unfolding advance advance_phase unbox
unboxes_kills d c now k g group none e p h =
    rw (e, p, lt→ltb 1 (pos_part group) h, advance, advance_phase) (refl, refl)
unboxes_kills d c now k g group (some code) e p h = rw (e, p, advance, advance_phase) (refl, refl)

-- The phases from which a lease is released.
abbrev pub frees_next : Phase → Bool
frees_next (abandoned id) = true
frees_next (unboxed g) = true
frees_next _ = false

poll-uses :
    (j : ℕ) (d : Daemon) (c : ℕ) (k : Connection) (id : ℕ) (last : Option (ℕ × Option Text))
    (now : ℕ) (sent : Bool)
    → uses j (poll d c k id last now sent).0.scheduler ≡ uses j d.scheduler
unfolding poll report
poll-uses j d c k id last now sent =
    let s = (grant d.scheduler now).0 in
    ground (arith, (claim-Keeps s id).uses_same j, uses-grant j d.scheduler now)

advance_phase-uses :
    (j : ℕ) (d : Daemon) (c : ℕ) (k : Connection) (now : ℕ) (phase : Phase) (move : Move)
    → frees_next phase ≡ false
    → uses j (advance_phase d c k now phase move).0.scheduler ≡ uses j d.scheduler
unfolding advance_phase start hear unbox regrant
advance_phase-uses j d c k now (waiting id last) (polls sent) h = poll-uses j d c k id last now sent
advance_phase-uses j d c k now (waiting id last) hangs_up h = refl
advance_phase-uses j d c k now (abandoned id) frees h = cc
advance_phase-uses j d c k now (granted g) (starts sent) h = refl
advance_phase-uses j d c k now (running g pgid) (hears (ClientEvent.spawned group)) h = refl
advance_phase-uses j d c k now (running g pgid) (hears (ClientEvent.done code)) h = refl
advance_phase-uses j d c k now (running g pgid) receives h =
    ap (uses j) (receive-scheduler d g.id).0
advance_phase-uses j d c k now (running g pgid) hangs_up h = refl
advance_phase-uses j d c k now (ended g pgid code) unboxes h = refl
advance_phase-uses j d c k now (unboxed g) frees h = cc
advance_phase-uses j d c k now released regrants h = uses-grant j d.scheduler now
advance_phase-uses j d c k now _ _ h = refl

-- No other move of a connection ends a lease: only from a phase after the kill, or after the client
-- gave up waiting, is an id released.
pub advance-uses :
    (j : ℕ) (d : Daemon) (c now : ℕ) (k : Connection) (move : Move)
    → get c d.connections ≡ some k
    → frees_next k.phase ≡ false
    → uses j (advance d c now move).0.scheduler ≡ uses j d.scheduler
unfolding advance
advance-uses j d c now k move e h = rw (e, advance) (advance_phase-uses j d c k now k.phase move h)
