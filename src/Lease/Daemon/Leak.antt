-- ===== src/Lease/Daemon/Leak.antt =====
-- A message that cannot be written: crates/bellows-lease/src/server.rs, the `?` after `send` in
-- `lease` and `wait_for_grant`.
use bellows.Prelude.{ℕ, ◌≡◌, refl, ap, ◌∙◌, true, false, some, arith, ==_iff}
use bellows.Prelude.Key.{nat_key, text_key}
use bellows.Prelude.Map.{get, insert}
use bellows.Lease.Protocol.{AdminAction}
use bellows.Lease.State.{Grant}
use bellows.Lease.Scheduler.Release.{holds}
use bellows.Lease.Daemon.State.{Daemon, Connection}
use bellows.Lease.Daemon.State.Phase.{granted, closed}
use bellows.Lease.Daemon.Command.{act, cancel}
use bellows.Lease.Daemon.Connection.{starts, start, advance_phase, advance}
use bellows.Lease.Daemon.Owners.{owners, owns, owners-insert}
use bellows.Lease.Daemon.Moves.{DaemonOwned}

-- A connection that closes leaves its id to nobody.
closed-owners :
    (d : Daemon) (c : ℕ) (k : Connection) (id : ℕ)
    → get c d.connections ≡ some k
    → owns id k.phase ≡ true
    → DaemonOwned d
    → owners id (insert c (record k { phase = closed }) d.connections) ≡ 0
closed-owners d c k id e o w =
    ground (arith, owners-insert id d.connections c k closed w.sorted e, w.single id)

-- If the message of the grant cannot be written, the lease stays with no connection to release it,
-- and an administrator's cancel leaves it too.
pub starts_unsent :
    (d : Daemon) (c now : ℕ) (k : Connection) (g : Grant)
    → DaemonOwned d
    → get c d.connections ≡ some k
    → k.phase ≡ granted g
    → holds d.scheduler g.id ≡ true
    → let d' = (advance d c now (starts false)).0 in
      (owners g.id d'.connections ≡ 0)
      × (holds d'.scheduler g.id ≡ true)
      × ((act d' (AdminAction.cancel g.id)).0.scheduler ≡ d'.scheduler)
unfolding advance advance_phase start act cancel
starts_unsent d c now k g w e p h =
    rw (e, p, advance, advance_phase)
      (
        closed-owners d c k g.id e (ap (owns g.id) p ∙ (==_iff g.id g.id).1 refl) w,
        h,
        rw (h, cancel) refl,
      )
