-- ===== src/Lease/Daemon/Owners.antt =====
-- Which connection answers for an id, in crates/bellows-lease/src/server.rs, and the invariant that
-- every id in use has one.
use bellows.Prelude.{ℕ, ◌+◌, ◌≤◌, ◌≡◌, Bool, false, some, bit, count, ◌==◌, arith, ◌⊎◌}
use bellows.Prelude.Key.{nat_key, text_key}
use bellows.Prelude.Map.{Map, IsMap, get, values, insert, count-insert_old, insert-IsMap}
use bellows.Lease.State.{Scheduler}
use bellows.Lease.Ids.Uses.{uses}
use bellows.Lease.Valid.{IsValid}
use bellows.Lease.Daemon.State.{Connection, Phase}
use bellows.Lease.Daemon.State.Phase.{
  waiting, abandoned, granted, running, ended, unboxed, released, closed,
}

-- The connection's `lease` has still to release the id.
abbrev pub owns : ℕ → Phase → Bool
owns j (waiting id last) = id == j
owns j (abandoned id) = id == j
owns j (granted g) = g.id == j
owns j (running g pgid) = g.id == j
owns j (ended g pgid code) = g.id == j
owns j (unboxed g) = g.id == j
owns j released = false
owns j closed = false

abbrev pub is_owner : ℕ → Connection → Bool
is_owner j k = owns j k.phase

unfoldable pub owners : ℕ → Map ℕ Connection → ℕ
owners j m = count (is_owner j) (values m)

-- Every id that waits, holds or runs nested has a connection that will release it; none has two.
pub record IsOwned (s : Scheduler) (m : Map ℕ Connection) : Type 0 where
  pub valid : IsValid s
  pub owned : (j : ℕ) → uses j s ≤ owners j m
  pub single : (j : ℕ) → owners j m ≤ 1
  pub ahead : (j : ℕ) → s.next_id ≤ j → owners j m ≡ 0
  pub sorted : IsMap m

abbrev pub at_phase : Connection → Phase → Connection
at_phase k phase = record k { phase = phase }

-- A connection that moves on.
pub owners-insert :
    (j : ℕ) (m : Map ℕ Connection) (c : ℕ) (k : Connection) (phase : Phase)
    → IsMap m
    → get c m ≡ some k
    → bit (owns j k.phase) + owners j (insert c (at_phase k phase) m)
      ≡ bit (owns j phase) + owners j m
unfolding owners
owners-insert j m c k phase s e = count-insert_old (is_owner j) c k (at_phase k phase) m s e

-- The id stays with its connection, or it is let go when nothing uses it any more.
abbrev pub LetsGo : ℕ → Scheduler → Phase → Phase → Type 0
LetsGo j s before after = (owns j after ≡ owns j before) ⊎ ((owns j after ≡ false) × (uses j s ≡ 0))

module _ (s s' : Scheduler) (m : Map ℕ Connection) (c : ℕ) (k : Connection) (phase : Phase) where
  pub moved-IsOwned :
      get c m ≡ some k
      → IsValid s'
      → s'.next_id ≡ s.next_id
      → ((j : ℕ) → uses j s' ≤ uses j s)
      → ((j : ℕ) → LetsGo j s' k.phase phase)
      → IsOwned s m
      → IsOwned s' (insert c (at_phase k phase) m)
  moved-IsOwned e v n u o w = record {
    valid = v;
    owned = λ j. ground (arith, owners-insert j m c k phase w.sorted e, u j, o j, w.owned j);
    single = λ j. ground (arith, owners-insert j m c k phase w.sorted e, o j, w.single j);
    ahead = λ j h. ground (arith, owners-insert j m c k phase w.sorted e, o j, w.ahead j);
    sorted = insert-IsMap c (at_phase k phase) m w.sorted;
  }

-- A command leaves the connections and takes no id into use.
pub command-IsOwned :
    (s s' : Scheduler) (m : Map ℕ Connection)
    → IsValid s'
    → s'.next_id ≡ s.next_id
    → ((j : ℕ) → uses j s' ≤ uses j s)
    → IsOwned s m
    → IsOwned s' m
command-IsOwned s s' m v n u w = record {
  valid = v;
  owned = λ j. omega (arith, u j, w.owned j);
  single = w.single;
  ahead = λ j h. w.ahead j (omega arith);
  sorted = w.sorted;
}
