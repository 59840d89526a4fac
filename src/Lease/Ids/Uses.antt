-- ===== src/Lease/Ids/Uses.antt =====
-- Where an id of crates/bellows-lease/src/scheduler.rs stands, counted.
use bellows.Prelude.{ℕ, ◌+◌, Bool, bit, count, ◌==◌}
use bellows.Prelude.Key.{nat_key}
use bellows.Prelude.Map.{values, contains_key}
use bellows.Lease.State.{Scheduler, Waiting, Holder}

abbrev pub has_id : ℕ → Waiting → Bool
has_id id w = w.id == id

abbrev pub is_held_by : ℕ → Holder → Bool
is_held_by id h = h.id == id

-- How often the id waits, holds a machine and runs nested.
unfoldable pub uses : ℕ → Scheduler → ℕ
uses id s =
    count (has_id id) s.waiting
    + count (is_held_by id) (values s.holders)
    + bit (contains_key id s.nested)
