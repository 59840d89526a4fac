-- ===== src/Lease/Valid.antt =====
-- The invariant of the scheduler, crates/bellows-lease/src/scheduler.rs; its children prove that
-- every operation keeps it.
pub mod Granting
pub mod Releasing
pub mod Marks
pub mod Step
pub mod Kept
use bellows.Prelude.{ℕ, ◌≤◌, ◌≡◌, some}
use bellows.Prelude.Key.{text_key, nat_key}
use bellows.Prelude.Map.{Map, IsMap, get}
use bellows.Prelude.Text.{Text}
use bellows.Lease.State.{Scheduler, Holder, Grant}
use bellows.Lease.Ids.Uses.{uses}

-- The machine's holder is the one that the grant was made for.
abbrev pub Backs : ℕ → Grant → Map Text Holder → Type 0
Backs id g holders =
    (h : Holder) × (get g.machine holders ≡ some h)
    × (h.id ≡ id)
    × (g.id ≡ id)
    × (h.token ≡ g.token)

pub record IsValid (s : Scheduler) : Type 0 where
  pub fresh : (id : ℕ) → s.next_id ≤ id → uses id s ≡ 0
  pub unique : (id : ℕ) → uses id s ≤ 1
  pub sorted : IsMap s.holders
  pub keyed : (machine : Text) (h : Holder) → get machine s.holders ≡ some h → h.machine ≡ machine
  pub backed : (id : ℕ) (g : Grant) → get id s.unclaimed ≡ some g → Backs id g s.holders
