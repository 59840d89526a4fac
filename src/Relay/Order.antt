-- ===== src/Relay/Order.antt =====
-- Background work in acceptance order: crates/bellows-cli/src/relay.rs, `Order`.
use bellows.Prelude.{ℕ, ◌+◌, ◌%◌, ◌^◌, Bool, true, List, [], ◌∷◌, if◌then◌else◌, leb, ◌==◌, not}
use bellows.Prelude.Key.{nat_key}
use bellows.Prelude.Map.{Map, insert, remove}

abbrev pub u64_mod : ℕ
u64_mod = 2 ^ 64

-- The next sequence number, the set of those begun and not finished, and the version that the watch
-- channel `changed` holds.
pub record Order : Type 0 where
  pub next : ℕ
  pub begun : Map ℕ (Unit {0})
  pub version : ℕ

unfoldable pub new : Order
new = record { next = 0; begun = []; version = 0 }

unfoldable pub begin : Order → Order × ℕ
begin o = (record o { next = (o.next + 1) % u64_mod; begun = insert o.next tt o.begun }, o.next)

abbrev pub horizon : Order → ℕ
horizon o = o.next

unfoldable pub finish : ℕ → Order → Order
finish sequence o = record o {
  begun = remove sequence o.begun;
  version = (o.version + 1) % u64_mod;
}

-- `BTreeSet::first` is none or at least the horizon.
abbrev pub first_from : ℕ → Map ℕ (Unit {0}) → Bool
first_from h [] = true
first_from h ((q, u) ∷ m) = leb h q

unfoldable pub passed : ℕ → Order → Bool
passed h o = first_from h o.begun

-- A waiter goes on, or sleeps until the version differs from the one that it has seen.
pub data Wait : Type 0 where
  goes_on : Wait
  sleeps : ℕ → Wait

-- One round of the loop of `wait_before`, by a waiter that last saw version `seen`.
unfoldable pub wait_before : ℕ → ℕ → Order → Wait
unfolding passed
wait_before h seen o = if passed h o then Wait.goes_on else Wait.sleeps seen

unfoldable pub is_woken : ℕ → Order → Bool
is_woken seen o = not (seen == o.version)

-- What others do to an order meanwhile.
pub data Op : Type 0 where
  begins : Op
  finishes : ℕ → Op

unfoldable pub apply : Op → Order → Order
unfolding begin finish
apply Op.begins o = (begin o).0
apply (Op.finishes q) o = finish q o

unfoldable pub apply_all : List Op → Order → Order
unfolding apply
apply_all [] o = o
apply_all (op ∷ ops) o = apply_all ops (apply op o)
