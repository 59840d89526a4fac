-- ===== src/Relay/Valid.antt =====
-- The relay's invariant: crates/bellows-cli/src/relay.rs, `Shared`. The sets of begun work are those
-- of the running tasks, and the counters are sums over them.
use bellows.Prelude.{
  ℕ, suc, ◌+◌, ◌%◌, ◌≤◌, ◌≡◌, refl, Bool, true, false, Option, none, some, ◌==◌, leb, bit, is_some,
  arith,
}
use bellows.Prelude.Key.{text_key, nat_key}
use bellows.Prelude.Map.{Map, IsMap, get, insert-IsMap, remove-IsMap, get-insert, get-remove}
use bellows.Prelude.Totals.{total, total-insert_new, total-remove, total-insert_old}
use bellows.Prelude.Text.{Text, text_eq}
use bellows.Relay.Order.{Order, u64_mod, new}
use bellows.Relay.State.{BlobState, Deferred, Task, Shared, start}
use bellows.Relay.State.BlobState.{pending}
use bellows.Relay.State.Task.{uploading, deferring}
use bellows.Relay.Tasks.{spawn, become, drop}

-- What is summed over the tasks: whether one uploads a sequence, or a digest, the bytes and files of
-- uploads, and uploads of more bytes than 64 bits count.
pub data Weight : Type 0 where
  sequence_of : ℕ → Weight
  digest_of : Text → Weight
  bytes_of : Weight
  file_of : Weight
  oversize : Weight

unfoldable pub weigh_upload : Weight → Text → ℕ → ℕ → ℕ
weigh_upload (Weight.sequence_of q) digest size sequence = bit (q == sequence)
weigh_upload (Weight.digest_of d) digest size sequence = bit (text_eq d digest)
weigh_upload Weight.bytes_of digest size sequence = size
weigh_upload Weight.file_of digest size sequence = 1
weigh_upload Weight.oversize digest size sequence = bit (leb u64_mod size)

unfoldable pub weigh : Weight → Task → ℕ
weigh w (uploading digest size sequence) = weigh_upload w digest size sequence
weigh w _ = 0

unfoldable pub is_record : ℕ → Task → ℕ
is_record q (deferring Deferred.records b r (some sequence)) = bit (q == sequence)
is_record q _ = 0

abbrev pub is_pending : Option BlobState → Bool
is_pending (some pending) = true
is_pending _ = false

pub record BlobPart (tasks : Map ℕ Task) (o : Order) (blobs : Map Text BlobState)
    (spooled spool_files : ℕ) : Type 0 where
  pub sorted : IsMap o.begun
  pub begun : (q : ℕ) → bit (is_some (get q o.begun)) ≡ total (weigh (Weight.sequence_of q)) tasks
  pub ahead : (q : ℕ) → o.next ≤ q → get q o.begun ≡ none
  pub once : (d : Text) → total (weigh (Weight.digest_of d)) tasks ≡ bit (is_pending (get d blobs))
  pub bytes : spooled ≡ total (weigh Weight.bytes_of) tasks % u64_mod
  pub files : spool_files ≡ total (weigh Weight.file_of) tasks % u64_mod
  pub small : total (weigh Weight.oversize) tasks ≡ 0

pub record RecordPart (tasks : Map ℕ Task) (o : Order) : Type 0 where
  pub sorted : IsMap o.begun
  pub begun : (q : ℕ) → bit (is_some (get q o.begun)) ≡ total (is_record q) tasks
  pub ahead : (q : ℕ) → o.next ≤ q → get q o.begun ≡ none

pub record IsValid (s : Shared) : Type 0 where
  pub tasks_sorted : IsMap s.tasks
  pub fresh : (k : ℕ) → s.next_task ≤ k → get k s.tasks ≡ none
  pub blob_part : BlobPart s.tasks s.blob_order s.blobs s.spooled s.spool_files
  pub record_part : RecordPart s.tasks s.record_order

pub start-IsValid : (token : Text) (limit : ℕ) → IsValid (start token limit)
unfolding start new get
start-IsValid token limit = record {
  tasks_sorted = tt;
  fresh = λ k h. refl;
  blob_part = record {
    sorted = tt;
    begun = λ q. refl;
    ahead = λ q h. refl;
    once = λ d. refl;
    bytes = refl;
    files = refl;
    small = refl;
  };
  record_part = record { sorted = tt; begun = λ q. refl; ahead = λ q h. refl };
}

-- The parts look at the tasks through the sums only.
pub BlobPart-same :
    {t u : Map ℕ Task} {o : Order} {blobs : Map Text BlobState} {n f : ℕ}
    → ((w : Weight) → total (weigh w) u ≡ total (weigh w) t)
    → BlobPart t o blobs n f
    → BlobPart u o blobs n f
BlobPart-same e p = record {
  sorted = p.sorted;
  begun = λ q. omega (arith, p.begun q, e (Weight.sequence_of q));
  ahead = p.ahead;
  once = λ d. omega (arith, p.once d, e (Weight.digest_of d));
  bytes = omega (arith, p.bytes, e Weight.bytes_of);
  files = omega (arith, p.files, e Weight.file_of);
  small = omega (arith, p.small, e Weight.oversize);
}

pub RecordPart-same :
    {t u : Map ℕ Task} {o : Order}
    → ((q : ℕ) → total (is_record q) u ≡ total (is_record q) t)
    → RecordPart t o
    → RecordPart u o
RecordPart-same e p = record {
  sorted = p.sorted;
  begun = λ q. omega (arith, p.begun q, e q);
  ahead = p.ahead;
}

-- The map of tasks itself, after each kind of change.
module _ (s : Shared) (v : IsValid s) where
  pub spawn-sorted : (t : Task) → IsMap (spawn t s).tasks
  unfolding spawn
  spawn-sorted t = insert-IsMap s.next_task t s.tasks v.tasks_sorted

  pub spawn-fresh : (t : Task) (k : ℕ) → suc s.next_task ≤ k → get k (spawn t s).tasks ≡ none
  unfolding spawn
  spawn-fresh t k h = ground (arith, get-insert s.next_task k t s.tasks, v.fresh k)

  pub become-sorted : (k : ℕ) (t : Task) → IsMap (become k t s).tasks
  unfolding become
  become-sorted k t = insert-IsMap k t s.tasks v.tasks_sorted

  pub become-fresh :
      (k : ℕ) (t old : Task)
      → get k s.tasks ≡ some old
      → (j : ℕ) → s.next_task ≤ j
      → get j (become k t s).tasks ≡ none
  unfolding become
  become-fresh k t old e j h = ground (arith, get-insert k j t s.tasks, v.fresh j)

  pub drop-sorted : (k : ℕ) → IsMap (drop k s).tasks
  unfolding drop
  drop-sorted k = remove-IsMap k s.tasks v.tasks_sorted

  pub drop-fresh : (k j : ℕ) → s.next_task ≤ j → get j (drop k s).tasks ≡ none
  unfolding drop
  drop-fresh k j h = ground (arith, get-remove k j s.tasks, v.fresh j)

  -- The sums after each kind of change, for any weight.
  pub total-spawn : (w : Task → ℕ) (t : Task) → total w (spawn t s).tasks ≡ w t + total w s.tasks
  unfolding spawn
  total-spawn w t = total-insert_new w s.next_task t s.tasks (v.fresh s.next_task (omega arith))

  pub total-become :
      (w : Task → ℕ) (k : ℕ) (t old : Task)
      → get k s.tasks ≡ some old
      → w old + total w (become k t s).tasks ≡ w t + total w s.tasks
  unfolding become
  total-become w k t old e = total-insert_old w k old t s.tasks v.tasks_sorted e

  pub total-drop :
      (w : Task → ℕ) (k : ℕ) (old : Task)
      → get k s.tasks ≡ some old
      → w old + total w (drop k s).tasks ≡ total w s.tasks
  unfolding drop
  total-drop w k old e = total-remove w k old s.tasks v.tasks_sorted e
