-- ===== src/Gc/Tests.antt =====
-- A collection of crates/bellows-core/src/gc.rs on a small store, and an instance of each theorem with
-- a hypothesis.
use bellows.Prelude.{
  ℕ, ◌+◌, ◌≤◌, ◌<◌, ◌≡◌, ◌⊎◌, refl, Bool, true, false, ◌&&◌, not, none, some, [], ◌∷◌, replicate,
  if◌then◌else◌, arith, length, count, bit, ltb, ◌==◌, get_or, any, sum_of,
}
use bellows.Prelude.Key.{list_cmp, text_key, nat_key}
use bellows.Prelude.Map.{get}
use bellows.Prelude.Text.{Text, codes, text_eq}
use bellows.Store.Records.{StreamArtifact, ActionCandidate}
use bellows.Gc.State.{GcOptions, Snapshot, Evictable, no_unit}
use bellows.Gc.Index.{Files, read, records, candidate_units, last_use}
use bellows.Gc.Plan.{new_plan, after_executables, evicts_before, obsolete, referrers_of}
use bellows.Gc.Counts.{live_bytes, live_executable, kept}
use bellows.Gc.Unreference.{times_freed}
use bellows.Gc.Tracks.{IsSnapshot}
use bellows.Gc.Start.{bytes_of, protected_bytes}
use bellows.Gc.Reading.{read-IsSnapshot, read-total}
use bellows.Gc.Outcome.{
  kept_counts, freed_exact, bytes_after_exact, executables_fit, budget_met, obsolete_evicted,
  least_recent_first,
}
use bellows.Gc.Journal.{read_journal, compact_journal}
use bellows.Gc.Compacted.{IsNewestUse, read_journal-compact_journal}
use bellows.Gc.Apply.{Recent, RecordFile, Deleting, delete_batch, evict_from}
use bellows.Gc.Applied.{get-delete_batch, evict_from_lem, reused, candidates_of}

abbrev stream : Text → StreamArtifact
stream digest = record { digest = digest; len = 1 }

-- A candidate with one artifact; its streams share the blob `out`.
abbrev candidate : Text → Text → Text → ℕ → ActionCandidate
candidate key file digest created = record {
  protocol = 6;
  static_key = key;
  action_key = key;
  crate_name = codes "crate";
  created_ms = created;
  files = [];
  host_files = [];
  env = [];
  artifacts = (record { file_name = file; digest = digest; executable = false }) ∷ [];
  stdout = stream (codes "out");
  stderr = stream (codes "out");
  proc_macros = [];
}

abbrev old_library : ActionCandidate
old_library = candidate (codes "k1") (codes "a.rlib") (codes "aa") 100

abbrev new_program : ActionCandidate
new_program = candidate (codes "k2") (codes "b") (codes "bb") 200

abbrev files : Files
files = record {
  blobs =
      (codes "aa", 10, 0) ∷ (codes "bb", 20, 0) ∷ (codes "out", 5, 0) ∷ (codes "loose", 7, 0) ∷ [];
  actions =
      (codes "p1", record { candidates = old_library ∷ [] })
      ∷ (codes "p2", record { candidates = new_program ∷ [] })
      ∷ [];
  declared = [];
  archives = [];
}

abbrev options : GcOptions
options = record {
  max_bytes = 25;
  dry_run = false;
  min_protocol = none;
  max_executable_bytes = some 30;
}

abbrev strict : GcOptions
strict = record {
  max_bytes = 100;
  dry_run = false;
  min_protocol = some 7;
  max_executable_bytes = none;
}

snapshot : Snapshot
snapshot = read 10000000 [] files

snapshot-IsSnapshot : IsSnapshot snapshot
unfolding snapshot records candidate_units
snapshot-IsSnapshot = read-IsSnapshot 10000000 [] files (omega arith) (omega arith)

snapshot-total : snapshot.total_bytes ≡ sum_of bytes_of snapshot.blobs
unfolding snapshot
snapshot-total = read-total 10000000 [] files (omega arith)

-- The library is the older record: it goes, with its own blob, and the loose blob with it.
plan_evicted : (new_plan snapshot options 10000000).evicted ≡ true ∷ false ∷ []
unfolding snapshot new_plan read
plan_evicted = refl

plan_bytes : (new_plan snapshot options 10000000).bytes_after ≡ 25
unfolding snapshot new_plan read
plan_bytes = refl

read-IsSnapshot_example : IsSnapshot (read 10000000 [] files)
unfolding records candidate_units
read-IsSnapshot_example = read-IsSnapshot 10000000 [] files (omega arith) (omega arith)

freed_exact_example :
    times_freed 0 (new_plan snapshot options 10000000).freed
    ≡ bit (
        ltb 0 (length (referrers_of snapshot 0))
        && (kept (new_plan snapshot options 10000000).evicted (referrers_of snapshot 0) == 0))
freed_exact_example = freed_exact snapshot options 10000000 snapshot-IsSnapshot snapshot-total 0

bytes_after_exact_example :
    (new_plan snapshot options 10000000).bytes_after
    ≡ live_bytes snapshot (kept_counts snapshot (new_plan snapshot options 10000000).evicted)
      + protected_bytes snapshot 10000000
bytes_after_exact_example =
    bytes_after_exact snapshot options 10000000 snapshot-IsSnapshot snapshot-total

executables_fit_example :
    live_executable snapshot (kept_counts snapshot (new_plan snapshot options 10000000).evicted)
    ≤ 30
executables_fit_example =
    executables_fit snapshot options 10000000 snapshot-IsSnapshot snapshot-total 30 refl

budget_met_example :
    ((new_plan snapshot options 10000000).bytes_after ≤ 25)
    ⊎ (((u : ℕ)
          → u < length snapshot.units
          → get_or false (new_plan snapshot options 10000000).evicted u ≡ true)
        × ((new_plan snapshot options 10000000).bytes_after ≡ protected_bytes snapshot 10000000))
budget_met_example = budget_met snapshot options 10000000 snapshot-IsSnapshot snapshot-total

obsolete_evicted_example : get_or false (new_plan snapshot strict 10000000).evicted 1 ≡ true
unfolding snapshot read obsolete
obsolete_evicted_example =
    obsolete_evicted snapshot strict 10000000 snapshot-IsSnapshot snapshot-total 1 (omega arith)
      refl

-- With room for all but the older record the newer one stays.
second_kept : get_or false (new_plan snapshot options 10000000).evicted 1 ≡ false
unfolding snapshot new_plan read
second_kept = refl

roomy : GcOptions
roomy = record {
  max_bytes = 1000;
  dry_run = false;
  min_protocol = none;
  max_executable_bytes = some 0;
}

first_kept : get_or false (new_plan snapshot roomy 10000000).evicted 0 ≡ false
unfolding snapshot new_plan read roomy
first_kept = refl

first_before : evicts_before snapshot roomy 0 1 ≡ true
unfolding snapshot read evicts_before roomy
first_before = refl

least_recent_first_example :
    get_or false (new_plan snapshot roomy 10000000).evicted 1
    ≡ get_or false (after_executables snapshot roomy 10000000).evicted 1
unfolding snapshot read
least_recent_first_example =
    least_recent_first snapshot roomy 10000000 snapshot-IsSnapshot snapshot-total 0 1 (omega arith)
      first_before (λ e. absurd (omega arith)) first_kept

-- Of a batch of two blobs one has been offered again.
abbrev recent : Recent
recent = record { offset = 0; uses = (codes "k1", codes "k1") ∷ []; blobs = codes "bb" ∷ [] }

abbrev deleting : Deleting
deleting = record { files = (codes "aa", 5) ∷ (codes "bb", 6) ∷ []; deleted = 0; skipped = 0 }

get-delete_batch_example :
    get (codes "aa") (delete_batch 1000 recent (codes "aa" ∷ codes "bb" ∷ []) deleting).files ≡ (
      if any (text_eq (codes "aa")) (codes "aa" ∷ codes "bb" ∷ [])
        && not (reused 1000 recent (codes "aa") (get (codes "aa") deleting.files))
      then none
      else get (codes "aa") deleting.files)
get-delete_batch_example =
    get-delete_batch 1000 recent (codes "aa" ∷ codes "bb" ∷ []) (codes "aa") deleting

abbrev victim : Evictable
victim = record no_unit { candidate = some (codes "k1", 100) }

abbrev is_used : ActionCandidate → Bool
is_used c = any (λ u. text_eq c.static_key u.0 && text_eq c.action_key u.1) recent.uses

evict_from_lem_example :
    let after =
      evict_from
        (victim ∷ [])
        recent
        (some (RecordFile.index (record { candidates = old_library ∷ new_program ∷ [] }))) in
    (count is_used (candidates_of after.0) ≡ count is_used (old_library ∷ new_program ∷ []))
    × (length (candidates_of after.0) + after.1 ≡ 2)
evict_from_lem_example =
    evict_from_lem (victim ∷ []) recent (record { candidates = old_library ∷ new_program ∷ [] })
      is_used refl (λ c h. h)

abbrev key_a : Text
key_a = replicate 64 b'a'

abbrev used_unit : Evictable
used_unit = record no_unit {
  candidate = some (key_a, 100);
  static_key = some key_a;
  last_used_ms = 900;
}

-- A newer use of the same keys by a record that is evicted, which does not count.
abbrev evicted_unit : Evictable
evicted_unit = record used_unit { last_used_ms = 950 }

compacted :
    last_use key_a key_a
      (read_journal (compact_journal (used_unit ∷ evicted_unit ∷ []) (false ∷ true ∷ []) ∷ []) [])
    ≡ 900
unfolding last_use read_journal compact_journal list_cmp
compacted = refl

read_journal-compact_journal_example :
    IsNewestUse key_a key_a (used_unit ∷ evicted_unit ∷ []) (false ∷ true ∷ []) (
      last_use key_a key_a (
        read_journal (compact_journal (used_unit ∷ evicted_unit ∷ []) (false ∷ true ∷ []) ∷ []) []))
read_journal-compact_journal_example =
    read_journal-compact_journal (used_unit ∷ evicted_unit ∷ []) (false ∷ true ∷ []) key_a key_a
      (((refl, refl), (refl, refl), omega arith), (((refl, refl), (refl, refl), omega arith), tt))

sized : length (new_plan snapshot options 10000000).evicted ≡ length snapshot.units
unfolding snapshot new_plan read
sized = refl
