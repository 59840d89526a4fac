-- ===== src/Gc/State.antt =====
-- The data of a collection: crates/bellows-core/src/gc.rs, `GcOptions`, `Kind`, `Unit`, `Blob`,
-- `Snapshot` and `Plan`.
use bellows.Prelude.{ℕ, ◌+◌, min, Option, Bool, true, false, List}
use bellows.Prelude.Text.{Text}

-- The upload grace period and the days of the report, in milliseconds.
abbrev pub grace_ms : ℕ
grace_ms = 3600000

abbrev pub day_ms : ℕ
day_ms = 86400000

abbrev pub batch_size : ℕ
batch_size = 256

abbrev pub top_crates : ℕ
top_crates = 15

abbrev pub coarse_clock_slack_ms : ℕ
coarse_clock_slack_ms = 50

abbrev pub u32_mod : ℕ
u32_mod = 4294967296

abbrev pub u64_max : ℕ
u64_max = 18446744073709551615

pub record GcOptions : Type 0 where
  pub max_bytes : ℕ
  pub dry_run : Bool
  pub min_protocol : Option ℕ
  pub max_executable_bytes : Option ℕ

pub data Kind : Type 0 where
  library : Kind
  executable : Kind
  linked : Kind
  build_script : Kind
  declared : Kind
  archive : Kind

-- `Unit` of the source: a compiler candidate, or a whole declared or archive record.
pub record Evictable : Type 0 where
  pub path : Text
  pub candidate : Option (Text × ℕ)
  pub static_key : Option Text
  pub protocol : Option ℕ
  pub crate_name : Text
  pub kind : Kind
  pub pinned : Bool
  pub last_used_ms : ℕ
  pub blobs : List ℕ

pub record Blob : Type 0 where
  pub digest : Text
  pub bytes : ℕ
  pub modified_ms : ℕ

pub record Snapshot : Type 0 where
  pub units : List Evictable
  pub blobs : List Blob
  pub referrers : List (List ℕ)
  pub journal_entries : ℕ
  pub total_bytes : ℕ
  pub started_ms : ℕ

pub record Plan : Type 0 where
  pub evicted : List Bool
  pub freed : List (ℕ × ℕ)
  pub unreferenced : List ℕ
  pub protected_unreferenced : ℕ
  pub bytes_after : ℕ

abbrev pub is_executable : Kind → Bool
is_executable Kind.executable = true
is_executable _ = false

-- Stands for a unit out of range, where the source would panic.
abbrev pub no_unit : Evictable
no_unit = record {
  path = List.[];
  candidate = Option.none;
  static_key = Option.none;
  protocol = Option.none;
  crate_name = List.[];
  kind = Kind.library;
  pinned = false;
  last_used_ms = 0;
  blobs = List.[];
}

abbrev pub no_blob : Blob
no_blob = record { digest = List.[]; bytes = 0; modified_ms = 0 }

abbrev pub saturating_add : ℕ → ℕ → ℕ
saturating_add a b = min (a + b) u64_max
