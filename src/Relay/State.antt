-- ===== src/Relay/State.antt =====
-- What the relay shares among its tasks: crates/bellows-cli/src/relay.rs, `Shared`, `Stats`, and the
-- answers that it gives.
use bellows.Prelude.{ℕ, ◌+◌, ◌%◌, Option, none, some, []}
use bellows.Prelude.Map.{Map}
use bellows.Prelude.Text.{Text}
use bellows.Relay.Order.{Order, new, u64_mod}

pub data BlobState : Type 0 where
  pending : BlobState
  done : BlobState
  failed : BlobState

-- Why an upload failed: its file is gone, the server answered otherwise, or it was not reached.
pub data UploadError : Type 0 where
  reopen : UploadError
  too_large : UploadError
  answered : ℕ → UploadError
  unreachable : UploadError

-- A message of `Stats::fail`, by the values that it is made of.
pub data Failure : Type 0 where
  upload_failed : UploadError → Failure
  record_refused : ℕ → Failure
  record_failed : Failure

pub record Stats : Type 0 where
  pub blobs_uploaded : ℕ
  pub blob_bytes : ℕ
  pub blobs_present : ℕ
  pub records : ℕ
  pub failures : ℕ
  pub first_failure : Option Failure

abbrev pub or_message : Option Failure → Failure → Option Failure
or_message none message = some message
or_message (some first) message = some first

unfoldable pub fail : Failure → Stats → Stats
fail message s = record s {
  failures = (s.failures + 1) % u64_mod;
  first_failure = or_message s.first_failure message;
}

pub data Deferred : Type 0 where
  records : Deferred
  use_mark : Deferred
  release : Deferred

-- What is under way: a `put_blob` that waits for room, one that writes its body to the spool, the
-- upload that it spawns with its length and sequence, a request that was deferred with its horizons,
-- a release that has waited for the blobs before it, and a request that waits for the same.
pub data Task : Type 0 where
  receiving : Text → Task
  spooling : Text → Task
  uploading : Text → ℕ → ℕ → Task
  deferring : Deferred → ℕ → ℕ → Option ℕ → Task
  behind_records : ℕ → Task
  forwarding : ℕ → Task

-- The tasks are those of the relay's runtime, by a number that counts them.
pub record Shared : Type 0 where
  pub local_token : Text
  pub spool_limit : ℕ
  pub spooled : ℕ
  pub spool_files : ℕ
  pub blobs : Map Text BlobState
  pub blob_order : Order
  pub record_order : Order
  pub stats : Stats
  pub tasks : Map ℕ Task
  pub next_task : ℕ

abbrev pub no_stats : Stats
no_stats = record {
  blobs_uploaded = 0;
  blob_bytes = 0;
  blobs_present = 0;
  records = 0;
  failures = 0;
  first_failure = none;
}

unfoldable pub start : Text → ℕ → Shared
unfolding new
start token limit = record {
  local_token = token;
  spool_limit = limit;
  spooled = 0;
  spool_files = 0;
  blobs = [];
  blob_order = new;
  record_order = new;
  stats = no_stats;
  tasks = [];
  next_task = 0;
}

pub data Status : Type 0 where
  ok : Status
  created : Status
  no_content : Status
  bad_request : Status
  unauthorized : Status
  not_found : Status
  internal_server_error : Status
