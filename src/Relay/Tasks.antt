-- ===== src/Relay/Tasks.antt =====
-- The relay's handlers and background tasks as moves between two `await`s:
-- crates/bellows-cli/src/relay.rs, `put_blob`, `defer` and the waiting arm of `handle`. The steps
-- that end an upload, and those that accept a deferred request, are taken as one move each.
use bellows.Prelude.{
  ℕ, suc, ◌+◌, ◌-◌, ◌%◌, Bool, ◌&&◌, not, Option, none, some, List, [], ◌∷◌, if◌then◌else◌, ltb,
  leb, length,
}
use bellows.Prelude.Key.{text_key, nat_key, list_cmp}
use bellows.Prelude.Map.{get, insert, remove}
use bellows.Prelude.Text.{Text, text_eq}
use bellows.Store.Error.{is_ok}
use bellows.Store.Keys.{validate_content_key}
use bellows.Relay.Order.{Order, u64_mod, begin, finish, passed, horizon}
use bellows.Relay.State.{BlobState, Stats, Failure, fail, Deferred, Task, Shared, Status}
use bellows.Relay.State.BlobState.{pending, done, failed}
use bellows.Relay.State.Task.{receiving, spooling, uploading, deferring, behind_records, forwarding}
use bellows.Relay.Route.{is_known}
use bellows.Relay.Upload.{Answer, Uploaded, upload, send_loop, is_success}

unfoldable pub spawn : Task → Shared → Shared
unfolding insert
spawn t s = record s { tasks = insert s.next_task t s.tasks; next_task = suc s.next_task }

unfoldable pub become : ℕ → Task → Shared → Shared
unfolding insert
become k t s = record s { tasks = insert k t s.tasks }

unfoldable pub drop : ℕ → Shared → Shared
unfolding remove
drop k s = record s { tasks = remove k s.tasks }

-- What a move gives: an answer to the wrapper, something sent to the server, or nothing.
pub data Outcome : Type 0 where
  answered : Status → Outcome
  uploaded : Text → Uploaded → Outcome
  sent : Deferred → Outcome
  forwarded : Outcome
  idle : Outcome

-- `HEAD` of a blob.
unfoldable pub head_blob : Text → Shared → Status
unfolding get list_cmp
head_blob digest s = if is_known (get digest s.blobs) then Status.ok else Status.not_found

-- `put_blob` up to its wait for room.
unfoldable pub put_blob : Text → Shared → Shared × Outcome
unfolding validate_content_key get spawn list_cmp
put_blob digest s =
    if not (is_ok (validate_content_key digest))
    then (s, Outcome.answered Status.bad_request)
    else if is_known (get digest s.blobs)
    then (s, Outcome.answered Status.no_content)
    else (spawn (receiving digest) s, Outcome.idle)

-- One look at the spool: past its limit a blob waits, unless the spool is empty.
unfoldable pub enter : ℕ → Text → Shared → Shared × Outcome
unfolding become
enter k digest s =
    if leb s.spool_limit s.spooled && ltb 0 s.spool_files
    then (s, Outcome.idle)
    else (become k (spooling digest) s, Outcome.idle)

-- The part under the lock of `blobs`.
unfoldable pub accept : ℕ → Text → ℕ → Shared → Shared × Outcome
unfolding get insert begin become drop list_cmp
accept k digest size s =
    if is_known (get digest s.blobs) then (drop k s, Outcome.answered Status.no_content) else (
      record (become k (uploading digest size (begin s.blob_order).1) s) {
        blobs = insert digest pending s.blobs;
        spooled = (s.spooled + size) % u64_mod;
        spool_files = (s.spool_files + 1) % u64_mod;
        blob_order = (begin s.blob_order).0;
      },
      Outcome.answered Status.created,
    )

-- `put_blob` after the body was written, or not.
unfoldable pub land : (Text → Text) → ℕ → Text → Option Text → Shared → Shared × Outcome
unfolding accept drop list_cmp
land digest_bytes k digest none s = (drop k s, Outcome.answered Status.internal_server_error)
land digest_bytes k digest (some body) s =
    if not (text_eq (digest_bytes body) digest)
    then (drop k s, Outcome.answered Status.bad_request)
    else accept k digest (length body % u64_mod) s

abbrev pub state_after : Uploaded → BlobState
state_after Uploaded.sent = done
state_after Uploaded.present = done
state_after (Uploaded.broken e) = failed

unfoldable pub count_upload : ℕ → Uploaded → Stats → Stats
unfolding fail
count_upload size Uploaded.sent stats = record stats {
  blobs_uploaded = (stats.blobs_uploaded + 1) % u64_mod;
  blob_bytes = (stats.blob_bytes + size) % u64_mod;
}
count_upload size Uploaded.present stats = record stats {
  blobs_present = (stats.blobs_present + 1) % u64_mod;
}
count_upload size (Uploaded.broken e) stats = fail (Failure.upload_failed e) stats

-- The end of an upload.
unfoldable pub end_upload : ℕ → Text → ℕ → ℕ → Uploaded → Shared → Shared
unfolding insert finish drop count_upload list_cmp
end_upload k digest size sequence outcome s = record (drop k s) {
  stats = count_upload size outcome s.stats;
  blobs = insert digest (state_after outcome) s.blobs;
  spooled = (s.spooled + u64_mod - size) % u64_mod;
  spool_files = (s.spool_files + u64_mod - 1) % u64_mod;
  blob_order = finish sequence s.blob_order;
}

-- An upload with the answers that it has so far.
unfoldable pub work : ℕ → Text → ℕ → ℕ → Bool → List Answer → Shared → Shared × Outcome
unfolding upload end_upload
work k digest size sequence there answers s = elim (upload size there answers) [
  | none ↦ (s, Outcome.idle)
  | some outcome ↦ (end_upload k digest size sequence outcome s, Outcome.uploaded digest outcome)
]

-- `defer`, up to its background part. Only a record is begun in the order of records.
unfoldable pub defer : Deferred → Shared → Shared × Outcome
unfolding begin spawn
defer Deferred.records s =
    let blob_horizon = horizon s.blob_order in
    let record_horizon = horizon s.record_order in
    (
      record (spawn
          (deferring Deferred.records blob_horizon record_horizon (some (begin s.record_order).1))
          s) { record_order = (begin s.record_order).0 },
      Outcome.answered Status.created,
    )
defer kind s = (
  spawn (deferring kind (horizon s.blob_order) (horizon s.record_order) none) s,
  Outcome.answered Status.no_content,
)

unfoldable pub count_record : Option ℕ → Stats → Stats
unfolding fail
count_record none stats = fail Failure.record_failed stats
count_record (some c) stats =
    if is_success c
    then record stats { records = (stats.records + 1) % u64_mod }
    else fail (Failure.record_refused c) stats

abbrev pub finish_record : Option ℕ → Order → Order
finish_record none o = o
finish_record (some sequence) o = finish sequence o

unfoldable pub end_record : ℕ → Option ℕ → Option ℕ → Shared → Shared
unfolding finish drop count_record
end_record k sequence outcome s = record (drop k s) {
  stats = count_record outcome s.stats;
  record_order = finish_record sequence s.record_order;
}

-- The background part of a deferred request, with the answers that it gets once it is sent.
unfoldable pub proceed : ℕ → Deferred → ℕ → ℕ → Option ℕ → List Answer → Shared → Shared × Outcome
unfolding passed send_loop end_record become drop
proceed k Deferred.records blob_horizon record_horizon sequence answers s =
    if passed blob_horizon s.blob_order
    then elim (send_loop 0 answers) [
      | none ↦ (s, Outcome.idle)
      | some outcome ↦ (end_record k sequence outcome s, Outcome.sent Deferred.records)
    ]
    else (s, Outcome.idle)
proceed k Deferred.use_mark blob_horizon record_horizon sequence answers s =
    elim (send_loop 0 answers) [
      | none ↦ (s, Outcome.idle)
      | some outcome ↦ (drop k s, Outcome.sent Deferred.use_mark)
    ]
proceed k Deferred.release blob_horizon record_horizon sequence answers s =
    if passed blob_horizon s.blob_order
    then (become k (behind_records record_horizon) s, Outcome.idle)
    else (s, Outcome.idle)

unfoldable pub give_back : ℕ → ℕ → List Answer → Shared → Shared × Outcome
unfolding passed send_loop drop
give_back k record_horizon answers s =
    if passed record_horizon s.record_order
    then elim (send_loop 0 answers) [
      | none ↦ (s, Outcome.idle)
      | some outcome ↦ (drop k s, Outcome.sent Deferred.release)
    ]
    else (s, Outcome.idle)

unfoldable pub pass_on : ℕ → ℕ → Shared → Shared × Outcome
unfolding passed drop
pass_on k blob_horizon s =
    if passed blob_horizon s.blob_order then (drop k s, Outcome.forwarded) else (s, Outcome.idle)

-- A request that comes, or a task that gets on with what the world gives it.
pub data Move : Type 0 where
  puts : Text → Move
  defers : Deferred → Move
  waits : Move
  gets_on : ℕ → Option Text → Bool → List Answer → Move

unfoldable pub get_on :
    (Text → Text) → ℕ → Task → Option Text → Bool → List Answer → Shared → Shared × Outcome
unfolding enter land work proceed give_back pass_on
get_on digest_bytes k (receiving digest) body there answers s = enter k digest s
get_on digest_bytes k (spooling digest) body there answers s = land digest_bytes k digest body s
get_on digest_bytes k (uploading digest size sequence) body there answers s =
    work k digest size sequence there answers s
get_on digest_bytes k (deferring kind b r sequence) body there answers s =
    proceed k kind b r sequence answers s
get_on digest_bytes k (behind_records r) body there answers s = give_back k r answers s
get_on digest_bytes k (forwarding b) body there answers s = pass_on k b s

unfoldable pub step : (Text → Text) → Move → Shared → Shared × Outcome
unfolding put_blob defer spawn get_on get
step digest_bytes (Move.puts digest) s = put_blob digest s
step digest_bytes (Move.defers kind) s = defer kind s
step digest_bytes Move.waits s = (spawn (forwarding (horizon s.blob_order)) s, Outcome.idle)
step digest_bytes (Move.gets_on k body there answers) s = elim (get k s.tasks) [
  | none ↦ (s, Outcome.idle)
  | some task ↦ get_on digest_bytes k task body there answers s
]

unfoldable pub run : (Text → Text) → List Move → Shared → Shared
unfolding step
run digest_bytes [] s = s
run digest_bytes (m ∷ moves) s = run digest_bytes moves (step digest_bytes m s).0
