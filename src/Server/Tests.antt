-- ===== src/Server/Tests.antt =====
-- The server of crates/bellows-server/src/main.rs on concrete requests, with simple functions in the
-- place of the digests, and an instance of each theorem with a hypothesis.
use bellows.Prelude.{
  ℕ, ◌≡◌, ◌⊎◌, refl, true, false, Option, none, some, List, [], ◌∷◌, ◌++◌, replicate, arith,
}
use bellows.Prelude.Key.{text_key, list_cmp}
use bellows.Prelude.Sort.{sort_by}
use bellows.Prelude.Text.{Text, codes}
use bellows.Store.Error.{ok}
use bellows.Store.Records.{
  StreamArtifact, ActionCandidate, CandidateIndex, PlatformIdentity, DeclaredActionRecord,
}
use bellows.Store.Contents
use bellows.Store.Front.{IsFront}
use bellows.Store.Contents.{Host, Store, read_candidates, with_candidate}
use bellows.Server.Api.{Refusal, refused, answered, authorize}
use bellows.Server.Leases.{
  Lease, LeaseRequest, LeaseResponse, Call, new_lease, acquire_lease, release_lease, run,
}
use bellows.Server.Exclusive.{acquire_lease_exclusive, lease_ends}
use bellows.Server.Blobs.{put_blob, head_blob, get_blob}
use bellows.Server.Received.{Means, put_blob-Means}
use bellows.Server.Publish.{store_candidate}
use bellows.Server.Complete.{IsComplete, store_candidate-IsComplete}
use bellows.Server.Collect.{Node, Entries}
use bellows.Server.Execution.{
  ExecuteRequest, Ran, failed, finished, validate_execution_request, execute, hit, miss, record_of,
}
use bellows.Server.SingleFlight.{execute-execute}

abbrev key_a : Text
key_a = replicate 64 b'a'

abbrev key_b : Text
key_b = replicate 64 b'b'

abbrev host : Host
host = record {
  digest_bytes = λ b. b;
  digests = record {
    compiler_action_key = λ k f h e. key_b;
    declared_action_key = λ n p c e i o. key_b;
    tree_digest = λ fs. key_b;
  };
  same_record = λ a b. true;
}

abbrev empty : Store
empty = record {
  blobs = [];
  actions = [];
  declared = [];
  archives = [];
  quarantine = [];
  journal = [];
}

guards :
    (authorize (λ b. b) none none ≡ answered tt)
    × (authorize (λ b. b) (some (codes "t")) none ≡ refused Refusal.unauthorized)
    × (authorize (λ b. b) (some (codes "t")) (some (codes "Bearer t")) ≡ answered tt)
unfolding authorize
guards = (refl, refl, refl)

-- A lease of ten seconds, of the client `one`.
abbrev one : LeaseRequest
one = record { client_id = codes "one"; ttl_ms = 10000 }

abbrev two : LeaseRequest
two = record { client_id = codes "two"; ttl_ms = 10000 }

abbrev identity : Text → Text
identity b = b

abbrev lease_one : Lease
lease_one = record { token = codes "one:" ++ key_a ++ codes ":5"; expires_ms = 10005 }

owned_one :
    (acquire_lease identity key_a one 5 []).1
    ≡ LeaseResponse.owned lease_one.token lease_one.expires_ms
unfolding acquire_lease
owned_one = refl

-- Meanwhile another key is leased, and the key is released with a wrong token.
abbrev meanwhile : List (ℕ × Call)
meanwhile =
    (6, Call.acquires key_b two)
    ∷ (7, Call.releases key_a (codes "no"))
    ∷ (8, Call.acquires key_a two)
    ∷ []

acquire_lease_exclusive_example :
    (acquire_lease identity key_a two 10004
      (run identity meanwhile (acquire_lease identity key_a one 5 []).0)).1
    ≡ LeaseResponse.wait 150 10005
unfolding list_cmp
acquire_lease_exclusive_example =
    acquire_lease_exclusive identity key_a one 5 [] tt lease_one owned_one meanwhile
      (omega arith, (refl, (omega arith, tt))) two 10004 (omega arith)

lease_ends_example :
    let t = run identity meanwhile (acquire_lease identity key_a one 5 []).0 in
    let own = new_lease identity key_a two 10005 in
    ((release_lease key_a lease_one.token t).1 ≡ answered tt)
    × ((acquire_lease identity key_a two 10005 (release_lease key_a lease_one.token t).0).1
        ≡ LeaseResponse.owned own.token own.expires_ms)
    × ((acquire_lease identity key_a two 10005 t).1 ≡ LeaseResponse.owned own.token own.expires_ms)
unfolding list_cmp
lease_ends_example =
    lease_ends identity key_a one 5 [] tt lease_one owned_one meanwhile
      (omega arith, (refl, (omega arith, tt))) two 10005 10005 (omega arith)

-- A blob in two chunks, and one that is too large.
abbrev half : Text
half = replicate 32 b'a'

abbrev blob_there : Store
blob_there = (put_blob host 100 key_a (some half ∷ some half ∷ []) 5 empty).0

uploads :
    ((put_blob host 100 key_a (some half ∷ some half ∷ []) 5 empty).1 ≡ answered true)
    × ((put_blob host 50 key_a (some half ∷ some half ∷ []) 5 empty).1
        ≡ refused Refusal.payload_too_large)
    × ((put_blob host 100 key_a (some half ∷ none ∷ []) 5 empty).1 ≡ refused Refusal.bad_request)
    × ((head_blob host key_a 6 blob_there).1 ≡ answered tt)
    × (get_blob key_b blob_there ≡ refused Refusal.not_found)
unfolding put_blob head_blob get_blob
uploads = (refl, refl, refl, refl, refl)

put_blob-Means_example :
    Means host 100 key_a
      (some half ∷ some half ∷ [])
      empty
      (put_blob host 100 key_a (some half ∷ some half ∷ []) 5 empty).0
      (put_blob host 100 key_a (some half ∷ some half ∷ []) 5 empty).1
put_blob-Means_example =
    put_blob-Means host 100 key_a (some half ∷ some half ∷ []) 5 empty (omega arith)

abbrev stream : StreamArtifact
stream = record { digest = key_a; len = 64 }

abbrev candidate : ActionCandidate
candidate = record {
  protocol = 6;
  static_key = key_a;
  action_key = key_b;
  crate_name = codes "example";
  created_ms = 1;
  files = [];
  host_files = [];
  env = [];
  artifacts =
      (record { file_name = codes "libexample.rlib"; digest = key_a; executable = false }) ∷ [];
  stdout = stream;
  stderr = stream;
  proc_macros = [];
}

candidate_stored : (store_candidate host candidate 8 6 blob_there).1 ≡ answered tt
unfolding store_candidate Contents.put_candidate put_blob
candidate_stored = refl

candidate_refused : (store_candidate host candidate 8 6 empty).1 ≡ refused Refusal.bad_request
unfolding store_candidate
candidate_refused = refl

store_candidate-IsComplete_example :
    let after = (store_candidate host candidate 8 6 blob_there).0 in
    IsComplete host after candidate
    × ((index : CandidateIndex) × ((read_candidates host key_a blob_there).1 ≡ ok index)
        × (read_candidates host key_a after ≡ (after, ok (with_candidate candidate 8 index)))
        × IsFront candidate 8 index.candidates (with_candidate candidate 8 index).candidates)
store_candidate-IsComplete_example =
    store_candidate-IsComplete host candidate 8 6 blob_there (omega arith) candidate_stored

-- An action that makes one file, and writes nothing else than the same bytes.
abbrev platform : PlatformIdentity
platform = record {
  rustc = codes "rustc 1.90";
  cargo = codes "cargo 1.90";
  os = codes "linux";
  arch = codes "x86_64";
  path_digest = key_a;
  rustup_home_digest = key_a;
  rustup_toolchain = none;
  host_cc = none;
  host_ld = none;
  host_ar = none;
}

abbrev request : ExecuteRequest
request = record {
  key = key_b;
  name = codes "docs";
  platform = platform;
  command = codes "cargo" ∷ codes "doc" ∷ codes "--locked" ∷ codes "--offline" ∷ [];
  environment = [];
  inputs = [];
  outputs = codes "out" ∷ [];
}

abbrev tree : Text → Option Node
tree path = some (Node.dir (Entries.entry (codes "doc") (Node.file key_a false) Entries.end))

abbrev made : Ran
made = finished (codes "/tmp/w") tree key_a key_a 12 (codes "bellowsd:1")

abbrev made_record : DeclaredActionRecord
made_record =
    record_of host 5 request
      ((record { file_name = codes "out/doc"; digest = key_a; executable = false }) ∷ []) key_a
      key_a 12 (codes "bellowsd:1")

executed : (execute host true true 5 request made empty).1 ≡ answered (miss made_record)
unfolding execute Contents.put_blob Contents.put_declared Contents.read_declared sort_by
executed = refl

execute-execute_example :
    let after = (execute host true true 5 request made empty).0 in
    (e : DeclaredActionRecord) × (execute host true true 6 request failed after
      ≡ (after, answered (hit e)))
    × ((e ≡ made_record) ⊎ (host.same_record e made_record ≡ true))
execute-execute_example =
    execute-execute host true true 5 6 request made failed empty made_record executed

forbidden_name :
    validate_execution_request (record request { environment = (codes "PATH", []) ∷ [] })
    ≡ refused Refusal.bad_request
unfolding validate_execution_request
forbidden_name = refl
