-- ===== src/Server/Execution.antt =====
-- Remote execution of declared actions: crates/bellows-server/src/main.rs, `execute`,
-- `validate_execution_request`, `execute_declared`. What the command does is given: whether it succeeds, the tree that it leaves, and its output. The request is taken behind the
-- guard `authorize`.
use bellows.Prelude.{
  ℕ, Bool, true, false, not, Option, none, some, List, [], ◌∷◌, if◌then◌else◌, length, ◌%◌, ◌^◌,
}
use bellows.Prelude.Key.{text_key, list_cmp}
use bellows.Prelude.Map.{Map, contains_key, get}
use bellows.Prelude.Sort.{sort_by}
use bellows.Prelude.Text.{Text, text_eq, codes, is_empty}
use bellows.Store.Error.{ok, err}
use bellows.Store.Records.{
  Artifact, StreamArtifact, PlatformIdentity, DeclaredActionRecord, protocol_version,
}
use bellows.Store.Paths.{validate_relative_path}
use bellows.Store.Declared.{validate_output_roots, validate_declared_command}
use bellows.Store.Contents
use bellows.Store.Normalizer
use bellows.Store.Normalizer.{PathNormalizer, normalize_bytes}
use bellows.Store.Contents.{Host, Store, read_blob}
use bellows.Server.Api.{ApiResult, Refusal, refused, answered, ◌>>◌, or_refuse, refuse_if, each}
use bellows.Server.Publish.{check_path}
use bellows.Server.Collect.{Node, collect_outputs, artifact_le, dedup}

pub record ExecuteRequest : Type 0 where
  pub key : Text
  pub name : Text
  pub platform : PlatformIdentity
  pub command : List Text
  pub environment : Map Text Text
  pub inputs : List Artifact
  pub outputs : List Text

pub record ExecuteResponse : Type 0 where
  pub cache_hit : Bool
  pub response : DeclaredActionRecord

abbrev pub forbidden_names : List Text
forbidden_names =
    codes "PATH"
    ∷ codes "HOME"
    ∷ codes "CARGO_HOME"
    ∷ codes "RUSTUP_HOME"
    ∷ codes "RUSTUP_TOOLCHAIN"
    ∷ []

unfoldable pub validate_execution_request : ExecuteRequest → ApiResult (Unit {0})
unfolding validate_output_roots validate_declared_command validate_relative_path get list_cmp
validate_execution_request r = do
  or_refuse Refusal.bad_request (validate_output_roots r.inputs r.outputs)
  or_refuse Refusal.bad_request (validate_declared_command r.command)
  each (λ (a : Artifact). check_path a.file_name) r.inputs
  each check_path r.outputs
  each (λ name. refuse_if (contains_key name r.environment) Refusal.bad_request) forbidden_names

-- What the command comes to: it fails, or leaves in its workspace, a path, a tree, its standard output
-- and error, how long it took and who ran it.
pub data Ran : Type 0 where
  failed : Ran
  finished : Text → (Text → Option Node) → Text → Text → ℕ → Text → Ran

abbrev pub sandbox : Text → PathNormalizer
sandbox workspace = Normalizer.new ((codes "$SANDBOX", workspace) ∷ [])

abbrev pub inputs_there : Host → Store → List Artifact → Bool
inputs_there host s [] = true
inputs_there host s (a ∷ rest) = elim (validate_relative_path a.file_name) [
  | err e ↦ false
  | ok path ↦ elim (read_blob host a.digest s) [
    | err e ↦ false
    | ok bytes ↦ inputs_there host s rest
  ]
]

abbrev pub stream_of : Host → Text → StreamArtifact
stream_of host bytes = record { digest = host.digest_bytes bytes; len = length bytes % 2 ^ 64 }

unfoldable pub record_of :
    Host → ℕ → ExecuteRequest → List Artifact → Text → Text → ℕ → Text → DeclaredActionRecord
record_of host now r outputs stdout stderr duration_ms executor = record {
  protocol = protocol_version;
  key = r.key;
  name = r.name;
  created_ms = now;
  platform = r.platform;
  command = r.command;
  environment = r.environment;
  inputs = r.inputs;
  output_paths = r.outputs;
  outputs = outputs;
  stdout = stream_of host stdout;
  stderr = stream_of host stderr;
  duration_ms = duration_ms;
  executor = executor;
}

-- The part after the outputs were collected.
unfoldable pub publish_run :
    Host
    → ℕ
    → ExecuteRequest
    → List Artifact
    → Text
    → Text
    → ℕ
    → Text
    → Store
    → Store × Option DeclaredActionRecord
unfolding dedup record_of
publish_run host now r collected stdout stderr duration_ms executor s =
    let outputs = dedup (sort_by artifact_le collected) in
    if is_empty outputs
    then (s, none)
    else let first = Contents.put_blob host (host.digest_bytes stdout) stdout now s in
      elim first.1 [
        | err e ↦ (first.0, none)
        | ok a ↦
            let second = Contents.put_blob host (host.digest_bytes stderr) stderr now first.0 in
            elim second.1 [
              | err e ↦ (second.0, none)
              | ok b ↦
                  let new = record_of host now r outputs stdout stderr duration_ms executor in
                  let done = Contents.put_declared host new second.0 in
                  elim done.1 [ err e ↦ (done.0, none) | ok c ↦ (done.0, some new) ]
            ]
      ]

unfoldable pub execute_declared :
    Host → ℕ → ExecuteRequest → Ran → Store → Store × Option DeclaredActionRecord
unfolding collect_outputs publish_run Normalizer.new normalize_bytes
execute_declared host now r failed s = (s, none)
execute_declared host now r (finished workspace tree stdout stderr duration_ms executor) s =
    if not (inputs_there host s r.inputs)
    then (s, none)
    else let collected = collect_outputs host now tree r.outputs s [] in
      elim collected.1 [
        | none ↦ (collected.0, none)
        | some outputs ↦
            publish_run host now r outputs (normalize_bytes stdout (sandbox workspace))
              (normalize_bytes stderr (sandbox workspace)) duration_ms executor collected.0
      ]

-- The guards of `execute`, before the lock of the action's key. `here` tells whether the request's
-- platform is the server's.
unfoldable pub check_execution : Host → Bool → Bool → ExecuteRequest → ApiResult (Unit {0})
unfolding validate_execution_request list_cmp
check_execution host enabled here r = do
  refuse_if (not enabled) Refusal.forbidden
  refuse_if (not here) Refusal.precondition_failed
  refuse_if
      (not (
        text_eq r.key (
          host.digests.declared_action_key r.name r.platform r.command r.environment r.inputs
            r.outputs)))
      Refusal.bad_request
  validate_execution_request r

abbrev pub hit : DeclaredActionRecord → ExecuteResponse
hit r = record { cache_hit = true; response = r }

abbrev pub miss : DeclaredActionRecord → ExecuteResponse
miss r = record { cache_hit = false; response = r }

abbrev pub execution_answer : Option DeclaredActionRecord → ApiResult ExecuteResponse
execution_answer none = refused Refusal.unprocessable_entity
execution_answer (some r) = answered (miss r)

-- Under the lock of the key: a record that is there is the answer, and else the command runs.
unfoldable pub execute_locked :
    Host → ℕ → ExecuteRequest → Ran → Store → Store × ApiResult ExecuteResponse
unfolding execute_declared
execute_locked host now r ran s =
    let found = Contents.read_declared host r.key s in
    elim found.1 [
      | err e ↦ (found.0, refused Refusal.internal)
      | ok (some existing) ↦ (found.0, answered (hit existing))
      | ok none ↦
          let done = execute_declared host now r ran found.0 in (done.0, execution_answer done.1)
    ]

unfoldable pub execute :
    Host → Bool → Bool → ℕ → ExecuteRequest → Ran → Store → Store × ApiResult ExecuteResponse
unfolding check_execution execute_locked
execute host enabled here now r ran s = elim (check_execution host enabled here r) [
  | refused why ↦ (s, refused why)
  | answered u ↦ execute_locked host now r ran s
]
