-- ===== src/Store/Records.antt =====
-- The records of the content store: crates/bellows-core/src/lib.rs, the types that are stored as
-- JSON, and their limits.
use bellows.Prelude.{ℕ, Option, Bool, List}
use bellows.Prelude.Map.{Map}
use bellows.Prelude.Text.{Text}

abbrev pub protocol_version : ℕ
protocol_version = 6

abbrev pub content_key_len : ℕ
content_key_len = 64

abbrev pub max_candidate_files : ℕ
max_candidate_files = 100000

abbrev pub max_candidate_env : ℕ
max_candidate_env = 4096

abbrev pub max_candidate_artifacts : ℕ
max_candidate_artifacts = 16

abbrev pub max_record_artifacts : ℕ
max_record_artifacts = 100000

abbrev pub max_record_env : ℕ
max_record_env = 4096

pub record FileInput : Type 0 where
  pub path : Text
  pub digest : Text

pub record EnvInput : Type 0 where
  pub name : Text
  pub value_digest : Option Text
  pub normalized : Bool

pub record Artifact : Type 0 where
  pub file_name : Text
  pub digest : Text
  pub executable : Bool

pub record StreamArtifact : Type 0 where
  pub digest : Text
  pub len : ℕ

pub record ActionCandidate : Type 0 where
  pub protocol : ℕ
  pub static_key : Text
  pub action_key : Text
  pub crate_name : Text
  pub created_ms : ℕ
  pub files : List FileInput
  pub host_files : List FileInput
  pub env : List EnvInput
  pub artifacts : List Artifact
  pub stdout : StreamArtifact
  pub stderr : StreamArtifact
  pub proc_macros : List Text

pub record CandidateIndex : Type 0 where
  pub candidates : List ActionCandidate

pub record PlatformIdentity : Type 0 where
  pub rustc : Text
  pub cargo : Text
  pub os : Text
  pub arch : Text
  pub path_digest : Text
  pub rustup_home_digest : Text
  pub rustup_toolchain : Option Text
  pub host_cc : Option Text
  pub host_ld : Option Text
  pub host_ar : Option Text

pub record DeclaredActionRecord : Type 0 where
  pub protocol : ℕ
  pub key : Text
  pub name : Text
  pub created_ms : ℕ
  pub platform : PlatformIdentity
  pub command : List Text
  pub environment : Map Text Text
  pub inputs : List Artifact
  pub output_paths : List Text
  pub outputs : List Artifact
  pub stdout : StreamArtifact
  pub stderr : StreamArtifact
  pub duration_ms : ℕ
  pub executor : Text

pub record ArchiveManifest : Type 0 where
  pub protocol : ℕ
  pub name : Text
  pub tree_digest : Text
  pub created_ms : ℕ
  pub producer_action : Option Text
  pub files : List Artifact
