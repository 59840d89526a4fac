-- ===== src/Store/Manifest.antt =====
-- The checks of candidates and archives: crates/bellows-core/src/lib.rs,
-- `validate_candidate_manifest`, `validate_archive_manifest` and what they call. The digests are
-- parameters: BLAKE3 over the JSON of their arguments.
use bellows.Prelude.{
  Bool, ◌||◌, not, Option, none, some, List, [], ◌∷◌, if◌then◌else◌, length, any, ltb, ◌==◌,
}
use bellows.Prelude.Text.{Text, is_empty, text_eq, contains_byte}
use bellows.Prelude.Key.{text_key, list_cmp}
use bellows.Prelude.Map.{Map}
use bellows.Store.Error.{Error, Result, ok, err, ◌>>=◌, ◌>>◌, fail_if}
use bellows.Store.Keys.{validate_content_key}
use bellows.Store.Records.{
  FileInput, EnvInput, Artifact, ActionCandidate, PlatformIdentity, ArchiveManifest,
  protocol_version, max_candidate_files, max_candidate_env, max_candidate_artifacts,
  max_record_artifacts,
}
use bellows.Store.Paths.{
  validate_normalized_input_path, validate_host_input_path, validate_relative_path,
  validate_archive_name, components,
}

-- `compiler_action_key`, `declared_action_key` and `tree_digest`.
pub record Digests : Type 0 where
  pub compiler_action_key : Text → List FileInput → List FileInput → List EnvInput → Text
  pub declared_action_key :
      Text → PlatformIdentity → List Text → Map Text Text → List Artifact → List Text → Text
  pub tree_digest : List Artifact → Text

-- Inserting into a set that has the element already is the error.
abbrev pub fresh : Error → Text → List Text → Result (List Text)
fresh e x seen = if any (text_eq x) seen then err e else ok (x ∷ seen)

unfoldable pub check_files :
    (Text → Result (Unit {0})) → List FileInput → List Text → Result (List Text)
unfolding validate_content_key list_cmp
check_files path_check [] seen = ok seen
check_files path_check (f ∷ fs) seen = do
  path_check f.path
  validate_content_key f.digest
  seen' ← fresh Error.duplicate_input f.path seen
  check_files path_check fs seen'

abbrev pub bad_name : Text → Bool
bad_name name = is_empty name || ltb 256 (length name)

abbrev pub check_option_key : Option Text → Result (Unit {0})
check_option_key none = ok tt
check_option_key (some digest) = validate_content_key digest

unfoldable pub check_environment : List EnvInput → List Text → Result (List Text)
unfolding validate_content_key contains_byte list_cmp
check_environment [] seen = ok seen
check_environment (i ∷ is) seen = do
  fail_if (bad_name i.name || contains_byte b'=' i.name) Error.environment_name
  seen' ← fresh Error.duplicate_environment i.name seen
  check_option_key i.value_digest
  check_environment is seen'

unfoldable pub check_outputs : List Artifact → List Text → Result (List Text)
unfolding validate_content_key validate_relative_path components list_cmp
check_outputs [] seen = ok seen
check_outputs (a ∷ as') seen = do
  path ← validate_relative_path a.file_name
  fail_if (not (length (components path) == 1)) Error.artifact_name
  validate_content_key a.digest
  seen' ← fresh Error.duplicate_artifact a.file_name seen
  check_outputs as' seen'

unfoldable pub validate_candidate_manifest : Digests → ActionCandidate → Result (Unit {0})
unfolding validate_content_key validate_normalized_input_path validate_host_input_path check_files
    check_environment check_outputs list_cmp
validate_candidate_manifest digests c = do
  fail_if (not (c.protocol == protocol_version)) Error.unsupported_protocol
  validate_content_key c.static_key
  validate_content_key c.action_key
  fail_if (bad_name c.crate_name) Error.crate_name
  fail_if
      (ltb max_candidate_files (length c.files)
        || ltb max_candidate_env (length c.env)
        || ltb max_candidate_artifacts (length c.artifacts))
      Error.cardinality
  paths ← check_files validate_normalized_input_path c.files []
  fail_if
      (ltb max_candidate_files (length c.host_files)
        || ltb max_candidate_env (length c.proc_macros))
      Error.cardinality
  check_files validate_host_input_path c.host_files paths
  fail_if (any bad_name c.proc_macros) Error.proc_macro_name
  check_environment c.env []
  check_outputs c.artifacts []
  validate_content_key c.stdout.digest
  validate_content_key c.stderr.digest
  fail_if
      (not (
        text_eq (digests.compiler_action_key c.static_key c.files c.host_files c.env) c.action_key))
      Error.action_key

unfoldable pub validate_artifacts : List Artifact → List Text → Result (Unit {0})
unfolding validate_relative_path validate_content_key list_cmp
validate_artifacts [] seen = ok tt
validate_artifacts (a ∷ as') seen = do
  validate_relative_path a.file_name
  validate_content_key a.digest
  seen' ← fresh Error.duplicate_artifact a.file_name seen
  validate_artifacts as' seen'

unfoldable pub validate_archive_manifest : Digests → ArchiveManifest → Result (Unit {0})
unfolding validate_archive_name validate_content_key validate_artifacts list_cmp
validate_archive_manifest digests m = do
  fail_if (not (m.protocol == protocol_version)) Error.unsupported_protocol
  validate_archive_name m.name
  validate_content_key m.tree_digest
  check_option_key m.producer_action
  fail_if (ltb max_record_artifacts (length m.files)) Error.archive_count
  validate_artifacts m.files []
  fail_if (not (text_eq (digests.tree_digest m.files) m.tree_digest)) Error.tree_digest
