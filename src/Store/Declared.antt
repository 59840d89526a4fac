-- ===== src/Store/Declared.antt =====
-- The checks of declared actions: crates/bellows-core/src/lib.rs, `validate_declared_record`,
-- `validate_output_roots`, `validate_platform_identity`, `validate_declared_command`.
use bellows.Prelude.{
  Bool, false, ◌&&◌, ◌||◌, not, Option, none, some, List, [], ◌∷◌, length, any, all, ltb, ◌==◌,
}
use bellows.Prelude.Text.{Text, codes, is_empty, text_eq, contains_byte}
use bellows.Prelude.Key.{text_key, list_cmp}
use bellows.Prelude.Split.{split_once}
use bellows.Store.Error.{Error, Result, ok, err, ◌>>=◌, ◌>>◌, fail_if, each}
use bellows.Store.Keys.{validate_content_key}
use bellows.Store.Records.{
  Artifact, PlatformIdentity, DeclaredActionRecord, protocol_version, max_record_artifacts,
  max_record_env,
}
use bellows.Store.Paths.{
  validate_relative_path, segments, dot_dot, path_starts_with, relative_path_is_within,
  starts_slash, starts_unc, starts_separator,
}
use bellows.Store.Manifest.{Digests, fresh, bad_name, validate_artifacts}

-- Output replacement must never delete a declared input.
abbrev pub check_overlap : Text → Artifact → Result (Unit {0})
check_overlap output a = do
  path ← validate_relative_path a.file_name
  fail_if (path_starts_with path output || path_starts_with output path) Error.output_overlap

abbrev pub check_output_root : List Artifact → Text → Result (Unit {0})
check_output_root inputs o = do
  output ← validate_relative_path o
  fail_if (path_starts_with output (codes ".bellows")) Error.output_in_state
  each (check_overlap output) inputs

unfoldable pub validate_output_roots : List Artifact → List Text → Result (Unit {0})
unfolding validate_relative_path path_starts_with
validate_output_roots inputs outputs = each (check_output_root inputs) outputs

abbrev pub bad_platform_field : Text → Bool
bad_platform_field v = is_empty v || ltb 65536 (length v) || contains_byte 0 v

abbrev pub bad_platform_option : Option Text → Bool
bad_platform_option none = false
bad_platform_option (some v) = bad_platform_field v

unfoldable pub validate_platform_identity : PlatformIdentity → Result (Unit {0})
unfolding contains_byte validate_content_key
validate_platform_identity p = do
  fail_if (any bad_platform_field (p.rustc ∷ p.cargo ∷ p.os ∷ p.arch ∷ [])) Error.platform_field
  fail_if (any bad_platform_option (p.rustup_toolchain ∷ p.host_cc ∷ p.host_ld ∷ p.host_ar ∷ []))
      Error.platform_field
  validate_content_key p.path_digest
  validate_content_key p.rustup_home_digest

-- The value behind the first `=`, or the whole argument.
unfoldable pub payload_of : Text → Text
unfolding split_once
payload_of argument = elim (split_once b'=' argument) [
  | none ↦ argument
  | some (name, value) ↦ value
]

abbrev pub second_is_colon : Text → Bool
second_is_colon (a ∷ b ∷ s) = b == b':'
second_is_colon _ = false

unfoldable pub escapes : Text → Bool
unfolding payload_of segments list_cmp
escapes argument =
    starts_slash (payload_of argument)
    || starts_separator (payload_of argument)
    || (second_is_colon (payload_of argument) || starts_unc (payload_of argument))
    || any (λ s. text_eq s dot_dot) (segments (payload_of argument))

unfoldable pub validate_declared_command : List Text → Result (Unit {0})
unfolding escapes list_cmp
validate_declared_command [] = err Error.command_empty
validate_declared_command (program ∷ arguments) = do
  fail_if
      (ltb 4096 (length (program ∷ arguments))
        || any (λ a. ltb 65536 (length a)) (program ∷ arguments))
      Error.command_size
  fail_if (not (text_eq program (codes "cargo") || text_eq program (codes "rustc")))
      Error.command_program
  fail_if
      (text_eq program (codes "cargo")
        && (not (any (λ a. text_eq a (codes "--locked")) (program ∷ arguments))
            || not (any (λ a. text_eq a (codes "--offline")) (program ∷ arguments))))
      Error.command_flags
  fail_if (any escapes arguments) Error.command_escape

abbrev pub bad_entry : Text × Text → Bool
bad_entry (name, value) = bad_name name || contains_byte b'=' name || ltb 1048576 (length value)

unfoldable pub check_output_paths : List Text → List Text → Result (Unit {0})
unfolding validate_relative_path list_cmp
check_output_paths [] seen = ok tt
check_output_paths (o ∷ os) seen = do
  validate_relative_path o
  seen' ← fresh Error.duplicate_output o seen
  check_output_paths os seen'

abbrev pub is_covered : List Text → Artifact → Bool
is_covered roots a = any (relative_path_is_within a.file_name) roots

unfoldable pub validate_declared_record : Digests → DeclaredActionRecord → Result (Unit {0})
unfolding validate_output_roots validate_content_key validate_platform_identity
    validate_declared_command validate_artifacts check_output_paths relative_path_is_within
    contains_byte list_cmp
validate_declared_record digests r = do
  validate_output_roots r.inputs r.output_paths
  fail_if (not (r.protocol == protocol_version)) Error.unsupported_protocol
  validate_content_key r.key
  fail_if (bad_name r.name) Error.declared_name
  validate_platform_identity r.platform
  validate_declared_command r.command
  fail_if
      (ltb max_record_env (length r.environment)
        || ltb max_record_artifacts (length r.inputs)
        || ltb max_record_artifacts (length r.output_paths)
        || ltb max_record_artifacts (length r.outputs))
      Error.cardinality
  fail_if (any bad_entry r.environment) Error.environment_entry
  validate_artifacts r.inputs []
  validate_artifacts r.outputs []
  check_output_paths r.output_paths []
  fail_if (not (all (is_covered r.output_paths) r.outputs)) Error.outside_roots
  validate_content_key r.stdout.digest
  validate_content_key r.stderr.digest
  fail_if (is_empty r.executor || ltb 1024 (length r.executor)) Error.executor
  fail_if
      (not (
        text_eq
          (digests.declared_action_key r.name r.platform r.command r.environment r.inputs
            r.output_paths)
          r.key))
      Error.declared_key
