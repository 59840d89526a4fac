-- ===== src/Wrapper/Analyze.antt =====
-- The analysis of a rustc command line, check by check: crates/bellows-cli/src/main.rs,
-- `Invocation::analyze`.
use bellows.Prelude.{
  Bool, true, false, not, Option, none, some, List, [], ◌∷◌, ◌++◌, any, find, ◌&&◌, ◌||◌, is_some,
}
use bellows.Prelude.Key.{list_cmp, text_key}
use bellows.Prelude.Text.{Text, text_eq, codes, starts_with}
use bellows.Gc.Index.{ends_with}
use bellows.Wrapper.Naming.{Built, OutputKind, for_target}
use bellows.Wrapper.Options.{
  option_value, multi_option_values, codegen_values, codegen_value, unmodeled_unstable_flag,
  has_unmodeled_codegen_inputs,
}
use bellows.Wrapper.Native.{
  Reason, Checked, unmodeled, modeled, ◌>>=◌, ◌>>◌, unless, required, StaticLibrary, native_inputs,
}
use bellows.Wrapper.Invocation.{
  Disk, Invocation, expand_response_files, is_one_of, crate_types_of, modeled_crate_types, quotes,
  extra_filename_of, emits_of, externs, Made, made_of, expected_names_of, file_parts,
}

abbrev pub is_probe : Text → Bool
is_probe arg =
    text_eq arg (codes "-vV") || starts_with (codes "--print") arg || text_eq arg (codes "-")

abbrev pub is_specification : Disk → Option Text → Bool
is_specification disk none = false
is_specification disk (some target) = ends_with (codes ".json") target || disk.is_file target

abbrev pub is_native : Option Text → Bool
is_native none = false
is_native (some cpu) = text_eq cpu (codes "native")

abbrev pub saves_temporaries : Text → Bool
saves_temporaries value =
    text_eq value (codes "save-temps") || starts_with (codes "save-temps=") value

-- The checks of flags, before anything is read off the command line.
unfoldable pub check_flags : Disk → List Text → Checked (Unit {0})
unfolding option_value codegen_value codegen_values unmodeled_unstable_flag ends_with starts_with
    list_cmp
check_flags disk args = do
  unless (is_some (option_value args (codes "--sysroot"))) Reason.sysroot
  unless (is_specification disk (option_value args (codes "--target"))) Reason.target_specification
  unless (is_native (codegen_value args (codes "target-cpu"))) Reason.native_cpu
  unless (any saves_temporaries (codegen_values args)) Reason.temporaries
  quotes (unmodeled_unstable_flag args) Reason.unstable_flag

-- The first argument that is a Rust source there.
unfoldable pub source_of : Disk → List Text → Option Text
unfolding ends_with
source_of disk args = find (λ arg. ends_with (codes ".rs") arg && disk.is_there arg) args

abbrev pub kind_of : Bool → OutputKind
kind_of true = OutputKind.linked
kind_of false = OutputKind.library

abbrev pub is_rustc : Text → Bool
is_rustc driver = text_eq driver (codes "rustc") || starts_with (codes "rustc-") driver

-- Linked outputs are modelled of rustc itself only.
unfoldable pub check_driver : Text → Bool → Checked (Unit {0})
unfolding file_parts starts_with list_cmp
check_driver rustc linked =
    unless (linked && not (is_rustc (file_parts rustc).0)) (Reason.driver (file_parts rustc).0)

abbrev pub predictable : List Text → Bool
predictable types =
    is_one_of types (codes "bin")
    || is_one_of types (codes "cdylib")
    || is_one_of types (codes "dylib")

abbrev pub links : Made → Bool
links made = made.executable || made.shared

-- What is known of the unit in the end.
unfoldable pub invocation_of :
    Built
    → Text
    → Bool
    → List Text
    → Text
    → Text
    → List Text × List StaticLibrary
    → Text
    → Text
    → List Text × List Text
    → List Text
    → Invocation
unfolding option_value codegen_value crate_types_of for_target made_of expected_names_of list_cmp
invocation_of built rustc response_file args crate_name extra native out_dir source inputs emit =
    record {
      rustc = rustc;
      args = args;
      crate_name = crate_name;
      out_dir = out_dir;
      kind = kind_of (links (made_of emit (crate_types_of args)));
      naming = for_target built (option_value args (codes "--target"));
      stems = (crate_name ++ extra) ∷ (codes "lib" ++ (crate_name ++ extra)) ∷ [];
      expected_names =
          expected_names_of (crate_name ++ extra)
            (for_target built (option_value args (codes "--target")))
            (made_of emit (crate_types_of args));
      explicit_inputs = source ∷ inputs.0;
      proc_macros = inputs.1;
      incremental = codegen_value args (codes "incremental");
      unit = crate_name ++ extra;
      proc_macro_crate = is_one_of (crate_types_of args) (codes "proc-macro");
      static_libraries = native.1;
      native_search = native.0;
      response_file = response_file;
    }

unfoldable pub analyze_args : Built → Disk → Text → Bool → List Text → Checked Invocation
unfolding check_flags option_value crate_types_of codegen_value native_inputs extra_filename_of
    source_of multi_option_values externs emits_of made_of has_unmodeled_codegen_inputs check_driver
    invocation_of list_cmp
analyze_args built disk rustc response_file args = do
  check_flags disk args
  crate_name ← required Reason.no_crate_name (option_value args (codes "--crate-name"))
  quotes (find (λ kind. not (is_one_of modeled_crate_types kind)) (crate_types_of args))
      Reason.crate_type
  native ← native_inputs args
  out_dir ← required Reason.no_out_dir (option_value args (codes "--out-dir"))
  extra ←
      extra_filename_of (predictable (crate_types_of args))
        (codegen_value args (codes "extra-filename"))
  source ← required Reason.no_source (source_of disk args)
  inputs ← externs disk (multi_option_values args (codes "--extern"))
  emit ← emits_of args
  unless (has_unmodeled_codegen_inputs args) Reason.codegen_inputs
  check_driver rustc (links (made_of emit (crate_types_of args)))
  modeled (
      invocation_of built rustc response_file args crate_name extra native out_dir source inputs
        emit)

unfoldable pub analyze : Built → Disk → List Text → Checked Invocation
unfolding expand_response_files analyze_args starts_with list_cmp
analyze built disk [] = unmodeled Reason.no_executable
analyze built disk (rustc ∷ raw) = do
  unless (any is_probe raw) Reason.probe
  args ← expand_response_files disk raw
  analyze_args built disk rustc (any (starts_with (codes "@")) raw) args
