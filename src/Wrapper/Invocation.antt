-- ===== src/Wrapper/Invocation.antt =====
-- What a rustc command line compiles: crates/bellows-cli/src/main.rs, `Invocation`,
-- `Invocation::analyze`, `expand_response_files`. Arguments are UTF-8; paths are those of a Unix host.
use bellows.Prelude.{
  Bool, true, false, not, Option, none, some, List, [], ◌∷◌, ◌++◌, if◌then◌else◌, any, ◌==◌, ◌&&◌,
  ◌||◌, retain,
}
use bellows.Prelude.Key.{list_cmp, text_key}
use bellows.Prelude.Map.{Map, insert}
use bellows.Prelude.Split.{split_on, split_once}
use bellows.Prelude.Text.{Text, text_eq, codes, is_empty, strip_prefix, starts_with, contains_byte}
use bellows.Gc.Journal.{lines}
use bellows.Wrapper.Naming.{Naming, OutputKind}
use bellows.Wrapper.Options.{multi_option_values}
use bellows.Wrapper.Native.{
  Reason, Checked, unmodeled, modeled, ◌>>=◌, ◌>>◌, unless, required, StaticLibrary,
}

-- What the host knows of paths: whether a file is there, whether anything is, and a file's text.
pub record Disk : Type 0 where
  pub is_file : Text → Bool
  pub is_there : Text → Bool
  pub read_text : Text → Option Text

pub record Invocation : Type 0 where
  pub rustc : Text
  pub args : List Text
  pub crate_name : Text
  pub out_dir : Text
  pub kind : OutputKind
  pub naming : Naming
  pub stems : List Text
  pub expected_names : Map Text (Unit {0})
  pub explicit_inputs : List Text
  pub proc_macros : List Text
  pub incremental : Option Text
  pub unit : Text
  pub proc_macro_crate : Bool
  pub static_libraries : List StaticLibrary
  pub native_search : List Text
  pub response_file : Bool

unfoldable pub expand_response_files : Disk → List Text → Checked (List Text)
unfolding strip_prefix starts_with lines
expand_response_files disk [] = modeled []
expand_response_files disk (arg ∷ args) = elim (strip_prefix (codes "@") arg) [
  | none ↦ expand_response_files disk args >>= λ rest. modeled (arg ∷ rest)
  | some path ↦
      unless (starts_with (codes "shell:") path) Reason.shell_response_file
      >> (required (Reason.unread_response_file path) (disk.read_text path) >>= λ text.
          expand_response_files disk args >>= λ rest. modeled (lines text ++ rest))
]

abbrev pub last_of : Text → List Text → Text
last_of default [] = default
last_of default (x ∷ xs) = last_of x xs

-- `rsplit(':').next()`.
abbrev pub after_colons : Text → Text
after_colons value = last_of value (split_on (λ c. c == b':') value)

-- `Path::file_name`, empty where there is none.
unfoldable pub file_name : Text → Text
unfolding split_on list_cmp
file_name path =
    let name =
      last_of [] (
        retain (λ s. not (is_empty s || text_eq s (codes "."))) (split_on (λ c. c == b'/') path)) in
    if text_eq name (codes "..") then [] else name

-- The last dot of a name, with what stands before and after it.
unfoldable pub last_dot : Text → Option (Text × Text)
last_dot [] = none
last_dot (c ∷ s) = elim (last_dot s) [
  | some (before, after) ↦ some (c ∷ before, after)
  | none ↦ if c == b'.' then some ([], s) else none
]

-- A dot in front is no part of an extension.
abbrev pub stem_and_extension : Text → Option (Text × Text) → Text × Text
stem_and_extension name none = (name, [])
stem_and_extension name (some ([], after)) = (name, [])
stem_and_extension name (some (c ∷ before, after)) = (c ∷ before, after)

unfoldable pub file_parts : Text → Text × Text
unfolding file_name last_dot
file_parts path = stem_and_extension (file_name path) (last_dot (file_name path))

abbrev pub sysroot_crates : List Text
sysroot_crates = codes "proc_macro" ∷ codes "test" ∷ codes "std" ∷ codes "core" ∷ codes "alloc" ∷ []

abbrev pub is_one_of : List Text → Text → Bool
is_one_of words t = any (text_eq t) words

abbrev pub shared_extensions : List Text
shared_extensions = codes "so" ∷ codes "dylib" ∷ codes "dll" ∷ []

-- The artifacts that `--extern` names, and the names of those that rustc loads.
unfoldable pub externs : Disk → List Text → Checked (List Text × List Text)
unfolding split_once split_on file_parts list_cmp
externs disk [] = modeled ([], [])
externs disk (value ∷ values) = elim (split_once b'=' value) [
  | none ↦
      unless (not (is_one_of sysroot_crates (after_colons value))) Reason.extern_without_path
      >> externs disk values
  | some (name, path) ↦
      unless (not (disk.is_file path)) Reason.extern_missing
      >> (externs disk values >>= λ (rest : List Text × List Text). modeled (
        path ∷ rest.0,
        if is_one_of shared_extensions (file_parts path).1
            then after_colons name ∷ rest.1
            else rest.1,
      ))
]

abbrev pub flat_parts : List Text → List Text
flat_parts [] = []
flat_parts (value ∷ values) = split_on (λ c. c == b',') value ++ flat_parts values

abbrev pub bin_alone : List Text
bin_alone = codes "bin" ∷ []

-- A test harness is an executable whatever the crate type.
unfoldable pub crate_types_of : List Text → List Text
unfolding split_on multi_option_values list_cmp
crate_types_of args =
    let declared = multi_option_values args (codes "--crate-type") in
    if is_one_of args (codes "--test") || is_empty declared then bin_alone else flat_parts declared

abbrev pub modeled_crate_types : List Text
modeled_crate_types =
    codes "lib"
    ∷ codes "rlib"
    ∷ codes "bin"
    ∷ codes "cdylib"
    ∷ codes "dylib"
    ∷ codes "proc-macro"
    ∷ []

abbrev pub quotes : Option Text → (Text → Reason) → Checked (Unit {0})
quotes none why = modeled tt
quotes (some value) why = unmodeled (why value)

-- A unit without an extra filename is unique where its name must be predictable.
unfoldable pub extra_filename_of : Bool → Option Text → Checked Text
unfolding contains_byte
extra_filename_of predictable none =
    if predictable then modeled [] else unmodeled Reason.no_extra_filename
extra_filename_of predictable (some extra) =
    unless (is_empty extra || contains_byte b'/' extra || contains_byte b'\\' extra)
      Reason.ambiguous_extra_filename
    >> modeled extra

abbrev pub emitted : List Text
emitted = codes "dep-info" ∷ codes "metadata" ∷ codes "link" ∷ []

abbrev pub only_emit : List Text → Checked Text
only_emit (emit ∷ []) = modeled emit
only_emit _ = unmodeled Reason.unsupported_emit

-- The kinds of output that are asked for.
unfoldable pub emits_of : List Text → Checked (List Text)
unfolding multi_option_values split_on starts_with list_cmp
emits_of args = do
  emit ← only_emit (multi_option_values args (codes "--emit"))
  unless
      (any (λ kind. not (is_one_of emitted kind)) (split_on (λ c. c == b',') emit)
        || any (starts_with (codes "-o")) args)
      Reason.unsupported_emit
  unless (not (is_one_of (split_on (λ c. c == b',') emit) (codes "dep-info"))) Reason.no_dep_info
  modeled (split_on (λ c. c == b',') emit)

abbrev pub insert_if : Bool → Text → Map Text (Unit {0}) → Map Text (Unit {0})
insert_if true name names = insert name tt names
insert_if false name names = names

-- Which kinds of crate a unit is of, for the names of its outputs.
pub record Made : Type 0 where
  pub metadata : Bool
  pub rlib : Bool
  pub executable : Bool
  pub shared : Bool

unfoldable pub made_of : List Text → List Text → Made
unfolding list_cmp
made_of emit types = record {
  metadata = is_one_of emit (codes "metadata");
  rlib =
      is_one_of emit (codes "link")
      && (is_one_of types (codes "lib") || is_one_of types (codes "rlib"));
  executable = is_one_of emit (codes "link") && is_one_of types (codes "bin");
  shared =
      is_one_of emit (codes "link")
      && (is_one_of types (codes "cdylib")
          || is_one_of types (codes "dylib")
          || is_one_of types (codes "proc-macro"));
}

unfoldable pub expected_names_of : Text → Naming → Made → Map Text (Unit {0})
unfolding insert list_cmp
expected_names_of unit naming made =
    insert_if made.shared (naming.dll_prefix ++ (unit ++ naming.dll_suffix)) (
      insert_if made.executable (unit ++ naming.exe_suffix) (
        insert_if made.rlib ((codes "lib" ++ unit) ++ codes ".rlib") (
          insert_if made.metadata ((codes "lib" ++ unit) ++ codes ".rmeta")
            (insert (unit ++ codes ".d") tt []))))

-- `owns`, of stems.
unfoldable pub owns_name : List Text → Text → Bool
unfolding strip_prefix starts_with
owns_name stems file =
    any
      (λ stem. elim (strip_prefix stem file) [
        | none ↦ false
        | some rest ↦ is_empty rest || starts_with (codes ".") rest
      ])
      stems

unfoldable pub owns : Invocation → Text → Bool
unfolding owns_name
owns invocation file = owns_name invocation.stems file
