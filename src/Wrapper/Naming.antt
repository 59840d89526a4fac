-- ===== src/Wrapper/Naming.antt =====
-- File naming of a compilation target: crates/bellows-cli/src/main.rs, `OutputKind`, `Naming`.
use bellows.Prelude.{Bool, false, Option, none, some, [], if◌then◌else◌}
use bellows.Prelude.Text.{Text, codes, contains, starts_with}

pub data OutputKind : Type 0 where
  library : OutputKind
  linked : OutputKind

pub record Naming : Type 0 where
  pub exe_suffix : Text
  pub dll_prefix : Text
  pub dll_suffix : Text
  pub msvc : Bool

-- What the compiler of the wrapper was built for.
pub record Built : Type 0 where
  pub windows : Bool
  pub target_msvc : Bool
  pub apple : Bool

abbrev pub naming_of : Bool → Bool → Bool → Bool → Naming
naming_of windows msvc apple wasm =
    if wasm
    then record {
      exe_suffix = codes ".wasm";
      dll_prefix = [];
      dll_suffix = codes ".wasm";
      msvc = false;
    }
    else if windows
    then record {
      exe_suffix = codes ".exe";
      dll_prefix = [];
      dll_suffix = codes ".dll";
      msvc = msvc;
    }
    else if apple
    then record {
      exe_suffix = [];
      dll_prefix = codes "lib";
      dll_suffix = codes ".dylib";
      msvc = false;
    }
    else record {
      exe_suffix = [];
      dll_prefix = codes "lib";
      dll_suffix = codes ".so";
      msvc = false;
    }

unfoldable pub for_target : Built → Option Text → Naming
unfolding contains starts_with
for_target built none = naming_of built.windows built.target_msvc built.apple false
for_target built (some triple) =
    naming_of (contains (codes "windows") triple) (contains (codes "msvc") triple)
      (contains (codes "apple") triple) (starts_with (codes "wasm") triple)
