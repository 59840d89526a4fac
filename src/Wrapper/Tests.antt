-- ===== src/Wrapper/Tests.antt =====
-- Command lines that the options of crates/bellows-cli/src/main.rs are read from, and the theorems
-- on them.
use bellows.Prelude.{some, List, [], ◌∷◌, ◌≡◌, refl, true, false}
use bellows.Prelude.Key.{list_cmp}
use bellows.Prelude.Text.{Text, codes, strip_prefix, contains, starts_with}
use bellows.Wrapper.Options.{
  find_map, value_at, option_value, codegen_value_at, codegen_value, unmodeled_unstable_flag,
  unstable_at,
}
use bellows.Wrapper.Naming.{for_target}
use bellows.Wrapper.Naming.{Built}
use bellows.Wrapper.Native.{Reason, unmodeled, modeled}
use bellows.Wrapper.Invocation.{Disk, Invocation, owns, file_parts}
use bellows.Wrapper.Analyze.{analyze, invocation_of}
use bellows.Wrapper.Owned.{analyze-owns}
use bellows.Prelude.Map.{get}
use bellows.Prelude.Text.{text_eq}

abbrev command_line : List Text
command_line =
    codes "--crate-name"
    ∷ codes "demo"
    ∷ codes "-Copt-level=3"
    ∷ codes "-C"
    ∷ codes "metadata=ab"
    ∷ codes "--emit=link"
    ∷ codes "-Zthreads=8"
    ∷ codes "-Z"
    ∷ codes "location-detail=none"
    ∷ []

reads_name : option_value command_line (codes "--crate-name") ≡ some (codes "demo")
unfolding option_value find_map value_at strip_prefix list_cmp
reads_name = refl

reads_metadata : codegen_value command_line (codes "metadata") ≡ some (codes "ab")
unfolding codegen_value find_map codegen_value_at strip_prefix list_cmp
reads_metadata = refl

refuses_flag : unmodeled_unstable_flag command_line ≡ some (codes "location-detail")
unfolding unmodeled_unstable_flag find_map unstable_at strip_prefix list_cmp
refuses_flag = refl

names_windows :
    (for_target
      (record { windows = false; target_msvc = false; apple = true })
      (some (codes "x86_64-pc-windows-msvc"))).msvc
    ≡ true
unfolding for_target contains starts_with
names_windows = refl

-- A build of a library for Linux, with its arguments in a response file.
abbrev linux : Built
linux = record { windows = false; target_msvc = false; apple = false }

abbrev library_line : List Text
library_line =
    codes "--crate-name"
    ∷ codes "demo"
    ∷ codes "--crate-type=lib,cdylib"
    ∷ codes "src/lib.rs"
    ∷ codes "--emit=dep-info,link"
    ∷ codes "--out-dir=out"
    ∷ codes "-Cextra-filename=-ab"
    ∷ codes "--extern=std"
    ∷ codes "-L"
    ∷ codes "native=lib"
    ∷ codes "-lstatic=z"
    ∷ []

abbrev disk : Disk
disk = record {
  is_file = λ path. false;
  is_there = text_eq (codes "src/lib.rs");
  read_text = λ path. some (codes "--crate-name");
}

abbrev demo : Invocation
demo =
    invocation_of linux (codes "/bin/rustc") false library_line (codes "demo") (codes "-ab")
      (codes "lib" ∷ [], record { name = codes "z"; verbatim = false } ∷ []) (codes "out")
      (codes "src/lib.rs") ([], []) (codes "dep-info" ∷ codes "link" ∷ [])

analyzed : analyze linux disk (codes "/bin/rustc" ∷ library_line) ≡ modeled demo
unfolding analyze
analyzed = refl

analyze-owns_example : owns demo (codes "libdemo-ab.so") ≡ true
unfolding invocation_of get
analyze-owns_example =
    analyze-owns linux disk (codes "/bin/rustc" ∷ library_line) demo (codes "libdemo-ab.so")
      analyzed refl

refusals :
    (analyze linux disk [] ≡ unmodeled Reason.no_executable)
    × (analyze linux disk (codes "rustc" ∷ codes "-vV" ∷ []) ≡ unmodeled Reason.probe)
    × (analyze linux disk (codes "rustc" ∷ codes "@a" ∷ []) ≡ unmodeled Reason.no_crate_name)
    × (analyze linux disk (codes "rustc" ∷ codes "@shell:a" ∷ [])
        ≡ unmodeled Reason.shell_response_file)
    × (analyze linux disk (codes "clippy-driver" ∷ library_line)
        ≡ unmodeled (Reason.driver (codes "clippy-driver")))
unfolding analyze
refusals = (refl, refl, refl, refl, refl)

name_parts :
    (file_parts (codes "/a/rustc-1.90.x") ≡ (codes "rustc-1.90", codes "x"))
    × (file_parts (codes "/a/.rc") ≡ (codes ".rc", []))
unfolding file_parts
name_parts = (refl, refl)
