-- ===== src/Wrapper/Owned.antt =====
-- The outputs that a compile is expected to write are its own: crates/bellows-cli/src/main.rs,
-- `Invocation::analyze` and `owns`.
use bellows.Prelude.{
  ◌≡◌, ◌⊎◌, refl, sym, Bool, true, false, Option, none, some, List, [], ◌∷◌, ◌++◌, ◌||◌, arith, inl,
  inr, is_some, Bool-cases, not, find, any,
}
use mathlib.Core.List.{append_assoc}
use bellows.Prelude.Key.{text_key, same_iff}
use bellows.Prelude.Map.{Map, get, get-insert}
use bellows.Prelude.Text.{
  Text, text_eq, codes, is_empty, strip_prefix, starts_with, contains, strip_prefix-append,
}
use bellows.Wrapper.Naming.{Built, Naming, for_target, naming_of}
use bellows.Wrapper.Native.{
  Reason, Checked, unmodeled, modeled, ◌>>=◌, unless, required, native_inputs, StaticLibrary,
}
use bellows.Wrapper.Invocation.{
  Disk, Invocation, insert_if, Made, expected_names_of, owns_name, owns, expand_response_files,
  crate_types_of, modeled_crate_types, is_one_of, quotes, extra_filename_of, externs, emits_of,
  made_of,
}
use bellows.Wrapper.Analyze.{
  analyze, analyze_args, check_flags, source_of, check_driver, predictable, is_probe, links,
  invocation_of,
}
use bellows.Wrapper.Options.{
  option_value, multi_option_values, codegen_value, has_unmodeled_codegen_inputs,
}

-- What may follow a stem.
abbrev is_end : Text → Bool
is_end rest = is_empty rest || starts_with (codes ".") rest

module _ (unit : Text) where
  stems : List Text
  stems = unit ∷ (codes "lib" ++ unit) ∷ []

  owns-unit : (rest : Text) → is_end rest ≡ true → owns_name stems (unit ++ rest) ≡ true
  unfolding stems owns_name
  owns-unit rest e = rw (strip_prefix-append unit rest) (ground (arith, e))

  owns-library :
      (rest : Text) → is_end rest ≡ true → owns_name stems ((codes "lib" ++ unit) ++ rest) ≡ true
  unfolding stems owns_name
  owns-library rest e =
      let s : strip_prefix (codes "lib" ++ unit) ((codes "lib" ++ unit) ++ rest) ≡ some rest =
        strip_prefix-append (codes "lib" ++ unit) rest in
      ground (arith, e, s)

  -- Every name in the set is owned.
  Owned : Map Text (Unit {0}) → Type 0
  Owned names = (file : Text) → is_some (get file names) ≡ true → owns_name stems file ≡ true

  Owned-insert_if :
      (b : Bool) (name : Text) (names : Map Text (Unit {0}))
      → owns_name stems name ≡ true
      → Owned names
      → Owned (insert_if b name names)
  unfolding Owned
  Owned-insert_if false name names o all file e = all file e
  Owned-insert_if true name names o all file e = elim (Bool-cases (text_eq file name)) [
    | inl here ↦ rw ((same_iff file name).0 here) o
    | inr elsewhere ↦ all file (ground (arith, e, get-insert name file tt names, elsewhere))
  ]

  -- The suffixes of executables and shared objects begin with a dot, or are none, and the prefix of
  -- shared objects is none or the one of libraries.
  IsNaming : Naming → Type 0
  IsNaming n =
      (is_end n.exe_suffix ≡ true)
      × (is_end n.dll_suffix ≡ true)
      × ((n.dll_prefix ≡ []) ⊎ (n.dll_prefix ≡ codes "lib"))

  Owned-nil : Owned []
  unfolding Owned get
  Owned-nil file e = absurd (cc)

  owns-shared :
      (prefix suffix : Text)
      → is_end suffix ≡ true
      → (prefix ≡ []) ⊎ (prefix ≡ codes "lib")
      → owns_name stems (prefix ++ (unit ++ suffix)) ≡ true
  owns-shared prefix suffix e (inl none_there) = rw none_there (owns-unit suffix e)
  owns-shared prefix suffix e (inr lib) =
      rw lib (rw (sym (append_assoc (codes "lib") unit suffix)) (owns-library suffix e))

  expected-Owned : (n : Naming) (made : Made) → IsNaming n → Owned (expected_names_of unit n made)
  unfolding expected_names_of IsNaming starts_with
  expected-Owned n made (exe, dll, prefix) =
      Owned-insert_if made.shared (n.dll_prefix ++ (unit ++ n.dll_suffix)) _
        (owns-shared n.dll_prefix n.dll_suffix dll prefix)
        (Owned-insert_if made.executable (unit ++ n.exe_suffix) _ (owns-unit n.exe_suffix exe) (
          Owned-insert_if made.rlib ((codes "lib" ++ unit) ++ codes ".rlib") _
            (owns-library (codes ".rlib") refl)
            (Owned-insert_if made.metadata ((codes "lib" ++ unit) ++ codes ".rmeta") _
              (owns-library (codes ".rmeta") refl)
              (Owned-insert_if true (unit ++ codes ".d") [] (owns-unit (codes ".d") refl)
                Owned-nil))))

naming_of-IsNaming :
    (unit : Text) (windows msvc apple wasm : Bool)
    → IsNaming unit (naming_of windows msvc apple wasm)
unfolding IsNaming starts_with
naming_of-IsNaming unit windows msvc apple true = (refl, refl, inl refl)
naming_of-IsNaming unit true msvc apple false = (refl, refl, inl refl)
naming_of-IsNaming unit false msvc true false = (refl, refl, inr refl)
naming_of-IsNaming unit false msvc false false = (refl, refl, inr refl)

for_target-IsNaming :
    (unit : Text) (built : Built) (target : Option Text) → IsNaming unit (for_target built target)
unfolding for_target
for_target-IsNaming unit built none =
    naming_of-IsNaming unit built.windows built.target_msvc built.apple false
for_target-IsNaming unit built (some triple) =
    naming_of-IsNaming unit (contains (codes "windows") triple) (contains (codes "msvc") triple)
      (contains (codes "apple") triple) (starts_with (codes "wasm") triple)

-- What is promised of an analysis.
OwnsAll : Checked Invocation → Type 0
OwnsAll (unmodeled why) = Unit {0}
OwnsAll (modeled i) =
    (file : Text) → is_some (get file i.expected_names) ≡ true → owns i file ≡ true

bind-OwnsAll {ℓ} :
    {A : Type ℓ} (r : Checked A) (f : A → Checked Invocation)
    → ((a : A) → OwnsAll (f a))
    → OwnsAll (r >>= f)
unfolding OwnsAll
bind-OwnsAll (unmodeled why) f all = tt
bind-OwnsAll (modeled a) f all = all a

invocation_of-OwnsAll :
    (built : Built) (rustc : Text) (response_file : Bool) (args : List Text)
    (crate_name extra : Text) (native : List Text × List StaticLibrary) (out_dir source : Text)
    (inputs : List Text × List Text) (emit : List Text)
    → OwnsAll (
        modeled (
          invocation_of built rustc response_file args crate_name extra native out_dir source inputs
            emit))
unfolding OwnsAll invocation_of Owned owns stems
invocation_of-OwnsAll built rustc response_file args crate_name extra native out_dir source inputs
      emit =
    let target = option_value args (codes "--target") in
    expected-Owned (crate_name ++ extra) (for_target built target)
      (made_of emit (crate_types_of args)) (for_target-IsNaming (crate_name ++ extra) built target)

unmodeled-OwnsAll : (why : Reason) → OwnsAll (unmodeled why)
unfolding OwnsAll
unmodeled-OwnsAll why = tt

analyze_args-OwnsAll :
    (built : Built) (disk : Disk) (rustc : Text) (response_file : Bool) (args : List Text)
    → OwnsAll (analyze_args built disk rustc response_file args)
unfolding analyze_args
analyze_args-OwnsAll built disk rustc response_file args =
    let types = crate_types_of args in
    bind-OwnsAll (check_flags disk args) _ (λ flags.
      bind-OwnsAll (required Reason.no_crate_name (option_value args (codes "--crate-name"))) _
        (λ crate_name.
          bind-OwnsAll
            (quotes (find (λ kind. not (is_one_of modeled_crate_types kind)) types)
              Reason.crate_type)
            _
            (λ checked. bind-OwnsAll (native_inputs args) _ (λ native.
              bind-OwnsAll (required Reason.no_out_dir (option_value args (codes "--out-dir"))) _
                (λ out_dir.
                  bind-OwnsAll
                    (extra_filename_of (predictable types)
                      (codegen_value args (codes "extra-filename")))
                    _
                    (λ extra.
                      bind-OwnsAll (required Reason.no_source (source_of disk args)) _ (λ source.
                        bind-OwnsAll (externs disk (multi_option_values args (codes "--extern"))) _
                          (λ inputs. bind-OwnsAll (emits_of args) _ (λ emit.
                            bind-OwnsAll
                              (unless (has_unmodeled_codegen_inputs args) Reason.codegen_inputs) _
                              (λ codegen.
                                bind-OwnsAll (check_driver rustc (links (made_of emit types))) _
                                  (λ driver.
                                    invocation_of-OwnsAll built rustc response_file args crate_name
                                      extra native out_dir source inputs emit)))))))))))

analyze-OwnsAll : (built : Built) (disk : Disk) (raw : List Text) → OwnsAll (analyze built disk raw)
unfolding analyze
analyze-OwnsAll built disk [] = unmodeled-OwnsAll Reason.no_executable
analyze-OwnsAll built disk (rustc ∷ raw) =
    bind-OwnsAll (unless (any is_probe raw) Reason.probe) _ (λ u.
      bind-OwnsAll (expand_response_files disk raw) _
        (λ args. analyze_args-OwnsAll built disk rustc _ args))

owned_of :
    (r : Checked Invocation) (i : Invocation) (file : Text)
    → OwnsAll r
    → r ≡ modeled i
    → is_some (get file i.expected_names) ≡ true
    → owns i file ≡ true
unfolding OwnsAll
owned_of r i file all e there = (rw e at all) file there

-- Every output that an analyzed command line is expected to write has a name that the unit owns,
-- whatever the target's prefixes and suffixes are.
pub analyze-owns :
    (built : Built) (disk : Disk) (raw : List Text) (i : Invocation) (file : Text)
    → analyze built disk raw ≡ modeled i
    → is_some (get file i.expected_names) ≡ true
    → owns i file ≡ true
analyze-owns built disk raw i file e there =
    owned_of (analyze built disk raw) i file (analyze-OwnsAll built disk raw) e there
