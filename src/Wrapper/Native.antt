-- ===== src/Wrapper/Native.antt =====
-- Why a compile is left alone, and the native inputs of one that is not: crates/bellows-cli/src/main.rs,
-- the errors of `Invocation::analyze`, `native_inputs`.
use bellows.Prelude.{
  Bool, true, false, Option, none, some, List, [], ◌∷◌, if◌then◌else◌, any, ◌==◌, ◌||◌,
}
use bellows.Prelude.Key.{list_cmp}
use bellows.Prelude.Split.{split_on, split_once}
use bellows.Prelude.Text.{Text, text_eq, codes, is_empty, strip_prefix}
use bellows.Wrapper.Options.{head?, or_empty, onto_option}

-- The messages, each with the value that it quotes.
pub data Reason : Type 0 where
  no_executable : Reason
  probe : Reason
  shell_response_file : Reason
  unread_response_file : Text → Reason
  sysroot : Reason
  target_specification : Reason
  native_cpu : Reason
  temporaries : Reason
  unstable_flag : Text → Reason
  no_crate_name : Reason
  crate_type : Text → Reason
  search_path : Text → Reason
  native_library : Text → Reason
  no_out_dir : Reason
  ambiguous_extra_filename : Reason
  no_extra_filename : Reason
  no_source : Reason
  extern_without_path : Reason
  extern_missing : Reason
  unsupported_emit : Reason
  no_dep_info : Reason
  codegen_inputs : Reason
  driver : Text → Reason

pub data Checked {ℓ} (Value : Type ℓ) : Type ℓ where
  unmodeled : Reason → Checked Value
  modeled : Value → Checked Value

infixl 5 ◌>>=◌ ◌>>◌
abbrev pub ◌>>=◌ {ℓ κ} :
    {Value : Type ℓ} {Next : Type κ} → Checked Value → (Value → Checked Next) → Checked Next
◌>>=◌ r next = elim r [ unmodeled why ↦ unmodeled why | modeled value ↦ next value ]

abbrev pub ◌>>◌ {ℓ κ} :
    {Value : Type ℓ} {Next : Type κ} → Checked Value → Checked Next → Checked Next
◌>>◌ r next = r >>= λ (ignored : _). next

abbrev pub unless : Bool → Reason → Checked (Unit {0})
unless true why = unmodeled why
unless false why = modeled tt

abbrev pub required {ℓ} : {A : Type ℓ} → Reason → Option A → Checked A
required why none = unmodeled why
required why (some a) = modeled a

pub record StaticLibrary : Type 0 where
  pub name : Text
  pub verbatim : Bool

-- What one argument gives for a flag: the next argument, or what is joined to it.
abbrev pub unless_empty : Option Text → Option Text
unless_empty none = none
unless_empty (some value) = if is_empty value then none else some value

unfoldable pub flag_value : Text → Text → List Text → Option Text
unfolding strip_prefix list_cmp
flag_value flag arg next =
    if text_eq arg flag then head? next else unless_empty (strip_prefix flag arg)

abbrev pub onto : Bool → Option Text → List (Bool × Text) → List (Bool × Text)
onto is_search none later = later
onto is_search (some value) later = (is_search, value) ∷ later

-- The values of `-L`, marked true, and of `-l`.
unfoldable pub native_values : List Text → List (Bool × Text)
unfolding flag_value
native_values [] = []
native_values (arg ∷ args) =
    onto true (flag_value (codes "-L") arg args)
      (onto false (flag_value (codes "-l") arg args) (native_values args))

-- A search path, or none where it is one of dependencies.
unfoldable pub search_of : Text → Checked (Option Text)
unfolding split_once list_cmp
search_of value = elim (split_once b'=' value) [
  | none ↦ unmodeled (Reason.search_path value)
  | some (kind, path) ↦
      if text_eq kind (codes "dependency")
      then modeled none
      else if text_eq kind (codes "native") || text_eq kind (codes "framework")
      then modeled (some path)
      else unmodeled (Reason.search_path value)
]

abbrev pub or_dylib : Text → Option (Text × Text) → Text × Text
or_dylib value none = (codes "dylib", value)
or_dylib value (some split) = split

abbrev pub or_no_modifiers : Text → Option (Text × Text) → Text × Text
or_no_modifiers kind none = (kind, [])
or_no_modifiers kind (some split) = split

abbrev pub has_part : Text → Text → Bool
has_part part list = any (text_eq part) (split_on (λ c. c == b',') list)

abbrev pub static_library : Text → Text → Option StaticLibrary
static_library modifiers name =
    if has_part (codes "-bundle") modifiers
    then none
    else some (record { name = name; verbatim = has_part (codes "+verbatim") modifiers })

-- A library that rustc bundles, or none where it does not.
unfoldable pub library_of : Text → Checked (Option StaticLibrary)
unfolding split_once split_on list_cmp
library_of value =
    let (kinds, names) = or_dylib value (split_once b'=' value) in
    let (kind, modifiers) = or_no_modifiers kinds (split_once b':' kinds) in
    let name = or_empty (head? (split_on (λ c. c == b':') names)) in
    if text_eq kind (codes "static")
    then modeled (static_library modifiers name)
    else if text_eq kind (codes "dylib")
        || text_eq kind (codes "framework")
        || text_eq kind (codes "raw-dylib")
    then modeled none
    else unmodeled (Reason.native_library value)

unfoldable pub sort_values : List (Bool × Text) → Checked (List Text × List StaticLibrary)
unfolding search_of library_of
sort_values [] = modeled ([], [])
sort_values ((true, value) ∷ values) = do
  path ← search_of value
  rest ← sort_values values
  modeled (onto_option path rest.0, rest.1)
sort_values ((false, value) ∷ values) = do
  library ← library_of value
  rest ← sort_values values
  modeled (rest.0, onto_option library rest.1)

unfoldable pub native_inputs : List Text → Checked (List Text × List StaticLibrary)
unfolding native_values sort_values
native_inputs args = sort_values (native_values args)
