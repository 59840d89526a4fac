-- ===== src/Wrapper/Options.antt =====
-- The options of a rustc command line: crates/bellows-cli/src/main.rs, `option_value`,
-- `multi_option_values`, `codegen_values`, `codegen_value`, `unmodeled_unstable_flag`,
-- `has_unmodeled_codegen_inputs`, `expand_response_files`.
use bellows.Prelude.{Bool, Option, none, some, List, [], ◌∷◌, ◌++◌, if◌then◌else◌, any, ◌==◌}
use bellows.Prelude.Key.{list_cmp}
use bellows.Prelude.Split.{split_on}
use bellows.Prelude.Text.{Text, text_eq, codes, strip_prefix, starts_with}

abbrev pub head? {ℓ} : {A : Type ℓ} → List A → Option A
head? [] = none
head? (x ∷ xs) = some x

-- `find_map` and `filter_map` over the arguments, each with those that follow it.
abbrev pub or_else {ℓ} : {A : Type ℓ} → Option A → Option A → Option A
or_else none later = later
or_else (some a) later = some a

abbrev pub onto_option {ℓ} : {A : Type ℓ} → Option A → List A → List A
onto_option none later = later
onto_option (some a) later = a ∷ later

unfoldable pub find_map {ℓ} : {A : Type ℓ} → (Text → List Text → Option A) → List Text → Option A
find_map f [] = none
find_map f (arg ∷ args) = or_else (f arg args) (find_map f args)

unfoldable pub filter_map {ℓ} : {A : Type ℓ} → (Text → List Text → Option A) → List Text → List A
filter_map f [] = []
filter_map f (arg ∷ args) = onto_option (f arg args) (filter_map f args)

-- The value of an option at one argument: the next argument, or what follows `=`.
unfoldable pub value_at : Text → Text → List Text → Option Text
unfolding strip_prefix list_cmp
value_at name arg next =
    if text_eq arg name then head? next else strip_prefix (name ++ codes "=") arg

unfoldable pub option_value : List Text → Text → Option Text
unfolding find_map value_at
option_value args name = find_map (value_at name) args

unfoldable pub multi_option_values : List Text → Text → List Text
unfolding filter_map value_at
multi_option_values args name = filter_map (value_at name) args

-- The value of `-C`, which may be joined to it.
unfoldable pub codegen_at : Text → List Text → Option Text
unfolding strip_prefix list_cmp
codegen_at arg next = if text_eq arg (codes "-C") then head? next else strip_prefix (codes "-C") arg

unfoldable pub codegen_values : List Text → List Text
unfolding filter_map codegen_at
codegen_values args = filter_map codegen_at args

-- `?` on an option.
abbrev pub and_then {ℓ κ} : {A : Type ℓ} {B : Type κ} → Option A → (A → Option B) → Option B
and_then none f = none
and_then (some a) f = f a

unfoldable pub codegen_value_at : Text → Text → List Text → Option Text
unfolding strip_prefix list_cmp
codegen_value_at name arg next =
    if text_eq arg (codes "-C")
    then and_then (head? next) (strip_prefix (name ++ codes "="))
    else and_then (strip_prefix (codes "-C") arg) (strip_prefix (name ++ codes "="))

unfoldable pub codegen_value : List Text → Text → Option Text
unfolding find_map codegen_value_at
codegen_value args name = find_map (codegen_value_at name) args

abbrev pub modeled_unstable_flags : List Text
modeled_unstable_flags =
    codes "unstable-options"
    ∷ codes "force-unstable-if-unmarked"
    ∷ codes "share-generics"
    ∷ codes "threads"
    ∷ codes "macro-backtrace"
    ∷ []

abbrev pub or_empty : Option Text → Text
or_empty none = []
or_empty (some t) = t

-- `value.split('=').next()`
abbrev pub before_equals : Text → Text
before_equals value = or_empty (head? (split_on (λ c. c == b'=') value))

abbrev pub unless_modeled : Text → Option Text
unless_modeled name = if any (text_eq name) modeled_unstable_flags then none else some name

unfoldable pub unstable_at : Text → List Text → Option Text
unfolding strip_prefix split_on list_cmp
unstable_at arg next =
    if text_eq arg (codes "-Z")
    then unless_modeled (before_equals (or_empty (head? next)))
    else and_then (strip_prefix (codes "-Z") arg) (λ value. unless_modeled (before_equals value))

unfoldable pub unmodeled_unstable_flag : List Text → Option Text
unfolding find_map unstable_at
unmodeled_unstable_flag args = find_map unstable_at args

abbrev pub unmodeled_codegen : List Text
unmodeled_codegen = codes "linker-plugin-lto=" ∷ codes "profile-use=" ∷ codes "llvm-plugins=" ∷ []

unfoldable pub has_unmodeled_codegen_inputs : List Text → Bool
unfolding codegen_values starts_with
has_unmodeled_codegen_inputs args =
    any (λ value. any (λ prefix. starts_with prefix value) unmodeled_codegen) (codegen_values args)
