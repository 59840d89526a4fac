-- ===== src/Wrapper/Agree.antt =====
-- The two readings of an option agree: crates/bellows-cli/src/main.rs, `option_value` and
-- `multi_option_values`, `codegen_value` and `codegen_values`.
use bellows.Prelude.{
  Option, none, some, List, [], ◌∷◌, ◌++◌, ◌≡◌, refl, ◌∙◌, if◌then◌else◌, Bool, true, false,
}
use bellows.Prelude.Text.{Text, text_eq, codes, strip_prefix}
use bellows.Wrapper.Options.{
  head?, or_else, onto_option, find_map, filter_map, value_at, option_value, multi_option_values,
  codegen_at, codegen_values, codegen_value_at, codegen_value, and_then,
}

head?-onto_option {ℓ} :
    {A : Type ℓ} → (o : Option A) (xs : List A) → head? (onto_option o xs) ≡ or_else o (head? xs)
head?-onto_option none xs = refl
head?-onto_option (some a) xs = refl

find_map-filter_map {ℓ} :
    {A : Type ℓ} (f : Text → List Text → Option A) (args : List Text)
    → find_map f args ≡ head? (filter_map f args)
unfolding find_map filter_map
find_map-filter_map f [] = refl
find_map-filter_map f (arg ∷ args) =
    simp (find_map-filter_map f args, head?-onto_option (f arg args) (filter_map f args))

-- A search of what one pass over the arguments found is a pass that searches at each argument.
find_map-onto_option :
    (g : Text → List Text → Option Text) (o : Option Text) (xs : List Text) (h : Text → Option Text)
    → ((t : Text) (rest : List Text) → g t rest ≡ h t)
    → find_map g (onto_option o xs) ≡ or_else (and_then o h) (find_map g xs)
unfolding find_map
find_map-onto_option g none xs h same = refl
find_map-onto_option g (some a) xs h same = simp (same a xs)

find_map-of_filter_map :
    (f : Text → List Text → Option Text) (h : Text → Option Text) (args : List Text)
    → find_map (λ arg rest. and_then (f arg rest) h) args
      ≡ find_map (λ value rest. h value) (filter_map f args)
unfolding find_map filter_map
find_map-of_filter_map f h [] = refl
find_map-of_filter_map f h (arg ∷ args) = simp (
  find_map-of_filter_map f h args,
  find_map-onto_option (λ value rest. h value) (f arg args) (filter_map f args) h (λ t rest. refl),
)

find_map-ext :
    (f g : Text → List Text → Option Text) (args : List Text)
    → ((arg : Text) (rest : List Text) → f arg rest ≡ g arg rest)
    → find_map f args ≡ find_map g args
unfolding find_map
find_map-ext f g [] same = refl
find_map-ext f g (arg ∷ args) same = simp (same arg args, find_map-ext f g args same)

and_then-if :
    (b : Bool) (x y : Option Text) (h : Text → Option Text)
    → (if b then and_then x h else and_then y h) ≡ and_then (if b then x else y) h
and_then-if true x y h = refl
and_then-if false x y h = refl

codegen_value_at-codegen_at :
    (name arg : Text) (rest : List Text)
    → codegen_value_at name arg rest
      ≡ and_then (codegen_at arg rest) (strip_prefix (name ++ codes "="))
unfolding codegen_value_at codegen_at
codegen_value_at-codegen_at name arg rest =
    and_then-if (text_eq arg (codes "-C")) (head? rest) (strip_prefix (codes "-C") arg)
      (strip_prefix (name ++ codes "="))

-- The value of an option is the first of its values, and the value of a codegen option is what
-- follows its name and `=` in the first codegen argument that has one.
pub options_agree :
    (args : List Text) (name : Text)
    → (option_value args name ≡ head? (multi_option_values args name))
      × (codegen_value args name
          ≡ find_map (λ value rest. strip_prefix (name ++ codes "=") value) (codegen_values args))
unfolding option_value multi_option_values codegen_value codegen_values
options_agree args name = (
  find_map-filter_map (value_at name) args,
  find_map-ext (codegen_value_at name)
        (λ arg rest. and_then (codegen_at arg rest) (strip_prefix (name ++ codes "="))) args
        (codegen_value_at-codegen_at name)
      ∙ find_map-of_filter_map codegen_at (strip_prefix (name ++ codes "=")) args,
)
