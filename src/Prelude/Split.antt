-- ===== src/Prelude/Split.antt =====
-- `str::split`, `split_once`, `lines` and `trim` at single bytes.
use Prim.Native.Nat.{ℕ}
use mathlib.Core.Path.{◌≡◌, refl}
use mathlib.Core.Bool.{Bool, true, not}
use mathlib.Core.List.{List, [], ◌∷◌, ◌++◌}
use mathlib.Core.Option.{Option, none, some}
use native.Mathlib.Omega.{arith}
use bellows.Prelude.Tests.{if◌then◌else◌, ◌==◌, option_map}
use bellows.Prelude.Lists.{all}
use bellows.Prelude.Text.{Text}

abbrev pub onto_first : ℕ → List Text → List Text
onto_first c [] = (c ∷ []) ∷ []
onto_first c (t ∷ ts) = (c ∷ t) ∷ ts

-- The pieces between the separators: at least one.
unfoldable pub split_on : (ℕ → Bool) → Text → List Text
split_on p [] = [] ∷ []
split_on p (c ∷ s) = let rest = split_on p s in if p c then [] ∷ rest else onto_first c rest

-- The text before and after the first separator.
unfoldable pub split_once : ℕ → Text → Option (Text × Text)
split_once b [] = none
split_once b (c ∷ s) =
    let rest = split_once b s in
    if c == b then some ([], s) else option_map (λ r. (c ∷ r.0, r.1)) rest

-- Pieces that hold no separator come back.
pub split_on-append :
    (p : ℕ → Bool) (a : Text) (c : ℕ) (s : Text)
    → all (λ x. not (p x)) a ≡ true
    → p c ≡ true
    → split_on p (a ++ (c ∷ s)) ≡ a ∷ split_on p s
unfolding split_on
split_on-append p [] c s h k = ground arith
split_on-append p (x ∷ a) c s h k = ground (arith, split_on-append p a c s)

pub split_on_whole :
    (p : ℕ → Bool) (a : Text) → all (λ x. not (p x)) a ≡ true → split_on p a ≡ a ∷ []
unfolding split_on
split_on_whole p [] h = refl
split_on_whole p (x ∷ a) h = ground (arith, split_on_whole p a)
