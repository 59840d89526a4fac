-- ===== src/Prelude/Decimal.antt =====
-- Decimal numbers: `format!` of a `u64`, and `str::parse::<u64>`.
use Prim.Native.Nat.{ℕ, zero, suc, ◌+◌, ◌-◌, ◌*◌, ◌/◌, ◌%◌, ◌^◌, ◌<◌, ◌≤◌}
use mathlib.Core.Path.{◌≡◌, refl, ap, ◌∙◌}
use mathlib.Core.Logic.{◌≢◌, inl, inr}
use mathlib.Core.Bool.{Bool, true, ◌&&◌}
use mathlib.Core.List.{[], ◌∷◌}
use mathlib.Core.Option.{Option, none, some}
use native.Mathlib.Nat.{pow-suc}
use native.Mathlib.Omega.{arith}
use bellows.Prelude.Tests.{if◌then◌else◌, ltb, leb, ◌==◌, Bool-cases}
use bellows.Prelude.Lists.{all}
use bellows.Prelude.Text.{Text}

-- The decimal digits of `n` in front of `acc`, for at most `fuel` digits: a `u64` has at most 20.
unfoldable pub decimal_onto : ℕ → ℕ → Text → Text
decimal_onto zero n acc = acc
decimal_onto (suc fuel) n acc =
    let more = decimal_onto fuel (n / 10) ((48 + n % 10) ∷ acc) in
    if ltb n 10 then (48 + n) ∷ acc else more

unfoldable pub decimal : ℕ → Text
unfolding decimal_onto
decimal n = decimal_onto 20 n []

abbrev pub is_digit : ℕ → Bool
is_digit c = leb 48 c && leb c 57

abbrev pub u64_max : ℕ
u64_max = 18446744073709551615

-- The digits after the value `a`: `none` for another character, and for an overflow.
unfoldable pub parse_onto : ℕ → Text → Option ℕ
parse_onto a [] = some a
parse_onto a (c ∷ s) =
    let rest = parse_onto (a * 10 + (c - 48)) s in
    if is_digit c && leb (a * 10 + (c - 48)) u64_max then rest else none

-- A sign `+` may stand in front.
unfoldable pub parse_u64 : Text → Option ℕ
unfolding parse_onto
parse_u64 [] = none
parse_u64 (c ∷ []) = parse_onto 0 (c ∷ [])
parse_u64 (c ∷ d ∷ s) = if c == b'+' then parse_onto 0 (d ∷ s) else parse_onto 0 (c ∷ d ∷ s)

decimal_step :
    (fuel n : ℕ) (acc : Text)
    → decimal_onto (suc fuel) n acc
      ≡ (if ltb n 10 then (48 + n) ∷ acc else decimal_onto fuel (n / 10) ((48 + n % 10) ∷ acc))
unfolding decimal_onto
decimal_step fuel n acc = refl

parse_digit :
    (a d : ℕ) (acc : Text)
    → d < 10
    → a * 10 + d ≤ u64_max
    → parse_onto a ((48 + d) ∷ acc) ≡ parse_onto (a * 10 + d) acc
unfolding parse_onto
parse_digit a d acc h k = ground arith

pub parse_onto-decimal_onto :
    (fuel n : ℕ) (acc : Text)
    → n < 10 ^ fuel
    → 0 < fuel
    → n ≤ u64_max
    → parse_onto 0 (decimal_onto fuel n acc) ≡ parse_onto n acc
parse_onto-decimal_onto zero n acc h p k = absurd (omega arith)
parse_onto-decimal_onto (suc zero) n acc h p k =
    ground (arith, decimal_step zero n acc, parse_digit 0 n acc)
parse_onto-decimal_onto (suc (suc f)) n acc h p k = elim (Bool-cases (ltb n 10)) [
  | inl e ↦ ground (arith, decimal_step (suc f) n acc, parse_digit 0 n acc)
  | inr e ↦
      rw (decimal_step (suc f) n acc, e)
        (parse_onto-decimal_onto (suc f) (n / 10) ((48 + n % 10) ∷ acc)
            (omega (arith, pow-suc 10 (suc f))) (omega arith) (omega arith)
          ∙ parse_digit (n / 10) (n % 10) acc (omega arith) (omega arith)
          ∙ ap (λ v. parse_onto v acc) (omega arith))
]

-- The first character is a digit, and so are all.
all-decimal_onto :
    (fuel n : ℕ) (acc : Text)
    → all is_digit acc ≡ true
    → all is_digit (decimal_onto fuel n acc) ≡ true
unfolding decimal_onto
all-decimal_onto zero n acc h = h
all-decimal_onto (suc f) n acc h = ground (arith, all-decimal_onto f (n / 10) ((48 + n % 10) ∷ acc))

pub all-decimal : (n : ℕ) → all is_digit (decimal n) ≡ true
unfolding decimal
all-decimal n = all-decimal_onto 20 n [] refl

-- Before a digit there is no sign.
parse_u64_plain : (s : Text) → all is_digit s ≡ true → s ≢ [] → parse_u64 s ≡ parse_onto 0 s
unfolding parse_u64
parse_u64_plain [] h ne = absurd (ne refl)
parse_u64_plain (c ∷ []) h ne = refl
parse_u64_plain (c ∷ d ∷ s) h ne = ground arith

pub decimal_onto-ne-nil : (fuel n : ℕ) (c : ℕ) (acc : Text) → decimal_onto fuel n (c ∷ acc) ≢ []
unfolding decimal_onto
decimal_onto-ne-nil zero n c acc h = cc
decimal_onto-ne-nil (suc f) n c acc h =
    ground (arith, decimal_onto-ne-nil f (n / 10) (48 + n % 10) (c ∷ acc))

pub decimal-ne-nil : (n : ℕ) → decimal n ≢ []
unfolding decimal
decimal-ne-nil n h =
    ground (arith, decimal_step 19 n [], decimal_onto-ne-nil 19 (n / 10) (48 + n % 10) [])

-- A number that fits is read back.
pub parse_u64-decimal : (n : ℕ) → n ≤ u64_max → parse_u64 (decimal n) ≡ some n
unfolding decimal parse_onto
parse_u64-decimal n h =
    parse_u64_plain (decimal n) (all-decimal n) (decimal-ne-nil n)
    ∙ parse_onto-decimal_onto 20 n [] (omega arith) (omega arith) h
