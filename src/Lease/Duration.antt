-- ===== src/Lease/Duration.antt =====
-- Durations: crates/bellows-lease/src/lib.rs, `parse_duration_secs`, on ASCII text.
use bellows.Prelude.{
  ◌⊎◌, ◌≢◌, ℕ, ◌*◌, ◌≤◌, ◌≡◌, refl, ap, ◌∙◌, min, Bool, true, false, ◌&&◌, ◌||◌, Option, none, some,
  [], ◌∷◌, ◌++◌, if◌then◌else◌, leb, ◌==◌, option_map, all, arith,
}
use mathlib.Core.List.{append-nil}
use bellows.Prelude.Text.{Text, is_empty, text_eq}
use bellows.Prelude.Key.{text_key, list_cmp}
use bellows.Prelude.Decimal.{
  decimal, parse_u64, parse_u64-decimal, is_digit, u64_max, all-decimal, decimal-ne-nil,
}

abbrev pub is_whitespace : ℕ → Bool
is_whitespace c = (leb 9 c && leb c 13) || c == 32

abbrev pub trim_start : Text → Text
trim_start [] = []
trim_start (c ∷ s) = if is_whitespace c then trim_start s else c ∷ s

abbrev pub trim_end : Text → Text
trim_end [] = []
trim_end (c ∷ s) =
    let rest = trim_end s in if is_empty rest && is_whitespace c then [] else c ∷ rest

abbrev pub digits : Text → Text
digits [] = []
digits (c ∷ s) = let rest = digits s in if is_digit c then c ∷ rest else []

abbrev pub after_digits : Text → Text
after_digits [] = []
after_digits (c ∷ s) = if is_digit c then after_digits s else c ∷ s

unfoldable pub scale_of : Text → Option ℕ
unfolding list_cmp
scale_of unit =
    if text_eq unit (b's' ∷ [])
    then some 1
    else if text_eq unit (b'm' ∷ [])
    then some 60
    else if text_eq unit (b'h' ∷ [])
    then some 3600
    else none

-- Without a unit the number counts minutes.
unfoldable pub unit_of : Text → Text
unit_of text = if is_empty (after_digits text) then b'm' ∷ [] else after_digits text

unfoldable pub parse_trimmed : Text → Option ℕ
unfolding parse_u64 scale_of unit_of
parse_trimmed text = elim (parse_u64 (digits text)) [
  | none ↦ none
  | some value ↦ option_map (λ scale. min (value * scale) u64_max) (scale_of (unit_of text))
]

unfoldable pub parse_duration_secs : Text → Option ℕ
unfolding parse_trimmed
parse_duration_secs text = parse_trimmed (trim_end (trim_start text))

digits-append : (s t : Text) → all is_digit s ≡ true → digits (s ++ t) ≡ s ++ digits t
digits-append [] t h = refl
digits-append (c ∷ s) t h = ground (arith, digits-append s t)

after_digits-append : (s t : Text) → all is_digit s ≡ true → after_digits (s ++ t) ≡ after_digits t
after_digits-append [] t h = refl
after_digits-append (c ∷ s) t h = ground (arith, after_digits-append s t)

trim_end-append :
    (s : Text) (u : ℕ) → is_whitespace u ≡ false → trim_end (s ++ u ∷ []) ≡ s ++ u ∷ []
trim_end-append [] u h = ground arith
trim_end-append (c ∷ s) u h = rw (trim_end-append s u h) (not_empty c s u)
  where
    not_empty :
        (c : ℕ) (s : Text) (u : ℕ)
        → (if is_empty (s ++ u ∷ []) && is_whitespace c then [] else c ∷ s ++ u ∷ [])
          ≡ c ∷ s ++ u ∷ []
    not_empty c [] u = refl
    not_empty c (d ∷ s) u = refl

trim_start-digits : (s t : Text) → all is_digit s ≡ true → s ≢ [] → trim_start (s ++ t) ≡ s ++ t
trim_start-digits [] t h ne = absurd (ne refl)
trim_start-digits (c ∷ s) t h ne = ground arith

-- A unit of the three.
abbrev pub IsUnit : ℕ → ℕ → Type 0
IsUnit u scale =
    ((u ≡ b's') × (scale ≡ 1)) ⊎ ((u ≡ b'm') × (scale ≡ 60)) ⊎ ((u ≡ b'h') × (scale ≡ 3600))

scale_of_unit : (u scale : ℕ) → IsUnit u scale → scale_of (u ∷ []) ≡ some scale
unfolding scale_of
scale_of_unit u scale h = ground (arith, h)

unit_plain : (u scale : ℕ) → IsUnit u scale → (is_whitespace u ≡ false) × (is_digit u ≡ false)
unit_plain u scale h = (ground arith, ground arith)

parse_trimmed_lem :
    (text number : Text) (value scale : ℕ)
    → digits text ≡ number
    → parse_u64 number ≡ some value
    → scale_of (unit_of text) ≡ some scale
    → parse_trimmed text ≡ some (min (value * scale) u64_max)
unfolding parse_trimmed
parse_trimmed_lem text number value scale d p s = rw (d, parse_trimmed) (rw (p, s) refl)

unit_of_lem :
    (s : Text) (u : ℕ) → all is_digit s ≡ true → is_digit u ≡ false → unit_of (s ++ u ∷ []) ≡ u ∷ []
unfolding unit_of
unit_of_lem s u h k = rw (after_digits-append s (u ∷ []) h) (ground (arith, k))

digits_lem :
    (s : Text) (u : ℕ) → all is_digit s ≡ true → is_digit u ≡ false → digits (s ++ u ∷ []) ≡ s
digits_lem s u h k = rw (digits-append s (u ∷ []) h) (rw k (append-nil s))

-- A number of seconds, minutes or hours is read as it is written, up to the largest `u64`.
pub parse_duration_secs-decimal :
    (n u scale : ℕ)
    → n ≤ u64_max
    → IsUnit u scale
    → parse_duration_secs (decimal n ++ u ∷ []) ≡ some (min (n * scale) u64_max)
unfolding parse_duration_secs
parse_duration_secs-decimal n u scale h k =
    let (plain, other) = unit_plain u scale k in
    let text = decimal n ++ u ∷ [] in
    let trimmed : trim_end (trim_start text) ≡ text =
      ap trim_end (trim_start-digits (decimal n) (u ∷ []) (all-decimal n) (decimal-ne-nil n))
      ∙ trim_end-append (decimal n) u plain in
    ap parse_trimmed trimmed
    ∙ parse_trimmed_lem text (decimal n) n scale (digits_lem (decimal n) u (all-decimal n) other)
        (parse_u64-decimal n h)
        (ap scale_of (unit_of_lem (decimal n) u (all-decimal n) other) ∙ scale_of_unit u scale k)
