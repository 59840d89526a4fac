-- ===== src/Store/Replaced.antt =====
-- What a replacement does: crates/bellows-core/src/lib.rs, `replace_bytes`.
use bellows.Prelude.{
  ℕ, zero, suc, ◌+◌, ◌-◌, ◌<◌, ◌≡◌, ◌≢◌, refl, ap, ◌∙◌, true, false, none, some, List, [], ◌∷◌,
  ◌++◌, if◌then◌else◌, length, arith, inl, inr, Bool-cases, Option-cases,
}
use mathlib.Core.List.{append_assoc}
use bellows.Prelude.Text.{Text, starts_with}
use bellows.Store.Contents.{take}
use bellows.Store.Normalizer.{drop, position, replace_loop, or_keep, replace_one}

-- What a replacement means: at each byte, unless it is skipped, the pattern is replaced if it stands
-- there, and the bytes that it takes are skipped.
pub replace_spec : Text → Text → ℕ → Text → Text
replace_spec from to skip [] = []
replace_spec from to (suc skip) (c ∷ s) = replace_spec from to skip s
replace_spec from to zero (c ∷ s) =
    let rest = replace_spec from to zero s in
    if starts_with from (c ∷ s) then to ++ replace_spec from to (length from - 1) s else c ∷ rest

spec-skip :
    (from to : Text) (n : ℕ) (s : Text)
    → replace_spec from to n s ≡ replace_spec from to 0 (drop n s)
unfolding replace_spec
spec-skip from to zero s = refl
spec-skip from to (suc n) [] = refl
spec-skip from to (suc n) (c ∷ s) = spec-skip from to n s

position-nil : (f : ℕ) (from : Text) (pos : ℕ) → position (f ∷ from) [] ≢ some pos
unfolding position starts_with
position-nil f from pos h = cc

-- Where the pattern stands, it is replaced and skipped; elsewhere the byte is kept.
pub spec-here :
    (f : ℕ) (from to : Text) (c : ℕ) (s : Text)
    → starts_with (f ∷ from) (c ∷ s) ≡ true
    → replace_spec (f ∷ from) to 0 (c ∷ s)
      ≡ to ++ replace_spec (f ∷ from) to 0 (drop (length from) s)
unfolding replace_spec
spec-here f from to c s here =
    let n : suc (length from) - 1 ≡ length from = omega arith in
    rw (here, replace_spec) (rw n (ap (◌++◌ to) (spec-skip (f ∷ from) to (length from) s)))

pub spec-elsewhere :
    (f : ℕ) (from to : Text) (c : ℕ) (s : Text)
    → starts_with (f ∷ from) (c ∷ s) ≡ false
    → replace_spec (f ∷ from) to 0 (c ∷ s) ≡ c ∷ replace_spec (f ∷ from) to 0 s
unfolding replace_spec
spec-elsewhere f from to c s e = rw (e, replace_spec) refl

position-zero :
    (f : ℕ) (from : Text) (c : ℕ) (s : Text)
    → position (f ∷ from) (c ∷ s) ≡ some 0
    → starts_with (f ∷ from) (c ∷ s) ≡ true
unfolding position
position-zero f from c s h = elim (Bool-cases (starts_with (f ∷ from) (c ∷ s))) [
  | inl here ↦ here
  | inr e ↦ elim (Option-cases (position (f ∷ from) s)) [
    | inl n ↦ let d = rw (n, e, position) at h in absurd (cc)
    | inr (pos, n) ↦ let d = rw (n, e, position) at h in absurd (cc)
  ]
]

position-suc :
    (f : ℕ) (from : Text) (c : ℕ) (s : Text) (pos : ℕ)
    → position (f ∷ from) (c ∷ s) ≡ some (suc pos)
    → (starts_with (f ∷ from) (c ∷ s) ≡ false) × (position (f ∷ from) s ≡ some pos)
unfolding position
position-suc f from c s pos h = elim (Bool-cases (starts_with (f ∷ from) (c ∷ s))) [
  | inl here ↦ let d = rw (here, position) at h in absurd (cc)
  | inr e ↦ elim (Option-cases (position (f ∷ from) s)) [
    | inl n ↦ let d = rw (n, e, position) at h in absurd (cc)
    | inr (q, n) ↦ let d = rw (n, e, position) at h in (e, cc)
  ]
]

-- Up to the first place of the pattern nothing is replaced.
spec-position :
    (f : ℕ) (from to s : Text) (pos : ℕ)
    → position (f ∷ from) s ≡ some pos
    → (replace_spec (f ∷ from) to 0 s
        ≡ take pos s ++ (to ++ replace_spec (f ∷ from) to 0 (drop (suc (pos + length from)) s)))
      × (pos < length s)
spec-position f from to [] pos h = absurd (position-nil f from pos h)
spec-position f from to (c ∷ s) zero h =
    let n : 0 + length from ≡ length from = omega arith in
    (rw n (spec-here f from to c s (position-zero f from c s h)), omega arith)
spec-position f from to (c ∷ s) (suc pos) h =
    let (e, p) = position-suc f from c s pos h in
    let (q, l) = spec-position f from to s pos p in
    let n : suc pos + length from ≡ suc (pos + length from) = omega arith in
    (rw n (spec-elsewhere f from to c s e ∙ ap (◌∷◌ c) q), omega (arith, l))

pub spec-nil : (from to : Text) → replace_spec from to 0 [] ≡ []
unfolding replace_spec
spec-nil from to = refl

spec-no_position :
    (f : ℕ) (from to s : Text) → position (f ∷ from) s ≡ none → replace_spec (f ∷ from) to 0 s ≡ s
unfolding position
spec-no_position f from to [] h = spec-nil (f ∷ from) to
spec-no_position f from to (c ∷ s) h = elim (Bool-cases (starts_with (f ∷ from) (c ∷ s))) [
  | inl here ↦ let d = rw (here, position) at h in absurd (cc)
  | inr e ↦ elim (Option-cases (position (f ∷ from) s)) [
    | inr (q, n) ↦ let d = rw (n, e, position) at h in absurd (cc)
    | inl n ↦ spec-elsewhere f from to c s e ∙ ap (◌∷◌ c) (spec-no_position f from to s n)
  ]
]

pub length-drop : {A : Type 0} (n : ℕ) (xs : List A) → length (drop n xs) ≡ length xs - n
length-drop zero xs = omega arith
length-drop (suc n) [] = omega arith
length-drop (suc n) (x ∷ xs) = omega (arith, length-drop n xs)

-- The loop computes the meaning, with more fuel than there are bytes.
replace_loop-spec :
    (fuel f : ℕ) (from to rest output : Text)
    → length rest < fuel
    → replace_loop fuel (f ∷ from) to rest output
      ≡ some (output ++ replace_spec (f ∷ from) to 0 rest)
unfolding replace_loop
replace_loop-spec zero f from to rest output h = absurd (omega (arith, h))
replace_loop-spec (suc fuel) f from to rest output h =
    elim (Option-cases (position (f ∷ from) rest)) [
      | inl n ↦ rw (n, replace_loop) (rw (spec-no_position f from to rest n) refl)
      | inr (pos, n) ↦
          let (q, l) = spec-position f from to rest pos n in
          let m : pos + suc (length from) ≡ suc (pos + length from) = omega arith in
          let after = drop (suc (pos + length from)) rest in
          let out = (output ++ take pos rest) ++ to in
          let ih =
            replace_loop-spec fuel f from to after out
              (omega (arith, h, l, length-drop (suc (pos + length from)) rest)) in
          rw (n, replace_loop) (rw m (ih ∙ ap some (rw q (simp append_assoc))))
    ]

-- A replacement ends, and does what it means: at each place of the pattern, from the left and not
-- overlapping, the pattern is replaced, and all other bytes are kept.
pub replace_one-spec :
    (f : ℕ) (from to value : Text)
    → replace_one (f ∷ from) to value ≡ replace_spec (f ∷ from) to 0 value
unfolding replace_one
replace_one-spec f from to value =
    ap (or_keep value) (replace_loop-spec (suc (length value)) f from to value [] (omega arith))
