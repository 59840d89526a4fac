-- ===== src/Prelude/Lists.antt =====
-- Lists measured, searched and counted by native numbers and Boolean tests.
use Prim.Native.Nat.{ℕ, zero, suc, ◌+◌, ◌≤◌, ◌<◌}
use mathlib.Core.Path.{◌≡◌, refl}
use mathlib.Core.Bool.{Bool, true, false, ◌&&◌, ◌||◌}
use mathlib.Core.List.{List, [], ◌∷◌, ◌++◌, map}
use mathlib.Core.Option.{Option, none, some}
use mathlib.Core.Logic.{◌≢◌}
use native.Mathlib.Omega.{arith}
use bellows.Prelude.Tests.{if◌then◌else◌, bit}

module _ {ℓ} {A : Type ℓ} where
  abbrev pub length : List A → ℕ
  length [] = 0
  length (x ∷ xs) = suc (length xs)

  abbrev pub get_elem? : List A → ℕ → Option A
  get_elem? [] i = none
  get_elem? (x ∷ xs) zero = some x
  get_elem? (x ∷ xs) (suc i) = get_elem? xs i

  -- An element, or a default out of range, where the source would panic.
  abbrev pub get_or : A → List A → ℕ → A
  get_or d [] i = d
  get_or d (x ∷ xs) zero = x
  get_or d (x ∷ xs) (suc i) = get_or d xs i

  -- A write out of range changes nothing.
  abbrev pub set : List A → ℕ → A → List A
  set [] i v = []
  set (x ∷ xs) zero v = v ∷ xs
  set (x ∷ xs) (suc i) v = x ∷ set xs i v

  abbrev pub replicate : ℕ → A → List A
  replicate zero a = []
  replicate (suc n) a = a ∷ replicate n a

  -- `Iterator::map` and `sum`.
  abbrev pub sum_of : (A → ℕ) → List A → ℕ
  sum_of f [] = 0
  sum_of f (x ∷ xs) = f x + sum_of f xs

  -- `Iterator::filter` and `Vec::retain`.
  abbrev pub retain : (A → Bool) → List A → List A
  retain p [] = []
  retain p (x ∷ xs) = let rest = retain p xs in if p x then x ∷ rest else rest

  -- `Iterator::find`.
  abbrev pub find : (A → Bool) → List A → Option A
  find p [] = none
  find p (x ∷ xs) = if p x then some x else find p xs

  -- `Iterator::any` and `Iterator::all`.
  abbrev pub any : (A → Bool) → List A → Bool
  any p [] = false
  any p (x ∷ xs) = p x || any p xs

  abbrev pub all : (A → Bool) → List A → Bool
  all p [] = true
  all p (x ∷ xs) = p x && all p xs

  -- How many elements pass a test.
  abbrev pub count : (A → Bool) → List A → ℕ
  count p [] = 0
  count p (x ∷ xs) = bit (p x) + count p xs

  -- Every element has a property.
  abbrev pub All {κ} : (A → Type κ) → List A → Type κ
  All P [] = Unit
  All P (x ∷ xs) = P x × All P xs

  pub length-append : (xs ys : List A) → length (xs ++ ys) ≡ length xs + length ys
  length-append [] ys = omega arith
  length-append (x ∷ xs) ys = omega (arith, length-append xs ys)

  pub count-append : (p : A → Bool) (xs ys : List A) → count p (xs ++ ys) ≡ count p xs + count p ys
  count-append p [] ys = omega arith
  count-append p (x ∷ xs) ys = omega (arith, count-append p xs ys)

  pub count-le-length : (p : A → Bool) (xs : List A) → count p xs ≤ length xs
  count-le-length p [] = omega arith
  count-le-length p (x ∷ xs) = ground (arith, count-le-length p xs)

  -- What a filter keeps, counted by another test.
  pub count-retain :
      (p q : A → Bool) (xs : List A) → count p (retain q xs) ≡ count (λ x. q x && p x) xs
  count-retain p q [] = refl
  count-retain p q (x ∷ xs) = ground (arith, count-retain p q xs)

  pub retain-append :
      (p : A → Bool) (xs ys : List A) → retain p (xs ++ ys) ≡ retain p xs ++ retain p ys
  retain-append p [] ys = refl
  retain-append p (x ∷ xs) ys = ground (arith, retain-append p xs ys)

  pub All-retain {κ} :
      (P : A → Type κ) (p : A → Bool) (xs : List A) → All P xs → All P (retain p xs)
  All-retain P p [] h = tt
  All-retain P p (x ∷ xs) h = ground (arith, All-retain P p xs h.1)

  pub any_of_count : (p : A → Bool) (xs : List A) → any p xs ≡ false → count p xs ≡ 0
  any_of_count p [] h = refl
  any_of_count p (x ∷ xs) h = ground (arith, any_of_count p xs)

  pub any_eq_false : (p : A → Bool) (xs : List A) → count p xs ≡ 0 → any p xs ≡ false
  any_eq_false p [] h = refl
  any_eq_false p (x ∷ xs) h = ground (arith, any_eq_false p xs)

  pub length-set : (xs : List A) (i : ℕ) (v : A) → length (set xs i v) ≡ length xs
  length-set [] i v = refl
  length-set (x ∷ xs) zero v = refl
  length-set (x ∷ xs) (suc i) v = omega (arith, length-set xs i v)

  pub get_or-set_self :
      (d : A) (xs : List A) (i : ℕ) (v : A) → i < length xs → get_or d (set xs i v) i ≡ v
  get_or-set_self d [] i v h = absurd (omega arith)
  get_or-set_self d (x ∷ xs) zero v h = refl
  get_or-set_self d (x ∷ xs) (suc i) v h = get_or-set_self d xs i v (omega arith)

  pub get_or-set_ne :
      (d : A) (xs : List A) (i j : ℕ) (v : A) → i ≢ j → get_or d (set xs i v) j ≡ get_or d xs j
  get_or-set_ne d [] i j v h = refl
  get_or-set_ne d (x ∷ xs) zero zero v h = absurd (h refl)
  get_or-set_ne d (x ∷ xs) zero (suc j) v h = refl
  get_or-set_ne d (x ∷ xs) (suc i) zero v h = refl
  get_or-set_ne d (x ∷ xs) (suc i) (suc j) v h = get_or-set_ne d xs i j v (λ e. h (omega arith))

  pub get_or-beyond : (d : A) (xs : List A) (i : ℕ) → length xs ≤ i → get_or d xs i ≡ d
  get_or-beyond d [] i h = refl
  get_or-beyond d (x ∷ xs) zero h = absurd (omega arith)
  get_or-beyond d (x ∷ xs) (suc i) h = get_or-beyond d xs i (omega arith)

  pub get_or-append :
      (d : A) (xs ys : List A) (i : ℕ) → i < length xs → get_or d (xs ++ ys) i ≡ get_or d xs i
  get_or-append d [] ys i h = absurd (omega arith)
  get_or-append d (x ∷ xs) ys zero h = refl
  get_or-append d (x ∷ xs) ys (suc i) h = get_or-append d xs ys i (omega arith)

  pub get_or-append_last : (d : A) (xs : List A) (y : A) → get_or d (xs ++ y ∷ []) (length xs) ≡ y
  get_or-append_last d [] y = refl
  get_or-append_last d (x ∷ xs) y = get_or-append_last d xs y

  pub get_or-replicate : (a : A) (n i : ℕ) → get_or a (replicate n a) i ≡ a
  get_or-replicate a zero i = refl
  get_or-replicate a (suc n) zero = refl
  get_or-replicate a (suc n) (suc i) = get_or-replicate a n i

  pub length-replicate : (n : ℕ) (a : A) → length (replicate n a) ≡ n
  length-replicate zero a = refl
  length-replicate (suc n) a = omega (arith, length-replicate n a)

pub length-map {ℓ κ} :
    {A : Type ℓ} {B : Type κ} (f : A → B) (xs : List A) → length (map f xs) ≡ length xs
length-map f [] = refl
length-map f (x ∷ xs) = omega (arith, length-map f xs)

pub get_or-map {ℓ κ} :
    {A : Type ℓ} {B : Type κ} (f : A → B) (d : A) (xs : List A) (i : ℕ)
    → get_or (f d) (map f xs) i ≡ f (get_or d xs i)
get_or-map f d [] i = refl
get_or-map f d (x ∷ xs) zero = refl
get_or-map f d (x ∷ xs) (suc i) = get_or-map f d xs i
