-- ===== src/Prelude/Key.antt =====
-- What the standard library's maps ask of a key: `Ord`, with its laws.
use Prim.Native.Nat.{ℕ, compare, Ordering}
use mathlib.Core.Path.{◌≡◌, refl}
use mathlib.Core.Bool.{Bool, true, false}
use mathlib.Core.Logic.{◌↔◌}
use mathlib.Core.List.{List, [], ◌∷◌}
use native.Mathlib.Omega.{arith}

pub record IsLawful {ℓ} {K : Type ℓ} (cmp : K → K → Ordering) : Type ℓ where
  pub lt_trans : (a b c : K) → cmp a b ≡ Ordering.lt → cmp b c ≡ Ordering.lt → cmp a c ≡ Ordering.lt
  pub flips : (a b : K) → cmp a b ≡ Ordering.lt → cmp b a ≡ Ordering.gt
  pub flips_back : (a b : K) → cmp a b ≡ Ordering.gt → cmp b a ≡ Ordering.lt
  pub cmp_self : (a : K) → cmp a a ≡ Ordering.eq
  pub eq_of_cmp : (a b : K) → cmp a b ≡ Ordering.eq → a ≡ b

pub record Key {ℓ} (K : Type ℓ) : Type ℓ where
  pub cmp : K → K → Ordering
  pub lawful : IsLawful cmp
  pub open lawful use *

-- `==` on keys.
abbrev pub same {ℓ} : {K : Type ℓ} ⦃k : Key K⦄ → K → K → Bool
same ⦃k⦄ a b = elim (k.cmp a b) [ Ordering.eq ↦ true | _ ↦ false ]

module _ {ℓ} {K : Type ℓ} ⦃k : Key K⦄ where
  pub same_iff : (a b : K) → (same a b ≡ true) ↔ (a ≡ b)
  same_iff a b = (λ h. ground (arith, k.eq_of_cmp a b), λ e. rw e (ground (arith, k.cmp_self b)))

  pub same_refl : (a : K) → same a a ≡ true
  same_refl a = ground (arith, k.cmp_self a)

  pub same_comm : (a b : K) → same a b ≡ same b a
  same_comm a b =
      ground (arith, k.eq_of_cmp a b, k.flips a b, k.flips_back a b, k.cmp_self a, k.eq_of_cmp b a)

-- Lists compare lexicographically, a proper prefix first: `str` and `[u8]`.
unfoldable pub list_cmp {ℓ} : {A : Type ℓ} → (A → A → Ordering) → List A → List A → Ordering
list_cmp c [] [] = Ordering.eq
list_cmp c [] (y ∷ ys) = Ordering.lt
list_cmp c (x ∷ xs) [] = Ordering.gt
list_cmp c (x ∷ xs) (y ∷ ys) =
    let rest = list_cmp c xs ys in
    elim (c x y) [ Ordering.lt ↦ Ordering.lt | Ordering.eq ↦ rest | Ordering.gt ↦ Ordering.gt ]

text_cmp_refl : (a : List ℕ) → list_cmp compare a a ≡ Ordering.eq
unfolding list_cmp
text_cmp_refl [] = refl
text_cmp_refl (x ∷ a) = ground (arith, text_cmp_refl a)

text_eq_of_cmp : (a b : List ℕ) → list_cmp compare a b ≡ Ordering.eq → a ≡ b
unfolding list_cmp
text_eq_of_cmp [] [] h = refl
text_eq_of_cmp [] (y ∷ b) h = cc
text_eq_of_cmp (x ∷ a) [] h = cc
text_eq_of_cmp (x ∷ a) (y ∷ b) h = ground (arith, text_eq_of_cmp a b)

text_gt_of_lt :
    (a b : List ℕ) → list_cmp compare a b ≡ Ordering.lt → list_cmp compare b a ≡ Ordering.gt
unfolding list_cmp
text_gt_of_lt [] [] h = cc
text_gt_of_lt [] (y ∷ b) h = refl
text_gt_of_lt (x ∷ a) [] h = cc
text_gt_of_lt (x ∷ a) (y ∷ b) h = ground (arith, text_gt_of_lt a b)

text_lt_of_gt :
    (a b : List ℕ) → list_cmp compare a b ≡ Ordering.gt → list_cmp compare b a ≡ Ordering.lt
unfolding list_cmp
text_lt_of_gt [] [] h = cc
text_lt_of_gt [] (y ∷ b) h = cc
text_lt_of_gt (x ∷ a) [] h = refl
text_lt_of_gt (x ∷ a) (y ∷ b) h = ground (arith, text_lt_of_gt a b)

text_lt_trans :
    (a b c : List ℕ)
    → list_cmp compare a b ≡ Ordering.lt
    → list_cmp compare b c ≡ Ordering.lt
    → list_cmp compare a c ≡ Ordering.lt
unfolding list_cmp
text_lt_trans [] [] c h i = cc
text_lt_trans (x ∷ a) [] c h i = cc
text_lt_trans a (y ∷ b) [] h i = cc
text_lt_trans [] (y ∷ b) (z ∷ c) h i = refl
text_lt_trans (x ∷ a) (y ∷ b) (z ∷ c) h i = ground (arith, text_lt_trans a b c)

pub compare-IsLawful : IsLawful compare
compare-IsLawful = ground arith

pub text_cmp-IsLawful : IsLawful (list_cmp compare)
text_cmp-IsLawful = record {
  cmp_self = text_cmp_refl;
  eq_of_cmp = text_eq_of_cmp;
  flips = text_gt_of_lt;
  flips_back = text_lt_of_gt;
  lt_trans = text_lt_trans;
}

instance abbrev pub nat_key : Key ℕ
nat_key = record { cmp = compare; lawful = compare-IsLawful }

instance abbrev pub text_key : Key (List ℕ)
text_key = record { cmp = list_cmp compare; lawful = text_cmp-IsLawful }
