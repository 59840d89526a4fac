-- ===== src/Prelude/Map.antt =====
-- `BTreeMap`: entries in increasing order of their keys. A `HashMap` is modelled by the same type:
-- the code never observes the order of its entries.
use Prim.Native.Nat.{◌+◌, Ordering}
use mathlib.Core.Path.{◌≡◌, refl}
use mathlib.Core.Bool.{Bool}
use mathlib.Core.List.{List, [], ◌∷◌}
use mathlib.Core.Option.{Option, none, some}
use native.Mathlib.Omega.{arith}
use bellows.Prelude.Tests.{if◌then◌else◌, bit, is_some}
use bellows.Prelude.Lists.{count}
use bellows.Prelude.Key.{Key, same}

abbrev pub Map {ℓ κ} : Type ℓ → Type κ → Type (ℓ ⊔ κ)
Map K V = List (K × V)

module _ {ℓ κ} {K : Type ℓ} {V : Type κ} where
  abbrev pub keys : Map K V → List K
  keys [] = []
  keys ((k, v) ∷ m) = k ∷ keys m

  abbrev pub values : Map K V → List V
  values [] = []
  values ((k, v) ∷ m) = v ∷ values m

module _ {ℓ κ} {K : Type ℓ} {V : Type κ} ⦃o : Key K⦄ where
  unfoldable pub get : K → Map K V → Option V
  get k [] = none
  get k ((j, v) ∷ m) = if same k j then some v else get k m

  unfoldable pub insert : K → V → Map K V → Map K V
  insert k v [] = (k, v) ∷ []
  insert k v ((j, w) ∷ m) = elim (o.cmp k j) [
    | Ordering.lt ↦ (k, v) ∷ (j, w) ∷ m
    | Ordering.eq ↦ (k, v) ∷ m
    | Ordering.gt ↦ (j, w) ∷ insert k v m
  ]

  unfoldable pub remove : K → Map K V → Map K V
  remove k [] = []
  remove k ((j, w) ∷ m) = let rest = remove k m in if same k j then rest else (j, w) ∷ rest

  abbrev pub contains_key : K → Map K V → Bool
  contains_key k m = is_some (get k m)

  -- Every key of the map lies above `k`, and the keys increase.
  abbrev pub Above : K → Map K V → Type 0
  Above k [] = Unit
  Above k ((j, v) ∷ m) = (o.cmp k j ≡ Ordering.lt) × Above j m

  abbrev pub IsMap : Map K V → Type 0
  IsMap [] = Unit
  IsMap ((k, v) ∷ m) = Above k m

  pub Above-weaken : (k j : K) (m : Map K V) → o.cmp k j ≡ Ordering.lt → Above j m → Above k m
  Above-weaken k j [] h a = tt
  Above-weaken k j ((i, v) ∷ m) h (b, a) = (o.lt_trans k j i h b, a)

  pub Above-IsMap : (k : K) (m : Map K V) → Above k m → IsMap m
  Above-IsMap k [] a = tt
  Above-IsMap k ((j, v) ∷ m) a = a.1

  pub get-Above : (k : K) (m : Map K V) → Above k m → get k m ≡ none
  unfolding get
  get-Above k [] a = refl
  get-Above k ((j, v) ∷ m) a = ground (arith, a.0, get-Above k m (Above-weaken k j m a.0 a.1))

  pub get-insert :
      (k p : K) (v : V) (m : Map K V)
      → get p (insert k v m) ≡ (if same p k then some v else get p m)
  unfolding get insert
  get-insert k p v [] = refl
  get-insert k p v ((j, w) ∷ m) =
      ground
        (arith, get-insert k p v m, o.eq_of_cmp k j, o.eq_of_cmp p k, o.eq_of_cmp p j, o.cmp_self p)

  pub get-remove :
      (k p : K) (m : Map K V) → get p (remove k m) ≡ (if same p k then none else get p m)
  unfolding get remove
  get-remove k p [] = ground arith
  get-remove k p ((j, w) ∷ m) = ground (
    arith,
    get-remove k p m,
    o.eq_of_cmp k j,
    o.eq_of_cmp p k,
    o.eq_of_cmp p j,
    o.cmp_self p,
    o.cmp_self k,
  )

  -- Without the key there is nothing to remove.
  pub remove_absent : (k : K) (m : Map K V) → get k m ≡ none → remove k m ≡ m
  unfolding get remove
  remove_absent k [] h = refl
  remove_absent k ((j, w) ∷ m) h = ground (arith, remove_absent k m)

  insert-Above :
      (i k : K) (v : V) (m : Map K V) → o.cmp i k ≡ Ordering.lt → Above i m → Above i (insert k v m)
  unfolding insert
  insert-Above i k v [] h a = (h, tt)
  insert-Above i k v ((j, w) ∷ m) h (b, a) =
      ground (arith, insert-Above j k v m, o.flips_back k j, o.eq_of_cmp k j)

  pub insert-IsMap : (k : K) (v : V) (m : Map K V) → IsMap m → IsMap (insert k v m)
  unfolding insert
  insert-IsMap k v [] s = tt
  insert-IsMap k v ((j, w) ∷ m) s =
      ground (arith, insert-Above j k v m, o.flips_back k j, o.eq_of_cmp k j)

  remove-Above : (i k : K) (m : Map K V) → Above i m → Above i (remove k m)
  unfolding remove
  remove-Above i k [] a = tt
  remove-Above i k ((j, w) ∷ m) (b, a) =
      ground (arith, remove-Above i k m (Above-weaken i j m b a), remove-Above j k m a)

  pub remove-IsMap : (k : K) (m : Map K V) → IsMap m → IsMap (remove k m)
  unfolding remove
  remove-IsMap k [] s = tt
  remove-IsMap k ((j, w) ∷ m) s =
      ground (arith, remove-IsMap k m (Above-IsMap j m s), remove-Above j k m s)

  pub get-below : (k j : K) (m : Map K V) → Above j m → o.cmp k j ≡ Ordering.lt → get k m ≡ none
  get-below k j m a h = get-Above k m (Above-weaken k j m h a)

  -- A new key adds its value to those that are counted.
  pub count-insert_new :
      (p : V → Bool) (k : K) (v : V) (m : Map K V)
      → get k m ≡ none
      → count p (values (insert k v m)) ≡ bit (p v) + count p (values m)
  unfolding get insert
  count-insert_new p k v [] h = refl
  count-insert_new p k v ((j, w) ∷ m) h = ground (arith, count-insert_new p k v m)

  -- A removed key takes its value from those that are counted.
  pub count-remove :
      (p : V → Bool) (k : K) (v : V) (m : Map K V)
      → IsMap m
      → get k m ≡ some v
      → bit (p v) + count p (values (remove k m)) ≡ count p (values m)
  unfolding get remove
  count-remove p k v [] s h = cc
  count-remove p k v ((j, w) ∷ m) s h = ground (
    arith,
    count-remove p k v m (Above-IsMap j m s),
    remove_absent k m,
    get-Above j m s,
    o.eq_of_cmp k j,
  )

  -- A replaced value leaves those that are counted for the new one.
  pub count-insert_old :
      (p : V → Bool) (k : K) (v w : V) (m : Map K V)
      → IsMap m
      → get k m ≡ some v
      → bit (p v) + count p (values (insert k w m)) ≡ bit (p w) + count p (values m)
  unfolding get insert
  count-insert_old p k v w [] s h = cc
  count-insert_old p k v w ((j, u) ∷ m) s h =
      ground
        (arith, count-insert_old p k v w m (Above-IsMap j m s), get-below k j m s, o.eq_of_cmp k j)
