-- ===== src/Prelude/Totals.antt =====
-- Sums over the values of a map, and what inserting and removing does to them.
use Prim.Native.Nat.{ℕ, ◌+◌}
use mathlib.Core.Path.{◌≡◌, refl}
use mathlib.Core.List.{[], ◌∷◌}
use mathlib.Core.Option.{none, some}
use native.Mathlib.Omega.{arith}
use bellows.Prelude.Lists.{sum_of}
use bellows.Prelude.Key.{Key}
use bellows.Prelude.Map.{
  Map, IsMap, values, get, insert, remove, remove_absent, get-Above, get-below, Above-IsMap,
}

module _ {ℓ κ} {K : Type ℓ} {V : Type κ} ⦃o : Key K⦄ (w : V → ℕ) where
  abbrev pub total : Map K V → ℕ
  total m = sum_of w (values m)

  pub total-insert_new :
      (k : K) (v : V) (m : Map K V) → get k m ≡ none → total (insert k v m) ≡ w v + total m
  unfolding get insert
  total-insert_new k v [] h = refl
  total-insert_new k v ((j, u) ∷ m) h = ground (arith, total-insert_new k v m)

  pub total-remove :
      (k : K) (v : V) (m : Map K V)
      → IsMap m
      → get k m ≡ some v
      → w v + total (remove k m) ≡ total m
  unfolding get remove
  total-remove k v [] s h = cc
  total-remove k v ((j, u) ∷ m) s h = ground (
    arith,
    total-remove k v m (Above-IsMap j m s),
    remove_absent k m,
    get-Above j m s,
    o.eq_of_cmp k j,
  )

  pub total-insert_old :
      (k : K) (v u : V) (m : Map K V)
      → IsMap m
      → get k m ≡ some v
      → w v + total (insert k u m) ≡ w u + total m
  unfolding get insert
  total-insert_old k v u [] s h = cc
  total-insert_old k v u ((j, x) ∷ m) s h =
      ground
        (arith, total-insert_old k v u m (Above-IsMap j m s), get-below k j m s, o.eq_of_cmp k j)
