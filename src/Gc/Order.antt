-- ===== src/Gc/Order.antt =====
-- The order of eviction holds each unit once: crates/bellows-core/src/gc.rs, `order` in `Plan::new`.
use bellows.Prelude.{
  ℕ, zero, suc, ◌+◌, ◌%◌, ◌<◌, ◌≤◌, ◌≡◌, ◌∙◌, ◌&&◌, List, bit, count, length, All, ltb, leb, arith,
}
use bellows.Prelude.Sort.{count-sort_by, All-sort_by, sort_by-IsSorted, IsSorted, IsTotalOrder}
use bellows.Gc.State.{Snapshot, GcOptions, u32_mod}
use bellows.Gc.Plan.{range, eviction_order, evicts_before}
use bellows.Gc.Counts.{is}

abbrev pub Below : ℕ → List ℕ → Type 0
Below n us = All (λ u. u < n) us

range-Below : (from n top : ℕ) → from + n ≤ top → Below top (range from n)
range-Below from zero top h = tt
range-Below from (suc n) top h = (omega arith, range-Below (from + 1) n top (omega arith))

count-range : (u from n : ℕ) → count (is u) (range from n) ≡ bit (leb from u && ltb u (from + n))
count-range u from zero = ground arith
count-range u from (suc n) = ground (arith, count-range u (from + 1) n)

module _ (snap : Snapshot) (options : GcOptions) (few : length snap.units < u32_mod) where
  whole : length snap.units % u32_mod ≡ length snap.units
  whole = omega arith

  pub eviction_order-Below : Below (length snap.units) (eviction_order snap options)
  unfolding eviction_order
  eviction_order-Below = rw whole (
      All-sort_by (evicts_before snap options) (λ u. u < length snap.units)
        (range 0 (length snap.units))
        (range-Below 0 (length snap.units) (length snap.units) (omega arith)))

  pub count-eviction_order :
      (u : ℕ) → count (is u) (eviction_order snap options) ≡ bit (ltb u (length snap.units))
  unfolding eviction_order
  count-eviction_order u = rw whole (
      count-sort_by (evicts_before snap options) (is u) (range 0 (length snap.units))
      ∙ ground (arith, count-range u 0 (length snap.units)))

evicts_before-IsTotalOrder :
    (snap : Snapshot) (options : GcOptions) → IsTotalOrder (evicts_before snap options)
unfolding evicts_before
evicts_before-IsTotalOrder snap options = record {
  total = λ a b h. ground arith;
  le_trans = λ a b c h k. ground arith;
}

pub eviction_order-IsSorted :
    (snap : Snapshot) (options : GcOptions)
    → IsSorted (evicts_before snap options) (eviction_order snap options)
unfolding eviction_order
eviction_order-IsSorted snap options =
    sort_by-IsSorted (evicts_before-IsTotalOrder snap options)
      (range 0 (length snap.units % u32_mod))

-- The order of eviction holds each unit of the snapshot once, and puts it before all that have a
-- greater key: obsolete candidates first, then the older last use, then the smaller index.
pub eviction_order_exact :
    (snap : Snapshot) (options : GcOptions)
    → length snap.units < u32_mod
    → IsSorted (evicts_before snap options) (eviction_order snap options)
      × ((u : ℕ) → count (is u) (eviction_order snap options) ≡ bit (ltb u (length snap.units)))
eviction_order_exact snap options few =
    (eviction_order-IsSorted snap options, count-eviction_order snap options few)
