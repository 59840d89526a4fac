-- ===== src/Gc/Report.antt =====
-- The report of a collection: crates/bellows-core/src/gc.rs, `Plan::report` and `Plan::buckets`.
use bellows.Prelude.{
  ℕ, zero, suc, ◌+◌, ◌-◌, ◌/◌, Bool, true, false, ◌&&◌, ◌||◌, Option, none, some, List, [], ◌∷◌,
  ◌++◌, map, if◌then◌else◌, all, get_or, ltb, ◌==◌,
}
use bellows.Prelude.Text.{Text, codes, text_eq}
use bellows.Prelude.Key.{text_key, list_cmp}
use bellows.Prelude.Map.{Map, get, insert, values}
use bellows.Prelude.Sort.{sort_by}
use bellows.Prelude.Decimal.{decimal}
use bellows.Gc.State.{Kind, Evictable, Snapshot, Plan, day_ms, top_crates}
use bellows.Gc.Plan.{blob_bytes}

pub record GcBucket : Type 0 where
  pub group : Text
  pub label : Text
  pub records : ℕ
  pub exclusive_bytes : ℕ
  pub evicted_records : ℕ
  pub evicted_bytes : ℕ

abbrev pub new_bucket : Text → Text → GcBucket
new_bucket group label = record {
  group = group;
  label = label;
  records = 0;
  exclusive_bytes = 0;
  evicted_records = 0;
  evicted_bytes = 0;
}

abbrev pub Buckets : Type 0
Buckets = Map Text GcBucket

abbrev pub bucket_or : GcBucket → Option GcBucket → GcBucket
bucket_or d none = d
bucket_or d (some b) = b

-- One unit is counted under its label, which gets a bucket if it has none.
unfoldable pub count_unit : Text → Text → Bool → Buckets → Buckets
unfolding get insert list_cmp
count_unit group name evicted m =
    let b = bucket_or (new_bucket group name) (get name m) in
    insert name
      (record b {
        records = b.records + 1;
        evicted_records = if evicted then b.evicted_records + 1 else b.evicted_records;
      })
      m

unfoldable pub count_units : Text → List Text → List Bool → Buckets → Buckets
unfolding count_unit
count_units group [] evicted m = m
count_units group (name ∷ names) [] m = count_units group names [] (count_unit group name false m)
count_units group (name ∷ names) (e ∷ es) m = count_units group names es (count_unit group name e m)

-- `get_mut` of a label: without a bucket nothing happens.
unfoldable pub add_exclusive : Text → ℕ → Buckets → Buckets
unfolding get insert list_cmp
add_exclusive name n m = elim (get name m) [
  | none ↦ m
  | some b ↦ insert name (record b { exclusive_bytes = b.exclusive_bytes + n }) m
]

unfoldable pub add_evicted : Text → ℕ → Buckets → Buckets
unfolding get insert list_cmp
add_evicted name n m = elim (get name m) [
  | none ↦ m
  | some b ↦ insert name (record b { evicted_bytes = b.evicted_bytes + n }) m
]

abbrev pub label_at : List Text → ℕ → Text
label_at labels u = get_or [] labels u

-- A blob whose referrers all carry one label counts under it.
unfoldable pub count_exclusive : Snapshot → List Text → ℕ → List (List ℕ) → Buckets → Buckets
unfolding add_exclusive list_cmp
count_exclusive snap labels b [] m = m
count_exclusive snap labels b ([] ∷ refs) m = count_exclusive snap labels (b + 1) refs m
count_exclusive snap labels b ((u ∷ us) ∷ refs) m = count_exclusive snap labels (b + 1) refs (
    if all (λ v. text_eq (label_at labels v) (label_at labels u)) (u ∷ us)
    then add_exclusive (label_at labels u) (blob_bytes snap b) m
    else m)

unfoldable pub count_freed : Snapshot → List Text → List (ℕ × ℕ) → Buckets → Buckets
unfolding add_evicted
count_freed snap labels [] m = m
count_freed snap labels ((blob, unit) ∷ fs) m =
    count_freed snap labels fs (add_evicted (label_at labels unit) (blob_bytes snap blob) m)

unfoldable pub buckets : Plan → Snapshot → Text → (Evictable → Text) → List GcBucket
unfolding count_units count_exclusive count_freed
buckets plan snap group label =
    let labels = map label snap.units in
    values (
      count_freed snap labels plan.freed
        (count_exclusive snap labels 0 snap.referrers (count_units group labels plan.evicted [])))

unfoldable pub kind_label : Kind → Text
kind_label Kind.library = codes "library"
kind_label Kind.executable = codes "executable"
kind_label Kind.linked = codes "linked output"
kind_label Kind.build_script = codes "build-script run"
kind_label Kind.declared = codes "declared action"
kind_label Kind.archive = codes "archive"

unfoldable pub protocol_label : Option ℕ → Text
unfolding decimal
protocol_label none = codes "unversioned"
protocol_label (some protocol) = codes "protocol " ++ decimal protocol

abbrev pub scope_label : Bool → Text
scope_label true = codes "pinned to a checkout"
scope_label false = codes "shareable"

unfoldable pub age_label : ℕ → ℕ → Text
age_label now last_used_ms =
    let days = (now - last_used_ms) / day_ms in
    if days == 0
    then codes "used within 1 day"
    else if ltb days 3
    then codes "used 1-3 days ago"
    else if ltb days 7
    then codes "used 3-7 days ago"
    else codes "used over 7 days ago"

-- The larger evicted bytes first, then the larger exclusive bytes.
abbrev pub larger_first : GcBucket → GcBucket → Bool
larger_first a b =
    ltb b.evicted_bytes a.evicted_bytes
    || ((a.evicted_bytes == b.evicted_bytes)
        && (ltb b.exclusive_bytes a.exclusive_bytes || a.exclusive_bytes == b.exclusive_bytes))

abbrev pub truncate {ℓ} : {A : Type ℓ} → ℕ → List A → List A
truncate zero xs = []
truncate (suc n) [] = []
truncate (suc n) (x ∷ xs) = x ∷ truncate n xs

unfoldable pub breakdown : Plan → Snapshot → List GcBucket
unfolding buckets kind_label protocol_label age_label sort_by
breakdown plan snap =
    buckets plan snap (codes "protocol") (λ u. protocol_label u.protocol)
    ++ buckets plan snap (codes "kind") (λ u. kind_label u.kind)
    ++ buckets plan snap (codes "scope") (λ u. scope_label u.pinned)
    ++ buckets plan snap (codes "last use") (λ u. age_label snap.started_ms u.last_used_ms)
    ++ truncate top_crates
        (sort_by larger_first (buckets plan snap (codes "crate") (λ u. u.crate_name)))
