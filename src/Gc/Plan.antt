-- ===== src/Gc/Plan.antt =====
-- The plan of a collection: crates/bellows-core/src/gc.rs, `Plan::new`.
use bellows.Prelude.{
  ℕ, zero, suc, ◌+◌, ◌-◌, ◌%◌, Bool, true, false, ◌||◌, ◌&&◌, not, none, some, List, [], ◌∷◌, ◌++◌,
  map, if◌then◌else◌, length, all, get_or, set, replicate, ◌==◌, ltb, leb, is_some,
}
use bellows.Prelude.Text.{is_empty}
use bellows.Prelude.Sort.{sort_by}
use bellows.Gc.State.{
  Evictable, Blob, Snapshot, GcOptions, Plan, is_executable, no_unit, no_blob, u32_mod, grace_ms,
}

abbrev pub unit_at : Snapshot → ℕ → Evictable
unit_at snap u = get_or no_unit snap.units u

abbrev pub blob_bytes : Snapshot → ℕ → ℕ
blob_bytes snap b = (get_or no_blob snap.blobs b).bytes

abbrev pub referrers_of : Snapshot → ℕ → List ℕ
referrers_of snap b = get_or [] snap.referrers b

-- What the loop over the unreferenced blobs has counted.
pub record Loose : Type 0 where
  pub unreferenced : List ℕ
  pub protected_unreferenced : ℕ
  pub bytes_after : ℕ

abbrev pub is_protected : ℕ → Blob → Bool
is_protected now b = ltb (now - b.modified_ms) grace_ms

unfoldable pub loose_blob : Snapshot → ℕ → ℕ → Blob → Loose → Loose
loose_blob snap now index blob l =
    if not (is_empty (referrers_of snap index))
    then l
    else if is_protected now blob
    then record l { protected_unreferenced = l.protected_unreferenced + 1 }
    else record l {
      unreferenced = l.unreferenced ++ (index % u32_mod) ∷ [];
      bytes_after = l.bytes_after - blob.bytes;
    }

unfoldable pub loose_blobs : Snapshot → ℕ → ℕ → List Blob → Loose → Loose
unfolding loose_blob
loose_blobs snap now index [] l = l
loose_blobs snap now index (b ∷ bs) l =
    loose_blobs snap now (index + 1) bs (loose_blob snap now index b l)

-- A candidate older than the oldest protocol that is kept.
unfoldable pub obsolete : GcOptions → Evictable → Bool
obsolete options u = is_some u.candidate && elim options.min_protocol [
  | none ↦ false
  | some minimum ↦ elim u.protocol [ none ↦ false | some protocol ↦ ltb protocol minimum ]
]

-- The order of eviction: obsolete candidates first, then by last use, then by index.
unfoldable pub evicts_before : Snapshot → GcOptions → ℕ → ℕ → Bool
unfolding obsolete
evicts_before snap options a b =
    let x = unit_at snap a in
    let y = unit_at snap b in
    if obsolete options x
    then (if obsolete options y
        then ltb x.last_used_ms y.last_used_ms || (x.last_used_ms == y.last_used_ms && leb a b)
        else true)
    else (if obsolete options y
        then false
        else ltb x.last_used_ms y.last_used_ms || (x.last_used_ms == y.last_used_ms && leb a b))

-- `a..b` of a length.
abbrev pub range : ℕ → ℕ → List ℕ
range from zero = []
range from (suc n) = from ∷ range (from + 1) n

unfoldable pub eviction_order : Snapshot → GcOptions → List ℕ
unfolding evicts_before sort_by
eviction_order snap options =
    sort_by (evicts_before snap options) (range 0 (length snap.units % u32_mod))

-- The variables that `evict` writes.
pub record Evicting : Type 0 where
  pub evicted : List Bool
  pub remaining : List ℕ
  pub freed : List (ℕ × ℕ)
  pub bytes_after : ℕ
  pub executable_bytes : ℕ

-- `remaining[blob] -= 1` on a `u32`.
abbrev pub one_less : ℕ → ℕ
one_less r = (r + u32_mod - 1) % u32_mod

-- One blob of a unit that is evicted.
unfoldable pub unreference : Snapshot → ℕ → ℕ → Evicting → Evicting
unreference snap index b e =
    let r = one_less (get_or 0 e.remaining b) in
    let remaining = set e.remaining b r in
    if r == 0
    then record e {
      remaining = remaining;
      freed = e.freed ++ (b, index) ∷ [];
      bytes_after = e.bytes_after - blob_bytes snap b;
      executable_bytes =
          if is_executable (unit_at snap index).kind
          then e.executable_bytes - blob_bytes snap b
          else e.executable_bytes;
    }
    else record e { remaining = remaining }

unfoldable pub unreference_all : Snapshot → ℕ → List ℕ → Evicting → Evicting
unfolding unreference
unreference_all snap index [] e = e
unreference_all snap index (b ∷ bs) e = unreference_all snap index bs (unreference snap index b e)

unfoldable pub evict : Snapshot → ℕ → Evicting → Evicting
unfolding unreference_all
evict snap index e =
    if get_or false e.evicted index
    then e
    else unreference_all snap index (unit_at snap index).blobs
        (record e { evicted = set e.evicted index true })

-- Only executables reference the blob.
abbrev pub is_only_executable : Snapshot → List ℕ → Bool
is_only_executable snap refs =
    not (is_empty refs) && all (λ u. is_executable (unit_at snap u).kind) refs

unfoldable pub executable_total : Snapshot → ℕ → List (List ℕ) → ℕ
executable_total snap b [] = 0
executable_total snap b (refs ∷ rest) =
    (if is_only_executable snap refs then blob_bytes snap b else 0)
    + executable_total snap (b + 1) rest

unfoldable pub evict_executables : Snapshot → ℕ → List ℕ → Evicting → Evicting
unfolding evict
evict_executables snap budget [] e = e
evict_executables snap budget (u ∷ us) e =
    let rest =
      evict_executables snap budget us
        (if is_executable (unit_at snap u).kind then evict snap u e else e) in
    if leb e.executable_bytes budget then e else rest

unfoldable pub evict_oldest : Snapshot → GcOptions → List ℕ → Evicting → Evicting
unfolding evict obsolete
evict_oldest snap options [] e = e
evict_oldest snap options (u ∷ us) e =
    let rest = evict_oldest snap options us (evict snap u e) in
    if leb e.bytes_after options.max_bytes && not (obsolete options (unit_at snap u))
    then e
    else rest

abbrev pub count_u32 : List ℕ → ℕ
count_u32 refs = length refs % u32_mod

unfoldable pub loose : Snapshot → ℕ → Loose
unfolding loose_blobs
loose snap now =
    loose_blobs snap now 0 snap.blobs
      (record { unreferenced = []; protected_unreferenced = 0; bytes_after = snap.total_bytes })

unfoldable pub nothing_evicted : Snapshot → ℕ → Evicting
unfolding loose executable_total
nothing_evicted snap now = record {
  evicted = replicate (length snap.units) false;
  remaining = map count_u32 snap.referrers;
  freed = [];
  bytes_after = (loose snap now).bytes_after;
  executable_bytes = executable_total snap 0 snap.referrers;
}

unfoldable pub after_executables : Snapshot → GcOptions → ℕ → Evicting
unfolding nothing_evicted evict_executables eviction_order
after_executables snap options now = elim options.max_executable_bytes [
  | none ↦ nothing_evicted snap now
  | some budget ↦
      evict_executables snap budget (eviction_order snap options) (nothing_evicted snap now)
]

unfoldable pub after_oldest : Snapshot → GcOptions → ℕ → Evicting
unfolding after_executables evict_oldest eviction_order
after_oldest snap options now =
    evict_oldest snap options (eviction_order snap options) (after_executables snap options now)

unfoldable pub new_plan : Snapshot → GcOptions → ℕ → Plan
unfolding after_oldest loose
new_plan snap options now =
    let l = loose snap now in
    let e = after_oldest snap options now in
    record {
      evicted = e.evicted;
      freed = e.freed;
      unreferenced = l.unreferenced;
      protected_unreferenced = l.protected_unreferenced;
      bytes_after = e.bytes_after;
    }
