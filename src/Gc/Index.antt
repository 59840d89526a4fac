-- ===== src/Gc/Index.antt =====
-- The snapshot of a store: crates/bellows-core/src/gc.rs, `Snapshot::read` and `candidate_kind`.
-- The files it walks are arguments: each blob with its size and its time, each record decoded.
use bellows.Prelude.{
  ℕ, ◌+◌, ◌%◌, Bool, true, false, ◌||◌, ◌&&◌, not, none, some, List, [], ◌∷◌, ◌++◌, map, max,
  if◌then◌else◌, length, any, get_or, set, replicate, ◌==◌,
}
use bellows.Prelude.Key.{text_key, list_cmp, nat_key}
use bellows.Prelude.Map.{Map, get, insert}
use bellows.Prelude.Text.{Text, codes, starts_with, text_eq}
use bellows.Store.Records.{
  Artifact, ActionCandidate, CandidateIndex, DeclaredActionRecord, ArchiveManifest,
}
use bellows.Gc.State.{Kind, Evictable, Blob, Snapshot, saturating_add, no_unit, u32_mod}

-- The pairs (static key, action key) with their newest use.
abbrev pub Journal : Type 0
Journal = List ((Text × Text) × ℕ)

unfoldable pub last_use : Text → Text → Journal → ℕ
last_use key action [] = 0
last_use key action (((k, a), ms) ∷ j) =
    if text_eq key k && text_eq action a then ms else last_use key action j

-- `str::ends_with`.
unfoldable pub ends_with : Text → Text → Bool
ends_with suffix [] = text_eq suffix []
ends_with suffix (c ∷ s) = text_eq suffix (c ∷ s) || ends_with suffix s

abbrev pub is_metadata : Artifact → Bool
is_metadata a =
    ends_with (codes ".rlib") a.file_name
    || ends_with (codes ".rmeta") a.file_name
    || ends_with (codes ".d") a.file_name

abbrev pub is_shared_object : Artifact → Bool
is_shared_object a =
    ends_with (codes ".so") a.file_name
    || ends_with (codes ".dylib") a.file_name
    || ends_with (codes ".dll") a.file_name

unfoldable pub candidate_kind : Text → List Artifact → Kind
unfolding starts_with ends_with
candidate_kind crate_name artifacts =
    if starts_with (codes "build-script:") crate_name
      || any (λ a. text_eq a.file_name (codes "out-dir.tree")) artifacts
    then Kind.build_script
    else if any (λ a. not (is_metadata a)) artifacts
    then (if any is_shared_object artifacts || starts_with (codes "build_script_") crate_name
        then Kind.linked
        else Kind.executable)
    else Kind.library

-- A blob file by its name, its length and its time of modification.
abbrev pub BlobFile : Type 0
BlobFile = Text × ℕ × ℕ

unfoldable pub index_digests : ℕ → List BlobFile → Map Text ℕ → Map Text ℕ
unfolding insert list_cmp
index_digests n [] m = m
index_digests n ((name, len, time) ∷ fs) m = index_digests (n + 1) fs (insert name (n % u32_mod) m)

abbrev pub to_blob : BlobFile → Blob
to_blob (name, len, time) = record { digest = name; bytes = len; modified_ms = time }

unfoldable pub total_of : ℕ → List BlobFile → ℕ
total_of total [] = total
total_of total ((name, len, time) ∷ fs) = total_of (saturating_add total len) fs

-- What the closure `add` writes.
pub record Indexed : Type 0 where
  pub units : List Evictable
  pub referrers : List (List ℕ)

-- The blobs of a unit: each digest that names a blob, once.
unfoldable pub blobs_named : Map Text ℕ → List ℕ → List Text → List ℕ
unfolding get list_cmp
blobs_named by_digest seen [] = []
blobs_named by_digest seen (d ∷ ds) = elim (get d by_digest) [
  | none ↦ blobs_named by_digest seen ds
  | some b ↦ elim (any (λ x. x == b) seen) [
    | true ↦ blobs_named by_digest seen ds
    | false ↦ b ∷ blobs_named by_digest (b ∷ seen) ds
  ]
]

-- `referrers[blob].push(index)` for each blob.
unfoldable pub push_referrers : ℕ → List ℕ → List (List ℕ) → List (List ℕ)
push_referrers index [] refs = refs
push_referrers index (b ∷ bs) refs =
    push_referrers index bs (set refs b (get_or [] refs b ++ index ∷ []))

unfoldable pub add : Map Text ℕ → Indexed → Evictable × List Text → Indexed
unfolding blobs_named push_referrers
add by_digest ix (unit, digests) =
    let named = blobs_named by_digest [] digests in
    record {
      units = ix.units ++ (record unit { blobs = named }) ∷ [];
      referrers = push_referrers (length ix.units % u32_mod) named ix.referrers;
    }

unfoldable pub add_all : Map Text ℕ → Indexed → List (Evictable × List Text) → Indexed
unfolding add
add_all by_digest ix [] = ix
add_all by_digest ix (u ∷ us) = add_all by_digest (add by_digest ix u) us

abbrev pub artifact_digest : Artifact → Text
artifact_digest a = a.digest

abbrev pub pin_prefix : Text
pin_prefix = codes "@bellows:root:"

unfoldable pub candidate_unit : Journal → Text → ActionCandidate → Evictable × List Text
unfolding last_use candidate_kind starts_with
candidate_unit journal path c = (
  record no_unit {
    path = path;
    candidate = some (c.action_key, c.created_ms);
    static_key = some c.static_key;
    protocol = some c.protocol;
    crate_name = c.crate_name;
    kind = candidate_kind c.crate_name c.artifacts;
    pinned = any (λ i. starts_with pin_prefix i.name) c.env;
    last_used_ms = max (last_use c.static_key c.action_key journal) c.created_ms;
    blobs = [];
  },
  map artifact_digest c.artifacts ++ c.stdout.digest ∷ c.stderr.digest ∷ [],
)

unfoldable pub candidate_units :
    Journal → List (Text × CandidateIndex) → List (Evictable × List Text)
unfolding candidate_unit
candidate_units journal [] = []
candidate_units journal ((path, index) ∷ rest) =
    map (candidate_unit journal path) index.candidates ++ candidate_units journal rest

-- A record file with the time of its modification.
unfoldable pub declared_unit : Text × ℕ × DeclaredActionRecord → Evictable × List Text
declared_unit (path, modified, r) = (
  record no_unit {
    path = path;
    candidate = none;
    static_key = none;
    protocol = none;
    crate_name = r.name;
    kind = Kind.declared;
    pinned = false;
    last_used_ms = modified;
    blobs = [];
  },
  map artifact_digest r.inputs
      ++ map artifact_digest r.outputs
      ++ r.stdout.digest ∷ r.stderr.digest ∷ [],
)

unfoldable pub archive_unit : Text × ℕ × ArchiveManifest → Evictable × List Text
archive_unit (path, modified, m) = (
  record no_unit {
    path = path;
    candidate = none;
    static_key = none;
    protocol = some m.protocol;
    crate_name = m.name;
    kind = Kind.archive;
    pinned = false;
    last_used_ms = max modified m.created_ms;
    blobs = [];
  },
  map artifact_digest m.files,
)

-- Everything that the snapshot reads of a store.
pub record Files : Type 0 where
  pub blobs : List BlobFile
  pub actions : List (Text × CandidateIndex)
  pub declared : List (Text × ℕ × DeclaredActionRecord)
  pub archives : List (Text × ℕ × ArchiveManifest)

unfoldable pub records : Journal → Files → List (Evictable × List Text)
unfolding candidate_units declared_unit archive_unit
records journal files =
    candidate_units journal files.actions
    ++ map declared_unit files.declared
    ++ map archive_unit files.archives

unfoldable pub read : ℕ → Journal → Files → Snapshot
unfolding index_digests total_of add_all records
read started_ms journal files =
    let by_digest = index_digests 0 files.blobs [] in
    let ix =
      add_all by_digest (record { units = []; referrers = replicate (length files.blobs) [] })
        (records journal files) in
    record {
      units = ix.units;
      blobs = map to_blob files.blobs;
      referrers = ix.referrers;
      journal_entries = length journal;
      total_bytes = total_of 0 files.blobs;
      started_ms = started_ms;
    }
