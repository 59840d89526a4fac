-- ===== src/Gc/Apply.antt =====
-- The plan applied to the store: crates/bellows-core/src/gc.rs, `apply`, `evict_from`, `Recent`.
use bellows.Prelude.{
  ℕ, zero, suc, ◌+◌, ◌-◌, Bool, false, ◌&&◌, ◌||◌, not, Option, none, some, List, [], ◌∷◌, ◌++◌,
  map, if◌then◌else◌, length, any, all, retain, leb, ◌==◌, is_some,
}
use bellows.Prelude.Text.{Text, is_empty, text_eq}
use bellows.Prelude.Key.{text_key, list_cmp}
use bellows.Prelude.Map.{Map, get, remove}
use bellows.Store.Records.{ActionCandidate, CandidateIndex}
use bellows.Gc.State.{Evictable, coarse_clock_slack_ms, saturating_add}
use bellows.Gc.Index.{artifact_digest}
use bellows.Gc.Journal.{Entry, parse_lines, is_newline}

-- What has been used since the journal was rotated.
pub record Recent : Type 0 where
  pub offset : ℕ
  pub uses : List (Text × Text)
  pub blobs : List Text

abbrev pub same_use : Text × Text → Text × Text → Bool
same_use (k, a) (l, b) = text_eq k l && text_eq a b

-- The text up to its last line end, which belongs to it: `none` without one.
unfoldable pub whole_lines : Text → Option Text
whole_lines [] = none
whole_lines (c ∷ s) =
    let rest = whole_lines s in
    elim rest [ some t ↦ some (c ∷ t) | none ↦ if is_newline c then some (c ∷ []) else none ]

abbrev pub drop : ℕ → Text → Text
drop zero s = s
drop (suc n) [] = []
drop (suc n) (c ∷ s) = drop n s

abbrev pub entry_use : Entry → Text × Text
entry_use (key, action, ms) = (key, action)

abbrev pub entry_key : Entry → Text
entry_key (key, action, ms) = key

unfoldable pub candidate_digests : List ActionCandidate → List Text
candidate_digests [] = []
candidate_digests (c ∷ cs) =
    (map artifact_digest c.artifacts ++ c.stdout.digest ∷ c.stderr.digest ∷ [])
    ++ candidate_digests cs

-- The blobs of the indexes that the entries name, as far as they can be read.
unfoldable pub used_digests : (Text → Option CandidateIndex) → List Text → List Text
unfolding candidate_digests
used_digests read_candidates [] = []
used_digests read_candidates (k ∷ ks) =
    elim (read_candidates k) [ none ↦ [] | some index ↦ candidate_digests index.candidates ]
    ++ used_digests read_candidates ks

unfoldable pub refresh_from : (Text → Option CandidateIndex) → Text → Recent → Recent
unfolding whole_lines parse_lines used_digests
refresh_from read_candidates journal r = elim (whole_lines (drop r.offset journal)) [
  | none ↦ r
  | some text ↦
      let entries = parse_lines text in
      record {
        offset = r.offset + length text;
        uses = r.uses ++ map entry_use entries;
        blobs = r.blobs ++ used_digests read_candidates (map entry_key entries);
      }
]

-- Without a journal file nothing has been used.
unfoldable pub refresh : (Text → Option CandidateIndex) → Option Text → Recent → Recent
unfolding refresh_from
refresh read_candidates none r = r
refresh read_candidates (some journal) r = refresh_from read_candidates journal r

-- A unit that is planned for eviction names the candidate, and no use of it is recent.
unfoldable pub evicts_candidate : Recent → ActionCandidate → Evictable → Bool
evicts_candidate recent c u = elim u.candidate [
  | none ↦ false
  | some (action, created) ↦
      text_eq action c.action_key
      && (created == c.created_ms)
      && not (any (same_use (c.static_key, action)) recent.uses)
]

-- A record file: an index that can be decoded, or another content.
pub data RecordFile : Type 0 where
  index : CandidateIndex → RecordFile
  opaque : RecordFile

-- The file after the eviction, and how many units left it.
unfoldable pub evict_from : List Evictable → Recent → Option RecordFile → Option RecordFile × ℕ
unfolding evicts_candidate
evict_from units recent none = (none, 0)
evict_from units recent (some RecordFile.opaque) =
    if all (λ u. not (is_some u.candidate)) units then (none, 1) else (some RecordFile.opaque, 0)
evict_from units recent (some (RecordFile.index i)) =
    if all (λ u. not (is_some u.candidate)) units
    then (none, 1)
    else (let kept = retain (λ c. not (any (evicts_candidate recent c) units)) i.candidates in
        let removed = length i.candidates - length kept in
        if removed == 0
        then (some (RecordFile.index i), 0)
        else if is_empty kept
        then (none, removed)
        else (some (RecordFile.index (record { candidates = kept })), removed))

-- The blob files by their digests, with their times of modification, and the counts of `apply`.
pub record Deleting : Type 0 where
  pub files : Map Text ℕ
  pub deleted : ℕ
  pub skipped : ℕ

-- A blob that was written, offered or used since the snapshot began.
abbrev pub is_reused : ℕ → Recent → Text → ℕ → Bool
is_reused started_ms recent digest modified =
    leb started_ms (saturating_add modified coarse_clock_slack_ms)
    || any (text_eq digest) recent.blobs

unfoldable pub delete_blob : ℕ → Recent → Text → Deleting → Deleting
unfolding get remove list_cmp
delete_blob started_ms recent digest d = elim (get digest d.files) [
  | none ↦ d
  | some modified ↦
      if is_reused started_ms recent digest modified
      then record d { skipped = d.skipped + 1 }
      else record d { files = remove digest d.files; deleted = d.deleted + 1 }
]

unfoldable pub delete_batch : ℕ → Recent → List Text → Deleting → Deleting
unfolding delete_blob
delete_batch started_ms recent [] d = d
delete_batch started_ms recent (b ∷ bs) d =
    delete_batch started_ms recent bs (delete_blob started_ms recent b d)

-- The batches, each after what other processes did to the files since the last, with what is known
-- of recent uses by then.
pub record Batch : Type 0 where
  pub found : Map Text ℕ → Map Text ℕ
  pub recent : Recent
  pub digests : List Text

unfoldable pub delete_batches : ℕ → List Batch → Deleting → Deleting
unfolding delete_batch
delete_batches started_ms [] d = d
delete_batches started_ms (b ∷ bs) d =
    delete_batches started_ms bs
      (delete_batch started_ms b.recent b.digests (record d { files = b.found d.files }))
