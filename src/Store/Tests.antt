-- ===== src/Store/Tests.antt =====
-- The store of crates/bellows-core/src/lib.rs on concrete records, with simple functions in the place
-- of the digests, and an instance of each theorem with a hypothesis.
use bellows.Prelude.{
  ◌≡◌, ◌↔◌, refl, true, false, none, some, List, [], ◌∷◌, ◌++◌, map, replicate, arith,
}
use bellows.Prelude.Key.{text_key}
use bellows.Prelude.Map.{get}
use bellows.Prelude.Text.{Text, codes, text_eq}
use bellows.Store.Error.{Error, ok, err}
use bellows.Store.Records.{StreamArtifact, ActionCandidate, CandidateIndex, ArchiveManifest}
use bellows.Store.Manifest.{validate_candidate_manifest}
use bellows.Store.Paths.{
  validate_relative_path, validate_normalized_input_path, relative_path_is_within, segments,
  components, starts_slash,
}
use bellows.Store.Contained.{follow, validate_relative_path-follow, relative_path_is_within_iff}
use bellows.Store.Accepted.{IsCandidate, validate_candidate_manifest-IsCandidate}
use bellows.Store.Contents.{
  Host, Store, read_blob, put_blob, read_candidates, put_candidate, with_candidate, read_archive,
  put_archive,
}
use bellows.Store.Published.{read_blob-put_blob}
use bellows.Store.Front.{IsFront}
use bellows.Store.Indexed.{read_candidates-put_candidate}
use bellows.Store.Archived.{read_archive-put_archive}
use bellows.Store.Words.{
  split_makefile_words, rewrite_words, join, escape, split_makefile_words-rewrite_words,
}

abbrev key_a : Text
key_a = replicate 64 b'a'

abbrev key_b : Text
key_b = replicate 64 b'b'

abbrev host : Host
host = record {
  digest_bytes = λ b. b;
  digests = record {
    compiler_action_key = λ k f h e. key_b;
    declared_action_key = λ n p c e i o. key_b;
    tree_digest = λ fs. key_b;
  };
  same_record = λ a b. true;
}

abbrev empty : Store
empty = record {
  blobs = [];
  actions = [];
  declared = [];
  archives = [];
  quarantine = [];
  journal = [];
}

abbrev stream : StreamArtifact
stream = record { digest = key_a; len = 0 }

abbrev candidate : ActionCandidate
candidate = record {
  protocol = 6;
  static_key = key_a;
  action_key = key_b;
  crate_name = codes "example";
  created_ms = 1;
  files = (record { path = codes "$WORKSPACE/src/lib.rs"; digest = key_a }) ∷ [];
  host_files = (record { path = codes "/usr/lib/crt1.o"; digest = key_a }) ∷ [];
  env = (record { name = codes "MODE"; value_digest = some key_a; normalized = false }) ∷ [];
  artifacts =
      (record { file_name = codes "libexample.rlib"; digest = key_a; executable = false }) ∷ [];
  stdout = stream;
  stderr = stream;
  proc_macros = [];
}

candidate_accepted : validate_candidate_manifest host.digests candidate ≡ ok tt
unfolding validate_candidate_manifest
candidate_accepted = refl

validate_candidate_manifest-IsCandidate_example : IsCandidate host.digests candidate
validate_candidate_manifest-IsCandidate_example =
    validate_candidate_manifest-IsCandidate host.digests candidate candidate_accepted

-- `normalized_windows_paths_keep_the_same_traversal_boundary`.
windows_path : validate_normalized_input_path (codes "$WORKSPACE\\src\\lib.rs") ≡ ok tt
unfolding validate_normalized_input_path
windows_path = refl

traversal :
    validate_normalized_input_path (codes "$WORKSPACE\\..\\secret") ≡ err Error.normalized_segment
unfolding validate_normalized_input_path
traversal = refl

published : (put_candidate host candidate 8 5 empty).1 ≡ ok tt
unfolding put_candidate
published = refl

-- The same candidate published again, with another time, takes the place of the first.
abbrev newer : ActionCandidate
newer = record candidate { created_ms = 2 }

abbrev once : Store
once = (put_candidate host candidate 8 5 empty).0

published_again : (put_candidate host newer 8 6 once).1 ≡ ok tt
unfolding put_candidate
published_again = refl

replaced :
    (read_candidates host key_a (put_candidate host newer 8 6 once).0).1
    ≡ ok (record { candidates = newer ∷ [] })
unfolding put_candidate
replaced = refl

read_candidates-put_candidate_example :
    let after = (put_candidate host newer 8 6 once).0 in
    (index : CandidateIndex) × ((read_candidates host key_a once).1 ≡ ok index)
    × (read_candidates host key_a after ≡ (after, ok (with_candidate newer 8 index)))
    × IsFront newer 8 index.candidates (with_candidate newer 8 index).candidates
read_candidates-put_candidate_example =
    read_candidates-put_candidate host newer 8 6 once (omega arith) published_again

blob_stored : (put_blob host key_a key_a 5 empty).1 ≡ ok true
unfolding put_blob
blob_stored = refl

read_blob-put_blob_example :
    ((x : Text) × (read_blob host key_a (put_blob host key_a key_a 5 empty).0 ≡ ok x)
      × (host.digest_bytes x ≡ key_a))
    × ((d : Text)
        → text_eq d key_a ≡ false
        → get d (put_blob host key_a key_a 5 empty).0.blobs ≡ get d empty.blobs)
read_blob-put_blob_example = read_blob-put_blob host key_a key_a 5 empty true blob_stored

abbrev archive : ArchiveManifest
archive = record {
  protocol = 6;
  name = codes "nightly";
  tree_digest = key_b;
  created_ms = 3;
  producer_action = none;
  files = (record { file_name = codes "bin/tool"; digest = key_a; executable = true }) ∷ [];
}

archive_published : (put_archive host archive empty).1 ≡ ok true
unfolding put_archive
archive_published = refl

read_archive-put_archive_example :
    (e : ArchiveManifest) × ((read_archive host
        (codes "nightly")
        (put_archive host archive empty).0).1
      ≡ ok (some e))
    × (e.tree_digest ≡ key_b)
read_archive-put_archive_example =
    read_archive-put_archive host archive empty true archive_published

-- The name is bound, and another tree is offered under it.
bound : Store
bound = record empty { archives = (codes "nightly", some archive) ∷ [] }

-- Another digest of trees.
abbrev other_host : Host
other_host = record host {
  digests = record {
    compiler_action_key = λ k f h e. key_b;
    declared_action_key = λ n p c e i o. key_b;
    tree_digest = λ fs. elim fs [ [] ↦ key_a | f ∷ r ↦ key_b ];
  };
}

abbrev empty_archive : ArchiveManifest
empty_archive = record archive { tree_digest = key_a; files = [] }

validate_relative_path-follow_example :
    (codes "bin/tool" ≡ codes "bin/tool")
    × (starts_slash (codes "bin/tool") ≡ false)
    × (follow (codes "out" ∷ []) (segments (codes "bin/tool"))
        ≡ codes "out" ∷ segments (codes "bin/tool"))
    × (follow (codes "out" ∷ []) (components (codes "bin/tool"))
        ≡ codes "out" ∷ components (codes "bin/tool"))
unfolding validate_relative_path
validate_relative_path-follow_example =
    validate_relative_path-follow (codes "bin/tool") (codes "bin/tool") (codes "out" ∷ []) refl

relative_path_is_within_iff_example :
    (relative_path_is_within (codes "out/a") (codes "out") ≡ true)
    ↔ ((rest : List Text) × (segments (codes "out/a") ≡ segments (codes "out") ++ rest))
relative_path_is_within_iff_example = relative_path_is_within_iff (codes "out/a") (codes "out")

abbrev words : List Text
words = codes "src/lib.rs" ∷ codes "my dir/main.rs" ∷ []

split_makefile_words-rewrite_words_example :
    split_makefile_words (rewrite_words (λ w. codes "x/" ++ w) (join (map escape words)))
    ≡ map (λ w. codes "x/" ++ w) words
split_makefile_words-rewrite_words_example =
    split_makefile_words-rewrite_words (λ w. codes "x/" ++ w) words
      ((refl, refl, refl), ((refl, refl, refl), tt)) ((refl, refl, refl), ((refl, refl, refl), tt))
