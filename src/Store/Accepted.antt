-- ===== src/Store/Accepted.antt =====
-- What an accepted candidate is known to be: crates/bellows-core/src/lib.rs,
-- `validate_candidate_manifest`.
use bellows.Prelude.{
  ℕ, ◌≡◌, ◌≤◌, sym, ap, ◌∙◌, Bool, false, ◌||◌, not, List, [], ◌∷◌, ◌++◌, map, length, any, All,
  ltb, ◌==◌, arith,
}
use bellows.Prelude.Text.{Text, text_eq, contains_byte}
use bellows.Prelude.Key.{text_key, same_iff}
use bellows.Store.Error.{Error, ok, fail_if}
use bellows.Store.Keys.{validate_content_key, validate_content_key_iff, IsKey}
use bellows.Store.Records.{
  EnvInput, Artifact, ActionCandidate, protocol_version, max_candidate_artifacts,
  max_candidate_files, max_candidate_env,
}
use bellows.Store.Paths.{
  validate_normalized_input_path, validate_host_input_path, validate_relative_path, components,
}
use bellows.Store.Manifest.{
  Digests, fresh, check_files, check_environment, check_outputs, bad_name, check_option_key,
  validate_candidate_manifest,
}
use bellows.Store.Sound.{
  Distinct, Distinct-append, path_of, name_of, file_name_of, IsInput, >>-ok, >>=-ok, fresh-ok,
  fail_if-ok, check_files-ok,
}

-- An output is one file name with the key of a blob.
abbrev pub IsOutput : Artifact → Type 0
IsOutput a =
    (validate_relative_path a.file_name ≡ ok a.file_name)
    × (length (components a.file_name) ≡ 1)
    × IsKey a.digest

relative_same : (value : Text) {path : Text} → validate_relative_path value ≡ ok path → path ≡ value
unfolding validate_relative_path
relative_same value h = ground (arith, h)

check_outputs-ok :
    (xs : List Artifact) (seen : List Text) {out : List Text}
    → check_outputs xs seen ≡ ok out
    → All IsOutput xs × Distinct seen (map file_name_of xs)
unfolding check_outputs
check_outputs-ok [] seen h = (tt, tt)
check_outputs-ok (a ∷ xs) seen h =
    let (path, v, h1) = >>=-ok (validate_relative_path a.file_name) _ h in
    let e : path ≡ a.file_name = relative_same a.file_name v in
    let (c, h2) = >>-ok (fail_if (not (length (components path) == 1)) Error.artifact_name) _ h1 in
    let (k, h3) = >>-ok (validate_content_key a.digest) _ h2 in
    let (s, f, h4) = >>=-ok (fresh Error.duplicate_artifact a.file_name seen) _ h3 in
    let (d, q) = fresh-ok Error.duplicate_artifact a.file_name seen f in
    let (p, r) = check_outputs-ok xs (a.file_name ∷ seen) (rw q at h4) in
    let one : not (length (components a.file_name) == 1) ≡ false =
      rw (sym e) (fail_if-ok (not (length (components path) == 1)) Error.artifact_name c) in
    (((v ∙ ap ok e, ground arith, (validate_content_key_iff a.digest).0 k), p), (d, r))

abbrev pub IsVariable : EnvInput → Type 0
IsVariable i =
    (bad_name i.name ≡ false)
    × (contains_byte b'=' i.name ≡ false)
    × (check_option_key i.value_digest ≡ ok tt)

check_environment-ok :
    (xs : List EnvInput) (seen : List Text) {out : List Text}
    → check_environment xs seen ≡ ok out
    → All IsVariable xs × Distinct seen (map name_of xs)
unfolding check_environment
check_environment-ok [] seen h = (tt, tt)
check_environment-ok (i ∷ xs) seen h =
    let (n, h1) =
      >>-ok (fail_if (bad_name i.name || contains_byte b'=' i.name) Error.environment_name) _ h in
    let b = fail_if-ok (bad_name i.name || contains_byte b'=' i.name) Error.environment_name n in
    let (s, f, h2) = >>=-ok (fresh Error.duplicate_environment i.name seen) _ h1 in
    let (d, q) = fresh-ok Error.duplicate_environment i.name seen f in
    let (k, h3) = >>-ok (check_option_key i.value_digest) _ h2 in
    let (p, r) = check_environment-ok xs (i.name ∷ seen) (rw q at h3) in
    (((ground arith, ground arith, k), p), (d, r))

pub equal_ok : (a b : Text) (e : Error) → fail_if (not (text_eq a b)) e ≡ ok tt → a ≡ b
equal_ok a b e h = (same_iff a b).0 (ground (arith, fail_if-ok (not (text_eq a b)) e h))

bounded_ok : (p q : Bool) (n m : ℕ) (e : Error) → fail_if (p || q || ltb m n) e ≡ ok tt → n ≤ m
bounded_ok p q n m e h = ground (arith, fail_if-ok (p || q || ltb m n) e h)

current_ok : (n m : ℕ) (e : Error) → fail_if (not (n == m)) e ≡ ok tt → n ≡ m
current_ok n m e h = ground (arith, fail_if-ok (not (n == m)) e h)

-- A candidate that may be published.
pub record IsCandidate (digests : Digests) (c : ActionCandidate) : Type 0 where
  pub current : c.protocol ≡ protocol_version
  pub static_is_key : IsKey c.static_key
  pub action_is_key : IsKey c.action_key
  pub action_matches :
      digests.compiler_action_key c.static_key c.files c.host_files c.env ≡ c.action_key
  pub few_outputs : length c.artifacts ≤ max_candidate_artifacts
  pub files_are_inputs : All (IsInput validate_normalized_input_path) c.files
  pub host_files_are_inputs : All (IsInput validate_host_input_path) c.host_files
  pub paths_differ : Distinct [] (map path_of c.files ++ map path_of c.host_files)
  pub variables : All IsVariable c.env
  pub names_differ : Distinct [] (map name_of c.env)
  pub outputs : All IsOutput c.artifacts
  pub outputs_differ : Distinct [] (map file_name_of c.artifacts)
  pub stdout_is_key : IsKey c.stdout.digest
  pub stderr_is_key : IsKey c.stderr.digest

-- What the check accepts is such a candidate.
pub validate_candidate_manifest-IsCandidate :
    (digests : Digests) (c : ActionCandidate)
    → validate_candidate_manifest digests c ≡ ok tt
    → IsCandidate digests c
unfolding validate_candidate_manifest
validate_candidate_manifest-IsCandidate digests c h =
    let (p, h1) =
      >>-ok (fail_if (not (c.protocol == protocol_version)) Error.unsupported_protocol) _ h in
    let (s, h2) = >>-ok (validate_content_key c.static_key) _ h1 in
    let (a, h3) = >>-ok (validate_content_key c.action_key) _ h2 in
    let (n, h4) = >>-ok (fail_if (bad_name c.crate_name) Error.crate_name) _ h3 in
    let (l, h5) =
      >>-ok
        (fail_if
          (ltb max_candidate_files (length c.files)
            || ltb max_candidate_env (length c.env)
            || ltb max_candidate_artifacts (length c.artifacts))
          Error.cardinality)
        _ h4 in
    let (paths, f, h6) = >>=-ok (check_files validate_normalized_input_path c.files []) _ h5 in
    let (f1, f2, f3) = check_files-ok validate_normalized_input_path c.files [] f in
    let (m, h7) =
      >>-ok
        (fail_if
          (ltb max_candidate_files (length c.host_files)
            || ltb max_candidate_env (length c.proc_macros))
          Error.cardinality)
        _ h6 in
    let (out, g, h8) = >>=-ok (check_files validate_host_input_path c.host_files paths) _ h7 in
    let (g1, g2, g3) = check_files-ok validate_host_input_path c.host_files paths g in
    let (q, h9) = >>-ok (fail_if (any bad_name c.proc_macros) Error.proc_macro_name) _ h8 in
    let (v, e, h10) = >>=-ok (check_environment c.env []) _ h9 in
    let (e1, e2) = check_environment-ok c.env [] e in
    let (w, o, h11) = >>=-ok (check_outputs c.artifacts []) _ h10 in
    let (o1, o2) = check_outputs-ok c.artifacts [] o in
    let (so, h12) = >>-ok (validate_content_key c.stdout.digest) _ h11 in
    let (se, h13) = >>-ok (validate_content_key c.stderr.digest) _ h12 in
    record {
      current = current_ok c.protocol protocol_version Error.unsupported_protocol p;
      static_is_key = (validate_content_key_iff c.static_key).0 s;
      action_is_key = (validate_content_key_iff c.action_key).0 a;
      action_matches =
          equal_ok (digests.compiler_action_key c.static_key c.files c.host_files c.env)
            c.action_key Error.action_key h13;
      few_outputs =
          bounded_ok (ltb max_candidate_files (length c.files))
            (ltb max_candidate_env (length c.env)) (length c.artifacts) max_candidate_artifacts
            Error.cardinality l;
      files_are_inputs = f1;
      host_files_are_inputs = g1;
      paths_differ =
          Distinct-append [] (map path_of c.files) (map path_of c.host_files) f2 (rw (sym f3) g2);
      variables = e1;
      names_differ = e2;
      outputs = o1;
      outputs_differ = o2;
      stdout_is_key = (validate_content_key_iff c.stdout.digest).0 so;
      stderr_is_key = (validate_content_key_iff c.stderr.digest).0 se;
    }
