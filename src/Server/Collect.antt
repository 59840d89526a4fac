-- ===== src/Server/Collect.antt =====
-- The outputs of a declared action: crates/bellows-server/src/main.rs, `collect_output_files`, and the
-- sorting of `execute_declared`.
use bellows.Prelude.{
  ℕ, Bool, true, false, Option, none, some, List, [], ◌∷◌, ◌++◌, if◌then◌else◌, compare, Ordering,
}
use bellows.Prelude.Key.{text_key, list_cmp}
use bellows.Prelude.Text.{Text, text_eq, codes}
use bellows.Store.Error.{ok, err}
use bellows.Store.Records.{Artifact}
use bellows.Store.Paths.{validate_relative_path}
use bellows.Store.Contents
use bellows.Store.Contents.{Host, Store}

-- What lies at a path after the command has run.
mutual
  pub data Node : Type 0 where
    file : Text → Bool → Node
    dir : Entries → Node
    symlink : Node
    other : Node

  pub data Entries : Type 0 where
    end : Entries
    entry : Text → Node → Entries → Entries

-- A file is put as a blob and listed under its path.
unfoldable pub collect_file :
    Host → ℕ → Text → Text → Bool → Store → List Artifact → Store × Option (List Artifact)
collect_file host now path bytes executable s outputs = elim (validate_relative_path path) [
  | err e ↦ (s, none)
  | ok relative ↦
      let digest = host.digest_bytes bytes in
      let put = Contents.put_blob host digest bytes now s in
      elim put.1 [
        | err e ↦ (put.0, none)
        | ok created ↦ (
          put.0,
          some (
              outputs
              ++ record { file_name = relative; digest = digest; executable = executable } ∷ []),
        )
      ]
]

-- Symbolic links and other kinds of files end the collection.
unfoldable mutual
  unfolding collect_file

  pub collect_output_files :
      Host → ℕ → Text → Node → Store → List Artifact → Store × Option (List Artifact)
  collect_output_files host now path (file bytes executable) s outputs =
      collect_file host now path bytes executable s outputs
  collect_output_files host now path (dir entries) s outputs =
      collect_entries host now path entries s outputs
  collect_output_files host now path symlink s outputs = (s, none)
  collect_output_files host now path other s outputs = (s, none)

  pub collect_entries :
      Host → ℕ → Text → Entries → Store → List Artifact → Store × Option (List Artifact)
  collect_entries host now path end s outputs = (s, some outputs)
  collect_entries host now path (entry name node rest) s outputs =
      let first = collect_output_files host now (path ++ codes "/" ++ name) node s outputs in
      elim first.1 [
        | none ↦ (first.0, none)
        | some outputs' ↦ collect_entries host now path rest first.0 outputs'
      ]

-- The trees at the declared outputs; `tree` is what a path leads to, or nothing.
unfoldable pub collect_outputs :
    Host
    → ℕ
    → (Text → Option Node)
    → List Text
    → Store
    → List Artifact
    → Store × Option (List Artifact)
unfolding collect_output_files collect_entries
collect_outputs host now tree [] s outputs = (s, some outputs)
collect_outputs host now tree (path ∷ paths) s outputs = elim (tree path) [
  | none ↦ (s, none)
  | some node ↦
      let first = collect_output_files host now path node s outputs in
      elim first.1 [
        | none ↦ (first.0, none)
        | some outputs' ↦ collect_outputs host now tree paths first.0 outputs'
      ]
]

abbrev pub artifact_le : Artifact → Artifact → Bool
artifact_le a b = elim (list_cmp compare a.file_name b.file_name) [ Ordering.gt ↦ false | _ ↦ true ]

-- `dedup_by`: of neighbours with one name the first is kept.
unfoldable pub dedup_after : Artifact → List Artifact → List Artifact
dedup_after kept [] = []
dedup_after kept (a ∷ rest) =
    let without = dedup_after kept rest in
    let with' = dedup_after a rest in
    if text_eq kept.file_name a.file_name then without else a ∷ with'

unfoldable pub dedup : List Artifact → List Artifact
unfolding dedup_after
dedup [] = []
dedup (a ∷ rest) = a ∷ dedup_after a rest
