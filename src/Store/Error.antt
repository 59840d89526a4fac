-- ===== src/Store/Error.antt =====
-- The errors of the store's checks, crates/bellows-core/src/lib.rs: one for each `bail!`, without the
-- values that its message quotes.
use bellows.Prelude.{Bool, true, false, List, [], ◌∷◌}

pub data Error : Type 0 where
  content_key : Error
  normalized_too_long : Error
  normalized_root : Error
  normalized_segment : Error
  host_too_long : Error
  host_relative : Error
  host_segment : Error
  unsupported_protocol : Error
  crate_name : Error
  cardinality : Error
  duplicate_input : Error
  proc_macro_name : Error
  environment_name : Error
  duplicate_environment : Error
  artifact_name : Error
  duplicate_artifact : Error
  action_key : Error
  output_in_state : Error
  output_overlap : Error
  declared_name : Error
  environment_entry : Error
  duplicate_output : Error
  outside_roots : Error
  executor : Error
  declared_key : Error
  archive_count : Error
  tree_digest : Error
  platform_field : Error
  path_empty : Error
  path_segment : Error
  path_component : Error
  archive_name : Error
  command_size : Error
  command_empty : Error
  command_program : Error
  command_flags : Error
  command_escape : Error
  blob_digest : Error
  corrupt_blob : Error
  wrong_path : Error
  missing : Error
  immutable : Error
  malformed : Error

pub data Result {ℓ} (Value : Type ℓ) : Type ℓ where
  err : Error → Result Value
  ok : Value → Result Value

-- What `?` and a statement that ends in `?` do.
infixl 5 ◌>>=◌ ◌>>◌
abbrev pub ◌>>=◌ {ℓ κ} :
    {Value : Type ℓ} {Next : Type κ} → Result Value → (Value → Result Next) → Result Next
◌>>=◌ r next = elim r [ err e ↦ err e | ok value ↦ next value ]

abbrev pub ◌>>◌ {ℓ κ} : {Value : Type ℓ} {Next : Type κ} → Result Value → Result Next → Result Next
◌>>◌ r next = r >>= λ (ignored : _). next

-- `bail!` under a test.
abbrev pub fail_if : Bool → Error → Result (Unit {0})
fail_if true e = err e
fail_if false e = ok tt

abbrev pub is_ok {ℓ} : {A : Type ℓ} → Result A → Bool
is_ok (ok a) = true
is_ok (err e) = false

-- A check of each element, up to the first error.
abbrev pub each {ℓ} : {A : Type ℓ} → (A → Result (Unit {0})) → List A → Result (Unit {0})
each f [] = ok tt
each f (x ∷ xs) = f x >> each f xs
