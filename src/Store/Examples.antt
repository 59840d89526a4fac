-- ===== src/Store/Examples.antt =====
-- The path normalizer and the declared records of crates/bellows-core/src/lib.rs on concrete data, and
-- the theorems on them.
use bellows.Prelude.{◌≡◌, refl, true, false, [], ◌∷◌, none, replicate}
use bellows.Prelude.Key.{text_key}
use bellows.Prelude.Text.{Text, codes, starts_with}
use bellows.Store.Error.{ok}
use bellows.Store.Records.{DeclaredActionRecord}
use bellows.Store.Normalizer.{
  new, normalize_bytes, localize_bytes, replace_one, replace_loop, position,
}
use bellows.Store.Contents.{Host, Store, put_declared}
use bellows.Store.Replaced.{replace_spec, replace_one-spec}
use bellows.Store.Restored.{localize_bytes-normalize_bytes}

abbrev workspace : Text
workspace = codes "/ws"

abbrev output_line : Text
output_line = codes "/ws/a.rs"

normalizes : replace_one workspace (codes "$WS") output_line ≡ codes "$WS/a.rs"
unfolding replace_one replace_loop position starts_with
normalizes = refl

replace_one-spec_example :
    replace_one (workspace) (codes "$WS") output_line
    ≡ replace_spec (workspace) (codes "$WS") 0 output_line
replace_one-spec_example = replace_one-spec b'/' (codes "ws") (codes "$WS") output_line

localize_bytes-normalize_bytes_example :
    localize_bytes
      (normalize_bytes output_line (new ((codes "$WS", workspace) ∷ [])))
      (new ((codes "$WS", workspace) ∷ []))
    ≡ output_line
localize_bytes-normalize_bytes_example =
    localize_bytes-normalize_bytes b'$' (codes "WS") output_line
      (refl, (refl, (refl, (refl, (refl, (refl, (refl, (refl, tt)))))))) workspace

abbrev key_b : Text
key_b = replicate 64 b'b'

abbrev host : Host
host = record {
  digest_bytes = λ b. b;
  digests = record {
    compiler_action_key = λ k f h e. key_b;
    declared_action_key = λ n p c e i o. key_b;
    tree_digest = λ fs. key_b;
  };
  same_record = λ a b. true;
}

abbrev empty : Store
empty = record {
  blobs = [];
  actions = [];
  declared = [];
  archives = [];
  quarantine = [];
  journal = [];
}

abbrev declared : DeclaredActionRecord
declared = record {
  protocol = 6;
  key = key_b;
  name = codes "build";
  created_ms = 3;
  platform = record {
    rustc = codes "r";
    cargo = codes "c";
    rustup_toolchain = none;
    rustup_home_digest = key_b;
    os = codes "linux";
    arch = codes "x86_64";
    host_cc = none;
    host_ld = none;
    host_ar = none;
    path_digest = key_b;
  };
  command = codes "rustc" ∷ codes "a.rs" ∷ [];
  environment = [];
  inputs = [];
  output_paths = codes "out" ∷ [];
  outputs = (record { file_name = codes "out/a"; digest = key_b; executable = false }) ∷ [];
  stdout = record { digest = key_b; len = 0 };
  stderr = record { digest = key_b; len = 0 };
  duration_ms = 1;
  executor = codes "e";
}

declared_published : (put_declared host declared empty).1 ≡ ok true
unfolding put_declared
declared_published = refl
