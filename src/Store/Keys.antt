-- ===== src/Store/Keys.antt =====
-- Content keys: crates/bellows-core/src/lib.rs, `validate_content_key`.
use bellows.Prelude.{ℕ, ◌≡◌, ◌↔◌, Bool, true, ◌&&◌, ◌||◌, not, all, length, leb, ◌==◌, arith}
use bellows.Prelude.Text.{Text}
use bellows.Store.Records.{content_key_len}
use bellows.Store.Error.{Error, Result, ok, fail_if}

abbrev pub is_hex : ℕ → Bool
is_hex c = (leb 48 c && leb c 57) || (leb 97 c && leb c 102)

unfoldable pub validate_content_key : Text → Result (Unit {0})
validate_content_key key =
    fail_if (not (length key == content_key_len) || not (all is_hex key)) Error.content_key

-- A key is 64 lowercase hexadecimal digits.
abbrev pub IsKey : Text → Type 0
IsKey key = (length key ≡ content_key_len) × (all is_hex key ≡ true)

pub validate_content_key_iff : (key : Text) → (validate_content_key key ≡ ok tt) ↔ IsKey key
unfolding validate_content_key
validate_content_key_iff key = (λ h. ground arith, λ h. ground arith)
