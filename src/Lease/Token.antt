-- ===== src/Lease/Token.antt =====
-- Session tokens, `format!("{id}-{:016x}", seed)`: crates/bellows-lease/src/scheduler.rs, `token`.
use bellows.Prelude.{ℕ, zero, suc, ◌+◌, ◌*◌, ◌/◌, ◌%◌, ◌^◌, [], ◌∷◌, ◌++◌, ltb, if◌then◌else◌}
use bellows.Prelude.Text.{Text}
use bellows.Prelude.Decimal.{decimal}

unfoldable pub hex_digit : ℕ → ℕ
hex_digit d = if ltb d 10 then 48 + d else 87 + d

-- `{:016x}`: the low `n` hexadecimal digits in front of `acc`.
unfoldable pub hex_onto : ℕ → ℕ → Text → Text
unfolding hex_digit
hex_onto zero x acc = acc
hex_onto (suc n) x acc = hex_onto n (x / 16) (hex_digit (x % 16) ∷ acc)

-- One step of the linear congruential generator, in `wrapping` arithmetic.
unfoldable pub next_seed : ℕ → ℕ
next_seed seed = (seed * 6364136223846793005 + 1442695040888963407) % 2 ^ 64

unfoldable pub token_text : ℕ → ℕ → Text
unfolding decimal hex_onto
token_text id seed = decimal id ++ (b'-' ∷ hex_onto 16 seed [])
