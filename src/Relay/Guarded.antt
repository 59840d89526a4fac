-- ===== src/Relay/Guarded.antt =====
-- The session token and the retries: crates/bellows-cli/src/relay.rs, `authorized`, `upload`.
use Prim.Native.Nat.{bit_or, bit_xor}
use bellows.Prelude.{
  ℕ, zero, suc, ◌<◌, ◌≤◌, ◌+◌, ◌≡◌, ◌↔◌, refl, ap, Bool, true, false, ◌&&◌, none, some, List, [],
  ◌∷◌, ◌++◌, arith, inl, inr, Bool-cases, Option-cases, length, All, ◌==◌, ltb,
}
use bellows.Prelude.Text.{Text, strip_prefix, strip_prefix-append, strip_prefix-eq_some}
use bellows.Relay.Route.{differences, bearer, authorized}
use bellows.Relay.State.{UploadError}
use bellows.Relay.Upload.{
  Answer, Uploaded, answer_status, upload_without_asking_bytes, upload_loop, upload,
}

-- A test of so many numbers, from one on.
passes : (ℕ → Bool) → ℕ → ℕ → Bool
passes test from zero = true
passes test from (suc count) = passes test (suc from) count && test from

passes_at :
    (test : ℕ → Bool) (from count at : ℕ)
    → passes test from count ≡ true
    → from ≤ at
    → at < from + count
    → test at ≡ true
unfolding passes
passes_at test from zero at holds low high = absurd (omega (arith, low, high))
passes_at test from (suc count) at holds low high =
    ground (arith, passes_at test (suc from) count at, holds, low, high)

abbrev is_same : Bool → Bool → Bool
is_same true b = b
is_same false true = false
is_same false false = true

-- On bytes, `^` is zero on equals only, and `|` only where both are; both give bytes.
bytes_table :
    passes
      (λ a.
        passes
          (λ b.
            is_same (bit_xor a b == 0) (a == b)
            && is_same (bit_or a b == 0) (a == 0 && b == 0)
            && ltb (bit_xor a b) 256
            && ltb (bit_or a b) 256)
          0
          256)
      0
      256
    ≡ true
unfolding passes
bytes_table = refl

abbrev pub IsByte : ℕ → Type 0
IsByte b = b < 256

record ByteLaws (a b : ℕ) : Type 0 where
  xor_zero : is_same (bit_xor a b == 0) (a == b) ≡ true
  or_zero : is_same (bit_or a b == 0) (a == 0 && b == 0) ≡ true
  xor_byte : bit_xor a b < 256
  or_byte : bit_or a b < 256

byte_laws : (a b : ℕ) → IsByte a → IsByte b → ByteLaws a b
byte_laws a b ha hb =
    let row = passes_at _ 0 256 a bytes_table (omega arith) ha in
    let cell = passes_at _ 0 256 b row (omega arith) hb in
    record {
      xor_zero = ground (arith, cell);
      or_zero = ground (arith, cell);
      xor_byte = ground (arith, cell);
      or_byte = ground (arith, cell);
    }

-- No difference is found, and none was before, exactly between equal texts of one length.
differences_iff :
    (acc : ℕ) (left right : Text)
    → IsByte acc
    → All IsByte left
    → All IsByte right
    → length left ≡ length right
    → (differences acc left right ≡ 0) ↔ ((acc ≡ 0) × (left ≡ right))
unfolding differences
differences_iff acc [] [] ha hl hr e = ((λ z. (z, refl)), λ p. p.0)
differences_iff acc [] (b ∷ right) ha hl hr e = absurd (omega (arith, e))
differences_iff acc (a ∷ left) [] ha hl hr e = absurd (omega (arith, e))
differences_iff acc (a ∷ left) (b ∷ right) ha hl hr e =
    let x = byte_laws a b hl.0 hr.0 in
    let o = byte_laws acc (bit_xor a b) ha x.xor_byte in
    let (to, from) =
      differences_iff (bit_or acc (bit_xor a b)) left right o.or_byte hl.1 hr.1
        (omega (arith, e)) in
    (
      λ z. ground (arith, to z, x.xor_zero, o.or_zero),
      λ p. from (ground (arith, p, x.xor_zero, o.or_zero)),
    )

abbrev is_token : Text → Text → Bool
is_token token value = length value == length token && differences 0 value token == 0

is_token_iff :
    (token value : Text)
    → All IsByte token
    → All IsByte value
    → (is_token token value ≡ true) ↔ (value ≡ token)
is_token_iff token value ht hv = (
  λ e.
      let l : length value ≡ length token = ground (arith, e) in
      ((differences_iff 0 value token (omega arith) hv ht l).0 (ground (arith, e))).1,
  λ e.
      let d = (differences_iff 0 value token (omega arith) hv ht (ap length e)).1 (refl, e) in
      ground (arith, d, ap length e),
)

All-suffix : (p value : Text) → All IsByte (p ++ value) → All IsByte value
All-suffix [] value h = h
All-suffix (c ∷ p) value h = All-suffix p value h.1

append_cancel : (p value token : Text) → p ++ value ≡ p ++ token → value ≡ token
append_cancel [] value token e = e
append_cancel (c ∷ p) value token e = append_cancel p value token (cc)

-- `authorized`, with any word for `Bearer `.
abbrev accepts : Text → Text → Text → Bool
accepts p token header = elim (strip_prefix p header) [
  | none ↦ false
  | some value ↦ is_token token value
]

accepts_token : (p token : Text) → is_token token token ≡ true → accepts p token (p ++ token) ≡ true
accepts_token p token e = rw (strip_prefix-append p token, accepts) e

accepts_iff :
    (p token header : Text)
    → All IsByte token
    → All IsByte header
    → (accepts p token header ≡ true) ↔ (header ≡ p ++ token)
accepts_iff p token header ht hh = (
  λ a. elim (Option-cases (strip_prefix p header)) [
    | inl e ↦ let b = rw (e, accepts) at a in absurd (cc)
    | inr (value, e) ↦
        let split = strip_prefix-eq_some p header e in
        let hv = All-suffix p value (rw split at hh) in
        let same' = (is_token_iff token value ht hv).0 (rw (e, accepts) at a) in rw (← same') split
  ],
  λ e. rw e (accepts_token p token ((is_token_iff token token ht ht).1 refl)),
)

-- A request is let in exactly with the header `Bearer ` and the session token, byte for byte, though
-- the comparison reads all bytes whatever they are.
pub authorized_iff :
    (token header : Text)
    → All IsByte token
    → All IsByte header
    → (authorized token (some header) ≡ true) ↔ (header ≡ bearer ++ token)
unfolding authorized
authorized_iff token header ht hh = accepts_iff bearer token header ht hh

abbrev loop_end : Answer → Answer → Answer → Uploaded
loop_end (Answer.status x) b c = answer_status x
loop_end Answer.broken_off b c = Uploaded.broken UploadError.unreachable
loop_end Answer.no_file b c = Uploaded.broken UploadError.reopen
loop_end Answer.not_connected (Answer.status x) c = answer_status x
loop_end Answer.not_connected Answer.broken_off c = Uploaded.broken UploadError.unreachable
loop_end Answer.not_connected Answer.no_file c = Uploaded.broken UploadError.reopen
loop_end Answer.not_connected Answer.not_connected (Answer.status x) = answer_status x
loop_end Answer.not_connected Answer.not_connected Answer.no_file =
    Uploaded.broken UploadError.reopen
loop_end Answer.not_connected Answer.not_connected _ = Uploaded.broken UploadError.unreachable

loop_ends :
    (a b c : Answer) (later : List Answer)
    → upload_loop 0 (a ∷ b ∷ c ∷ later) ≡ some (loop_end a b c)
unfolding upload_loop
loop_ends a b c later = ground arith

-- An upload ends within three attempts: after three answers the outcome is there, and what would
-- come later does not change it.
pub upload_ends :
    (size : ℕ) (there : Bool) (a b c : Answer)
    → (outcome : Uploaded) × ((later : List Answer)
        → upload size there (a ∷ b ∷ c ∷ later) ≡ some outcome)
unfolding upload
upload_ends size there a b c = elim (Bool-cases (ltb upload_without_asking_bytes size && there)) [
  | inl e ↦ (Uploaded.present, λ later. rw e refl)
  | inr e ↦ (loop_end a b c, λ later. rw e (loop_ends a b c later))
]
