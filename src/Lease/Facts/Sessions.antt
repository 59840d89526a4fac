-- ===== src/Lease/Facts/Sessions.antt =====
-- Session tokens: crates/bellows-lease/src/scheduler.rs, `admit`, `token`.
use bellows.Prelude.{
  ℕ, zero, suc, ◌+◌, ◌-◌, ◌*◌, ◌/◌, ◌%◌, ◌^◌, ◌<◌, ◌≡◌, ◌≢◌, refl, sym, ap, ◌∙◌, true, false, none,
  some, [], ◌∷◌, ◌++◌, if◌then◌else◌, ltb, leb, arith, ◌&&◌, Bool-cases, Option-cases, inl, inr,
  ◌↔◌,
}
use bellows.Prelude.Key.{text_key, nat_key, same_iff, same_refl}
use bellows.Prelude.Map.{get}
use bellows.Prelude.Text.{Text}
use native.Mathlib.Nat.{pow-suc}
use bellows.Prelude.Decimal.{decimal, decimal_onto}
use bellows.Lease.Token.{hex_onto, token_text}
use bellows.Lease.Protocol.{Request}
use bellows.Lease.State.{Scheduler, Holder, Grant, Admission, knows, jobs}
use bellows.Lease.Scheduler.Admit.{admit, carries_token, is_preempting}

-- The number that a text's leading digits continue.
read_onto : ℕ → Text → ℕ
read_onto a [] = a
read_onto a (c ∷ s) =
    let more = read_onto (a * 10 + (c - 48)) s in if leb 48 c && leb c 57 then more else a

read_digit :
    (a d : ℕ) (acc : Text) → d < 10 → read_onto a ((48 + d) ∷ acc) ≡ read_onto (a * 10 + d) acc
unfolding read_onto
read_digit a d acc h = ground arith

decimal_step :
    (fuel n : ℕ) (acc : Text)
    → decimal_onto (suc fuel) n acc
      ≡ (if ltb n 10 then (48 + n) ∷ acc else decimal_onto fuel (n / 10) ((48 + n % 10) ∷ acc))
unfolding decimal_onto
decimal_step fuel n acc = refl

read_onto-decimal_onto :
    (fuel n : ℕ) (acc : Text)
    → n < 10 ^ fuel
    → 0 < fuel
    → read_onto 0 (decimal_onto fuel n acc) ≡ read_onto n acc
read_onto-decimal_onto zero n acc h p = absurd (omega arith)
read_onto-decimal_onto (suc zero) n acc h p =
    ground (arith, decimal_step zero n acc, read_digit 0 n acc)
read_onto-decimal_onto (suc (suc f)) n acc h p = elim (Bool-cases (ltb n 10)) [
  | inl e ↦ ground (arith, decimal_step (suc f) n acc, read_digit 0 n acc)
  | inr e ↦
      rw (decimal_step (suc f) n acc, e)
        (read_onto-decimal_onto (suc f) (n / 10) ((48 + n % 10) ∷ acc)
            (omega (arith, pow-suc 10 (suc f))) (omega arith)
          ∙ read_digit (n / 10) (n % 10) acc (omega arith)
          ∙ ap (λ k. read_onto k acc) (omega arith))
]

decimal_onto-append :
    (fuel n : ℕ) (acc s : Text) → decimal_onto fuel n acc ++ s ≡ decimal_onto fuel n (acc ++ s)
unfolding decimal_onto
decimal_onto-append zero n acc s = refl
decimal_onto-append (suc f) n acc s =
    ground (arith, decimal_onto-append f (n / 10) ((48 + n % 10) ∷ acc) s)

read_onto-dash : (a : ℕ) (s : Text) → read_onto a (b'-' ∷ s) ≡ a
unfolding read_onto
read_onto-dash a s = refl

-- The id that a token begins with.
read_token : (id seed : ℕ) → id < 2 ^ 64 → read_onto 0 (token_text id seed) ≡ id
unfolding token_text decimal
read_token id seed h =
    rw (decimal_onto-append 20 id [] (b'-' ∷ hex_onto 16 seed []))
      (read_onto-decimal_onto 20 id (b'-' ∷ hex_onto 16 seed []) (omega arith) (omega arith))
    ∙ read_onto-dash id (hex_onto 16 seed [])

-- The tokens of two ids differ, whatever the seeds were.
pub token_text_injective :
    (id other seed seed' : ℕ)
    → id < 2 ^ 64
    → other < 2 ^ 64
    → token_text id seed ≡ token_text other seed'
    → id ≡ other
token_text_injective id other seed seed' h k e =
    sym (read_token id seed h) ∙ ap (read_onto 0) e ∙ read_token other seed' k

-- The session whose token a request carries, on a known machine.
abbrev pub InSession : Scheduler → Request → Type 0
InSession s r =
    (knows s r.machine ≡ true)
    × ((h : Holder) × (t : Text) × (get r.machine s.holders ≡ some h)
        × (h.token ≡ some t)
        × (r.token ≡ some t)
        × (h.preempting ≡ false))

carried :
    (r : Request) (h : Holder)
    → carries_token r (some h) ≡ true
    → (t : Text) × (h.token ≡ some t) × (r.token ≡ some t)
unfolding carries_token
carried r h e = elim (Option-cases r.token) [
  | inl n ↦ cc (rw (n, carries_token) at e)
  | inr (t, n) ↦ elim (Option-cases h.token) [
    | inl m ↦ cc (rw (n, m, carries_token) at e)
    | inr (u, m) ↦ (u, m, n ∙ ap some (sym ((same_iff u t).0 (rw (n, m, carries_token) at e))))
  ]
]

admit_nested :
    (s : Scheduler) (r : Request) (now : ℕ) (h : Holder)
    → get r.machine s.holders ≡ some h
    → (g : Grant) → (admit s r now).1 ≡ Admission.nested g
    → (knows s r.machine ≡ true) × (carries_token r (some h) ≡ true) × (h.preempting ≡ false)
unfolding admit is_preempting
admit_nested s r now h at g e = ground arith

admit_unheld :
    (s : Scheduler) (r : Request) (now : ℕ) (g : Grant)
    → get r.machine s.holders ≡ none
    → (admit s r now).1 ≢ Admission.nested g
unfolding admit carries_token
admit_unheld s r now g at e = ground arith

in_session :
    (s : Scheduler) (r : Request) (now : ℕ) (g : Grant)
    → (admit s r now).1 ≡ Admission.nested g
    → InSession s r
in_session s r now g e = elim (Option-cases (get r.machine s.holders)) [
  | inl at ↦ absurd (admit_unheld s r now g at e)
  | inr (h, at) ↦
      let (k, c, p) = admit_nested s r now h at g e in
      let (t, ht, rt) = carried r h c in (k, (h, t, at, ht, rt, p))
]

nested_grant : Scheduler → Request → ℕ → Grant
nested_grant s r now = record {
  id = s.next_id;
  machine = r.machine;
  jobs = jobs s r.machine now;
  token = r.token;
  nested = true;
}

runs_nested :
    (s : Scheduler) (r : Request) (now : ℕ) (h : Holder) (t : Text)
    → knows s r.machine ≡ true
    → get r.machine s.holders ≡ some h
    → h.token ≡ some t
    → r.token ≡ some t
    → h.preempting ≡ false
    → (admit s r now).1 ≡ Admission.nested (nested_grant s r now)
unfolding admit carries_token is_preempting nested_grant
runs_nested s r now h t k at ht rt p = ground (arith, same_refl t)

-- A request runs nested exactly when it names a known machine and carries the token of the session
-- that holds it, which was not told to end.
pub admit-nested_iff :
    (s : Scheduler) (r : Request) (now : ℕ)
    → ((g : Grant) × ((admit s r now).1 ≡ Admission.nested g)) ↔ InSession s r
admit-nested_iff s r now = (
  λ (g, e). in_session s r now g e,
  λ c.
      let (k, found) = c in
      let (h, t, at, ht, rt, p) = found in
      (nested_grant s r now, runs_nested s r now h t k at ht rt p),
)
