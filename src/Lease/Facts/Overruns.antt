-- ===== src/Lease/Facts/Overruns.antt =====
-- Overruns: crates/bellows-lease/src/scheduler.rs, `overruns`.
use bellows.Prelude.{
  ℕ, ◌-◌, ◌*◌, ◌^◌, ◌<◌, ◌≡◌, refl, Bool, true, false, not, [], ◌∷◌, ltb, arith, ◌&&◌, All, retain,
  map,
}
use bellows.Prelude.Map.{Map, values}
use bellows.Prelude.Text.{Text}
use bellows.Lease.State.{Scheduler, Holder}
use bellows.Lease.Scheduler.Admin.{overruns, overrun_holders, is_over, saturating_mul}

abbrev pub logged : Holder → Holder
logged h = record h { overrun_logged = true }

-- Held for more than 1.5 times the estimate, and not reported before.
abbrev pub is_late : ℕ → Holder → Bool
is_late now h = not h.overrun_logged && ltb (h.estimate_secs * 1500) (now - h.since_ms)

is_over-is_late :
    (now : ℕ) (h : Holder) → h.estimate_secs * 1500 < 2 ^ 64 → is_over h now ≡ is_late now h
unfolding is_over saturating_mul
is_over-is_late now h b = ground arith

is_over-logged : (now : ℕ) (h : Holder) → is_over (logged h) now ≡ false
unfolding is_over
is_over-logged now h = refl

abbrev pub IsSmall : Holder → Type 0
IsSmall h = h.estimate_secs * 1500 < 2 ^ 64

overrun_holders-late :
    (now : ℕ) (m : Map Text Holder)
    → All IsSmall (values m)
    → (overrun_holders m now).1 ≡ map logged (retain (is_late now) (values m))
unfolding overrun_holders
overrun_holders-late now [] a = refl
overrun_holders-late now ((k, h) ∷ m) a =
    ground (arith, overrun_holders-late now m a.1, is_over-is_late now h a.0)

overrun_holders_twice :
    (t u : ℕ) (m : Map Text Holder)
    → All IsSmall (values m)
    → (overrun_holders (overrun_holders m t).0 u).1
      ≡ map logged (retain (λ h. is_late u h && not (is_late t h)) (values m))
unfolding overrun_holders
overrun_holders_twice t u [] a = refl
overrun_holders_twice t u ((k, h) ∷ m) a = ground (
  arith,
  overrun_holders_twice t u m a.1,
  is_over-is_late t h a.0,
  is_over-is_late u h a.0,
  is_over-logged u h,
)

-- A look at the overruns reports exactly the holders that are late and were not reported; a second
-- look, at any time, reports of those only the ones that were not late at the first.
pub overruns-overruns :
    (s : Scheduler) (t u : ℕ)
    → All IsSmall (values s.holders)
    → let (s', first) = overruns s t in
      (first ≡ map logged (retain (is_late t) (values s.holders)))
      × ((overruns s' u).1
          ≡ map logged (retain (λ h. is_late u h && not (is_late t h)) (values s.holders)))
unfolding overruns
overruns-overruns s t u a =
    (overrun_holders-late t s.holders a, overrun_holders_twice t u s.holders a)
