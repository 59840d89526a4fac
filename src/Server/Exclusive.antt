-- ===== src/Server/Exclusive.antt =====
-- One compilation at a time: crates/bellows-server/src/main.rs, `acquire_lease`, `release_lease`.
use bellows.Prelude.{
  ℕ, ◌<◌, ◌≤◌, ◌≡◌, refl, false, ◌&&◌, Option, none, some, List, [], ◌∷◌, if◌then◌else◌, arith, All,
}
use bellows.Prelude.Key.{text_key, same, same_refl}
use bellows.Prelude.Map.{
  Above, Above-weaken, Above-IsMap, IsMap, get, remove, get-insert, get-remove, get-Above,
  insert-IsMap, remove-IsMap,
}
use bellows.Prelude.Text.{Text, text_eq}
use bellows.Server.Api.{answered}
use bellows.Server.Leases.{
  Lease, LeaseRequest, LeaseResponse, Leases, Call, is_live, retain_live, new_lease, acquire_lease,
  release_lease, step, run,
}

-- The lease of a key that has not expired at a time.
abbrev pub live_only : ℕ → Option Lease → Option Lease
live_only now none = none
live_only now (some lease) = if is_live now lease then some lease else none

unfoldable pub live : ℕ → Text → Leases → Option Lease
live now key leases = live_only now (get key leases)

retain_live-Above :
    (now : ℕ) (key : Text) (leases : Leases) → Above key leases → Above key (retain_live now leases)
unfolding retain_live
retain_live-Above now key [] a = tt
retain_live-Above now key ((k, l) ∷ leases) (b, a) = ground (
  arith,
  retain_live-Above now k leases a,
  retain_live-Above now key leases (Above-weaken key k leases b a),
)

pub retain_live-IsMap : (now : ℕ) (leases : Leases) → IsMap leases → IsMap (retain_live now leases)
unfolding retain_live
retain_live-IsMap now [] s = tt
retain_live-IsMap now ((k, l) ∷ leases) s =
    ground (
      arith,
      retain_live-Above now k leases s,
      retain_live-IsMap now leases (Above-IsMap k leases s),
    )

-- What is left after the expired leases went is found as before.
pub get-retain_live :
    (now : ℕ) (key : Text) (leases : Leases)
    → IsMap leases
    → get key (retain_live now leases) ≡ live now key leases
unfolding retain_live live get
get-retain_live now key [] s = refl
get-retain_live now key ((k, l) ∷ leases) s = ground (
  arith,
  get-retain_live now key leases (Above-IsMap k leases s),
  get-Above k leases s,
  text_key.eq_of_cmp key k,
)

pub acquire_lease-IsMap :
    (h : Text → Text) (key : Text) (request : LeaseRequest) (now : ℕ) (leases : Leases)
    → IsMap leases
    → IsMap (acquire_lease h key request now leases).0
unfolding acquire_lease
acquire_lease-IsMap h key request now leases s =
    let kept = retain_live-IsMap now leases s in
    ground
      (arith, kept, insert-IsMap key (new_lease h key request now) (retain_live now leases) kept)

pub step-IsMap :
    (h : Text → Text) (call : ℕ × Call) (leases : Leases)
    → IsMap leases
    → IsMap (step h call leases)
unfolding step release_lease
step-IsMap h (now, Call.acquires key request) leases s =
    acquire_lease-IsMap h key request now leases s
step-IsMap h (now, Call.releases key token) leases s = ground (arith, s, remove-IsMap key leases s)

-- A request waits, with the time at which the lease expires, exactly while there is a lease that has
-- not expired; otherwise it gets a lease of its own.
pub acquire_lease_answer :
    (h : Text → Text) (key : Text) (request : LeaseRequest) (now : ℕ) (leases : Leases)
    → IsMap leases
    → let own = new_lease h key request now in
      (acquire_lease h key request now leases).1 ≡ elim (live now key leases) [
        | none ↦ LeaseResponse.owned own.token own.expires_ms
        | some lease ↦ LeaseResponse.wait 150 lease.expires_ms
      ]
unfolding acquire_lease
acquire_lease_answer h key request now leases s = ground (arith, get-retain_live now key leases s)

get-acquire_lease :
    (h : Text → Text) (key k : Text) (request : LeaseRequest) (now : ℕ) (leases : Leases)
    → IsMap leases
    → get k (acquire_lease h key request now leases).0 ≡ elim (live now key leases) [
      | none ↦ if same k key then some (new_lease h key request now) else live now k leases
      | some lease ↦ live now k leases
    ]
unfolding acquire_lease
get-acquire_lease h key k request now leases s = ground (
  arith,
  get-retain_live now key leases s,
  get-retain_live now k leases s,
  get-insert key k (new_lease h key request now) (retain_live now leases),
)

-- A call before the lease expires, which is not its release.
abbrev pub IsQuiet : Text → Lease → ℕ × Call → Type 0
IsQuiet key lease (now, Call.acquires k request) = now < lease.expires_ms
IsQuiet key lease (now, Call.releases k token) =
    (text_eq k key && text_eq lease.token token) ≡ false

held-step :
    (h : Text → Text) (key : Text) (lease : Lease) (call : ℕ × Call) (leases : Leases)
    → IsMap leases
    → IsQuiet key lease call
    → get key leases ≡ some lease
    → get key (step h call leases) ≡ some lease
unfolding step release_lease live
held-step h key lease (now, Call.acquires k request) leases s q e =
    ground (arith, get-acquire_lease h k key request now leases s, text_key.eq_of_cmp key k)
held-step h key lease (now, Call.releases k token) leases s q e =
    ground (arith, get-remove k key leases, text_key.eq_of_cmp key k, text_key.cmp_self key)

held-run :
    (h : Text → Text) (key : Text) (lease : Lease) (calls : List (ℕ × Call)) (leases : Leases)
    → IsMap leases
    → All (IsQuiet key lease) calls
    → get key leases ≡ some lease
    → (get key (run h calls leases) ≡ some lease) × IsMap (run h calls leases)
unfolding run
held-run h key lease [] leases s q e = (e, s)
held-run h key lease (call ∷ calls) leases s q e =
    held-run h key lease calls (step h call leases) (step-IsMap h call leases s) q.1
      (held-step h key lease call leases s q.0 e)

-- What an owner was told is in the table.
owned-get :
    (h : Text → Text) (key : Text) (request : LeaseRequest) (now : ℕ) (leases : Leases)
    → IsMap leases
    → (lease : Lease)
    → (acquire_lease h key request now leases).1 ≡ LeaseResponse.owned lease.token lease.expires_ms
    → get key (acquire_lease h key request now leases).0 ≡ some lease
owned-get h key request now leases s lease e = ground (
  arith,
  acquire_lease_answer h key request now leases s,
  get-acquire_lease h key key request now leases s,
  same_refl key,
)

module _ (h : Text → Text) (key : Text) (request : LeaseRequest) (now : ℕ) (leases : Leases)
    (s : IsMap leases) (lease : Lease)
    (owns : (acquire_lease h key request now leases).1
      ≡ LeaseResponse.owned lease.token lease.expires_ms)
    (calls : List (ℕ × Call)) (quiet : All (IsQuiet key lease) calls) where
  after : Leases
  after = run h calls (acquire_lease h key request now leases).0

  held : (get key after ≡ some lease) × IsMap after
  unfolding after
  held =
      held-run h key lease calls (acquire_lease h key request now leases).0
        (acquire_lease-IsMap h key request now leases s) quiet
        (owned-get h key request now leases s lease owns)

  released' : release_lease key lease.token after ≡ (remove key after, answered tt)
  unfolding release_lease
  released' = ground (arith, held.0, same_refl lease.token)

  -- A lease is exclusive: after any calls that were made before it expires and do not release it with
  -- its token, a request for its key before it expires waits and is told when that is.
  pub acquire_lease_exclusive :
      (other : LeaseRequest) (later : ℕ)
      → later < lease.expires_ms
      → (acquire_lease h key other later (run h calls (acquire_lease h key request now leases).0)).1
        ≡ LeaseResponse.wait 150 lease.expires_ms
  unfolding after live
  acquire_lease_exclusive other later early =
      ground (arith, held.0, acquire_lease_answer h key other later after held.1)

  -- A lease ends: if no call before released it or came after its time, then its owner's release is
  -- answered, the next request for the key gets a lease, and so does any request once the lease has
  -- expired.
  pub lease_ends :
      (other : LeaseRequest) (later late : ℕ)
      → lease.expires_ms ≤ late
      → let t = run h calls (acquire_lease h key request now leases).0 in
        let own = new_lease h key other later in
        let own' = new_lease h key other late in
        ((release_lease key lease.token t).1 ≡ answered tt)
        × ((acquire_lease h key other later (release_lease key lease.token t).0).1
            ≡ LeaseResponse.owned own.token own.expires_ms)
        × ((acquire_lease h key other late t).1 ≡ LeaseResponse.owned own'.token own'.expires_ms)
  unfolding after live
  lease_ends other later late expired = (
    rw released' refl,
    rw released' (
        ground (
          arith,
          same_refl key,
          get-remove key key after,
          acquire_lease_answer h key other later (remove key after) (remove-IsMap key after held.1),
        )),
    ground (arith, held.0, acquire_lease_answer h key other late after held.1, expired),
  )
