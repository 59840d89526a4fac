-- ===== src/Server/Leases.antt =====
-- The leases of compilations: crates/bellows-server/src/main.rs, `acquire_lease`, `release_lease` and
-- the count of `stats`; the messages are those of crates/bellows-core/src/lib.rs. The
-- requests are taken behind the guard `authorize`.
use bellows.Prelude.{
  ℕ, ◌+◌, ◌*◌, ◌%◌, ◌^◌, min, max, Bool, false, Option, none, some, List, [], ◌∷◌, ◌++◌,
  if◌then◌else◌, ltb, retain, length,
}
use bellows.Prelude.Key.{text_key, list_cmp}
use bellows.Prelude.Map.{Map, get, insert, remove, values}
use bellows.Prelude.Text.{Text, text_eq, codes}
use bellows.Prelude.Decimal.{decimal}
use bellows.Server.Api.{ApiResult, Refusal, refused, answered}

pub record Lease : Type 0 where
  pub token : Text
  pub expires_ms : ℕ

pub record LeaseRequest : Type 0 where
  pub client_id : Text
  pub ttl_ms : ℕ

pub data LeaseResponse : Type 0 where
  owned : Text → ℕ → LeaseResponse
  wait : ℕ → ℕ → LeaseResponse

abbrev pub Leases : Type 0
Leases = Map Text Lease

abbrev pub is_live : ℕ → Lease → Bool
is_live now lease = ltb now lease.expires_ms

-- `retain` of the leases that have not expired.
unfoldable pub retain_live : ℕ → Leases → Leases
retain_live now leases = retain (λ (entry : Text × Lease). is_live now entry.1) leases

abbrev pub clamp_ttl : ℕ → ℕ
clamp_ttl ttl = max 1000 (min ttl (10 * 60 * 1000))

-- The text whose digest is the token.
unfoldable pub token_text : Text → Text → ℕ → Text
unfolding decimal
token_text client static_key now = client ++ codes ":" ++ static_key ++ codes ":" ++ decimal now

unfoldable pub new_lease : (Text → Text) → Text → LeaseRequest → ℕ → Lease
unfolding token_text
new_lease digest_bytes static_key request now = record {
  token = digest_bytes (token_text request.client_id static_key now);
  expires_ms = (now + clamp_ttl request.ttl_ms) % 2 ^ 64;
}

-- Expired leases go first; then a lease that is there makes the request wait.
unfoldable pub acquire_lease :
    (Text → Text) → Text → LeaseRequest → ℕ → Leases → Leases × LeaseResponse
unfolding retain_live get insert new_lease list_cmp
acquire_lease digest_bytes static_key request now leases =
    let live = retain_live now leases in
    elim (get static_key live) [
      | some lease ↦ (live, LeaseResponse.wait 150 lease.expires_ms)
      | none ↦
          let lease = new_lease digest_bytes static_key request now in
          (insert static_key lease live, LeaseResponse.owned lease.token lease.expires_ms)
    ]

abbrev pub has_token : Text → Option Lease → Bool
has_token token none = false
has_token token (some lease) = text_eq lease.token token

unfoldable pub release_lease : Text → Text → Leases → Leases × ApiResult (Unit {0})
unfolding get remove list_cmp
release_lease static_key token leases =
    if has_token token (get static_key leases)
    then (remove static_key leases, answered tt)
    else (leases, refused Refusal.not_found)

-- The number that `stats` reports.
unfoldable pub active_leases : ℕ → Leases → ℕ
active_leases now leases = length (retain (is_live now) (values leases))

-- A request with the time that it reads before it takes the lock, and a history of them in the order
-- in which they hold the lock; the times need not ascend.
pub data Call : Type 0 where
  acquires : Text → LeaseRequest → Call
  releases : Text → Text → Call

unfoldable pub step : (Text → Text) → ℕ × Call → Leases → Leases
unfolding acquire_lease release_lease
step digest_bytes (now, Call.acquires key request) leases =
    (acquire_lease digest_bytes key request now leases).0
step digest_bytes (now, Call.releases key token) leases = (release_lease key token leases).0

unfoldable pub run : (Text → Text) → List (ℕ × Call) → Leases → Leases
unfolding step
run digest_bytes [] leases = leases
run digest_bytes (call ∷ calls) leases = run digest_bytes calls (step digest_bytes call leases)
