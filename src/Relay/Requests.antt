-- ===== src/Relay/Requests.antt =====
-- A whole request of the relay: crates/bellows-cli/src/relay.rs, `handle`, from the guard through its
-- arms to the handlers.
use bellows.Prelude.{
  ◌≡◌, ◌↔◌, ◌⊎◌, refl, sym, ap, ◌∙◌, Bool, true, false, not, Option, some, ◌++◌, All, if◌then◌else◌,
  ◌==◌, inl, inr,
}
use bellows.Prelude.Key.{text_key, same_iff}
use bellows.Prelude.Split.{split_on}
use bellows.Prelude.Text.{Text, text_eq, codes}
use bellows.Relay.Order.{horizon}
use bellows.Relay.State.{Shared, Status}
use bellows.Relay.State.Task.{forwarding}
use bellows.Relay.Route.{Method, Route, bearer, authorized, trim_slashes, route, handle}
use bellows.Relay.Tasks.{Outcome, Move, head_blob, put_blob, defer, spawn, step}
use bellows.Relay.Guarded.{IsByte, authorized_iff}

-- The arms of `handle` with their handlers. A request that is forwarded at once is answered by the
-- server.
unfoldable pub dispatch : Route → Shared → Shared × Outcome
unfolding head_blob put_blob defer spawn
dispatch (Route.answers status) s = (s, Outcome.answered status)
dispatch (Route.asks_blob digest) s = (s, Outcome.answered (head_blob digest s))
dispatch (Route.puts_blob digest) s = put_blob digest s
dispatch (Route.defers kind) s = defer kind s
dispatch Route.forwards s = (s, Outcome.forwarded)
dispatch Route.waits_and_forwards s = (spawn (forwarding (horizon s.blob_order)) s, Outcome.idle)

unfoldable pub receive : Method → Text → Option Text → Shared → Shared × Outcome
unfolding handle dispatch
receive method path header s = dispatch (handle s.local_token method path header) s

-- Two tests that hold of the same things are equal.
same_test : (a b : Bool) → (a ≡ true) ↔ (b ≡ true) → a ≡ b
same_test true b h = sym (h.0 refl)
same_test false true h = h.1 refl
same_test false false h = refl

authorized-text_eq :
    (token header : Text)
    → All IsByte token
    → All IsByte header
    → authorized token (some header) ≡ text_eq header (bearer ++ token)
authorized-text_eq token header ht hh =
    let (to, from) = authorized_iff token header ht hh in
    let (to', from') = same_iff header (bearer ++ token) in
    same_test (authorized token (some header)) (text_eq header (bearer ++ token))
      (λ a. from' (to a), λ b. from (to' b))

not_live :
    (b a : Bool) (x y z : Route)
    → b ≡ false
    → (if b then x else if not a then y else z) ≡ (if a then z else y)
not_live true a x y z h = cc
not_live false true x y z h = refl
not_live false false x y z h = refl

dispatch-if :
    (b : Bool) (r : Route) (s : Shared)
    → dispatch (if b then r else Route.answers Status.unauthorized) s
      ≡ (if b then dispatch r s else (s, Outcome.answered Status.unauthorized))
unfolding dispatch
dispatch-if true r s = refl
dispatch-if false r s = refl

-- A request for anything but `/live`, on bytes: with the header `Bearer ` and the session token, byte
-- for byte, it goes to the handler of its route; with any other header it is answered 401 and nothing
-- changes.
pub receive_guarded :
    (s : Shared) (method : Method) (path header : Text)
    → All IsByte s.local_token
    → All IsByte header
    → text_eq path (codes "/live") ≡ false
    → receive method path (some header) s ≡ (
        if text_eq header (bearer ++ s.local_token)
        then dispatch (route method (split_on (λ c. c == b'/') (trim_slashes path))) s
        else (s, Outcome.answered Status.unauthorized))
unfolding receive handle
receive_guarded s method path header ht hh elsewhere =
    let there = route method (split_on (λ c. c == b'/') (trim_slashes path)) in
    ap (λ r. dispatch r s)
      (not_live (text_eq path (codes "/live")) (authorized s.local_token (some header))
          (Route.answers Status.no_content) (Route.answers Status.unauthorized) there elsewhere
        ∙ ap (λ b. if b then there else Route.answers Status.unauthorized)
            (authorized-text_eq s.local_token header ht hh))
    ∙ dispatch-if (text_eq header (bearer ++ s.local_token)) there s

-- What a request changes is a move, so the theorems about sequences of moves hold of requests.
pub dispatch_moves :
    (digest_bytes : Text → Text) (r : Route) (s : Shared)
    → ((dispatch r s).0 ≡ s) ⊎ ((m : Move) × (dispatch r s ≡ step digest_bytes m s))
unfolding dispatch step
dispatch_moves digest_bytes (Route.answers status) s = inl refl
dispatch_moves digest_bytes (Route.asks_blob digest) s = inl refl
dispatch_moves digest_bytes (Route.puts_blob digest) s = inr (Move.puts digest, refl)
dispatch_moves digest_bytes (Route.defers kind) s = inr (Move.defers kind, refl)
dispatch_moves digest_bytes Route.forwards s = inl refl
dispatch_moves digest_bytes Route.waits_and_forwards s = inr (Move.waits, refl)
