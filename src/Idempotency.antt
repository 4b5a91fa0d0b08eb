-- ===== src/Idempotency.antt =====
-- idempotency/src/memory.rs: the map of the idempotency engine, and what it answers. When an answer is
-- delivered is the orderer's; here are the answers as they are handed to it, in the order of the requests.
pub mod Verdicts
use my_ledger.Common.{ℕ, Option, none, some, List, [], ◌∷◌, ◌==◌, if◌then◌else◌}
use my_ledger.Common.Map.{Map, lookup, insert}
use my_ledger.Base.Ports.Idempotency.{
  IdemAsk, IdemVerdict, IdemRequest, IdemReply, fresh, duplicate_same_body,
  duplicate_different_body, not_checked,
}

-- What `insert` gave back, against the digest that was put in its place.
abbrev pub verdict : Option ℕ → ℕ → IdemVerdict
verdict none digest = fresh
verdict (some seen) digest =
    if seen == digest then duplicate_same_body else duplicate_different_body

abbrev pub asked : IdemAsk → Map ℕ → IdemRequest → Map ℕ × IdemVerdict
asked IdemAsk.serialize seen request = (seen, not_checked)
asked IdemAsk.check seen request =
    (insert request.tx_id request.digest seen, verdict (lookup request.tx_id seen) request.digest)

abbrev reply_to : IdemRequest → IdemVerdict → IdemReply
reply_to request v = record {
  correlation = request.correlation;
  lane = request.lane;
  seq = request.seq;
  verdict = v;
}

unfoldable pub answer : Map ℕ → IdemRequest → Map ℕ × IdemReply
answer seen request = let a = asked request.ask seen request in (a.0, reply_to request a.1)

-- `drain_requests`, over the requests that wait.
unfoldable pub drain_requests : Map ℕ → List IdemRequest → Map ℕ × List IdemReply
drain_requests seen [] = (seen, [])
drain_requests seen (request ∷ requests) =
    let one = answer seen request in
    let rest = drain_requests one.0 requests in (rest.0, one.1 ∷ rest.1)
