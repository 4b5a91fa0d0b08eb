-- ===== src/Examples/Idempotency.antt =====
-- idempotency: a body sent again after another was sent under its id.
use my_ledger.Common.{ℕ, List, [], ◌∷◌}
use my_ledger.Common.Map.{lookup, insert}
use my_ledger.Base.Ports.Idempotency.{
  IdemAsk, IdemRequest, check, serialize, duplicate_different_body,
}
use my_ledger.Idempotency.{drain_requests, answer}
use my_ledger.Idempotency.Verdicts.{IsVerdict, answer-IsVerdict}

abbrev with_body : IdemAsk → ℕ → ℕ → IdemRequest
with_body ask id body = record {
  correlation = 0;
  tx_id = id;
  lane = 10;
  seq = 1;
  digest = body;
  ask = ask;
}

abbrev sent : List IdemRequest
sent =
    with_body check 5 100
    ∷ with_body check 5 200
    ∷ with_body serialize 5 100
    ∷ with_body check 6 100
    ∷ []

answer-IsVerdict_example : IsVerdict sent (with_body check 5 100) duplicate_different_body
unfolding answer drain_requests lookup insert
answer-IsVerdict_example = answer-IsVerdict sent (with_body check 5 100)
