-- ===== src/Idempotency/Verdicts.antt =====
-- What the engine answers, told by the requests that came before and not by the map.
use my_ledger.Common.{
  ℕ, ◌≡◌, ◌≢◌, refl, ap, Option, none, some, List, [], ◌∷◌, ◌++◌, ◌==◌, if◌then◌else◌, All,
  option_or, inl, inr, ◌⊎◌, arith, Bool-cases, true, false, ==_iff,
}
use my_ledger.Common.Map.{Map, lookup, lookup-insert}
use my_ledger.Base.Ids.{TxId}
use my_ledger.Base.Ports.Idempotency.{
  IdemAsk, IdemVerdict, IdemRequest, fresh, duplicate_same_body, duplicate_different_body,
  not_checked, check, serialize,
}
use my_ledger.Idempotency.{drain_requests, answer, asked, verdict}

-- What a request records under an id.
abbrev recorded_if : IdemAsk → ℕ → TxId → ℕ → Option ℕ
recorded_if IdemAsk.serialize tx other digest = none
recorded_if IdemAsk.check tx other digest = if tx == other then some digest else none

abbrev recorded : IdemRequest → TxId → Option ℕ
recorded request tx = recorded_if request.ask request.tx_id tx request.digest

-- The body that was last sent under an id.
abbrev last_check : List IdemRequest → TxId → Option ℕ
last_check [] tx = none
last_check (request ∷ requests) tx = option_or (last_check requests tx) (recorded request tx)

lookup-asked :
    (ask : IdemAsk) (seen : Map ℕ) (request : IdemRequest) (tx : TxId)
    → lookup tx (asked ask seen request).0
      ≡ option_or (recorded_if ask request.tx_id tx request.digest) (lookup tx seen)
lookup-asked IdemAsk.serialize seen request tx = refl
lookup-asked IdemAsk.check seen request tx =
    ground (arith, lookup-insert request.tx_id tx request.digest seen)

option_or_assoc : (a b c : Option ℕ) → option_or a (option_or b c) ≡ option_or (option_or a b) c
option_or_assoc none b c = refl
option_or_assoc (some x) b c = refl

lookup-drain_requests :
    (seen : Map ℕ) (requests : List IdemRequest) (tx : TxId)
    → lookup tx (drain_requests seen requests).0
      ≡ option_or (last_check requests tx) (lookup tx seen)
unfolding drain_requests answer
lookup-drain_requests seen [] tx = refl
lookup-drain_requests seen (request ∷ requests) tx =
    rw
      (
        lookup-drain_requests (answer seen request).0 requests tx,
        lookup-asked request.ask seen request tx,
      )
      (option_or_assoc (last_check requests tx) (recorded request tx) (lookup tx seen))

pub Checks : TxId → IdemRequest → Type 0
Checks tx request = (request.ask ≡ check) × (request.tx_id ≡ tx)

-- The last of the requests that checked an id.
pub record LastOf (tx : TxId) (requests : List IdemRequest) : Type 0 where
  pub before : List IdemRequest
  pub last : IdemRequest
  pub after : List IdemRequest
  pub split : requests ≡ before ++ last ∷ after
  pub checks : Checks tx last
  pub quiet : All (λ r. ¬ Checks tx r) after

compared_cases : (a b : ℕ) → ((a ≡ b) × ((a == b) ≡ true)) ⊎ ((a ≢ b) × ((a == b) ≡ false))
compared_cases a b = elim (Bool-cases (a == b)) [
  | inl same ↦ inl ((==_iff a b).0 same, same)
  | inr other ↦ inr (λ e. ground (arith, e), other)
]

recorded_cases :
    (ask : IdemAsk) (tx other : TxId) (digest : ℕ)
    → ((¬ ((ask ≡ check) × (tx ≡ other))) × (recorded_if ask tx other digest ≡ none))
      ⊎ (((ask ≡ check) × (tx ≡ other)) × (recorded_if ask tx other digest ≡ some digest))
recorded_cases IdemAsk.serialize tx other digest = inl (λ both. ground (arith, both.0), refl)
recorded_cases IdemAsk.check tx other digest = elim (compared_cases tx other) [
  | inl (same, e) ↦ inr ((refl, same), rw e refl)
  | inr (other_id, e) ↦ inl (λ both. other_id both.1, rw e refl)
]

last_check_cases :
    (requests : List IdemRequest) (tx : TxId)
    → (All (λ r. ¬ Checks tx r) requests × (last_check requests tx ≡ none))
      ⊎ ((l : LastOf tx requests) × (last_check requests tx ≡ some l.last.digest))
unfolding Checks
last_check_cases [] tx = inl (tt, refl)
last_check_cases (request ∷ requests) tx = elim (last_check_cases requests tx) [
  | inr (l, e) ↦ inr (
    record {
      before = request ∷ l.before;
      last = l.last;
      after = l.after;
      split = ap (◌∷◌ request) l.split;
      checks = l.checks;
      quiet = l.quiet;
    },
    rw e refl,
  )
  | inl (quiet, e) ↦ elim (recorded_cases request.ask request.tx_id tx request.digest) [
    | inl (silent, r) ↦ inl ((silent, quiet), rw (e, r) refl)
    | inr (checked, r) ↦ inr (
      record {
        before = [];
        last = request;
        after = requests;
        split = refl;
        checks = checked;
        quiet = quiet;
      },
      rw (e, r) refl,
    )
  ]
]

-- What is right to answer to a request after these earlier ones, by what they asked alone.
pub data IsVerdict (earlier : List IdemRequest) (request : IdemRequest) : IdemVerdict → Type 0 where
  unchecked : request.ask ≡ serialize → IsVerdict earlier request not_checked
  first :
      request.ask ≡ check
      → All (λ r. ¬ Checks request.tx_id r) earlier
      → IsVerdict earlier request fresh
  same_body :
      request.ask ≡ check
      → (l : LastOf request.tx_id earlier) → l.last.digest ≡ request.digest
      → IsVerdict earlier request duplicate_same_body
  different_body :
      request.ask ≡ check
      → (l : LastOf request.tx_id earlier) → l.last.digest ≢ request.digest
      → IsVerdict earlier request duplicate_different_body

checked-IsVerdict :
    (earlier : List IdemRequest) (request : IdemRequest)
    → request.ask ≡ check
    → IsVerdict earlier request (verdict (last_check earlier request.tx_id) request.digest)
checked-IsVerdict earlier request asks = elim (last_check_cases earlier request.tx_id) [
  | inl (quiet, e) ↦ rw e (first asks quiet)
  | inr (l, e) ↦ rw e (compared l)
]
  where
    compared :
        (l : LastOf request.tx_id earlier)
        → IsVerdict earlier request (verdict (some l.last.digest) request.digest)
    compared l = elim (compared_cases l.last.digest request.digest) [
      | inl (same, e) ↦ rw e (same_body asks l same)
      | inr (other, e) ↦ rw e (different_body asks l other)
    ]

option_or-none : (o : Option ℕ) → option_or o none ≡ o
option_or-none none = refl
option_or-none (some x) = refl

asked-IsVerdict :
    (ask : IdemAsk) (earlier : List IdemRequest) (request : IdemRequest)
    → request.ask ≡ ask
    → IsVerdict earlier request (asked ask (drain_requests [] earlier).0 request).1
unfolding lookup
asked-IsVerdict IdemAsk.serialize earlier request asks = unchecked asks
asked-IsVerdict IdemAsk.check earlier request asks =
    rw (lookup-drain_requests [] earlier request.tx_id, option_or-none)
      (checked-IsVerdict earlier request asks)

-- Whatever requests the engine has answered since it started, its verdict on the next one is the right
-- one by those requests alone: not checked where it only asks to be serialized, fresh where none of
-- them checked its id, and else a duplicate of the same body or of another, by the body that was last
-- checked under that id.
pub answer-IsVerdict :
    (earlier : List IdemRequest) (request : IdemRequest)
    → IsVerdict earlier request (answer (drain_requests [] earlier).0 request).1.verdict
unfolding answer
answer-IsVerdict earlier request = asked-IsVerdict request.ask earlier request refl
