-- ===== src/Stubkit/Gate.antt =====
-- stubkit/src/gate.rs: a hold on the answers of a component.
use my_ledger.Common.{ℕ, ◌-◌, ◌^◌, Bool, ltb, ◌==◌, if◌then◌else◌}

-- `usize::MAX`.
abbrev pub no_limit : ℕ
no_limit = 2 ^ 64 - 1

pub record AnswerGate : Type 0 where
  pub permits : ℕ
  pub waiting : ℕ

abbrev pub open_gate : AnswerGate
open_gate = record { permits = no_limit; waiting = 0 }

unfoldable pub hold : AnswerGate → AnswerGate
hold g = record g { permits = 0 }

unfoldable pub let_through : AnswerGate → ℕ → AnswerGate
let_through g answers = record g { permits = answers }

unfoldable pub release : AnswerGate → AnswerGate
release g = record g { permits = no_limit }

unfoldable pub is_open : AnswerGate → Bool
is_open g = g.permits == no_limit

unfoldable pub may_send : AnswerGate → Bool
may_send g = ltb 0 g.permits

-- Subtraction stops at zero.
unfoldable pub spend : AnswerGate → AnswerGate
spend g = if g.permits == no_limit then g else record g { permits = g.permits - 1 }

unfoldable pub note_waiting : AnswerGate → ℕ → AnswerGate
note_waiting g answers = record g { waiting = answers }
