-- ===== src/Engine/Budget.antt =====
-- agent-rust/src/context.rs and agent-rust/src/engine.rs: whether a complete request fits the context of the model,
-- `estimate_payload`, `request_budget` and `budget_error`.
mod Tests
use state_driven_agent.Common.{
  ℕ, ◌+◌, ◌*◌, ◌%◌, ◌^◌, String, Bool, List, [], ◌∷◌, or_else, length, ltb, if◌then◌else◌, ◌+++◌,
  Result, ok, err, ◌>>=◌,
}
use Prim.Native.String.{len}
use state_driven_agent.Common.Int.{ℤ, pos, add64, of_pattern, leb_ℤ}
use state_driven_agent.Json.{Value, str, bool, object, get, get_array, as_i64, ◌and_then◌}
use state_driven_agent.Json.Host.{Host}
use state_driven_agent.Config.{Memory, Config}
use state_driven_agent.Session.{Session, Message, max_ℤ}
use state_driven_agent.History.{HistoryGroup, interaction_groups}
use state_driven_agent.Actions.{int}
use state_driven_agent.Engine.Request.{complete_request_payload}

pub record RequestBudget : Type 0 where
  pub estimated_input_tokens : ℤ
  pub reserved_tokens : ℤ
  pub margin_tokens : ℤ
  pub window_tokens : ℤ
  pub fits : Bool
  pub estimator : String

abbrev pub message_count : Value → ℕ
message_count payload = length (or_else (get_array "messages" payload) [])

-- `bytes as i64 + 32 * messages as i64`
abbrev pub estimate : ℕ → ℕ → ℤ
estimate bytes messages = of_pattern ((bytes + 32 * messages) % 2 ^ 64)

unfoldable pub estimate_payload : Host → Memory → Value → RequestBudget
estimate_payload host memory payload =
    let input = estimate (len (host.json_text payload)) (message_count payload) in
    let reserve =
      max_ℤ memory.reserved_output_tokens
        (or_else (get "max_tokens" payload and_then as_i64) (pos 0)) in
    record {
      estimated_input_tokens = input;
      reserved_tokens = reserve;
      margin_tokens = memory.safety_margin_tokens;
      window_tokens = memory.context_window_tokens;
      fits =
          leb_ℤ (add64 (add64 input reserve) memory.safety_margin_tokens)
            memory.context_window_tokens;
      estimator =
          "compact UTF-8 JSON bytes + 32 per message; conservative estimate, not provider usage";
    }

-- What stands in the way of a budget: the history or the wire form of it.
pub data BudgetFault : Type 0 where
  bad_history : state_driven_agent.History.Fault → BudgetFault
  bad_wire : state_driven_agent.Engine.Wire.Fault → BudgetFault

abbrev with_fault : {E A : Type 0} → (E → BudgetFault) → Result E A → Result BudgetFault A
with_fault f (ok a) = ok a
with_fault f (err e) = err (f e)

abbrev tail_groups : List Message → Result BudgetFault (List HistoryGroup)
tail_groups [] = ok []
tail_groups (m ∷ ms) =
    with_fault bad_history (if ltb 0 (length ms) then interaction_groups ms else ok [])

unfoldable pub request_budget : Host → Config → Session → Result BudgetFault RequestBudget
request_budget host config s = tail_groups s.memory >>= λ groups.
    with_fault bad_wire (complete_request_payload host config s) >>= λ payload.
    ok (estimate_payload host config.memory payload)

abbrev budget_value : RequestBudget → Value
budget_value b = object (
    ("estimated_input_tokens", int b.estimated_input_tokens)
    ∷ ("reserved_output_tokens", int b.reserved_tokens)
    ∷ ("safety_margin_tokens", int b.margin_tokens)
    ∷ ("context_window_tokens", int b.window_tokens)
    ∷ ("fits", bool b.fits)
    ∷ ("estimator", str b.estimator)
    ∷ [])

unfoldable pub budget_error : Host → RequestBudget → String
budget_error host b =
    "context_budget_exceeded: complete request exceeds configured context budget; no model request was sent ("
    +++ host.json_text (budget_value b)
    +++ ")"
