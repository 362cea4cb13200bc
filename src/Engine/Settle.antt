-- ===== src/Engine/Settle.antt =====
-- agent-rust/src/engine.rs, `settle_pending`: each pending call is rejected or dispatched, and is answered
-- with one tool message.
-- The loop runs on fuel; it is given one unit for each pending call, and reports the end of its fuel.
pub mod Answered
pub mod Ends
pub mod Steady
mod Tests
use state_driven_agent.Common.{
  ℕ, zero, suc, String, Bool, true, false, not, ◌&&◌, ◌||◌, Option, none, some, List, [], ◌∷◌,
  if◌then◌else◌, is_some_and, is_none, is_empty, or_else, length, nat_text, ◌+++◌, ok,
}
use state_driven_agent.Json.{
  Value, null, bool, str, text, nat, obj, Fields, end, object, get, get_str, as_object, ◌and_then◌,
}
use state_driven_agent.Json.Host.{Host}
use state_driven_agent.Config.{Config}
use state_driven_agent.Session.{Session, Message, msg}
use state_driven_agent.Workflow.{is_failure, record_evidence}
use state_driven_agent.Policy.{
  action_rejection, action_feedback, allowed_in_phase_for_session, instruction, increment_invalid,
}
use state_driven_agent.Completion.{capture_artifacts}
use state_driven_agent.Progress.{record_progress_output, append, engine_checkpoint}
use state_driven_agent.Actions.{Env, Action, return, ◌>>=◌, ◌>>◌, current, modify}
use state_driven_agent.Actions.Dispatch.{Call, dispatch}

abbrev pub settled_id : Value → String
settled_id call = or_else (get_str "id" call) ""

abbrev pub settled_name : Value → String
settled_name call = or_else (get_str "name" call) "invalid_tool_call"

abbrev pub settled_args : Value → Fields
settled_args call = or_else (get "arguments" call and_then as_object) end

-- The tool message that answers a call.
abbrev pub answer_to : Value → String → Message
answer_to call output = record (msg "tool" (some output)) {
  name = some (settled_name call);
  tool_call_id = some (settled_id call);
}

abbrev tail_of : List Value → List Value
tail_of [] = []
tail_of (call ∷ calls) = calls

-- Behind the removal of the first call, the phase of an empty batch is forgotten.
abbrev pub remove_first : Session → Session
remove_first s = record s {
  pending_tool_calls = tail_of s.pending_tool_calls;
  pending_tool_phase =
      if is_empty (tail_of s.pending_tool_calls) then none else s.pending_tool_phase;
}

module _ (host : Host) (env : Env) (config : Config) where
  pub rejection_of : Option String → Value → Session → Option String
  rejection_of fixed call s =
      action_rejection host config s fixed (settled_name call) (settled_args call)
        (get_str "error" call)
      and_then λ reason.
          some (reason +++ ". " +++ action_feedback host config s fixed (settled_name call))

  rejected_output : String → Session → String
  rejected_output reason s =
      "ERROR: action rejected before execution: "
      +++ reason
      +++ "\nRuntime correction: invalid tool calls were rejected before execution. Use the advertised function names and JSON argument schemas.\n"
      +++ or_else (instruction host config s) ""

  -- What a session keeps of a tool that ran.
  keep_output : Value → String → Session → Session
  keep_output call output s =
      let t =
        capture_artifacts host config s (settled_id call) (settled_name call) (settled_args call)
          output in
      let u =
        if is_none t.workflow && not (is_failure output)
        then record_progress_output host t (settled_name call) (settled_args call) output
        else t in
      record_evidence host config u (settled_name call) (settled_args call) output

  -- The output of a call, and whether the tool ran.
  pub output_of : Option String → Value → Session → Option String → Action (Bool × String)
  unfolding rejected_output keep_output
  output_of fixed call s (some reason) = return (false, rejected_output reason s)
  output_of fixed call s none =
      if allowed_in_phase_for_session host config s fixed (settled_name call)
      then (dispatch host env config (record {
        id = settled_id call;
        tool = settled_name call;
        args = obj (settled_args call);
      })
          >>= λ output. modify (keep_output call output) >> return (true, output))
      else return (
        false,
        "ERROR: tool '"
            +++ settled_name call
            +++ "' is disabled or not allowed in the active workflow phase.",
      )

  pub completed_event : Value → Bool → String → Value
  completed_event call executed output = object (
      ("type", str "interim_result")
      ∷ ("step", str "tool_completed")
      ∷ (
        "data",
        object (
            ("tool", str (settled_name call))
            ∷ ("output", str output)
            ∷ ("tool_call_id", str (settled_id call))
            ∷ ("executed", bool executed)
            ∷ []),
      )
      ∷ [])

  -- The output is appended as the answer to the call, which is then no longer pending.
  pub answer : Value → Bool × String → Action (Unit {0})
  unfolding completed_event
  answer call (executed, output) =
      append env (answer_to call output)
      >> modify remove_first
      >> engine_checkpoint env (completed_event call executed output)

  -- One round of the loop.
  pub settle_call : Option String → Value → Action Bool
  unfolding rejection_of output_of answer
  settle_call fixed call = current >>= λ s.
      output_of fixed call s (rejection_of fixed call s) >>= λ out.
      answer call out >> return (not (is_none (rejection_of fixed call s)))

  abbrev pub settle_next :
      (Bool → Action (Option Bool)) → Option String → Bool → List Value → Action (Option Bool)
  unfolding settle_call
  settle_next next fixed rejected [] = return (some rejected)
  settle_next next fixed rejected (call ∷ calls) =
      settle_call fixed call >>= λ r. next (rejected || r)

  -- The loop, which tells whether a call was rejected.
  unfoldable pub settle_calls : ℕ → Option String → Bool → Action (Option Bool)
  settle_calls zero fixed rejected =
      current >>= λ s. return (if is_empty s.pending_tool_calls then some rejected else none)
  settle_calls (suc fuel) fixed rejected =
      current >>= λ s. settle_next (settle_calls fuel fixed) fixed rejected s.pending_tool_calls

  abbrev reset_invalid : Session → Session
  reset_invalid s = record s { consecutive_invalid_responses = 0 }

  batch_feedback : Option String → Session → String
  batch_feedback fixed s = elim (instruction host config s) [
    | some text ↦
        "Runtime correction: invalid tool calls were rejected before execution. Use the advertised function names and JSON argument schemas.\n"
        +++ text
    | none ↦ "Runtime correction: " +++ action_feedback host config s fixed ""
  ]

  abbrev pub count_invalid : Action Bool
  count_invalid w =
      let (s, reached) = increment_invalid config w.session in
      (ok reached, record w { session = s })

  abbrev rejected_event : String → Session → Value
  rejected_event feedback s = object (
      ("type", str "interim_result")
      ∷ ("step", str "response_rejected")
      ∷ (
        "data",
        object (
            ("code", str "action_rejected")
            ∷ ("message", str feedback)
            ∷ ("consecutive_invalid_responses", nat s.consecutive_invalid_responses)
            ∷ []),
      )
      ∷ [])

  abbrev limit_event : Session → Value
  limit_event s = object (
      ("type", str "error")
      ∷ ("code", str "invalid_response_limit")
      ∷ ("message", text s.final_answer)
      ∷ ("recoverable", bool true)
      ∷ [])

  abbrev pub report_limit : Bool → Action (Unit {0})
  report_limit reached =
      if reached then (current >>= λ s. engine_checkpoint env (limit_event s)) else return tt

  -- A batch with a rejected call counts as an invalid response.
  pub close_batch : Option String → Bool → Action (Unit {0})
  unfolding batch_feedback
  close_batch fixed false = modify reset_invalid
  close_batch fixed true = current >>= λ s.
      let feedback = batch_feedback fixed s in
      count_invalid >>= λ reached.
      current >>= λ t. engine_checkpoint env (rejected_event feedback t) >> report_limit reached

  abbrev pub close_settled : Option String → Option Bool → Action (Option (Unit {0}))
  unfolding close_batch
  close_settled fixed none = return none
  close_settled fixed (some rejected) = close_batch fixed rejected >> return (some tt)

  unfoldable pub settle_pending : Action (Option (Unit {0}))
  unfolding close_batch
  settle_pending = current >>= λ s.
      settle_calls (length s.pending_tool_calls) s.pending_tool_phase false
      >>= close_settled s.pending_tool_phase
