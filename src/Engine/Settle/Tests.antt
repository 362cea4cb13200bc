-- ===== src/Engine/Settle/Tests.antt =====
-- A batch of two calls: one that the parser rejected, and one of a configured tool.
use state_driven_agent.Common.{Option, nat_text, String, none, some, List, [], ◌∷◌, ◌≡◌, refl, ok}
use state_driven_agent.Json.{get, lookup, insert, index, Value, str, object}
use state_driven_agent.Json.Sample.{sample_host}
use state_driven_agent.Config.{Config}
use state_driven_agent.Config.Sample.{config}
use state_driven_agent.Session.Sample.{blank}
use state_driven_agent.Actions.{World}
use state_driven_agent.Actions.Sample.{env}
use state_driven_agent.Common.Int.{add64}
use state_driven_agent.Json.Equal.{value_eq}
use state_driven_agent.Session.{append_message, archive_record, acknowledge_checkpoint}
use state_driven_agent.Diagnostics.{stage, refresh_completeness}
use state_driven_agent.Workflow.{is_complete, phase, record_evidence}
use state_driven_agent.Policy.{
  action_rejection, action_feedback, allowed_in_phase_for_session, increment_invalid,
  tools_disabled, result_checks, bindings, instruction, binding_error,
}
use state_driven_agent.Completion.{capture_artifacts}
use state_driven_agent.Progress.{record_progress_output, remember}
use state_driven_agent.Actions.{◌>>=◌, set}
use state_driven_agent.Actions.Dispatch.{
  dispatch, admit, attempt, check_payload, check_identity, intend, resume, reconcile, recover,
  settle, settle_previous, started_execution,
}
use state_driven_agent.Engine.Settle.{
  settle_pending, settle_calls, settle_next, settle_call, rejection_of, output_of, answer,
  keep_output, rejected_output, close_batch, close_settled, batch_feedback, completed_event,
}
use state_driven_agent.Engine.Settle.Answered.{IsSettled}
use state_driven_agent.Engine.Settle.Ends.{settle_pending-IsSettled, settle_pending-ends}

abbrev tooled : Config
tooled = record config {
  tools =
      record {
        name = "validate";
        description = "Checks.";
        parameters = object (("type", str "object") ∷ []);
        recovery = none;
      }
      ∷ [];
  workflow = none;
}

abbrev call : String → List (String × Value) → Value
call id more = object (("id", str id) ∷ ("name", str "validate") ∷ ("arguments", object []) ∷ more)

abbrev batch : World
batch = record {
  session = record blank {
    pending_tool_calls =
        call "c1" (("error", str "tool is not configured") ∷ []) ∷ call "c2" [] ∷ [];
  };
  log = [];
}

settle_pending-IsSettled_example :
    IsSettled batch.session (settle_pending sample_host env tooled batch).1.session
settle_pending-IsSettled_example = settle_pending-IsSettled sample_host env tooled batch

tests : Unit {0}
unfolding settle_pending settle_calls settle_next settle_call rejection_of output_of answer
    keep_output rejected_output close_batch close_settled batch_feedback completed_event ◌>>=◌
    nat_text dispatch admit attempt check_payload check_identity intend resume reconcile recover
    settle settle_previous started_execution set add64 capture_artifacts stage insert lookup get
    index action_rejection action_feedback allowed_in_phase_for_session increment_invalid
    tools_disabled is_complete phase record_evidence record_progress_output remember result_checks
    bindings instruction append_message archive_record acknowledge_checkpoint value_eq binding_error
    refresh_completeness
tests = tt

abbrev settled : Option (Unit {0})
settled = some tt

abbrev behind : World
behind = (settle_pending sample_host env tooled batch).1

settle_test : settle_pending sample_host env tooled batch ≡ (ok settled, behind)
unfolding tests
settle_test = refl

counted_test : behind.session.consecutive_invalid_responses ≡ 1
unfolding tests
counted_test = refl

settle_pending-ends_example : (settled ≡ some tt) × (behind.session.pending_tool_calls ≡ [])
settle_pending-ends_example =
    settle_pending-ends sample_host env tooled batch behind settled settle_test
