-- ===== src/Actions/Dispatch/Tests.antt =====
-- A call that is dispatched twice: the second time it is answered from its record.
use state_driven_agent.Common.{[], ◌≡◌, refl, ok, nat_text, length}
use state_driven_agent.Json.{obj, end, lookup, insert, get, index}
use state_driven_agent.Json.Equal.{value_eq}
use state_driven_agent.Json.Sample.{sample_host}
use state_driven_agent.Config.Sample.{config}
use state_driven_agent.Session.{archive_record, acknowledge_checkpoint}
use state_driven_agent.Session.Sample.{blank}
use state_driven_agent.Actions.Sample.{env}
use state_driven_agent.Actions.{World, ◌>>=◌, set}
use state_driven_agent.Actions.Dispatch.{
  Call, dispatch, intend, resume, check_identity, check_payload, recover, settle_previous,
  reconcile, admit, attempt, started_execution, settle,
}
use state_driven_agent.Actions.Dispatch.Quiet.{invocations}
use state_driven_agent.Actions.Dispatch.Once.{Outcome, dispatch-Outcome}

abbrev call : Call
call = record { id = "c1"; tool = "sum"; args = obj end }

abbrev fresh : World
fresh = record { session = blank; log = [] }

abbrev behind : World
behind = (dispatch sample_host env config call fresh).1

tests : Unit {0}
unfolding dispatch intend resume check_identity check_payload recover settle_previous reconcile
    admit attempt started_execution settle ◌>>=◌ set insert lookup get index value_eq archive_record
    acknowledge_checkpoint nat_text
tests = tt

result_test : (dispatch sample_host env config call fresh).0 ≡ ok "7"
unfolding tests
result_test = refl

once_test : length (invocations behind.log) ≡ 1
unfolding tests
once_test = refl

replayed_test : dispatch sample_host env config call behind ≡ (ok "7", behind)
unfolding tests
replayed_test = refl

dispatch-Outcome_example : Outcome sample_host env config call blank [] behind.log
dispatch-Outcome_example = dispatch-Outcome sample_host env config call fresh
