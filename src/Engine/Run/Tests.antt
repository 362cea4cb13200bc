-- ===== src/Engine/Run/Tests.antt =====
-- A run whose model answers at once, and one whose model never gives a valid response.
use state_driven_agent.Common.{false, none, some, [], ◌∷◌, ◌≡◌, refl, arith, nat_text}
use state_driven_agent.Common.Int.{add64}
use state_driven_agent.Json.{Value, str, object, index, get, lookup}
use state_driven_agent.Json.Sample.{sample_host}
use state_driven_agent.Config.{Config}
use state_driven_agent.Config.Sample.{config}
use state_driven_agent.Session.{append_message, archive_record, acknowledge_checkpoint}
use state_driven_agent.Session.Sample.{blank}
use state_driven_agent.Diagnostics.{stage, refresh_completeness}
use state_driven_agent.Workflow.{advance, is_complete, started}
use state_driven_agent.Policy.{result_checks, run_allowance, increment_invalid}
use state_driven_agent.Completion.{completion_errors}
use state_driven_agent.Progress.{observe_progress, progress_fingerprint, count_progress}
use state_driven_agent.Actions.{World, return, ◌>>=◌}
use state_driven_agent.Actions.Sample.{env}
use state_driven_agent.Engine.Parts.{Parts, without_diagnostics}
use state_driven_agent.Engine.Wire.{swap_remove}
use state_driven_agent.Engine.Answer.{act, judged}
use state_driven_agent.Engine.Round.{round, after_compacting}
use state_driven_agent.Engine.Run.{run, rounds, stop_at_limit}
use state_driven_agent.Engine.Run.Ends.{RunEnds, run-ends}

abbrev untasked : Config
untasked = record config { workflow = none }

abbrev parts_of : Value → Parts
parts_of d = record {
  compact = return false;
  compact_steady = λ w. refl;
  decide = λ ms. return d;
  decide_reads = λ ms w. refl;
  historical = none;
}

abbrev answering : Parts
answering = parts_of (object (("type", str "final") ∷ ("content", str "Done.") ∷ []))

abbrev fresh : World
fresh = record { session = blank; log = [] }

run-ends_example :
    RunEnds 10
      (run sample_host env untasked answering none fresh).0
      (run sample_host env untasked answering none fresh).1.session
unfolding run_allowance
run-ends_example =
    run-ends sample_host env untasked answering 0 10 (omega arith) none fresh refl refl

tests : Unit {0}
unfolding run rounds stop_at_limit result_checks without_diagnostics swap_remove round
    after_compacting act judged run_allowance observe_progress progress_fingerprint count_progress
    advance is_complete started completion_errors increment_invalid ◌>>=◌ stage refresh_completeness
    append_message archive_record acknowledge_checkpoint index get lookup add64 nat_text
tests = tt

completes : (run sample_host env untasked answering none fresh).1.session.status ≡ "complete"
unfolding tests
completes = refl

told : (run sample_host env untasked answering none fresh).1.session.final_answer ≡ some "Done."
unfolding tests
told = refl

abbrev babbling : Parts
babbling = parts_of (object (("type", str "invalid") ∷ []))

fails :
    (run sample_host env untasked babbling none fresh).1.session.run_termination_reason
    ≡ some "failed"
unfolding tests
fails = refl
