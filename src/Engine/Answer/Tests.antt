-- ===== src/Engine/Answer/Tests.antt =====
-- A final answer in a session without a workflow.
use state_driven_agent.Common.{◌≡◌, refl, false, true, none, [], ◌∷◌, or_else, str_eq}
use state_driven_agent.Common.Int.{add64}
use state_driven_agent.Json.{Value, str, object, index, as_str, get, lookup}
use state_driven_agent.Json.Sample.{sample_host}
use state_driven_agent.Config.{Config}
use state_driven_agent.Config.Sample.{config}
use state_driven_agent.Session.{append_message, acknowledge_checkpoint}
use state_driven_agent.Session.Sample.{blank}
use state_driven_agent.Diagnostics.{stage, refresh_completeness}
use state_driven_agent.Workflow.{is_complete}
use state_driven_agent.Policy.{result_checks}
use state_driven_agent.Completion.{completion_errors}
use state_driven_agent.Actions.{World, return, ◌>>=◌}
use state_driven_agent.Actions.Sample.{env}
use state_driven_agent.Engine.Parts.{Parts}
use state_driven_agent.Engine.Answer.{judge_answer, judged}
use state_driven_agent.Engine.Answer.Accepts.{judge_answer-accepts}

abbrev untasked : Config
untasked = record config { workflow = none }

abbrev answer : Value
answer = object (("type", str "final") ∷ ("content", str "Done.") ∷ [])

abbrev parts : Parts
parts = record {
  compact = return false;
  compact_steady = λ w. refl;
  decide = λ ms. return answer;
  decide_reads = λ ms w. refl;
  historical = none;
}

abbrev fresh : World
fresh = record { session = blank; log = [] }

accepted :
    str_eq
      (judge_answer sample_host env untasked parts "before" answer fresh).1.session.status
      "complete"
    ≡ true
unfolding judge_answer judged completion_errors is_complete result_checks ◌>>=◌ stage
    refresh_completeness append_message acknowledge_checkpoint index get lookup add64
accepted = refl

judge_answer-accepts_example :
    (completion_errors sample_host untasked blank (or_else (as_str (index "content" answer)) "")
      ≡ [])
    × (is_complete sample_host untasked blank ≡ true)
judge_answer-accepts_example =
    judge_answer-accepts sample_host env untasked parts "before" answer fresh refl accepted
