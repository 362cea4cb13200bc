-- ===== src/Config/Sample.antt =====
-- A workflow of one phase, which asks for a valid result and then completes, for the tests.
use state_driven_agent.Common.{true, none, some, [], ◌∷◌}
use state_driven_agent.Common.Int.{pos}
use state_driven_agent.Json.{pos_int, bool, obj, end, object}
use state_driven_agent.Config.{Evidence, Phase, WorkflowConfig, Config}
use state_driven_agent.Session.{Workflow}

abbrev pub validated : Evidence
validated = record {
  description = "A valid total.";
  tool = "validate";
  required = true;
  arguments = obj end;
  result = object (("valid", bool true) ∷ []);
  content_contains = [];
}

abbrev pub inspect : Phase
inspect = record {
  id = "inspect";
  name = "Inspect";
  instruction = "Look.";
  allowed_tools = none;
  completion = validated ∷ [];
  transitions = record { to = "complete"; when = "phase_complete"; evidence = [] } ∷ [];
}

abbrev pub plan : WorkflowConfig
plan = record { entry_phase = "inspect"; phases = inspect ∷ [] }

abbrev pub config : Config
config = record {
  name = "audit";
  system_prompt = "You audit.";
  model = "model";
  llm = record {
    base_url = "http://model/v1/";
    api_key_env = "KEY";
    temperature = pos_int 0;
    tool_call_mode = "single";
    max_output_tokens = none;
  };
  memory = record {
    max_tokens = pos 1000;
    max_steps = pos 10;
    raw_turns_to_keep = 4;
    hybrid_reflection = true;
    run_max_steps = none;
    compaction_interval_steps = none;
    context_window_tokens = pos 32768;
    reserved_output_tokens = pos 1024;
    safety_margin_tokens = pos 256;
    compaction_min_growth_tokens = pos 512;
  };
  tools = [];
  workflow = some plan;
  execution = obj end;
  completion = obj end;
}

abbrev pub entered : Workflow
entered = record {
  active_phase = some "inspect";
  completed_phases = [];
  observed_evidence = [];
  transitions = [];
}

abbrev pub shown : Workflow
shown = record entered { observed_evidence = "inspect:completion:0" ∷ [] }

abbrev pub finished : Workflow
finished = record shown {
  active_phase = none;
  completed_phases = "inspect" ∷ [];
  transitions =
      record { from_phase = "inspect"; to_phase = "complete"; reason = "phase_complete" } ∷ [];
}
