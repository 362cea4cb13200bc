-- ===== src/Session/Sample.antt =====
-- A session with nothing in it, for the tests.
use state_driven_agent.Common.{true, false, none, []}
use state_driven_agent.Common.Int.{pos}
use state_driven_agent.Json.{obj, end}
use state_driven_agent.Session.{Session}

abbrev pub blank : Session
blank = record {
  id = "session";
  goal = "goal";
  command = none;
  run_command_id = none;
  needs_reload = false;
  revision = pos 0;
  execution_owner = none;
  execution_fence = none;
  next_transcript_sequence = pos 1;
  pending_transcript = [];
  memory = [];
  compacted_context = none;
  committed_summaries = [];
  compaction_events = [];
  compaction_attempts = [];
  compaction_decisions = [];
  diagnostic_counts = [];
  diagnostics_complete = true;
  diagnostic_rejections = pos 0;
  compaction_savings_total = pos 0;
  compaction_savings_known = true;
  diagnostics_pending = [];
  last_compaction_step = pos 0;
  last_compaction_estimated_tokens = none;
  workflow = none;
  step_count = pos 0;
  run_count = pos 0;
  run_id = none;
  run_started_at = none;
  run_ended_at = none;
  run_termination_reason = none;
  status = "active";
  run_status = "";
  final_answer = none;
  last_error = none;
  consecutive_invalid_responses = 0;
  model_request_diagnostics = [];
  executions = [];
  pending_execution_outbox = [];
  attempts_pending = [];
  completion_artifacts = obj end;
  no_progress_steps = 0;
  progress_fingerprint = none;
  progress_seen_outputs = [];
  pending_tool_calls = [];
  pending_tool_phase = none;
}
