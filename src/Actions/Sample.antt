-- ===== src/Actions/Sample.antt =====
-- An environment for the tests: every commit is accepted, every tool answers, and identities are
-- numbered by the effects before them.
use state_driven_agent.Common.{none, ok, nat_text, length}
use state_driven_agent.Actions.{Env}

abbrev pub env : Env
env = record {
  fresh_id = λ log. nat_text (length log);
  timestamp = λ log. "now";
  emit = λ log event s. ok none;
  receipt = λ log namespace key. none;
  recipient = λ log namespace key args. ok "written";
  execute = λ log tool args. "7";
  action_key = λ namespace session id. ok id;
  payload_digest = λ tool target args. ok target;
  canonical = λ v. ok "value";
}
