-- ===== src/Engine/Decide/Reads.antt =====
-- A decision leaves the session as it is: `decide` fills the interface of the loop `run`.
use state_driven_agent.Common.{List, refl, Result, ok, err, map}
use state_driven_agent.Json.{Value}
use state_driven_agent.Json.Host.{Host}
use state_driven_agent.Config.{Config}
use state_driven_agent.Session.{Session, Message, wire_message}
use state_driven_agent.Decision.Reads.{parse_decision-Reads}
use state_driven_agent.Actions.{Env, current}
use state_driven_agent.Actions.Frame.{Leaves, Leaves-bind}
use state_driven_agent.Engine.Wire.{Fault}
use state_driven_agent.Engine.Request.{decision_payload}
use state_driven_agent.Engine.Provider.{Http, Outcome, received, broken}
use state_driven_agent.Engine.Provider.Exchange.{post_chat-Reads}
use state_driven_agent.Engine.Parts.{Parts}
use state_driven_agent.Engine.Decide.{outcome_decision, asked, decide}

module _ (host : Host) (env : Env) (config : Config) (http : Http) where
  outcome_decision-Reads :
      (s : Session) (o : Outcome) → Leaves (λ t. t) (outcome_decision host env config http s o)
  outcome_decision-Reads s (received v diagnostics) =
      parse_decision-Reads host env config s diagnostics v
  outcome_decision-Reads s (broken f) = record { leaves = λ w. refl }

  asked-Reads :
      (s : Session) (r : Result Fault Value) → Leaves (λ t. t) (asked host env config http s r)
  asked-Reads s (ok payload) =
      Leaves-bind (λ t. t) _ _ (post_chat-Reads host config http payload) (outcome_decision-Reads s)
  asked-Reads s (err fault) = record { leaves = λ w. refl }

  pub decide-Reads : (ms : List Message) → Leaves (λ t. t) (decide host env config http ms)
  unfolding decide
  decide-Reads ms =
      Leaves-bind (λ t. t) current _ (record { leaves = λ w. refl })
        λ s. asked-Reads s (decision_payload host config s (map wire_message ms))

  -- The parts of the loop with this decision.
  abbrev pub with_decide : Parts → Parts
  with_decide parts = record parts {
    decide = decide host env config http;
    decide_reads = λ ms w. (decide-Reads ms).leaves w;
  }
