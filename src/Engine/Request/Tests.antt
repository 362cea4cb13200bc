-- ===== src/Engine/Request/Tests.antt =====
-- The request of a session whose workflow has not begun.
use state_driven_agent.Common.{[], ◌∷◌, ◌≡◌, refl, ok}
use state_driven_agent.Json.{Value, str, object, get, lookup}
use state_driven_agent.Json.Sample.{sample_host}
use state_driven_agent.Config.Sample.{config}
use state_driven_agent.Session.Sample.{blank}
use state_driven_agent.Workflow.{is_complete}
use state_driven_agent.Policy.{tools_disabled}
use state_driven_agent.Engine.Wire.{single_call_wire, wire_from}
use state_driven_agent.Engine.Request.{decision_payload, open_request}
use state_driven_agent.Engine.Request.Offered.{IsRequest, decision_payload-IsRequest}

abbrev user : Value
user = object (("role", str "user") ∷ ("content", str "hello") ∷ [])

request_test :
    decision_payload sample_host config blank (user ∷ [])
    ≡ ok (open_request sample_host config (user ∷ []))
unfolding decision_payload single_call_wire wire_from get lookup is_complete tools_disabled
request_test = refl

decision_payload-IsRequest_example :
    IsRequest sample_host config blank (user ∷ []) (open_request sample_host config (user ∷ []))
decision_payload-IsRequest_example =
    decision_payload-IsRequest sample_host config blank (user ∷ [])
      (open_request sample_host config (user ∷ [])) request_test
