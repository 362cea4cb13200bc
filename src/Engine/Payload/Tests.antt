-- ===== src/Engine/Payload/Tests.antt =====
-- The messages of a decision for a session with one message behind the goal.
use state_driven_agent.Common.{some, List, [], ◌∷◌, ◌++◌, ◌≡◌, All, drop, ◌+++◌}
use state_driven_agent.Json.Sample.{sample_host}
use state_driven_agent.Config.Sample.{config}
use state_driven_agent.Session.{Session, Message, msg}
use state_driven_agent.Session.Sample.{blank}
use state_driven_agent.Engine.Payload.{payload}
use state_driven_agent.Engine.Payload.Verbatim.{IsRuntime, payload_verbatim}

abbrev talked : Session
talked = record blank { memory = msg "user" (some "goal") ∷ msg "user" (some "hello") ∷ [] }

payload_verbatim_example :
    (front : List Message) × (behind : List Message) × (payload sample_host config talked
      ≡ msg "system" (some config.system_prompt)
          ∷ msg "user" (some ("Original user goal (immutable): " +++ talked.goal))
          ∷ front
        ++ (drop 1 talked.memory ++ behind))
    × All IsRuntime front
    × All IsRuntime behind
payload_verbatim_example = payload_verbatim sample_host config talked
