-- ===== src/Engine/Budget/Tests.antt =====
-- The estimate of a request of two messages.
use state_driven_agent.Common.{◌≡◌, refl, true, [], ◌∷◌}
use state_driven_agent.Common.Int.{pos, add64}
use state_driven_agent.Json.{Value, object, array, null, get, lookup}
use state_driven_agent.Json.Sample.{sample_host}
use state_driven_agent.Config.Sample.{config}
use state_driven_agent.Engine.Budget.{estimate_payload}

abbrev request : Value
request = object (("messages", array (null ∷ null ∷ [])) ∷ [])

estimated : (estimate_payload sample_host config.memory request).estimated_input_tokens ≡ pos 69
unfolding estimate_payload get lookup
estimated = refl

fitting : (estimate_payload sample_host config.memory request).fits ≡ true
unfolding estimate_payload get lookup add64
fitting = refl
