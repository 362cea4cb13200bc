-- ===== src/Strict/Tests.antt =====
-- A map with two entries, and one with a repeated key.
use state_driven_agent.Common.{some, none, [], ◌∷◌, ◌≡◌, ◌↔◌, refl}
use state_driven_agent.Json.{Value, object, nat, lookup, insert}
use state_driven_agent.Json.Sample.{sample_host}
use state_driven_agent.Strict.{visit}
use state_driven_agent.Strict.Laws.{IsStrict, visit_iff}

abbrev pair : Value
pair = object (("a", nat 1) ∷ ("b", nat 2) ∷ [])

repeated_test : visit sample_host (object (("a", nat 1) ∷ ("a", nat 2) ∷ [])) ≡ none
unfolding visit lookup insert
repeated_test = refl

visit_iff_example :
    (visit sample_host pair ≡ some pair) ↔ ((pair ≡ pair) × IsStrict sample_host pair)
visit_iff_example = visit_iff sample_host pair pair
