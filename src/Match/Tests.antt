-- ===== src/Match/Tests.antt =====
-- Values and decimals at work.
use state_driven_agent.Common.{nat_text, true, [], ◌∷◌, ◌≡◌, refl}
use state_driven_agent.Json.{Value, bool, nat, object, array, lookup}
use state_driven_agent.Json.Sample.{sample_host}
use state_driven_agent.Match.{contains}
use state_driven_agent.Match.Order.{contains_trans}

abbrev full : Value
full = object (("valid", bool true) ∷ ("rows", array (nat 7 ∷ nat 8 ∷ [])) ∷ [])

abbrev part : Value
part = object (("rows", array (nat 8 ∷ nat 7 ∷ [])) ∷ [])

abbrev less : Value
less = object (("rows", array (nat 8 ∷ [])) ∷ [])

tests : Unit {0}
unfolding nat_text contains lookup
tests = tt

contains_trans_example : contains sample_host full less ≡ true
unfolding tests
contains_trans_example = contains_trans sample_host full part less refl refl
