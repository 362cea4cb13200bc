-- ===== src/History/Tests.antt =====
-- A history with a user's message, and a batch of one call with its result.
use state_driven_agent.Common.{none, some, List, [], ◌∷◌, ◌≡◌, ◌≢◌, refl, ok, err, All, length}
use state_driven_agent.Json.{get, str, object, array}
use state_driven_agent.Session.{Message, msg}
use state_driven_agent.History.{
  HistoryGroup, unfinished, incomplete_batch, orphaned_result, interaction_groups, split_history,
  single, batch, flatten, range_from,
}
use state_driven_agent.History.Whole.{all_indexes, interaction_groups_whole}
use state_driven_agent.History.Correlated.{IsGroup, interaction_groups-IsGroup}
use state_driven_agent.History.Split.{IsSplit, split_history-IsSplit}
use state_driven_agent.History.Ends.{interaction_groups-ne-unfinished}

abbrev question : Message
question = msg "user" (some "Total?")

abbrev calls : Message
calls = record (msg "assistant" none) {
  tool_calls = some (array (object (("id", str "c1") ∷ []) ∷ []));
}

abbrev answer : Message
answer = record (msg "tool" (some "7")) { tool_call_id = some "c1" }

abbrev messages : List Message
messages = question ∷ calls ∷ answer ∷ []

abbrev groups : List HistoryGroup
groups = single 0 question ∷ batch 1 calls (answer ∷ []) ∷ []

tests : Unit {0}
unfolding get split_history interaction_groups
tests = tt

groups_test : interaction_groups messages ≡ ok groups
unfolding tests
groups_test = refl

orphan_test : interaction_groups (answer ∷ []) ≡ err (orphaned_result 0)
unfolding tests
orphan_test = refl

incomplete_test : interaction_groups (question ∷ calls ∷ []) ≡ err (incomplete_batch 1)
unfolding tests
incomplete_test = refl

split_test :
    split_history messages 1 ≡ ok (single 0 question ∷ [], batch 1 calls (answer ∷ []) ∷ [])
unfolding tests
split_test = refl

interaction_groups_whole_example :
    (flatten groups ≡ messages) × (all_indexes groups ≡ range_from 0 (length messages))
interaction_groups_whole_example = interaction_groups_whole messages groups groups_test

interaction_groups-IsGroup_example : All IsGroup groups
interaction_groups-IsGroup_example = interaction_groups-IsGroup messages groups groups_test

split_history-IsSplit_example :
    IsSplit messages 1 (single 0 question ∷ []) (batch 1 calls (answer ∷ []) ∷ [])
split_history-IsSplit_example =
    split_history-IsSplit messages 1 (single 0 question ∷ []) (batch 1 calls (answer ∷ []) ∷ [])
      split_test

interaction_groups-ne-unfinished_example : interaction_groups messages ≢ err unfinished
interaction_groups-ne-unfinished_example = interaction_groups-ne-unfinished messages
