-- ===== src/Engine/Wire.antt =====
-- agent-rust/src/engine.rs, `single_call_wire`: a history whose assistant messages have one call each, followed
-- by its result. The loop runs on fuel; it is given one unit for each message.
pub mod Ends
pub mod Pairs
mod Tests
use state_driven_agent.Common.{
  ℕ, zero, suc, ◌+◌, String, Bool, true, false, not, ◌&&◌, ◌||◌, Option, none, some, List, [], ◌∷◌,
  ◌++◌, if◌then◌else◌, str_eq, is_some_and, is_none, is_empty, or_else, any, contains_text, length,
  take, drop, ltb, ◌==◌, Result, ok, err, ◌>>=◌, ◌>>◌, require, ok_or,
}
use state_driven_agent.Json.{Value, obj, Fields, end, field, array, get_str, get_array, ◌and_then◌}
use state_driven_agent.Actions.{set}

-- The errors of the source, and the end of the fuel, which does not occur.
pub data Fault : Type 0 where
  orphaned bad_call_ids missing_results incomplete_results bad_result_ids mismatched unfinished :
      Fault

abbrev pub has_role : String → Value → Bool
has_role r message = is_some_and (get_str "role" message) λ s. str_eq s r

-- The calls of an assistant message, none where there are none.
abbrev pub calls_of : Value → List Value
calls_of message =
    if has_role "assistant" message then or_else (get_array "tool_calls" message) [] else []

abbrev pub text_at : String → Value → String
text_at k v = or_else (get_str k v) ""

-- The identities of the calls, which must be present and different.
pub wire_call_ids : List String → List Value → Option (List String)
wire_call_ids seen [] = some []
wire_call_ids seen (call ∷ calls) =
    let rest = wire_call_ids (seen ++ text_at "id" call ∷ []) calls in
    if str_eq (text_at "id" call) "" || contains_text seen (text_at "id" call)
    then none
    else (rest and_then λ ids. some (text_at "id" call ∷ ids))

-- The results by the identities of their calls.
abbrev pub Results : Type 0
Results = List (String × Value)

abbrev pub find_result : String → Results → Option Value
find_result id [] = none
find_result id ((k, v) ∷ results) =
    let rest = find_result id results in if str_eq k id then some v else rest

pub collect : Results → List Value → Result Fault Results
collect found [] = ok found
collect found (r ∷ results) =
    let id = text_at "tool_call_id" r in
    require (has_role "tool" r) incomplete_results
    >> require (not (str_eq id "") && is_none (find_result id found)) bad_result_ids
    >> collect (found ++ (id, r) ∷ []) results

-- `Map::remove` of serde_json, where it keeps the order of insertion: the last entry takes the place.
abbrev last_of : String → Value → Fields → String × Value
last_of k v end = (k, v)
last_of k v (field j w m) = last_of j w m

abbrev without_last : String → Value → Fields → Fields
without_last k v end = end
without_last k v (field j w m) = field k v (without_last j w m)

abbrev swapped : Fields → Fields
swapped end = end
swapped (field k v m) = let (j, w) = last_of k v m in field j w (without_last k v m)

unfoldable pub swap_remove : String → Fields → Fields
swap_remove k end = end
swap_remove k (field j v m) =
    let rest = field j v (swap_remove k m) in if str_eq j k then swapped m else rest

abbrev remove_content : Value → Value
remove_content (obj m) = obj (swap_remove "content" m)
remove_content v = v

-- The message with one of its calls; its text stays with the first.
pub with_call : Value → ℕ → Value → Value
unfolding swap_remove
with_call message position call =
    let assistant = set "tool_calls" (array (call ∷ [])) message in
    if position == 0 then assistant else remove_content assistant

-- Each call with its result. Every identity is there, by the check before.
pub pairs : Value → ℕ → List Value → Results → Result Fault (List Value)
unfolding with_call
pairs message position [] results = ok []
pairs message position (call ∷ calls) results =
    ok_or (find_result (text_at "id" call) results) mismatched >>= λ r.
    pairs message (suc position) calls results >>= λ more.
    ok (with_call message position call ∷ r ∷ more)

-- A batch of calls with the results behind it.
pub wire_batch : Value → List Value → List Value → Result Fault (List Value)
unfolding wire_call_ids collect pairs
wire_batch message calls rest = ok_or (wire_call_ids [] calls) bad_call_ids >>= λ ids.
    require (not (ltb (length rest) (length calls))) missing_results
    >> collect [] (take (length calls) rest)
    >>= λ results.
        require
          (length results == length ids && not (any (λ id. is_none (find_result id results)) ids))
          mismatched
        >> pairs message 0 calls results

unfoldable pub wire_from : ℕ → List Value → Result Fault (List Value)
unfolding wire_batch
wire_from fuel [] = ok []
wire_from zero (message ∷ rest) = err unfinished
wire_from (suc fuel) (message ∷ rest) =
    if is_empty (calls_of message)
    then (require (not (has_role "tool" message)) orphaned >> wire_from fuel rest >>= λ more.
        ok (message ∷ more))
    else (wire_batch message (calls_of message) rest >>= λ front.
        wire_from fuel (drop (length (calls_of message)) rest) >>= λ more. ok (front ++ more))

-- `single_call_wire`
unfoldable pub single_call_wire : List Value → Result Fault (List Value)
single_call_wire messages = wire_from (length messages) messages
