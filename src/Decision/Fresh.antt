-- ===== src/Decision/Fresh.antt =====
-- The calls of a decision of agent-rust/src/engine.rs against the conversation of the session.
use state_driven_agent.Common.{
  ap, String, true, false, Option, none, some, List, [], ◌∷◌, ◌≡◌, ◌≢◌, refl, str_eq, Bool, is_none,
  is_empty, is_some_and, if◌then◌else◌, ok,
}
use state_driven_agent.Json.{
  Value, get, get_str, get_array, as_array, as_object, is_null, lookup, insert, ◌and_then◌,
}
use state_driven_agent.Json.Host.{Host}
use state_driven_agent.Config.{Config}
use state_driven_agent.Session.{Session}
use state_driven_agent.Actions.{World, Env}
use state_driven_agent.Actions.Gives.{Gives, Gives-then, Gives-return, Gives-if}
use state_driven_agent.Decision.{
  historical_call_ids, tools_decision, final_decision, nonblank, invalid, decide_calls, decide_list,
  decide_raw, decide_message, decide_choice, an_object, first, no_choice, parse_decision,
}
use state_driven_agent.Decision.Calls.{AreCalls, parse_calls-AreCalls}
use state_driven_agent.Decision.Foreign.{AreFresh, Covers, ids_in-IsForeign, AreCalls-AreFresh}

-- Where it is for tools, the decision is as P says.
abbrev If : (Value → Type 0) → Value → Type 0
If P d = get_str "type" d ≡ some "tools" → P d

other_ne : (◌≢◌ {A = Option String} (some "final") (some "tools"))
other_ne k = let h : true ≡ false = ap (λ o. is_some_and o (λ x. str_eq x "final")) k in cc

final-If : (P : Value → Type 0) (o : Option String) (ds : List Value) → If P (final_decision o ds)
unfolding final_decision get lookup insert
final-If P none ds h = cc
final-If P (some x) ds h =
    let k : ◌≡◌ {A = Option String} (some "final") (some "tools") = h in absurd (other_ne k)

invalid-If :
    (P : Value → Type 0) (code message : String) (ds : List Value) → If P (invalid code message ds)
unfolding get lookup insert
invalid-If P code message ds h = cc

module _ (host : Host) (env : Env) (config : Config) (s : Session) (diagnostics : List Value) where
  -- The calls that a response asks for, and what they become.
  pub record IsBatch (content : Option String) (raws : List Value) (d : Value) : Type 0 where
    pub calls : List Value
    pub decided : d ≡ tools_decision content diagnostics calls
    pub fresh : AreFresh host config s.memory [] raws calls

  historical-Covers : Covers host config s.memory (historical_call_ids s) []
  unfolding Covers historical_call_ids
  historical-Covers id h = (ids_in-IsForeign s.memory id h, refl)

  calls-Gives :
      (content : Option String) (raws : List Value)
      → Gives (If (IsBatch content raws)) (decide_calls host env config s diagnostics content raws)
  unfolding decide_calls
  calls-Gives content [] =
      Gives-return (If (IsBatch content [])) _
        (final-If (IsBatch content []) (nonblank content) diagnostics)
  calls-Gives content (raw ∷ raws) =
      Gives-then (AreCalls host config (historical_call_ids s) (raw ∷ raws))
        (If (IsBatch content (raw ∷ raws))) _ _
        (record {
          given = λ w v calls h.
              parse_calls-AreCalls host env config (historical_call_ids s) (raw ∷ raws) calls w v h;
        })
        λ calls are. Gives-return (If (IsBatch content (raw ∷ raws))) _ λ h. record {
          calls = calls;
          decided = refl;
          fresh =
              AreCalls-AreFresh host config s.memory (historical_call_ids s) [] (raw ∷ raws) calls
                historical-Covers are;
        }

  -- A message that lists calls.
  pub record IsListed (message d : Value) : Type 0 where
    pub listed : Value
    pub raws : List Value
    pub has_calls : get "tool_calls" message ≡ some listed
    pub has_list : as_array listed ≡ some raws
    pub batch : IsBatch (get_str "content" message) raws d

  message-Gives :
      (message : Value)
      → Gives (If (IsListed message)) (decide_message host env config s diagnostics (some message))
  unfolding decide_message decide_raw decide_list
  message-Gives message = go (get "tool_calls" message) refl
    where
      P : Value → Type 0
      P = If (IsListed message)

      content : Option String
      content = get_str "content" message

      list :
          (raw : Value) (o : Option (List Value))
          → get "tool_calls" message ≡ some raw
          → as_array raw ≡ o
          → Gives P (decide_list host env config s diagnostics content o)
      list raw none e f = Gives-return P _ (invalid-If (IsListed message) _ _ diagnostics)
      list raw (some raws) e f = record {
        given = λ w v d h t. record {
          listed = raw;
          raws = raws;
          has_calls = e;
          has_list = f;
          batch = (calls-Gives content raws).given w v d h t;
        };
      }

      go :
          (o : Option Value)
          → get "tool_calls" message ≡ o
          → Gives P (decide_raw host env config s diagnostics content o)
      go none e = Gives-return P _ (final-If (IsListed message) (nonblank content) diagnostics)
      go (some raw) e =
          Gives-if P (is_null raw) _ _
            (Gives-return P _ (final-If (IsListed message) (nonblank content) diagnostics))
            (list raw (as_array raw) e refl)

  -- A decision for tools: the message of the response's first choice lists calls, and the decision
  -- has what they become.
  pub record IsToolsDecision (v d : Value) : Type 0 where
    pub choice : Value
    pub choices : List Value
    pub message : Value
    pub has_choice : get_array "choices" v ≡ some (choice ∷ choices)
    pub has_message : get "message" choice ≡ some message
    pub is_listed : IsListed message d

  -- If parsing a response succeeds with a decision for tools, the message of the first choice of the
  -- response has a list of calls, and the decision has the content of this message and one call for
  -- each of these in order, each with an identity that no message of the session has, as a call or
  -- as an answer, and that no call before it in the response has.
  pub parse_decision-IsToolsDecision :
      (v d : Value) (w w' : World)
      → parse_decision host env config s diagnostics v w ≡ (ok d, w')
      → get_str "type" d ≡ some "tools"
      → IsToolsDecision v d
  unfolding parse_decision decide_choice no_choice decide_message
  parse_decision-IsToolsDecision v d w w' h t =
      (choose (get_array "choices" v) refl).given w w' d h t
    where
      P : Value → Type 0
      P = If (IsToolsDecision v)

      answered :
          (choice : Value) (choices : List Value) (o : Option Value)
          → get_array "choices" v ≡ some (choice ∷ choices)
          → get "message" choice ≡ o
          → Gives P (
              decide_message host env config s diagnostics
                (an_object host env config s diagnostics o))
      answered choice choices none e f =
          Gives-return P _ (invalid-If (IsToolsDecision v) _ _ diagnostics)
      answered choice choices (some message) e f = within (is_none (as_object message))
        where
          within :
              (b : Bool)
              → Gives P
                  (decide_message host env config s diagnostics (if b then none else some message))
          within true = Gives-return P _ (invalid-If (IsToolsDecision v) _ _ diagnostics)
          within false = record {
            given = λ w w' d h t. record {
              choice = choice;
              choices = choices;
              message = message;
              has_choice = e;
              has_message = f;
              is_listed = (message-Gives message).given w w' d h t;
            };
          }

      refused :
          (b : Bool)
          → P (
              if b
              then invalid "empty_model_response" "Model returned an empty choices array."
                  diagnostics
              else invalid "invalid_model_response"
                  "Model response must contain choices[0].message." diagnostics)
      refused true = invalid-If (IsToolsDecision v) _ _ diagnostics
      refused false = invalid-If (IsToolsDecision v) _ _ diagnostics

      choose :
          (o : Option (List Value))
          → get_array "choices" v ≡ o
          → Gives P (
              decide_choice host env config s diagnostics v
                (o and_then first host env config s diagnostics))
      choose none e = Gives-return P _ (refused (is_some_and (get_array "choices" v) is_empty))
      choose (some []) e = Gives-return P _ (refused (is_some_and (get_array "choices" v) is_empty))
      choose (some (choice ∷ choices)) e = answered choice choices (get "message" choice) e refl
