-- ===== src/Decision/Reads.antt =====
-- Parsing a decision in agent-rust/src/engine.rs leaves the session as it is.
use state_driven_agent.Common.{
  ℕ, zero, suc, String, Option, none, some, List, [], ◌∷◌, ◌++◌, refl, contains_text, length, ◌+++◌,
}
use state_driven_agent.Json.{Value, get, get_str, as_array, is_null}
use state_driven_agent.Json.Host.{Host}
use state_driven_agent.Config.{Config}
use state_driven_agent.Session.{Session}
use state_driven_agent.Actions.{Env, Action}
use state_driven_agent.Actions.Frame.{Leaves, Leaves-bind, Leaves-if}
use state_driven_agent.Decision.{
  draw_unused, fresh_call_id, nonblank, call_id_or, parse_calls, decide_calls, decide_list,
  decide_raw, decide_message, decide_choice, parse_decision, historical_call_ids,
}

-- An action that reads the session.
abbrev pub Reads : {A : Type 0} → Action A → Type 0
Reads m = Leaves (λ t. t) m

draw_unused-Reads : (env : Env) (fuel : ℕ) (used : List String) → Reads (draw_unused env fuel used)
unfolding draw_unused
draw_unused-Reads env zero used = record { leaves = λ w. refl }
draw_unused-Reads env (suc fuel) used =
    Leaves-bind (λ t. t) _ _ (record { leaves = λ w. refl })
      λ id.
        Leaves-if (λ t. t) (contains_text used ("call_" +++ id)) _ _
          (draw_unused-Reads env fuel used) (record { leaves = λ w. refl })

fresh_call_id-Reads : (env : Env) (used : List String) → Reads (fresh_call_id env used)
unfolding fresh_call_id
fresh_call_id-Reads env used = draw_unused-Reads env (suc (length used)) used

call_id_or-Reads :
    (env : Env) (used : List String) (o : Option String) → Reads (call_id_or env used o)
call_id_or-Reads env used none = fresh_call_id-Reads env used
call_id_or-Reads env used (some id) =
    Leaves-if (λ t. t) (contains_text used id) _ _ (fresh_call_id-Reads env used)
      (record { leaves = λ w. refl })

parse_calls-Reads :
    (host : Host) (env : Env) (config : Config) (used : List String) (raws : List Value)
    → Reads (parse_calls host env config used raws)
unfolding parse_calls
parse_calls-Reads host env config used [] = record { leaves = λ w. refl }
parse_calls-Reads host env config used (raw ∷ raws) =
    Leaves-bind (λ t. t) _ _ (call_id_or-Reads env used (nonblank (get_str "id" raw)))
      λ id.
        Leaves-bind (λ t. t) _ _ (parse_calls-Reads host env config (used ++ id ∷ []) raws)
          λ calls. record { leaves = λ w. refl }

module _ (host : Host) (env : Env) (config : Config) (s : Session) (diagnostics : List Value) where
  decide_calls-Reads :
      (content : Option String) (raws : List Value)
      → Reads (decide_calls host env config s diagnostics content raws)
  unfolding decide_calls
  decide_calls-Reads content [] = record { leaves = λ w. refl }
  decide_calls-Reads content (raw ∷ raws) =
      Leaves-bind (λ t. t) _ _
        (parse_calls-Reads host env config (historical_call_ids s) (raw ∷ raws))
        λ calls. record { leaves = λ w. refl }

  decide_list-Reads :
      (content : Option String) (o : Option (List Value))
      → Reads (decide_list host env config s diagnostics content o)
  unfolding decide_list
  decide_list-Reads content none = record { leaves = λ w. refl }
  decide_list-Reads content (some raws) = decide_calls-Reads content raws

  decide_raw-Reads :
      (content : Option String) (o : Option Value)
      → Reads (decide_raw host env config s diagnostics content o)
  unfolding decide_raw
  decide_raw-Reads content none = record { leaves = λ w. refl }
  decide_raw-Reads content (some raw) =
      Leaves-if (λ t. t) (is_null raw) _ _ (record { leaves = λ w. refl })
        (decide_list-Reads content (as_array raw))

  decide_message-Reads : (o : Option Value) → Reads (decide_message host env config s diagnostics o)
  unfolding decide_message
  decide_message-Reads none = record { leaves = λ w. refl }
  decide_message-Reads (some message) =
      decide_raw-Reads (get_str "content" message) (get "tool_calls" message)

  decide_choice-Reads :
      (v : Value) (o : Option Value) → Reads (decide_choice host env config s diagnostics v o)
  unfolding decide_choice
  decide_choice-Reads v none = record { leaves = λ w. refl }
  decide_choice-Reads v (some choice) = decide_message-Reads _

  pub parse_decision-Reads : (v : Value) → Reads (parse_decision host env config s diagnostics v)
  unfolding parse_decision
  parse_decision-Reads v = decide_choice-Reads v _
