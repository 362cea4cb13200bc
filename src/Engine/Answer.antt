-- ===== src/Engine/Answer.antt =====
-- agent-rust/src/engine.rs, `run`: what a round does with the decision of the model, which is an invalid
-- response, a final answer or a batch of calls.
pub mod Accepts
mod Tests
pub mod Goes
use state_driven_agent.Common.{
  String, Bool, true, not, ◌&&◌, Option, none, some, List, [], ◌∷◌, map, if◌then◌else◌, is_none,
  or_else, is_some_and, length, join, contains_text, ◌+++◌, Result,
}
use state_driven_agent.Json.{Value, str, nat, array, index, as_str}
use state_driven_agent.Json.Host.{Host}
use state_driven_agent.Config.{Config}
use state_driven_agent.Session.{Session, Message, msg}
use state_driven_agent.Workflow.{is_complete}
use state_driven_agent.Policy.{instruction}
use state_driven_agent.Completion.{completion_errors}
use state_driven_agent.Progress.{observe_progress, append, engine_checkpoint}
use state_driven_agent.Actions.{
  Effect, Env, Action, return, ◌>>=◌, ◌>>◌, current, modify, draw_id, text_is, set,
}
use state_driven_agent.Engine.Settle.{settle_pending, count_invalid, report_limit}
use state_driven_agent.Engine.Parts.{
  event, interim, calls_in, wire_call, call_ids_of, scheduled, Parts,
}

module _ (host : Host) (env : Env) (config : Config) (parts : Parts) where
  -- The pending calls are settled, and what they gave is observed.
  abbrev observed : String → Option (Unit {0}) → Action (Option Bool)
  observed before none = return none
  observed before (some u) = observe_progress env host config before >> return (some true)

  abbrev pub settle_and_observe : String → Action (Option Bool)
  settle_and_observe before = settle_pending host env config >>= observed before

  -- An invalid response is corrected.
  abbrev invalid_message : Value → String
  invalid_message d =
      or_else (as_str (index "content" d)) "Return a valid tool call or a nonempty final answer."

  abbrev invalid_event : Value → Session → Value
  invalid_event d s = interim "response_rejected" (
      ("code", str (or_else (as_str (index "code" d)) "invalid_model_response"))
      ∷ ("message", str (invalid_message d))
      ∷ ("consecutive_invalid_responses", nat s.consecutive_invalid_responses)
      ∷ [])

  reject_invalid : String → Value → Action (Option Bool)
  reject_invalid before d = count_invalid host env config >>= λ reached.
      append env (
        msg "user" (
          some (
            "Runtime correction: "
            +++ invalid_message d
            +++ ". Return a valid tool call or a nonempty final answer.")))
      >> (current >>= λ s. engine_checkpoint env (invalid_event d s))
      >> report_limit host env config reached
      >> observe_progress env host config before
      >> return (some true)

  abbrev incomplete : Session → Bool
  incomplete s = not (is_none config.workflow) && not (is_complete host config s)

  -- Whether the workflow is incomplete is asked before the draft is kept.
  completion_feedback : List String → Bool → Session → String
  completion_feedback errors incomplete s =
      if incomplete
      then "Runtime correction: Workflow is incomplete. Obtain the outstanding evidence before answering.\n"
        +++ or_else (instruction host config s) ""
      else "Runtime correction: " +++ join " " errors

  abbrev completion_event : String → List String → String → Value
  completion_event answer errors feedback = interim "response_rejected" (
      ("code", str "completion_rejected")
      ∷ ("message", str feedback)
      ∷ ("errors", array (map str errors))
      ∷ ("candidate_content", str answer)
      ∷ [])

  -- An answer that leaves requirements open stays in the audit, and what is missing is said.
  reject_answer : String → String → List String → Action (Option Bool)
  unfolding completion_feedback
  reject_answer before answer errors = current >>= λ s.
      append env (msg "assistant" (some answer))
      >> (current >>= λ t.
          let feedback = completion_feedback errors (incomplete s) t in
          append env (msg "user" (some feedback))
          >> engine_checkpoint env (completion_event answer errors feedback))
      >> count_invalid host env config
      >>= λ reached.
          report_limit host env config reached
          >> observe_progress env host config before
          >> return (some true)

  abbrev pub completed : String → Session → Session
  completed answer s = record s {
    consecutive_invalid_responses = 0;
    status = "complete";
    run_status = "complete";
    final_answer = some answer;
  }

  abbrev reset_progress : Session → Session
  reset_progress s = record s { no_progress_steps = 0 }

  accept_answer : String → Action (Option Bool)
  accept_answer answer =
      modify (completed answer)
      >> append env (msg "assistant" (some answer))
      >> modify reset_progress
      >> engine_checkpoint env (event "final_result" (("answer", str answer) ∷ []))
      >> return (some true)

  unfoldable pub judged : String → String → Session → List String → Action (Option Bool)
  unfolding reject_answer accept_answer
  judged before answer s [] =
      if is_complete host config s then accept_answer answer else return (some true)
  judged before answer s (e ∷ es) = reject_answer before answer (e ∷ es)

  -- A final answer is accepted where nothing is missing.
  unfoldable pub judge_answer : String → Value → Action (Option Bool)
  judge_answer before d = current >>= λ s.
      let answer = or_else (as_str (index "content" d)) "" in
      judged before answer s (completion_errors host config s answer)

  -- A call whose identity was given before gets a fresh one.
  abbrev renewed : List String → List Value → Action (List Value)
  renewed taken [] = return []
  renewed taken (call ∷ calls) =
      (if is_some_and (as_str (index "id" call)) (contains_text taken)
        then (draw_id env >>= λ id. return (set "id" (str id) call))
        else return call)
      >>= λ c. renewed taken calls >>= λ cs. return (c ∷ cs)

  unfoldable pub reserved :
      Option (List Effect → String → List String → Result String (List String))
      → List Value
      → Action (List Value)
  unfolding set
  reserved none calls = return calls
  reserved (some lookup) calls =
      (λ w. (lookup w.log w.session.id (call_ids_of calls), w)) >>= λ taken. renewed taken calls

  abbrev batch_message : Value → List Value → Message
  batch_message d calls = record (msg "assistant" (as_str (index "content" d))) {
    tool_calls = some (array (map wire_call calls));
  }

  abbrev schedule_event : Session → Value
  schedule_event s =
      event "tool_batch_scheduled" (("call_count", nat (length s.pending_tool_calls)) ∷ [])

  -- The calls of a decision are scheduled and settled.
  schedule : String → Value → Action (Option Bool)
  schedule before d = reserved parts.historical (calls_in d) >>= λ calls.
      append env (batch_message d calls)
      >> modify (scheduled calls)
      >> (current >>= λ s. engine_checkpoint env (schedule_event s))
      >> settle_and_observe before

  unfoldable pub act : String → Value → Action (Option Bool)
  unfolding reject_invalid judge_answer schedule
  act before d =
      if text_is (index "type" d) "invalid"
      then reject_invalid before d
      else if text_is (index "type" d) "final"
      then judge_answer before d
      else schedule before d
