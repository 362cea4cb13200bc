-- ===== src/Progress.antt =====
-- agent-rust/src/engine.rs: what counts as progress. The outputs that a task without a workflow has
-- seen, the fingerprint of its state, the limit on decisions without progress, and the checkpoint of
-- the engine that these commit.
pub mod Keeps
pub mod Steady
pub mod Uncompleted
pub mod Laws
pub mod Counted
mod Tests
use state_driven_agent.Common.{
  ℕ, suc, ◌+◌, ◌-◌, ◌/◌, ◌%◌, ◌^◌, String, Bool, true, false, not, ◌&&◌, Option, none, some, List,
  [], ◌∷◌, ◌++◌, if◌then◌else◌, str_eq, is_none, is_some_and, or_else, contains_text, length, drop,
  map, ltb, leb, ◌==◌, nat_text, ◌+++◌, Result, ok, err, max,
}
use state_driven_agent.Json.{
  Value, null, bool, str, obj, Fields, text, array, object, index, as_str, get_u64, ◌and_then◌, nat,
}
use state_driven_agent.Json.Host.{Host}
use state_driven_agent.Config.{Config}
use state_driven_agent.Session.{
  Session, Workflow, Transition, Message, msg, append_message, Receipt, acknowledge_checkpoint,
  clear_outboxes,
}
use state_driven_agent.Diagnostics.{
  Fault, ordinal_overflow, invalid_event, not_summary, legacy_differs, unknown_counter,
  invalid_archived, unknown_family, gap, counter_differs, stage,
}
use state_driven_agent.Policy.{instruction}
use state_driven_agent.Actions.{
  Env, Action, return, fail, lift, ◌>>=◌, ◌>>◌, current, modify, draw_id, draw_time, commit,
  acknowledge, text_is,
}

-- The number of remembered outputs.
abbrev pub seen_limit : ℕ
seen_limit = 64

unfoldable pub remember : String → List String → List String
remember hash seen =
    let grown = if contains_text seen hash then seen else seen ++ hash ∷ [] in
    if ltb seen_limit (length grown) then drop (length grown - seen_limit) grown else grown

unfoldable pub record_progress_output : Host → Session → String → Fields → String → Session
unfolding remember
record_progress_output host s name args output = record s {
  progress_seen_outputs =
      remember (host.sha256 (host.json_text (array (str name ∷ obj args ∷ str output ∷ []))))
        s.progress_seen_outputs;
}

texts : List String → Value
texts xs = array (map str xs)

transition_value : Transition → Value
transition_value t = object (
    ("from_phase", str t.from_phase) ∷ ("to_phase", str t.to_phase) ∷ ("reason", str t.reason) ∷ [])

-- `serde_json::to_value(w)`
workflow_value : Option Workflow → Value
unfolding texts transition_value
workflow_value none = null
workflow_value (some w) = object (
    ("active_phase", text w.active_phase)
    ∷ ("completed_phases", texts w.completed_phases)
    ∷ ("observed_evidence", texts w.observed_evidence)
    ∷ ("transitions", array (map transition_value w.transitions))
    ∷ [])

unfoldable pub progress_fingerprint : Host → Config → Session → String
unfolding workflow_value texts
progress_fingerprint host config s =
    let workflow = if is_none config.workflow then null else workflow_value s.workflow in
    let outputs = if is_none config.workflow then texts s.progress_seen_outputs else array [] in
    host.sha256 (host.json_text (array (workflow ∷ s.completion_artifacts ∷ outputs ∷ [])))

-- `append_correlated_tool_result`
abbrev pub append_correlated_tool_result :
    Session → String → String → String → String → String → Session
append_correlated_tool_result s message_id now id name output =
    append_message s message_id now
      (record (msg "tool" (some output)) { name = some name; tool_call_id = some id })

-- The texts of the faults that a checkpoint meets; the others arise from stored records.
abbrev fault_text : Fault → String
fault_text ordinal_overflow = "diagnostic ordinal overflow"
fault_text invalid_event = "invalid compaction event"
fault_text not_summary = "compaction event must contain a summary string"
fault_text legacy_differs = "legacy diagnostic snapshot differs from archived history"
fault_text unknown_counter = "unknown diagnostic counter family"
fault_text invalid_archived = "invalid archived compaction event"
fault_text (unknown_family family) = "unknown diagnostic family '" +++ family +++ "'"
fault_text (gap family) = "diagnostic recent history has a gap: family=" +++ family
fault_text (counter_differs family a b) =
    "diagnostic counter differs from archived history: family=" +++ family

abbrev pub ended_status : Session → Session
ended_status s =
    if str_eq s.run_status "running"
    then record s { run_status = if str_eq s.status "complete" then "complete" else "failed" }
    else s

abbrev pub reason_of : Session → String
reason_of s = or_else (s.last_error and_then λ e. as_str (index "code" e)) s.run_status

abbrev pub with_reason : Session → Session
with_reason s =
    if is_none s.run_termination_reason
    then record s { run_termination_reason = some (reason_of s) }
    else s

abbrev ended_at : String → Session → Session
ended_at now s = record s { run_ended_at = some now }

module _ (env : Env) where
  -- A session that is no longer active has its run ended.
  abbrev pub end_time : Session → Action (Unit {0})
  end_time s =
      if is_none s.run_ended_at then (draw_time env >>= λ now. modify (ended_at now)) else return tt

  abbrev pub end_run : Session → Action (Unit {0})
  end_run s =
      if str_eq s.status "active"
      then return tt
      else (modify ended_status >> (current >>= end_time) >> modify with_reason)

  abbrev staged : Result Fault Session → Action (Unit {0})
  staged (ok s) = modify λ _. s
  staged (err fault) = fail (fault_text fault)

  -- `checkpoint`
  abbrev pub engine_checkpoint : Value → Action (Unit {0})
  engine_checkpoint event =
      current
      >>= end_run
      >> (current >>= λ s. staged (stage s))
      >> commit env event
      >>= acknowledge env

  abbrev pub append : Message → Action (Unit {0})
  append message =
      draw_id env >>= λ id. draw_time env >>= λ now. modify λ s. append_message s id now message

  module _ (host : Host) (config : Config) where
    abbrev guidance : Session → String
    guidance s =
        or_else (instruction host config s)
          "Obtain new tool evidence or return the verified final deliverables."

    pub warn : Session → Action (Unit {0})
    warn s =
        let feedback =
          "No new task evidence in "
          +++ nat_text s.no_progress_steps
          +++ " decisions. Repeating a successful call does not complete missing requirements.\n"
          +++ guidance s in
        append (msg "user" (some feedback))
        >> engine_checkpoint (
            object (
              ("type", str "interim_result")
              ∷ ("step", str "no_progress_warning")
              ∷ (
                "data",
                object (
                    ("no_progress_steps", nat s.no_progress_steps)
                    ∷ ("message", str feedback)
                    ∷ []),
              )
              ∷ []))

    abbrev pub stopped : String → Session → Session
    stopped message s = record s {
      status = "failed";
      run_status = "failed";
      final_answer = some message;
    }

    -- The run fails at the limit.
    pub stop : ℕ → Session → Action (Unit {0})
    stop limit s =
        let message =
          "No new task evidence in "
          +++ nat_text limit
          +++ " decisions. "
          +++ guidance s
          +++ " Resume after correcting the workflow or instructions." in
        modify (stopped message)
        >> engine_checkpoint (
            object (
              ("type", str "error")
              ∷ ("code", str "no_progress_limit")
              ∷ ("message", str message)
              ∷ ("recoverable", bool true)
              ∷ []))

    -- The guidance stands from before the warning.
    pub judge : Session → Option ℕ → Action (Unit {0})
    unfolding warn stop
    judge s none = return tt
    judge s (some limit) =
        (if s.no_progress_steps == max (limit / 2) 1 then warn s else return tt)
        >> (if leb limit s.no_progress_steps then stop limit s else return tt)

    abbrev pub limit_of : Option ℕ
    limit_of = get_u64 "max_no_progress_steps" config.execution

    -- What the session counts: the decisions since the last progress, on a `usize`.
    unfoldable pub count_progress : String → String → Session → Session
    count_progress before now s = record s {
      no_progress_steps = if str_eq now before then (s.no_progress_steps + 1) % 2 ^ 64 else 0;
      progress_fingerprint = some now;
    }

    unfoldable pub observe_progress : String → Action (Unit {0})
    unfolding judge
    observe_progress before = current >>= λ s.
        let now = progress_fingerprint host config s in
        modify (count_progress before now)
        >> (if str_eq now before then (current >>= λ t. judge t limit_of) else return tt)
