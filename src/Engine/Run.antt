-- ===== src/Engine/Run.antt =====
-- agent-rust/src/engine.rs, `run`: the loop of the engine, from the start of a run to its end.
-- The loop runs on fuel, which is the number of steps that the run may take, and reports the end of its fuel.
pub mod Closed
pub mod Ends
mod Tests
use state_driven_agent.Common.{
  ℕ, zero, suc, String, Bool, true, false, not, ◌&&◌, Option, none, some, [], ◌∷◌, if◌then◌else◌,
  is_none, is_empty, or_else, str_eq, ◌+++◌,
}
use state_driven_agent.Common.Int.{ℤ, pos_part, leb_ℤ, add64}
use state_driven_agent.Json.{Value, bool, str, object}
use state_driven_agent.Json.Host.{Host}
use state_driven_agent.Config.{Config}
use state_driven_agent.Session.{Session}
use state_driven_agent.Policy.{run_allowance}
use state_driven_agent.Progress.{progress_fingerprint, engine_checkpoint}
use state_driven_agent.Actions.{
  Env, Action, return, ◌>>=◌, ◌>>◌, current, modify, draw_id, draw_time, audit, int,
}
use state_driven_agent.Identity.{int_text}
use state_driven_agent.Engine.Parts.{event, error_event, fence_value, run_started, continues, Parts}
use state_driven_agent.Engine.Answer.{settle_and_observe}
use state_driven_agent.Engine.Round.{round}

module _ (host : Host) (env : Env) (config : Config) (parts : Parts) where
  abbrev pub begin_fingerprint : Session → Session
  begin_fingerprint s = record s {
    progress_fingerprint =
        some (or_else s.progress_fingerprint (progress_fingerprint host config s));
  }

  abbrev start_record : Session → Value
  start_record s = object (
      ("fence", fence_value s.execution_fence)
      ∷ ("disconnect_policy", str "cancel_at_boundary")
      ∷ [])

  abbrev start_event : Session → Value
  start_event s =
      event "status" (("message", str "Agent run started.") ∷ ("run_count", int s.run_count) ∷ [])

  start : Action (Unit {0})
  start = modify begin_fingerprint >> draw_id env >>= λ id. draw_time env >>= λ now.
      modify (run_started id now)
      >> (current >>= λ s. audit env "run_started" (start_record s))
      >> (current >>= λ s. engine_checkpoint env (start_event s))

  -- Calls that an earlier run left.
  abbrev resume_pending : Session → Action (Option Bool)
  resume_pending s =
      if is_empty s.pending_tool_calls
      then return (some true)
      else settle_and_observe host env config parts (progress_fingerprint host config s)

  abbrev pub onward : Action (Option (Unit {0})) → Option Bool → Action (Option (Unit {0}))
  onward next none = return none
  onward next (some true) = next
  onward next (some false) = return (some tt)

  -- The loop, where none is the end of the fuel.
  unfoldable pub rounds : ℕ → ℤ → Action (Option (Unit {0}))
  rounds zero limit = current >>= λ s. return (if continues limit s then none else some tt)
  rounds (suc fuel) limit = current >>= λ s.
      if continues limit s
      then (round host env config parts >>= onward (rounds fuel limit))
      else return (some tt)

  pub limit_text : ℤ → String
  unfolding int_text
  limit_text cap =
      "Step limit ("
      +++ int_text cap
      +++ ") reached without a final answer. Resume with another run request."

  abbrev pub at_limit : ℤ → Session → Session
  at_limit cap s = record s {
    status = "failed";
    run_status = "failed";
    run_termination_reason = some "step_limit";
    last_error = some (
        object (
          ("code", str "step_limit")
          ∷ ("message", str (limit_text cap))
          ∷ ("recoverable", bool true)
          ∷ []));
    final_answer = some (limit_text cap);
  }

  abbrev pub stop_at_limit : ℤ → ℤ → Session → Action (Unit {0})
  unfolding limit_text
  stop_at_limit cap limit s =
      if str_eq s.status "active" && leb_ℤ limit s.step_count
      then (modify (at_limit cap)
          >> engine_checkpoint env (error_event "step_limit" (str (limit_text cap))))
      else return tt

  abbrev pub close_status : Session → Session
  close_status s =
      if not (str_eq s.status "active") && str_eq s.run_status "running"
      then record s { run_status = if str_eq s.status "complete" then "complete" else "failed" }
      else s

  abbrev closed_at : String → Session → Session
  closed_at now s = record s { run_ended_at = some now }

  abbrev pub close_time : Session → Action (Unit {0})
  close_time s =
      if not (str_eq s.run_status "running") && is_none s.run_ended_at
      then (draw_time env >>= λ now. modify (closed_at now))
      else return tt

  abbrev pub close_reason : Session → Session
  close_reason s =
      if not (str_eq s.run_status "running") && is_none s.run_termination_reason
      then record s { run_termination_reason = some s.run_status }
      else s

  abbrev pub finish : ℤ → ℤ → Action (Unit {0})
  finish cap limit =
      (current >>= stop_at_limit cap limit)
      >> modify close_status
      >> (current >>= close_time)
      >> modify close_reason

  abbrev pub finished : ℤ → ℤ → Option (Unit {0}) → Action (Option (Unit {0}))
  finished cap limit none = return none
  finished cap limit (some u) = finish cap limit >> return (some u)

  abbrev pub looped : ℤ → ℤ → Option Bool → Action (Option (Unit {0}))
  looped cap limit none = return none
  looped cap limit (some b) = rounds (pos_part cap) limit >>= finished cap limit

  -- `run`
  unfoldable pub run : Option ℤ → Action (Option (Unit {0}))
  unfolding start
  run requested = current >>= λ s.
      let cap = run_allowance config requested in
      let limit = add64 s.step_count cap in
      start >> (current >>= resume_pending) >>= looped cap limit
