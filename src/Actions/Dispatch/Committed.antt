-- ===== src/Actions/Dispatch/Committed.antt =====
-- What a checkpoint of agent-rust/src/actions.rs that succeeds has committed.
use state_driven_agent.Common.{
  String, Bool, true, false, ◌&&◌, Option, List, ◌∷◌, ◌≡◌, refl, if◌then◌else◌, Result, ok, err,
  str_eq, is_none,
}
use state_driven_agent.Json.{Value}
use state_driven_agent.Session.{Session, Receipt, acknowledge_checkpoint, clear_outboxes}
use state_driven_agent.Actions.{
  return, fail, modify, commit, draw_time, ended, Effect, emitted, World, Env, proceed, ◌>>=◌,
  checkpoint, acknowledge, committed,
}
use state_driven_agent.Actions.Dispatch.Quiet.{invocations}

-- Where a checkpoint succeeds, the session that it emitted was accepted and has the outbox of the world
-- before.
pub record IsCommitted (env : Env) (event : Value) (w w' : World) : Type 0 where
  pub session : Session
  pub before : List Effect
  pub log : w'.log ≡ emitted event session ∷ before
  pub receipt : Option Receipt
  pub accepted : env.emit before event session ≡ ok receipt
  pub quiet : invocations before ≡ invocations w.log
  pub outbox : session.pending_execution_outbox ≡ w.session.pending_execution_outbox

acknowledge_log :
    (env : Env) (receipt : Option Receipt) (v w' : World)
    → acknowledge env receipt v ≡ (ok tt, w')
    → w'.log ≡ v.log
unfolding ◌>>=◌
acknowledge_log env receipt v w' h = go (acknowledge_checkpoint receipt v.session).needs_reload h
  where
    go :
        (b : Bool)
        → (if b then fail "historical commit receipt requires reload" else modify clear_outboxes)
            (record v { session = acknowledge_checkpoint receipt v.session })
          ≡ (ok tt, w')
        → w'.log ≡ v.log
    go true h = cc
    go false h = cc

commit_log :
    (env : Env) (event : Value) (v w' : World) (r : Result String (Option Receipt))
    → proceed (acknowledge env) (committed event v r) ≡ (ok tt, w')
    → (w'.log ≡ emitted event v.session ∷ v.log) × (receipt : Option Receipt) × (r ≡ ok receipt)
commit_log env event v w' (err x) h = cc
commit_log env event v w' (ok receipt) h = (acknowledge_log env receipt _ w' h, receipt, refl)

pub checkpoint-IsCommitted :
    (env : Env) (event : Value) (w w' : World)
    → checkpoint env event w ≡ (ok tt, w')
    → IsCommitted env event w w'
unfolding ◌>>=◌
checkpoint-IsCommitted env event w w' h =
    go (str_eq w.session.run_status "blocked" && is_none w.session.run_ended_at) h
  where
    last :
        (v : World)
        → proceed (acknowledge env) (commit env event v) ≡ (ok tt, w')
        → (w'.log ≡ emitted event v.session ∷ v.log)
          × (receipt : Option Receipt) × (env.emit v.log event v.session ≡ ok receipt)
    last v h = commit_log env event v w' (env.emit v.log event v.session) h

    go :
        (b : Bool)
        → proceed (acknowledge env) (
            proceed
              (λ _. commit env event)
              ((if b then (draw_time env >>= λ now. modify (ended env now)) else return tt) w))
          ≡ (ok tt, w')
        → IsCommitted env event w w'
    go false h = record {
      session = w.session;
      before = w.log;
      log = (last w h).0;
      receipt = (last w h).1;
      accepted = (last w h).2;
      quiet = refl;
      outbox = refl;
    }
    go true h =
        let v : World = record {
          session = ended env (env.timestamp w.log) w.session;
          log = Effect.drew_time ∷ w.log;
        } in
        let (log, receipt, accepted) = last v h in
        record {
          session = v.session;
          before = v.log;
          log = log;
          receipt = receipt;
          accepted = accepted;
          quiet = refl;
          outbox = refl;
        }
