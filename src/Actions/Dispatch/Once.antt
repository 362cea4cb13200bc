-- ===== src/Actions/Dispatch/Once.antt =====
-- The invocations of a dispatched call of agent-rust/src/actions.rs, and the commits before them.
use state_driven_agent.Common.{
  String, Bool, true, false, not, ◌&&◌, Option, none, some, List, [], ◌∷◌, ◌++◌, ◌≡◌, refl, sym, ap,
  ◌∙◌, if◌then◌else◌, Result, ok, err, str_eq,
}
use state_driven_agent.Common.Int.{ℤ, leb_ℤ}
use state_driven_agent.Json.{Value}
use state_driven_agent.Json.Host.{Host}
use state_driven_agent.Config.{Config}
use state_driven_agent.Session.{archive_record, Session, Receipt}
use state_driven_agent.Actions.{
  lift, return, fail, current, invoke, Effect, emitted, invoked, World, Env, Action, proceed, ◌>>=◌,
  checkpoint,
}
use state_driven_agent.Actions.Dispatch.{
  fixture, mode_of, block, commit_block, intend_or, terminal_result, command_of, namespace_of, Call,
  intend_or, settle, recover, Recovery, settled, unsettled, admit, attempt, may_repeat,
  max_attempts, attempts_of, started_execution, launch, resume, is_terminal, dispatch,
  check_identity, check_payload, found_execution,
}
use state_driven_agent.Actions.Gives.{Gives, Gives-bind, Gives-lift}
use state_driven_agent.Actions.Dispatch.Due.{
  IsExecution, IsDue, IsSame, intend_or-Gives, recover-Gives,
}
use state_driven_agent.Actions.Dispatch.Quiet.{
  latest, invocations, Quiet, checkpoint-Quiet, intend-Quiet, recover-Quiet, commit_block-Quiet,
  settle-Quiet, Quiet-bind,
}
use state_driven_agent.Actions.Dispatch.Committed.{checkpoint-IsCommitted}

module _ (host : Host) (env : Env) (config : Config) (call : Call) where
  -- What a dispatch from a session does to the effects: it runs no tool, or it runs the call's tool once,
  -- right behind the accepted commit of a session whose outbox ends with the started attempt of the
  -- call's execution; and this execution was one to be attempted.
  pub data Outcome (start : Session) (l l' : List Effect) : Type 0 where
    quiet : invocations l' ≡ invocations l → Outcome start l l'
    once :
        (event : Value) (s : Session) (e : Value) (now : String) (older : List Value)
        (log : List Effect) (receipt : Option Receipt)
        → IsDue host env config call start e
        → env.emit log event s ≡ ok receipt
        → invocations l' ≡ (some (emitted event s), call.tool, call.args) ∷ invocations l
        → s.pending_execution_outbox ≡ older ++ started_execution host env config call e now ∷ []
        → Outcome start l l'

  Outcome-from :
      (start : Session) (l m n : List Effect)
      → invocations m ≡ invocations l
      → Outcome start m n
      → Outcome start l n
  Outcome-from start l m n q (quiet h) = quiet (h ∙ q)
  Outcome-from start l m n q (once event s e now older log receipt d c h o) =
      once event s e now older log receipt d c
        (h ∙ ap (λ x. (some (emitted event s), call.tool, call.args) ∷ x) q) o

  module _ (start : Session) (namespace : String) (e : Value) (now : String) (older : List Value)
      (due : IsDue host env config call start e) where
    run :
        (event e' a key : Value) (w : World) (r : Result String (Unit {0}) × World)
        → checkpoint env event w ≡ r
        → w.session.pending_execution_outbox
          ≡ older ++ started_execution host env config call e now ∷ []
        → Outcome start w.log
            (proceed
              (settle host env config call e' a)
              (proceed (λ _. invoke env call.tool namespace key call.args) r)).1.log
    run event e' a key w (err x, w') q o =
        quiet (ap (λ r. invocations r.1.log) (sym q) ∙ (checkpoint-Quiet env event w).0)
    run event e' a key w (ok u, w') q o =
        let k = checkpoint-IsCommitted env event w w' q in
        once event k.session e now older k.before k.receipt due k.accepted
          ((settle-Quiet host env config call e' a _
              (record w' { log = invoked call.tool call.args ∷ w'.log })).0
            ∙ ap (λ l. (latest l, call.tool, call.args) ∷ invocations l) k.log
            ∙ ap (λ x. (some (emitted event k.session), call.tool, call.args) ∷ x) k.quiet)
          (k.outbox ∙ o)

  attempt-Outcome :
      (start : Session) (namespace : String) (e : Value) (ordinal : ℤ) (w : World)
      → IsDue host env config call start e
      → Outcome start w.log (attempt host env config call namespace e ordinal w).1.log
  unfolding attempt ◌>>=◌ archive_record
  attempt-Outcome start namespace e ordinal w due =
      Outcome-from start _ _ _ refl
        (run start namespace e (env.timestamp w.log) _ due _ _ _ _ _ _ refl refl)

  gates :
      (start : Session) (namespace : String) (e : Value) (ordinal : ℤ) (w : World) (b1 b2 b3 : Bool)
      → (b1 ≡ true → b2 ≡ false → IsDue host env config call start e)
      → Outcome start w.log
          (proceed
            (λ _. attempt host env config call namespace e ordinal)
            ((if not b1
                then block host env config call e
                else if b2
                then fail "recovery_required: action dispatch bound reached"
                else if b3
                then fail "recovery_required: no trusted recipient guarantee"
                else return tt)
              w)).1.log
  unfolding ◌>>=◌
  gates start namespace e ordinal w false b2 b3 due =
      failing (commit_block host env config call e w)
        (commit_block-Quiet host env config call e w).0
    where
      failing :
          (r : Result String (Unit {0}) × World)
          → invocations r.1.log ≡ invocations w.log
          → Outcome start w.log
              (proceed
                (λ _. attempt host env config call namespace e ordinal)
                (proceed (λ _. fail {A = Unit {0}} "recovery_required") r)).1.log
      failing (ok u, v) h = quiet h
      failing (err x, v) h = quiet h
  gates start namespace e ordinal w true true b3 due = quiet refl
  gates start namespace e ordinal w true false true due = quiet refl
  gates start namespace e ordinal w true false false due =
      attempt-Outcome start namespace e ordinal w (due refl refl)

  launch-Outcome :
      (start : Session) (namespace : String) (e : Value) (r : Recovery) (w : World)
      → IsExecution host env config call start e
      → check_payload host env config call e ≡ ok tt
      → is_terminal host env config call e ≡ false
      → IsSame host env config call e r
      → Outcome start w.log (launch host env config call namespace r w).1.log
  unfolding admit ◌>>=◌
  launch-Outcome start namespace e (settled result) w own same ongoing kept = quiet refl
  launch-Outcome start namespace e (unsettled e' ordinal) w own same ongoing kept =
      gates start namespace e' ordinal w (may_repeat host env config call e')
        (leb_ℤ (max_attempts host env config call e') (attempts_of host env config call e'))
        (str_eq (mode_of host env config call e') "idempotent" && not (str_eq call.tool fixture))
        λ repeatable left. record {
          execution = rw kept own;
          same_payload = rw kept same;
          unfinished = rw kept ongoing;
          repeatable = repeatable;
          attempts_left = left;
        }

  bind-Outcome :
      {A : Type 0} (start : Session) (P : A → Type 0) (m : Action A) (f : A → Action String)
      → Quiet m
      → Gives P m
      → ((a : A) (w : World) → P a → Outcome start w.log (f a w).1.log)
      → (w : World) → Outcome start w.log ((m >>= f) w).1.log
  unfolding ◌>>=◌
  bind-Outcome {A} start P m f p g q w = go (m w) refl (p w).0
    where
      go :
          (r : Result String A × World)
          → m w ≡ r
          → invocations r.1.log ≡ invocations w.log
          → Outcome start w.log (proceed f r).1.log
      go (ok a, v) e h = Outcome-from start w.log v.log _ h (q a v (g.given w v a e))
      go (err x, v) e h = quiet h

  resume-Outcome :
      (start : Session) (namespace : String) (e : Value) (w : World)
      → IsExecution host env config call start e
      → Outcome start w.log (resume host env config call namespace e w).1.log
  unfolding resume
  resume-Outcome start namespace e w own =
      bind-Outcome start (λ _. Unit {0}) current _ (λ w. (refl, refl))
        (record { given = λ w v s h. tt })
        (λ s v _.
          bind-Outcome start (λ _. check_payload host env config call e ≡ ok tt) _ _
            (Quiet-bind (lift (check_identity host env config call namespace s e)) _
              (λ w. (refl, refl)) λ _ w. (refl, refl))
            (Gives-bind (λ _. check_payload host env config call e ≡ ok tt)
              (lift (check_identity host env config call namespace s e)) _
              λ _.
                Gives-lift (λ _. check_payload host env config call e ≡ ok tt)
                  (check_payload host env config call e) λ u h. h)
            (λ _ u same. go (is_terminal host env config call e) refl u same) v)
        w
    where
      go :
          (b : Bool)
          → is_terminal host env config call e ≡ b
          → (w : World) → check_payload host env config call e ≡ ok tt
          → Outcome start w.log
              ((if b
                  then lift (terminal_result host env config call e)
                  else (recover host env config call namespace e
                      >>= launch host env config call namespace))
                w).1.log
      go true ongoing w same = quiet refl
      go false ongoing w same =
          bind-Outcome start (IsSame host env config call e)
            (recover host env config call namespace e) _
            (recover-Quiet host env config call namespace e)
            (recover-Gives host env config call namespace e)
            (λ r v kept. launch-Outcome start namespace e r v own same ongoing kept) w

  -- A dispatch runs no tool, or it runs the tool of the call exactly once. In that case the effect
  -- right before is the accepted commit of a session whose outbox ends with the started attempt of
  -- an execution. This execution is the one that the session at the start has for the call, or, if
  -- it has none, one made for the call; its payload is the one of the call, it had not succeeded or
  -- failed, it was one that may be repeated, and it had attempts left.
  pub dispatch-Outcome :
      (w : World) → Outcome w.session w.log (dispatch host env config call w).1.log
  unfolding dispatch ◌>>=◌
  dispatch-Outcome w =
      bind-Outcome w.session (IsExecution host env config call w.session)
        (intend_or host env config call (namespace_of (command_of w.session)) w.session
          (found_execution host env config call w.session))
        (resume host env config call (namespace_of (command_of w.session)))
        (intent w.session (found_execution host env config call w.session))
        (intend_or-Gives host env config call w.session)
        (λ e v own. resume-Outcome w.session (namespace_of (command_of w.session)) e v own) w
    where
      intent :
          (s : Session) (o : Option Value)
          → Quiet (intend_or host env config call (namespace_of (command_of s)) s o)
      intent s (some e) = λ w. (refl, refl)
      intent s none = intend-Quiet host env config call _ s
