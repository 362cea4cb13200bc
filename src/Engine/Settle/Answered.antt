-- ===== src/Engine/Settle/Answered.antt =====
-- How the pending calls of agent-rust/src/engine.rs are answered.
use state_driven_agent.Common.{
  ℕ, String, Bool, true, false, not, Option, none, some, List, [], ◌∷◌, ◌++◌, ◌≡◌, refl, sym, ap,
  ◌∙◌, length, is_none, if◌then◌else◌, Result, ok, err,
}
use state_driven_agent.Json.{Value}
use state_driven_agent.Json.Host.{Host}
use state_driven_agent.Config.{Config}
use state_driven_agent.Session.{Message, Session, append_message}
use state_driven_agent.Session.Kept.{Kept, conversation, conversation-append_message}
use state_driven_agent.Workflow.Kept.{record_evidence-Kept}
use state_driven_agent.Policy.{allowed_in_phase_for_session}
use state_driven_agent.Completion.{capture_artifacts}
use state_driven_agent.Completion.Kept.{capture_artifacts-Kept}
use state_driven_agent.Progress.{record_progress_output, engine_checkpoint}
use state_driven_agent.Progress.Keeps.{engine_checkpoint-Keeps}
use state_driven_agent.Actions.{World, Env, Action, proceed, return, ◌>>=◌, Effect}
use state_driven_agent.Actions.Frame.{Keeps, Keeps-bind, Keeps-if}
use state_driven_agent.Actions.Dispatch.Keeps.{dispatch-Keeps}
use state_driven_agent.Engine.Settle.{
  settled_id, settled_name, settled_args, answer_to, remove_first, rejection_of, keep_output,
  output_of, completed_event, answer, settle_call,
}

-- One answer for each call, in the order of the calls.
pub data AreAnswers : List Value → List Message → Type 0 where
  no_answers : AreAnswers [] []
  answered :
      (call : Value) (calls : List Value) (output : String) (answers : List Message)
      → AreAnswers calls answers
      → AreAnswers (call ∷ calls) (answer_to call output ∷ answers)

-- Between two sessions, some of the first calls were answered, and these only are no longer pending.
pub record IsSettled (s t : Session) : Type 0 where
  pub done : List Value
  pub answers : List Message
  pub split : s.pending_tool_calls ≡ done ++ t.pending_tool_calls
  pub are_answers : AreAnswers done answers
  pub told : conversation t.memory ≡ conversation s.memory ++ answers

append_assoc : {A : Type 0} (xs ys zs : List A) → (xs ++ ys) ++ zs ≡ xs ++ (ys ++ zs)
append_assoc [] ys zs = refl
append_assoc (x ∷ xs) ys zs = ap (λ l. x ∷ l) (append_assoc xs ys zs)

append_nil : {A : Type 0} (xs : List A) → xs ++ [] ≡ xs
append_nil [] = refl
append_nil (x ∷ xs) = ap (λ l. x ∷ l) (append_nil xs)

AreAnswers-append :
    (calls more : List Value) (answers later : List Message)
    → AreAnswers calls answers
    → AreAnswers more later
    → AreAnswers (calls ++ more) (answers ++ later)
AreAnswers-append _ more _ later no_answers k = k
AreAnswers-append _ more _ later (answered call calls output answers h) k =
    answered call (calls ++ more) output (answers ++ later)
      (AreAnswers-append calls more answers later h k)

pub IsSettled-Kept : (s t : Session) → Kept s t → IsSettled s t
IsSettled-Kept s t k = record {
  done = [];
  answers = [];
  split = sym (ap (λ x. x.0.1) k);
  are_answers = no_answers;
  told = ap (λ x. x.0.0) k ∙ sym (append_nil _);
}

pub IsSettled-trans : (s t u : Session) → IsSettled s t → IsSettled t u → IsSettled s u
IsSettled-trans s t u h k = record {
  done = h.done ++ k.done;
  answers = h.answers ++ k.answers;
  split = h.split ∙ ap (λ l. h.done ++ l) k.split ∙ sym (append_assoc h.done k.done _);
  are_answers = AreAnswers-append _ _ _ _ h.are_answers k.are_answers;
  told = k.told ∙ ap (λ l. l ++ k.answers) h.told ∙ append_assoc _ h.answers k.answers;
}

module _ (host : Host) (env : Env) (config : Config) where
  keep_output-Kept :
      (call : Value) (output : String) (s : Session)
      → Kept s (keep_output host env config call output s)
  unfolding keep_output record_progress_output
  keep_output-Kept call output s =
      record_evidence-Kept host config _ _ _ _
      ∙ (go _ (
            capture_artifacts host config s (settled_id call) (settled_name call)
              (settled_args call) output)
          ∙ capture_artifacts-Kept host config _ _ _ _ s)
    where
      go :
          (b : Bool) (t : Session)
          → Kept t (
              if b
              then record_progress_output host t (settled_name call) (settled_args call) output
              else t)
      go true t = refl
      go false t = refl

  pub output_of-Keeps :
      (fixed : Option String) (call : Value) (s : Session) (o : Option String)
      → Keeps (output_of host env config fixed call s o)
  unfolding output_of
  output_of-Keeps fixed call s (some reason) = record { leaves = λ w. refl }
  output_of-Keeps fixed call s none =
      Keeps-if (allowed_in_phase_for_session host config s fixed (settled_name call)) _ _
        (Keeps-bind _ _ (dispatch-Keeps host env config _) λ output.
          Keeps-bind _ _ (record { leaves = λ w. keep_output-Kept call output w.session })
            λ _. record { leaves = λ w. refl })
        (record { leaves = λ w. refl })

  -- The call at the front is answered and removed.
  answered_first :
      (s : Session) (id now output : String) (call : Value) (calls : List Value)
      → s.pending_tool_calls ≡ call ∷ calls
      → IsSettled s (remove_first (append_message s id now (answer_to call output)))
        × (length
              (remove_first (append_message s id now (answer_to call output))).pending_tool_calls
            ≡ length calls)
  unfolding append_message
  answered_first s id now output call calls h = (
    record {
      done = call ∷ [];
      answers = answer_to call output ∷ [];
      split = rw h refl;
      are_answers = answered call [] output [] no_answers;
      told = conversation-append_message s id now (answer_to call output);
    },
    rw h refl,
  )

  answer-IsSettled :
      (w : World) (call : Value) (calls : List Value) (out : Bool × String)
      → w.session.pending_tool_calls ≡ call ∷ calls
      → IsSettled w.session (answer host env config call out w).1.session
        × (length (answer host env config call out w).1.session.pending_tool_calls ≡ length calls)
  unfolding answer ◌>>=◌
  answer-IsSettled w call calls (executed, output) h =
      let v : World = record {
        session = remove_first (
            append_message w.session (env.fresh_id w.log) (env.timestamp (Effect.drew_id ∷ w.log))
              (answer_to call output));
        log = Effect.drew_time ∷ Effect.drew_id ∷ w.log;
      } in
      let (settled, fewer) =
        answered_first w.session (env.fresh_id w.log) (env.timestamp (Effect.drew_id ∷ w.log))
          output call calls h in
      let later : Kept v.session
          (engine_checkpoint env (completed_event host env config call executed output)
            v).1.session =
        (engine_checkpoint-Keeps env (completed_event host env config call executed output)).leaves
          v in
      (
        IsSettled-trans _ _ _ settled (IsSettled-Kept _ _ later),
        ap (λ x. length x.0.1) later ∙ fewer,
      )

  -- A round of the loop with this many calls left.
  pub record IsRound {A : Type 0} (n : ℕ) (w : World) (o : Result String A × World) : Type 0 where
    pub settled : IsSettled w.session o.1.session
    pub fewer : (a : A) → o.0 ≡ ok a → length o.1.session.pending_tool_calls ≡ n

  IsRound-return :
      {A : Type 0} (n : ℕ) (w : World) (a : A) (r : Result String (Unit {0}) × World)
      → IsSettled w.session r.1.session
      → length r.1.session.pending_tool_calls ≡ n
      → IsRound n w (proceed (λ _. return a) r)
  IsRound-return n w a (ok u, v) h k = record { settled = h; fewer = λ b e. k }
  IsRound-return n w a (err x, v) h k = record { settled = h; fewer = λ b e. k }

  IsRound-bind :
      {A B : Type 0} (n : ℕ) (w : World) (f : A → Action B) (r : Result String A × World)
      → Kept w.session r.1.session
      → ((a : A) → IsRound n r.1 (f a r.1))
      → IsRound n w (proceed f r)
  IsRound-bind n w f (ok a, v) k h = record {
    settled = IsSettled-trans _ _ _ (IsSettled-Kept _ _ k) (h a).settled;
    fewer = (h a).fewer;
  }
  IsRound-bind n w f (err x, v) k h = record { settled = IsSettled-Kept _ _ k; fewer = λ b e. cc }

  pub settle_call-IsRound :
      (fixed : Option String) (w : World) (call : Value) (calls : List Value)
      → w.session.pending_tool_calls ≡ call ∷ calls
      → IsRound (length calls) w (settle_call host env config fixed call w)
  unfolding settle_call ◌>>=◌
  settle_call-IsRound fixed w call calls h =
      let o = rejection_of host env config fixed call w.session in
      let r = output_of host env config fixed call w.session o w in
      let k = (output_of-Keeps fixed call w.session o).leaves w in
      IsRound-bind (length calls) w _ r k λ out.
        let (settled, fewer) = answer-IsSettled r.1 call calls out (ap (λ x. x.0.1) k ∙ h) in
        IsRound-return (length calls) r.1 (not (is_none o)) (answer host env config call out r.1)
          settled fewer
