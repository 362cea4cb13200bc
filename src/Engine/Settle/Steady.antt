-- ===== src/Engine/Settle/Steady.antt =====
-- The count of steps, which the settling of pending calls in agent-rust/src/engine.rs leaves as it is.
use state_driven_agent.Common.{
  ℕ, zero, suc, String, Bool, ◌||◌, Option, none, some, List, [], ◌∷◌, refl,
}
use state_driven_agent.Json.{Value}
use state_driven_agent.Json.Host.{Host}
use state_driven_agent.Config.{Config}
use state_driven_agent.Actions.{Env, Action, current}
use state_driven_agent.Actions.Frame.{Leaves, Leaves-bind, Leaves-if}
use state_driven_agent.Engine.Settle.{
  answer, answer_to, settle_call, settle_next, settle_calls, count_invalid, close_settled,
  report_limit, settle_pending, rejection_of, completed_event,
}
use state_driven_agent.Engine.Settle.Answered.{output_of-Keeps}
use state_driven_agent.Engine.Settle.Ends.{close_batch-Keeps, count_invalid-Keeps}
use state_driven_agent.Progress.Steady.{steps, Leaves-Keeps, checkpoint-Leaves, append-Leaves}

module _ (env : Env) where
  module _ (host : Host) (config : Config) where
    answer-Leaves :
        (call : Value) (out : Bool × String) → Leaves steps (answer host env config call out)
    unfolding answer
    answer-Leaves call (executed, output) =
        Leaves-bind steps _ _
          (Leaves-bind steps _ _ (append-Leaves env (answer_to call output))
            λ _. record { leaves = λ w. refl })
          λ _. checkpoint-Leaves env (completed_event host env config call executed output)

    settle_call-Leaves :
        (fixed : Option String) (call : Value)
        → Leaves steps (settle_call host env config fixed call)
    unfolding settle_call
    settle_call-Leaves fixed call =
        Leaves-bind steps current _ (record { leaves = λ w. refl })
          λ s.
            Leaves-bind steps _ _
              (Leaves-Keeps _ (
                output_of-Keeps host env config fixed call s
                  (rejection_of host env config fixed call s)))
              λ out.
                Leaves-bind steps _ _ (answer-Leaves call out) λ _. record { leaves = λ w. refl }

    settle_next-Leaves :
        (next : Bool → Action (Option Bool)) (fixed : Option String) (rejected : Bool)
        (calls : List Value)
        → ((b : Bool) → Leaves steps (next b))
        → Leaves steps (settle_next host env config next fixed rejected calls)
    unfolding settle_next
    settle_next-Leaves next fixed rejected [] h = record { leaves = λ w. refl }
    settle_next-Leaves next fixed rejected (call ∷ calls) h =
        Leaves-bind steps _ _ (settle_call-Leaves fixed call) λ r. h (rejected || r)

    settle_calls-Leaves :
        (fuel : ℕ) (fixed : Option String) (rejected : Bool)
        → Leaves steps (settle_calls host env config fuel fixed rejected)
    unfolding settle_calls
    settle_calls-Leaves zero fixed rejected =
        Leaves-bind steps current _ (record { leaves = λ w. refl })
          λ s. record { leaves = λ w. refl }
    settle_calls-Leaves (suc fuel) fixed rejected =
        Leaves-bind steps current _ (record { leaves = λ w. refl })
          λ s.
            settle_next-Leaves (settle_calls host env config fuel fixed) fixed rejected
              s.pending_tool_calls (settle_calls-Leaves fuel fixed)

    close_settled-Leaves :
        (fixed : Option String) (o : Option Bool)
        → Leaves steps (close_settled host env config fixed o)
    unfolding close_settled
    close_settled-Leaves fixed none = record { leaves = λ w. refl }
    close_settled-Leaves fixed (some rejected) =
        Leaves-bind steps _ _ (Leaves-Keeps _ (close_batch-Keeps host env config fixed rejected))
          λ _. record { leaves = λ w. refl }

    pub settle_pending-Leaves : Leaves steps (settle_pending host env config)
    unfolding settle_pending
    settle_pending-Leaves =
        Leaves-bind steps current _ (record { leaves = λ w. refl })
          λ s. Leaves-bind steps _ _ (settle_calls-Leaves _ _ _) (close_settled-Leaves _)

    pub count_invalid-Leaves : Leaves steps (count_invalid host env config)
    count_invalid-Leaves = Leaves-Keeps _ (count_invalid-Keeps host env config)

    pub report_limit-Leaves : (reached : Bool) → Leaves steps (report_limit host env config reached)
    report_limit-Leaves reached =
        Leaves-if steps reached _ _
          (Leaves-bind steps current _ (record { leaves = λ w. refl }) λ s. checkpoint-Leaves env _)
          (record { leaves = λ w. refl })
